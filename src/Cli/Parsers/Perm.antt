-- ===== src/Cli/Parsers/Perm.antt =====
-- bc_seek_cli_parse_perm_filter of src/cli/bc_seek_cli_parsers.c. A mask is an `unsigned int` of 32
-- bits.
use bc_seek.Base.{
  ℕ, ◌+◌, ◌-◌, ◌*◌, ◌/◌, ◌%◌, ◌^◌, ◌≤◌, ◌<◌, ◌≡◌, ◌↔◌, ◌||◌, refl, Option, none, some, [], ◌∷◌,
  Bytes, length, take, take-length, get_or, ltb, ◌==◌, if◌then◌else◌, bit_or, bit_or-octal, arith,
  Option-cases, inl, inr,
}
use bc_seek.CoreLib.{BcCore, IsLawful}
use bc_seek.Strings.{strings_length, strings_length_lem}

abbrev pub uint_max : ℕ
uint_max = 2 ^ 32 - 1

-- One round: `mask << 3` drops the bits past the 32nd.
unfoldable pub push_octal : ℕ → ℕ → ℕ
push_octal mask digit = bit_or (mask * 8 % 2 ^ 32) digit

unfoldable pub parse_perm_loop : Bytes → ℕ → Option ℕ
parse_perm_loop [] mask = some mask
parse_perm_loop (character ∷ rest) mask =
    let next = parse_perm_loop rest (push_octal mask (character - b'0')) in
    if ltb character b'0' || ltb b'7' character
    then none
    else if ltb (uint_max / 8) mask
    then none
    else next

unfoldable pub parse_perm_filter : BcCore → Option Bytes → Option ℕ
parse_perm_filter C none = none
parse_perm_filter C (some value) =
    if get_or value 0 0 == 0
    then none
    else elim (parse_perm_loop (take (strings_length C value) value) 0) [
      | none ↦ none
      | some mask ↦ if ltb 0o7777 mask then none else some mask
    ]

abbrev pub AllOctal : Bytes → Type 0
AllOctal [] = Unit
AllOctal (c ∷ s) = (b'0' ≤ c) × (c ≤ b'7') × AllOctal s

-- The number that octal digits spell behind `n`, with no bound.
abbrev pub octal : ℕ → Bytes → ℕ
octal n [] = n
octal n (c ∷ s) = octal (n * 8 + (c - b'0')) s

octal-le : (s : Bytes) (n : ℕ) → n ≤ octal n s
octal-le [] n = omega arith
octal-le (c ∷ s) n = omega (arith, octal-le s (n * 8 + (c - b'0')))

push_octal_lem : (m d : ℕ) → m ≤ uint_max / 8 → d < 8 → push_octal m d ≡ m * 8 + d
unfolding push_octal
push_octal_lem m d fits h =
    let small : m * 8 % 2 ^ 32 ≡ m * 8 = omega arith in rw small (bit_or-octal m d h)

perm_sound : (s : Bytes) (n r : ℕ) → parse_perm_loop s n ≡ some r → AllOctal s × (r ≡ octal n s)
unfolding parse_perm_loop
perm_sound [] n r h = ground arith
perm_sound (c ∷ s) n r h =
    ground (arith, perm_sound s (push_octal n (c - b'0')) r, push_octal_lem n (c - b'0'))

perm_complete :
    (s : Bytes) (n : ℕ) → AllOctal s → octal n s ≤ 0o7777 → parse_perm_loop s n ≡ some (octal n s)
unfolding parse_perm_loop
perm_complete [] n d fits = refl
perm_complete (c ∷ s) n (low, high, ds) fits =
    let m = n * 8 + (c - b'0') in
    ground (
      arith,
      octal-le s m,
      push_octal_lem n (c - b'0') (omega (arith, octal-le s m)) (omega arith),
      perm_complete s m ds fits,
    )

-- `s` is one or more octal digits that spell `mask`, of at most twelve bits.
pub record PermText (s : Bytes) (mask : ℕ) : Type 0 where
  pub some_digit : 0 < length s
  pub all_octal : AllOctal s
  pub exact : mask ≡ octal 0 s
  pub fits : mask ≤ 0o7777

module _ (C : BcCore) (L : IsLawful C) where
  whole : (s : Bytes) → take (strings_length C s) s ≡ s
  whole s = rw (strings_length_lem C L s) (take-length s)

  accepts : (s : Bytes) (mask : ℕ) → parse_perm_filter C (some s) ≡ some mask → PermText s mask
  unfolding parse_perm_filter
  accepts [] mask h = absurd (cc)
  accepts (c ∷ s) mask h =
      elim (Option-cases (parse_perm_loop (take (strings_length C (c ∷ s)) (c ∷ s)) 0)) [
        | inl failed ↦ absurd (ground arith)
        | inr (m, found) ↦
            let (digits, exact) = perm_sound (c ∷ s) 0 m (rw (whole (c ∷ s)) at found) in
            record {
              some_digit = omega arith;
              all_octal = digits;
              exact = ground arith;
              fits = ground arith;
            }
      ]

  complete : (s : Bytes) (mask : ℕ) → PermText s mask → parse_perm_filter C (some s) ≡ some mask
  unfolding parse_perm_filter
  complete [] mask p = absurd (omega (arith, p.some_digit))
  complete (c ∷ s) mask p =
      rw (whole (c ∷ s), parse_perm_filter)
        (ground (
          arith,
          p.exact,
          p.fits,
          perm_complete (c ∷ s) 0 p.all_octal (omega (arith, p.exact, p.fits)),
        ))

  -- `--perm` accepts exactly one or more octal digits whose value is at most 07777, with that
  -- value: the 32-bit accumulator never loses a bit. The core library is lawful.
  pub parse_perm_filter_iff :
      (s : Bytes) (mask : ℕ) → (parse_perm_filter C (some s) ≡ some mask) ↔ PermText s mask
  parse_perm_filter_iff s mask = (accepts s mask, complete s mask)
