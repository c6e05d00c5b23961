-- ===== src/Cli/Parsers/SizeText.antt =====
-- The grammar of bc_seek_cli_parse_size_filter of src/cli/bc_seek_cli_parsers.c: `SizeText`, beside
-- the parser.
use bc_seek.Base.{
  ℕ, zero, suc, ◌-◌, ◌*◌, ◌^◌, ◌≤◌, ◌<◌, ◌≡◌, ◌↔◌, ◌⊎◌, inl, inr, refl, ap, sym, ◌∙◌, none, some,
  [], ◌∷◌, ◌++◌, append-nil, Bytes, take, length, get_or, length-append, take-append_length,
  take-length, get_or-append_length, ◌==◌, if◌then◌else◌, Option-cases, arith,
}
use bc_seek.Types.{CompareOp}
use bc_seek.CoreLib.{BcCore, IsLawful}
use bc_seek.Strings.{strings_length_lem}
use bc_seek.Cli.Parsers.Unsigned.{
  uint64_max, parse_unsigned, parse_unsigned_iff, Spells, AllDigits, IsDigit, decimal,
}
use bc_seek.Cli.Parsers.Sign.{split_sign, sign_text, split_sign-text, split_sign-signed, first_byte}
use bc_seek.Cli.Parsers.Size.{
  size_suffix, scale_size, parse_size_digits, parse_size_cursor, parse_size_filter, SizeUnit,
  blocks, unit_c, unit_w, unit_b, unit_k, unit_K, unit_M, unit_G, unit_T, unit_bytes, unit_text,
  SizeText,
}

-- A nonempty text ends in its last byte.
pub snoc_view : (s : Bytes) (n : ℕ) → length s ≡ suc n → s ≡ take n s ++ get_or s n 0 ∷ []
snoc_view [] n h = absurd (omega arith)
snoc_view (a ∷ []) zero h = refl
snoc_view (a ∷ b ∷ s) zero h = absurd (omega arith)
snoc_view (a ∷ s) (suc n) h = ap (λ r. a ∷ r) (snoc_view s n (omega arith))

last-IsDigit : (s : Bytes) (n : ℕ) → length s ≡ suc n → AllDigits s → IsDigit (get_or s n 0)
last-IsDigit [] n h d = absurd (omega arith)
last-IsDigit (a ∷ s) zero h d = d.0
last-IsDigit (a ∷ s) (suc n) h d = last-IsDigit s n (omega arith) d.1

-- The unit that a suffix byte stands for.
unit_of : ℕ → SizeUnit
unit_of c =
    if c == b'c'
    then unit_c
    else if c == b'w'
    then unit_w
    else if c == b'b'
    then unit_b
    else if c == b'k'
    then unit_k
    else if c == b'K'
    then unit_K
    else if c == b'M'
    then unit_M
    else if c == b'G'
    then unit_G
    else unit_T

size_suffix-cases :
    (c m k : ℕ)
    → size_suffix c ≡ some (m, k)
    → ((k ≡ 1) × (unit_text (unit_of c) ≡ c ∷ []) × (m ≡ unit_bytes (unit_of c)))
      ⊎ ((k ≡ 0) × (m ≡ 512))
unfolding size_suffix unit_of
size_suffix-cases c m k h = ground arith

size_suffix-digit : (c : ℕ) → IsDigit c → size_suffix c ≡ some (512, 0)
unfolding size_suffix
size_suffix-digit c d = ground arith

scale_size-eq_some :
    (op op' : CompareOp) (m n t : ℕ)
    → 0 < m
    → scale_size op m n ≡ some (op', t)
    → (op' ≡ op) × (t ≡ n * m) × (t ≤ uint64_max)
unfolding scale_size
scale_size-eq_some op op' m n t pos h = grind arith

scale_size-fits :
    (op : CompareOp) (m n : ℕ) → 0 < m → n * m ≤ uint64_max → scale_size op m n ≡ some (op, n * m)
unfolding scale_size
scale_size-fits op m n pos h = grind arith

-- Digits and what `parse_size_digits` makes of them.
parse_size_digits-some :
    (op : CompareOp) (s : Bytes) (n m v : ℕ)
    → n ≤ length s
    → Spells (take n s) v
    → 0 < m
    → v * m ≤ uint64_max
    → parse_size_digits op s n m ≡ some (op, v * m)
unfolding parse_size_digits
parse_size_digits-some op s n m v h p pos fits =
    rw ((parse_unsigned_iff s n v h).1 p, parse_size_digits) (scale_size-fits op m v pos fits)

parse_size_digits-eq_some :
    (op op' : CompareOp) (s : Bytes) (n m t : ℕ)
    → n ≤ length s
    → 0 < m
    → parse_size_digits op s n m ≡ some (op', t)
    → (v : ℕ) × Spells (take n s) v × (op' ≡ op) × (t ≡ v * m) × (t ≤ uint64_max)
unfolding parse_size_digits
parse_size_digits-eq_some op op' s n m t h pos e = elim (Option-cases (parse_unsigned s n)) [
  | inl failed ↦ absurd (ground arith)
  | inr (v, found) ↦
      let (same, value, fits) = scale_size-eq_some op op' m v t pos (ground arith) in
      (v, (parse_unsigned_iff s n v h).0 found, same, value, fits)
]

-- A cursor with a last byte whose suffix rule is known.
cursor_step :
    (op : CompareOp) (s : Bytes) (n m k : ℕ)
    → size_suffix (get_or s n 0) ≡ some (m, k)
    → parse_size_cursor op s (suc n) ≡ parse_size_digits op s (suc n - k) m
unfolding parse_size_cursor
cursor_step op s n m k e =
    let before : suc n - 1 ≡ n = omega arith in rw (before, parse_size_cursor, e) (ground arith)

length_snoc : (d : Bytes) (c : ℕ) → length (d ++ c ∷ []) ≡ suc (length d)
length_snoc d c = omega (arith, length-append {0} d (c ∷ []))

cursor-suffixed :
    (op : CompareOp) (d : Bytes) (c m : ℕ)
    → size_suffix c ≡ some (m, 1)
    → 0 < m
    → Spells d (decimal 0 d)
    → decimal 0 d * m ≤ uint64_max
    → parse_size_cursor op (d ++ c ∷ []) (length (d ++ c ∷ [])) ≡ some (op, decimal 0 d * m)
cursor-suffixed op d c m e pos p fits =
    let s = d ++ c ∷ [] in
    let here : get_or s (length d) 0 ≡ c = get_or-append_length d (c ∷ []) 0 in
    let back : suc (length d) - 1 ≡ length d = omega arith in
    let digits : Spells (take (length d) s) (decimal 0 d) = rw (take-append_length d (c ∷ [])) p in
    rw (length_snoc d c) (
      cursor_step op s (length d) m 1 (rw here e)
      ∙ rw back (
          parse_size_digits-some op s (length d) m (decimal 0 d) (omega (arith, length_snoc d c))
            digits pos fits))

cursor-plain :
    (op : CompareOp) (d : Bytes) (n : ℕ)
    → length d ≡ suc n
    → Spells d (decimal 0 d)
    → decimal 0 d * 512 ≤ uint64_max
    → parse_size_cursor op d (length d) ≡ some (op, decimal 0 d * 512)
cursor-plain op d n e p fits =
    let whole : suc n - 0 ≡ length d = omega arith in
    let digits : Spells (take (length d) d) (decimal 0 d) = rw (take-length d) p in
    rw e (
      cursor_step op d n 512 0 (size_suffix-digit _ (last-IsDigit d n e p.all_digits))
      ∙ rw whole (
          parse_size_digits-some op d (length d) 512 (decimal 0 d) (omega arith) digits
            (omega arith) fits))

cursor-unit :
    (op : CompareOp) (d : Bytes) (u : SizeUnit)
    → Spells d (decimal 0 d)
    → decimal 0 d * unit_bytes u ≤ uint64_max
    → parse_size_cursor op (d ++ unit_text u) (length (d ++ unit_text u))
      ≡ some (op, decimal 0 d * unit_bytes u)
unfolding size_suffix
cursor-unit op d blocks p fits =
    rw (append-nil d) (cursor-plain op d (length d - 1) (omega (arith, p.some_digit)) p fits)
cursor-unit op d unit_c p fits = cursor-suffixed op d b'c' 1 refl (omega arith) p fits
cursor-unit op d unit_w p fits = cursor-suffixed op d b'w' 2 refl (omega arith) p fits
cursor-unit op d unit_b p fits = cursor-suffixed op d b'b' 512 refl (omega arith) p fits
cursor-unit op d unit_k p fits = cursor-suffixed op d b'k' 1024 refl (omega arith) p fits
cursor-unit op d unit_K p fits = cursor-suffixed op d b'K' 1024 refl (omega arith) p fits
cursor-unit op d unit_M p fits = cursor-suffixed op d b'M' (1024 ^ 2) refl (omega arith) p fits
cursor-unit op d unit_G p fits = cursor-suffixed op d b'G' (1024 ^ 3) refl (omega arith) p fits
cursor-unit op d unit_T p fits = cursor-suffixed op d b'T' (1024 ^ 4) refl (omega arith) p fits

cursor_stuck :
    (op : CompareOp) (s : Bytes) (n : ℕ)
    → size_suffix (get_or s n 0) ≡ none
    → parse_size_cursor op s (suc n) ≡ none
unfolding parse_size_cursor
cursor_stuck op s n e =
    let before : suc n - 1 ≡ n = omega arith in rw (before, parse_size_cursor, e) (ground arith)

-- What an accepted cursor looks like.
abbrev Reads : CompareOp → CompareOp → Bytes → ℕ → Type 0
Reads op op' s t = (op' ≡ op) × SizeText (sign_text op ++ s) op t

unit_of-pos : (u : SizeUnit) → 0 < unit_bytes u
unit_of-pos u = ground arith

Reads-suffixed :
    (op op' : CompareOp) (s : Bytes) (n m t : ℕ)
    → length s ≡ suc n
    → unit_text (unit_of (get_or s n 0)) ≡ get_or s n 0 ∷ []
    → m ≡ unit_bytes (unit_of (get_or s n 0))
    → parse_size_digits op s (suc n - 1) m ≡ some (op', t)
    → Reads op op' s t
Reads-suffixed op op' s n m t e shape unit h =
    let back : suc n - 1 ≡ n = omega arith in
    let u = unit_of (get_or s n 0) in
    let (v, p, same, value, fits) =
      parse_size_digits-eq_some op op' s n m t (omega arith) (rw unit (unit_of-pos u))
        (rw back at h) in
    let exact : v ≡ decimal 0 (take n s) = p.exact in
    (
      same,
      record {
        digits = take n s;
        unit = u;
        spelled = rw exact at p;
        text = rw shape (ap (λ r. sign_text op ++ r) (snoc_view s n e));
        total = value ∙ rw (exact, unit);
        fits = fits;
      },
    )

Reads-plain :
    (op op' : CompareOp) (s : Bytes) (n t : ℕ)
    → length s ≡ suc n
    → parse_size_digits op s (suc n - 0) 512 ≡ some (op', t)
    → Reads op op' s t
Reads-plain op op' s n t e h =
    let whole : suc n - 0 ≡ length s = omega arith in
    let (v, p, same, value, fits) =
      parse_size_digits-eq_some op op' s (length s) 512 t (omega arith) (omega arith)
        (rw whole at h) in
    let all : Spells s v = rw (take-length s) at p in
    let exact : v ≡ decimal 0 s = all.exact in
    (
      same,
      record {
        digits = s;
        unit = blocks;
        spelled = rw exact at all;
        text = ap (λ r. sign_text op ++ r) (sym (append-nil s));
        total = value ∙ rw exact;
        fits = fits;
      },
    )

cursor-Reads :
    (op op' : CompareOp) (s : Bytes) (n t : ℕ)
    → length s ≡ suc n
    → parse_size_cursor op s (suc n) ≡ some (op', t)
    → Reads op op' s t
cursor-Reads op op' s n t e h = elim (Option-cases (size_suffix (get_or s n 0))) [
  | inl stuck ↦ absurd (cc (cursor_stuck op s n stuck))
  | inr ((m, k), found) ↦ elim (size_suffix-cases (get_or s n 0) m k found) [
    | inl (one, shape, unit) ↦
        Reads-suffixed op op' s n m t e shape unit
          (rw (← one) (sym (cursor_step op s n m k found) ∙ h))
    | inr (none_taken, default) ↦
        Reads-plain op op' s n t e
          (rw (← none_taken, ← default) (sym (cursor_step op s n m k found) ∙ h))
  ]
]

cursor-eq_some :
    (op op' : CompareOp) (s : Bytes) (t : ℕ)
    → parse_size_cursor op s (length s) ≡ some (op', t)
    → Reads op op' s t
unfolding parse_size_cursor
cursor-eq_some op op' [] t h = absurd (cc)
cursor-eq_some op op' (c ∷ s) t h = cursor-Reads op op' (c ∷ s) (length s) t refl h

module _ (C : BcCore) (L : IsLawful C) where
  parse-signed :
      (op : CompareOp) (c : ℕ) (r : Bytes)
      → IsDigit c
      → parse_size_filter C (some (sign_text op ++ c ∷ r))
        ≡ parse_size_cursor op (c ∷ r) (length (c ∷ r))
  unfolding parse_size_filter
  parse-signed op c r d =
      rw (first_byte op c r d, parse_size_filter, split_sign-signed op c r d)
        (rw (strings_length_lem C L (c ∷ r)))

  parse-nonempty :
      (s : Bytes) (op : CompareOp) (t : ℕ)
      → parse_size_filter C (some s) ≡ some (op, t)
      → parse_size_cursor (split_sign s).0 (split_sign s).1 (length (split_sign s).1) ≡ some (op, t)
  unfolding parse_size_filter
  parse-nonempty s op t h = rw (← strings_length_lem C L (split_sign s).1) (ground arith)

  accepts :
      (s : Bytes) (op : CompareOp) (t : ℕ)
      → parse_size_filter C (some s) ≡ some (op, t)
      → SizeText s op t
  accepts s op t h =
      let (same, read) =
        cursor-eq_some (split_sign s).0 op (split_sign s).1 t (parse-nonempty s op t h) in
      rw same (rw (← split_sign-text s) at read)

  complete :
      (op : CompareOp) (d : Bytes) (u : SizeUnit)
      → Spells d (decimal 0 d)
      → decimal 0 d * unit_bytes u ≤ uint64_max
      → parse_size_filter C (some (sign_text op ++ (d ++ unit_text u)))
        ≡ some (op, decimal 0 d * unit_bytes u)
  complete op [] u p fits = absurd (omega (arith, p.some_digit))
  complete op (c ∷ d) u p fits =
      parse-signed op c (d ++ unit_text u) p.all_digits.0 ∙ cursor-unit op (c ∷ d) u p fits

  -- `--size` accepts exactly a sign (`+`, `-` or none), decimal digits and a unit (`c w b k K M G
  -- T` or none, which means 512-byte blocks) whose product fits in 64 bits, and yields the sign's
  -- comparison with that product. The core library is lawful.
  pub parse_size_filter_iff :
      (s : Bytes) (op : CompareOp) (t : ℕ)
      → (parse_size_filter C (some s) ≡ some (op, t)) ↔ SizeText s op t
  parse_size_filter_iff s op t = (
    accepts s op t,
    λ p. rw (p.text, p.total) (complete op p.digits p.unit p.spelled (rw (← p.total) p.fits)),
  )
