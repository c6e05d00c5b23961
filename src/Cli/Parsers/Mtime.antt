-- ===== src/Cli/Parsers/Mtime.antt =====
-- bc_seek_cli_parse_mtime_filter of src/cli/bc_seek_cli_parsers.c.
use bc_seek.Base.{
  ℕ, ◌-◌, ◌^◌, ◌≤◌, ◌≡◌, ◌↔◌, inl, inr, Option, none, some, [], ◌∷◌, ◌++◌, Bytes, length, get_or,
  take-length, ltb, ◌==◌, if◌then◌else◌, ℤ, pos, arith, ap, sym, ◌∙◌, Option-cases,
}
use bc_seek.Types.{CompareOp}
use bc_seek.CoreLib.{BcCore, IsLawful}
use bc_seek.Strings.{strings_length, strings_length_lem}
use bc_seek.Cli.Parsers.Unsigned.{parse_unsigned, parse_unsigned_iff, Spells}
use bc_seek.Cli.Parsers.Sign.{split_sign, sign_text, split_sign-text, split_sign-signed, first_byte}

abbrev pub int64_max : ℕ
int64_max = 2 ^ 63 - 1

unfoldable pub parse_mtime_cursor : CompareOp → Bytes → ℕ → Option (CompareOp × ℤ)
parse_mtime_cursor op cursor cursor_length =
    if cursor_length == 0 then none else elim (parse_unsigned cursor cursor_length) [
      | none ↦ none
      | some numeric_value ↦
          if ltb int64_max numeric_value then none else some (op, pos numeric_value)
    ]

unfoldable pub parse_mtime_filter : BcCore → Option Bytes → Option (CompareOp × ℤ)
parse_mtime_filter C none = none
parse_mtime_filter C (some value) =
    if get_or value 0 0 == 0
    then none
    else let (op, cursor) = split_sign value in
      parse_mtime_cursor op cursor (strings_length C cursor)

-- `s` is a sign for `op` and digits that spell `n` days, which fit in an `int64_t`.
pub record DaysText (s : Bytes) (op : CompareOp) (n : ℕ) : Type 0 where
  pub digits : Bytes
  pub spelled : Spells digits n
  pub text : s ≡ sign_text op ++ digits
  pub fits : n ≤ int64_max

cursor-eq_some :
    (op op' : CompareOp) (s : Bytes) (z : ℤ)
    → parse_mtime_cursor op s (length s) ≡ some (op', z)
    → (n : ℕ) × (z ≡ pos n) × (op' ≡ op) × Spells s n × (n ≤ int64_max)
unfolding parse_mtime_cursor
cursor-eq_some op op' s z h = elim (Option-cases (parse_unsigned s (length s))) [
  | inl failed ↦ absurd (ground arith)
  | inr (n, found) ↦ (
    n,
    ground arith,
    ground arith,
    rw (take-length s) at ((parse_unsigned_iff s (length s) n (omega arith)).0 found),
    ground arith,
  )
]

cursor-some :
    (op : CompareOp) (s : Bytes) (n : ℕ)
    → Spells s n
    → n ≤ int64_max
    → parse_mtime_cursor op s (length s) ≡ some (op, pos n)
unfolding parse_mtime_cursor
cursor-some op s n p fits =
    let e : parse_unsigned s (length s) ≡ some n =
      (parse_unsigned_iff s (length s) n (omega arith)).1 (rw (take-length s) p) in
    ground (arith, e, p.some_digit)

module _ (C : BcCore) (L : IsLawful C) where
  parse-nonempty :
      (s : Bytes) (op : CompareOp) (z : ℤ)
      → parse_mtime_filter C (some s) ≡ some (op, z)
      → parse_mtime_cursor (split_sign s).0 (split_sign s).1 (length (split_sign s).1)
        ≡ some (op, z)
  unfolding parse_mtime_filter
  parse-nonempty s op z h = rw (← strings_length_lem C L (split_sign s).1) (ground arith)

  accepts :
      (s : Bytes) (op : CompareOp) (z : ℤ)
      → parse_mtime_filter C (some s) ≡ some (op, z)
      → (n : ℕ) × (z ≡ pos n) × DaysText s op n
  accepts s op z h =
      let (n, value, same, p, fits) =
        cursor-eq_some (split_sign s).0 op (split_sign s).1 z (parse-nonempty s op z h) in
      (
        n,
        value,
        record {
          digits = (split_sign s).1;
          spelled = p;
          text = split_sign-text s ∙ ap (λ o. sign_text o ++ (split_sign s).1) (sym same);
          fits = fits;
        },
      )

  complete :
      (op : CompareOp) (d : Bytes) (n : ℕ)
      → Spells d n
      → n ≤ int64_max
      → parse_mtime_filter C (some (sign_text op ++ d)) ≡ some (op, pos n)
  unfolding parse_mtime_filter
  complete op [] n p fits = absurd (omega (arith, p.some_digit))
  complete op (c ∷ d) n p fits =
      rw
        (
          first_byte op c d p.all_digits.0,
          parse_mtime_filter,
          split_sign-signed op c d p.all_digits.0,
        )
        (rw (strings_length_lem C L (c ∷ d)) (cursor-some op (c ∷ d) n p fits))

  -- `--mtime` accepts exactly a sign (`+`, `-` or none) and decimal digits whose value fits in an
  -- `int64_t`, and yields the sign's comparison with that value. The core library is lawful.
  pub parse_mtime_filter_iff :
      (s : Bytes) (op : CompareOp) (z : ℤ)
      → (parse_mtime_filter C (some s) ≡ some (op, z)) ↔ ((n : ℕ) × (z ≡ pos n) × DaysText s op n)
  parse_mtime_filter_iff s op z =
      (accepts s op z, λ (n, e, p). rw (p.text, e) (complete op p.digits n p.spelled p.fits))
