-- ===== src/Cli/Parsers/Unsigned.antt =====
-- bc_seek_cli_parse_unsigned of src/cli/bc_seek_cli_parsers.c, and the decimal value it computes.
-- The loop walks the first `length` bytes; `none` is a `false` return.
use bc_seek.Base.{
  ℕ, ◌+◌, ◌-◌, ◌*◌, ◌/◌, ◌%◌, ◌^◌, ◌≤◌, ◌<◌, ◌≡◌, refl, ◌||◌, Option, none, some, [], ◌∷◌, Bytes,
  take, length, length-take, ◌↔◌, ltb, ◌==◌, if◌then◌else◌, arith,
}

abbrev pub uint64_max : ℕ
uint64_max = 2 ^ 64 - 1

unfoldable pub parse_unsigned_loop : Bytes → ℕ → Option ℕ
parse_unsigned_loop [] accumulator = some accumulator
parse_unsigned_loop (character ∷ rest) accumulator =
    let digit = character - b'0' in
    let next = parse_unsigned_loop rest ((accumulator * 10 + digit) % 2 ^ 64) in
    if ltb character b'0' || ltb b'9' character
    then none
    else if ltb ((uint64_max - digit) / 10) accumulator
    then none
    else next

unfoldable pub parse_unsigned : Bytes → ℕ → Option ℕ
unfolding parse_unsigned_loop
parse_unsigned value n = if n == 0 then none else parse_unsigned_loop (take n value) 0

abbrev pub IsDigit : ℕ → Type 0
IsDigit c = (b'0' ≤ c) × (c ≤ b'9')

abbrev pub AllDigits : Bytes → Type 0
AllDigits [] = Unit
AllDigits (c ∷ s) = IsDigit c × AllDigits s

-- The number that the digits spell behind `n`, with no bound.
abbrev pub decimal : ℕ → Bytes → ℕ
decimal n [] = n
decimal n (c ∷ s) = decimal (n * 10 + (c - b'0')) s

decimal-le : (s : Bytes) (n : ℕ) → n ≤ decimal n s
decimal-le [] n = omega arith
decimal-le (c ∷ s) n = omega (arith, decimal-le s (n * 10 + (c - b'0')))

loop_sound :
    (s : Bytes) (n r : ℕ)
    → n ≤ uint64_max
    → parse_unsigned_loop s n ≡ some r
    → AllDigits s × (r ≡ decimal n s) × (r ≤ uint64_max)
unfolding parse_unsigned_loop
loop_sound [] n r fits h = ground arith
loop_sound (c ∷ s) n r fits h = ground (arith, loop_sound s (n * 10 + (c - b'0')) r)

loop_complete :
    (s : Bytes) (n : ℕ)
    → AllDigits s
    → decimal n s ≤ uint64_max
    → parse_unsigned_loop s n ≡ some (decimal n s)
unfolding parse_unsigned_loop
loop_complete [] n d fits = refl
loop_complete (c ∷ s) n (d, ds) fits =
    let m = n * 10 + (c - b'0') in ground (arith, loop_complete s m ds fits, decimal-le s m)

-- What the text must be for `parse_unsigned` to give `r`.
pub record Spells (s : Bytes) (r : ℕ) : Type 0 where
  pub some_digit : 0 < length s
  pub all_digits : AllDigits s
  pub exact : r ≡ decimal 0 s
  pub fits : r ≤ uint64_max

-- The first `n` bytes are accepted, with the result `r`, exactly when they are one or more decimal
-- digits that spell `r` and `r` fits in 64 bits: nothing wraps around, and nothing that fits is
-- refused. The text has at least `n` bytes.
pub parse_unsigned_iff :
    (s : Bytes) (n r : ℕ) → n ≤ length s → (parse_unsigned s n ≡ some r) ↔ Spells (take n s) r
unfolding parse_unsigned
parse_unsigned_iff s n r h = (accepts, refuses)
  where
    accepts : parse_unsigned s n ≡ some r → Spells (take n s) r
    accepts e =
        let found : (parse_unsigned_loop (take n s) 0 ≡ some r) × (0 < n) =
          (ground arith, ground arith) in
        let (digits, value, small) = loop_sound (take n s) 0 r (omega arith) found.0 in
        record {
          some_digit = omega (arith, length-take n s, found.1);
          all_digits = digits;
          exact = value;
          fits = small;
        }

    refuses : Spells (take n s) r → parse_unsigned s n ≡ some r
    refuses p = ground (
      arith,
      p.some_digit,
      p.exact,
      length-take n s,
      loop_complete (take n s) 0 p.all_digits (omega (arith, p.exact, p.fits)),
    )
