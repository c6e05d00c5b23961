-- ===== src/Cli/Parsers/Size.antt =====
-- bc_seek_cli_parse_size_filter of src/cli/bc_seek_cli_parsers.c. `none` is a `false` return; the
-- value may be NULL.
use bc_seek.Base.{
  ℕ, ◌-◌, ◌*◌, ◌/◌, ◌%◌, ◌^◌, ◌≤◌, ◌≡◌, ◌||◌, ◌&&◌, not, Option, none, some, [], ◌∷◌, ◌++◌, Bytes,
  get_or, ltb, ◌==◌, if◌then◌else◌,
}
use bc_seek.Types.{CompareOp}
use bc_seek.CoreLib.{BcCore}
use bc_seek.Strings.{strings_length}
use bc_seek.Cli.Parsers.Unsigned.{uint64_max, parse_unsigned, Spells, decimal}
use bc_seek.Cli.Parsers.Sign.{split_sign, sign_text}

-- The switch on the last byte: the multiplier, and the number of bytes that the suffix takes.
unfoldable pub size_suffix : ℕ → Option (ℕ × ℕ)
size_suffix suffix =
    if suffix == b'c'
    then some (1, 1)
    else if suffix == b'w'
    then some (2, 1)
    else if suffix == b'b'
    then some (512, 1)
    else if suffix == b'k' || suffix == b'K'
    then some (1024, 1)
    else if suffix == b'M'
    then some (1024 * 1024, 1)
    else if suffix == b'G'
    then some (1024 * 1024 * 1024, 1)
    else if suffix == b'T'
    then some (1024 * 1024 * 1024 * 1024, 1)
    else if ltb suffix b'0' || ltb b'9' suffix
    then none
    else some (512, 0)

-- The overflow test and the product, computed in `uint64_t`.
unfoldable pub scale_size : CompareOp → ℕ → ℕ → Option (CompareOp × ℕ)
scale_size op multiplier numeric_value =
    if not (multiplier == 0) && ltb (uint64_max / multiplier) numeric_value
    then none
    else some (op, numeric_value * multiplier % 2 ^ 64)

unfoldable pub parse_size_digits : CompareOp → Bytes → ℕ → ℕ → Option (CompareOp × ℕ)
parse_size_digits op cursor digits_length multiplier = elim (parse_unsigned cursor digits_length) [
  | none ↦ none
  | some numeric_value ↦ scale_size op multiplier numeric_value
]

unfoldable pub parse_size_cursor : CompareOp → Bytes → ℕ → Option (CompareOp × ℕ)
parse_size_cursor op cursor cursor_length =
    if cursor_length == 0 then none else elim (size_suffix (get_or cursor (cursor_length - 1) 0)) [
      | none ↦ none
      | some (multiplier, taken) ↦ parse_size_digits op cursor (cursor_length - taken) multiplier
    ]

unfoldable pub parse_size_filter : BcCore → Option Bytes → Option (CompareOp × ℕ)
parse_size_filter C none = none
parse_size_filter C (some value) =
    if get_or value 0 0 == 0
    then none
    else let (op, cursor) = split_sign value in
      parse_size_cursor op cursor (strings_length C cursor)

-- The units that the option's help names; `blocks` is a number with no suffix.
pub data SizeUnit : Type 0 where
  blocks unit_c unit_w unit_b unit_k unit_K unit_M unit_G unit_T : SizeUnit

abbrev pub unit_bytes : SizeUnit → ℕ
unit_bytes blocks = 512
unit_bytes unit_c = 1
unit_bytes unit_w = 2
unit_bytes unit_b = 512
unit_bytes unit_k = 1024
unit_bytes unit_K = 1024
unit_bytes unit_M = 1024 ^ 2
unit_bytes unit_G = 1024 ^ 3
unit_bytes unit_T = 1024 ^ 4

abbrev pub unit_text : SizeUnit → Bytes
unit_text blocks = []
unit_text unit_c = b'c' ∷ []
unit_text unit_w = b'w' ∷ []
unit_text unit_b = b'b' ∷ []
unit_text unit_k = b'k' ∷ []
unit_text unit_K = b'K' ∷ []
unit_text unit_M = b'M' ∷ []
unit_text unit_G = b'G' ∷ []
unit_text unit_T = b'T' ∷ []

-- `s` is a sign for `op`, digits and a unit, and they amount to `t` bytes, which fit in 64 bits.
pub record SizeText (s : Bytes) (op : CompareOp) (t : ℕ) : Type 0 where
  pub digits : Bytes
  pub unit : SizeUnit
  pub spelled : Spells digits (decimal 0 digits)
  pub text : s ≡ sign_text op ++ (digits ++ unit_text unit)
  pub total : t ≡ decimal 0 digits * unit_bytes unit
  pub fits : t ≤ uint64_max
