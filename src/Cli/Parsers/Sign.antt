-- ===== src/Cli/Parsers/Sign.antt =====
-- The sign that `bc_seek_cli_parse_size_filter` and `bc_seek_cli_parse_mtime_filter` read first.
use bc_seek.Base.{
  ℕ, ◌≡◌, refl, false, Bytes, [], ◌∷◌, ◌++◌, get_or, drop, ◌==◌, if◌then◌else◌, arith,
}
use bc_seek.Types.{CompareOp, equal, greater, less}
use bc_seek.Cli.Parsers.Unsigned.{IsDigit}

-- The operator, and the text behind the sign.
unfoldable pub split_sign : Bytes → CompareOp × Bytes
split_sign cursor =
    if get_or cursor 0 0 == b'+'
    then (greater, drop 1 cursor)
    else if get_or cursor 0 0 == b'-'
    then (less, drop 1 cursor)
    else (equal, cursor)

-- The sign as it is written.
abbrev pub sign_text : CompareOp → Bytes
sign_text equal = []
sign_text greater = b'+' ∷ []
sign_text less = b'-' ∷ []

-- The parts spell the text.
pub split_sign-text : (s : Bytes) → s ≡ sign_text (split_sign s).0 ++ (split_sign s).1
unfolding split_sign
split_sign-text [] = refl
split_sign-text (c ∷ s) = ground arith

pub split_sign-signed :
    (op : CompareOp) (c : ℕ) (s : Bytes)
    → IsDigit c
    → split_sign (sign_text op ++ c ∷ s) ≡ (op, c ∷ s)
unfolding split_sign
split_sign-signed equal c s d = ground arith
split_sign-signed greater c s d = refl
split_sign-signed less c s d = refl

-- A signed number does not begin with the terminating NUL.
pub first_byte :
    (op : CompareOp) (c : ℕ) (s : Bytes)
    → IsDigit c
    → (get_or (sign_text op ++ c ∷ s) 0 0 == 0) ≡ false
first_byte equal c s d = ground arith
first_byte greater c s d = refl
first_byte less c s d = refl
