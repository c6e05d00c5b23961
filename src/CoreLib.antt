-- ===== src/CoreLib.antt =====
-- The operations of the bc_core library that the program calls on byte strings. Its code is not
-- part of the repository: `BcCore` is a parameter, and `IsLawful` what its documentation promises.
use bc_seek.Base.{ℕ, ◌≤◌, ◌≡◌, Bool, Option, some, Bytes, length, take, bytes_equal}

pub record BcCore : Type 0 where
  -- `bc_core_length(s, '\0', &n)`
  pub core_length : Bytes → Option ℕ
  -- `bc_core_equal(a, b, n, &result)`
  pub core_equal : Bytes → Bytes → ℕ → Option Bool
  -- `bc_core_find_last_byte(s, n, byte, &offset)`
  pub core_find_last_byte : Bytes → ℕ → ℕ → Option ℕ
  -- `bc_core_parse_unsigned_integer_64_decimal(s, n, &value, &consumed)`
  pub core_parse_decimal : Bytes → ℕ → Option (ℕ × ℕ)

pub record IsLawful (C : BcCore) : Type 0 where
  -- The length of a terminated string is found.
  pub length_law : (s : Bytes) → C.core_length s ≡ some (length s)
  -- The comparison reads `n` bytes of both sides.
  pub equal_law :
      (a b : Bytes) (n : ℕ)
      → n ≤ length a
      → n ≤ length b
      → C.core_equal a b n ≡ some (bytes_equal (take n a) (take n b))
