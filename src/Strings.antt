-- ===== src/Strings.antt =====
-- src/strings/bc_seek_strings.c
use bc_seek.Base.{
  ℕ, ◌≡◌, ◌↔◌, Bool, true, false, not, none, some, Bytes, length, take, take-length, ◌==◌, ==_iff,
  if◌then◌else◌, bytes_equal, bytes_equal_refl, bytes_equal_sound, Bool-cases, inl, inr, arith, ap,
}
use bc_seek.CoreLib.{BcCore, IsLawful}

module _ (C : BcCore) where
  -- The result of `bc_core_equal` once both lengths are known.
  equal_of_length : Bytes → Bytes → ℕ → ℕ → Bool
  equal_of_length left right left_length right_length =
      if not (left_length == right_length)
      then false
      else elim (C.core_equal left right left_length) [ none ↦ false | some result ↦ result ]

  unfoldable pub strings_equal : Bytes → Bytes → Bool
  unfolding equal_of_length
  strings_equal left right = elim (C.core_length left) [
    | none ↦ false
    | some left_length ↦ elim (C.core_length right) [
      | none ↦ false
      | some right_length ↦ equal_of_length left right left_length right_length
    ]
  ]

  unfoldable pub strings_length : Bytes → ℕ
  strings_length value = elim (C.core_length value) [ none ↦ 0 | some n ↦ n ]

bytes_equal-length : (a b : Bytes) → bytes_equal a b ≡ true → length a ≡ length b
bytes_equal-length a b h = ap length (bytes_equal_sound a b h)

take-of_length : (a b : Bytes) → length a ≡ length b → take (length a) b ≡ b
take-of_length a b e = rw e (take-length b)

module _ (C : BcCore) (L : IsLawful C) where
  pub strings_length_lem : (s : Bytes) → strings_length C s ≡ length s
  unfolding strings_length
  strings_length_lem s = rw (L.length_law, strings_length)

  equal_of_length_lem :
      (a b : Bytes) → equal_of_length C a b (length a) (length b) ≡ bytes_equal a b
  unfolding equal_of_length
  equal_of_length_lem a b = elim (Bool-cases (length a == length b)) [
    | inl same ↦
        let e : length a ≡ length b = (==_iff (length a) (length b)).0 same in
        rw (same, L.equal_law a b (length a) (omega arith) (omega arith), take-length)
          (rw (take-of_length a b e))
    | inr differs ↦ ground (arith, bytes_equal-length a b)
  ]

  -- Over a lawful core the comparison is equality of the byte strings.
  pub strings_equal_lem : (a b : Bytes) → strings_equal C a b ≡ bytes_equal a b
  unfolding strings_equal
  strings_equal_lem a b =
      rw (L.length_law a, L.length_law b, strings_equal) (equal_of_length_lem a b)

  -- `bc_seek_strings_equal` holds exactly for equal strings.
  pub strings_equal_iff : (a b : Bytes) → (strings_equal C a b ≡ true) ↔ (a ≡ b)
  strings_equal_iff a b = (
    λ h. bytes_equal_sound a b (rw (← strings_equal_lem a b) h),
    λ e. rw (strings_equal_lem a b, e) (bytes_equal_refl b),
  )
