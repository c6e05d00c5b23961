-- ===== src/Base/Bits.antt =====
-- `bit_or` and `bit_and` as the octal permission masks use them.
use Prim.Native.Nat.{
  ℕ, zero, suc, ◌+◌, ◌-◌, ◌*◌, ◌/◌, ◌%◌, ◌≤◌, ◌<◌, min, max, bit_and, bit_or, digits,
  bit_and-bitwise, bit_or-bitwise,
}
use mathlib.Core.Path.{◌≡◌, refl, ap, ◌∙◌}
use native.Mathlib.Omega.{arith}

module _ (rest : ℕ → ℕ) (join : ℕ → ℕ → ℕ) where
  -- No digit is left of zero.
  digits-zero : (fuel b : ℕ) → digits rest join fuel 0 b ≡ rest b
  digits-zero zero b = refl
  digits-zero (suc fuel) b = refl

  -- A number is fuel enough for its own digits.
  digits_spare :
      (b spare fuel a : ℕ)
      → a ≤ fuel
      → digits rest join (fuel + spare) a b ≡ digits rest join fuel a b
  digits_spare b spare fuel zero within = cc (digits-zero (fuel + spare) b, digits-zero fuel b)
  digits_spare b spare zero (suc a) within = absurd (omega arith)
  digits_spare b spare (suc fuel) (suc a) within =
      ap (λ (t : ℕ). digits rest join t (suc a) b) (suc_out fuel spare)
      ∙ ap (λ (upper : ℕ). upper * 2 + join (suc a % 2) (b % 2))
          (digits_spare (b / 2) spare fuel (suc a / 2) (omega arith))
    where
      suc_out : (fuel spare : ℕ) → suc fuel + spare ≡ suc (fuel + spare)
      suc_out fuel spare = omega arith

  lowest_digit :
      (b a : ℕ)
      → digits rest join (suc a) (suc a) b
        ≡ digits rest join (suc a / 2) (suc a / 2) (b / 2) * 2 + join (suc a % 2) (b % 2)
  lowest_digit b a =
      ap (λ (upper : ℕ). upper * 2 + join (suc a % 2) (b % 2))
        (ap (λ (fuel : ℕ). digits rest join fuel (suc a / 2) (b / 2)) (split a)
          ∙ digits_spare (b / 2) (a - suc a / 2) (suc a / 2) (suc a / 2) (omega arith))
    where
      split : (a : ℕ) → a ≡ suc a / 2 + (a - suc a / 2)
      split a = omega arith

bit_or_halves : (a b : ℕ) → bit_or a b ≡ bit_or (a / 2) (b / 2) * 2 + max (a % 2) (b % 2)
bit_or_halves a b = halves a
  where
    halves : (a : ℕ) → bit_or a b ≡ bit_or (a / 2) (b / 2) * 2 + max (a % 2) (b % 2)
    halves (suc a) = simp bit_or-bitwise (lowest_digit (λ c. c) max b a)
    halves zero = simp bit_or-bitwise (omega arith)

bit_and_halves : (a b : ℕ) → bit_and a b ≡ bit_and (a / 2) (b / 2) * 2 + min (a % 2) (b % 2)
bit_and_halves a b = halves a
  where
    halves : (a : ℕ) → bit_and a b ≡ bit_and (a / 2) (b / 2) * 2 + min (a % 2) (b % 2)
    halves (suc a) = simp bit_and-bitwise (lowest_digit (λ c. 0) min b a)
    halves zero = simp bit_and-bitwise (omega arith)

bit_or-zero_right : (limit a : ℕ) → a ≤ limit → bit_or a 0 ≡ a
bit_or-zero_right zero a within = ap (λ (t : ℕ). bit_or t 0) (none_left a within) ∙ omega arith
  where
    none_left : (a : ℕ) → a ≤ 0 → a ≡ 0
    none_left a within = omega arith
bit_or-zero_right (suc limit) a within =
    omega (arith, bit_or_halves a 0, bit_or-zero_right limit (a / 2) (omega arith))

bit_and-zero_right : (limit a : ℕ) → a ≤ limit → bit_and a 0 ≡ 0
bit_and-zero_right zero a within = ap (λ (t : ℕ). bit_and t 0) (none_left a within)
  where
    none_left : (a : ℕ) → a ≤ 0 → a ≡ 0
    none_left a within = omega arith
bit_and-zero_right (suc limit) a within =
    omega (arith, bit_and_halves a 0, bit_and-zero_right limit (a / 2) (omega arith))

-- An octal digit put behind a mask that was shifted by three bits.
pub bit_or-octal : (m d : ℕ) → d < 8 → bit_or (m * 8) d ≡ m * 8 + d
bit_or-octal m d h = omega (
  arith,
  bit_or_halves (m * 8) d,
  bit_or_halves (m * 8 / 2) (d / 2),
  bit_or_halves (m * 8 / 2 / 2) (d / 2 / 2),
  ap (λ (t : ℕ). bit_or (m * 8 / 2 / 2 / 2) t) (eighth_zero d h),
  bit_or-zero_right (m * 8 / 2 / 2 / 2) (m * 8 / 2 / 2 / 2) (omega arith),
)
  where
    eighth_zero : (d : ℕ) → d < 8 → d / 2 / 2 / 2 ≡ 0
    eighth_zero d h = omega arith

bit_and-three : (a : ℕ) → bit_and a 7 ≡ a % 8
bit_and-three a = omega (
  arith,
  bit_and_halves a 7,
  bit_and_halves (a / 2) 3,
  bit_and_halves (a / 2 / 2) 1,
  bit_and-zero_right (a / 2 / 2 / 2) (a / 2 / 2 / 2) (omega arith),
)

bit_and_odd : (a k : ℕ) → bit_and a (k * 2 + 1) ≡ bit_and (a / 2) k * 2 + a % 2
bit_and_odd a k =
    omega (arith, bit_and_halves a (k * 2 + 1), ap (λ (t : ℕ). bit_and (a / 2) t) (half k))
  where
    half : (k : ℕ) → (k * 2 + 1) / 2 ≡ k
    half k = omega arith

bit_and_shift : (a k : ℕ) → bit_and a (k * 8 + 7) ≡ bit_and (a / 8) k * 8 + a % 8
bit_and_shift a k = omega (
  arith,
  ap (λ (t : ℕ). bit_and a t) (regroup k),
  bit_and_odd a ((k * 2 + 1) * 2 + 1),
  bit_and_odd (a / 2) (k * 2 + 1),
  bit_and_odd (a / 2 / 2) k,
  ap (λ (t : ℕ). bit_and t k) (eighth a),
)
  where
    regroup : (k : ℕ) → k * 8 + 7 ≡ ((k * 2 + 1) * 2 + 1) * 2 + 1
    regroup k = omega arith

    eighth : (a : ℕ) → a / 2 / 2 / 2 ≡ a / 8
    eighth a = omega arith

-- The twelve permission bits.
pub bit_and-octal : (a : ℕ) → bit_and a 0o7777 ≡ a % 4096
bit_and-octal a = omega (
  arith,
  bit_and_shift a 0o777,
  bit_and_shift (a / 8) 0o77,
  bit_and_shift (a / 8 / 8) 7,
  bit_and-three (a / 8 / 8 / 8),
)
