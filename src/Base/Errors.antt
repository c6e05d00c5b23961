-- ===== src/Base/Errors.antt =====
-- Fallible code: a value, a `false` return with the text that went to standard error, or undefined
-- behaviour.
use bc_seek.Base.Lists.{Bytes}

pub data Result {ℓ} (A : Type ℓ) : Type ℓ where
  fault : Result A
  err : Bytes → Result A
  ok : A → Result A

infixl 5 ◌>>=◌
abbrev pub ◌>>=◌ {ℓ κ} : {A : Type ℓ} {B : Type κ} → Result A → (A → Result B) → Result B
fault >>= next = fault
err message >>= next = err message
ok value >>= next = next value
