-- ===== src/Parallel/Written.antt =====
-- The loop of bc_seek_parallel_write_all_iovec of src/discovery/bc_seek_discovery_walk_parallel.c,
-- with partial writes and interrupted calls.
use mathlib.Core.Path.{subst}
use bc_seek.Base.{
  ℕ, zero, suc, ◌+◌, ◌-◌, ◌≤◌, ◌<◌, ◌≡◌, ◌≢◌, ◌∙◌, refl, ap, sym, Bool, true, false, none, some,
  List, [], ◌∷◌, ◌++◌, append_assoc, Bytes, length, length-append, length-drop, take, drop,
  take-append-drop, leb, ◌==◌, arith, Bool-cases, Option-cases, inl, inr, ◌⊎◌,
}
use bc_seek.Parallel.{
  WritevResult, wrote, interrupted, write_failed, Writev, all_bytes, advance, write_all_iovec,
}

-- A call writes no more than it is offered, and something if it is offered something; from the
-- `bound`-th call on none is interrupted.
pub record IsLawful (writev : Writev) (bound : ℕ) : Type 0 where
  pub at_most :
      (call : ℕ) (iov : List Bytes) (n : ℕ) → writev call iov ≡ wrote n → n ≤ length (all_bytes iov)
  pub progress :
      (call : ℕ) (iov : List Bytes) (n : ℕ)
      → writev call iov ≡ wrote n
      → 0 < length (all_bytes iov)
      → 0 < n
  pub settles : (call : ℕ) (iov : List Bytes) → writev call iov ≡ interrupted → call < bound

-- A call fails that offers the text `rest`, or its first `iov_max` buffers.
abbrev pub FailsAt : Writev → ℕ → Bytes → Type 0
FailsAt writev iov_max rest =
    (call : ℕ) × (left : List Bytes) × (all_bytes left ≡ rest)
    × (writev call (take iov_max left) ≡ write_failed)

-- Either the result is false, and a call on the rest fails, or it is true, and nothing is left.
abbrev pub AllOrFailed : Writev → ℕ → Bool → Bytes → Type 0
AllOrFailed writev iov_max ok rest =
    ((ok ≡ false) × FailsAt writev iov_max rest) ⊎ ((ok ≡ true) × (rest ≡ []))

-- No buffer is empty.
abbrev pub AllFilled : List Bytes → Type 0
AllFilled [] = Unit
AllFilled (v ∷ iov) = (0 < length v) × AllFilled iov

Writev-cases :
    (r : WritevResult) → (r ≡ write_failed) ⊎ ((r ≡ interrupted) ⊎ ((n : ℕ) × (r ≡ wrote n)))
Writev-cases write_failed = inl refl
Writev-cases interrupted = inr (inl refl)
Writev-cases (wrote n) = inr (inr (n, refl))

drop-append-left : (n : ℕ) (xs ys : Bytes) → n ≤ length xs → drop n (xs ++ ys) ≡ drop n xs ++ ys
drop-append-left zero xs ys h = refl
drop-append-left (suc n) [] ys h = absurd (omega arith)
drop-append-left (suc n) (x ∷ xs) ys h = drop-append-left n xs ys (omega arith)

drop-append-right :
    (xs : Bytes) (n : ℕ) (ys : Bytes) → length xs ≤ n → drop n (xs ++ ys) ≡ drop (n - length xs) ys
drop-append-right [] n ys h = ap (λ (k : ℕ). drop k ys) (less n)
  where
    less : (n : ℕ) → n ≡ n - 0
    less n = omega arith
drop-append-right (x ∷ xs) zero ys h = absurd (omega arith)
drop-append-right (x ∷ xs) (suc n) ys h =
    drop-append-right xs n ys (omega arith) ∙ ap (λ (k : ℕ). drop k ys) (same n (length xs))
  where
    same : (n m : ℕ) → n - m ≡ suc n - suc m
    same n m = omega arith

-- What is left after `n` bytes.
advance-all_bytes : (iov : List Bytes) (n : ℕ) → all_bytes (advance iov n) ≡ drop n (all_bytes iov)
unfolding advance
advance-all_bytes [] zero = refl
advance-all_bytes [] (suc n) = refl
advance-all_bytes (v ∷ iov) n = elim (Bool-cases (n == 0)) [
  | inl none_left ↦
      let start : n ≡ 0 = ground arith in
      ground (arith, ap (λ (k : ℕ). drop k (v ++ all_bytes iov)) start)
  | inr some_left ↦ elim (Bool-cases (leb (length v) n)) [
    | inl whole ↦ ground (
      arith,
      advance-all_bytes iov (n - length v),
      drop-append-right v n (all_bytes iov) (ground arith),
    )
    | inr part ↦ ground (arith, drop-append-left n v (all_bytes iov) (ground arith))
  ]
]

advance-AllFilled : (iov : List Bytes) (n : ℕ) → AllFilled iov → AllFilled (advance iov n)
unfolding advance
advance-AllFilled [] n filled = tt
advance-AllFilled (v ∷ iov) n (here, rest) = elim (Bool-cases (n == 0)) [
  | inl none_left ↦
      let same : v ∷ iov ≡ advance (v ∷ iov) n = ground arith in subst AllFilled same (here, rest)
  | inr some_left ↦ elim (Bool-cases (leb (length v) n)) [
    | inl whole ↦
        let same : advance iov (n - length v) ≡ advance (v ∷ iov) n = ground arith in
        subst AllFilled same (advance-AllFilled iov (n - length v) rest)
    | inr part ↦
        let same : drop n v ∷ iov ≡ advance (v ∷ iov) n = ground arith in
        subst AllFilled same (ground (arith, length-drop n v), rest)
  ]
]

take-append-left : (n : ℕ) (xs ys : Bytes) → n ≤ length xs → take n (xs ++ ys) ≡ take n xs
take-append-left zero xs ys h = refl
take-append-left (suc n) [] ys h = absurd (omega arith)
take-append-left (suc n) (x ∷ xs) ys h = ap (λ r. x ∷ r) (take-append-left n xs ys (omega arith))

all_bytes-split :
    (m : ℕ) (iov : List Bytes) → all_bytes iov ≡ all_bytes (take m iov) ++ all_bytes (drop m iov)
all_bytes-split zero iov = refl
all_bytes-split (suc m) [] = refl
all_bytes-split (suc m) (v ∷ iov) =
    ap (λ s. v ++ s) (all_bytes-split m iov)
    ∙ sym (append_assoc v (all_bytes (take m iov)) (all_bytes (drop m iov)))

-- The buffers offered begin the text of all.
take-all_bytes :
    (m n : ℕ) (iov : List Bytes)
    → n ≤ length (all_bytes (take m iov))
    → take n (all_bytes (take m iov)) ≡ take n (all_bytes iov)
take-all_bytes m n iov h = sym (
    ap (take n) (all_bytes-split m iov)
    ∙ take-append-left n (all_bytes (take m iov)) (all_bytes (drop m iov)) h)

-- The first buffer is offered.
offered :
    (m : ℕ) (v : Bytes) (iov : List Bytes)
    → 0 < m
    → 0 < length v
    → 0 < length (all_bytes (take m (v ∷ iov)))
offered zero v iov room here = absurd (omega arith)
offered (suc m) v iov room here = omega (arith, length-append v (all_bytes (take m iov)))

module _ (writev : Writev) (bound : ℕ) (K : IsLawful writev bound) (iov_max : ℕ) where
  -- After a call the text sent and the text left are still the whole.
  sent-advance :
      (call n : ℕ) (iov : List Bytes) (sent : Bytes)
      → writev call (take iov_max iov) ≡ wrote n
      → (sent ++ take n (all_bytes (take iov_max iov))) ++ all_bytes (advance iov n)
        ≡ sent ++ all_bytes iov
  sent-advance call n iov sent h =
      append_assoc sent (take n (all_bytes (take iov_max iov))) (all_bytes (advance iov n))
      ∙ ap (λ s. sent ++ s)
          (ap (λ s. s ++ all_bytes (advance iov n))
              (take-all_bytes iov_max n iov (K.at_most call (take iov_max iov) n h))
            ∙ ap (λ s. take n (all_bytes iov) ++ s) (advance-all_bytes iov n)
            ∙ take-append-drop n (all_bytes iov))

  sent-whole :
      (fuel call : ℕ) (iov : List Bytes) (sent text : Bytes) (ok : Bool)
      → write_all_iovec writev iov_max fuel call iov sent ≡ some (ok, text)
      → (rest : Bytes) × (text ++ rest ≡ sent ++ all_bytes iov) × AllOrFailed writev iov_max ok rest
  unfolding write_all_iovec
  sent-whole zero call [] sent text ok h =
      ([], ap (λ s. s ++ []) (ground arith), inr (ground arith, refl))
  sent-whole zero call (v ∷ iov) sent text ok h = absurd (cc)
  sent-whole (suc fuel) call [] sent text ok h =
      ([], ap (λ s. s ++ []) (ground arith), inr (ground arith, refl))
  sent-whole (suc fuel) call (v ∷ iov) sent text ok h =
      elim (Writev-cases (writev call (take iov_max (v ∷ iov)))) [
        | inl failed ↦
            let same : text ≡ sent = ground arith in
            (
              all_bytes (v ∷ iov),
              ap (λ s. s ++ all_bytes (v ∷ iov)) same,
              inl (ground arith, (call, v ∷ iov, refl, failed)),
            )
        | inr more ↦ elim more [
          | inl again ↦ sent-whole fuel (call + 1) (v ∷ iov) sent text ok (ground arith)
          | inr (n, done) ↦
              let (rest, whole, complete) =
                sent-whole fuel (call + 1) (advance (v ∷ iov) n)
                  (sent ++ take n (all_bytes (take iov_max (v ∷ iov)))) text ok (ground arith) in
              (rest, whole ∙ sent-advance call n (v ∷ iov) sent done, complete)
        ]
      ]

  -- A call is offered something, and leaves less.
  advance-shorter :
      (call n : ℕ) (v : Bytes) (iov : List Bytes)
      → 0 < iov_max
      → AllFilled (v ∷ iov)
      → writev call (take iov_max (v ∷ iov)) ≡ wrote n
      → length (all_bytes (advance (v ∷ iov) n)) < length (all_bytes (v ∷ iov))
  advance-shorter call n v iov room (here, rest) h = omega (
    arith,
    ap length (advance-all_bytes (v ∷ iov) n),
    length-drop n (all_bytes (v ∷ iov)),
    length-append v (all_bytes iov),
    K.progress call (take iov_max (v ∷ iov)) n h (offered iov_max v iov room here),
  )

  write_all-total :
      (fuel call : ℕ) (iov : List Bytes) (sent : Bytes)
      → 0 < iov_max
      → AllFilled iov
      → (bound - call) + length (all_bytes iov) ≤ fuel
      → write_all_iovec writev iov_max fuel call iov sent ≢ none
  unfolding write_all_iovec
  write_all-total zero call [] sent room filled enough = ground arith
  write_all-total zero call (v ∷ iov) sent room (here, rest) enough =
      absurd (omega (arith, length-append v (all_bytes iov)))
  write_all-total (suc fuel) call [] sent room filled enough = ground arith
  write_all-total (suc fuel) call (v ∷ iov) sent room filled enough =
      elim (Writev-cases (writev call (take iov_max (v ∷ iov)))) [
        | inl failed ↦ ground arith
        | inr more ↦ elim more [
          | inl again ↦ ground (
            arith,
            write_all-total fuel (call + 1) (v ∷ iov) sent room filled
                (omega (arith, K.settles call (take iov_max (v ∷ iov)) again)),
          )
          | inr (n, done) ↦ ground (
            arith,
            write_all-total fuel (call + 1) (advance (v ∷ iov) n)
                (sent ++ take n (all_bytes (take iov_max (v ∷ iov)))) room
                (advance-AllFilled (v ∷ iov) n filled)
                (omega (arith, advance-shorter call n v iov room filled done)),
          )
        ]
      ]

  -- With buffers that are not empty and fuel for their bytes and for the interrupts, the loop
  -- returns, and what it has written begins the text of the buffers: either the result is true and
  -- it is the whole text, or the result is false and a call of `writev` on what is left fails. A
  -- call of `writev` writes no more than it is offered and something of a nonempty offer, and is
  -- interrupted only finitely often; `IOV_MAX` is positive.
  pub write_all_iovec-all_bytes :
      0 < iov_max
      → (fuel : ℕ) (iov : List Bytes) → AllFilled iov
      → bound + length (all_bytes iov) ≤ fuel
      → (ok : Bool) × (text : Bytes) × (rest : Bytes) × (write_all_iovec writev iov_max fuel 0 iov
            []
          ≡ some (ok, text))
        × (text ++ rest ≡ all_bytes iov)
        × AllOrFailed writev iov_max ok rest
  write_all_iovec-all_bytes room fuel iov filled enough =
      elim (Option-cases (write_all_iovec writev iov_max fuel 0 iov [])) [
        | inl out ↦ absurd (write_all-total fuel 0 iov [] room filled (omega arith) out)
        | inr ((ok, text), done) ↦
            let (rest, whole, complete) = sent-whole fuel 0 iov [] text ok done in
            (ok, text, rest, done, whole, complete)
      ]
