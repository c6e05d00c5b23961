-- ===== src/Walk/Buffer.antt =====
-- `path_buffer` as an array: bc_seek_walk_append_path and bc_seek_walk_truncate of
-- src/discovery/bc_seek_discovery_walk_sequential.c, with their writes. `none` is a write outside
-- the array, which is undefined behaviour.
pub mod Append
use bc_seek.Base.{
  ℕ, zero, suc, ◌+◌, ◌-◌, ◌≤◌, ◌<◌, min, ◌≡◌, ◌∙◌, refl, ap, sym, Bool, true, false, not, ◌&&◌,
  Option, none, some, List, [], ◌∷◌, ◌++◌, append_assoc, append-nil, Bytes, length, get_or, take,
  drop, length-append, length-take, length-drop, take-append_length, ltb, leb, ◌==◌, if◌then◌else◌,
  arith, Bool-cases, inl, inr, ◌⊎◌,
}

-- The array after a write of `s` at offset `i`.
abbrev spliced : Bytes → ℕ → Bytes → Bytes
spliced buffer i s = (take i buffer ++ s) ++ drop (i + length s) buffer

abbrev store : Bytes → ℕ → Bytes → Option Bytes
store buffer i s = if leb (i + length s) (length buffer) then some (spliced buffer i s) else none

unfoldable pub needs_separator : Bytes → ℕ → Bool
needs_separator buffer n = ltb 0 n && not (get_or buffer (n - 1) 0 == b'/')

-- The separator, if it is needed, with the length after it.
unfoldable pub append_separator : Bytes → ℕ → Option (Bytes × ℕ)
unfolding needs_separator
append_separator buffer n =
    if not (needs_separator buffer n)
    then some (buffer, n)
    else elim (store buffer n (b'/' ∷ [])) [ none ↦ none | some written ↦ some (written, n + 1) ]

-- The name and its NUL, from `start` on.
unfoldable pub append_name : Bytes → ℕ → Bytes → Option (Bool × Bytes × ℕ)
append_name buffer start name = elim (store buffer start name) [
  | none ↦ none
  | some named ↦ elim (store named (start + length name) (0 ∷ [])) [
    | none ↦ none
    | some ended ↦ some (true, ended, start + length name)
  ]
]

-- The result, the array and `*path_length`.
unfoldable pub buffer_append : ℕ → Bytes → ℕ → Bytes → Option (Bool × Bytes × ℕ)
unfolding append_separator append_name needs_separator
buffer_append capacity buffer n name =
    let additional = (if needs_separator buffer n then 1 else 0) + length name in
    if ltb capacity (n + additional + 1)
    then some (false, buffer, n)
    else elim (append_separator buffer n) [
      | none ↦ none
      | some (separated, start) ↦ append_name separated start name
    ]

unfoldable pub buffer_truncate : Bytes → ℕ → Option (Bytes × ℕ)
buffer_truncate buffer original_length = elim (store buffer original_length (0 ∷ [])) [
  | none ↦ none
  | some ended ↦ some (ended, original_length)
]

-- The array and the length hold the string.
abbrev pub Holds : Bytes → ℕ → Bytes → Type 0
Holds buffer n path = (n ≡ length path) × (take (n + 1) buffer ≡ path ++ 0 ∷ [])

length-spliced :
    (buffer : Bytes) (i : ℕ) (s : Bytes)
    → i + length s ≤ length buffer
    → length (spliced buffer i s) ≡ length buffer
length-spliced buffer i s fits = omega (
  arith,
  length-append (take i buffer ++ s) (drop (i + length s) buffer),
  length-append (take i buffer) s,
  length-take i buffer,
  length-drop (i + length s) buffer,
)

take-spliced :
    (buffer : Bytes) (i : ℕ) (s : Bytes)
    → i + length s ≤ length buffer
    → take (i + length s) (spliced buffer i s) ≡ take i buffer ++ s
take-spliced buffer i s fits =
    let written : i + length s ≡ length (take i buffer ++ s) =
      omega (arith, length-append (take i buffer) s, length-take i buffer) in
    ap (λ (n : ℕ). take n (spliced buffer i s)) written
    ∙ take-append_length (take i buffer ++ s) (drop (i + length s) buffer)

-- A shorter prefix of a prefix.
take-take : (n m : ℕ) (xs : Bytes) → n ≤ m → take n (take m xs) ≡ take n xs
take-take zero m xs h = refl
take-take (suc n) zero xs h = absurd (omega arith)
take-take (suc n) (suc m) [] h = refl
take-take (suc n) (suc m) (x ∷ xs) h = ap (λ r. x ∷ r) (take-take n m xs (omega arith))

get_or-take : (i n : ℕ) (xs : Bytes) (d : ℕ) → i < n → get_or (take n xs) i d ≡ get_or xs i d
get_or-take i zero xs d h = absurd (omega arith)
get_or-take i (suc n) [] d h = refl
get_or-take zero (suc n) (x ∷ xs) d h = refl
get_or-take (suc i) (suc n) (x ∷ xs) d h = get_or-take i n xs d (omega arith)

Holds-prefix : (buffer path : Bytes) (n : ℕ) → Holds buffer n path → take n buffer ≡ path
Holds-prefix buffer path n (long, held) =
    sym (take-take n (n + 1) buffer (omega arith))
    ∙ ap (take n) held
    ∙ ap (λ (m : ℕ). take m (path ++ 0 ∷ [])) long
    ∙ take-append_length path (0 ∷ [])

Holds-room : (buffer path : Bytes) (n : ℕ) → Holds buffer n path → n < length buffer
Holds-room buffer path n (long, held) =
    omega (arith, length-take (n + 1) buffer, ap length held, length-append path (0 ∷ []))

-- The test on the array is the test on the string.
needs_separator-Holds :
    (buffer path : Bytes) (n : ℕ)
    → Holds buffer n path
    → needs_separator buffer n
      ≡ (ltb 0 (length path) && not (get_or path (length path - 1) 0 == b'/'))
unfolding needs_separator
needs_separator-Holds buffer path n held = elim (Bool-cases (ltb 0 n)) [
  | inr empty ↦ ground (arith, held.0)
  | inl full ↦
      let last : get_or buffer (n - 1) 0 ≡ get_or path (length path - 1) 0 =
        sym (get_or-take (n - 1) n buffer 0 (ground arith))
        ∙ ap (λ (s : Bytes). get_or s (n - 1) 0) (Holds-prefix buffer path n held)
        ∙ ap (λ (m : ℕ). get_or path (m - 1) 0) held.0 in
      ground (arith, held.0, last)
]
