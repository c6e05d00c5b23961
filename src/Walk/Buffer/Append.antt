-- ===== src/Walk/Buffer/Append.antt =====
-- The array-level append and truncate of Walk/Buffer beside the string-level `append_path`.
use mathlib.Core.Path.{subst}
use bc_seek.Base.{
  ℕ, ◌+◌, ◌-◌, ◌≤◌, ◌<◌, ◌≡◌, ◌∙◌, refl, ap, sym, Bool, true, false, not, ◌&&◌, none, some, [], ◌∷◌,
  ◌++◌, append_assoc, append-nil, Bytes, length, get_or, take, length-append, take-append_length,
  ltb, ◌==◌, if◌then◌else◌, arith, Bool-cases, inl, inr, ◌⊎◌,
}
use bc_seek.Walk.{joined, append_path}
use bc_seek.Walk.Buffer.{
  spliced, store, needs_separator, append_separator, append_name, buffer_append, buffer_truncate,
  Holds, length-spliced, take-spliced, take-take, Holds-prefix, Holds-room, needs_separator-Holds,
}

store-fits :
    (buffer : Bytes) (i : ℕ) (s : Bytes)
    → i + length s ≤ length buffer
    → store buffer i s ≡ some (spliced buffer i s)
store-fits buffer i s fits = ground arith

-- The array holds a string once its NUL is written.
end-Holds :
    (buffer path : Bytes) (n : ℕ)
    → n ≡ length path
    → take n buffer ≡ path
    → n < length buffer
    → Holds (spliced buffer n (0 ∷ [])) n path
end-Holds buffer path n long held room =
    (long, take-spliced buffer n (0 ∷ []) (omega arith) ∙ ap (λ s. s ++ 0 ∷ []) held)

append_name-Holds :
    (buffer prefix : Bytes) (start : ℕ) (name : Bytes)
    → start ≡ length prefix
    → take start buffer ≡ prefix
    → start + length name < length buffer
    → (ended : Bytes) × (append_name buffer start name ≡ some (true, ended, start + length name))
      × Holds ended (start + length name) (prefix ++ name)
      × (length ended ≡ length buffer)
unfolding append_name
append_name-Holds buffer prefix start name long held room =
    let named = spliced buffer start name in
    let same = length-spliced buffer start name (omega arith) in
    let ended = spliced named (start + length name) (0 ∷ []) in
    (
      ended,
      ground (
        arith,
        store-fits buffer start name (omega arith),
        store-fits named (start + length name) (0 ∷ []) (omega arith),
      ),
      end-Holds named (prefix ++ name) (start + length name)
          (omega (arith, length-append prefix name))
          (take-spliced buffer start name (omega arith) ∙ ap (λ s. s ++ name) held) (omega arith),
      length-spliced named (start + length name) (0 ∷ []) (omega arith) ∙ same,
    )

-- The separator that stands between the string and a name.
abbrev separator_of : Bool → Bytes
separator_of true = b'/' ∷ []
separator_of false = []

append_separator-Holds :
    (slash : Bool) (buffer path : Bytes) (n : ℕ)
    → needs_separator buffer n ≡ slash
    → Holds buffer n path
    → n + length (separator_of slash) ≤ length buffer
    → (separated : Bytes) × (append_separator buffer n
        ≡ some (separated, n + length (separator_of slash)))
      × (take (n + length (separator_of slash)) separated ≡ path ++ separator_of slash)
      × (length separated ≡ length buffer)
append_separator-Holds false buffer path n plain held room =
    let none_added : n ≡ n + 0 = omega arith in
    (
      buffer,
      unfold append_separator in ground arith,
      ap (λ (m : ℕ). take m buffer) (sym none_added)
          ∙ Holds-prefix buffer path n held
          ∙ sym (append-nil path),
      refl,
    )
append_separator-Holds true buffer path n slash held room = (
  spliced buffer n (b'/' ∷ []),
  unfold append_separator in ground (arith, store-fits buffer n (b'/' ∷ []) room),
  take-spliced buffer n (b'/' ∷ []) room
      ∙ ap (λ s. s ++ b'/' ∷ []) (Holds-prefix buffer path n held),
  length-spliced buffer n (b'/' ∷ []) room,
)

joined-separator :
    (slash : Bool) (path name : Bytes)
    → (ltb 0 (length path) && not (get_or path (length path - 1) 0 == b'/')) ≡ slash
    → joined path name ≡ (path ++ separator_of slash) ++ name
joined-separator true path name h =
    unfold joined in (ground (arith, append_assoc path (b'/' ∷ []) name))
joined-separator false path name h = unfold joined in (ground (arith, append-nil path))

length-separator_of : (slash : Bool) → length (separator_of slash) ≡ (if slash then 1 else 0)
length-separator_of true = refl
length-separator_of false = refl

-- Cutting the array back to a prefix of what it holds.
truncate-Holds :
    (buffer path more : Bytes) (n m : ℕ)
    → n ≡ length path
    → Holds buffer m (path ++ more)
    → (restored : Bytes) × (buffer_truncate buffer n ≡ some (restored, n))
      × Holds restored n path
      × (length restored ≡ length buffer)
unfolding buffer_truncate
truncate-Holds buffer path more n m long held =
    let room : m < length buffer = Holds-room buffer (path ++ more) m held in
    let shorter : n ≤ m = omega (arith, held.0, length-append path more) in
    let prefix : take n buffer ≡ path =
      sym (take-take n m buffer shorter)
      ∙ ap (take n) (Holds-prefix buffer (path ++ more) m held)
      ∙ ap (λ (k : ℕ). take k (path ++ more)) long
      ∙ take-append_length path more in
    (
      spliced buffer n (0 ∷ []),
      ground (arith, store-fits buffer n (0 ∷ []) (omega arith)),
      end-Holds buffer path n long prefix (omega arith),
      length-spliced buffer n (0 ∷ []) (omega arith),
    )

-- Appending a name to an array that holds the path either refuses, exactly when `append_path` does,
-- and leaves array and length as they are; or it makes the array hold the string that `append_path`
-- gives, and truncating to the old length makes it hold the path again. No write leaves the array.
pub buffer_append-append_path :
    (buffer path : Bytes) (n : ℕ) (name : Bytes)
    → Holds buffer n path
    → ((append_path (length buffer) path name ≡ none)
        × (buffer_append (length buffer) buffer n name ≡ some (false, buffer, n)))
      ⊎ ((child : Bytes) × (ended : Bytes) × (m : ℕ) × (append_path (length buffer) path name
            ≡ some child)
          × (buffer_append (length buffer) buffer n name ≡ some (true, ended, m))
          × Holds ended m child
          × (length ended ≡ length buffer)
          × (restored : Bytes) × (buffer_truncate ended n ≡ some (restored, n))
          × Holds restored n path
          × (length restored ≡ length buffer))
unfolding buffer_append append_path
buffer_append-append_path buffer path n name held =
    let slash = needs_separator buffer n in
    let same = joined-separator slash path name (sym (needs_separator-Holds buffer path n held)) in
    let long : length (joined path name) ≡ n + length (separator_of slash) + length name = omega (
      arith,
      ap length same,
      length-append (path ++ separator_of slash) name,
      length-append path (separator_of slash),
      held.0,
    ) in
    elim (Bool-cases (ltb (length buffer) (n + length (separator_of slash) + length name + 1))) [
      | inl over ↦ inl (ground (arith, long), ground (arith, length-separator_of slash))
      | inr fits ↦
          let (separated, put, start, kept) =
            append_separator-Holds slash buffer path n refl held (ground arith) in
          let (ended, named, holds, size) =
            append_name-Holds separated (path ++ separator_of slash)
              (n + length (separator_of slash)) name
              (omega (arith, length-append path (separator_of slash), held.0)) start
              (ground (arith, kept)) in
          let m = n + length (separator_of slash) + length name in
          let whole : Holds ended m (joined path name) =
            (sym long, holds.1 ∙ ap (λ s. s ++ 0 ∷ []) (sym same)) in
          let parts : joined path name ≡ path ++ (separator_of slash ++ name) =
            same ∙ append_assoc path (separator_of slash) name in
          let (restored, cut, again, left) =
            truncate-Holds ended path (separator_of slash ++ name) n m held.0
              (subst (λ s. Holds ended m s) parts whole) in
          inr (
            joined path name,
            ended,
            m,
            ground (arith, long),
            ground (arith, length-separator_of slash, put, named),
            whole,
            omega (arith, size, kept),
            restored,
            cut,
            again,
            omega (arith, left, size, kept),
          )
    ]
