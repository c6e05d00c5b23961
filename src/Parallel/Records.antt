-- ===== src/Parallel/Records.antt =====
-- What the workers' slots hold, as lists of records.
use mathlib.Core.List.{Perm, perm_append_comm, perm_middle}
use mathlib.Core.List.Perm
use mathlib.Core.Path.{subst}
use bc_seek.Base.{
  ℕ, zero, suc, ◌<◌, ◌≡◌, ◌∙◌, refl, ap, sym, some, List, [], ◌∷◌, ◌++◌, append_assoc, append-nil,
  Bytes, length, get_elem?, set, if◌then◌else◌, arith,
}
use bc_seek.Output.Written.{printed}
use bc_seek.Output.Records.{print_all, print_all-append}
use bc_seek.Parallel.{WorkerSlot}
use bc_seek.Parallel.Collect.{slots_text}

abbrev pub flatten : List (List Bytes) → List Bytes
flatten [] = []
flatten (ps ∷ rest) = ps ++ flatten rest

-- Two lists change places in front of a third.
pub perm_front : (xs ys zs : List Bytes) → Perm (xs ++ (ys ++ zs)) ((ys ++ xs) ++ zs)
perm_front xs ys zs =
    subst (λ (l : List Bytes). Perm l ((ys ++ xs) ++ zs)) (append_assoc xs ys zs)
      (Perm.append_right zs (perm_append_comm xs ys))

-- The text of a slot in use.
abbrev pub slot_text : WorkerSlot → Bytes
slot_text slot = if slot.initialized then slot.output_bytes else []

-- The n-th slot holds the n-th part, printed.
abbrev pub Hold : ℕ → List WorkerSlot → List (List Bytes) → Type 0
Hold b [] [] = Unit
Hold b [] (part ∷ parts) = ⊥
Hold b (slot ∷ slots) [] = ⊥
Hold b (slot ∷ slots) (part ∷ parts) = (slot_text slot ≡ print_all b part) × Hold b slots parts

pub Hold-slots_text :
    (b : ℕ) (slots : List WorkerSlot) (parts : List (List Bytes))
    → Hold b slots parts
    → slots_text slots ≡ print_all b (flatten parts)
Hold-slots_text b [] [] h = refl
Hold-slots_text b [] (part ∷ parts) h = absurd h
Hold-slots_text b (slot ∷ slots) [] h = absurd h
Hold-slots_text b (slot ∷ slots) (part ∷ parts) (here, rest) =
    ap (λ s. s ++ slots_text slots) here
    ∙ ap (λ s. print_all b part ++ s) (Hold-slots_text b slots parts rest)
    ∙ sym (print_all-append b part (flatten parts))

-- A slot whose text does not change.
pub Hold-set_same :
    (b : ℕ) (slots : List WorkerSlot) (parts : List (List Bytes)) (worker : ℕ)
    (old new : WorkerSlot)
    → get_elem? slots worker ≡ some old
    → slot_text new ≡ slot_text old
    → Hold b slots parts
    → Hold b (set slots worker new) parts
Hold-set_same b [] [] worker old new found same h = tt
Hold-set_same b [] (part ∷ parts) worker old new found same h = absurd h
Hold-set_same b (slot ∷ slots) [] worker old new found same h = absurd h
Hold-set_same b (slot ∷ slots) (part ∷ parts) zero old new found same (here, rest) =
    let at : slot ≡ old = cc in (same ∙ ap slot_text (sym at) ∙ here, rest)
Hold-set_same b (slot ∷ slots) (part ∷ parts) (suc worker) old new found same (here, rest) =
    (here, Hold-set_same b slots parts worker old new found same rest)

-- A slot that gets one more match.
pub Hold-set_more :
    (b : ℕ) (slots : List WorkerSlot) (parts : List (List Bytes)) (worker : ℕ)
    (old new : WorkerSlot) (path : Bytes)
    → get_elem? slots worker ≡ some old
    → slot_text new ≡ slot_text old ++ printed b path
    → Hold b slots parts
    → (more : List (List Bytes)) × Hold b (set slots worker new) more
      × Perm (flatten more) (path ∷ flatten parts)
Hold-set_more b [] parts worker old new path found text h = absurd (cc)
Hold-set_more b (slot ∷ slots) [] worker old new path found text h = absurd h
Hold-set_more b (slot ∷ slots) (part ∷ parts) zero old new path found text (here, rest) =
    let at : slot ≡ old = cc in
    let added : slot_text new ≡ print_all b (part ++ path ∷ []) =
      text
      ∙ ap (λ s. s ++ printed b path) (ap slot_text (sym at) ∙ here)
      ∙ ap (λ s. print_all b part ++ s) (sym (append-nil (printed b path)))
      ∙ sym (print_all-append b part (path ∷ [])) in
    (
      (part ++ path ∷ []) ∷ parts,
      (added, rest),
      subst (λ (xs : List Bytes). Perm xs (path ∷ (part ++ flatten parts)))
          (sym (append_assoc part (path ∷ []) (flatten parts))) (perm_middle part (flatten parts)),
    )
Hold-set_more b (slot ∷ slots) (part ∷ parts) (suc worker) old new path found text (here, rest) =
    let (more, held, same) = Hold-set_more b slots parts worker old new path found text rest in
    (
      part ∷ more,
      (here, held),
      Perm.trans (Perm.append_left part same) (perm_middle part (flatten parts)),
    )

pub length-set :
    (slots : List WorkerSlot) (i : ℕ) (slot : WorkerSlot) → length (set slots i slot) ≡ length slots
length-set [] i slot = refl
length-set (x ∷ slots) zero slot = refl
length-set (x ∷ slots) (suc i) slot = ap suc (length-set slots i slot)

pub get_elem?_of_lt :
    (slots : List WorkerSlot) (i : ℕ)
    → i < length slots
    → (slot : WorkerSlot) × (get_elem? slots i ≡ some slot)
get_elem?_of_lt [] i h = absurd (omega arith)
get_elem?_of_lt (x ∷ slots) zero h = (x, refl)
get_elem?_of_lt (x ∷ slots) (suc i) h = get_elem?_of_lt slots i (omega arith)

pub get_elem?-set_self :
    (slots : List WorkerSlot) (i : ℕ) (slot : WorkerSlot)
    → i < length slots
    → get_elem? (set slots i slot) i ≡ some slot
get_elem?-set_self [] i slot h = absurd (omega arith)
get_elem?-set_self (x ∷ slots) zero slot h = refl
get_elem?-set_self (x ∷ slots) (suc i) slot h = get_elem?-set_self slots i slot (omega arith)
