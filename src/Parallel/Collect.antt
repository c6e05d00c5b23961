-- ===== src/Parallel/Collect.antt =====
-- What the slots of the workers hold, and what the collection hands to the write.
use mathlib.Core.Path.{subst}
use bc_seek.Base.{
  ◌+◌, ◌≤◌, ◌<◌, ◌≡◌, ◌∙◌, refl, ap, sym, true, List, [], ◌∷◌, ◌++◌, append_assoc, append-nil,
  Bytes, length, length-append, ◌==◌, if◌then◌else◌, arith, Bool-cases, inl, inr,
}
use bc_seek.Parallel.{
  WorkerSlot, IovecBuilder, max_iovec, all_bytes, collect_slot_iovec, collect_slots,
}
use bc_seek.Parallel.Written.{AllFilled}

-- The text of the slots in use.
abbrev pub slots_text : List WorkerSlot → Bytes
slots_text [] = []
slots_text (slot ∷ slots) = (if slot.initialized then slot.output_bytes else []) ++ slots_text slots

all_bytes-append : (a b : List Bytes) → all_bytes (a ++ b) ≡ all_bytes a ++ all_bytes b
all_bytes-append [] b = refl
all_bytes-append (v ∷ a) b =
    ap (λ s. v ++ s) (all_bytes-append a b) ∙ sym (append_assoc v (all_bytes a) (all_bytes b))

AllFilled-append :
    (a : List Bytes) (v : Bytes) → AllFilled a → 0 < length v → AllFilled (a ++ v ∷ [])
AllFilled-append [] v filled here = (here, tt)
AllFilled-append (w ∷ a) v (first, filled) here = (first, AllFilled-append a v filled here)

empty-Bytes : (s : Bytes) → (length s == 0) ≡ true → s ≡ []
empty-Bytes [] h = refl
empty-Bytes (c ∷ s) h = absurd (ground arith)

collect_slot-text :
    (slot : WorkerSlot) (builder : IovecBuilder)
    → AllFilled builder.iov
    → length builder.iov < max_iovec
    → AllFilled (collect_slot_iovec slot builder).iov
      × (length (collect_slot_iovec slot builder).iov ≤ length builder.iov + 1)
      × (all_bytes (collect_slot_iovec slot builder).iov
          ≡ all_bytes builder.iov ++ (if slot.initialized then slot.output_bytes else []))
collect_slot-text slot builder filled room = elim (Bool-cases slot.initialized) [
  | inr unused ↦
      let same : builder.iov ≡ (collect_slot_iovec slot builder).iov =
        unfold collect_slot_iovec in ground arith in
      (
        subst AllFilled same filled,
        omega (arith, ap length same),
        ap all_bytes (sym same) ∙ sym (append-nil (all_bytes builder.iov)) ∙ ground arith,
      )
  | inl used ↦ elim (Bool-cases (length slot.output_bytes == 0)) [
    | inl empty ↦
        let same : builder.iov ≡ (collect_slot_iovec slot builder).iov =
          unfold collect_slot_iovec in ground arith in
        (
          subst AllFilled same filled,
          omega (arith, ap length same),
          ap all_bytes (sym same)
              ∙ sym (append-nil (all_bytes builder.iov))
              ∙ ground (arith, empty-Bytes slot.output_bytes empty),
        )
    | inr full ↦
        let same : builder.iov ++ slot.output_bytes ∷ [] ≡ (collect_slot_iovec slot builder).iov =
          unfold collect_slot_iovec in ground arith in
        (
          subst AllFilled same
              (AllFilled-append builder.iov slot.output_bytes filled (ground arith)),
          omega (arith, ap length same, length-append builder.iov (slot.output_bytes ∷ [])),
          ap all_bytes (sym same)
              ∙ all_bytes-append builder.iov (slot.output_bytes ∷ [])
              ∙ ground (arith, append-nil slot.output_bytes),
        )
  ]
]

-- If the buffers collected and the slots to visit are at most 256 and no buffer collected is empty,
-- the visits of the slots add all that the slots in use hold, in the order of the slots, and no
-- empty buffer.
pub collect_slots-slots_text :
    (slots : List WorkerSlot) (builder : IovecBuilder)
    → AllFilled builder.iov
    → length builder.iov + length slots ≤ max_iovec
    → AllFilled (collect_slots slots builder).iov
      × (all_bytes (collect_slots slots builder).iov ≡ all_bytes builder.iov ++ slots_text slots)
unfolding collect_slots
collect_slots-slots_text [] builder filled room = (filled, sym (append-nil (all_bytes builder.iov)))
collect_slots-slots_text (slot ∷ slots) builder filled room =
    let (filled', size, text) = collect_slot-text slot builder filled (omega arith) in
    let (all_filled, whole) =
      collect_slots-slots_text slots (collect_slot_iovec slot builder) filled' (omega arith) in
    (
      all_filled,
      whole
          ∙ ap (λ s. s ++ slots_text slots) text
          ∙ append_assoc (all_bytes builder.iov)
              (if slot.initialized then slot.output_bytes else []) (slots_text slots),
    )
