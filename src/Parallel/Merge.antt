-- ===== src/Parallel/Merge.antt =====
-- The text that the merge at the end of bc_seek_discovery_walk_parallel writes.
use mathlib.Core.Path.{subst}
use bc_seek.Base.{
  ℕ, ◌%◌, ◌^◌, ◌+◌, ◌≤◌, ◌<◌, ◌≡◌, ◌∙◌, refl, ap, sym, Bool, true, some, List, [], ◌∷◌, ◌++◌,
  append-nil, Bytes, length, arith, inr,
}
use bc_seek.Output.{Writer, Output}
use bc_seek.Parallel.{
  WorkerSlot, Writev, all_bytes, collect_slots, start_builder, write_builder, merge_matches,
  max_iovec,
}
use bc_seek.Parallel.Written.{IsLawful, AllFilled, AllOrFailed, write_all_iovec-all_bytes}
use bc_seek.Parallel.Collect.{slots_text, collect_slots-slots_text}

start_builder-text :
    (main_output : Bytes) (n : ℕ)
    → AllFilled (start_builder main_output n).iov
      × (length (start_builder main_output n).iov ≤ 1)
      × (all_bytes (start_builder main_output n).iov ≡ main_output)
unfolding start_builder
start_builder-text [] n = (tt, ground arith, refl)
start_builder-text (c ∷ s) n =
    let same : (c ∷ s) ∷ [] ≡ (start_builder (c ∷ s) n).iov = ground arith in
    (
      subst AllFilled same (omega arith, tt),
      omega (arith, ap length same),
      ap all_bytes (sym same) ∙ append-nil (c ∷ s),
    )

module _ (W : Writer) (writev : Writev) (bound : ℕ) (K : IsLawful writev bound) (iov_max : ℕ)
    (room : 0 < iov_max) where
  write_builder-all_bytes :
      (fuel : ℕ) (writer : W.State) (iov : List Bytes)
      → (W.flush writer).0 ≡ true
      → AllFilled iov
      → bound + length (all_bytes iov) ≤ fuel
      → (ok : Bool) × (text : Bytes) × (rest : Bytes) × (w : W.State) × (write_builder W writev
            iov_max fuel writer iov
          ≡ some (ok, text, w))
        × (text ++ rest ≡ all_bytes iov)
        × AllOrFailed writev iov_max ok rest
  unfolding write_builder
  write_builder-all_bytes fuel writer [] flushed filled enough =
      (true, [], [], writer, refl, refl, inr (refl, refl))
  write_builder-all_bytes fuel writer (v ∷ iov) flushed filled enough =
      let (ok, text, rest, done, whole, complete) =
        write_all_iovec-all_bytes writev bound K iov_max room fuel (v ∷ iov) filled enough in
      (ok, text, rest, (W.flush writer).1, ground arith, whole, complete)

  -- If the flush of the output succeeds, the merge returns, and what it writes to the descriptor
  -- begins the matches of the roots followed by those of the workers' slots in use: either the
  -- result is true and it is all of them, or the result is false and a call of `writev` on what is
  -- left fails. There are at most 255 slots and fuel for the bytes and the interrupts; a call of
  -- `writev` writes no more than it is offered and something of a nonempty offer, and is
  -- interrupted only finitely often; `IOV_MAX` is positive.
  pub merge_matches-slots_text :
      (fuel : ℕ) (output : Output W) (main_output : Bytes) (main_emitted : ℕ)
      (slots : List WorkerSlot)
      → (W.flush output.writer).0 ≡ true
      → length slots < max_iovec
      → bound + length (main_output ++ slots_text slots) ≤ fuel
      → (ok : Bool) × (text : Bytes) × (rest : Bytes) × (o : Output W) × (merge_matches W writev
            iov_max fuel output main_output main_emitted slots
          ≡ some (ok, text, o))
        × (text ++ rest ≡ main_output ++ slots_text slots)
        × AllOrFailed writev iov_max ok rest
  unfolding merge_matches
  merge_matches-slots_text fuel output main_output main_emitted slots flushed few enough =
      let (filled, size, first) = start_builder-text main_output main_emitted in
      let start = start_builder main_output main_emitted in
      let (all_filled, collected) = collect_slots-slots_text slots start filled (omega arith) in
      let whole : all_bytes (collect_slots slots start).iov ≡ main_output ++ slots_text slots =
        collected ∙ ap (λ s. s ++ slots_text slots) first in
      let (ok, text, rest, w, done, written, complete) =
        write_builder-all_bytes fuel output.writer (collect_slots slots start).iov flushed
          all_filled (omega (arith, ap length whole)) in
      let merged : Output W = record output {
        writer = w;
        emitted_count = (output.emitted_count + (collect_slots slots start).total_emitted) % 2 ^ 64;
      } in
      (ok, text, rest, merged, ground arith, written ∙ whole, complete)
