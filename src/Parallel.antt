-- ===== src/Parallel.antt =====
-- src/discovery/bc_seek_discovery_walk_parallel.c: the slots of the workers and the write of the
-- collected matches, bc_seek_parallel_collect_slot_iovec, bc_seek_parallel_write_all_iovec and the
-- end of bc_seek_discovery_walk_parallel.
pub mod Written
pub mod Collect
pub mod Merge
pub mod Visit
pub mod Roots
pub mod Records
pub mod Interleave
pub mod Found
pub mod Collected
pub mod Complete
pub mod Agrees
pub mod Descends
pub mod Order
use bc_seek.Base.{
  ℕ, ◌%◌, ◌^◌, not, ◌||◌, zero, suc, ◌+◌, ◌-◌, Bool, true, false, Option, none, some, List, [], ◌∷◌,
  ◌++◌, Bytes, length, take, drop, leb, ltb, ◌==◌, if◌then◌else◌,
}
use bc_seek.Output.{Writer, Output}

-- What a call of `writev` returns: a count, or -1 with `EINTR` or another `errno`.
pub data WritevResult : Type 0 where
  wrote : ℕ → WritevResult
  interrupted write_failed : WritevResult

-- The kernel: its answer to the n-th call, by the buffers offered.
abbrev pub Writev : Type 0
Writev = ℕ → List Bytes → WritevResult

abbrev pub all_bytes : List Bytes → Bytes
all_bytes [] = []
all_bytes (v ∷ iov) = v ++ all_bytes iov

-- What a worker has collected; a slot is zero until its worker has a first match.
pub record WorkerSlot : Type 0 where
  pub output_bytes : Bytes
  pub emitted_count : ℕ
  pub initialized : Bool

-- `count` of the builder is the length of `iov`.
pub record IovecBuilder : Type 0 where
  pub iov : List Bytes
  pub total_emitted : ℕ

abbrev pub max_iovec : ℕ
max_iovec = 256

unfoldable pub collect_slot_iovec : WorkerSlot → IovecBuilder → IovecBuilder
collect_slot_iovec slot builder =
    if (not slot.initialized || (length slot.output_bytes == 0))
      || leb max_iovec (length builder.iov)
    then builder
    else record {
      iov = builder.iov ++ slot.output_bytes ∷ [];
      total_emitted = (builder.total_emitted + slot.emitted_count) % 2 ^ 64;
    }

-- The visits of all slots, in the order in which the library calls back.
unfoldable pub collect_slots : List WorkerSlot → IovecBuilder → IovecBuilder
unfolding collect_slot_iovec
collect_slots [] builder = builder
collect_slots (slot ∷ slots) builder = collect_slots slots (collect_slot_iovec slot builder)

-- The inner loop: the buffers that are left once `remaining` bytes are written.
unfoldable pub advance : List Bytes → ℕ → List Bytes
advance [] remaining = []
advance (v ∷ iov) remaining =
    let rest = advance iov (remaining - length v) in
    if remaining == 0
    then v ∷ iov
    else if leb (length v) remaining
    then rest
    else drop remaining v ∷ iov

-- The outer loop, on fuel; `sent` is the text that the calls before have written, and a call that
-- returns n writes the first n bytes of the buffers offered. `iov_max` is `IOV_MAX`.
unfoldable pub write_all_iovec : Writev → ℕ → ℕ → ℕ → List Bytes → Bytes → Option (Bool × Bytes)
unfolding advance
write_all_iovec writev iov_max zero call [] sent = some (true, sent)
write_all_iovec writev iov_max zero call (v ∷ iov) sent = none
write_all_iovec writev iov_max (suc fuel) call [] sent = some (true, sent)
write_all_iovec writev iov_max (suc fuel) call (v ∷ iov) sent =
    elim (writev call (take iov_max (v ∷ iov))) [
      | write_failed ↦ some (false, sent)
      | interrupted ↦ write_all_iovec writev iov_max fuel (call + 1) (v ∷ iov) sent
      | wrote n ↦
          write_all_iovec writev iov_max fuel (call + 1) (advance (v ∷ iov) n)
            (sent ++ take n (all_bytes (take iov_max (v ∷ iov))))
    ]

-- The builder with the matches among the roots, if there are any.
unfoldable pub start_builder : Bytes → ℕ → IovecBuilder
start_builder main_output main_emitted =
    if ltb 0 (length main_output)
    then record { iov = main_output ∷ []; total_emitted = main_emitted % 2 ^ 64 }
    else record { iov = []; total_emitted = 0 }

-- The flush and the write, with the text that goes to the descriptor past the writer.
unfoldable pub write_builder :
    (W : Writer) → Writev → ℕ → ℕ → W.State → List Bytes → Option (Bool × Bytes × W.State)
write_builder W writev iov_max fuel writer [] = some (true, [], writer)
write_builder W writev iov_max fuel writer (v ∷ iov) =
    let (ok, flushed) = W.flush writer in
    if not ok
    then some (false, [], flushed)
    else elim (write_all_iovec writev iov_max fuel 0 (v ∷ iov) []) [
      | none ↦ none
      | some (done, text) ↦ some (done, text, flushed)
    ]

-- The merge of the matches of the roots and of the workers into the output.
unfoldable pub merge_matches :
    (W : Writer)
    → Writev
    → ℕ
    → ℕ
    → Output W
    → Bytes
    → ℕ
    → List WorkerSlot
    → Option (Bool × Bytes × Output W)
unfolding start_builder write_builder collect_slots
merge_matches W writev iov_max fuel output main_output main_emitted slots =
    let builder = collect_slots slots (start_builder main_output main_emitted) in
    elim (write_builder W writev iov_max fuel output.writer builder.iov) [
      | none ↦ none
      | some (merge_ok, text, writer) ↦ some (
        merge_ok,
        text,
        record output {
          writer = writer;
          emitted_count = (output.emitted_count + builder.total_emitted) % 2 ^ 64;
        },
      )
    ]
