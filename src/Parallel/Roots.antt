-- ===== src/Parallel/Roots.antt =====
-- bc_seek_parallel_handle_root and bc_seek_discovery_walk_parallel of
-- src/discovery/bc_seek_discovery_walk_parallel.c.
use bc_seek.Base.{
  ℕ, zero, suc, ◌+◌, ◌%◌, ◌^◌, Bool, true, false, not, ◌&&◌, Option, none, some, List, [], ◌∷◌,
  Bytes, length, get_or, ltb, ◌==◌, if◌then◌else◌, codes, bit_and,
}
use bc_seek.Types.{any, directory, entry_type_equal}
use bc_seek.CoreLib.{BcCore}
use bc_seek.Os.{Os, at_fdcwd, Stat, stat_ok, stat_error}
use bc_seek.Filter.{Candidate, accept, type_of_stat, size_of_stat}
use bc_seek.Filter.Evaluate.{evaluate}
use bc_seek.Output.{Writer, Output}
use bc_seek.Walk.{WalkConfig, WalkError, enomem, einval}
use bc_seek.Walk.Iterate.{Outcome}
use bc_seek.Walk.Roots.{walk_sequential}
use bc_seek.Parallel.{WorkerSlot, Writev, merge_matches}
use bc_seek.Parallel.Visit.{
  Arrays, ParallelContext, ParallelState, record_error, Event, run_events, append_match,
  parallel_basename, output_initial_capacity,
}

-- `bc_io_walk_parallel` on the n-th root: the calls that it makes, in the order of their effects.
abbrev pub Schedule : Type 0
Schedule = ℕ → Bytes → ℕ → List Event

-- What the roots share: the matches among the roots, and the number of events so far.
pub record ParallelRun : Type 0 where
  pub context : ParallelContext
  pub state : ParallelState
  pub main_output : Bytes
  pub main_emitted : ℕ
  pub events_done : ℕ

-- The length without the slashes at the end.
unfoldable pub strip_slashes : Bytes → ℕ → ℕ
strip_slashes root_path zero = zero
strip_slashes root_path (suc zero) = suc zero
strip_slashes root_path (suc (suc n)) =
    let shorter = strip_slashes root_path (suc n) in
    if get_or root_path (suc n) 0 == b'/' then shorter else suc (suc n)

-- The exchange of `root_device_initialized`: only the first root sets the device.
abbrev pub claim_device : ParallelContext → Stat → ParallelContext
claim_device context st =
    if context.one_file_system && not context.root_device_initialized
    then record context { root_device_initialized = true; root_device = st.st_dev }
    else context

unfoldable pub parallel_root_candidate : BcCore → Bytes → ℕ → Stat → Candidate
unfolding parallel_basename type_of_stat
parallel_root_candidate C root_path path_length st =
    let named = parallel_basename C root_path path_length in
    record {
      path = root_path;
      path_length = path_length;
      basename = named.0;
      basename_length = named.1;
      depth = 0;
      entry_type = type_of_stat st;
      type_resolved = not (entry_type_equal (type_of_stat st) any);
      size_bytes = size_of_stat st;
      modification_time = st.st_mtime;
      permission_mask = bit_and st.st_mode 0o7777;
      stat_populated = true;
      follow_symlinks_enabled = false;
      parent_directory_fd = at_fdcwd;
    }

-- An accepted root goes to the main buffer.
unfoldable pub emit_root : Arrays → Bytes → ℕ → ParallelRun → ParallelRun
unfolding append_match
emit_root A root_path path_length r =
    let (ok, bytes) =
      append_match A r.events_done r.main_output root_path path_length r.context.output_separator in
    if not ok
    then record r { main_output = bytes; state = record_error r.state root_path enomem }
    else record r { main_output = bytes; main_emitted = (r.main_emitted + 1) % 2 ^ 64 }

module _ (C : BcCore) (os : Os) (A : Arrays) (schedule : Schedule) where
  -- The walk below the n-th root.
  unfoldable pub walk_root : ℕ → Bytes → ℕ → ParallelRun → ParallelRun
  unfolding run_events
  walk_root n root_path path_length r =
      let events = schedule n root_path path_length in
      record r {
        state = run_events C os A r.context (r.events_done + 1) events r.state;
        events_done = r.events_done + 1 + length events;
      }

  unfoldable pub handle_stated_root : ℕ → Bytes → ℕ → Stat → ParallelRun → ParallelRun
  unfolding walk_root emit_root
  handle_stated_root n root_path path_length st r =
      let (decision, judged) =
        evaluate os r.context.predicate (parallel_root_candidate C root_path path_length st) in
      let emitted : ParallelRun = elim decision [
        | accept ↦ emit_root A root_path path_length r
        | _ ↦ r
      ] in
      if not (entry_type_equal (type_of_stat st) directory)
      then emitted
      else if r.context.predicate.has_max_depth && (r.context.predicate.max_depth == 0)
      then emitted
      else walk_root n root_path path_length emitted

  unfoldable pub handle_root : ℕ → Bytes → ParallelRun → Bool × ParallelRun
  unfolding handle_stated_root strip_slashes
  handle_root n root_path r = elim (os.fstatat at_fdcwd root_path (not r.context.follow_symlinks)) [
    | stat_error e ↦ (false, record r { state = record_error r.state root_path e })
    | stat_ok st ↦ elim (C.core_length root_path) [
      | none ↦ (false, record r { state = record_error r.state root_path einval })
      | some root_length ↦ (
        true,
        handle_stated_root n root_path (strip_slashes root_path root_length) st
            (record r { context = claim_device r.context st }),
      )
    ]
  ]

  -- The loop over the roots, from the n-th on.
  unfoldable pub handle_roots : ℕ → List Bytes → ParallelRun → Bool × ParallelRun
  unfolding handle_root
  handle_roots n [] r = (true, r)
  handle_roots n (root_path ∷ rest) r =
      let (ok, next) = handle_root n root_path r in
      let (any_ok, last) = handle_roots (n + 1) rest next in (ok && any_ok, last)

  unfoldable pub handle_all : List Bytes → ParallelRun → Bool × ParallelRun
  unfolding handle_roots
  handle_all [] r = handle_root 0 (codes ".") r
  handle_all (root_path ∷ rest) r = handle_roots 0 (root_path ∷ rest) r

-- What `bc_concurrency` gives: the number of workers, whether a slot can be registered, and for how
-- many workers there are slots, which are zero at first.
pub record Concurrency : Type 0 where
  pub effective_worker_count : ℕ
  pub register_slot : Bool
  pub slot_count : ℕ

abbrev pub zero_slots : ℕ → List WorkerSlot
zero_slots zero = []
zero_slots (suc n) =
    record { output_bytes = []; emitted_count = 0; initialized = false } ∷ zero_slots n

-- A walk's result: the return value, the output, the errors, and the text that went to the
-- descriptor past the writer.
pub record Walked (W : Writer) : Type 0 where
  pub walk_ok : Bool
  pub output : Output W
  pub errors : List WalkError
  pub direct_text : Bytes

abbrev pub of_sequential : {W : Writer} → Outcome W → Option (Walked W)
of_sequential none = none
of_sequential (some (ok, t)) =
    some (record { walk_ok = ok; output = t.output; errors = t.errors; direct_text = [] })

module _ (C : BcCore) (os : Os) (A : Arrays) (schedule : Schedule) (W : Writer) (writev : Writev)
    (iov_max : ℕ) (fuel : ℕ) (k : WalkConfig) where
  -- The run before the first root.
  abbrev pub run_start : ℕ → Bytes → ℕ → ParallelRun
  run_start slot_count main_output separator = record {
    context = record {
      predicate = k.predicate;
      output_separator = separator;
      follow_symlinks = k.follow_symlinks;
      one_file_system = k.one_file_system;
      root_device_initialized = false;
      root_device = 0;
    };
    state = record { slots = zero_slots slot_count; errors = [] };
    main_output = main_output;
    main_emitted = 0;
    events_done = 1;
  }

  -- The walk with workers, from the registration of the slots on.
  unfoldable pub walk_with_workers : Concurrency → List Bytes → Output W → Option (Walked W)
  unfolding handle_all
  walk_with_workers concurrency roots output =
      let unwalked : Walked W = record {
        walk_ok = false;
        output = output;
        errors = [];
        direct_text = [];
      } in
      if not concurrency.register_slot
      then some unwalked
      else elim (A.reserve 0 [] output_initial_capacity) [
        | none ↦ some unwalked
        | some main_output ↦
            let (any_root_ok, r) =
              handle_all C os A schedule roots
                (run_start concurrency.slot_count main_output output.separator) in
            elim (merge_matches W writev iov_max fuel output r.main_output r.main_emitted
              r.state.slots) [
                | none ↦ none
                | some (merge_ok, text, merged) ↦ some (record {
                  walk_ok = any_root_ok && merge_ok;
                  output = merged;
                  errors = r.state.errors;
                  direct_text = text;
                })
              ]
      ]

  -- The concurrency context may be NULL.
  unfoldable pub walk_parallel : Option Concurrency → List Bytes → Output W → Option (Walked W)
  unfolding walk_with_workers
  walk_parallel none roots output = of_sequential (walk_sequential C os W k roots output)
  walk_parallel (some concurrency) roots output =
      if ltb concurrency.effective_worker_count 2
      then of_sequential (walk_sequential C os W k roots output)
      else walk_with_workers concurrency roots output
