-- ===== src/Parallel/Visit.antt =====
-- src/discovery/bc_seek_discovery_walk_parallel.c: what a worker does with an entry. The library of
-- the parallel walk and the growing arrays of bc_allocators are not in the repository.
use bc_seek.Base.{
  ℕ, ◌+◌, ◌-◌, ◌*◌, ◌%◌, ◌^◌, ◌≡◌, Bool, true, false, not, ◌&&◌, Option, none, some, List, [], ◌∷◌,
  ◌++◌, Bytes, get_or, get_elem?, set, take, drop, leb, ◌==◌, if◌then◌else◌, ℤ,
}
use bc_seek.Types.{EntryType, any, file, directory, symlink, entry_type_equal}
use bc_seek.CoreLib.{BcCore}
use bc_seek.Os.{Os, at_fdcwd}
use bc_seek.Filter.{Predicate, Candidate, accept}
use bc_seek.Filter.Evaluate.{evaluate}
use bc_seek.Filter.Ignored.{ignored_directory_name}
use bc_seek.Walk.{WalkError, enomem}
use bc_seek.Parallel.{WorkerSlot}

-- `bc_io_walk_entry_kind_t`
pub data EntryKind : Type 0 where
  kind_file kind_directory kind_symlink kind_other : EntryKind

-- The fields of `bc_io_walk_entry_t` that the code reads.
pub record WalkEntry : Type 0 where
  pub absolute_path : Bytes
  pub absolute_path_length : ℕ
  pub depth : ℕ
  pub kind : EntryKind
  pub device_id : ℕ
  pub file_size : ℕ
  pub modification_time_seconds : ℤ
  pub permission_mask : ℕ
  pub stat_populated : Bool

-- The operations of a byte array at the n-th event of the walk, by the contents: the new contents,
-- or a failure, which leaves them.
pub record Arrays : Type 0 where
  pub append_bulk : ℕ → Bytes → Bytes → Option Bytes
  pub push : ℕ → Bytes → ℕ → Option Bytes
  pub reserve : ℕ → Bytes → ℕ → Option Bytes

-- No operation fails.
pub record IsReliable (A : Arrays) : Type 0 where
  pub append_bulk_law : (n : ℕ) (buffer s : Bytes) → A.append_bulk n buffer s ≡ some (buffer ++ s)
  pub push_law : (n : ℕ) (buffer : Bytes) (c : ℕ) → A.push n buffer c ≡ some (buffer ++ c ∷ [])
  pub reserve_law :
      (n : ℕ) (buffer : Bytes) (capacity : ℕ) → A.reserve n buffer capacity ≡ some buffer

-- The context; the last two fields are atomic, and set by the first root.
pub record ParallelContext : Type 0 where
  pub predicate : Predicate
  pub output_separator : ℕ
  pub follow_symlinks : Bool
  pub one_file_system : Bool
  pub root_device_initialized : Bool
  pub root_device : ℕ

abbrev pub output_initial_capacity : ℕ
output_initial_capacity = 64 * 1024

-- A push that fails leaves the path in the array.
unfoldable pub append_match : Arrays → ℕ → Bytes → Bytes → ℕ → ℕ → Bool × Bytes
append_match A n buffer path path_length separator =
    elim (A.append_bulk n buffer (take path_length path)) [
      | none ↦ (false, buffer)
      | some appended ↦ elim (A.push n appended separator) [
        | none ↦ (false, appended)
        | some ended ↦ (true, ended)
      ]
    ]

-- `bc_concurrency_worker_slot` gives the slot of the worker that calls, or NULL.
unfoldable pub ensure_worker_slot : Arrays → ℕ → List WorkerSlot → ℕ → Bool × List WorkerSlot
ensure_worker_slot A n slots worker = elim (get_elem? slots worker) [
  | none ↦ (false, slots)
  | some slot ↦
      if slot.initialized then (true, slots) else elim (A.reserve n [] output_initial_capacity) [
        | none ↦ (false, set slots worker (record slot { output_bytes = [] }))
        | some bytes ↦ (
          true,
          set slots worker (record { output_bytes = bytes; emitted_count = 0; initialized = true }),
        )
      ]
]

unfoldable pub parallel_is_hidden_name : Bytes → Bool
parallel_is_hidden_name name = get_or name 0 0 == b'.'

unfoldable pub type_from_walk_kind : EntryKind → EntryType
type_from_walk_kind kind_file = file
type_from_walk_kind kind_directory = directory
type_from_walk_kind kind_symlink = symlink
type_from_walk_kind kind_other = any

-- The string behind the last slash of the first `path_length` bytes, and its length.
unfoldable pub parallel_basename : BcCore → Bytes → ℕ → Bytes × ℕ
parallel_basename C path path_length = elim (C.core_find_last_byte path path_length b'/') [
  | none ↦ (path, path_length)
  | some last_slash_offset ↦
      (drop (last_slash_offset + 1) path, path_length - (last_slash_offset + 1))
]

-- `true` means that the entry lies on another device than the first root.
unfoldable pub off_device : ParallelContext → WalkEntry → Bool
off_device context entry =
    (context.one_file_system && context.root_device_initialized)
    && not (entry.device_id == context.root_device)

unfoldable pub visit_candidate : BcCore → ParallelContext → WalkEntry → Candidate
unfolding type_from_walk_kind parallel_basename
visit_candidate C context entry =
    let named = parallel_basename C entry.absolute_path entry.absolute_path_length in
    record {
      path = entry.absolute_path;
      path_length = entry.absolute_path_length;
      basename = named.0;
      basename_length = named.1;
      depth = entry.depth;
      entry_type = type_from_walk_kind entry.kind;
      type_resolved = not (entry_type_equal (type_from_walk_kind entry.kind) any);
      size_bytes = entry.file_size % 2 ^ 64;
      modification_time = entry.modification_time_seconds;
      permission_mask = entry.permission_mask;
      stat_populated = entry.stat_populated;
      follow_symlinks_enabled = context.follow_symlinks;
      parent_directory_fd = at_fdcwd;
    }

-- The slots of the workers and the errors, while the library walks.
pub record ParallelState : Type 0 where
  pub slots : List WorkerSlot
  pub errors : List WalkError

abbrev pub record_error : ParallelState → Bytes → ℕ → ParallelState
record_error s path errno_value = record s {
  errors = s.errors ++ record { error_path = path; error_number = some errno_value } ∷ [];
}

-- An accepted entry goes to the slot of the worker.
unfoldable pub collect_match :
    Arrays → ParallelContext → ℕ → ℕ → WalkEntry → ParallelState → ParallelState
unfolding append_match
collect_match A context n worker entry s = elim (get_elem? s.slots worker) [
  | none ↦ s
  | some slot ↦
      let (ok, bytes) =
        append_match A n slot.output_bytes entry.absolute_path entry.absolute_path_length
          context.output_separator in
      if not ok
      then record_error
          (record s { slots = set s.slots worker (record slot { output_bytes = bytes }) })
          entry.absolute_path enomem
      else record s {
        slots = set s.slots worker (record slot {
          output_bytes = bytes;
          emitted_count = (slot.emitted_count + 1) % 2 ^ 64;
        });
      }
]

module _ (C : BcCore) (os : Os) (A : Arrays) (context : ParallelContext) where
  -- The callback for an entry, as the worker calls it at the n-th event.
  unfoldable pub visit : ℕ → ℕ → WalkEntry → ParallelState → Bool × ParallelState
  unfolding ensure_worker_slot collect_match off_device
  visit n worker entry s =
      if off_device context entry
      then (true, s)
      else let (ensured, slots) = ensure_worker_slot A n s.slots worker in
        let t : ParallelState = record s { slots = slots } in
        if not ensured
        then (false, t)
        else elim ((evaluate os context.predicate (visit_candidate C context entry)).0) [
          | accept ↦ (true, collect_match A context n worker entry t)
          | _ ↦ (true, t)
        ]

  -- The callback that asks whether to walk a directory.
  unfoldable pub parallel_should_descend : WalkEntry → Bool
  unfolding parallel_basename parallel_is_hidden_name off_device
  parallel_should_descend entry =
      let named = parallel_basename C entry.absolute_path entry.absolute_path_length in
      if context.predicate.has_max_depth && leb context.predicate.max_depth entry.depth
      then false
      else if context.predicate.respect_ignore_defaults && ignored_directory_name C named.0 named.1
      then false
      else if not context.predicate.include_hidden && parallel_is_hidden_name named.0
      then false
      else if off_device context entry
      then false
      else true

-- The callback for an error of the library.
abbrev pub on_error : ParallelState → Bytes → ℕ → ParallelState
on_error s path errno_value = record_error s path errno_value

-- The callback that asks whether to stop, at the n-th poll; the handler may be NULL.
unfoldable pub should_stop_check : Option (ℕ → Bool) → ℕ → Bool
should_stop_check none n = false
should_stop_check (some handler) n = handler n

-- A call of the library back into the program.
pub data Event : Type 0 where
  visited : ℕ → WalkEntry → Event
  failed : Bytes → ℕ → Event

-- The calls in the order in which they take effect, `n` being the first one's number. The workers
-- interleave as they like.
unfoldable pub run_events :
    BcCore → Os → Arrays → ParallelContext → ℕ → List Event → ParallelState → ParallelState
unfolding visit
run_events C os A context n [] s = s
run_events C os A context n (visited worker entry ∷ events) s =
    run_events C os A context (n + 1) events (visit C os A context n worker entry s).1
run_events C os A context n (failed path errno_value ∷ events) s =
    run_events C os A context (n + 1) events (on_error s path errno_value)
