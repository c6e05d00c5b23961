-- ===== src/Walk.antt =====
-- src/discovery/bc_seek_discovery_walk_sequential.c, its helpers: the context, the path, the tests
-- on an entry and the opening of a subdirectory. `path_buffer` is modelled by the string that it
-- holds; Walk/Buffer has the array.
pub mod Buffer
pub mod Cases
pub mod Opens
pub mod Iterate
pub mod Roots
pub mod Views
pub mod Balance
pub mod Terminates
pub mod Spec
pub mod Adds
pub mod Cuts
pub mod Rounds
pub mod Refines
pub mod RootPrints
pub mod Prints
use bc_seek.Base.{
  ℕ, ◌+◌, ◌-◌, ◌≡◌, Bool, true, false, not, ◌&&◌, ◌||◌, Option, none, some, List, [], ◌∷◌, ◌++◌,
  Bytes, length, get_or, drop, ltb, leb, ◌==◌, if◌then◌else◌, ℤ, pos,
}
use bc_seek.Types.{EntryType, any, file, directory, symlink, entry_type_equal}
use bc_seek.CoreLib.{BcCore}
use bc_seek.Os.{
  Os, DirFd, at_fdcwd, open_fd, Stat, StatResult, stat_ok, stat_error, OpenResult, opened,
  open_error, DirentType, dt_reg, dt_dir, dt_lnk, dt_other, DirEntry,
}
use bc_seek.Filter.{Predicate, Candidate, Decision, accept, reject, stat_required, populate_stat}
use bc_seek.Filter.Evaluate.{evaluate}
use bc_seek.Filter.Ignored.{ignored_directory_name}
use bc_seek.Output.{Writer, Output, output_emit}

abbrev pub path_capacity : ℕ
path_capacity = 4096

-- The values of `errno` that the code names.
abbrev pub enomem : ℕ
enomem = 12

abbrev pub einval : ℕ
einval = 22

abbrev pub enametoolong : ℕ
enametoolong = 36

-- An entry of the error collector; `none` is an `errno` that no call of the step has set.
pub record WalkError : Type 0 where
  pub error_path : Bytes
  pub error_number : Option ℕ

-- The fields of the context that never change. The handler may be NULL; its k-th poll answers
-- whether to stop.
pub record WalkConfig : Type 0 where
  pub predicate : Predicate
  pub signal_handler : Option (ℕ → Bool)
  pub follow_symlinks : Bool
  pub one_file_system : Bool

-- The fields that change, with the polls made and the directory descriptors that are open.
pub record WalkState (W : Writer) : Type 0 where
  pub output : Output W
  pub errors : List WalkError
  pub root_device : ℕ
  pub root_device_resolved : Bool
  pub stop_requested : Bool
  pub polls : ℕ
  pub open_fds : List ℕ

abbrev pub append_error : {W : Writer} → WalkState W → Bytes → Option ℕ → WalkState W
append_error s path number = record s {
  errors = s.errors ++ record { error_path = path; error_number = number } ∷ [];
}

unfoldable pub should_stop : {W : Writer} → WalkConfig → WalkState W → Bool × WalkState W
should_stop k s = if s.stop_requested then (true, s) else elim (k.signal_handler) [
  | none ↦ (false, s)
  | some signal ↦
      if signal s.polls
      then (true, record s { polls = s.polls + 1; stop_requested = true })
      else (false, record s { polls = s.polls + 1 })
]

-- The string after `bc_seek_walk_append_path`, if it fits with its NUL.
unfoldable pub joined : Bytes → Bytes → Bytes
joined path name =
    if ltb 0 (length path) && not (get_or path (length path - 1) 0 == b'/')
    then path ++ b'/' ∷ name
    else path ++ name

unfoldable pub append_path : ℕ → Bytes → Bytes → Option Bytes
append_path capacity path name =
    if ltb capacity (length (joined path name) + 1) then none else some (joined path name)

unfoldable pub is_hidden_name : Bytes → Bool
is_hidden_name name = (get_or name 0 0 == b'.') && not (get_or name 1 0 == 0)

-- The type, and `*out_resolved`.
unfoldable pub type_from_dtype : DirentType → EntryType × Bool
type_from_dtype dt_reg = (file, true)
type_from_dtype dt_dir = (directory, true)
type_from_dtype dt_lnk = (symlink, true)
type_from_dtype dt_other = (any, false)

-- The candidate of an entry of the directory `fd`, whose path is `child`.
unfoldable pub entry_candidate : WalkConfig → ℕ → Bytes → ℕ → DirEntry → Candidate
unfolding type_from_dtype
entry_candidate k fd child depth e = record {
  path = child;
  path_length = length child;
  basename = drop (length child - length e.entry_name) child;
  basename_length = length e.entry_name;
  depth = depth + 1;
  entry_type = (type_from_dtype e.d_type).0;
  type_resolved = (type_from_dtype e.d_type).1;
  size_bytes = 0;
  modification_time = pos 0;
  permission_mask = 0;
  stat_populated = false;
  follow_symlinks_enabled = k.follow_symlinks;
  parent_directory_fd = open_fd fd;
}

module _ (os : Os) (W : Writer) (k : WalkConfig) where
  -- `false` is a failed emission. The candidate comes back as `evaluate` left it.
  unfoldable pub emit_if_match : WalkState W → Candidate → Bool × Candidate × WalkState W
  emit_if_match s c =
      let (decision, judged) = evaluate os k.predicate c in
      let (ok, output) = output_emit W s.output judged.path judged.path_length in
      elim decision [ accept ↦ (ok, judged, record s { output = output }) | _ ↦ (true, judged, s) ]

  -- Whether the entry is a directory to go into, by its type or, if need be, a stat.
  unfoldable pub is_directory : Candidate → Bool
  is_directory c =
      let known = c.type_resolved && entry_type_equal c.entry_type directory in
      if not c.type_resolved || (k.follow_symlinks && entry_type_equal c.entry_type symlink)
      then elim (populate_stat os c) [
        | none ↦ known
        | some stated ↦ entry_type_equal stated.entry_type directory
      ]
      else known

  unfoldable pub should_descend : BcCore → Bytes → ℕ → Bool
  should_descend C name child_depth =
      if k.predicate.has_max_depth && ltb k.predicate.max_depth child_depth
      then false
      else if k.predicate.respect_ignore_defaults && ignored_directory_name C name (length name)
      then false
      else if not k.predicate.include_hidden && is_hidden_name name
      then false
      else true

-- The bookkeeping of `openat` and `close`.
abbrev pub push_fd : {W : Writer} → WalkState W → ℕ → WalkState W
push_fd s fd = record s { open_fds = fd ∷ s.open_fds }

abbrev pub remove_fd : ℕ → List ℕ → List ℕ
remove_fd fd [] = []
remove_fd fd (x ∷ xs) = if x == fd then xs else x ∷ remove_fd fd xs

abbrev pub close_dir : {W : Writer} → WalkState W → ℕ → WalkState W
close_dir s fd = record s { open_fds = remove_fd fd s.open_fds }

-- A descriptor to go into, or the `errno` of the failure, if a call set one.
pub data Subdir : Type 0 where
  subdir : ℕ → Subdir
  no_subdir : Option ℕ → Subdir

-- The device test of `bc_seek_walk_open_subdir` on the open directory `fd`, with its two calls of
-- `close`.
unfoldable pub check_device : {W : Writer} → StatResult → ℕ → WalkState W → Subdir × WalkState W
check_device (stat_error e) fd s = (no_subdir (some e), close_dir s fd)
check_device (stat_ok st) fd s =
    if st.st_dev == s.root_device then (subdir fd, s) else (no_subdir none, close_dir s fd)

-- The descriptor counts as open as soon as `openat` has returned it.
unfoldable pub open_subdir :
    {W : Writer} → Os → WalkConfig → WalkState W → DirFd → Bytes → Subdir × WalkState W
unfolding check_device
open_subdir os k s parent name = elim (os.openat parent name (not k.follow_symlinks)) [
  | open_error e ↦ (no_subdir (some e), s)
  | opened fd ↦
      if k.one_file_system && s.root_device_resolved
      then check_device (os.fstat fd) fd (push_fd s fd)
      else (subdir fd, push_fd s fd)
]
