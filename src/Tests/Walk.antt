-- ===== src/Tests/Walk.antt =====
-- The sequential walk over `sample_os`.
use bc_seek.Base.{
  List, ◌==◌, ℕ, Bytes, length, ◌⊎◌, ◌≡◌, refl, Bool, true, false, none, some, [], ◌∷◌, ◌++◌, codes,
  pos, arith,
}
use bc_seek.Types.{any, equal}
use bc_seek.Os.{Os, stat_ok}
use bc_seek.Filter.{
  Predicate, check_depth, check_type, check_name, check_path, check_size, check_mtime, check_newer,
  check_perm, populate_stat, type_of_stat,
}
use bc_seek.Filter.Evaluate.{
  evaluate, evaluate_type, evaluate_names, evaluate_required, evaluate_stat,
}
use bc_seek.Filter.Ignored.{ignored_directory_name}
use bc_seek.Strings.{strings_length}
use bc_seek.Output.{output_emit}
use bc_seek.Walk.{
  WalkConfig, WalkState, should_stop, joined, append_path, is_hidden_name, entry_candidate,
  emit_if_match, is_directory, should_descend, open_subdir,
}
use bc_seek.Walk.Iterate.{process_directory}
use bc_seek.Walk.Roots.{walk_sequential, root_candidate}
use bc_seek.Walk.Balance.{walk_sequential-open_fds}
use bc_seek.Walk.Terminates.{walk_sequential-total}
use bc_seek.Output.Records.{print_all}
use bc_seek.Walk.Adds.{NeverStops}
use bc_seek.Walk.Spec.{matches_of_walk}
use bc_seek.Walk.Buffer.{
  Holds, buffer_append, buffer_truncate, append_separator, append_name, needs_separator,
}
use bc_seek.Walk.Buffer.Append.{buffer_append-append_path}
use bc_seek.Walk.Cuts.{Interrupts}
use bc_seek.Walk.Prints.{walk_sequential-begins, walk_sequential-matches_of_walk}
use bc_seek.Tests.Samples.{
  sample_names, sample_writer-IsReliable, sample_writer-IsLawful, sample_core as core,
  sample_core-IsLawful as lawful, sample_os as os, sample_writer as writer, sample_output as output,
  folder,
}

abbrev everything : Predicate
everything = record {
  has_name_glob = false;
  name_glob = none;
  name_case_insensitive = false;
  has_path_glob = false;
  path_glob = none;
  has_type_filter = false;
  type_filter = any;
  has_size_filter = false;
  size_op = equal;
  size_threshold_bytes = 0;
  has_mtime_filter = false;
  mtime_op = equal;
  mtime_threshold_seconds_ago = pos 0;
  has_newer_reference = false;
  newer_reference_mtime = pos 0;
  has_perm_filter = false;
  perm_mask = 0;
  has_max_depth = false;
  max_depth = 0;
  min_depth = 0;
  include_hidden = false;
  respect_ignore_defaults = true;
  follow_symlinks = false;
  require_stat = false;
  evaluation_reference_time = pos 0;
}

abbrev config : WalkConfig
config = record {
  predicate = everything;
  signal_handler = none;
  follow_symlinks = false;
  one_file_system = false;
}

-- The root, its files and those of `sub` are printed, and the hidden file is not.
abbrev finished : WalkState writer
finished = record {
  output = record output {
    writer = codes "top\ntop/a.c\ntop/sub\ntop/sub/b.c\n";
    emitted_count = 4;
  };
  errors = [];
  root_device = 0;
  root_device_resolved = false;
  stop_requested = false;
  polls = 0;
  open_fds = [];
}

walk_run : walk_sequential core os writer config (codes "top" ∷ []) output ≡ some (true, finished)
unfolding walk_sequential process_directory should_stop append_path joined is_hidden_name
    entry_candidate emit_if_match is_directory should_descend open_subdir root_candidate
    type_of_stat evaluate evaluate_type evaluate_names evaluate_required evaluate_stat check_depth
    check_type check_name check_path check_size check_mtime check_newer check_perm populate_stat
    ignored_directory_name strings_length output_emit
walk_run = refl

-- `sub` is a mount point: what is opened as `sub` lies on another device than `top`.
abbrev mounted_os : Os
mounted_os = record os { fstat = λ fd. stat_ok (record folder { st_dev = 2 }) }

abbrev one_device : WalkConfig
one_device = record config { one_file_system = true }

-- The directory is printed and refused, and its descriptor is closed.
abbrev refused_mount : WalkState writer
refused_mount = record finished {
  output = record output { writer = codes "top\ntop/a.c\ntop/sub\n"; emitted_count = 3 };
  errors = record { error_path = codes "top/sub"; error_number = none } ∷ [];
  root_device = 1;
  root_device_resolved = true;
}

mount_run :
    walk_sequential core mounted_os writer one_device (codes "top" ∷ []) output
    ≡ some (true, refused_mount)
unfolding walk_sequential process_directory should_stop append_path joined is_hidden_name
    entry_candidate emit_if_match is_directory should_descend open_subdir root_candidate
    type_of_stat evaluate evaluate_type evaluate_names evaluate_required evaluate_stat check_depth
    check_type check_name check_path check_size check_mtime check_newer check_perm populate_stat
    ignored_directory_name strings_length output_emit
mount_run = refl

walk_sequential-open_fds_example : refused_mount.open_fds ≡ []
walk_sequential-open_fds_example =
    walk_sequential-open_fds core mounted_os writer one_device (codes "top" ∷ []) output true
      refused_mount mount_run

walk_sequential-total_example :
    (ok : Bool) × (t : WalkState writer) × (walk_sequential core os writer config
        (codes "top" ∷ [])
        output
      ≡ some (ok, t))
walk_sequential-total_example =
    walk_sequential-total core os writer config lawful sample_names (codes "top" ∷ []) output

config-NeverStops : NeverStops config
config-NeverStops signal found n = absurd (ground arith)

walk_sequential-matches_of_walk_example :
    (ok : Bool) × (t : WalkState writer) × (walk_sequential core os writer config
        (codes "top" ∷ [])
        output
      ≡ some (ok, t))
    × (t.output.writer
        ≡ output.writer
          ++ print_all output.separator (matches_of_walk core os writer config (codes "top" ∷ [])))
walk_sequential-matches_of_walk_example =
    walk_sequential-matches_of_walk core os writer config sample_writer-IsLawful
      sample_writer-IsReliable config-NeverStops lawful sample_names (codes "top" ∷ []) output

-- A signal that the fourth poll sees, before the third entry of `top`.
abbrev interrupted_config : WalkConfig
interrupted_config = record config { signal_handler = some (λ n. n == 3) }

abbrev interrupted_walk : WalkState writer
interrupted_walk = record finished {
  output = record output { writer = codes "top\ntop/a.c\n"; emitted_count = 2 };
  stop_requested = true;
  polls = 4;
}

interrupted_run :
    walk_sequential core os writer interrupted_config (codes "top" ∷ []) output
    ≡ some (false, interrupted_walk)
unfolding walk_sequential process_directory should_stop append_path joined is_hidden_name
    entry_candidate emit_if_match is_directory should_descend open_subdir root_candidate
    type_of_stat evaluate evaluate_type evaluate_names evaluate_required evaluate_stat check_depth
    check_type check_name check_path check_size check_mtime check_newer check_perm populate_stat
    ignored_directory_name strings_length output_emit
interrupted_run = refl

walk_sequential-begins_example :
    (ok : Bool) × (t : WalkState writer) × (first : List Bytes) × (left : List Bytes)
    × (walk_sequential core os writer interrupted_config (codes "top" ∷ []) output ≡ some (ok, t))
    × (first ++ left ≡ matches_of_walk core os writer interrupted_config (codes "top" ∷ []))
    × (t.output.writer ≡ output.writer ++ print_all output.separator first)
    × ((left ≡ []) ⊎ ((t.stop_requested ≡ true) × Interrupts interrupted_config))
walk_sequential-begins_example =
    walk_sequential-begins core os writer interrupted_config sample_writer-IsLawful
      sample_writer-IsReliable lawful sample_names (codes "top" ∷ []) output

-- An array of eight bytes that holds `top`.
abbrev small_buffer : Bytes
small_buffer = codes "top" ++ 0 ∷ 0 ∷ 0 ∷ 0 ∷ 0 ∷ []

small_buffer-Holds : Holds small_buffer 3 (codes "top")
small_buffer-Holds = (refl, refl)

buffer_append-append_path_example :
    ((append_path (length small_buffer) (codes "top") (codes "a.c") ≡ none)
      × (buffer_append (length small_buffer) small_buffer 3 (codes "a.c")
          ≡ some (false, small_buffer, 3)))
    ⊎ ((child : Bytes) × (ended : Bytes) × (m : ℕ) × (append_path
            (length small_buffer)
            (codes "top")
            (codes "a.c")
          ≡ some child)
        × (buffer_append (length small_buffer) small_buffer 3 (codes "a.c") ≡ some (true, ended, m))
        × Holds ended m child
        × (length ended ≡ length small_buffer)
        × (restored : Bytes) × (buffer_truncate ended 3 ≡ some (restored, 3))
        × Holds restored 3 (codes "top")
        × (length restored ≡ length small_buffer))
buffer_append-append_path_example =
    buffer_append-append_path small_buffer (codes "top") 3 (codes "a.c") small_buffer-Holds

buffer_append_run :
    buffer_append 8 small_buffer 3 (codes "a.c") ≡ some (true, codes "top/a.c" ++ 0 ∷ [], 7)
unfolding buffer_append append_separator append_name needs_separator
buffer_append_run = refl
