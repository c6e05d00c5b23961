-- ===== src/Tests/Filter.antt =====
-- The filter: runs, and the theorems at concrete candidates.
use bc_seek.Base.{
  ◌≡◌, ◌↔◌, ◌⊎◌, inr, refl, Bool, true, false, none, some, [], Bytes, codes, take, pos, ◌-ℤ◌, arith,
}
use bc_seek.Types.{CliOptions, any, file, equal, greater, auto, stdout_mode}
use bc_seek.Os.{DirFd, open_fd, StatResult, stat_error}
use bc_seek.Filter.{
  Predicate, Candidate, accept, reject, predicate_from_options, with_stat, populate_stat,
  glob_matches, check_depth, check_type, check_name, check_path, check_size, check_mtime,
  check_newer, check_perm,
}
use bc_seek.Filter.Evaluate.{
  evaluate, evaluate_type, evaluate_names, evaluate_required, evaluate_stat,
}
use bc_seek.Filter.Selected.{Selected, evaluate-Selected}
use bc_seek.Filter.Lazy.{evaluate-decided}
use bc_seek.Filter.Transparent.{evaluate-with_stat, evaluate-quiet}
use bc_seek.Filter.Age.{AgeRule, check_mtime-AgeRule}
use bc_seek.Filter.Ignored.{
  ignored_directory_name, ignored_directory_names, OneOf, ignored_directory_name-OneOf,
}
use bc_seek.Strings.{strings_length}
use bc_seek.Tests.Samples.{
  sample_core as core, sample_core-IsLawful as lawful, sample_os as os, regular,
}

abbrev options : CliOptions
options = record {
  threads_mode = auto;
  explicit_worker_count = 0;
  has_name_glob = true;
  name_glob = some (codes "*.c");
  name_case_insensitive = false;
  has_path_glob = false;
  path_glob = none;
  has_type_filter = true;
  type_filter = file;
  has_size_filter = true;
  size_op = greater;
  size_threshold_bytes = 3072;
  has_mtime_filter = true;
  mtime_op = equal;
  mtime_threshold_seconds_ago = pos 172800;
  has_newer_reference = false;
  newer_reference_mtime = pos 0;
  has_perm_filter = true;
  perm_mask = 0o644;
  has_max_depth = true;
  max_depth = 3;
  min_depth = 1;
  include_hidden = false;
  respect_ignore_defaults = true;
  follow_symlinks = false;
  one_file_system = false;
  null_terminated = false;
  output_mode = stdout_mode;
  output_path = none;
  positional_argument_count = pos 0;
  positional_argument_values = [];
}

-- The clock shows two days after the files' modification.
abbrev predicate : Predicate
predicate = record {
  has_name_glob = true;
  name_glob = some (codes "*.c");
  name_case_insensitive = false;
  has_path_glob = false;
  path_glob = none;
  has_type_filter = true;
  type_filter = file;
  has_size_filter = true;
  size_op = greater;
  size_threshold_bytes = 3072;
  has_mtime_filter = true;
  mtime_op = equal;
  mtime_threshold_seconds_ago = pos 172800;
  has_newer_reference = false;
  newer_reference_mtime = pos 0;
  has_perm_filter = true;
  perm_mask = 0o644;
  has_max_depth = true;
  max_depth = 3;
  min_depth = 1;
  include_hidden = false;
  respect_ignore_defaults = true;
  follow_symlinks = false;
  require_stat = true;
  evaluation_reference_time = pos 173800;
}

from_options : predicate_from_options (pos 173800) options ≡ predicate
unfolding predicate_from_options
from_options = refl

-- An entry of unknown type, before and after its stat.
abbrev unknown : Candidate
unknown = record {
  path = codes "top/a.c";
  path_length = 7;
  basename = codes "a.c";
  basename_length = 3;
  depth = 1;
  entry_type = any;
  type_resolved = false;
  size_bytes = 0;
  modification_time = pos 0;
  permission_mask = 0;
  stat_populated = false;
  follow_symlinks_enabled = false;
  parent_directory_fd = open_fd 3;
}

abbrev known : Candidate
known = record unknown {
  entry_type = file;
  type_resolved = true;
  size_bytes = 5000;
  modification_time = pos 1000;
  permission_mask = 0o644;
  stat_populated = true;
}

accepted : evaluate os predicate unknown ≡ (accept, known)
unfolding evaluate evaluate_type evaluate_names evaluate_required evaluate_stat check_depth
    check_type check_name check_path glob_matches populate_stat check_size check_mtime check_newer
    check_perm ◌-ℤ◌
accepted = refl

pruned : ignored_directory_name core (codes "node_modules") 12 ≡ true
unfolding ignored_directory_name strings_length
pruned = refl

evaluate-Selected_example :
    ((evaluate os predicate known).0 ≡ accept → Selected os predicate known)
    × (Selected os predicate known → evaluate os predicate known ≡ (accept, known))
evaluate-Selected_example = evaluate-Selected os predicate known refl refl

evaluate-decided_example :
    ((evaluate os (predicate_from_options (pos 173800) options) unknown).0 ≡ accept)
    ⊎ ((evaluate os (predicate_from_options (pos 173800) options) unknown).0 ≡ reject)
evaluate-decided_example = evaluate-decided os (pos 173800) options unknown

evaluate-with_stat_example :
    (evaluate os predicate unknown).0 ≡ (evaluate os predicate (with_stat unknown (regular 5000))).0
evaluate-with_stat_example =
    evaluate-with_stat os predicate refl unknown (regular 5000) refl refl (λ h. refl)

abbrev no_stat : DirFd → Bytes → Bool → StatResult
no_stat fd name nofollow = stat_error 5

evaluate-quiet_example :
    evaluate (record os { fstatat = no_stat }) predicate known ≡ evaluate os predicate known
evaluate-quiet_example = evaluate-quiet os predicate known no_stat refl (inr refl)

check_mtime-AgeRule_example :
    (check_mtime predicate known ≡ accept) ↔ AgeRule predicate.mtime_op 2 172800
unfolding ◌-ℤ◌
check_mtime-AgeRule_example = check_mtime-AgeRule predicate known 2 172800 refl refl refl refl

ignored_directory_name-OneOf_example :
    (ignored_directory_name core (codes ".git") 4 ≡ true)
    ↔ OneOf ignored_directory_names (take 4 (codes ".git"))
ignored_directory_name-OneOf_example =
    ignored_directory_name-OneOf core lawful (codes ".git") 4 (omega arith)
