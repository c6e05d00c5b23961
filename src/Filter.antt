-- ===== src/Filter.antt =====
-- include/internal/bc_seek_filter_internal.h and src/filter/bc_seek_filter.c: the predicate, the
-- candidate and the checks of one candidate.
pub mod Evaluate
pub mod Ignored
pub mod Selected
pub mod Lazy
pub mod Transparent
pub mod Age
use bc_seek.Base.{
  ℕ, Bool, true, false, not, ◌&&◌, ◌||◌, Option, none, some, Bytes, ltb, ◌==◌, if◌then◌else◌,
  bit_and, ℤ, pos, negsuc, ◌-ℤ◌, ltb_ℤ, eqb_ℤ,
}
use bc_seek.Types.{
  EntryType, any, file, directory, symlink, entry_type_equal, CompareOp, equal, greater, less,
  CliOptions,
}
use bc_seek.Os.{Os, DirFd, Stat, StatResult, stat_ok, stat_error}

pub record Predicate : Type 0 where
  pub has_name_glob : Bool
  pub name_glob : Option Bytes
  pub name_case_insensitive : Bool
  pub has_path_glob : Bool
  pub path_glob : Option Bytes
  pub has_type_filter : Bool
  pub type_filter : EntryType
  pub has_size_filter : Bool
  pub size_op : CompareOp
  pub size_threshold_bytes : ℕ
  pub has_mtime_filter : Bool
  pub mtime_op : CompareOp
  pub mtime_threshold_seconds_ago : ℤ
  pub has_newer_reference : Bool
  pub newer_reference_mtime : ℤ
  pub has_perm_filter : Bool
  pub perm_mask : ℕ
  pub has_max_depth : Bool
  pub max_depth : ℕ
  pub min_depth : ℕ
  pub include_hidden : Bool
  pub respect_ignore_defaults : Bool
  pub follow_symlinks : Bool
  pub require_stat : Bool
  pub evaluation_reference_time : ℤ

-- `path` and `basename` are the C strings that the pointers show, up to the NUL.
pub record Candidate : Type 0 where
  pub path : Bytes
  pub path_length : ℕ
  pub basename : Bytes
  pub basename_length : ℕ
  pub depth : ℕ
  pub entry_type : EntryType
  pub type_resolved : Bool
  pub size_bytes : ℕ
  pub modification_time : ℤ
  pub permission_mask : ℕ
  pub stat_populated : Bool
  pub follow_symlinks_enabled : Bool
  pub parent_directory_fd : DirFd

pub data Decision : Type 0 where
  reject accept stat_required : Decision

-- `now` is what `time(NULL)` returns.
unfoldable pub predicate_from_options : ℤ → CliOptions → Predicate
predicate_from_options now o = record {
  has_name_glob = o.has_name_glob;
  name_glob = o.name_glob;
  name_case_insensitive = o.name_case_insensitive;
  has_path_glob = o.has_path_glob;
  path_glob = o.path_glob;
  has_type_filter = o.has_type_filter;
  type_filter = o.type_filter;
  has_size_filter = o.has_size_filter;
  size_op = o.size_op;
  size_threshold_bytes = o.size_threshold_bytes;
  has_mtime_filter = o.has_mtime_filter;
  mtime_op = o.mtime_op;
  mtime_threshold_seconds_ago = o.mtime_threshold_seconds_ago;
  has_newer_reference = o.has_newer_reference;
  newer_reference_mtime = o.newer_reference_mtime;
  has_perm_filter = o.has_perm_filter;
  perm_mask = o.perm_mask;
  has_max_depth = o.has_max_depth;
  max_depth = o.max_depth;
  min_depth = o.min_depth;
  include_hidden = o.include_hidden;
  respect_ignore_defaults = o.respect_ignore_defaults;
  follow_symlinks = o.follow_symlinks;
  require_stat =
      o.has_size_filter || (o.has_mtime_filter || (o.has_newer_reference || o.has_perm_filter));
  evaluation_reference_time = now;
}

abbrev pub verdict : Bool → Decision
verdict test = if test then accept else reject

unfoldable pub filter_compare : ℕ → ℕ → CompareOp → Bool
filter_compare left right greater = ltb right left
filter_compare left right less = ltb left right
filter_compare left right equal = left == right

unfoldable pub filter_compare_signed : ℤ → ℤ → CompareOp → Bool
filter_compare_signed left right greater = ltb_ℤ right left
filter_compare_signed left right less = ltb_ℤ left right
filter_compare_signed left right equal = eqb_ℤ left right

-- The type that the `S_IS…` tests of a mode give.
unfoldable pub type_of_stat : Stat → EntryType
type_of_stat st =
    if st.is_reg then file else if st.is_dir then directory else if st.is_lnk then symlink else any

-- `st_size >= 0 ? (uint64_t)st_size : 0`
abbrev pub size_of_stat : Stat → ℕ
size_of_stat st = elim (st.st_size) [ pos n ↦ n | negsuc n ↦ 0 ]

-- The fields that a successful stat fills.
unfoldable pub with_stat : Candidate → Stat → Candidate
unfolding type_of_stat
with_stat c st = record c {
  entry_type =
      if not c.type_resolved || c.follow_symlinks_enabled then type_of_stat st else c.entry_type;
  type_resolved =
      if not c.type_resolved || c.follow_symlinks_enabled then true else c.type_resolved;
  size_bytes = size_of_stat st;
  modification_time = st.st_mtime;
  permission_mask = bit_and st.st_mode 0o7777;
  stat_populated = true;
}

module _ (os : Os) where
  unfoldable pub glob_matches : Option Bytes → Bytes → Bool → Bool
  glob_matches pattern value case_insensitive =
      eqb_ℤ (os.fnmatch pattern value case_insensitive) (pos 0)

  -- `none` is a `false` return, which leaves the candidate as it is.
  unfoldable pub populate_stat : Candidate → Option Candidate
  unfolding with_stat
  populate_stat c =
      elim (os.fstatat c.parent_directory_fd c.basename (not c.follow_symlinks_enabled)) [
        | stat_error e ↦ none
        | stat_ok st ↦ some (with_stat c st)
      ]

unfoldable pub check_depth : Predicate → Candidate → Decision
check_depth p c =
    if ltb c.depth p.min_depth
    then reject
    else if p.has_max_depth && ltb p.max_depth c.depth
    then reject
    else accept

unfoldable pub check_type : Predicate → Candidate → Decision
check_type p c =
    if not p.has_type_filter
    then accept
    else if not c.type_resolved
    then stat_required
    else verdict (entry_type_equal c.entry_type p.type_filter)

unfoldable pub check_name : Os → Predicate → Candidate → Decision
check_name os p c =
    if not p.has_name_glob
    then accept
    else verdict (glob_matches os p.name_glob c.basename p.name_case_insensitive)

unfoldable pub check_path : Os → Predicate → Candidate → Decision
check_path os p c =
    if not p.has_path_glob then accept else verdict (glob_matches os p.path_glob c.path false)

unfoldable pub check_size : Predicate → Candidate → Decision
unfolding filter_compare
check_size p c =
    if not p.has_size_filter
    then accept
    else if not c.stat_populated
    then stat_required
    else verdict (filter_compare c.size_bytes p.size_threshold_bytes p.size_op)

unfoldable pub check_mtime : Predicate → Candidate → Decision
unfolding filter_compare_signed
check_mtime p c =
    if not p.has_mtime_filter
    then accept
    else if not c.stat_populated
    then stat_required
    else let seconds_ago = p.evaluation_reference_time -ℤ c.modification_time in
      verdict (filter_compare_signed seconds_ago p.mtime_threshold_seconds_ago p.mtime_op)

unfoldable pub check_newer : Predicate → Candidate → Decision
check_newer p c =
    if not p.has_newer_reference
    then accept
    else if not c.stat_populated
    then stat_required
    else verdict (ltb_ℤ p.newer_reference_mtime c.modification_time)

unfoldable pub check_perm : Predicate → Candidate → Decision
check_perm p c =
    if not p.has_perm_filter
    then accept
    else if not c.stat_populated
    then stat_required
    else verdict (bit_and c.permission_mask 0o7777 == bit_and p.perm_mask 0o7777)
