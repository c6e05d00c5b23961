-- ===== src/Types.antt =====
-- include/internal/bc_seek_types_internal.h: the enums and the options that the CLI hands on.
-- A C string that may be NULL is an `Option Bytes`. An `int64_t` or `time_t` is a `ℤ`; the
-- unsigned and size types are natural numbers.
use bc_seek.Base.{ℕ, Bool, true, false, Option, List, Bytes, ℤ}

pub data EntryType : Type 0 where
  any file directory symlink : EntryType

pub data CompareOp : Type 0 where
  equal greater less : CompareOp

pub data ThreadsMode : Type 0 where
  auto mono explicit io : ThreadsMode

pub data OutputMode : Type 0 where
  stdout_mode file_mode : OutputMode

abbrev pub entry_type_equal : EntryType → EntryType → Bool
entry_type_equal any any = true
entry_type_equal file file = true
entry_type_equal directory directory = true
entry_type_equal symlink symlink = true
entry_type_equal _ _ = false

pub record CliOptions : Type 0 where
  pub threads_mode : ThreadsMode
  pub explicit_worker_count : ℕ
  pub has_name_glob : Bool
  pub name_glob : Option Bytes
  pub name_case_insensitive : Bool
  pub has_path_glob : Bool
  pub path_glob : Option Bytes
  pub has_type_filter : Bool
  pub type_filter : EntryType
  pub has_size_filter : Bool
  pub size_op : CompareOp
  pub size_threshold_bytes : ℕ
  pub has_mtime_filter : Bool
  pub mtime_op : CompareOp
  pub mtime_threshold_seconds_ago : ℤ
  pub has_newer_reference : Bool
  pub newer_reference_mtime : ℤ
  pub has_perm_filter : Bool
  pub perm_mask : ℕ
  pub has_max_depth : Bool
  pub max_depth : ℕ
  pub min_depth : ℕ
  pub include_hidden : Bool
  pub respect_ignore_defaults : Bool
  pub follow_symlinks : Bool
  pub one_file_system : Bool
  pub null_terminated : Bool
  pub output_mode : OutputMode
  pub output_path : Option Bytes
  pub positional_argument_count : ℤ
  pub positional_argument_values : List Bytes
