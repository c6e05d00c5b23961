-- ===== src/Tests/Samples.antt =====
-- Concrete instances of the parameters.
use text.Mathlib.Text.{◌==◌ as str_eq}
use bc_seek.Base.{
  ℕ, ◌+◌, refl, arith, true, false, Option, none, some, List, [], ◌∷◌, ◌++◌, Bytes, String, codes,
  length, take, bytes_equal, ◌==◌, if◌then◌else◌, ℤ, pos, ◌||◌, ap, sym,
}
use bc_seek.Types.{CliOptions, explicit, any, greater, less, stdout_mode}
use bc_seek.CoreLib.{BcCore, IsLawful}
use bc_seek.Cli.Parsers.Unsigned.{parse_unsigned}
use bc_seek.Cli.Bind.{ConfigStore}
use bc_seek.Os.{
  Os, Stat, stat_ok, stat_error, opened, open_error, DirentType, dt_reg, dt_dir, dt_other, DirEntry,
  DirStream, end_of_stream,
}
use bc_seek.Output.{Writer, Output}
use bc_seek.Output
use bc_seek.Parallel.Visit
use bc_seek.Parallel.Visit.{Arrays}
use bc_seek.Walk.Terminates.{NamesEntries}
use bc_seek.Walk.Adds

-- The offset of the last `byte`, counted from `i`; `found` is the last one so far.
abbrev pub last_byte : Bytes → ℕ → ℕ → Option ℕ → Option ℕ
last_byte [] byte i found = found
last_byte (c ∷ s) byte i found = last_byte s byte (i + 1) (if c == byte then some i else found)

abbrev pub sample_core : BcCore
sample_core = record {
  core_length = λ s. some (length s);
  core_equal = λ a b n. some (bytes_equal (take n a) (take n b));
  core_find_last_byte = λ s n byte. last_byte (take n s) byte 0 none;
  core_parse_decimal =
      λ s n. elim (parse_unsigned s n) [ none ↦ none | some value ↦ some (value, n) ];
}

pub sample_core-IsLawful : IsLawful sample_core
sample_core-IsLawful = record { length_law = λ s. refl; equal_law = λ a b n h k. refl }

-- A store whose strings are listed; the integers and flags are absent.
abbrev pub find_key : List (String × Bytes) → String → Option (Option Bytes)
find_key [] key = none
find_key ((name, value) ∷ rest) key =
    if str_eq name key then some (some value) else find_key rest key

abbrev pub store_of : List (String × Bytes) → ConfigStore
store_of rows = record {
  get_string = find_key rows;
  get_integer = λ key. none;
  get_boolean = λ key. none;
}

-- `bc-seek find --size +3k --mtime -2 --perm 644`
abbrev pub sample_store : ConfigStore
sample_store = store_of (
    ("global.threads", codes "4")
    ∷ ("find.size", codes "+3k")
    ∷ ("find.mtime", codes "-2")
    ∷ ("find.perm", codes "644")
    ∷ ("find.output", codes "-")
    ∷ [])

abbrev pub no_reference : Bytes → Option ℤ
no_reference path = none

-- The options of `sample_store`.
abbrev pub bound : CliOptions
bound = record {
  threads_mode = explicit;
  explicit_worker_count = 4;
  has_name_glob = false;
  name_glob = none;
  name_case_insensitive = false;
  has_path_glob = false;
  path_glob = none;
  has_type_filter = false;
  type_filter = any;
  has_size_filter = true;
  size_op = greater;
  size_threshold_bytes = 3072;
  has_mtime_filter = true;
  mtime_op = less;
  mtime_threshold_seconds_ago = pos 172800;
  has_newer_reference = false;
  newer_reference_mtime = pos 0;
  has_perm_filter = true;
  perm_mask = 0o644;
  has_max_depth = false;
  max_depth = 0;
  min_depth = 0;
  include_hidden = false;
  respect_ignore_defaults = true;
  follow_symlinks = false;
  one_file_system = false;
  null_terminated = false;
  output_mode = stdout_mode;
  output_path = none;
  positional_argument_count = pos 1;
  positional_argument_values = codes "src" ∷ [];
}

abbrev pub regular : ℕ → Stat
regular size = record {
  is_reg = true;
  is_dir = false;
  is_lnk = false;
  st_mode = 0o100644;
  st_size = pos size;
  st_mtime = pos 1000;
  st_dev = 1;
}

abbrev pub folder : Stat
folder = record (regular 0) { is_reg = false; is_dir = true; st_mode = 0o40755 }

-- The directory `top` (descriptor 3) holds the file `a.c`, the hidden `.x` and the directory `sub`
-- (descriptor 4), which holds `b.c`.
abbrev pub entry : String → DirentType → DirEntry
entry name type = record { entry_name = codes name; d_type = type }

abbrev pub sample_streams : ℕ → Option DirStream
sample_streams fd =
    if fd == 3
    then some (record {
      entries = entry "a.c" dt_reg ∷ entry ".x" dt_reg ∷ entry "sub" dt_dir ∷ [];
      ending = end_of_stream;
    })
    else if fd == 4
    then some (record { entries = entry "b.c" dt_other ∷ []; ending = end_of_stream })
    else none

abbrev pub sample_os : Os
sample_os = record {
  fstatat = λ fd name nofollow.
      if bytes_equal name (codes "top") || bytes_equal name (codes "sub")
      then stat_ok folder
      else if bytes_equal name (codes "a.c") || bytes_equal name (codes "b.c")
      then stat_ok (regular 5000)
      else stat_error 2;
  fstat = λ fd. stat_ok folder;
  openat = λ fd name nofollow.
      if bytes_equal name (codes "top")
      then opened 3
      else if bytes_equal name (codes "sub")
      then opened 4
      else open_error 2;
  read_dir = sample_streams;
  fnmatch = λ pattern value fold. pos 0;
}

-- A writer that keeps what it was given.
abbrev pub sample_writer : Writer
sample_writer = record {
  State = Bytes;
  zeroed = [];
  init = λ w fd. (true, []);
  write_bytes = λ w s. (true, w ++ s);
  write_char = λ w c. (true, w ++ c ∷ []);
  flush = λ w. (true, w);
  destroy = λ w. w;
}

abbrev pub sample_writer-IsLawful : Output.IsLawful sample_writer
sample_writer-IsLawful = record {
  written = λ w. w;
  write_bytes_law = λ w w' s h. sym (ap (λ p. p.1) h);
  write_char_law = λ w w' c h. sym (ap (λ p. p.1) h);
  init_law = λ w w' fd h. sym (ap (λ p. p.1) h);
}

abbrev pub sample_output : Output sample_writer
sample_output = record {
  writer = [];
  fd = pos 1;
  owns_fd = false;
  separator = 10;
  emitted_count = 0;
}

abbrev pub sample_arrays : Arrays
sample_arrays = record {
  append_bulk = λ n buffer s. some (buffer ++ s);
  push = λ n buffer c. some (buffer ++ c ∷ []);
  reserve = λ n buffer capacity. some buffer;
}

pub sample_arrays-IsReliable : Visit.IsReliable sample_arrays
sample_arrays-IsReliable = record {
  append_bulk_law = λ n buffer s. refl;
  push_law = λ n buffer c. refl;
  reserve_law = λ n buffer capacity. refl;
}

-- The directory streams of `sample_os` name their entries, and `sample_writer` never refuses.
pub sample_names : NamesEntries sample_os
sample_names fd stream h = ground arith

pub sample_writer-IsReliable : Adds.IsReliable sample_writer
sample_writer-IsReliable = record { bytes_law = λ w s. refl; char_law = λ w c. refl }
