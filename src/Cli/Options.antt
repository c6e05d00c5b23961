-- ===== src/Cli/Options.antt =====
-- bc_seek_cli_bind_options of src/cli/bc_seek_cli_spec.c: the steps in the source's order.
use bc_seek.Base.{false, not, Option, none, some, List, Bytes, length, ℤ, Result, ok, ◌>>=◌}
use bc_seek.Types.{CliOptions, OutputMode}
use bc_seek.CoreLib.{BcCore}
use bc_seek.Cli.Bind.{
  ConfigStore, fail, flag_or, int_of_size, bind_global_threads, lookup_string, lookup_integer,
  lookup_boolean, bind_output, bind_name, bind_path, bind_type, bind_size, bind_mtime, bind_newer,
  bind_perm, bind_max_depth, bind_min_depth,
}

module _ (C : BcCore) (stat_mtime : Bytes → Option ℤ) (store : ConfigStore) where
  -- The last lookup, of a key that has a default.
  unfoldable pub bind_output_option : Result (OutputMode × Option Bytes)
  bind_output_option = elim (store.get_string "find.output") [
    | none ↦ fail "bc-seek: internal error: missing find.output\n"
    | some value ↦ bind_output C store value
  ]

  -- `positional_values` are the arguments behind the options.
  unfoldable pub bind_options : List Bytes → Result CliOptions
  bind_options positional_values = do
    (threads_mode, worker_count) ← bind_global_threads C store
    (has_name, name, insensitive) ←
        bind_name (lookup_string C store "find.name") (lookup_string C store "find.iname")
    let (has_path, path) = bind_path (lookup_string C store "find.path")
    (has_type, type) ← bind_type C (lookup_string C store "find.type")
    (has_size, size_op, threshold) ← bind_size C (lookup_string C store "find.size")
    (has_mtime, mtime_op, seconds) ← bind_mtime C (lookup_string C store "find.mtime")
    (has_newer, reference) ← bind_newer stat_mtime (lookup_string C store "find.newer")
    (has_perm, mask) ← bind_perm C (lookup_string C store "find.perm")
    (has_max, max_depth) ← bind_max_depth (lookup_integer C store "find.max-depth")
    min_depth ← bind_min_depth (has_max, max_depth) (lookup_integer C store "find.min-depth")
    (output_mode, output_path) ← bind_output_option
    ok (record {
      threads_mode = threads_mode;
      explicit_worker_count = worker_count;
      has_name_glob = has_name;
      name_glob = name;
      name_case_insensitive = insensitive;
      has_path_glob = has_path;
      path_glob = path;
      has_type_filter = has_type;
      type_filter = type;
      has_size_filter = has_size;
      size_op = size_op;
      size_threshold_bytes = threshold;
      has_mtime_filter = has_mtime;
      mtime_op = mtime_op;
      mtime_threshold_seconds_ago = seconds;
      has_newer_reference = has_newer;
      newer_reference_mtime = reference;
      has_perm_filter = has_perm;
      perm_mask = mask;
      has_max_depth = has_max;
      max_depth = max_depth;
      min_depth = min_depth;
      include_hidden = flag_or (lookup_boolean C store "find.hidden") false;
      respect_ignore_defaults = not (flag_or (lookup_boolean C store "find.no-ignore") false);
      follow_symlinks = flag_or (lookup_boolean C store "find.follow-symlinks") false;
      one_file_system = flag_or (lookup_boolean C store "find.one-file-system") false;
      null_terminated = flag_or (lookup_boolean C store "find.null") false;
      output_mode = output_mode;
      output_path = output_path;
      positional_argument_count = int_of_size (length positional_values);
      positional_argument_values = positional_values;
    })
