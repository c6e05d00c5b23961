-- ===== src/Cli/Bound.antt =====
-- What a successful `bind_options` says of the options, step by step.
use bc_seek.Base.{◌≡◌, false, not, List, Bytes, Option, ℤ, ok, arith}
use bc_seek.Types.{CliOptions}
use bc_seek.CoreLib.{BcCore}
use bc_seek.Cli.Bind.{
  ConfigStore, flag_or, bind_global_threads, lookup_string, lookup_integer, lookup_boolean,
  bind_name, bind_path, bind_type, bind_size, bind_mtime, bind_newer, bind_perm, bind_max_depth,
  bind_min_depth,
}
use bc_seek.Cli.Options.{bind_output_option, bind_options}

module _ (C : BcCore) (stat_mtime : Bytes → Option ℤ) (store : ConfigStore)
    (values : List Bytes) where
  -- Every step succeeded, with these values.
  pub record Bound (o : CliOptions) : Type 0 where
    pub threads : bind_global_threads C store ≡ ok (o.threads_mode, o.explicit_worker_count)
    pub name :
        bind_name (lookup_string C store "find.name") (lookup_string C store "find.iname")
        ≡ ok (o.has_name_glob, o.name_glob, o.name_case_insensitive)
    pub path : bind_path (lookup_string C store "find.path") ≡ (o.has_path_glob, o.path_glob)
    pub type :
        bind_type C (lookup_string C store "find.type") ≡ ok (o.has_type_filter, o.type_filter)
    pub size :
        bind_size C (lookup_string C store "find.size")
        ≡ ok (o.has_size_filter, o.size_op, o.size_threshold_bytes)
    pub mtime :
        bind_mtime C (lookup_string C store "find.mtime")
        ≡ ok (o.has_mtime_filter, o.mtime_op, o.mtime_threshold_seconds_ago)
    pub newer :
        bind_newer stat_mtime (lookup_string C store "find.newer")
        ≡ ok (o.has_newer_reference, o.newer_reference_mtime)
    pub perm : bind_perm C (lookup_string C store "find.perm") ≡ ok (o.has_perm_filter, o.perm_mask)
    pub max :
        bind_max_depth (lookup_integer C store "find.max-depth") ≡ ok (o.has_max_depth, o.max_depth)
    pub min :
        bind_min_depth (o.has_max_depth, o.max_depth) (lookup_integer C store "find.min-depth")
        ≡ ok o.min_depth
    pub output : bind_output_option C stat_mtime store ≡ ok (o.output_mode, o.output_path)
    pub hidden : o.include_hidden ≡ flag_or (store.get_boolean "find.hidden") false
    pub ignore :
        o.respect_ignore_defaults ≡ not (flag_or (store.get_boolean "find.no-ignore") false)
    pub follow : o.follow_symlinks ≡ flag_or (store.get_boolean "find.follow-symlinks") false
    pub one_fs : o.one_file_system ≡ flag_or (store.get_boolean "find.one-file-system") false
    pub null : o.null_terminated ≡ flag_or (store.get_boolean "find.null") false
    pub positional : o.positional_argument_values ≡ values

  pub bind_options-Bound :
      (o : CliOptions) → bind_options C stat_mtime store values ≡ ok o → Bound o
  unfolding bind_options lookup_boolean
  bind_options-Bound o h = ground arith
