-- ===== src/Tests/Concurrent.antt =====
-- `bc-seek --threads 4 find top --size +3k --mtime -2 --perm 644` with two workers.
use mathlib.Core.List.{Perm}
use mathlib.Core.Path.{subst}
use bc_seek.Base.{
  ◌+◌, ◌≤◌, ◌≡◌, sym, refl, Bool, true, false, ◌&&◌, some, List, [], ◌∷◌, ◌++◌, Bytes, codes,
  length, ◌-ℤ◌, ok, arith,
}
use bc_seek.Types.{CliOptions}
use bc_seek.Cli.Bind.{
  bind_global_threads, lookup_string, lookup_integer, lookup_boolean, bind_output, bind_name,
  bind_path, bind_type, bind_size, bind_mtime, bind_newer, bind_perm, bind_max_depth,
  bind_min_depth,
}
use bc_seek.Cli.Options.{bind_options, bind_output_option}
use bc_seek.Cli.Parsers.Unsigned.{parse_unsigned}
use bc_seek.Cli.Parsers.Sign.{split_sign}
use bc_seek.Cli.Parsers.Size.{
  parse_size_filter, parse_size_cursor, parse_size_digits, scale_size, size_suffix,
}
use bc_seek.Cli.Parsers.Mtime.{parse_mtime_filter, parse_mtime_cursor}
use bc_seek.Cli.Parsers.Perm.{parse_perm_filter, parse_perm_loop, push_octal}
use bc_seek.Cli.Parsers.Threads.{parse_threads}
use bc_seek.Strings.{strings_equal, strings_length}
use bc_seek.Filter.{
  predicate_from_options, check_depth, check_type, check_name, check_path, check_size, check_mtime,
  check_newer, check_perm, populate_stat, type_of_stat,
}
use bc_seek.Filter.Evaluate.{
  evaluate, evaluate_type, evaluate_names, evaluate_required, evaluate_stat,
}
use bc_seek.Output.{output_open_stdout}
use bc_seek.Output.Records.{print_all}
use bc_seek.Parallel.Visit.{visit_candidate, off_device}
use bc_seek.Parallel.Roots.{parallel_root_candidate, strip_slashes}
use bc_seek.Parallel.Found.{Found, found_in_all, all_stated}
use bc_seek.App.{
  ApplicationState, initial_state, application_init, open_output, application_cleanup,
}
use bc_seek.App.Program.{WorkerConfig, Platform, Exit, parsed_ok, configure_workers, main}
use bc_seek.Parallel.Written.{AllOrFailed}
use bc_seek.Parallel.Complete.{merge_of_walk}
use bc_seek.App.Ready.{config_of}
use bc_seek.App.Status.{status_of}
use bc_seek.App.Concurrent.{found_by_command, main-found}
use bc_seek.Tests.Samples.{
  sample_core as core, sample_core-IsLawful as lawful, sample_os as os, sample_writer as writer,
  sample_writer-IsLawful, sample_store, no_reference, bound, sample_arrays,
  sample_arrays-IsReliable,
}
use bc_seek.Tests.Workers.{
  kernel, kernel-IsLawful, quiet_schedule, quiet_schedule-AllServed, two_workers,
}
use bc_seek.Tests.Runtime.{sample_runtime, run_in_order, run_in_order-RunsInOrder}

abbrev options : CliOptions
options = record bound { positional_argument_values = codes "top" ∷ [] }

options_run : bind_options core no_reference sample_store (codes "top" ∷ []) ≡ ok options
unfolding bind_options bind_output_option bind_global_threads lookup_string lookup_integer
    lookup_boolean bind_output bind_name bind_path bind_type bind_size bind_mtime bind_newer
    bind_perm bind_max_depth bind_min_depth parse_threads strings_equal strings_length
    parse_size_filter parse_size_cursor parse_size_digits scale_size size_suffix split_sign
    parse_unsigned parse_mtime_filter parse_mtime_cursor parse_perm_filter parse_perm_loop
    push_octal
options_run = refl

abbrev platform : Platform
platform = record {
  memory_create = true;
  store_create = true;
  parsed = parsed_ok sample_store (codes "top" ∷ []);
  stat_mtime = no_reference;
  logical_processor_count = 4;
  physical_core_count = 2;
  stderr_ready = true;
  runtime_create = λ config. some sample_runtime;
}

-- Three workers beside the main thread, on two cores.
abbrev four_threads : WorkerConfig
four_threads = record { worker_count_explicit = true; worker_count = 3; allow_oversubscribe = true }

config_run : configure_workers options 4 2 ≡ some four_threads
unfolding configure_workers
config_run = refl

set_up_run : (application_init writer sample_runtime (initial_state writer options)).0 ≡ true
unfolding application_init open_output output_open_stdout
set_up_run = refl

abbrev found : Found
found =
    found_by_command core os sample_arrays quiet_schedule writer kernel 1024 40 sample_runtime
      options 2 10

found_run : found ≡ record { matches = codes "top/a.c" ∷ codes "top/sub/b.c" ∷ []; reports = [] }
unfolding found_in_all evaluate evaluate_type evaluate_names evaluate_required evaluate_stat
    check_depth check_type check_name check_path check_size check_mtime check_newer check_perm
    populate_stat type_of_stat parallel_root_candidate visit_candidate strip_slashes off_device
    predicate_from_options ◌-ℤ◌
found_run = refl

main-found_example :
    (e : Exit writer) × (t : ApplicationState writer) × (ps : List Bytes) × (rest : Bytes)
    × (merge_ok : Bool) × (main core os sample_arrays quiet_schedule writer kernel 1024 40
          run_in_order platform
        ≡ some e)
    × (e.final_state ≡ some (application_cleanup writer sample_runtime t))
    × (merge_of_walk core os sample_arrays quiet_schedule writer kernel 1024 40
          (config_of sample_runtime options)
          two_workers
          (codes "top" ∷ [])
          (application_init writer sample_runtime (initial_state writer options)).1.output
        ≡ some (merge_ok, t.effects.direct_text, t.output))
    × Perm ps found.matches
    × (t.effects.direct_text ++ rest ≡ print_all 10 ps)
    × AllOrFailed kernel 1024 merge_ok rest
    × (t.effects.reports ≡ found.reports ∷ [])
    × (e.status
        ≡ status_of false (all_stated os false (codes "top" ∷ []) && merge_ok) found.reports)
main-found_example =
    main-found core lawful os sample_arrays sample_arrays-IsReliable quiet_schedule writer
      sample_writer-IsLawful (λ w. refl) kernel 1 kernel-IsLawful 1024 (ground arith) 40
      run_in_order run_in_order-RunsInOrder platform sample_store (codes "top" ∷ []) options
      four_threads sample_runtime two_workers refl refl refl options_run config_run refl set_up_run
      refl (ground arith) refl quiet_schedule-AllServed refl (ground arith)
      (subst (λ (f : Found). 1 + length (print_all 10 f.matches) ≤ 40) (sym found_run)
        (ground arith))
