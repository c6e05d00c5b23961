-- ===== src/Tests/App.antt =====
-- `bc-seek --threads mono find top --size +3k --mtime -2 --perm 644` over `sample_os`.
use bc_seek.Base.{
  ◌==◌, ◌≡◌, ◌⊎◌, ◌<◌, refl, Bool, true, false, none, some, length, List, [], ◌∷◌, ◌++◌, Bytes,
  codes, ◌-ℤ◌, pos, negsuc, ok, arith,
}
use bc_seek.Types.{CliOptions, mono, explicit}
use bc_seek.Cli.Bind.{
  ConfigStore, bind_global_threads, lookup_string, lookup_integer, lookup_boolean, bind_output,
  bind_name, bind_path, bind_type, bind_size, bind_mtime, bind_newer, bind_perm, bind_max_depth,
  bind_min_depth,
}
use bc_seek.Cli.Options.{bind_options, bind_output_option}
use bc_seek.Cli.Parsers.Unsigned.{parse_unsigned}
use bc_seek.Cli.Parsers.Sign.{split_sign}
use bc_seek.Cli.Parsers.Size.{
  parse_size_filter, parse_size_cursor, parse_size_digits, scale_size, size_suffix,
}
use bc_seek.Cli.Parsers.Mtime.{parse_mtime_filter, parse_mtime_cursor}
use bc_seek.Cli.Parsers.Perm.{parse_perm_filter, parse_perm_loop, push_octal}
use bc_seek.Cli.Parsers.Threads.{parse_threads}
use bc_seek.Strings.{strings_equal, strings_length}
use bc_seek.Output.{output_open_stdout, output_close, output_emit}
use bc_seek.Parallel.{Writev, wrote, all_bytes}
use bc_seek.Parallel.Roots.{Schedule, Walked}
use bc_seek.App.{
  Runtime, ApplicationState, initial_state, application_init, open_output, application_run,
  application_cleanup, walk_by_mode, root_paths, zero_output,
}
use bc_seek.App.Program.{
  WorkerConfig, Platform, Exit, created, destroyed, cli_memory_context, cli_store, runtime,
  parsed_ok, configure_workers, main,
}
use bc_seek.App.Usage.{IsUsageError, main-IsUsageError}
use bc_seek.App.Status.{status_of, application_run-status}
use bc_seek.App.Ready.{config_of, separator_of}
use bc_seek.Walk.Cuts.{Interrupts}
use bc_seek.App.Prints.{main-begins, main-matches_of_walk}
use bc_seek.App.Workers.{Fits, configure_workers-Fits}
use bc_seek.Walk.Spec.{matches_of_walk}
use bc_seek.Output.Records.{print_all}
use bc_seek.Walk.{WalkState}
use bc_seek.App.Ways.{main-ran}
use bc_seek.App.Released.{held_after, main-Released}
use bc_seek.Filter.{
  predicate_from_options, check_depth, check_type, check_name, check_path, check_size, check_mtime,
  check_newer, check_perm, populate_stat, type_of_stat,
}
use bc_seek.Filter.Evaluate.{
  evaluate, evaluate_type, evaluate_names, evaluate_required, evaluate_stat,
}
use bc_seek.Filter.Ignored.{ignored_directory_name}
use bc_seek.Walk.{
  should_stop, joined, append_path, is_hidden_name, entry_candidate, emit_if_match, is_directory,
  should_descend, open_subdir,
}
use bc_seek.Walk.Iterate.{process_directory}
use bc_seek.Walk.Roots.{walk_sequential, root_candidate}
use bc_seek.Tests.Workers.{two_workers}
use bc_seek.Tests.Runtime.{sample_runtime, run_in_order, run_in_order-RunsInOrder}
use bc_seek.Tests.Samples.{
  sample_arrays, sample_names, sample_writer-IsReliable, sample_writer-IsLawful,
  sample_core as core, sample_core-IsLawful as lawful, sample_os as os, sample_writer as writer,
  store_of, no_reference, bound,
}

abbrev command : ConfigStore
command = store_of (
    ("global.threads", codes "mono")
    ∷ ("find.size", codes "+3k")
    ∷ ("find.mtime", codes "-2")
    ∷ ("find.perm", codes "644")
    ∷ ("find.output", codes "-")
    ∷ [])

abbrev options : CliOptions
options = record bound {
  threads_mode = mono;
  explicit_worker_count = 0;
  positional_argument_values = codes "top" ∷ [];
}

options_run : bind_options core no_reference command (codes "top" ∷ []) ≡ ok options
unfolding bind_options bind_output_option bind_global_threads lookup_string lookup_integer
    lookup_boolean bind_output bind_name bind_path bind_type bind_size bind_mtime bind_newer
    bind_perm bind_max_depth bind_min_depth parse_threads strings_equal strings_length
    parse_size_filter parse_size_cursor parse_size_digits scale_size size_suffix split_sign
    parse_unsigned parse_mtime_filter parse_mtime_cursor parse_perm_filter parse_perm_loop
    push_octal
options_run = refl

abbrev platform : Platform
platform = record {
  memory_create = true;
  store_create = true;
  parsed = parsed_ok command (codes "top" ∷ []);
  stat_mtime = no_reference;
  logical_processor_count = 4;
  physical_core_count = 2;
  stderr_ready = true;
  runtime_create = λ config. some sample_runtime;
}

abbrev no_schedule : Schedule
no_schedule n root_path length = []

abbrev whole_write : Writev
whole_write call iov = wrote (length (all_bytes iov))

abbrev one_thread : WorkerConfig
one_thread = record { worker_count_explicit = true; worker_count = 0; allow_oversubscribe = false }

config_run : configure_workers options 4 2 ≡ some one_thread
unfolding configure_workers
config_run = refl

set_up_run : (application_init writer sample_runtime (initial_state writer options)).0 ≡ true
unfolding application_init open_output output_open_stdout
set_up_run = refl

-- The state that the command leaves: the two files of the directory are printed.
abbrev last_state : ApplicationState writer
last_state = record {
  cli_options = options;
  predicate = predicate_from_options (pos 1000) options;
  output = record {
    writer = codes "top/a.c\ntop/sub/b.c\n";
    fd = negsuc 0;
    owns_fd = false;
    separator = 10;
    emitted_count = 2;
  };
  output_opened = false;
  errors = none;
  exit_code = 0;
  effects = record { stderr_text = []; reports = [] ∷ []; closed = []; direct_text = [] };
}

abbrev last_exit : Exit writer
last_exit = record {
  status = 0;
  steps =
      created cli_memory_context
      ∷ created cli_store
      ∷ created runtime
      ∷ destroyed runtime
      ∷ destroyed cli_store
      ∷ destroyed cli_memory_context
      ∷ [];
  message = [];
  final_state = some last_state;
}

callbacks_run :
    run_in_order
      (application_init writer sample_runtime)
      (application_run core os sample_arrays no_schedule writer whole_write 1024 10 sample_runtime)
      (application_cleanup writer sample_runtime)
      (initial_state writer options)
    ≡ some last_state
unfolding application_init open_output output_open_stdout application_run application_cleanup
    output_close walk_sequential process_directory should_stop append_path joined is_hidden_name
    entry_candidate emit_if_match is_directory should_descend open_subdir root_candidate
    type_of_stat evaluate evaluate_type evaluate_names evaluate_required evaluate_stat check_depth
    check_type check_name check_path check_size check_mtime check_newer check_perm populate_stat
    ignored_directory_name strings_length output_emit walk_by_mode predicate_from_options ◌-ℤ◌
callbacks_run = refl

main_run :
    main core os sample_arrays no_schedule writer whole_write 1024 10 run_in_order platform
    ≡ some last_exit
main_run =
    main-ran core os sample_arrays no_schedule writer whole_write 1024 10 run_in_order platform
      command (codes "top" ∷ []) options one_thread sample_runtime last_state refl refl refl
      options_run config_run refl callbacks_run

main-Released_example : held_after last_exit.steps [] ≡ some []
main-Released_example =
    main-Released core os sample_arrays no_schedule writer whole_write 1024 10 run_in_order platform
      last_exit main_run

abbrev found : List Bytes
found = matches_of_walk core os writer (config_of sample_runtime options) (root_paths options)

main-matches_of_walk_example :
    (e : Exit writer) × (t : ApplicationState writer) × (walk_ok : Bool) × (ended : WalkState
      writer)
    × (main core os sample_arrays no_schedule writer whole_write 1024 10 run_in_order platform
        ≡ some e)
    × (e.final_state ≡ some (application_cleanup writer sample_runtime t))
    × (t.output.writer ≡ print_all (separator_of options) found)
    × (walk_sequential core os writer
          (config_of sample_runtime options)
          (root_paths options)
          (application_init writer sample_runtime (initial_state writer options)).1.output
        ≡ some (walk_ok, ended))
    × (t.output ≡ ended.output)
    × (t.effects.reports ≡ ended.errors ∷ [])
    × (e.status ≡ status_of false walk_ok ended.errors)
main-matches_of_walk_example =
    main-matches_of_walk core os sample_arrays no_schedule writer whole_write 1024 10
      sample_writer-IsLawful sample_writer-IsReliable lawful sample_names run_in_order
      run_in_order-RunsInOrder platform command (codes "top" ∷ []) options one_thread sample_runtime
      two_workers refl refl refl options_run config_run refl set_up_run refl refl
      (λ signal given n. absurd (ground (arith, given)))

-- The same command, stopped by a signal that the fourth poll sees.
abbrev interrupted_runtime : Runtime
interrupted_runtime = record sample_runtime {
  signal_handler = some (λ n. n == 3);
  interrupted = true;
}

abbrev interrupted_platform : Platform
interrupted_platform = record platform { runtime_create = λ config. some interrupted_runtime }

interrupted_set_up :
    (application_init writer interrupted_runtime (initial_state writer options)).0 ≡ true
unfolding application_init open_output output_open_stdout
interrupted_set_up = refl

main-begins_example :
    (e : Exit writer) × (t : ApplicationState writer) × (walk_ok : Bool) × (ended : WalkState
      writer)
    × (first : List Bytes) × (left : List Bytes) × (main core os sample_arrays no_schedule writer
          whole_write 1024 10 run_in_order interrupted_platform
        ≡ some e)
    × (e.final_state ≡ some (application_cleanup writer interrupted_runtime t))
    × (first ++ left
        ≡ matches_of_walk core os writer
            (config_of interrupted_runtime options)
            (root_paths options))
    × (t.output.writer ≡ print_all (separator_of options) first)
    × ((left ≡ [])
        ⊎ ((ended.stop_requested ≡ true) × Interrupts (config_of interrupted_runtime options)))
    × (walk_sequential core os writer
          (config_of interrupted_runtime options)
          (root_paths options)
          (application_init writer interrupted_runtime (initial_state writer options)).1.output
        ≡ some (walk_ok, ended))
    × (t.output ≡ ended.output)
    × (t.effects.reports ≡ ended.errors ∷ [])
    × (e.status ≡ 130)
main-begins_example =
    main-begins core os sample_arrays no_schedule writer whole_write 1024 10 sample_writer-IsLawful
      sample_writer-IsReliable lawful sample_names run_in_order run_in_order-RunsInOrder
      interrupted_platform command (codes "top" ∷ []) options one_thread interrupted_runtime
      two_workers refl refl refl options_run config_run refl interrupted_set_up refl refl

main-IsUsageError_example :
    ((e : Exit writer)
      → main core os sample_arrays no_schedule writer whole_write 1024 10 run_in_order platform
        ≡ some e
      → e.status ≡ 2
      → IsUsageError core os sample_arrays no_schedule writer whole_write 1024 10 run_in_order
          run_in_order-RunsInOrder platform platform.parsed)
    × (IsUsageError core os sample_arrays no_schedule writer whole_write 1024 10 run_in_order
          run_in_order-RunsInOrder platform platform.parsed
        → (e : Exit writer) × (main core os sample_arrays no_schedule writer whole_write 1024 10
              run_in_order platform
            ≡ some e)
          × (e.status ≡ 2)
          × (e.final_state ≡ none))
main-IsUsageError_example =
    main-IsUsageError core os sample_arrays no_schedule writer whole_write 1024 10 run_in_order
      run_in_order-RunsInOrder platform refl refl

configure_workers-Fits_example :
    ((configure_workers options 4 2 ≡ none)
      × (options.threads_mode ≡ explicit)
      × (4 < options.explicit_worker_count))
    ⊎ ((c : WorkerConfig) × (configure_workers options 4 2 ≡ some c) × Fits options 4 2 c)
configure_workers-Fits_example =
    configure_workers-Fits core no_reference command (codes "top" ∷ []) options 4 2 options_run
      (ground arith) (ground arith)

-- A run over `top` and a root that does not exist.
abbrev two_roots : ApplicationState writer
two_roots = initial_state writer (record options {
  positional_argument_count = pos 2;
  positional_argument_values = codes "a.c" ∷ codes "gone" ∷ [];
})

abbrev one_missing : Walked writer
one_missing = record {
  walk_ok = false;
  output = record (zero_output writer) { writer = codes "a.c" ++ 0 ∷ []; emitted_count = 1 };
  errors = record { error_path = codes "gone"; error_number = some 2 } ∷ [];
  direct_text = [];
}

missing_run :
    walk_by_mode core os sample_arrays no_schedule writer whole_write 1024 10 sample_runtime
      two_workers two_roots
    ≡ some one_missing
unfolding walk_by_mode walk_sequential process_directory should_stop append_path joined
    is_hidden_name entry_candidate emit_if_match is_directory should_descend open_subdir
    root_candidate type_of_stat evaluate evaluate_type evaluate_names evaluate_required
    evaluate_stat check_depth check_type check_name check_path check_size check_mtime check_newer
    check_perm populate_stat ignored_directory_name strings_length output_emit
missing_run = refl

application_run-status_example :
    (succeeds : Bool) × (t : ApplicationState writer) × (application_run core os sample_arrays
        no_schedule writer whole_write 1024 10 sample_runtime two_roots
      ≡ some (succeeds, t))
    × (t.exit_code ≡ 1)
    × (t.effects.reports ≡ one_missing.errors ∷ [])
    × (t.output ≡ one_missing.output)
    × (t.effects.direct_text ≡ [])
    × (succeeds ≡ true)
application_run-status_example =
    application_run-status core os sample_arrays no_schedule writer whole_write 1024 10
      sample_runtime two_roots two_workers one_missing refl refl missing_run
