-- ===== src/App/Program.antt =====
-- `main` of src/bc_seek_main.c: the resources it creates and destroys, the number of workers, and
-- the exit status.
use bc_seek.Base.{
  ℕ, ◌-◌, Bool, true, false, not, Option, none, some, List, [], ◌∷◌, Bytes, ltb, leb, if◌then◌else◌,
  codes, ℤ, ok, err, fault,
}
use bc_seek.Types.{auto, mono, explicit, io, CliOptions}
use bc_seek.CoreLib.{BcCore}
use bc_seek.Cli.Bind.{ConfigStore}
use bc_seek.Cli.Options.{bind_options}
use bc_seek.Os.{Os}
use bc_seek.Output.{Writer}
use bc_seek.Parallel.{Writev}
use bc_seek.Parallel.Visit.{Arrays}
use bc_seek.Parallel.Roots.{Schedule}
use bc_seek.App.{
  Runtime, ApplicationState, initial_state, emit_stderr_message, application_init, application_run,
  application_cleanup,
}

-- What `main` creates, and what it does with it.
pub data Resource : Type 0 where
  cli_memory_context cli_store runtime : Resource

pub data Step : Type 0 where
  created : Resource → Step
  destroyed : Resource → Step

-- What the command line parser returns; on success the store and the arguments behind the options.
pub data Parsed : Type 0 where
  help_global help_command version parse_error : Parsed
  parsed_ok : ConfigStore → List Bytes → Parsed

-- `bc_concurrency_config_t`, zero at first.
pub record WorkerConfig : Type 0 where
  pub worker_count_explicit : Bool
  pub worker_count : ℕ
  pub allow_oversubscribe : Bool

abbrev pub zero_config : WorkerConfig
zero_config = record {
  worker_count_explicit = false;
  worker_count = 0;
  allow_oversubscribe = false;
}

-- The workers beside the main thread; `none` if more threads are wanted than there are processors.
unfoldable pub configure_workers : CliOptions → ℕ → ℕ → Option WorkerConfig
configure_workers o logical_processor_count physical_core_count = elim (o.threads_mode) [
  | auto ↦ some zero_config
  | mono ↦ some (record zero_config { worker_count_explicit = true; worker_count = 0 })
  | explicit ↦
      if ltb logical_processor_count o.explicit_worker_count
      then none
      else some (record zero_config {
        worker_count_explicit = true;
        worker_count = if ltb 0 o.explicit_worker_count then o.explicit_worker_count - 1 else 0;
        allow_oversubscribe = ltb physical_core_count o.explicit_worker_count;
      })
  | io ↦ some (record {
    allow_oversubscribe = true;
    worker_count_explicit = true;
    worker_count = if leb 2 logical_processor_count then logical_processor_count - 1 else 0;
  })
]

-- What the libraries answer to `main`. The runtime answers by the configuration of the workers.
pub record Platform : Type 0 where
  pub memory_create : Bool
  pub store_create : Bool
  pub parsed : Parsed
  pub stat_mtime : Bytes → Option ℤ
  pub logical_processor_count : ℕ
  pub physical_core_count : ℕ
  pub stderr_ready : Bool
  pub runtime_create : WorkerConfig → Option Runtime

-- `bc_runtime_run` with the callbacks; a `run` that gives no result is one that does not return.
abbrev pub RunCallbacks : Writer → Type 0
RunCallbacks W =
    (ApplicationState W → Bool × ApplicationState W)
    → (ApplicationState W → Option (Bool × ApplicationState W))
    → (ApplicationState W → ApplicationState W)
    → ApplicationState W
    → Option (ApplicationState W)

-- The status, the resources in order, the text of `main` on standard error, and the last state of
-- the application if it was run.
pub record Exit (W : Writer) : Type 0 where
  pub status : ℕ
  pub steps : List Step
  pub message : Bytes
  pub final_state : Option (ApplicationState W)

-- The two destructions at the end.
abbrev pub release_cli : List Step
release_cli = destroyed cli_store ∷ destroyed cli_memory_context ∷ []

module _ (C : BcCore) (os : Os) (A : Arrays) (schedule : Schedule) (W : Writer) (writev : Writev)
    (iov_max : ℕ) (fuel : ℕ) (runtime_run : RunCallbacks W) (P : Platform) where
  abbrev pub complain : ℕ → Bytes → List Step → Exit W
  complain status text steps = record {
    status = status;
    steps = steps;
    message = emit_stderr_message P.stderr_ready (some text) none none none;
    final_state = none;
  }

  abbrev pub quiet_exit : ℕ → Exit W
  quiet_exit status = record {
    status = status;
    steps = created cli_memory_context ∷ created cli_store ∷ release_cli;
    message = [];
    final_state = none;
  }

  -- From the creation of the runtime on.
  unfoldable pub run_application : CliOptions → WorkerConfig → Option (Exit W)
  run_application options config = elim (P.runtime_create config) [
    | none ↦ some (
        complain 1 (codes "bc-seek: failed to initialize runtime\n")
          (created cli_memory_context ∷ created cli_store ∷ release_cli))
    | some rt ↦
        elim (runtime_run (application_init W rt)
          (application_run C os A schedule W writev iov_max fuel rt) (application_cleanup W rt)
          (initial_state W options)) [
            | none ↦ none
            | some final ↦ some (record {
              status = final.exit_code;
              steps =
                  created cli_memory_context
                  ∷ created cli_store
                  ∷ created runtime
                  ∷ destroyed runtime
                  ∷ release_cli;
              message = [];
              final_state = some final;
            })
          ]
  ]

  -- From the binding of the options on. `bind_options` has written the text of its error.
  unfoldable pub run_command : ConfigStore → List Bytes → Option (Exit W)
  unfolding configure_workers run_application
  run_command store positional = elim (bind_options C P.stat_mtime store positional) [
    | fault ↦ none
    | err text ↦ some (record (quiet_exit 2) { message = text })
    | ok options ↦
        elim (configure_workers options P.logical_processor_count P.physical_core_count) [
          | none ↦ some (
              complain 2 (codes "bc-seek: --threads exceeds online logical processors\n")
                (created cli_memory_context ∷ created cli_store ∷ release_cli))
          | some config ↦ run_application options config
        ]
  ]

  -- `none` is undefined behaviour, or a walk that does not return.
  unfoldable pub main : Option (Exit W)
  unfolding run_command
  main =
      if not P.memory_create
      then some (complain 1 (codes "bc-seek: failed to initialize CLI memory context\n") [])
      else if not P.store_create
      then some (
          complain 1 (codes "bc-seek: failed to initialize CLI config store\n")
            (created cli_memory_context ∷ destroyed cli_memory_context ∷ []))
      else elim (P.parsed) [
        | help_global ↦ some (quiet_exit 0)
        | help_command ↦ some (quiet_exit 0)
        | version ↦ some (quiet_exit 0)
        | parse_error ↦ some (quiet_exit 2)
        | parsed_ok store positional ↦ run_command store positional
      ]
