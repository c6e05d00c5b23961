-- ===== src/App/Ways.antt =====
-- The ways through `main` of src/bc_seek_main.c.
use bc_seek.Base.{
  ◌∙◌, ℕ, ◌≡◌, ◌⊎◌, inl, inr, refl, true, false, Option, none, some, List, [], ◌∷◌, Bytes, codes,
  Option-cases, Bool-cases, Result, ok, err, fault,
}
use bc_seek.Types.{CliOptions}
use bc_seek.CoreLib.{BcCore}
use bc_seek.Cli.Bind.{ConfigStore}
use bc_seek.Cli.Options.{bind_options}
use bc_seek.Os.{Os}
use bc_seek.Output.{Writer}
use bc_seek.Parallel.{Writev}
use bc_seek.Parallel.Visit.{Arrays}
use bc_seek.Parallel.Roots.{Schedule}
use bc_seek.App.{
  Runtime, ApplicationState, initial_state, application_init, application_run, application_cleanup,
}
use bc_seek.App.Program.{
  cli_memory_context, cli_store, runtime, created, destroyed, WorkerConfig, Platform, RunCallbacks,
  Exit, run_application, run_command, main, Parsed, help_global, help_command, version, parse_error,
  parsed_ok, complain, quiet_exit, release_cli, configure_workers,
}

pub Result-cases {ℓ} :
    {A : Type ℓ} (r : Result A)
    → (r ≡ fault) ⊎ (((text : Bytes) × (r ≡ err text)) ⊎ ((a : A) × (r ≡ ok a)))
Result-cases fault = inl refl
Result-cases (err text) = inr (inl (text, refl))
Result-cases (ok a) = inr (inr (a, refl))

-- Two names of one result.
pub same_exit : {W : Writer} {r : Option (Exit W)} {x e : Exit W} → r ≡ some x → r ≡ some e → x ≡ e
same_exit p q = cc

-- The parser has printed a help text or the version.
abbrev pub Informs : Parsed → Type 0
Informs help_global = Unit
Informs help_command = Unit
Informs version = Unit
Informs parse_error = ⊥
Informs (parsed_ok store positional) = ⊥

Parsed-cases :
    (p : Parsed)
    → Informs p
      ⊎ ((p ≡ parse_error)
          ⊎ ((store : ConfigStore) × (positional : List Bytes) × (p ≡ parsed_ok store positional)))
Parsed-cases help_global = inl tt
Parsed-cases help_command = inl tt
Parsed-cases version = inl tt
Parsed-cases parse_error = inr (inl refl)
Parsed-cases (parsed_ok store positional) = inr (inr (store, positional, refl))

module _ (C : BcCore) (os : Os) (A : Arrays) (schedule : Schedule) (W : Writer) (writev : Writev)
    (iov_max : ℕ) (fuel : ℕ) (runtime_run : RunCallbacks W) (P : Platform) where
  -- The result of the callbacks under the runtime.
  abbrev pub run_under : Runtime → CliOptions → Option (ApplicationState W)
  run_under rt options =
      runtime_run (application_init W rt) (application_run C os A schedule W writev iov_max fuel rt)
        (application_cleanup W rt) (initial_state W options)

  -- The exit behind the runtime.
  abbrev pub finished_exit : ApplicationState W → Exit W
  finished_exit final = record {
    status = final.exit_code;
    steps =
        created cli_memory_context
        ∷ created cli_store
        ∷ created runtime
        ∷ destroyed runtime
        ∷ release_cli;
    message = [];
    final_state = some final;
  }

  -- How `run_application` ends.
  pub data ApplicationWay (options : CliOptions) (config : WorkerConfig)
      : Option (Exit W) → Type 0 where
    no_runtime :
        {r : Option (Exit W)}
        → P.runtime_create config ≡ none
        → r
          ≡ some (
              complain C os A schedule W writev iov_max fuel runtime_run P 1
                (codes "bc-seek: failed to initialize runtime\n")
                (created cli_memory_context ∷ created cli_store ∷ release_cli))
        → ApplicationWay options config r
    unending :
        {r : Option (Exit W)} (rt : Runtime)
        → P.runtime_create config ≡ some rt
        → run_under rt options ≡ none
        → r ≡ none
        → ApplicationWay options config r
    ran :
        {r : Option (Exit W)} (rt : Runtime) (final : ApplicationState W)
        → P.runtime_create config ≡ some rt
        → run_under rt options ≡ some final
        → r ≡ some (finished_exit final)
        → ApplicationWay options config r

  run_application-way :
      (options : CliOptions) (config : WorkerConfig)
      → ApplicationWay options config
          (run_application C os A schedule W writev iov_max fuel runtime_run P options config)
  unfolding run_application
  run_application-way options config = elim (Option-cases (P.runtime_create config)) [
    | inl refused ↦ no_runtime refused (rw (run_application, refused))
    | inr (rt, given) ↦ elim (Option-cases (run_under rt options)) [
      | inl out ↦ unending rt given out (rw (run_application, given, out))
      | inr (final, done) ↦ ran rt final given done (rw (run_application, given, done))
    ]
  ]

  -- How `run_command` ends.
  pub data CommandWay (store : ConfigStore) (positional : List Bytes)
      : Option (Exit W) → Type 0 where
    faulted :
        {r : Option (Exit W)}
        → bind_options C P.stat_mtime store positional ≡ fault
        → r ≡ none
        → CommandWay store positional r
    unbound :
        {r : Option (Exit W)} (text : Bytes)
        → bind_options C P.stat_mtime store positional ≡ err text
        → r
          ≡ some (record (quiet_exit C os A schedule W writev iov_max fuel runtime_run P 2) {
            message = text;
          })
        → CommandWay store positional r
    too_many :
        {r : Option (Exit W)} (options : CliOptions)
        → bind_options C P.stat_mtime store positional ≡ ok options
        → configure_workers options P.logical_processor_count P.physical_core_count ≡ none
        → r
          ≡ some (
              complain C os A schedule W writev iov_max fuel runtime_run P 2
                (codes "bc-seek: --threads exceeds online logical processors\n")
                (created cli_memory_context ∷ created cli_store ∷ release_cli))
        → CommandWay store positional r
    configured :
        {r : Option (Exit W)} (options : CliOptions) (config : WorkerConfig)
        → bind_options C P.stat_mtime store positional ≡ ok options
        → configure_workers options P.logical_processor_count P.physical_core_count ≡ some config
        → r ≡ run_application C os A schedule W writev iov_max fuel runtime_run P options config
        → ApplicationWay options config
            (run_application C os A schedule W writev iov_max fuel runtime_run P options config)
        → CommandWay store positional r

  run_command-way :
      (store : ConfigStore) (positional : List Bytes)
      → CommandWay store positional
          (run_command C os A schedule W writev iov_max fuel runtime_run P store positional)
  unfolding run_command
  run_command-way store positional =
      elim (Result-cases (bind_options C P.stat_mtime store positional)) [
        | inl bad ↦ faulted bad (rw (run_command, bad))
        | inr (inl (text, bad)) ↦ unbound text bad (rw (run_command, bad))
        | inr (inr (options, bound)) ↦
            elim (Option-cases
              (configure_workers options P.logical_processor_count P.physical_core_count)) [
                | inl over ↦ too_many options bound over (rw (run_command, bound, over))
                | inr (config, fits) ↦
                    configured options config bound fits (rw (run_command, bound, fits))
                      (run_application-way options config)
              ]
      ]

  -- How `main` ends.
  pub data MainWay : Option (Exit W) → Type 0 where
    no_memory :
        {r : Option (Exit W)}
        → P.memory_create ≡ false
        → r
          ≡ some (
              complain C os A schedule W writev iov_max fuel runtime_run P 1
                (codes "bc-seek: failed to initialize CLI memory context\n")
                [])
        → MainWay r
    no_store :
        {r : Option (Exit W)}
        → P.memory_create ≡ true
        → P.store_create ≡ false
        → r
          ≡ some (
              complain C os A schedule W writev iov_max fuel runtime_run P 1
                (codes "bc-seek: failed to initialize CLI config store\n")
                (created cli_memory_context ∷ destroyed cli_memory_context ∷ []))
        → MainWay r
    informed :
        {r : Option (Exit W)}
        → P.memory_create ≡ true
        → P.store_create ≡ true
        → Informs P.parsed
        → r ≡ some (quiet_exit C os A schedule W writev iov_max fuel runtime_run P 0)
        → MainWay r
    unparsed :
        {r : Option (Exit W)}
        → P.memory_create ≡ true
        → P.store_create ≡ true
        → P.parsed ≡ parse_error
        → r ≡ some (quiet_exit C os A schedule W writev iov_max fuel runtime_run P 2)
        → MainWay r
    commanded :
        {r : Option (Exit W)} (store : ConfigStore) (positional : List Bytes)
        → P.memory_create ≡ true
        → P.store_create ≡ true
        → P.parsed ≡ parsed_ok store positional
        → r ≡ run_command C os A schedule W writev iov_max fuel runtime_run P store positional
        → CommandWay store positional
            (run_command C os A schedule W writev iov_max fuel runtime_run P store positional)
        → MainWay r

  abbrev after_parse : Parsed → Option (Exit W)
  after_parse p = elim p [
    | help_global ↦ some (quiet_exit C os A schedule W writev iov_max fuel runtime_run P 0)
    | help_command ↦ some (quiet_exit C os A schedule W writev iov_max fuel runtime_run P 0)
    | version ↦ some (quiet_exit C os A schedule W writev iov_max fuel runtime_run P 0)
    | parse_error ↦ some (quiet_exit C os A schedule W writev iov_max fuel runtime_run P 2)
    | parsed_ok store positional ↦
        run_command C os A schedule W writev iov_max fuel runtime_run P store positional
  ]

  after_parse-Informs :
      (p : Parsed)
      → Informs p
      → after_parse p ≡ some (quiet_exit C os A schedule W writev iov_max fuel runtime_run P 0)
  after_parse-Informs help_global h = refl
  after_parse-Informs help_command h = refl
  after_parse-Informs version h = refl
  after_parse-Informs parse_error h = absurd h
  after_parse-Informs (parsed_ok store positional) h = absurd h

  pub main-way : MainWay (main C os A schedule W writev iov_max fuel runtime_run P)
  unfolding main
  main-way = elim (Bool-cases P.memory_create) [
    | inr refused ↦ no_memory refused (rw (main, refused))
    | inl memory ↦ elim (Bool-cases P.store_create) [
      | inr refused ↦ no_store memory refused (rw (main, memory, refused))
      | inl stored ↦ elim (Parsed-cases P.parsed) [
        | inl told ↦
            informed memory stored told
              (rw (main, memory, stored) (after_parse-Informs P.parsed told))
        | inr (inl bad) ↦ unparsed memory stored bad (rw (main, memory, stored, bad))
        | inr (inr (store, positional, parsed)) ↦
            commanded store positional memory stored parsed (rw (main, memory, stored, parsed))
              (run_command-way store positional)
      ]
    ]
  ]

  run_application-ran :
      (options : CliOptions) (config : WorkerConfig) (rt : Runtime) (final : ApplicationState W)
      → P.runtime_create config ≡ some rt
      → run_under rt options ≡ some final
      → run_application C os A schedule W writev iov_max fuel runtime_run P options config
        ≡ some (finished_exit final)
  unfolding run_application
  run_application-ran options config rt final given done = rw (run_application, given, done)

  run_command-ran :
      (store : ConfigStore) (positional : List Bytes) (options : CliOptions) (config : WorkerConfig)
      → bind_options C P.stat_mtime store positional ≡ ok options
      → configure_workers options P.logical_processor_count P.physical_core_count ≡ some config
      → run_command C os A schedule W writev iov_max fuel runtime_run P store positional
        ≡ run_application C os A schedule W writev iov_max fuel runtime_run P options config
  unfolding run_command
  run_command-ran store positional options config bound fits = rw (run_command, bound, fits)

  main-commanded :
      (store : ConfigStore) (positional : List Bytes)
      → P.memory_create ≡ true
      → P.store_create ≡ true
      → P.parsed ≡ parsed_ok store positional
      → main C os A schedule W writev iov_max fuel runtime_run P
        ≡ run_command C os A schedule W writev iov_max fuel runtime_run P store positional
  unfolding main
  main-commanded store positional memory stored parsed = rw (main, memory, stored, parsed)

  -- The way on which the runtime runs.
  pub main-ran :
      (store : ConfigStore) (positional : List Bytes) (options : CliOptions) (config : WorkerConfig)
      (rt : Runtime) (final : ApplicationState W)
      → P.memory_create ≡ true
      → P.store_create ≡ true
      → P.parsed ≡ parsed_ok store positional
      → bind_options C P.stat_mtime store positional ≡ ok options
      → configure_workers options P.logical_processor_count P.physical_core_count ≡ some config
      → P.runtime_create config ≡ some rt
      → run_under rt options ≡ some final
      → main C os A schedule W writev iov_max fuel runtime_run P ≡ some (finished_exit final)
  main-ran store positional options config rt final memory stored parsed bound fits given done =
      main-commanded store positional memory stored parsed
      ∙ run_command-ran store positional options config bound fits
      ∙ run_application-ran options config rt final given done
