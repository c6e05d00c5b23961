-- ===== src/App/Exit.antt =====
-- The exit status of `main` of src/bc_seek_main.c, under a runtime that calls the callbacks in
-- order.
use mathlib.Core.Path.{subst}
use bc_seek.Base.{
  ℕ, ◌≡◌, ◌⊎◌, ◌∙◌, sym, ap, inl, inr, Bool, true, false, Option, none, some, List, Bytes,
  Option-cases, Bool-cases, ok, if◌then◌else◌,
}
use bc_seek.Types.{CliOptions}
use bc_seek.CoreLib.{BcCore}
use bc_seek.Cli.Bind.{ConfigStore}
use bc_seek.Cli.Options.{bind_options}
use bc_seek.Os.{Os}
use bc_seek.Output.{Writer}
use bc_seek.Parallel.{Writev}
use bc_seek.Parallel.Visit.{Arrays}
use bc_seek.Parallel.Roots.{Schedule}
use bc_seek.App.{
  Runtime, ApplicationState, initial_state, application_init, application_run, application_cleanup,
}
use bc_seek.App.Program.{WorkerConfig, Platform, RunCallbacks, configure_workers, main, parsed_ok}
use bc_seek.App.Ways.{main-ran, finished_exit, run_under}
use bc_seek.App.Status.{
  IsStatus, application_init-exit_code, application_cleanup-exit_code, application_run-IsStatus,
}

-- What the program relies on of `bc_runtime_run`: a successful `init` is followed by `run`, and
-- that by `cleanup`, whatever `run` tells; after a failed `init` there is no `run`.
pub record RunsInOrder {W : Writer} (runtime_run : RunCallbacks W) : Type 0 where
  pub refused_law :
      (init : ApplicationState W → Bool × ApplicationState W)
      (run : ApplicationState W → Option (Bool × ApplicationState W))
      (cleanup : ApplicationState W → ApplicationState W) (s : ApplicationState W)
      → (init s).0 ≡ false
      → (runtime_run init run cleanup s ≡ some (init s).1)
        ⊎ (runtime_run init run cleanup s ≡ some (cleanup (init s).1))
  pub finished_law :
      (init : ApplicationState W → Bool × ApplicationState W)
      (run : ApplicationState W → Option (Bool × ApplicationState W))
      (cleanup : ApplicationState W → ApplicationState W) (s : ApplicationState W) (succeeds : Bool)
      (t : ApplicationState W)
      → (init s).0 ≡ true
      → run (init s).1 ≡ some (succeeds, t)
      → runtime_run init run cleanup s ≡ some (cleanup t)
  pub unending_law :
      (init : ApplicationState W → Bool × ApplicationState W)
      (run : ApplicationState W → Option (Bool × ApplicationState W))
      (cleanup : ApplicationState W → ApplicationState W) (s : ApplicationState W)
      → (init s).0 ≡ true
      → run (init s).1 ≡ none
      → runtime_run init run cleanup s ≡ none

module _ (C : BcCore) (os : Os) (A : Arrays) (schedule : Schedule) (W : Writer) (writev : Writev)
    (iov_max : ℕ) (fuel : ℕ) (runtime_run : RunCallbacks W) (ordered : RunsInOrder runtime_run)
    (P : Platform) where
  same_code :
      {r : Option (ApplicationState W)} {x y : ApplicationState W}
      → r ≡ some x
      → r ≡ some y
      → x.exit_code ≡ y.exit_code
  same_code p q = cc

  no_code : {r : Option (ApplicationState W)} {x : ApplicationState W} → r ≡ none → r ≡ some x → ⊥
  no_code p q = cc

  -- The runtime leaves a status of the callbacks.
  pub run_under-IsStatus :
      (rt : Runtime) (options : CliOptions) (final : ApplicationState W)
      → run_under C os A schedule W writev iov_max fuel runtime_run P rt options ≡ some final
      → IsStatus final.exit_code
  run_under-IsStatus rt options final h =
      let s = initial_state W options in
      let t = (application_init W rt s).1 in
      let run = application_run C os A schedule W writev iov_max fuel rt in
      let code = application_init-exit_code W rt s in
      let clean = application_cleanup-exit_code W rt in
      elim (Bool-cases (application_init W rt s).0) [
        | inr refused ↦
            let one : t.exit_code ≡ 1 =
              code ∙ ap (λ (b : Bool). if b then s.exit_code else 1) refused in
            elim (ordered.refused_law (application_init W rt) run (application_cleanup W rt) s
              refused) [
                | inl left ↦ inr (inl (sym (same_code left h) ∙ one))
                | inr left ↦ inr (inl (sym (same_code left h) ∙ clean t ∙ one))
              ]
        | inl ready ↦ elim (Option-cases (run t)) [
          | inl out ↦ absurd (
              no_code
                (ordered.unending_law (application_init W rt) run (application_cleanup W rt) s ready
                  out)
                h)
          | inr ((succeeds, u), done) ↦
              subst IsStatus
                (sym (clean u)
                  ∙ same_code
                      (ordered.finished_law (application_init W rt) run (application_cleanup W rt) s
                        succeeds u ready done)
                      h)
                (application_run-IsStatus C os A schedule W writev iov_max fuel rt t succeeds u
                  done)
        ]
      ]

  -- The way on which the run returns.
  pub main-finished :
      (store : ConfigStore) (positional : List Bytes) (options : CliOptions) (config : WorkerConfig)
      (rt : Runtime) (t : ApplicationState W) (succeeds : Bool)
      → P.memory_create ≡ true
      → P.store_create ≡ true
      → P.parsed ≡ parsed_ok store positional
      → bind_options C P.stat_mtime store positional ≡ ok options
      → configure_workers options P.logical_processor_count P.physical_core_count ≡ some config
      → P.runtime_create config ≡ some rt
      → (application_init W rt (initial_state W options)).0 ≡ true
      → application_run C os A schedule W writev iov_max fuel rt
          (application_init W rt (initial_state W options)).1
        ≡ some (succeeds, t)
      → main C os A schedule W writev iov_max fuel runtime_run P
        ≡ some (
            finished_exit C os A schedule W writev iov_max fuel runtime_run P
              (application_cleanup W rt t))
  main-finished store positional options config rt t succeeds memory stored parsed bound fits given
        set_up runs =
      main-ran C os A schedule W writev iov_max fuel runtime_run P store positional options config
        rt (application_cleanup W rt t) memory stored parsed bound fits given
        (ordered.finished_law (application_init W rt)
          (application_run C os A schedule W writev iov_max fuel rt) (application_cleanup W rt)
          (initial_state W options) succeeds t set_up runs)
