-- ===== src/App/Prints.antt =====
-- What the program of src/bc_seek_main.c prints from its command line on, in a sequential walk.
use bc_seek.Base.{
  ℕ, ◌≡◌, ◌∙◌, ap, refl, Bool, true, false, not, ◌&&◌, ◌⊎◌, leb, some, List, [], ◌∷◌, ◌++◌, Bytes,
  ok,
}
use bc_seek.Types.{CliOptions}
use bc_seek.CoreLib
use bc_seek.CoreLib.{BcCore}
use bc_seek.Cli.Bind.{ConfigStore}
use bc_seek.Cli.Options.{bind_options}
use bc_seek.Os.{Os}
use bc_seek.Output.{Writer, IsLawful, Output}
use bc_seek.Output.Records.{print_all}
use bc_seek.Walk.{WalkConfig, WalkError, WalkState}
use bc_seek.Walk.Iterate.{Outcome}
use bc_seek.Walk.Roots.{walk_sequential}
use bc_seek.Walk.Adds.{IsReliable, NeverStops}
use bc_seek.Walk.Cuts.{Interrupts}
use bc_seek.Walk.Spec.{matches_of_walk}
use bc_seek.Walk.Terminates.{NamesEntries}
use bc_seek.Walk.Prints.{walk_sequential-begins, all_of_whole}
use bc_seek.Parallel.{Writev}
use bc_seek.Parallel.Visit.{Arrays}
use bc_seek.Parallel.Roots.{Schedule, Concurrency, Walked, of_sequential}
use bc_seek.App.{
  Runtime, ApplicationState, initial_state, application_init, application_run, application_cleanup,
  walk_by_mode, walk_config, is_mono, root_paths,
}
use bc_seek.App.Program.{
  WorkerConfig, Platform, RunCallbacks, Exit, configure_workers, main, parsed_ok,
}
use bc_seek.App.Ways.{finished_exit}
use bc_seek.App.Status.{status_of, application_run-status, application_cleanup-exit_code}
use bc_seek.App.Ready.{
  config_of, same_config, separator_of, Ready, application_init-Ready, with_predicate,
}
use bc_seek.App.Exit.{RunsInOrder, main-finished}

module _ (C : BcCore) (os : Os) (A : Arrays) (schedule : Schedule) (W : Writer) (writev : Writev)
    (iov_max : ℕ) (fuel : ℕ) (L : IsLawful W) (R : IsReliable W) (lawful : CoreLib.IsLawful C)
    (names : NamesEntries os) where
  -- The walk of one thread.
  walk_by_mode-sequential :
      (rt : Runtime) (concurrency : Concurrency) (s : ApplicationState W)
      → (leb 2 concurrency.effective_worker_count && not (is_mono s.cli_options.threads_mode))
        ≡ false
      → walk_by_mode C os A schedule W writev iov_max fuel rt concurrency s
        ≡ of_sequential
            (walk_sequential C os W (walk_config rt s) (root_paths s.cli_options) s.output)
  unfolding walk_by_mode
  walk_by_mode-sequential rt concurrency s alone = rw (walk_by_mode, alone)

  -- What a run prints after a successful setup.
  pub record Printed (rt : Runtime) (options : CliOptions) (s : ApplicationState W) : Type 0 where
    pub last_state : ApplicationState W
    pub succeeds : Bool
    pub walk_ok : Bool
    pub ended : WalkState W
    pub walks :
        walk_sequential C os W (config_of rt options) (root_paths options) s.output
        ≡ some (walk_ok, ended)
    pub runs :
        application_run C os A schedule W writev iov_max fuel rt s ≡ some (succeeds, last_state)
    pub status : last_state.exit_code ≡ status_of rt.interrupted walk_ok ended.errors
    pub reported : last_state.effects.reports ≡ ended.errors ∷ []
    pub same_output : last_state.output ≡ ended.output
    pub first : List Bytes
    pub left : List Bytes
    pub whole : first ++ left ≡ matches_of_walk C os W (config_of rt options) (root_paths options)
    pub text : L.written last_state.output.writer ≡ print_all (separator_of options) first
    pub complete : (left ≡ []) ⊎ ((ended.stop_requested ≡ true) × Interrupts (config_of rt options))

  application_run-Printed :
      (rt : Runtime) (options : CliOptions) (concurrency : Concurrency) (s : ApplicationState W)
      → rt.memory_context ≡ true
      → rt.parallel_context ≡ some concurrency
      → (leb 2 concurrency.effective_worker_count && not (is_mono options.threads_mode)) ≡ false
      → Ready W L rt (with_predicate W L rt (initial_state W options)) s
      → Printed rt options s
  application_run-Printed rt options concurrency s memory given alone ready =
      let (walk_ok, ended, first, left, returns, whole, text, complete) =
        walk_sequential-begins C os W (config_of rt options) L R lawful names (root_paths options)
          s.output in
      let walked : Walked W = record {
        walk_ok = walk_ok;
        output = ended.output;
        errors = ended.errors;
        direct_text = [];
      } in
      let still_alone =
        ap
          (λ (o : CliOptions).
            leb 2 concurrency.effective_worker_count && not (is_mono o.threads_mode))
          ready.same_options
        ∙ alone in
      let done : walk_by_mode C os A schedule W writev iov_max fuel rt concurrency s ≡ some walked =
        walk_by_mode-sequential rt concurrency s still_alone
        ∙ ap
            (λ (k : WalkConfig).
              of_sequential (walk_sequential C os W k (root_paths s.cli_options) s.output))
            (same_config W L rt options s ready)
        ∙ ap
            (λ (o : CliOptions).
              of_sequential (walk_sequential C os W (config_of rt options) (root_paths o) s.output))
            ready.same_options
        ∙ ap (λ (r : Outcome W). of_sequential r) returns in
      let (succeeds, t, runs, status, reports, output, kept, tells) =
        application_run-status C os A schedule W writev iov_max fuel rt s concurrency walked memory
          given done in
      record {
        last_state = t;
        succeeds = succeeds;
        walk_ok = walk_ok;
        ended = ended;
        walks = returns;
        runs = runs;
        status = status;
        reported =
            reports ∙ ap (λ (rs : List (List WalkError)). rs ++ ended.errors ∷ []) ready.unreported;
        same_output = output;
        text =
            ap (λ (o : Output W). L.written o.writer) output
            ∙ text
            ∙ ap (λ (b : Bytes). b ++ print_all s.output.separator first) ready.unwritten
            ∙ ap (λ (b : ℕ). print_all b first) ready.separator;
        first = first;
        left = left;
        whole = whole;
        complete = complete;
      }

  module _ (runtime_run : RunCallbacks W) (ordered : RunsInOrder runtime_run) (P : Platform) where
    -- A command line that parses, binds and fits the machine, with a setup that succeeds and a single
    -- thread, whatever the signal handler answers: the program returns, and the text that its writer
    -- has accepted before the cleanup is a beginning of the matches that a pure traversal of the
    -- snapshot lists for the predicate of the options, in order, each followed by NUL or newline as
    -- the options say. Either it is all of them, or the handler has an answer to stop and the walk is
    -- left with the request. The sequential walk of the options returns from the output that was set
    -- up; the errors that it leaves are reported once, they, its result and the interrupt give the
    -- status, and its output is kept. The writer and the core library are lawful, each write succeeds,
    -- directory entries have nonempty names, and the runtime calls the callbacks in order.
    pub main-begins :
        (store : ConfigStore) (positional : List Bytes) (options : CliOptions)
        (config : WorkerConfig) (rt : Runtime) (concurrency : Concurrency)
        → P.memory_create ≡ true
        → P.store_create ≡ true
        → P.parsed ≡ parsed_ok store positional
        → bind_options C P.stat_mtime store positional ≡ ok options
        → configure_workers options P.logical_processor_count P.physical_core_count ≡ some config
        → P.runtime_create config ≡ some rt
        → (application_init W rt (initial_state W options)).0 ≡ true
        → rt.parallel_context ≡ some concurrency
        → (leb 2 concurrency.effective_worker_count && not (is_mono options.threads_mode)) ≡ false
        → (e : Exit W) × (t : ApplicationState W) × (walk_ok : Bool) × (ended : WalkState W)
          × (first : List Bytes) × (left : List Bytes) × (main C os A schedule W writev iov_max fuel
                runtime_run P
              ≡ some e)
          × (e.final_state ≡ some (application_cleanup W rt t))
          × (first ++ left ≡ matches_of_walk C os W (config_of rt options) (root_paths options))
          × (L.written t.output.writer ≡ print_all (separator_of options) first)
          × ((left ≡ []) ⊎ ((ended.stop_requested ≡ true) × Interrupts (config_of rt options)))
          × (walk_sequential C os W
                (config_of rt options)
                (root_paths options)
                (application_init W rt (initial_state W options)).1.output
              ≡ some (walk_ok, ended))
          × (t.output ≡ ended.output)
          × (t.effects.reports ≡ ended.errors ∷ [])
          × (e.status ≡ status_of rt.interrupted walk_ok ended.errors)
    main-begins store positional options config rt concurrency memory stored parsed bound fits given
          set_up shared alone =
        let s0 = initial_state W options in
        let (kept, ready) = application_init-Ready W L rt s0 set_up in
        let p =
          application_run-Printed rt options concurrency (application_init W rt s0).1 kept shared
            alone ready in
        let t = p.last_state in
        (
          finished_exit C os A schedule W writev iov_max fuel runtime_run P
              (application_cleanup W rt t),
          t,
          p.walk_ok,
          p.ended,
          p.first,
          p.left,
          main-finished C os A schedule W writev iov_max fuel runtime_run ordered P store positional
              options config rt t p.succeeds memory stored parsed bound fits given set_up p.runs,
          refl,
          p.whole,
          p.text,
          p.complete,
          p.walks,
          p.same_output,
          p.reported,
          application_cleanup-exit_code W rt t ∙ p.status,
        )

    -- A command line that parses, binds and fits the machine, with a setup that succeeds and a
    -- single thread that no signal stops: the program returns, and the text that its writer has
    -- accepted before the cleanup is exactly the matches that a pure traversal of the snapshot
    -- lists for the predicate of the options, in order, each followed by NUL or newline as the
    -- options say. The sequential walk of the options returns from the output that was set up; the
    -- errors that it leaves are reported once, they and its result give the status, and its output
    -- is kept. The writer and the core library are lawful, each write succeeds, directory entries
    -- have nonempty names, and the runtime calls the callbacks in order.
    pub main-matches_of_walk :
        (store : ConfigStore) (positional : List Bytes) (options : CliOptions)
        (config : WorkerConfig) (rt : Runtime) (concurrency : Concurrency)
        → P.memory_create ≡ true
        → P.store_create ≡ true
        → P.parsed ≡ parsed_ok store positional
        → bind_options C P.stat_mtime store positional ≡ ok options
        → configure_workers options P.logical_processor_count P.physical_core_count ≡ some config
        → P.runtime_create config ≡ some rt
        → (application_init W rt (initial_state W options)).0 ≡ true
        → rt.parallel_context ≡ some concurrency
        → (leb 2 concurrency.effective_worker_count && not (is_mono options.threads_mode)) ≡ false
        → NeverStops (config_of rt options)
        → (e : Exit W) × (t : ApplicationState W) × (walk_ok : Bool) × (ended : WalkState W) × (main
              C os A schedule W writev iov_max fuel runtime_run P
            ≡ some e)
          × (e.final_state ≡ some (application_cleanup W rt t))
          × (L.written t.output.writer
              ≡ print_all
                  (separator_of options)
                  (matches_of_walk C os W (config_of rt options) (root_paths options)))
          × (walk_sequential C os W
                (config_of rt options)
                (root_paths options)
                (application_init W rt (initial_state W options)).1.output
              ≡ some (walk_ok, ended))
          × (t.output ≡ ended.output)
          × (t.effects.reports ≡ ended.errors ∷ [])
          × (e.status ≡ status_of rt.interrupted walk_ok ended.errors)
    main-matches_of_walk store positional options config rt concurrency memory stored parsed bound
          fits given set_up shared alone quiet =
        let (
          e, t, walk_ok, ended, first, left, returns, final, whole, text, complete, walks, output,
          reports, status,
        ) =
          main-begins store positional options config rt concurrency memory stored parsed bound fits
            given set_up shared alone in
        let all_printed : first
            ≡ matches_of_walk C os W (config_of rt options) (root_paths options) =
          all_of_whole (config_of rt options) quiet first left _ whole complete in
        (
          e,
          t,
          walk_ok,
          ended,
          returns,
          final,
          text ∙ ap (λ (l : List Bytes). print_all (separator_of options) l) all_printed,
          walks,
          output,
          reports,
          status,
        )
