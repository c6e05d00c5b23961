-- ===== src/App/Concurrent.antt =====
-- What the program of src/bc_seek_main.c writes from its command line on, in a walk with workers.
use mathlib.Core.List.{Perm}
use mathlib.Core.Path.{subst}
use bc_seek.Base.{
  ℕ, ◌+◌, ◌≡◌, ◌≤◌, ◌<◌, ◌∙◌, sym, ap, refl, Bool, true, false, ◌&&◌, leb, ltb, Option, some, List,
  [], ◌∷◌, ◌++◌, Bytes, arith, ok, length,
}
use bc_seek.Types.{CliOptions}
use bc_seek.CoreLib
use bc_seek.CoreLib.{BcCore}
use bc_seek.Cli.Bind.{ConfigStore}
use bc_seek.Cli.Options.{bind_options}
use bc_seek.Os.{Os}
use bc_seek.Output.{Writer, IsLawful, Output}
use bc_seek.Output.Records.{print_all}
use bc_seek.Walk.{WalkConfig, WalkError}
use bc_seek.Parallel.{Writev, max_iovec}
use bc_seek.Parallel.Written
use bc_seek.Parallel.Visit.{Arrays, IsReliable}
use bc_seek.Parallel.Interleave.{AllServed}
use bc_seek.Parallel.Found.{Found, all_stated, or_default, found_in_all}
use bc_seek.Parallel.Roots.{
  Schedule, Concurrency, Walked, run_start, walk_with_workers, walk_parallel,
}
use bc_seek.Parallel.Complete.{merge_of_walk, walk_with_workers-found}
use bc_seek.App.{
  Runtime, ApplicationState, initial_state, application_init, application_cleanup, walk_by_mode,
  walk_config, is_mono, root_paths,
}
use bc_seek.App.Program.{
  WorkerConfig, Platform, RunCallbacks, Exit, configure_workers, main, parsed_ok,
}
use bc_seek.App.Ways.{finished_exit}
use bc_seek.App.Status.{status_of, application_run-status, application_cleanup-exit_code}
use bc_seek.App.Ready.{
  config_of, same_config, separator_of, Ready, application_init-Ready, with_predicate,
}
use bc_seek.App.Exit.{RunsInOrder, main-finished}

module _ (C : BcCore) (os : Os) (A : Arrays) (schedule : Schedule) (W : Writer) (writev : Writev)
    (iov_max : ℕ) (fuel : ℕ) where
  -- What is found from the roots of the options, by their predicate.
  abbrev pub found_by_command : Runtime → CliOptions → ℕ → ℕ → Found
  found_by_command rt options slot_count separator =
      found_in_all C os schedule
        (run_start C os A schedule W writev iov_max fuel (config_of rt options) slot_count []
          separator).context
        (root_paths options)

  -- The walk with workers.
  walk_by_mode-with_workers :
      (rt : Runtime) (concurrency : Concurrency) (s : ApplicationState W)
      → 2 ≤ concurrency.effective_worker_count
      → is_mono s.cli_options.threads_mode ≡ false
      → walk_by_mode C os A schedule W writev iov_max fuel rt concurrency s
        ≡ walk_with_workers C os A schedule W writev iov_max fuel
            (walk_config rt s)
            concurrency
            (root_paths s.cli_options)
            s.output
  unfolding walk_by_mode walk_parallel
  walk_by_mode-with_workers rt concurrency s several shared =
      let enough : leb 2 concurrency.effective_worker_count ≡ true = ground arith in
      let many : ltb concurrency.effective_worker_count 2 ≡ false = ground arith in
      rw (walk_by_mode, walk_parallel, enough, shared, many)

module _ (C : BcCore) (lawful : CoreLib.IsLawful C) (os : Os) (A : Arrays) (R : IsReliable A)
    (schedule : Schedule) (W : Writer) (L : IsLawful W)
    (flushes : (w : W.State) → (W.flush w).0 ≡ true) (writev : Writev) (bound : ℕ)
    (K : Written.IsLawful writev bound) (iov_max : ℕ) (room : 0 < iov_max) (fuel : ℕ) where
  -- What a walk with workers gives, by what is to be found.
  pub record Gathered (merge : Option (Bool × Bytes × Output W)) (found : Found) (separator : ℕ)
      (all_ok : Bool) (w : Walked W) : Type 0 where
    pub ps : List Bytes
    pub rest : Bytes
    pub merge_ok : Bool
    pub merged : merge ≡ some (merge_ok, w.direct_text, w.output)
    pub perm : Perm ps found.matches
    pub text : w.direct_text ++ rest ≡ print_all separator ps
    pub complete : Written.AllOrFailed writev iov_max merge_ok rest
    pub result : w.walk_ok ≡ (all_ok && merge_ok)
    pub reported : w.errors ≡ found.reports

  walk_by_mode-Gathered :
      (rt : Runtime) (options : CliOptions) (concurrency : Concurrency) (s : ApplicationState W)
      → ((i : ℕ) (root_path : Bytes) (m : ℕ)
          → AllServed concurrency.slot_count (schedule i root_path m))
      → concurrency.register_slot ≡ true
      → concurrency.slot_count < max_iovec
      → bound
          + length (
              print_all
                (separator_of options)
                (found_by_command C os A schedule W writev iov_max fuel rt options
                  concurrency.slot_count
                  (separator_of options)).matches)
        ≤ fuel
      → 2 ≤ concurrency.effective_worker_count
      → is_mono options.threads_mode ≡ false
      → Ready W L rt (with_predicate W L rt (initial_state W options)) s
      → (w : Walked W) × (walk_by_mode C os A schedule W writev iov_max fuel rt concurrency s
          ≡ some w)
        × Gathered
            (merge_of_walk C os A schedule W writev iov_max fuel
              (config_of rt options)
              concurrency
              (root_paths options)
              s.output)
            (found_by_command C os A schedule W writev iov_max fuel rt options
              concurrency.slot_count
              (separator_of options))
            (separator_of options)
            (all_stated os options.follow_symlinks (or_default (root_paths options)))
            w
  walk_by_mode-Gathered rt options concurrency s served registered few enough several shared ready =
      let k = config_of rt options in
      let roots = root_paths options in
      let found : ℕ → Found = λ b.
        found_by_command C os A schedule W writev iov_max fuel rt options concurrency.slot_count
          b in
      let same_separator : s.output.separator ≡ separator_of options = ready.separator in
      let (w, ps, rest, merge_ok, returns, merged, perm, text, complete, result, reported) =
        walk_with_workers-found C lawful os A R schedule W writev bound K iov_max room fuel k
          concurrency roots s.output served registered few (flushes s.output.writer)
          (subst (λ (b : ℕ). bound + length (print_all b (found b).matches) ≤ fuel)
            (sym same_separator) enough) in
      let merge : Option (Bool × Bytes × Output W) =
        merge_of_walk C os A schedule W writev iov_max fuel k concurrency roots s.output in
      let g : Gathered merge (found s.output.separator) s.output.separator
          (all_stated os options.follow_symlinks (or_default roots)) w =
        record {
          ps = ps;
          rest = rest;
          merge_ok = merge_ok;
          merged = merged;
          perm = perm;
          text = text;
          complete = complete;
          result = result;
          reported = reported;
        } in
      let still_shared =
        ap (λ (o : CliOptions). is_mono o.threads_mode) ready.same_options ∙ shared in
      (
        w,
        walk_by_mode-with_workers C os A schedule W writev iov_max fuel rt concurrency s several
              still_shared
            ∙ ap
                (λ (c : WalkConfig).
                  walk_with_workers C os A schedule W writev iov_max fuel c concurrency
                    (root_paths s.cli_options) s.output)
                (same_config W L rt options s ready)
            ∙ ap
                (λ (o : CliOptions).
                  walk_with_workers C os A schedule W writev iov_max fuel k concurrency
                    (root_paths o) s.output)
                ready.same_options
            ∙ returns,
        subst
            (λ (b : ℕ).
              Gathered merge (found b) b (all_stated os options.follow_symlinks (or_default roots))
                w)
            same_separator g,
      )

  module _ (runtime_run : RunCallbacks W) (ordered : RunsInOrder runtime_run) (P : Platform) where
    -- A command line that parses, binds and fits the machine, with a setup that succeeds and
    -- workers: whatever their schedule, the program returns. Its output and what it writes past the
    -- writer are those of the merge of what the roots and the workers have collected, and that text
    -- begins the matches printed in some order, each accepted root and each accepted visit once.
    -- Either the merge succeeds and all of them are written, or it fails and so does a call of
    -- `writev` on what is left. The errors, those of the roots without a stat and those of the
    -- library, are reported once; they, the roots and the merge give the status. Each visit comes
    -- from a worker with a slot and has the length of its path, there are at most 255 slots, the
    -- slots are registered, no array operation and no flush fails, and there is fuel for the text
    -- and the interrupts; the core library, the writer and `writev` are lawful, `IOV_MAX` is
    -- positive, and the runtime calls the callbacks in order.
    pub main-found :
        (store : ConfigStore) (positional : List Bytes) (options : CliOptions)
        (config : WorkerConfig) (rt : Runtime) (concurrency : Concurrency)
        → P.memory_create ≡ true
        → P.store_create ≡ true
        → P.parsed ≡ parsed_ok store positional
        → bind_options C P.stat_mtime store positional ≡ ok options
        → configure_workers options P.logical_processor_count P.physical_core_count ≡ some config
        → P.runtime_create config ≡ some rt
        → (application_init W rt (initial_state W options)).0 ≡ true
        → rt.parallel_context ≡ some concurrency
        → 2 ≤ concurrency.effective_worker_count
        → is_mono options.threads_mode ≡ false
        → ((i : ℕ) (root_path : Bytes) (m : ℕ)
            → AllServed concurrency.slot_count (schedule i root_path m))
        → concurrency.register_slot ≡ true
        → concurrency.slot_count < max_iovec
        → bound
            + length (
                print_all
                  (separator_of options)
                  (found_by_command C os A schedule W writev iov_max fuel rt options
                    concurrency.slot_count
                    (separator_of options)).matches)
          ≤ fuel
        → (e : Exit W) × (t : ApplicationState W) × (ps : List Bytes) × (rest : Bytes)
          × (merge_ok : Bool) × (main C os A schedule W writev iov_max fuel runtime_run P ≡ some e)
          × (e.final_state ≡ some (application_cleanup W rt t))
          × (merge_of_walk C os A schedule W writev iov_max fuel
                (config_of rt options)
                concurrency
                (root_paths options)
                (application_init W rt (initial_state W options)).1.output
              ≡ some (merge_ok, t.effects.direct_text, t.output))
          × Perm ps
              (found_by_command C os A schedule W writev iov_max fuel rt options
                concurrency.slot_count
                (separator_of options)).matches
          × (t.effects.direct_text ++ rest ≡ print_all (separator_of options) ps)
          × Written.AllOrFailed writev iov_max merge_ok rest
          × (t.effects.reports
              ≡ (found_by_command C os A schedule W writev iov_max fuel rt options
                  concurrency.slot_count
                  (separator_of options)).reports
                ∷ [])
          × (e.status
              ≡ status_of rt.interrupted
                  (all_stated os options.follow_symlinks (or_default (root_paths options))
                    && merge_ok)
                  (found_by_command C os A schedule W writev iov_max fuel rt options
                    concurrency.slot_count
                    (separator_of options)).reports)
    main-found store positional options config rt concurrency memory stored parsed bound_options
          fits given set_up context several shared served registered few enough =
        let s0 = initial_state W options in
        let s = (application_init W rt s0).1 in
        let (kept, ready) = application_init-Ready W L rt s0 set_up in
        let (w, done, g) =
          walk_by_mode-Gathered rt options concurrency s served registered few enough several shared
            ready in
        let (succeeds, t, runs, status, reports, output, text, tells) =
          application_run-status C os A schedule W writev iov_max fuel rt s concurrency w kept
            context done in
        let written : t.effects.direct_text ≡ w.direct_text =
          text ∙ ap (λ (b : Bytes). b ++ w.direct_text) ready.same_text in
        (
          finished_exit C os A schedule W writev iov_max fuel runtime_run P
              (application_cleanup W rt t),
          t,
          g.ps,
          g.rest,
          g.merge_ok,
          main-finished C os A schedule W writev iov_max fuel runtime_run ordered P store positional
              options config rt t succeeds memory stored parsed bound_options fits given set_up
              runs,
          refl,
          g.merged
              ∙ ap (λ (b : Bytes). some (g.merge_ok, b, w.output)) (sym written)
              ∙ ap (λ (o : Output W). some (g.merge_ok, t.effects.direct_text, o)) (sym output),
          g.perm,
          ap (λ (b : Bytes). b ++ g.rest) written ∙ g.text,
          g.complete,
          reports
              ∙ ap (λ (rs : List (List WalkError)). rs ++ w.errors ∷ []) ready.unreported
              ∙ ap (λ (es : List WalkError). es ∷ []) g.reported,
          application_cleanup-exit_code W rt t
              ∙ status
              ∙ ap (λ (b : Bool). status_of rt.interrupted b w.errors) g.result
              ∙ ap
                  (λ (es : List WalkError).
                    status_of rt.interrupted
                      (all_stated os options.follow_symlinks (or_default (root_paths options))
                        && g.merge_ok)
                      es)
                  g.reported,
        )
