-- ===== src/App/Usage.antt =====
-- When `main` of src/bc_seek_main.c ends on a usage error.
use mathlib.Core.Path.{subst}
use bc_seek.Base.{
  ℕ, ◌≡◌, ◌⊎◌, ◌∙◌, sym, ap, inl, inr, refl, true, Option, none, some, List, Bytes, arith, ok, err,
}
use bc_seek.Types.{CliOptions}
use bc_seek.CoreLib.{BcCore}
use bc_seek.Cli.Bind.{ConfigStore}
use bc_seek.Cli.Options.{bind_options}
use bc_seek.Os.{Os}
use bc_seek.Output.{Writer}
use bc_seek.Parallel.{Writev}
use bc_seek.Parallel.Visit.{Arrays}
use bc_seek.Parallel.Roots.{Schedule}
use bc_seek.App.Program.{
  WorkerConfig, Platform, RunCallbacks, Exit, main, Parsed, parse_error, parsed_ok,
}
use bc_seek.App.Workers.{WantsTooMany, configure_workers-refused, configure_workers-too_many}
use bc_seek.App.Ways.{
  ApplicationWay, no_runtime, unending, ran, faulted, unbound, too_many, configured, MainWay,
  no_memory, no_store, informed, unparsed, commanded, main-way, same_exit, Informs,
}
use bc_seek.App.Status.{IsStatus}
use bc_seek.App.Exit.{RunsInOrder, run_under-IsStatus}

module _ (C : BcCore) (os : Os) (A : Arrays) (schedule : Schedule) (W : Writer) (writev : Writev)
    (iov_max : ℕ) (fuel : ℕ) (runtime_run : RunCallbacks W) (ordered : RunsInOrder runtime_run)
    (P : Platform) where
  -- The command line is at fault: the parser refuses it, an option does not bind, or it wants more
  -- threads than there are processors.
  abbrev pub IsUsageError : Parsed → Type 0
  IsUsageError parsed =
      (parsed ≡ parse_error)
      ⊎ ((store : ConfigStore) × (positional : List Bytes) × (parsed ≡ parsed_ok store positional)
          × (((text : Bytes) × (bind_options C P.stat_mtime store positional ≡ err text))
              ⊎ ((options : CliOptions) × (bind_options C P.stat_mtime store positional
                    ≡ ok options)
                  × WantsTooMany options P.logical_processor_count)))

  not_two : {n : ℕ} → IsStatus n → n ≡ 2 → ⊥
  not_two (inl zero) two = absurd (omega (arith, zero, two))
  not_two (inr (inl one)) two = absurd (omega (arith, one, two))
  not_two (inr (inr stopped)) two = absurd (omega (arith, stopped, two))

  application-not_two :
      {options : CliOptions} {config : WorkerConfig} {r : Option (Exit W)} (e : Exit W)
      → ApplicationWay C os A schedule W writev iov_max fuel runtime_run P options config r
      → r ≡ some e
      → e.status ≡ 2
      → ⊥
  application-not_two e (no_runtime refused ended) h two =
      absurd (omega (arith, ap (λ (x : Exit W). x.status) (same_exit ended h), two))
  application-not_two e (unending rt given out ended) h two = cc
  application-not_two e (ran rt final given done ended) h two =
      not_two
        (run_under-IsStatus C os A schedule W writev iov_max fuel runtime_run ordered P rt _ final
          done)
        (ap (λ (x : Exit W). x.status) (same_exit ended h) ∙ two)

  refutes_error : (p : Parsed) → Informs p → p ≡ parse_error → ⊥
  refutes_error p told bad = subst Informs bad told

  refutes_ok :
      (p : Parsed) (store : ConfigStore) (positional : List Bytes)
      → Informs p
      → p ≡ parsed_ok store positional
      → ⊥
  refutes_ok p store positional told parsed = subst Informs parsed told

  way-usage :
      {r : Option (Exit W)} (e : Exit W)
      → MainWay C os A schedule W writev iov_max fuel runtime_run P r
      → r ≡ some e
      → e.status ≡ 2
      → IsUsageError P.parsed
  way-usage e (no_memory refused ended) h two =
      absurd (omega (arith, ap (λ (x : Exit W). x.status) (same_exit ended h), two))
  way-usage e (no_store memory refused ended) h two =
      absurd (omega (arith, ap (λ (x : Exit W). x.status) (same_exit ended h), two))
  way-usage e (informed memory stored told ended) h two =
      absurd (omega (arith, ap (λ (x : Exit W). x.status) (same_exit ended h), two))
  way-usage e (unparsed memory stored bad ended) h two = inl bad
  way-usage e (commanded store positional memory stored parsed ended way) h two = elim way [
    | faulted bad gone ↦ absurd (cc)
    | unbound text bad gone ↦ inr (store, positional, parsed, inl (text, bad))
    | too_many options bound over gone ↦ inr (
      store,
      positional,
      parsed,
      inr (options, bound, configure_workers-refused options _ _ over),
    )
    | configured options config bound fits gone below ↦
        absurd (application-not_two e below (sym gone ∙ sym ended ∙ h) two)
  ]

  -- A usage error ends the program with the status 2 before a walk.
  abbrev pub EndsUnwalked : Option (Exit W) → Type 0
  EndsUnwalked r = (e : Exit W) × (r ≡ some e) × (e.status ≡ 2) × (e.final_state ≡ none)

  way-ends :
      {r : Option (Exit W)}
      → MainWay C os A schedule W writev iov_max fuel runtime_run P r
      → P.memory_create ≡ true
      → P.store_create ≡ true
      → IsUsageError P.parsed
      → EndsUnwalked r
  way-ends (no_memory refused ended) memory stored usage = absurd (cc)
  way-ends (no_store _ refused ended) memory stored usage = absurd (cc)
  way-ends (informed _ _ told ended) memory stored usage = elim usage [
    | inl bad ↦ absurd (refutes_error P.parsed told bad)
    | inr (store, positional, parsed, at_fault) ↦
        absurd (refutes_ok P.parsed store positional told parsed)
  ]
  way-ends (unparsed _ _ bad ended) memory stored usage = (_, ended, refl, refl)
  way-ends (commanded store positional _ _ parsed ended way) memory stored usage = elim usage [
    | inl bad ↦ absurd (cc)
    | inr (store', positional', parsed', at_fault) ↦
        let same_store : store ≡ store' = cc in
        let same_positional : positional ≡ positional' = cc in
        elim way [
          | faulted bad gone ↦ elim at_fault [
            | inl (text, e) ↦ absurd (cc)
            | inr (o, e, over) ↦ absurd (cc)
          ]
          | unbound text bad gone ↦ (_, ended ∙ gone, refl, refl)
          | too_many options bound over gone ↦ (_, ended ∙ gone, refl, refl)
          | configured options config bound fits gone below ↦ elim at_fault [
            | inl (text, e) ↦ absurd (cc)
            | inr (o, e, over) ↦
                let refused =
                  configure_workers-too_many o P.logical_processor_count P.physical_core_count
                    over in
                let same : options ≡ o = cc in absurd (cc)
          ]
        ]
  ]

  -- The program ends with the status 2 exactly on a usage error, and then nothing has been walked:
  -- every walk, also one that is interrupted or cannot be set up, gives another status. The memory
  -- and the store for the command line can be had, and the runtime calls the callbacks in order.
  pub main-IsUsageError :
      P.memory_create ≡ true
      → P.store_create ≡ true
      → ((e : Exit W)
          → main C os A schedule W writev iov_max fuel runtime_run P ≡ some e
          → e.status ≡ 2
          → IsUsageError P.parsed)
        × (IsUsageError P.parsed
            → (e : Exit W) × (main C os A schedule W writev iov_max fuel runtime_run P ≡ some e)
              × (e.status ≡ 2)
              × (e.final_state ≡ none))
  main-IsUsageError memory stored = (
    λ e h two. way-usage e (main-way C os A schedule W writev iov_max fuel runtime_run P) h two,
    λ usage.
        way-ends (main-way C os A schedule W writev iov_max fuel runtime_run P) memory stored usage,
  )
