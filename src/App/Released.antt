-- ===== src/App/Released.antt =====
-- The resources that `main` of src/bc_seek_main.c creates and destroys.
use bc_seek.Base.{
  ℕ, ◌≡◌, refl, Bool, true, false, Option, none, some, List, [], ◌∷◌, Bytes, if◌then◌else◌, sym,
  ◌∙◌,
}
use mathlib.Core.Path.{subst}
use bc_seek.Types.{CliOptions}
use bc_seek.CoreLib.{BcCore}
use bc_seek.Cli.Bind.{ConfigStore}
use bc_seek.Os.{Os}
use bc_seek.Output.{Writer}
use bc_seek.Parallel.{Writev}
use bc_seek.Parallel.Visit.{Arrays}
use bc_seek.Parallel.Roots.{Schedule}
use bc_seek.App.Program.{
  Resource, cli_memory_context, cli_store, runtime, Step, created, destroyed, WorkerConfig,
  Platform, RunCallbacks, Exit, main,
}
use bc_seek.App.Ways.{
  ApplicationWay, no_runtime, unending, ran, CommandWay, faulted, unbound, too_many, configured,
  MainWay, no_memory, no_store, informed, unparsed, commanded, main-way, same_exit,
}

-- The resource that must go first: nothing but the one created last can be destroyed.
abbrev same_resource : Resource → Resource → Bool
same_resource cli_memory_context cli_memory_context = true
same_resource cli_store cli_store = true
same_resource runtime runtime = true
same_resource _ _ = false

-- The resources held after the steps, the last one first; `none` if a step destroys another than
-- the last one, or creates one that is held.
abbrev pub holds : List Resource → Resource → Bool
holds [] r = false
holds (x ∷ held) r = if same_resource x r then true else holds held r

abbrev pub held_after : List Step → List Resource → Option (List Resource)
held_after [] held = some held
held_after (created r ∷ steps) held = if holds held r then none else held_after steps (r ∷ held)
held_after (destroyed r ∷ steps) [] = none
held_after (destroyed r ∷ steps) (x ∷ held) =
    if same_resource x r then held_after steps held else none

module _ (C : BcCore) (os : Os) (A : Arrays) (schedule : Schedule) (W : Writer) (writev : Writev)
    (iov_max : ℕ) (fuel : ℕ) (runtime_run : RunCallbacks W) (P : Platform) where
  abbrev Released : Exit W → Type 0
  Released e = held_after e.steps [] ≡ some []

  application-Released :
      {options : CliOptions} {config : WorkerConfig} {r : Option (Exit W)} (e : Exit W)
      → ApplicationWay C os A schedule W writev iov_max fuel runtime_run P options config r
      → r ≡ some e
      → Released e
  application-Released e (no_runtime refused ended) h = subst Released (same_exit ended h) refl
  application-Released e (unending rt given out ended) h = absurd (cc)
  application-Released e (ran rt final given done ended) h = subst Released (same_exit ended h) refl

  command-Released :
      {store : ConfigStore} {positional : List Bytes} {r : Option (Exit W)} (e : Exit W)
      → CommandWay C os A schedule W writev iov_max fuel runtime_run P store positional r
      → r ≡ some e
      → Released e
  command-Released e (faulted bad ended) h = absurd (cc)
  command-Released e (unbound text bad ended) h = subst Released (same_exit ended h) refl
  command-Released e (too_many options bound over ended) h = subst Released (same_exit ended h) refl
  command-Released e (configured options config bound fits ended way) h =
      application-Released e way (sym ended ∙ h)

  way-Released :
      {r : Option (Exit W)} (e : Exit W)
      → MainWay C os A schedule W writev iov_max fuel runtime_run P r
      → r ≡ some e
      → Released e
  way-Released e (no_memory refused ended) h = subst Released (same_exit ended h) refl
  way-Released e (no_store memory refused ended) h = subst Released (same_exit ended h) refl
  way-Released e (informed memory stored told ended) h = subst Released (same_exit ended h) refl
  way-Released e (unparsed memory stored bad ended) h = subst Released (same_exit ended h) refl
  way-Released e (commanded store positional memory stored parsed ended way) h =
      command-Released e way (sym ended ∙ h)

  -- On every path that returns, `main` destroys what it created, each resource once and in the
  -- reverse order, whatever the libraries answer.
  pub main-Released :
      (e : Exit W)
      → main C os A schedule W writev iov_max fuel runtime_run P ≡ some e
      → held_after e.steps [] ≡ some []
  main-Released e h =
      way-Released e (main-way C os A schedule W writev iov_max fuel runtime_run P) h
