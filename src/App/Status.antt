-- ===== src/App/Status.antt =====
-- The exit status of the callbacks of src/bc_seek_main.c.
use bc_seek.Base.{
  ℕ, ◌≡◌, ◌⊎◌, ◌∙◌, sym, inl, inr, refl, Bool, true, false, not, ◌&&◌, ◌||◌, ◌==◌, if◌then◌else◌,
  Option, none, some, List, [], ◌∷◌, ◌++◌, arith, length, Option-cases, Bool-cases,
}
use mathlib.Core.Path.{subst}
use bc_seek.CoreLib.{BcCore}
use bc_seek.Os.{Os}
use bc_seek.Output.{Writer}
use bc_seek.Walk.{WalkError}
use bc_seek.Parallel.{Writev}
use bc_seek.Parallel.Visit.{Arrays}
use bc_seek.Parallel.Roots.{Schedule, Concurrency, Walked}
use bc_seek.App.{
  Runtime, ApplicationState, open_output, application_init, application_run, application_cleanup,
  walk_by_mode, finish_run, failing,
}

-- The status that a finished walk deserves.
abbrev pub status_of : Bool → Bool → List WalkError → ℕ
status_of true walk_ok errors = 130
status_of false false errors = 1
status_of false true [] = 0
status_of false true (e ∷ errors) = 1

-- The states that `main` can return.
abbrev pub IsStatus : ℕ → Type 0
IsStatus n = (n ≡ 0) ⊎ ((n ≡ 1) ⊎ (n ≡ 130))

status_of-IsStatus :
    (stopped walk_ok : Bool) (errors : List WalkError) → IsStatus (status_of stopped walk_ok errors)
status_of-IsStatus true walk_ok errors = inr (inr refl)
status_of-IsStatus false false errors = inr (inl refl)
status_of-IsStatus false true [] = inl refl
status_of-IsStatus false true (e ∷ errors) = inr (inl refl)

module _ (W : Writer) (rt : Runtime) where
  -- A setup that succeeds keeps the status; one that fails sets it to 1.
  open_output-exit_code :
      (s : ApplicationState W)
      → (open_output W rt s).1.exit_code ≡ (if (open_output W rt s).0 then s.exit_code else 1)
  unfolding open_output
  open_output-exit_code s = ground arith

  pub application_init-exit_code :
      (s : ApplicationState W)
      → (application_init W rt s).1.exit_code
        ≡ (if (application_init W rt s).0 then s.exit_code else 1)
  unfolding application_init
  application_init-exit_code s = ground arith

  pub application_cleanup-exit_code :
      (s : ApplicationState W) → (application_cleanup W rt s).exit_code ≡ s.exit_code
  unfolding application_cleanup
  application_cleanup-exit_code s = ground arith

module _ (C : BcCore) (os : Os) (A : Arrays) (schedule : Schedule) (W : Writer) (writev : Writev)
    (iov_max : ℕ) (fuel : ℕ) (rt : Runtime) where
  finish_run-status :
      (walked : Walked W) (s : ApplicationState W)
      → (finish_run C os A schedule W writev iov_max fuel rt walked s).1.exit_code
        ≡ status_of rt.interrupted walked.walk_ok walked.errors
  unfolding finish_run
  finish_run-status walked s = ground arith

  finish_run-effects :
      (walked : Walked W) (s : ApplicationState W)
      → (finish_run C os A schedule W writev iov_max fuel rt walked s).1.effects.reports
        ≡ s.effects.reports ++ walked.errors ∷ []
  unfolding finish_run
  finish_run-effects walked s = ground arith

  finish_run-direct_text :
      (walked : Walked W) (s : ApplicationState W)
      → (finish_run C os A schedule W writev iov_max fuel rt walked s).1.effects.direct_text
        ≡ s.effects.direct_text ++ walked.direct_text
  unfolding finish_run
  finish_run-direct_text walked s = ground arith

  finish_run-output :
      (walked : Walked W) (s : ApplicationState W)
      → (finish_run C os A schedule W writev iov_max fuel rt walked s).1.output ≡ walked.output
  unfolding finish_run
  finish_run-output walked s = ground arith

  finish_run-succeeds :
      (walked : Walked W) (s : ApplicationState W)
      → (finish_run C os A schedule W writev iov_max fuel rt walked s).0
        ≡ (not rt.interrupted && (walked.walk_ok || not (length walked.errors == 0)))
  unfolding finish_run
  finish_run-succeeds walked s = ground arith

  application_run-ran :
      (s : ApplicationState W) (concurrency : Concurrency) (walked : Walked W)
      → rt.memory_context ≡ true
      → rt.parallel_context ≡ some concurrency
      → walk_by_mode C os A schedule W writev iov_max fuel rt concurrency s ≡ some walked
      → application_run C os A schedule W writev iov_max fuel rt s
        ≡ some (finish_run C os A schedule W writev iov_max fuel rt walked s)
  unfolding application_run finish_run
  application_run-ran s concurrency walked memory given done =
      rw (application_run, memory, given, done)

  application_run-lost :
      (s : ApplicationState W) (concurrency : Concurrency)
      → rt.memory_context ≡ true
      → rt.parallel_context ≡ some concurrency
      → walk_by_mode C os A schedule W writev iov_max fuel rt concurrency s ≡ none
      → application_run C os A schedule W writev iov_max fuel rt s ≡ none
  unfolding application_run finish_run
  application_run-lost s concurrency memory given out = rw (application_run, memory, given, out)

  application_run-no_memory :
      (s : ApplicationState W)
      → rt.memory_context ≡ false
      → application_run C os A schedule W writev iov_max fuel rt s ≡ some (failing s)
  unfolding application_run
  application_run-no_memory s missing = rw (application_run, missing)

  application_run-no_context :
      (s : ApplicationState W)
      → rt.memory_context ≡ true
      → rt.parallel_context ≡ none
      → application_run C os A schedule W writev iov_max fuel rt s ≡ some (failing s)
  unfolding application_run
  application_run-no_context s memory missing = rw (application_run, memory, missing)

  -- A walk that returns gives the run its status: 130 if the run was interrupted, 0 if the walk
  -- succeeded and reported no error, and 1 otherwise. The errors of the walk are reported once on
  -- every such path, the output is that of the walk, the text that the walk wrote past it is kept,
  -- and the run succeeds if it was not interrupted and did not fail without an error. The runtime
  -- gives the memory context and the parallel one.
  pub application_run-status :
      (s : ApplicationState W) (concurrency : Concurrency) (walked : Walked W)
      → rt.memory_context ≡ true
      → rt.parallel_context ≡ some concurrency
      → walk_by_mode C os A schedule W writev iov_max fuel rt concurrency s ≡ some walked
      → (succeeds : Bool) × (t : ApplicationState W) × (application_run C os A schedule W writev
            iov_max fuel rt s
          ≡ some (succeeds, t))
        × (t.exit_code ≡ status_of rt.interrupted walked.walk_ok walked.errors)
        × (t.effects.reports ≡ s.effects.reports ++ walked.errors ∷ [])
        × (t.output ≡ walked.output)
        × (t.effects.direct_text ≡ s.effects.direct_text ++ walked.direct_text)
        × (succeeds ≡ (not rt.interrupted && (walked.walk_ok || not (length walked.errors == 0))))
  application_run-status s concurrency walked memory given done = (
    (finish_run C os A schedule W writev iov_max fuel rt walked s).0,
    (finish_run C os A schedule W writev iov_max fuel rt walked s).1,
    application_run-ran s concurrency walked memory given done,
    finish_run-status walked s,
    finish_run-effects walked s,
    finish_run-output walked s,
    finish_run-direct_text walked s,
    finish_run-succeeds walked s,
  )

  same_state :
      {r : Option (Bool × ApplicationState W)} {x : Bool × ApplicationState W} {succeeds : Bool}
      {t : ApplicationState W}
      → r ≡ some x
      → r ≡ some (succeeds, t)
      → x.1.exit_code ≡ t.exit_code
  same_state p q = cc

  nothing_returned :
      {r : Option (Bool × ApplicationState W)} {x : Bool × ApplicationState W}
      → r ≡ none
      → r ≡ some x
      → ⊥
  nothing_returned p q = cc

  -- The statuses of a run.
  pub application_run-IsStatus :
      (s : ApplicationState W) (succeeds : Bool) (t : ApplicationState W)
      → application_run C os A schedule W writev iov_max fuel rt s ≡ some (succeeds, t)
      → IsStatus t.exit_code
  application_run-IsStatus s succeeds t h = elim (Bool-cases rt.memory_context) [
    | inr missing ↦ inr (inl (sym (same_state (application_run-no_memory s missing) h)))
    | inl memory ↦ elim (Option-cases rt.parallel_context) [
      | inl missing ↦ inr (inl (sym (same_state (application_run-no_context s memory missing) h)))
      | inr (concurrency, given) ↦
          elim (Option-cases
            (walk_by_mode C os A schedule W writev iov_max fuel rt concurrency s)) [
              | inl out ↦
                  absurd (nothing_returned (application_run-lost s concurrency memory given out) h)
              | inr (walked, done) ↦
                  subst IsStatus
                    (sym (finish_run-status walked s)
                      ∙ same_state (application_run-ran s concurrency walked memory given done) h)
                    (status_of-IsStatus rt.interrupted walked.walk_ok walked.errors)
            ]
    ]
  ]
