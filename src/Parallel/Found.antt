-- ===== src/Parallel/Found.antt =====
-- The matches and the errors of the parallel walk, from the roots and the calls of the library.
use bc_seek.Base.{
  ℕ, ◌+◌, Bool, true, false, not, ◌&&◌, some, List, [], ◌∷◌, ◌++◌, Bytes, length, take, ◌==◌,
  if◌then◌else◌, codes,
}
use bc_seek.CoreLib.{BcCore}
use bc_seek.Types.{directory, entry_type_equal}
use bc_seek.Os.{Os, Stat, stat_ok, stat_error, at_fdcwd}
use bc_seek.Filter.{Decision, accept, type_of_stat}
use bc_seek.Filter.Evaluate.{evaluate}
use bc_seek.Walk.{WalkError}
use bc_seek.Parallel.Visit.{ParallelContext}
use bc_seek.Parallel.Interleave.{failures, accepted}
use bc_seek.Parallel.Roots.{Schedule, strip_slashes, claim_device, parallel_root_candidate}

-- What is found: the matches, and the errors in the order of their reports.
pub record Found : Type 0 where
  pub matches : List Bytes
  pub reports : List WalkError

abbrev pub nothing : Found
nothing = record { matches = []; reports = [] }

abbrev pub both : Found → Found → Found
both a b = record { matches = a.matches ++ b.matches; reports = a.reports ++ b.reports }

abbrev pub if_accept {ℓ} : {A : Type ℓ} → Decision → A → A → A
if_accept decision x y = elim decision [ accept ↦ x | _ ↦ y ]

module _ (C : BcCore) (os : Os) (schedule : Schedule) where
  -- A root itself, without the slashes at its end.
  abbrev pub own_of_root : ParallelContext → Bytes → Stat → Found
  own_of_root context root_path st =
      let n = strip_slashes root_path (length root_path) in
      elim ((evaluate os context.predicate (parallel_root_candidate C root_path n st)).0) [
        | accept ↦ record { matches = take n root_path ∷ []; reports = [] }
        | _ ↦ nothing
      ]

  abbrev pub below_root : ParallelContext → ℕ → Bytes → Found
  below_root context i root_path = record {
    matches =
        accepted C os context (schedule i root_path (strip_slashes root_path (length root_path)));
    reports = failures (schedule i root_path (strip_slashes root_path (length root_path)));
  }

  abbrev pub under_root : ParallelContext → ℕ → Bytes → Stat → Found
  under_root context i root_path st =
      if not (entry_type_equal (type_of_stat st) directory)
      then nothing
      else if context.predicate.has_max_depth && (context.predicate.max_depth == 0)
      then nothing
      else below_root context i root_path

  -- The i-th root and what lies below it.
  abbrev pub found_at : ParallelContext → ℕ → Bytes → Found
  found_at context i root_path =
      elim (os.fstatat at_fdcwd root_path (not context.follow_symlinks)) [
        | stat_error e ↦ record {
          matches = [];
          reports = record { error_path = root_path; error_number = some e } ∷ [];
        }
        | stat_ok st ↦
            both (own_of_root (claim_device context st) root_path st)
              (under_root (claim_device context st) i root_path st)
      ]

  -- The context for the roots that follow.
  abbrev pub context_after : ParallelContext → Bytes → ParallelContext
  context_after context root_path =
      elim (os.fstatat at_fdcwd root_path (not context.follow_symlinks)) [
        | stat_error e ↦ context
        | stat_ok st ↦ claim_device context st
      ]

  unfoldable pub found_from : ParallelContext → ℕ → List Bytes → Found
  found_from context i [] = nothing
  found_from context i (root_path ∷ rest) =
      both (found_at context i root_path)
        (found_from (context_after context root_path) (i + 1) rest)

  unfoldable pub found_in_all : ParallelContext → List Bytes → Found
  unfolding found_from
  found_in_all context [] = found_from context 0 (codes "." ∷ [])
  found_in_all context (root_path ∷ rest) = found_from context 0 (root_path ∷ rest)

-- Each root has a stat.
abbrev pub all_stated : Os → Bool → List Bytes → Bool
all_stated os follow_symlinks [] = true
all_stated os follow_symlinks (root_path ∷ rest) =
    elim (os.fstatat at_fdcwd root_path (not follow_symlinks)) [
      | stat_error e ↦ false
      | stat_ok st ↦ true
    ]
    && all_stated os follow_symlinks rest

-- With no root the walk begins at `.`.
abbrev pub or_default : List Bytes → List Bytes
or_default [] = codes "." ∷ []
or_default (root_path ∷ rest) = root_path ∷ rest
