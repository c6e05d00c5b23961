-- ===== src/Filter/Lazy.antt =====
-- The decisions of bc_seek_filter_evaluate, and the predicates that need a stat.
use bc_seek.Base.{
  ◌≡◌, ◌≢◌, ◌⊎◌, inl, inr, refl, Bool, true, false, ◌||◌, some, ℤ, arith, Option-cases,
}
use bc_seek.Types.{CliOptions}
use bc_seek.Os.{Os}
use bc_seek.Filter.{
  Predicate, Candidate, reject, accept, stat_required, predicate_from_options, populate_stat,
  check_depth, check_type, check_name, check_path, check_size, check_mtime, check_newer, check_perm,
  verdict,
}
use bc_seek.Filter.Evaluate.{
  evaluate_stat, evaluate_required, evaluate_names, evaluate_type, evaluate,
}

-- `require_stat` is set exactly if one of the four filters that need a stat is given.
abbrev pub StatRule : Predicate → Type 0
StatRule p =
    p.require_stat
    ≡ (p.has_size_filter || (p.has_mtime_filter || (p.has_newer_reference || p.has_perm_filter)))

pub predicate_from_options-StatRule :
    (now : ℤ) (o : CliOptions) → StatRule (predicate_from_options now o)
unfolding predicate_from_options
predicate_from_options-StatRule now o = refl

verdict-decided : (b : Bool) → verdict b ≢ stat_required
verdict-decided b = ground arith

-- With a stat, or with no filter that needs one, the last checks decide.
module _ (p : Predicate) (c : Candidate) where
  checks_decided :
      c.stat_populated ≡ true
      → (check_size p c ≢ stat_required)
        × (check_mtime p c ≢ stat_required)
        × (check_newer p c ≢ stat_required)
        × (check_perm p c ≢ stat_required)
  unfolding check_size check_mtime check_newer check_perm
  checks_decided k = (ground arith, ground arith, ground arith, ground arith)

  checks_idle :
      StatRule p
      → p.require_stat ≡ false
      → (check_size p c ≡ accept)
        × (check_mtime p c ≡ accept)
        × (check_newer p c ≡ accept)
        × (check_perm p c ≡ accept)
  unfolding check_size check_mtime check_newer check_perm
  checks_idle r q = (ground arith, ground arith, ground arith, ground arith)

  evaluate_stat-decided : c.stat_populated ≡ true → evaluate_stat p c ≢ stat_required
  unfolding evaluate_stat
  evaluate_stat-decided k = let (a, b, d, e) = checks_decided k in ground (arith, a, b, d, e)

  pub evaluate_stat-idle : StatRule p → p.require_stat ≡ false → evaluate_stat p c ≡ accept
  unfolding evaluate_stat
  evaluate_stat-idle r q = let (a, b, d, e) = checks_idle r q in ground (arith, a, b, d, e)

  check_names-decided :
      (os : Os) → (check_name os p c ≢ stat_required) × (check_path os p c ≢ stat_required)
  unfolding check_name check_path
  check_names-decided os = (ground arith, ground arith)

  check_depth-decided : check_depth p c ≢ stat_required
  unfolding check_depth
  check_depth-decided = ground arith

  pub check_type-decided : c.type_resolved ≡ true → check_type p c ≢ stat_required
  unfolding check_type
  check_type-decided k = ground arith

module _ (os : Os) (p : Predicate) (r : StatRule p) where
  populated :
      (c c' : Candidate)
      → populate_stat os c ≡ some c'
      → (c'.type_resolved ≡ true) × (c'.stat_populated ≡ true)
  unfolding populate_stat
  populated c c' h = (ground arith, ground arith)

  required-decided : (c : Candidate) → (evaluate_required os p c).0 ≢ stat_required
  unfolding evaluate_required
  required-decided c = elim (Option-cases (populate_stat os c)) [
    | inl failed ↦ ground (arith, evaluate_stat-decided p c, evaluate_stat-idle p c r)
    | inr (c', found) ↦ ground (
      arith,
      (populated c c' found).1,
      evaluate_stat-decided p c' (populated c c' found).1,
      evaluate_stat-decided p c,
      evaluate_stat-idle p c r,
    )
  ]

  names-decided : (c : Candidate) → (evaluate_names os p c).0 ≢ stat_required
  unfolding evaluate_names
  names-decided c =
      ground
        (arith, (check_names-decided p c os).0, (check_names-decided p c os).1, required-decided c)

  type-decided : (c : Candidate) → (evaluate_type os p c).0 ≢ stat_required
  unfolding evaluate_type
  type-decided c = elim (Option-cases (populate_stat os c)) [
    | inl failed ↦ ground (arith, names-decided c)
    | inr (c', found) ↦
        ground (
          arith,
          names-decided c,
          names-decided c',
          check_type-decided p c' (populated c c' found).0,
        )
  ]

  evaluate-decided_rule : (c : Candidate) → (evaluate os p c).0 ≢ stat_required
  unfolding evaluate
  evaluate-decided_rule c = ground (arith, check_depth-decided p c, type-decided c)

-- For a predicate made from options `evaluate` always decides: `STAT_REQUIRED` never reaches the
-- caller, whatever the candidate and the file system.
pub evaluate-decided :
    (os : Os) (now : ℤ) (o : CliOptions) (c : Candidate)
    → ((evaluate os (predicate_from_options now o) c).0 ≡ accept)
      ⊎ ((evaluate os (predicate_from_options now o) c).0 ≡ reject)
evaluate-decided os now o c = ground (
  arith,
  evaluate-decided_rule os (predicate_from_options now o) (predicate_from_options-StatRule now o) c,
)
