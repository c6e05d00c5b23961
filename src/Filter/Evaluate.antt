-- ===== src/Filter/Evaluate.antt =====
-- bc_seek_filter_evaluate of src/filter/bc_seek_filter.c. Each `if (decision != ACCEPT) return`
-- ends one of the functions below; the result is the decision and the candidate as it was left.
use bc_seek.Base.{not, ◌&&◌, none, some, if◌then◌else◌}
use bc_seek.Os.{Os}
use bc_seek.Filter.{
  Predicate, Candidate, Decision, reject, accept, stat_required, populate_stat, check_depth,
  check_type, check_name, check_path, check_size, check_mtime, check_newer, check_perm,
}

-- The four checks that need a stat.
unfoldable pub evaluate_stat : Predicate → Candidate → Decision
evaluate_stat p c = elim (check_size p c) [
  | accept ↦ elim (check_mtime p c) [
    | accept ↦ elim (check_newer p c) [
      | accept ↦ elim (check_perm p c) [ accept ↦ accept | other ↦ other ]
      | other ↦ other
    ]
    | other ↦ other
  ]
  | other ↦ other
]

module _ (os : Os) where
  unfoldable pub evaluate_required : Predicate → Candidate → Decision × Candidate
  evaluate_required p c =
      if p.require_stat && not c.stat_populated
      then elim (populate_stat os c) [
        | none ↦ (reject, c)
        | some stated ↦ (evaluate_stat p stated, stated)
      ]
      else (evaluate_stat p c, c)

  unfoldable pub evaluate_names : Predicate → Candidate → Decision × Candidate
  unfolding evaluate_required
  evaluate_names p c = elim (check_name os p c) [
    | accept ↦ elim (check_path os p c) [ accept ↦ evaluate_required p c | other ↦ (other, c) ]
    | other ↦ (other, c)
  ]

  unfoldable pub evaluate_type : Predicate → Candidate → Decision × Candidate
  evaluate_type p c = elim (check_type p c) [
    | reject ↦ (reject, c)
    | accept ↦ evaluate_names p c
    | stat_required ↦ elim (populate_stat os c) [
      | none ↦ (reject, c)
      | some stated ↦ elim (check_type p stated) [
        | accept ↦ evaluate_names p stated
        | other ↦ (other, stated)
      ]
    ]
  ]

  unfoldable pub evaluate : Predicate → Candidate → Decision × Candidate
  evaluate p c = elim (check_depth p c) [ accept ↦ evaluate_type p c | other ↦ (other, c) ]
