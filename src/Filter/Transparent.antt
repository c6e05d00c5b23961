-- ===== src/Filter/Transparent.antt =====
-- bc_seek_filter_evaluate with a stat that is fetched on demand, and with one that is known before.
use bc_seek.Base.{◌≡◌, ◌≢◌, ◌⊎◌, refl, Bool, true, false, not, some, Bytes, arith}
use bc_seek.Os.{Os, Stat, stat_ok, StatResult, DirFd}
use bc_seek.Filter.{
  Predicate, Candidate, stat_required, with_stat, populate_stat, check_depth, check_type,
  check_name, check_path, glob_matches,
}
use bc_seek.Filter.Evaluate.{
  evaluate_stat, evaluate_required, evaluate_names, evaluate_type, evaluate,
}
use bc_seek.Filter.Lazy.{StatRule, evaluate_stat-idle, check_type-decided}

module _ (os : Os) (p : Predicate) (c : Candidate) (st : Stat) where
  depth-with_stat : check_depth p (with_stat c st) ≡ check_depth p c
  unfolding check_depth with_stat
  depth-with_stat = refl

  name-with_stat : check_name os p (with_stat c st) ≡ check_name os p c
  unfolding check_name with_stat
  name-with_stat = refl

  path-with_stat : check_path os p (with_stat c st) ≡ check_path os p c
  unfolding check_path with_stat
  path-with_stat = refl

  pub known-with_stat :
      ((with_stat c st).type_resolved ≡ true) × ((with_stat c st).stat_populated ≡ true)
  unfolding with_stat
  known-with_stat = (ground arith, refl)

  type-with_stat :
      (c.type_resolved ≡ true → c.follow_symlinks_enabled ≡ false)
      → (check_type p c ≡ stat_required) ⊎ (check_type p (with_stat c st) ≡ check_type p c)
  unfolding check_type with_stat
  type-with_stat quiet = ground arith

  required-with_stat :
      evaluate_required os p (with_stat c st) ≡ (evaluate_stat p (with_stat c st), with_stat c st)
  unfolding evaluate_required
  required-with_stat = ground (arith, known-with_stat.1)

module _ (os : Os) (p : Predicate) (rule : StatRule p) (c : Candidate) (st : Stat)
    (unknown : c.stat_populated ≡ false)
    (found : os.fstatat c.parent_directory_fd c.basename (not c.follow_symlinks_enabled)
      ≡ stat_ok st) where
  populate : populate_stat os c ≡ some (with_stat c st)
  unfolding populate_stat
  populate = rw (found, populate_stat)

  required-lazy : (evaluate_required os p c).0 ≡ evaluate_stat p (with_stat c st)
  unfolding evaluate_required
  required-lazy =
      ground
        (arith, populate, evaluate_stat-idle p c rule, evaluate_stat-idle p (with_stat c st) rule)

  names-lazy : (evaluate_names os p c).0 ≡ (evaluate_names os p (with_stat c st)).0
  unfolding evaluate_names
  names-lazy = ground (
    arith,
    required-lazy,
    required-with_stat os p c st,
    name-with_stat os p c st,
    path-with_stat os p c st,
  )

  type-lazy :
      (c.type_resolved ≡ true → c.follow_symlinks_enabled ≡ false)
      → (evaluate_type os p c).0 ≡ (evaluate_type os p (with_stat c st)).0
  unfolding evaluate_type
  type-lazy quiet = ground (arith, names-lazy, populate, type-with_stat os p c st quiet, decided)
    where
      decided : check_type p (with_stat c st) ≢ stat_required
      decided = check_type-decided p (with_stat c st) (known-with_stat os p c st).0

  -- If nothing is known of the stat, and a type that is known is that of the entry itself, the
  -- decision of `evaluate` is the one that it takes with the stat filled in beforehand.
  pub evaluate-with_stat :
      (c.type_resolved ≡ true → c.follow_symlinks_enabled ≡ false)
      → (evaluate os p c).0 ≡ (evaluate os p (with_stat c st)).0
  unfolding evaluate
  evaluate-with_stat quiet = ground (arith, type-lazy quiet, depth-with_stat os p c st)

module _ (os : Os) (p : Predicate) (c : Candidate) (stat : DirFd → Bytes → Bool → StatResult)
    (resolved : c.type_resolved ≡ true)
    (quiet : (p.require_stat ≡ false) ⊎ (c.stat_populated ≡ true)) where
  other : Os
  other = record os { fstatat = stat }

  same_checks :
      (check_name other p c ≡ check_name os p c) × (check_path other p c ≡ check_path os p c)
  unfolding other check_name check_path glob_matches
  same_checks = (refl, refl)

  required-quiet : (o : Os) → evaluate_required o p c ≡ (evaluate_stat p c, c)
  unfolding evaluate_required
  required-quiet o = ground arith

  names-quiet : evaluate_names other p c ≡ evaluate_names os p c
  unfolding evaluate_names
  names-quiet =
      ground (arith, required-quiet other, same_checks.0, same_checks.1, required-quiet os)

  type-quiet : evaluate_type other p c ≡ evaluate_type os p c
  unfolding evaluate_type
  type-quiet = ground (arith, names-quiet, check_type-decided p c resolved)

-- If the type is known and no filter needs a stat, or the stat is known too, then `evaluate` does
-- not ask the file system: with any other `fstatat` it gives the same decision and candidate.
pub evaluate-quiet :
    (os : Os) (p : Predicate) (c : Candidate) (stat : DirFd → Bytes → Bool → StatResult)
    → c.type_resolved ≡ true
    → (p.require_stat ≡ false) ⊎ (c.stat_populated ≡ true)
    → evaluate (record os { fstatat = stat }) p c ≡ evaluate os p c
unfolding evaluate other
evaluate-quiet os p c stat resolved quiet = ground (arith, type-quiet os p c stat resolved quiet)
