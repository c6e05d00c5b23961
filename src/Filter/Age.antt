-- ===== src/Filter/Age.antt =====
-- bc_seek_filter_check_mtime of src/filter/bc_seek_filter.c: the comparison of ages.
use bc_seek.Base.{ℕ, ◌/◌, ◌%◌, ◌⊎◌, ◌↔◌, ◌*◌, ◌<◌, ◌≡◌, true, pos, ◌-ℤ◌, arith}
use bc_seek.Types.{CompareOp, equal, greater, less}
use bc_seek.Filter.{Predicate, Candidate, accept, check_mtime, filter_compare_signed}

-- What `--mtime` with a number of days selects, in whole days of the age and the seconds left over.
-- (find(1) drops the seconds: there `N` is `age / 86400 ≡ days`, and `+N` is `days < age / 86400`.)
abbrev pub AgeRule : CompareOp → ℕ → ℕ → Type 0
AgeRule equal days age = (age / 86400 ≡ days) × (age % 86400 ≡ 0)
AgeRule greater days age = (days < age / 86400) ⊎ ((age / 86400 ≡ days) × (0 < age % 86400))
AgeRule less days age = age / 86400 < days

compare-AgeRule :
    (op : CompareOp) (days age : ℕ)
    → (filter_compare_signed (pos age) (pos (days * 86400)) op ≡ true) ↔ AgeRule op days age
unfolding filter_compare_signed
compare-AgeRule equal days age = (λ h. ground arith, λ h. ground arith)
compare-AgeRule greater days age = (λ h. ground arith, λ h. ground arith)
compare-AgeRule less days age = (λ h. ground arith, λ h. ground arith)

-- The age filter for `days` days accepts a file whose age is not negative exactly by `AgeRule`: the
-- equal comparison wants an age of that many days to the second, and `+N` takes a file that is one
-- second older than N days.
pub check_mtime-AgeRule :
    (p : Predicate) (c : Candidate) (days age : ℕ)
    → p.has_mtime_filter ≡ true
    → p.mtime_threshold_seconds_ago ≡ pos (days * 86400)
    → c.stat_populated ≡ true
    → p.evaluation_reference_time -ℤ c.modification_time ≡ pos age
    → (check_mtime p c ≡ accept) ↔ AgeRule p.mtime_op days age
unfolding check_mtime
check_mtime-AgeRule p c days age has threshold known seconds_ago =
    let (from, to) = compare-AgeRule p.mtime_op days age in
    rw (has, check_mtime, known, threshold, seconds_ago) (λ h. from (ground arith), λ h. rw (to h))
