-- ===== src/Walk/Cases.antt =====
-- The answers of `openat` and of `stat`, by cases that keep the equation.
use bc_seek.Base.{ℕ, ◌≡◌, refl, inl, inr, ◌⊎◌}
use bc_seek.Os.{OpenResult, opened, open_error, Stat, StatResult, stat_ok, stat_error}

pub Open-cases : (r : OpenResult) → ((e : ℕ) × (r ≡ open_error e)) ⊎ ((fd : ℕ) × (r ≡ opened fd))
Open-cases (open_error e) = inl (e, refl)
Open-cases (opened fd) = inr (fd, refl)

pub Stat-cases :
    (r : StatResult) → ((e : ℕ) × (r ≡ stat_error e)) ⊎ ((st : Stat) × (r ≡ stat_ok st))
Stat-cases (stat_error e) = inl (e, refl)
Stat-cases (stat_ok st) = inr (st, refl)
