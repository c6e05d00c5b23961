-- ===== src/App/Workers.antt =====
-- The number of workers that `main` of src/bc_seek_main.c asks for.
use bc_seek.Base.{
  ℕ, ◌+◌, ◌≡◌, ◌⊎◌, ◌<◌, ◌≤◌, true, false, Option, none, some, arith, Bytes, List, ℤ, ok,
}
use bc_seek.CoreLib.{BcCore}
use bc_seek.Cli.Bind.{ConfigStore}
use bc_seek.Cli.Options.{bind_options}
use bc_seek.Cli.Parsers.Threads.{CountFits}
use bc_seek.Cli.Reflects.{bind_options-bounds}
use bc_seek.Types.{CliOptions, ThreadsMode, auto, mono, explicit, io}
use bc_seek.App.Program.{WorkerConfig, configure_workers}

-- The threads that the mode asks for, the main one included; `auto` leaves the choice to the
-- library.
abbrev pub threads_wanted : CliOptions → ℕ → ℕ
threads_wanted o logical = elim (o.threads_mode) [
  | auto ↦ 1
  | mono ↦ 1
  | explicit ↦ o.explicit_worker_count
  | io ↦ logical
]

-- What a configuration keeps to.
pub record Fits (o : CliOptions) (logical physical : ℕ) (c : WorkerConfig) : Type 0 where
  pub left_open : c.worker_count_explicit ≡ false → o.threads_mode ≡ auto
  pub wanted : c.worker_count + 1 ≡ threads_wanted o logical
  pub bounded : c.worker_count + 1 ≤ logical
  pub admitted : physical < c.worker_count + 1 → c.allow_oversubscribe ≡ true

-- The last hypothesis is what `parse_threads` promises.
configure_workers-cases :
    (o : CliOptions) (logical physical : ℕ)
    → 0 < logical
    → 0 < physical
    → (o.threads_mode ≡ explicit → 0 < o.explicit_worker_count)
    → ((configure_workers o logical physical ≡ none)
        × (o.threads_mode ≡ explicit)
        × (logical < o.explicit_worker_count))
      ⊎ ((c : WorkerConfig) × (configure_workers o logical physical ≡ some c)
          × Fits o logical physical c)
unfolding configure_workers
configure_workers-cases o logical physical some_logical some_physical positive = ground arith

-- More threads than logical processors.
abbrev pub WantsTooMany : CliOptions → ℕ → Type 0
WantsTooMany o logical = (o.threads_mode ≡ explicit) × (logical < o.explicit_worker_count)

pub configure_workers-refused :
    (o : CliOptions) (logical physical : ℕ)
    → configure_workers o logical physical ≡ none
    → WantsTooMany o logical
unfolding configure_workers
configure_workers-refused o logical physical h = ground arith

pub configure_workers-too_many :
    (o : CliOptions) (logical physical : ℕ)
    → WantsTooMany o logical
    → configure_workers o logical physical ≡ none
unfolding configure_workers
configure_workers-too_many o logical physical h = ground arith

explicit_positive : (mode : ThreadsMode) (n : ℕ) → CountFits (mode, n) → mode ≡ explicit → 0 < n
explicit_positive auto n fits same = absurd (cc)
explicit_positive mono n fits same = absurd (cc)
explicit_positive explicit n fits same = fits
explicit_positive io n fits same = absurd (cc)

-- For options that were bound, and positive counts, the configuration is refused exactly if more
-- threads are given than there are logical processors. One that is accepted counts the main thread
-- and asks for the threads of the mode, never for more than there are logical processors; it is
-- left to the library only for `auto`, and asking for more than the physical cores always carries
-- the permission to.
pub configure_workers-Fits :
    (C : BcCore) (stat_mtime : Bytes → Option ℤ) (store : ConfigStore) (values : List Bytes)
    (o : CliOptions) (logical physical : ℕ)
    → bind_options C stat_mtime store values ≡ ok o
    → 0 < logical
    → 0 < physical
    → ((configure_workers o logical physical ≡ none)
        × (o.threads_mode ≡ explicit)
        × (logical < o.explicit_worker_count))
      ⊎ ((c : WorkerConfig) × (configure_workers o logical physical ≡ some c)
          × Fits o logical physical c)
configure_workers-Fits C stat_mtime store values o logical physical bound some_logical
      some_physical =
    configure_workers-cases o logical physical some_logical some_physical (
      explicit_positive o.threads_mode o.explicit_worker_count
        (bind_options-bounds C stat_mtime store values o bound).1)
