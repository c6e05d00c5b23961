-- ===== src/Tests/Workers.antt =====
-- A kernel that takes three bytes at a call, but is interrupted at the first, and two workers.
use bc_seek.Base.{
  ℕ, String, pos, min, refl, true, [], ◌∷◌, Bytes, codes, length, ◌==◌, if◌then◌else◌, arith,
}
use bc_seek.Parallel.{Writev, wrote, interrupted, all_bytes}
use bc_seek.Parallel.Written.{IsLawful}
use bc_seek.Parallel.Visit.{WalkEntry, kind_file, visited, failed}
use bc_seek.Parallel.Roots.{Schedule, Concurrency}
use bc_seek.Parallel.Interleave.{AllServed}

abbrev pub kernel : Writev
kernel call iov = if call == 0 then interrupted else wrote (min 3 (length (all_bytes iov)))

pub kernel-IsLawful : IsLawful kernel 1
kernel-IsLawful = record {
  at_most = λ call iov n h. ground arith;
  progress = λ call iov n h some_offered. ground arith;
  settles = λ call iov h. ground arith;
}

-- Two workers below `top`: the second one takes `top/a.c` first, a directory cannot be read, and
-- the first one takes `top/sub/b.c`.
abbrev pub seen : String → WalkEntry
seen path = record {
  absolute_path = codes path;
  absolute_path_length = length (codes path);
  depth = 1;
  kind = kind_file;
  device_id = 1;
  file_size = 5000;
  modification_time_seconds = pos 1000;
  permission_mask = 0o644;
  stat_populated = true;
}

abbrev pub schedule : Schedule
schedule n root_path root_length =
    visited 1 (seen "top/a.c") ∷ failed (codes "top/x") 13 ∷ visited 0 (seen "top/sub/b.c") ∷ []

pub schedule-AllServed : (n : ℕ) (root_path : Bytes) (m : ℕ) → AllServed 2 (schedule n root_path m)
schedule-AllServed n root_path m = (ground arith, refl, (ground arith, refl, tt))

-- The same visits, with no directory that cannot be read.
abbrev pub quiet_schedule : Schedule
quiet_schedule n root_path root_length =
    visited 1 (seen "top/a.c") ∷ visited 0 (seen "top/sub/b.c") ∷ []

pub quiet_schedule-AllServed :
    (n : ℕ) (root_path : Bytes) (m : ℕ) → AllServed 2 (quiet_schedule n root_path m)
quiet_schedule-AllServed n root_path m = (ground arith, refl, (ground arith, refl, tt))

abbrev pub two_workers : Concurrency
two_workers = record { effective_worker_count = 2; register_slot = true; slot_count = 2 }
