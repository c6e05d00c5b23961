-- ===== src/Tests/Parallel.antt =====
-- The write of the collected matches, and the walk with two workers.
use bc_seek.Base.{
  min, ◌==◌, if◌then◌else◌, ℕ, ◌+◌, ◌≤◌, sym, none, ◌&&◌, ◌≡◌, refl, Bool, true, false, some, List,
  [], ◌∷◌, ◌++◌, Bytes, codes, length, arith,
}
use mathlib.Core.List.{Perm, perm_append_comm}
use mathlib.Core.Path.{subst}
use bc_seek.Output.{Output}
use bc_seek.Output.Records.{print_all}
use bc_seek.Filter.{
  check_depth, check_type, check_name, check_path, check_size, check_mtime, check_newer, check_perm,
  populate_stat, type_of_stat,
}
use bc_seek.Filter.Evaluate.{
  evaluate, evaluate_type, evaluate_names, evaluate_required, evaluate_stat,
}
use bc_seek.Walk.{WalkConfig}
use bc_seek.App.{zero_predicate}
use bc_seek.Parallel.Visit.{visited, failed, append_match, visit, visit_candidate, off_device}
use bc_seek.Parallel.Roots.{
  Schedule, Walked, walk_with_workers, handle_all, parallel_root_candidate, strip_slashes,
}
use bc_seek.Parallel.Found.{found_in_all, Found, all_stated}
use bc_seek.Parallel.Interleave.{AllServed}
use bc_seek.Parallel.Order.{SameEntries, walk_with_workers-order}
use bc_seek.Parallel.Complete.{found_by_walk, merge_of_walk, walk_with_workers-found}
use bc_seek.Tests.Workers.{seen, kernel, kernel-IsLawful, schedule, schedule-AllServed, two_workers}
use bc_seek.Tests.Samples.{
  sample_core as core, sample_core-IsLawful as lawful, sample_os as os, sample_arrays,
  sample_arrays-IsReliable, sample_writer as writer, sample_output as output,
}
use bc_seek.Parallel.Merge.{merge_matches-slots_text}
use bc_seek.Parallel.{
  start_builder, write_builder, merge_matches, WorkerSlot, collect_slot_iovec, collect_slots,
  all_bytes, advance, write_all_iovec, Writev, wrote, write_failed,
}
use bc_seek.Parallel.Collect.{slots_text, collect_slots-slots_text}
use bc_seek.Parallel.Written.{AllFilled, AllOrFailed, write_all_iovec-all_bytes}

abbrev two_slots : List Bytes
two_slots = codes "a\n" ∷ codes "b/c\n" ∷ []

write_all_run : write_all_iovec kernel 1024 10 0 two_slots [] ≡ some (true, codes "a\nb/c\n")
unfolding write_all_iovec advance
write_all_run = refl

-- A disk that is full after three bytes: the first buffer is written, and the rest is left.
abbrev full_kernel : Writev
full_kernel call iov = if call == 0 then wrote (min 3 (length (all_bytes iov))) else write_failed

write_all_full_run : write_all_iovec full_kernel 1024 10 0 two_slots [] ≡ some (false, codes "a\nb")
unfolding write_all_iovec advance
write_all_full_run = refl

write_all_iovec-all_bytes_example :
    (ok : Bool) × (text : Bytes) × (rest : Bytes) × (write_all_iovec kernel 1024 7 0 two_slots []
      ≡ some (ok, text))
    × (text ++ rest ≡ all_bytes two_slots)
    × AllOrFailed kernel 1024 ok rest
write_all_iovec-all_bytes_example =
    write_all_iovec-all_bytes kernel 1 kernel-IsLawful 1024 (ground arith) 7 two_slots
      (ground arith, (ground arith, tt)) (ground arith)

abbrev slots : List WorkerSlot
slots =
    record { output_bytes = codes "a\n"; emitted_count = 1; initialized = true }
    ∷ record { output_bytes = []; emitted_count = 0; initialized = false }
    ∷ record { output_bytes = codes "b/c\n"; emitted_count = 1; initialized = true }
    ∷ []

collect_run :
    collect_slots slots (record { iov = []; total_emitted = 0 })
    ≡ record { iov = two_slots; total_emitted = 2 }
unfolding collect_slots collect_slot_iovec
collect_run = refl

collect_slots-slots_text_example :
    AllFilled (collect_slots slots (record { iov = []; total_emitted = 0 })).iov
    × (all_bytes (collect_slots slots (record { iov = []; total_emitted = 0 })).iov
        ≡ [] ++ slots_text slots)
collect_slots-slots_text_example =
    collect_slots-slots_text slots (record { iov = []; total_emitted = 0 }) tt (ground arith)

merge_run :
    merge_matches writer kernel 1024 20 output (codes "top\n") 1 slots
    ≡ some (true, codes "top\na\nb/c\n", record output { emitted_count = 3 })
unfolding merge_matches write_builder start_builder collect_slots collect_slot_iovec write_all_iovec
    advance
merge_run = refl

merge_matches-slots_text_example :
    (ok : Bool) × (text : Bytes) × (rest : Bytes) × (o : Output writer) × (merge_matches writer
        kernel 1024 20 output
        (codes "top\n")
        1
        slots
      ≡ some (ok, text, o))
    × (text ++ rest ≡ codes "top\n" ++ slots_text slots)
    × AllOrFailed kernel 1024 ok rest
merge_matches-slots_text_example =
    merge_matches-slots_text writer kernel 1 kernel-IsLawful 1024 (ground arith) 20 output
      (codes "top\n") 1 slots refl (ground arith) (ground arith)

abbrev config : WalkConfig
config = record {
  predicate = zero_predicate;
  signal_handler = none;
  follow_symlinks = false;
  one_file_system = true;
}

abbrev parallel_walked : Walked writer
parallel_walked = record {
  walk_ok = true;
  output = record output { emitted_count = 3 };
  errors = record { error_path = codes "top/x"; error_number = some 13 } ∷ [];
  direct_text = codes "top\ntop/sub/b.c\ntop/a.c\n";
}

walk_with_workers_run :
    walk_with_workers core os sample_arrays schedule writer kernel 1024 40 config two_workers
      (codes "top" ∷ [])
      output
    ≡ some parallel_walked
unfolding walk_with_workers handle_all visit append_match evaluate evaluate_type evaluate_names
    evaluate_required evaluate_stat check_depth check_type check_name check_path check_size
    check_mtime check_newer check_perm populate_stat type_of_stat merge_matches write_builder
    start_builder collect_slots collect_slot_iovec write_all_iovec advance parallel_root_candidate
    visit_candidate
walk_with_workers_run = refl

abbrev found : Found
found =
    found_by_walk core os sample_arrays schedule writer kernel 1024 40 config two_workers
      (codes "top" ∷ []) output

found_run : found ≡ record {
  matches = codes "top" ∷ codes "top/a.c" ∷ codes "top/sub/b.c" ∷ [];
  reports = parallel_walked.errors;
}
unfolding found_in_all evaluate evaluate_type evaluate_names evaluate_required evaluate_stat
    check_depth check_type check_name check_path check_size check_mtime check_newer check_perm
    populate_stat type_of_stat parallel_root_candidate visit_candidate strip_slashes off_device
found_run = refl

walk_with_workers-found_example :
    (w : Walked writer) × (ps : List Bytes) × (rest : Bytes) × (merge_ok : Bool)
    × (walk_with_workers core os sample_arrays schedule writer kernel 1024 40 config two_workers
          (codes "top" ∷ [])
          output
        ≡ some w)
    × (merge_of_walk core os sample_arrays schedule writer kernel 1024 40 config two_workers
          (codes "top" ∷ [])
          output
        ≡ some (merge_ok, w.direct_text, w.output))
    × Perm ps found.matches
    × (w.direct_text ++ rest ≡ print_all 10 ps)
    × AllOrFailed kernel 1024 merge_ok rest
    × (w.walk_ok ≡ (all_stated os false (codes "top" ∷ []) && merge_ok))
    × (w.errors ≡ found.reports)
walk_with_workers-found_example =
    walk_with_workers-found core lawful os sample_arrays sample_arrays-IsReliable schedule writer
      kernel 1 kernel-IsLawful 1024 (ground arith) 40 config two_workers (codes "top" ∷ []) output
      schedule-AllServed refl (ground arith) refl
      (subst (λ (f : Found). 1 + length (print_all 10 f.matches) ≤ 40) (sym found_run)
        (ground arith))

-- The same visits, the other way round and by one worker.
abbrev other_schedule : Schedule
other_schedule n root_path root_length =
    failed (codes "top/x") 13 ∷ visited 0 (seen "top/sub/b.c") ∷ visited 0 (seen "top/a.c") ∷ []

other_schedule-AllServed :
    (n : ℕ) (root_path : Bytes) (m : ℕ) → AllServed 2 (other_schedule n root_path m)
other_schedule-AllServed n root_path m = (ground arith, refl, (ground arith, refl, tt))

schedules-SameEntries : SameEntries schedule other_schedule
schedules-SameEntries i root_path m =
    perm_append_comm (seen "top/a.c" ∷ []) (seen "top/sub/b.c" ∷ [])

walk_with_workers-order_example :
    (v : Walked writer) × (w : Walked writer) × (walk_with_workers core os sample_arrays schedule
        writer kernel 1024 40 config two_workers
        (codes "top" ∷ [])
        output
      ≡ some v)
    × (walk_with_workers core os sample_arrays other_schedule writer kernel 1024 40 config
          two_workers
          (codes "top" ∷ [])
          output
        ≡ some w)
    × (v.walk_ok ≡ true
        → w.walk_ok ≡ true
        → (ps : List Bytes) × (qs : List Bytes) × Perm ps qs
          × (v.direct_text ≡ print_all 10 ps)
          × (w.direct_text ≡ print_all 10 qs))
walk_with_workers-order_example =
    walk_with_workers-order core lawful os sample_arrays sample_arrays-IsReliable schedule
      other_schedule schedules-SameEntries writer kernel 1 kernel-IsLawful 1024 (ground arith) 40
      config two_workers (codes "top" ∷ []) output schedule-AllServed other_schedule-AllServed refl
      (ground arith) refl
      (subst (λ (f : Found). 1 + length (print_all 10 f.matches) ≤ 40) (sym found_run)
        (ground arith))
