-- ===== src/Parallel/Complete.antt =====
-- What bc_seek_discovery_walk_parallel writes with workers, under every schedule of the library.
use mathlib.Core.List.{Perm, Permᴰ}
use mathlib.Core.List.Perm
use mathlib.Core.Logic.{∥∥₁_elim}
use mathlib.Core.Path.{subst}
use native.Mathlib.Nat.{ℕ_set}
use bc_seek.Base.{
  ℕ, zero, suc, ◌+◌, ◌≤◌, ◌<◌, ◌≡◌, ◌∙◌, refl, ap, sym, Bool, true, ◌&&◌, Option, some, List, [],
  ◌∷◌, ◌++◌, Bytes, length, length-append, arith,
}
use bc_seek.CoreLib
use bc_seek.CoreLib.{BcCore}
use bc_seek.Os.{Os}
use bc_seek.Output.{Writer, Output}
use bc_seek.Output.Written.{printed}
use bc_seek.Output.Records.{print_all, print_all-append}
use bc_seek.Walk.{WalkConfig}
use bc_seek.Parallel.{Writev, max_iovec, merge_matches}
use bc_seek.Parallel.Written
use bc_seek.Parallel.Merge.{merge_matches-slots_text}
use bc_seek.Parallel.Collect.{slots_text}
use bc_seek.Parallel.Visit.{Arrays, IsReliable, output_initial_capacity}
use bc_seek.Parallel.Records.{flatten, Hold, Hold-slots_text}
use bc_seek.Parallel.Interleave.{AllServed}
use bc_seek.Parallel.Found.{Found, nothing, found_in_all, all_stated, or_default}
use bc_seek.Parallel.Collected.{Collected, all-Collected}
use bc_seek.Parallel.Roots.{
  Schedule, Concurrency, ParallelRun, zero_slots, Walked, run_start, handle_all, walk_with_workers,
}

-- The order of the matches does not change how long their text is.
print_all-length_permᴰ :
    (b : ℕ) {xs ys : List Bytes} → Permᴰ xs ys → length (print_all b xs) ≡ length (print_all b ys)
print_all-length_permᴰ b Permᴰ.nil = refl
print_all-length_permᴰ b (Permᴰ.cons {a = a} {b = c} {l₁ = xs} {l₂ = ys} e p) = omega (
  arith,
  length-append (printed b a) (print_all b xs),
  length-append (printed b c) (print_all b ys),
  ap (λ (s : Bytes). length (printed b s)) e,
  print_all-length_permᴰ b p,
)
print_all-length_permᴰ b (Permᴰ.swap {a = x} {b = y} {a' = x'} {b' = y'} {l = l} e d) = omega (
  arith,
  length-append (printed b x) (print_all b (y ∷ l)),
  length-append (printed b y) (print_all b l),
  length-append (printed b x') (print_all b (y' ∷ l)),
  length-append (printed b y') (print_all b l),
  ap (λ (s : Bytes). length (printed b s)) e,
  ap (λ (s : Bytes). length (printed b s)) d,
)
print_all-length_permᴰ b (Permᴰ.trans p q) = print_all-length_permᴰ b p ∙ print_all-length_permᴰ b q

pub print_all-length_perm :
    (b : ℕ) {xs ys : List Bytes} → Perm xs ys → length (print_all b xs) ≡ length (print_all b ys)
print_all-length_perm b p = ∥∥₁_elim p (ℕ_set _ _) (λ d. print_all-length_permᴰ b d)

zero_slots-Hold :
    (b n : ℕ) → (parts : List (List Bytes)) × Hold b (zero_slots n) parts × (flatten parts ≡ [])
zero_slots-Hold b zero = ([], tt, refl)
zero_slots-Hold b (suc n) =
    let (parts, held, empty) = zero_slots-Hold b n in ([] ∷ parts, (refl, held), empty)

length-zero_slots : (n : ℕ) → length (zero_slots n) ≡ n
length-zero_slots zero = refl
length-zero_slots (suc n) = ap suc (length-zero_slots n)

module _ (C : BcCore) (os : Os) (A : Arrays) (schedule : Schedule) (W : Writer) (writev : Writev)
    (iov_max : ℕ) (fuel : ℕ) (k : WalkConfig) where
  -- The run after the last root, and the merge of what it has collected.
  abbrev pub run_of_walk : Concurrency → List Bytes → Output W → ParallelRun
  run_of_walk concurrency roots output =
      (handle_all C os A schedule roots (
        run_start C os A schedule W writev iov_max fuel k concurrency.slot_count []
          output.separator)).1

  abbrev pub merge_of_walk : Concurrency → List Bytes → Output W → Option (Bool × Bytes × Output W)
  merge_of_walk concurrency roots output =
      let r = run_of_walk concurrency roots output in
      merge_matches W writev iov_max fuel output r.main_output r.main_emitted r.state.slots

  -- What is found from the roots, by the context before the first.
  abbrev pub found_by_walk : Concurrency → List Bytes → Output W → Found
  found_by_walk concurrency roots output =
      found_in_all C os schedule
        (run_start C os A schedule W writev iov_max fuel k concurrency.slot_count []
          output.separator).context
        roots

module _ (C : BcCore) (lawful : CoreLib.IsLawful C) (os : Os) (A : Arrays) (R : IsReliable A)
    (schedule : Schedule) (W : Writer) (writev : Writev) (bound : ℕ)
    (K : Written.IsLawful writev bound) (iov_max : ℕ) (room : 0 < iov_max) (fuel : ℕ)
    (k : WalkConfig) where
  start-Collected :
      (n : ℕ) (served : (i : ℕ) (root_path : Bytes) (m : ℕ) → AllServed n (schedule i root_path m))
      (separator : ℕ)
      → Collected C os schedule A R n separator served
          (run_start C os A schedule W writev iov_max fuel k n [] separator)
          nothing
  start-Collected n served separator =
      let (parts, held, empty) = zero_slots-Hold separator n in
      record {
        mains = [];
        parts = parts;
        main_text = refl;
        slots_hold = record { held = held; count = length-zero_slots n; same_errors = refl };
        same_separator = refl;
        complete = subst (λ (l : List Bytes). Perm l []) (sym empty) (Perm.refl []);
      }

  -- Whatever the schedule, the walk with workers returns. Its output and what it writes past the
  -- writer are those of the merge of what the roots and the workers have collected, and that text
  -- begins the matches, printed in some order: each accepted root and each accepted visit is one
  -- record. Either the merge succeeds and all of them are written, or it fails and so does a call
  -- of `writev` on what is left. The walk succeeds exactly if each root has a stat and the merge
  -- succeeds; the errors are those of the roots without a stat and those that the library reports,
  -- in order. Each visit comes from a worker with a slot and has the length of its path, there are
  -- at most 255 slots, the slots are registered, no array operation fails, the flush succeeds, and
  -- there is fuel for the text and the interrupts; the core library and `writev` are lawful, and
  -- `IOV_MAX` is positive.
  pub walk_with_workers-found :
      (concurrency : Concurrency) (roots : List Bytes) (output : Output W)
      → ((i : ℕ) (root_path : Bytes) (m : ℕ)
          → AllServed concurrency.slot_count (schedule i root_path m))
      → concurrency.register_slot ≡ true
      → concurrency.slot_count < max_iovec
      → (W.flush output.writer).0 ≡ true
      → bound
          + length (
              print_all output.separator
                (found_by_walk C os A schedule W writev iov_max fuel k concurrency roots
                  output).matches)
        ≤ fuel
      → (w : Walked W) × (ps : List Bytes) × (rest : Bytes) × (merge_ok : Bool) × (walk_with_workers
            C os A schedule W writev iov_max fuel k concurrency roots output
          ≡ some w)
        × (merge_of_walk C os A schedule W writev iov_max fuel k concurrency roots output
            ≡ some (merge_ok, w.direct_text, w.output))
        × Perm ps
            (found_by_walk C os A schedule W writev iov_max fuel k concurrency roots output).matches
        × (w.direct_text ++ rest ≡ print_all output.separator ps)
        × Written.AllOrFailed writev iov_max merge_ok rest
        × (w.walk_ok ≡ (all_stated os k.follow_symlinks (or_default roots) && merge_ok))
        × (w.errors
            ≡ (found_by_walk C os A schedule W writev iov_max fuel k concurrency roots
                output).reports)
  unfolding walk_with_workers
  walk_with_workers-found concurrency roots output served registered few flushed enough =
      let separator = output.separator in
      let start =
        run_start C os A schedule W writev iov_max fuel k concurrency.slot_count [] separator in
      let (all_ok, c) =
        all-Collected C os schedule A R concurrency.slot_count separator served lawful roots start
          nothing (start-Collected concurrency.slot_count served separator) in
      let r = (handle_all C os A schedule roots start).1 in
      let ps = c.mains ++ flatten c.parts in
      let same_separator : r.context.output_separator ≡ separator = c.same_separator in
      let whole : r.main_output ++ slots_text r.state.slots ≡ print_all separator ps =
        ap (λ (s : Bytes). s ++ slots_text r.state.slots) c.main_text
        ∙ ap (λ (s : Bytes). print_all r.context.output_separator c.mains ++ s)
            (Hold-slots_text r.context.output_separator r.state.slots c.parts c.slots_hold.held)
        ∙ sym (print_all-append r.context.output_separator c.mains (flatten c.parts))
        ∙ ap (λ (b : ℕ). print_all b ps) same_separator in
      let (merge_ok, text, rest, merged, done, written, complete) =
        merge_matches-slots_text W writev bound K iov_max room fuel output r.main_output
          r.main_emitted r.state.slots flushed (omega (arith, c.slots_hold.count))
          (omega (arith, ap length whole, print_all-length_perm separator c.complete)) in
      let w : Walked W = record {
        walk_ok = (handle_all C os A schedule roots start).0 && merge_ok;
        output = merged;
        errors = r.state.errors;
        direct_text = text;
      } in
      let reserved = R.reserve_law 0 [] output_initial_capacity in
      (
        w,
        ps,
        rest,
        merge_ok,
        ground (arith, done),
        done,
        c.complete,
        written ∙ whole,
        complete,
        ap (λ (b : Bool). b && merge_ok) all_ok,
        c.slots_hold.same_errors,
      )
