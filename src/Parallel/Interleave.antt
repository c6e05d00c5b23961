-- ===== src/Parallel/Interleave.antt =====
-- The visits of the workers, in any interleaving.
use mathlib.Core.List.{Perm}
use mathlib.Core.List.Perm
use mathlib.Core.Path.{subst}
use bc_seek.Base.{
  ℕ, ◌+◌, ◌%◌, ◌^◌, ◌<◌, ◌≡◌, ◌∙◌, refl, ap, sym, Bool, true, false, not, ◌&&◌, some, List, [], ◌∷◌,
  ◌++◌, append_assoc, append-nil, Bytes, length, get_elem?, set, take, take-length, if◌then◌else◌,
  arith, Bool-cases, inl, inr,
}
use bc_seek.CoreLib.{BcCore}
use bc_seek.Os.{Os}
use bc_seek.Filter.{Decision, accept, reject, stat_required}
use bc_seek.Filter.Evaluate.{evaluate}
use bc_seek.Walk.{WalkError}
use bc_seek.Parallel.{WorkerSlot}
use bc_seek.Parallel.Visit.{
  WalkEntry, Arrays, IsReliable, ParallelContext, ParallelState, record_error, Event, visited,
  failed, off_device, visit_candidate, append_match, ensure_worker_slot, collect_match, visit,
  run_events, output_initial_capacity,
}
use bc_seek.Parallel.Records.{
  flatten, Hold, Hold-set_same, Hold-set_more, perm_front, length-set, get_elem?_of_lt,
  get_elem?-set_self,
}

-- The entry is visited by a worker that has a slot, and its path is as long as it says.
abbrev pub AllServed : ℕ → List Event → Type 0
AllServed n [] = Unit
AllServed n (visited worker entry ∷ events) =
    (worker < n) × (entry.absolute_path_length ≡ length entry.absolute_path) × AllServed n events
AllServed n (failed path errno_value ∷ events) = AllServed n events

-- The errors that the library reports.
abbrev pub failures : List Event → List WalkError
failures [] = []
failures (visited worker entry ∷ events) = failures events
failures (failed path errno_value ∷ events) =
    record { error_path = path; error_number = some errno_value } ∷ failures events

abbrev is_accept : Decision → Bool
is_accept accept = true
is_accept reject = false
is_accept stat_required = false

-- The slots hold the parts, there are `n` of them, and the errors are `errors`.
pub record Holds (b n : ℕ) (s : ParallelState) (parts : List (List Bytes)) (errors : List WalkError)
    : Type 0 where
  pub held : Hold b s.slots parts
  pub count : length s.slots ≡ n
  pub same_errors : s.errors ≡ errors

module _ (C : BcCore) (os : Os) (context : ParallelContext) where
  -- The entry is on the device, if that matters, and the predicate accepts it.
  abbrev pub takes : WalkEntry → Bool
  takes entry =
      not (off_device context entry)
      && is_accept ((evaluate os context.predicate (visit_candidate C context entry)).0)

  abbrev pub taken : WalkEntry → List Bytes
  taken entry = if takes entry then entry.absolute_path ∷ [] else []

  -- The accepted paths of the visits, whichever worker made them.
  abbrev pub accepted : List Event → List Bytes
  accepted [] = []
  accepted (visited worker entry ∷ events) = taken entry ++ accepted events
  accepted (failed path errno_value ∷ events) = accepted events

  module _ (A : Arrays) (R : IsReliable A) where
    ensure-Hold :
        (k : ℕ) (slots : List WorkerSlot) (worker : ℕ) (parts : List (List Bytes))
        → worker < length slots
        → Hold context.output_separator slots parts
        → ((ensure_worker_slot A k slots worker).0 ≡ true)
          × Hold context.output_separator (ensure_worker_slot A k slots worker).1 parts
          × (length (ensure_worker_slot A k slots worker).1 ≡ length slots)
          × (slot : WorkerSlot) × (get_elem? (ensure_worker_slot A k slots worker).1 worker
              ≡ some slot)
          × (slot.initialized ≡ true)
    unfolding ensure_worker_slot
    ensure-Hold k slots worker parts lt h =
        let (slot, found) = get_elem?_of_lt slots worker lt in
        elim (Bool-cases slot.initialized) [
          | inl used ↦
              let same : slots ≡ (ensure_worker_slot A k slots worker).1 = ground arith in
              (
                ground arith,
                subst (λ (x : List WorkerSlot). Hold context.output_separator x parts) same h,
                ap length (sym same),
                slot,
                ap (λ (x : List WorkerSlot). get_elem? x worker) (sym same) ∙ found,
                used,
              )
          | inr fresh ↦
              let new : WorkerSlot = record {
                output_bytes = [];
                emitted_count = 0;
                initialized = true;
              } in
              let reserved = R.reserve_law k [] output_initial_capacity in
              let same : set slots worker new ≡ (ensure_worker_slot A k slots worker).1 =
                ground arith in
              (
                ground arith,
                subst (λ (x : List WorkerSlot). Hold context.output_separator x parts) same
                    (Hold-set_same context.output_separator slots parts worker slot new found
                      (ground arith) h),
                ap length (sym same) ∙ length-set slots worker new,
                new,
                ap (λ (x : List WorkerSlot). get_elem? x worker) (sym same)
                    ∙ get_elem?-set_self slots worker new lt,
                refl,
              )
        ]

    collect-Holds :
        (k n worker : ℕ) (entry : WalkEntry) (s : ParallelState) (parts : List (List Bytes))
        (errors : List WalkError) (slot : WorkerSlot)
        → get_elem? s.slots worker ≡ some slot
        → slot.initialized ≡ true
        → entry.absolute_path_length ≡ length entry.absolute_path
        → Holds context.output_separator n s parts errors
        → (more : List (List Bytes)) × Holds context.output_separator n
            (collect_match A context k worker entry s)
            more
            errors
          × Perm (flatten more) (entry.absolute_path ∷ flatten parts)
    unfolding collect_match append_match
    collect-Holds k n worker entry s parts errors slot found used whole h =
        let path = entry.absolute_path in
        let new : WorkerSlot = record slot {
          output_bytes = (slot.output_bytes ++ path) ++ context.output_separator ∷ [];
          emitted_count = (slot.emitted_count + 1) % 2 ^ 64;
        } in
        let cut : take entry.absolute_path_length path ≡ path =
          ap (λ (m : ℕ). take m path) whole ∙ take-length path in
        let bulk = R.append_bulk_law k slot.output_bytes (take entry.absolute_path_length path) in
        let pushed = R.push_law k (slot.output_bytes ++ path) context.output_separator in
        let same : record s { slots = set s.slots worker new }
            ≡ collect_match A context k worker entry s =
          ground arith in
        let (more, held, perm) =
          Hold-set_more context.output_separator s.slots parts worker slot new path found
            (ground (arith, append_assoc slot.output_bytes path (context.output_separator ∷ [])))
            h.held in
        (
          more,
          subst (λ (x : ParallelState). Holds context.output_separator n x more errors) same
              (record {
                held = held;
                count = length-set s.slots worker new ∙ h.count;
                same_errors = h.same_errors;
              }),
          perm,
        )

    -- A visit keeps what the slots hold, and adds the path if the entry is taken.
    visit-Holds :
        (k n worker : ℕ) (entry : WalkEntry) (s : ParallelState) (parts : List (List Bytes))
        (errors : List WalkError)
        → worker < n
        → entry.absolute_path_length ≡ length entry.absolute_path
        → Holds context.output_separator n s parts errors
        → (more : List (List Bytes)) × Holds context.output_separator n
            (visit C os A context k worker entry s).1
            more
            errors
          × Perm (flatten more) (taken entry ++ flatten parts)
    unfolding visit
    visit-Holds k n worker entry s parts errors lt whole h =
        elim (Bool-cases (off_device context entry)) [
          | inl off ↦
              let same : s ≡ (visit C os A context k worker entry s).1 = ground arith in
              let skipped : flatten parts ≡ taken entry ++ flatten parts = ground arith in
              (
                parts,
                subst (λ (x : ParallelState). Holds context.output_separator n x parts errors) same
                    h,
                subst (λ (xs : List Bytes). Perm (flatten parts) xs) skipped
                    (Perm.refl (flatten parts)),
              )
          | inr on ↦
              let (ensured, held, count, slot, found, used) =
                ensure-Hold k s.slots worker parts (omega (arith, h.count)) h.held in
              let t : ParallelState = record s {
                slots = (ensure_worker_slot A k s.slots worker).1;
              } in
              let ready : Holds context.output_separator n t parts errors = record {
                held = held;
                count = count ∙ h.count;
                same_errors = h.same_errors;
              } in
              elim (Bool-cases
                (is_accept ((evaluate os context.predicate (visit_candidate C context entry)).0))) [
                  | inl good ↦
                      let same : collect_match A context k worker entry t
                          ≡ (visit C os A context k worker entry s).1 =
                        ground arith in
                      let more =
                        collect-Holds k n worker entry t parts errors slot found used whole ready in
                      let added : entry.absolute_path ∷ flatten parts
                          ≡ taken entry ++ flatten parts =
                        ground arith in
                      (
                        more.0,
                        subst
                            (λ (x : ParallelState).
                              Holds context.output_separator n x more.0 errors)
                            same more.1,
                        subst (λ (xs : List Bytes). Perm (flatten more.0) xs) added more.2,
                      )
                  | inr bad ↦
                      let same : t ≡ (visit C os A context k worker entry s).1 = ground arith in
                      let skipped : flatten parts ≡ taken entry ++ flatten parts = ground arith in
                      (
                        parts,
                        subst
                            (λ (x : ParallelState). Holds context.output_separator n x parts errors)
                            same ready,
                        subst (λ (xs : List Bytes). Perm (flatten parts) xs) skipped
                            (Perm.refl (flatten parts)),
                      )
                ]
        ]

    -- After any interleaving the slots hold what they held and the accepted paths, in some order.
    pub run_events-Holds :
        (k n : ℕ) (events : List Event) (s : ParallelState) (parts : List (List Bytes))
        (errors : List WalkError)
        → AllServed n events
        → Holds context.output_separator n s parts errors
        → (more : List (List Bytes)) × Holds context.output_separator n
            (run_events C os A context k events s)
            more
            (errors ++ failures events)
          × Perm (flatten more) (accepted events ++ flatten parts)
    unfolding run_events
    run_events-Holds k n [] s parts errors served h = (
      parts,
      subst (λ (e : List WalkError). Holds context.output_separator n s parts e)
          (sym (append-nil errors)) h,
      Perm.refl (flatten parts),
    )
    run_events-Holds k n (visited worker entry ∷ events) s parts errors (lt, whole, served) h =
        let (middle, held, perm) = visit-Holds k n worker entry s parts errors lt whole h in
        let (more, all_held, rest) =
          run_events-Holds (k + 1) n events (visit C os A context k worker entry s).1 middle errors
            served held in
        (
          more,
          all_held,
          Perm.trans rest (
              Perm.trans (Perm.append_left (accepted events) perm)
                (perm_front (accepted events) (taken entry) (flatten parts))),
        )
    run_events-Holds k n (failed path errno_value ∷ events) s parts errors served h =
        let reported : WalkError = record { error_path = path; error_number = some errno_value } in
        let noted : Holds context.output_separator n (record_error s path errno_value) parts
            (errors ++ reported ∷ []) =
          record {
            held = h.held;
            count = h.count;
            same_errors = ap (λ (e : List WalkError). e ++ reported ∷ []) h.same_errors;
          } in
        let (more, held, perm) =
          run_events-Holds (k + 1) n events (record_error s path errno_value) parts
            (errors ++ reported ∷ []) served noted in
        (
          more,
          subst
              (λ (e : List WalkError).
                Holds context.output_separator n
                  (run_events C os A context (k + 1) events (record_error s path errno_value)) more
                  e)
              (append_assoc errors (reported ∷ []) (failures events)) held,
          perm,
        )
