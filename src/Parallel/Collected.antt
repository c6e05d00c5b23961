-- ===== src/Parallel/Collected.antt =====
-- The state of a parallel run, root by root, beside what Parallel/Found lists.
use mathlib.Core.List.{Perm, perm_append_comm, perm_middle}
use mathlib.Core.List.Perm
use mathlib.Core.Path.{subst}
use bc_seek.Base.{
  ℕ, ◌+◌, ◌%◌, ◌^◌, ◌≡◌, ◌∙◌, refl, ap, sym, Bool, not, ◌&&◌, some, List, [], ◌∷◌, ◌++◌,
  append_assoc, append-nil, Bytes, length, take, ◌==◌, arith, Bool-cases, inl, inr, codes,
}
use bc_seek.CoreLib
use bc_seek.CoreLib.{BcCore}
use bc_seek.Types.{directory, entry_type_equal}
use bc_seek.Os.{Os, Stat, at_fdcwd}
use bc_seek.Filter.{Decision, accept, reject, stat_required, type_of_stat}
use bc_seek.Filter.Evaluate.{evaluate}
use bc_seek.Output.Written.{printed}
use bc_seek.Output.Records.{print_all, print_all-append}
use bc_seek.Walk.{WalkError}
use bc_seek.Walk.Cases.{Stat-cases}
use bc_seek.Parallel.Visit.{Arrays, IsReliable, ParallelContext, record_error, append_match}
use bc_seek.Parallel.Records.{flatten, perm_front}
use bc_seek.Parallel.Interleave.{AllServed, failures, accepted, Holds, run_events-Holds}
use bc_seek.Parallel.Roots.{
  Schedule, ParallelRun, strip_slashes, claim_device, parallel_root_candidate, emit_root, walk_root,
  handle_stated_root, handle_root, handle_roots, handle_all,
}
use bc_seek.Parallel.Found.{
  or_default, all_stated, Found, nothing, both, if_accept, own_of_root, below_root, under_root,
  found_at, context_after, found_from, found_in_all,
}

both-nothing : (found : Found) → both found nothing ≡ found
both-nothing found = ground (arith, append-nil found.matches, append-nil found.reports)

both_assoc : (a b c : Found) → both (both a b) c ≡ both a (both b c)
both_assoc a b c =
    ground (
      arith,
      append_assoc a.matches b.matches c.matches,
      append_assoc a.reports b.reports c.reports,
    )

module _ (C : BcCore) (os : Os) (schedule : Schedule) where
  module _ (A : Arrays) (R : IsReliable A) (n separator : ℕ)
      (served : (i : ℕ) (root_path : Bytes) (m : ℕ) → AllServed n (schedule i root_path m)) where
    -- The run holds what was found: the matches among the roots in the main buffer, the others in
    -- the slots, in some order.
    pub record Collected (r : ParallelRun) (found : Found) : Type 0 where
      pub mains : List Bytes
      pub parts : List (List Bytes)
      pub main_text : r.main_output ≡ print_all r.context.output_separator mains
      pub slots_hold : Holds r.context.output_separator n r.state parts found.reports
      pub same_separator : r.context.output_separator ≡ separator
      pub complete : Perm (mains ++ flatten parts) found.matches

    emit-Collected :
        (r : ParallelRun) (found : Found) (root_path : Bytes) (m : ℕ)
        → Collected r found
        → Collected
            (emit_root A root_path m r)
            (both found (record { matches = take m root_path ∷ []; reports = [] }))
    unfolding emit_root append_match
    emit-Collected r found root_path m c =
        let b = r.context.output_separator in
        let path = take m root_path in
        let new : ParallelRun = record r {
          main_output = (r.main_output ++ path) ++ b ∷ [];
          main_emitted = (r.main_emitted + 1) % 2 ^ 64;
        } in
        let bulk = R.append_bulk_law r.events_done r.main_output path in
        let pushed = R.push_law r.events_done (r.main_output ++ path) b in
        let same : new ≡ emit_root A root_path m r = ground arith in
        let text : (r.main_output ++ path) ++ b ∷ [] ≡ print_all b (c.mains ++ path ∷ []) =
          append_assoc r.main_output path (b ∷ [])
          ∙ ap (λ s. s ++ printed b path) c.main_text
          ∙ ap (λ s. print_all b c.mains ++ s) (sym (append-nil (printed b path)))
          ∙ sym (print_all-append b c.mains (path ∷ [])) in
        let perm : Perm ((c.mains ++ path ∷ []) ++ flatten c.parts) (found.matches ++ path ∷ []) =
          subst (λ (l : List Bytes). Perm l (found.matches ++ path ∷ []))
            (sym (append_assoc c.mains (path ∷ []) (flatten c.parts)))
            (Perm.trans (perm_middle c.mains (flatten c.parts)) (
              Perm.trans (Perm.cons path c.complete)
                (perm_append_comm (path ∷ []) found.matches))) in
        subst
          (λ (x : ParallelRun).
            Collected x (both found (record { matches = path ∷ []; reports = [] })))
          same
          (record {
            mains = c.mains ++ path ∷ [];
            parts = c.parts;
            main_text = text;
            slots_hold =
                subst (λ (e : List WalkError). Holds b n r.state c.parts e)
                  (sym (append-nil found.reports)) c.slots_hold;
            same_separator = c.same_separator;
            complete = perm;
          })

    walk-Collected :
        (r : ParallelRun) (found : Found) (i : ℕ) (root_path : Bytes) (m : ℕ)
        → Collected r found
        → Collected (walk_root C os A schedule i root_path m r) (
            both found (record {
              matches = accepted C os r.context (schedule i root_path m);
              reports = failures (schedule i root_path m);
            }))
    unfolding walk_root
    walk-Collected r found i root_path m c =
        let events = schedule i root_path m in
        let new = accepted C os r.context events in
        let (more, held, perm) =
          run_events-Holds C os r.context A R (r.events_done + 1) n events r.state c.parts
            found.reports (served i root_path m) c.slots_hold in
        record {
          mains = c.mains;
          parts = more;
          main_text = c.main_text;
          slots_hold = held;
          same_separator = c.same_separator;
          complete = Perm.trans (Perm.append_left c.mains perm) (
              Perm.trans (perm_front c.mains new (flatten c.parts)) (
                subst (λ (l : List Bytes). Perm l (found.matches ++ new))
                  (sym (append_assoc new c.mains (flatten c.parts)))
                  (Perm.trans (Perm.append_left new c.complete)
                    (perm_append_comm new found.matches))));
        }

    -- A change of the context that keeps the separator.
    claim-Collected :
        (r : ParallelRun) (found : Found) (st : Stat)
        → Collected r found
        → Collected (record r { context = claim_device r.context st }) found
    claim-Collected r found st c =
        let same : r.context.output_separator ≡ (claim_device r.context st).output_separator =
          ground arith in
        record {
          mains = c.mains;
          parts = c.parts;
          main_text = c.main_text ∙ ap (λ (b : ℕ). print_all b c.mains) same;
          slots_hold = subst (λ (b : ℕ). Holds b n r.state c.parts found.reports) same c.slots_hold;
          same_separator = sym same ∙ c.same_separator;
          complete = c.complete;
        }

    Collected-at :
        {r q : ParallelRun} {found other : Found}
        → r ≡ q
        → found ≡ other
        → Collected r found
        → Collected q other
    Collected-at {q = q} {found = found} e d c =
        subst (λ (x : Found). Collected q x) d (subst (λ (x : ParallelRun). Collected x found) e c)

    emit_root-context :
        (r : ParallelRun) (root_path : Bytes) (m : ℕ)
        → (emit_root A root_path m r).context ≡ r.context
    unfolding emit_root append_match
    emit_root-context r root_path m = ground arith

    decided-Collected :
        (decision : Decision) (r more : ParallelRun) (found extra : Found)
        → Collected r found
        → Collected more (both found extra)
        → Collected (if_accept decision more r) (both found (if_accept decision extra nothing))
    decided-Collected accept r more found extra c d = d
    decided-Collected reject r more found extra c d = Collected-at refl (sym (both-nothing found)) c
    decided-Collected stat_required r more found extra c d =
        Collected-at refl (sym (both-nothing found)) c

    stated-Collected :
        (r : ParallelRun) (found : Found) (i : ℕ) (root_path : Bytes) (st : Stat)
        → Collected r found
        → Collected
            (handle_stated_root C os A schedule i root_path
              (strip_slashes root_path (length root_path))
              st
              r)
            (both found (
              both
                (own_of_root C os schedule r.context root_path st)
                (under_root C os schedule r.context i root_path st)))
    unfolding handle_stated_root
    stated-Collected r found i root_path st c =
        let m = strip_slashes root_path (length root_path) in
        let decision =
          (evaluate os r.context.predicate (parallel_root_candidate C root_path m st)).0 in
        let more = emit_root A root_path m r in
        let emitted = if_accept decision more r in
        let found' = both found (own_of_root C os schedule r.context root_path st) in
        let own : Collected emitted found' =
          decided-Collected decision r more found
            (record { matches = take m root_path ∷ []; reports = [] }) c
            (emit-Collected r found root_path m c) in
        let same_context : emitted.context ≡ r.context =
          ground (arith, emit_root-context r root_path m) in
        let stays : Collected emitted (both found' nothing) =
          Collected-at refl (sym (both-nothing found')) own in
        Collected-at refl
          (both_assoc found (own_of_root C os schedule r.context root_path st)
            (under_root C os schedule r.context i root_path st))
          (elim (Bool-cases (entry_type_equal (type_of_stat st) directory)) [
            | inr plain ↦ Collected-at (ground arith) (ground arith) stays
            | inl folder ↦
                elim (Bool-cases
                  (r.context.predicate.has_max_depth && (r.context.predicate.max_depth == 0))) [
                    | inl shallow ↦ Collected-at (ground (arith, same_context)) (ground arith) stays
                    | inr deep ↦
                        Collected-at (ground arith)
                          (ap
                              (λ (x : ParallelContext).
                                both found' (below_root C os schedule x i root_path))
                              same_context
                            ∙ ap (both found') (ground arith))
                          (walk-Collected emitted found' i root_path m own)
                  ]
          ])

    handle-Collected :
        CoreLib.IsLawful C
        → (r : ParallelRun) (found : Found) (i : ℕ) (root_path : Bytes) → Collected r found
        → Collected
            (handle_root C os A schedule i root_path r).1
            (both found (found_at C os schedule r.context i root_path))
    unfolding handle_root
    handle-Collected lawful r found i root_path c =
        elim (Stat-cases (os.fstatat at_fdcwd root_path (not r.context.follow_symlinks))) [
          | inl (e, missing) ↦
              let reported : WalkError = record { error_path = root_path; error_number = some e } in
              let report : Found = record { matches = []; reports = reported ∷ [] } in
              let same : record r { state = record_error r.state root_path e }
                  ≡ (handle_root C os A schedule i root_path r).1 =
                ground arith in
              let listed : both found report
                  ≡ both found (found_at C os schedule r.context i root_path) =
                ap (both found) (ground arith) in
              Collected-at same listed (record {
                mains = c.mains;
                parts = c.parts;
                main_text = c.main_text;
                slots_hold = record {
                  held = c.slots_hold.held;
                  count = c.slots_hold.count;
                  same_errors =
                      ap (λ (l : List WalkError). l ++ reported ∷ []) c.slots_hold.same_errors;
                };
                same_separator = c.same_separator;
                complete =
                    subst (λ (l : List Bytes). Perm (c.mains ++ flatten c.parts) l)
                      (sym (append-nil found.matches)) c.complete;
              })
          | inr (st, stated) ↦
              let measured = lawful.length_law root_path in
              let start : ParallelRun = record r { context = claim_device r.context st } in
              Collected-at (ground arith) (ground arith)
                (stated-Collected start found i root_path st (claim-Collected r found st c))
        ]

    stated-context :
        (r : ParallelRun) (i m : ℕ) (root_path : Bytes) (st : Stat)
        → (handle_stated_root C os A schedule i root_path m st r).context ≡ r.context
    unfolding handle_stated_root
    stated-context r i m root_path st = ground (arith, emit_root-context r root_path m)

    context_after-follow_symlinks :
        (context : ParallelContext) (root_path : Bytes)
        → (context_after C os schedule context root_path).follow_symlinks ≡ context.follow_symlinks
    context_after-follow_symlinks context root_path =
        elim (Stat-cases (os.fstatat at_fdcwd root_path (not context.follow_symlinks))) [
          | inl (e, missing) ↦ ground arith
          | inr (st, stated) ↦ ground arith
        ]

    -- The context and the return value after a root.
    handle_root_lem :
        CoreLib.IsLawful C
        → (r : ParallelRun) (i : ℕ) (root_path : Bytes)
        → ((handle_root C os A schedule i root_path r).1.context
            ≡ context_after C os schedule r.context root_path)
          × ((handle_root C os A schedule i root_path r).0
              ≡ all_stated os r.context.follow_symlinks (root_path ∷ []))
    unfolding handle_root
    handle_root_lem lawful r i root_path =
        elim (Stat-cases (os.fstatat at_fdcwd root_path (not r.context.follow_symlinks))) [
          | inl (e, missing) ↦ (ground arith, ground arith)
          | inr (st, stated) ↦
              let measured = lawful.length_law root_path in
              let start : ParallelRun = record r { context = claim_device r.context st } in
              let kept =
                stated-context start i (strip_slashes root_path (length root_path)) root_path st in
              (ground arith, ground arith)
        ]

    pub roots-Collected :
        CoreLib.IsLawful C
        → (roots : List Bytes) (r : ParallelRun) (found : Found) (i : ℕ) → Collected r found
        → ((handle_roots C os A schedule i roots r).0
            ≡ all_stated os r.context.follow_symlinks roots)
          × Collected
              (handle_roots C os A schedule i roots r).1
              (both found (found_from C os schedule r.context i roots))
    unfolding handle_roots found_from
    roots-Collected lawful [] r found i c = (refl, Collected-at refl (sym (both-nothing found)) c)
    roots-Collected lawful (root_path ∷ rest) r found i c =
        let next = (handle_root C os A schedule i root_path r).1 in
        let (context, ok) = handle_root_lem lawful r i root_path in
        let here = found_at C os schedule r.context i root_path in
        let (all_ok, collected) =
          roots-Collected lawful rest next (both found here) (i + 1)
            (handle-Collected lawful r found i root_path c) in
        (
          (ground (
            arith,
            ok,
            all_ok,
            ap (λ (b : Bool). all_stated os b rest)
                (ap (λ (x : ParallelContext). x.follow_symlinks) context
                  ∙ context_after-follow_symlinks r.context root_path),
          )),
          Collected-at refl
              (ap
                  (λ (x : ParallelContext).
                    both (both found here) (found_from C os schedule x (i + 1) rest))
                  context
                ∙ both_assoc found here (
                    found_from C os schedule (context_after C os schedule r.context root_path)
                      (i + 1) rest))
              collected,
        )

    pub all-Collected :
        CoreLib.IsLawful C
        → (roots : List Bytes) (r : ParallelRun) (found : Found) → Collected r found
        → ((handle_all C os A schedule roots r).0
            ≡ all_stated os r.context.follow_symlinks (or_default roots))
          × Collected
              (handle_all C os A schedule roots r).1
              (both found (found_in_all C os schedule r.context roots))
    unfolding handle_all found_in_all
    all-Collected lawful [] r found c =
        let here = found_at C os schedule r.context 0 (codes ".") in
        (
          (handle_root_lem lawful r 0 (codes ".")).1,
          Collected-at refl (ap (both found) (sym (both-nothing here)))
              (handle-Collected lawful r found 0 (codes ".") c),
        )
    all-Collected lawful (root_path ∷ rest) r found c =
        roots-Collected lawful (root_path ∷ rest) r found 0 c
