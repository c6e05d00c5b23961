-- ===== src/Parallel/Order.antt =====
-- The parallel walk of src/discovery/bc_seek_discovery_walk_parallel.c under two schedules.
use mathlib.Core.List.{Perm, Permᴰ}
use mathlib.Core.List.Perm
use mathlib.Core.Logic.{∥∥₁_elim, ∥∥₁_prop}
use mathlib.Core.Path.{subst}
use bc_seek.Base.{
  ℕ, ◌+◌, ◌≤◌, ◌<◌, ◌≡◌, inl, inr, ◌∙◌, refl, ap, sym, Bool, true, not, ◌&&◌, ◌==◌, some, List, [],
  ◌∷◌, ◌++◌, append_assoc, append-nil, Bytes, length, arith, Bool-cases, codes,
}
use bc_seek.CoreLib
use bc_seek.CoreLib.{BcCore}
use bc_seek.Types.{directory, entry_type_equal}
use bc_seek.Os.{Os, Stat, at_fdcwd}
use bc_seek.Filter.{type_of_stat}
use bc_seek.Output.{Writer, Output}
use bc_seek.Output.Records.{print_all}
use bc_seek.Walk.{WalkConfig}
use bc_seek.Walk.Cases.{Stat-cases}
use bc_seek.Parallel.{Writev, max_iovec}
use bc_seek.Parallel.Written
use bc_seek.Parallel.Visit.{Arrays, IsReliable, WalkEntry, ParallelContext, Event, visited, failed}
use bc_seek.Parallel.Records.{perm_front}
use bc_seek.Parallel.Interleave.{AllServed, taken, accepted}
use bc_seek.Parallel.Found.{
  found_at, context_after, found_from, found_in_all, own_of_root, under_root, all_stated,
  or_default,
}
use bc_seek.Parallel.Roots.{
  Schedule, Concurrency, Walked, claim_device, walk_with_workers, strip_slashes,
}
use bc_seek.Parallel.Complete.{found_by_walk, walk_with_workers-found, print_all-length_perm}

-- The entries visited, whoever visits them.
abbrev pub entries : List Event → List WalkEntry
entries [] = []
entries (visited worker entry ∷ events) = entry ∷ entries events
entries (failed path errno_value ∷ events) = entries events

-- For each root both schedules visit the same entries, in any order and by any worker.
abbrev pub SameEntries : Schedule → Schedule → Type 0
SameEntries first second =
    (i : ℕ) (root_path : Bytes) (m : ℕ)
    → Perm (entries (first i root_path m)) (entries (second i root_path m))

module _ (C : BcCore) (os : Os) (context : ParallelContext) where
  gathered : List WalkEntry → List Bytes
  gathered [] = []
  gathered (entry ∷ rest) = taken C os context entry ++ gathered rest

  accepted-entries :
      (events : List Event) → accepted C os context events ≡ gathered (entries events)
  unfolding gathered
  accepted-entries [] = refl
  accepted-entries (visited worker entry ∷ events) =
      ap (λ (ps : List Bytes). taken C os context entry ++ ps) (accepted-entries events)
  accepted-entries (failed path errno_value ∷ events) = accepted-entries events

  gathered-permᴰ : {xs ys : List WalkEntry} → Permᴰ xs ys → Perm (gathered xs) (gathered ys)
  unfolding gathered
  gathered-permᴰ Permᴰ.nil = Perm.refl []
  gathered-permᴰ (Permᴰ.cons {a = a} {b = b} {l₁ = xs} {l₂ = ys} e p) =
      subst (λ (c : WalkEntry). Perm (gathered (a ∷ xs)) (gathered (c ∷ ys))) e
        (Perm.append_left (taken C os context a) (gathered-permᴰ p))
  gathered-permᴰ (Permᴰ.swap {a = x} {b = y} {a' = x'} {b' = y'} {l = l} e d) =
      let tx = taken C os context x in
      let ty = taken C os context y in
      let exchanged : Perm (gathered (x ∷ y ∷ l)) (gathered (y ∷ x ∷ l)) =
        subst (λ (ps : List Bytes). Perm (tx ++ (ty ++ gathered l)) ps)
          (append_assoc ty tx (gathered l)) (perm_front tx ty (gathered l)) in
      subst (λ (c : WalkEntry). Perm (gathered (x ∷ y ∷ l)) (gathered (c ∷ y' ∷ l))) d
        (subst (λ (c : WalkEntry). Perm (gathered (x ∷ y ∷ l)) (gathered (y ∷ c ∷ l))) e exchanged)
  gathered-permᴰ (Permᴰ.trans p q) = Perm.trans (gathered-permᴰ p) (gathered-permᴰ q)

  accepted-perm :
      (first second : List Event)
      → Perm (entries first) (entries second)
      → Perm (accepted C os context first) (accepted C os context second)
  accepted-perm first second p =
      subst (λ (ps : List Bytes). Perm ps (accepted C os context second))
        (sym (accepted-entries first))
        (subst (λ (ps : List Bytes). Perm (gathered (entries first)) ps)
          (sym (accepted-entries second)) (∥∥₁_elim p ∥∥₁_prop (λ d. gathered-permᴰ d)))

module _ (C : BcCore) (os : Os) (first second : Schedule) (same : SameEntries first second) where
  under_root-perm :
      (context : ParallelContext) (i : ℕ) (root_path : Bytes) (st : Stat)
      → Perm
          (under_root C os first context i root_path st).matches
          (under_root C os second context i root_path st).matches
  under_root-perm context i root_path st =
      elim (Bool-cases (not (entry_type_equal (type_of_stat st) directory))) [
        | inl other ↦ rw (under_root, other) (Perm.refl [])
        | inr folder ↦
            elim (Bool-cases
              (context.predicate.has_max_depth && (context.predicate.max_depth == 0))) [
                | inl shallow ↦ rw (under_root, folder, shallow) (Perm.refl [])
                | inr deep ↦
                    rw (under_root, folder, deep)
                      (accepted-perm C os context
                        (first i root_path (strip_slashes root_path (length root_path)))
                        (second i root_path (strip_slashes root_path (length root_path)))
                        (same i root_path (strip_slashes root_path (length root_path))))
              ]
      ]

  found_at-perm :
      (context : ParallelContext) (i : ℕ) (root_path : Bytes)
      → Perm
          (found_at C os first context i root_path).matches
          (found_at C os second context i root_path).matches
  found_at-perm context i root_path =
      elim (Stat-cases (os.fstatat at_fdcwd root_path (not context.follow_symlinks))) [
        | inl (e, missing) ↦ rw (found_at, missing) (Perm.refl [])
        | inr (st, found) ↦
            rw (found_at, found)
              (Perm.append_left
                (own_of_root C os first (claim_device context st) root_path st).matches
                (under_root-perm (claim_device context st) i root_path st))
      ]

  found_from-perm :
      (roots : List Bytes) (context : ParallelContext) (i : ℕ)
      → Perm
          (found_from C os first context i roots).matches
          (found_from C os second context i roots).matches
  unfolding found_from
  found_from-perm [] context i = Perm.refl []
  found_from-perm (root_path ∷ rest) context i =
      Perm.trans
        (Perm.append_left (found_at C os first context i root_path).matches
          (found_from-perm rest (context_after C os first context root_path) (i + 1)))
        (Perm.append_right
          (found_from C os second (context_after C os first context root_path) (i + 1) rest).matches
          (found_at-perm context i root_path))

  found_in_all-perm :
      (context : ParallelContext) (roots : List Bytes)
      → Perm
          (found_in_all C os first context roots).matches
          (found_in_all C os second context roots).matches
  unfolding found_in_all
  found_in_all-perm context [] = found_from-perm (codes "." ∷ []) context 0
  found_in_all-perm context (root_path ∷ rest) = found_from-perm (root_path ∷ rest) context 0

module _ (C : BcCore) (lawful : CoreLib.IsLawful C) (os : Os) (A : Arrays) (R : IsReliable A)
    (first second : Schedule) (same : SameEntries first second) (W : Writer) (writev : Writev)
    (bound : ℕ) (K : Written.IsLawful writev bound) (iov_max : ℕ) (room : 0 < iov_max) (fuel : ℕ)
    (k : WalkConfig) where
  whole :
      (text rest printed : Bytes) (walk_ok stated merge_ok : Bool)
      → text ++ rest ≡ printed
      → Written.AllOrFailed writev iov_max merge_ok rest
      → walk_ok ≡ (stated && merge_ok)
      → walk_ok ≡ true
      → text ≡ printed
  whole text rest printed walk_ok stated merge_ok whole_text complete result succeeded =
      elim complete [
        | inl (broken, failing) ↦ absurd (ground (arith, broken, result, succeeded))
        | inr (succeeds, none_left) ↦
            sym (append-nil text) ∙ ap (λ (s : Bytes). text ++ s) (sym none_left) ∙ whole_text
      ]

  -- Two schedules that visit the same entries for each root, in any order and by any workers: both
  -- walks return, and where both succeed they write the same records, in some order each. The
  -- hypotheses are those of the walk under one schedule, for both.
  pub walk_with_workers-order :
      (concurrency : Concurrency) (roots : List Bytes) (output : Output W)
      → ((i : ℕ) (root_path : Bytes) (m : ℕ)
          → AllServed concurrency.slot_count (first i root_path m))
      → ((i : ℕ) (root_path : Bytes) (m : ℕ)
          → AllServed concurrency.slot_count (second i root_path m))
      → concurrency.register_slot ≡ true
      → concurrency.slot_count < max_iovec
      → (W.flush output.writer).0 ≡ true
      → bound
          + length (
              print_all output.separator
                (found_by_walk C os A first W writev iov_max fuel k concurrency roots
                  output).matches)
        ≤ fuel
      → (v : Walked W) × (w : Walked W) × (walk_with_workers C os A first W writev iov_max fuel k
            concurrency roots output
          ≡ some v)
        × (walk_with_workers C os A second W writev iov_max fuel k concurrency roots output
            ≡ some w)
        × (v.walk_ok ≡ true
            → w.walk_ok ≡ true
            → (ps : List Bytes) × (qs : List Bytes) × Perm ps qs
              × (v.direct_text ≡ print_all output.separator ps)
              × (w.direct_text ≡ print_all output.separator qs))
  walk_with_workers-order concurrency roots output first_served second_served registered few flushed
        enough =
      let b = output.separator in
      let found = found_by_walk C os A first W writev iov_max fuel k concurrency roots output in
      let other = found_by_walk C os A second W writev iov_max fuel k concurrency roots output in
      let agree : Perm found.matches other.matches =
        found_in_all-perm C os first second same _ roots in
      let (v, ps, rest, merge_ok, returns, merged, perm, text, complete, result, reported) =
        walk_with_workers-found C lawful os A R first W writev bound K iov_max room fuel k
          concurrency roots output first_served registered few flushed enough in
      let (
        w, qs, rest', merge_ok', returns', merged', perm', text', complete', result', reported',
      ) =
        walk_with_workers-found C lawful os A R second W writev bound K iov_max room fuel k
          concurrency roots output second_served registered few flushed
          (omega (arith, enough, print_all-length_perm b agree)) in
      let stated = all_stated os k.follow_symlinks (or_default roots) in
      (
        v,
        w,
        returns,
        returns',
        λ first_ok second_ok. (
          ps,
          qs,
          Perm.trans perm (Perm.trans agree (Perm.symm perm')),
          whole v.direct_text rest (print_all b ps) v.walk_ok stated merge_ok text complete result
              first_ok,
          whole w.direct_text rest' (print_all b qs) w.walk_ok stated merge_ok' text' complete'
              result' second_ok,
        ),
      )
