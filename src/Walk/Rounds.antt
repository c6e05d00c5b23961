-- ===== src/Walk/Rounds.antt =====
-- One entry of a directory in a sequential walk, beside the matches that Walk/Spec lists for it.
use bc_seek.Base.{
  ℕ, ◌+◌, ◌≡◌, ◌≢◌, ◌∙◌, refl, ap, Bool, true, false, some, List, [], append-nil, Bytes, arith, inl,
  inr,
}
use bc_seek.CoreLib.{BcCore}
use bc_seek.Os.{Os, DirEntry}
use bc_seek.Filter.{Candidate}
use bc_seek.Filter.Evaluate.{evaluate}
use bc_seek.Output.{Writer, IsLawful}
use bc_seek.Walk.{WalkConfig, WalkState, append_error, entry_candidate, push_fd, close_dir}
use bc_seek.Walk.Iterate.{Outcome, after_descend}
use bc_seek.Walk.Views.{SubdirView, stayed, refused, lost, entered, EntryView, unwritten, judged}
use bc_seek.Walk.Spec.{own_match, matches_inside, matches_at}
use bc_seek.Walk.Adds.{
  IsReliable, evaluate-SamePlace, Adds, Adds-append, Adds-at, Adds-none, emit_if_match-Adds,
}
use bc_seek.Walk.Cuts.{
  Cut-between, Ends, Goes, Goes-after, Goes-at, should_stop-cases, should_stop-stopping,
}

module _ (C : BcCore) (os : Os) (W : Writer) (k : WalkConfig) (L : IsLawful W)
    (R : IsReliable W) where
  pub true_ne_false : true ≢ false
  true_ne_false h = ground arith

  -- After a directory that is complete the loop goes on, or is cut by the poll.
  after_descend-Goes :
      (fd : ℕ) (ok : Bool) (s : WalkState W)
      → s.stop_requested ≡ false
      → Goes W L k (after_descend C os W k fd (ok, s)).0 s (after_descend C os W k fd (ok, s)).1 []
  unfolding after_descend
  after_descend-Goes fd true s h = inl (refl, Adds-none W L refl h refl refl)
  after_descend-Goes fd false s h =
      let closed = Adds-none W L {s = s} {t = close_dir s fd} refl h refl refl in
      elim (should_stop-cases W L k (close_dir s fd) h) [
        | inl (go, polled) ↦ Goes-after W L k [] [] closed (inl (ground arith, polled))
        | inr (stop, cut) ↦ Goes-after W L k [] [] closed (inr (ground arith, cut))
      ]

  -- After one that is cut the loop ends.
  after_descend-stopping :
      (fd : ℕ) (s : WalkState W)
      → s.stop_requested ≡ true
      → after_descend C os W k fd (false, s) ≡ (false, close_dir s fd)
  unfolding after_descend
  after_descend-stopping fd s h = ground (arith, should_stop-stopping W L k (close_dir s fd) h)

  module _ (resolved : Bool) (root_device : ℕ) where
    abbrev pub Known : WalkState W → Type 0
    Known s =
        (s.stop_requested ≡ false)
        × (s.root_device_resolved ≡ resolved)
        × (s.root_device ≡ root_device)

    pub Known-Adds : {s t : WalkState W} {ps : List Bytes} → Known s → Adds W L s t ps → Known t
    Known-Adds (h, r, d) a = (a.running, a.same_resolved ∙ r, a.same_device ∙ d)

    -- The result of a directory adds what is listed for it, or is cut.
    abbrev pub Lists :
        (ℕ → Bytes → ℕ → WalkState W → Outcome W) → (ℕ → Bytes → ℕ → List Bytes) → Type 0
    Lists descend below =
        (fd : ℕ) (path : Bytes) (depth : ℕ) (s : WalkState W) (ok : Bool) (t : WalkState W)
        → Known s
        → descend fd path depth s ≡ some (ok, t)
        → Ends W L k ok s t (below fd path depth)

    module _ (descend : ℕ → Bytes → ℕ → WalkState W → Outcome W)
        (below : ℕ → Bytes → ℕ → List Bytes) (lists : Lists descend below) where
      -- A round goes on and adds `ps`, or is cut.
      abbrev pub Continues : WalkState W → Outcome W → List Bytes → Type 0
      Continues s r ps =
          (go_on : Bool) (t : WalkState W) → r ≡ some (go_on, t) → Goes W L k go_on s t ps

      entered-Goes :
          (sub : ℕ) (child : Bytes) (depth : ℕ) (s : WalkState W) (done : Bool) (u : WalkState W)
          → Known s
          → descend sub child depth (push_fd s sub) ≡ some (done, u)
          → Goes W L k
              (after_descend C os W k sub (done, u)).0
              s
              (after_descend C os W k sub (done, u)).1
              (below sub child depth)
      entered-Goes sub child depth s done u known called =
          let opening = Adds-none W L {s = s} {t = push_fd s sub} refl known.0 refl refl in
          let ps = below sub child depth in
          elim (lists sub child depth (push_fd s sub) done u known called) [
            | inl added ↦ Goes-at W L k refl refl (append-nil ps) (
                Goes-after W L k ps [] (Adds-append W L [] ps opening added)
                  (after_descend-Goes sub done u added.running))
            | inr (failed, cut) ↦
                let same : after_descend C os W k sub (done, u) ≡ (false, close_dir u sub) =
                  ap (λ (b : Bool). after_descend C os W k sub (b, u)) failed
                  ∙ after_descend-stopping sub u cut.stopping in
                inr (
                  ground (arith, same),
                  Cut-between W L k {t = u} refl (ground (arith, same))
                      (ground (arith, same, cut.stopping)) cut,
                )
          ]

      subdir-Continues :
          (fd : ℕ) (child : Bytes) (e : DirEntry) (c : Candidate) (s : WalkState W) {r : Outcome W}
          → Known s
          → SubdirView C os W k descend fd child e c s r
          → Continues s r (matches_inside C os W k below resolved root_device fd child c.depth e c)
      unfolding matches_inside
      subdir-Continues fd child e c s known (stayed stay same) go_on t h =
          let nothing : []
              ≡ matches_inside C os W k below resolved root_device fd child c.depth e c =
            ground arith in
          inl (
            ground arith,
            Adds-at W L (ground arith) nothing
                (Adds-none W L {s = s} {t = s} refl known.0 refl refl),
          )
      subdir-Continues fd child e c s known (refused number go shut same) go_on t h =
          let nothing : []
              ≡ matches_inside C os W k below resolved root_device fd child c.depth e c =
            ground arith in
          inl (
            ground arith,
            Adds-at W L (ground arith) nothing
                (Adds-none W L {s = s} {t = append_error s child number} refl known.0 refl refl),
          )
      subdir-Continues fd child e c s known (lost sub out same) go_on t h = absurd (cc)
      subdir-Continues fd child e c s known (entered sub done u go found called same) go_on t h =
          let inside : below sub child c.depth
              ≡ matches_inside C os W k below resolved root_device fd child c.depth e c =
            ground arith in
          Goes-at W L k (ground arith) (ground arith) inside
            (entered-Goes sub child c.depth s done u known called)

      pub entry-Continues :
          (fd : ℕ) (child : Bytes) (depth : ℕ) (e : DirEntry) (s : WalkState W) {r : Outcome W}
          → Known s
          → EntryView C os W k descend fd child depth e s r
          → Continues s r (matches_at C os W k below resolved root_device fd child depth e)
      unfolding matches_at entry_candidate
      entry-Continues fd child depth e s known (unwritten c u found same) go_on t h =
          let (emitted, kept, added) =
            emit_if_match-Adds W L R os k s (entry_candidate k fd child depth e) refl known.0 in
          absurd (cc)
      entry-Continues fd child depth e s known (judged c u found view) go_on t h =
          let candidate = entry_candidate k fd child depth e in
          let (emitted, same, added) = emit_if_match-Adds W L R os k s candidate refl known.0 in
          let (path, path_length, deep) = evaluate-SamePlace os k.predicate candidate in
          let here : Adds W L s u (own_match os k candidate) =
            Adds-at W L (ground arith) refl added in
          let judged_same : c ≡ (evaluate os k.predicate candidate).1 = ground arith in
          let deeper : c.depth ≡ depth + 1 = ground arith in
          Goes-after W L k _ _ here (
            Goes-at W L k refl refl
              (ap (λ (d : ℕ). matches_inside C os W k below resolved root_device fd child d e c)
                  deeper
                ∙ ap
                    (λ (x : Candidate).
                      matches_inside C os W k below resolved root_device fd child (depth + 1) e x)
                    judged_same)
              (subdir-Continues fd child e c u (Known-Adds known here) view go_on t h))
