-- ===== src/Walk/Refines.antt =====
-- The directories of a sequential walk, beside the matches that Walk/Spec lists for them.
use bc_seek.Base.{
  ℕ, zero, suc, ◌≡◌, ◌∙◌, refl, sym, Bool, true, false, none, some, List, [], ◌∷◌, Bytes, arith,
  Option-cases, inl, inr, not,
}
use bc_seek.CoreLib.{BcCore}
use bc_seek.Os.{Os, DirEntry, StreamEnd, end_of_stream, stream_error}
use bc_seek.Output.{Writer, IsLawful}
use bc_seek.Walk.{enomem, WalkConfig, WalkState, append_error, should_stop}
use bc_seek.Walk.Iterate.{Outcome, iterate, iterate_entries, process_directory}
use bc_seek.Walk.Views.{
  stopped, hidden, too_long, exhausted, visited, broken, visit_entry-view, iterate-view,
}
use bc_seek.Walk.Spec.{matches_in, matches_below}
use bc_seek.Walk.Adds.{IsReliable, Adds, Adds-append, Adds-at, Adds-none}
use bc_seek.Walk.Cuts.{Cut, Cut-more, Ends, Goes, Ends-after, Ends-at, Goes-at, should_stop-cases}
use bc_seek.Walk.Rounds.{true_ne_false, Known, Known-Adds, Lists, entry-Continues}

module _ (C : BcCore) (os : Os) (W : Writer) (k : WalkConfig) (L : IsLawful W)
    (R : IsReliable W) where
  module _ (resolved : Bool) (root_device : ℕ) where
    module _ (descend : ℕ → Bytes → ℕ → WalkState W → Outcome W)
        (below : ℕ → Bytes → ℕ → List Bytes)
        (lists : Lists C os W k L R resolved root_device descend below) where
      -- A poll, by its answer.
      polled-Goes :
          {s t : WalkState W} {stop : Bool}
          → Known C os W k L R resolved root_device s
          → should_stop k s ≡ (stop, t)
          → Goes W L k (not stop) s t []
      polled-Goes {s = s} known h = elim (should_stop-cases W L k s known.0) [
        | inl (go, polled) ↦ Goes-at W L k (ground arith) (ground arith) refl (inl (refl, polled))
        | inr (stop, cut) ↦ Goes-at W L k (ground arith) (ground arith) refl (inr (refl, cut))
      ]

      on-Adds : {s t : WalkState W} {ps : List Bytes} → Goes W L k true s t ps → Adds W L s t ps
      on-Adds (inl (on, added)) = added
      on-Adds (inr (off, cut)) = absurd (true_ne_false C os W k L R off)

      off-Cut : {s t : WalkState W} {ps : List Bytes} → Goes W L k false s t ps → Cut W L k s t ps
      off-Cut (inl (on, added)) = absurd (true_ne_false C os W k L R (sym on))
      off-Cut (inr (off, cut)) = cut

      iterate-end :
          (fd : ℕ) (path : Bytes) (depth : ℕ) (ending : StreamEnd) (s : WalkState W) (ok : Bool)
          (t : WalkState W)
          → Known C os W k L R resolved root_device s
          → iterate C os W k descend fd path depth ending [] s ≡ some (ok, t)
          → Ends W L k ok s t []
      unfolding iterate
      iterate-end fd path depth end_of_stream s ok t known h =
          elim (should_stop-cases W L k s known.0) [
            | inl (go, polled) ↦ inl (Adds-at W L (ground arith) refl polled)
            | inr (stop, cut) ↦ Ends-at W L k (ground arith) refl (inr (ground arith, cut))
          ]
      iterate-end fd path depth (stream_error e) s ok t known h =
          elim (should_stop-cases W L k s known.0) [
            | inl (go, polled) ↦
                let failed : append_error (should_stop k s).1 path (some e) ≡ t = ground arith in
                inl (
                  Adds-at W L failed refl (
                    Adds-append W L [] [] polled (
                      Adds-none W L {t = append_error (should_stop k s).1 path (some e)} refl
                        polled.running refl refl)))
            | inr (stop, cut) ↦ Ends-at W L k (ground arith) refl (inr (ground arith, cut))
          ]

      iterate-Lists :
          (fd : ℕ) (path : Bytes) (depth : ℕ) (ending : StreamEnd) (entries : List DirEntry)
          (s : WalkState W) (ok : Bool) (t : WalkState W)
          → Known C os W k L R resolved root_device s
          → iterate C os W k descend fd path depth ending entries s ≡ some (ok, t)
          → Ends W L k ok s t (matches_in C os W k below resolved root_device fd path depth entries)
      unfolding matches_in
      iterate-Lists fd path depth ending [] s ok t known h =
          iterate-end fd path depth ending s ok t known h
      iterate-Lists fd path depth ending (e ∷ entries) s ok t known h =
          elim (iterate-view C os W k descend fd path depth ending e entries s) [
            | stopped u stop same ↦
                Ends-at W L k (ground arith) refl
                  (inr (ground arith, Cut-more W L k [] _ (off-Cut (polled-Goes known stop))))
            | hidden u go dot same ↦
                let polled = on-Adds (polled-Goes known go) in
                Ends-at W L k refl (ground arith) (
                  Ends-after W L k [] _ polled (
                    iterate-Lists fd path depth ending entries u ok t
                      (Known-Adds C os W k L R resolved root_device known polled) (sym same ∙ h)))
            | too_long u go long same ↦
                let polled = on-Adds (polled-Goes known go) in
                Ends-at W L k refl (ground arith) (
                  Ends-after W L k [] _ polled (
                    iterate-Lists fd path depth ending entries u ok t
                      (Known-Adds C os W k L R resolved root_device known polled) (sym same ∙ h)))
            | exhausted u child fits out same ↦ absurd (cc)
            | visited u child v go plain fits on same ↦
                let polled = on-Adds (polled-Goes known go) in
                let here = on-Adds (
                  entry-Continues C os W k L R resolved root_device descend below lists fd child
                    depth e u (Known-Adds C os W k L R resolved root_device known polled)
                    (visit_entry-view C os W k descend fd child depth e u) true v on) in
                let first = Adds-append W L [] _ polled here in
                Ends-at W L k refl (ground arith) (
                  Ends-after W L k _ _ first (
                    iterate-Lists fd path depth ending entries v ok t
                      (Known-Adds C os W k L R resolved root_device known first) (sym same ∙ h)))
            | broken u child v go plain fits off same ↦
                let polled = on-Adds (polled-Goes known go) in
                let cut = off-Cut (
                  entry-Continues C os W k L R resolved root_device descend below lists fd child
                    depth e u (Known-Adds C os W k L R resolved root_device known polled)
                    (visit_entry-view C os W k descend fd child depth e u) false v off) in
                let rest = matches_in C os W k below resolved root_device fd path depth entries in
                Ends-at W L k (ground arith) (ground arith)
                  (Ends-after W L k [] _ polled (inr (ground arith, Cut-more W L k _ rest cut)))
          ]

      entries-Lists :
          (fd : ℕ) (path : Bytes) (depth : ℕ) (s : WalkState W) (ok : Bool) (t : WalkState W)
          → Known C os W k L R resolved root_device s
          → iterate_entries C os W k descend fd path depth s ≡ some (ok, t)
          → Ends W L k ok s t (elim (os.read_dir fd) [
            | none ↦ []
            | some stream ↦
                matches_in C os W k below resolved root_device fd path depth stream.entries
          ])
      unfolding iterate_entries
      entries-Lists fd path depth s ok t known h = elim (Option-cases (os.read_dir fd)) [
        | inl unread ↦ inl (
            Adds-at W L (ground arith) (ground arith) (
              Adds-none W L {s = s} {t = append_error s path (some enomem)} refl known.0 refl refl))
        | inr (stream, found) ↦ Ends-at W L k refl (ground arith) (
            iterate-Lists fd path depth stream.ending stream.entries s ok t known
              (rw (found, iterate_entries) at h))
      ]

    -- A directory adds what is listed for it, or is cut, at every fuel that gives a result.
    pub directory-Lists :
        (fuel : ℕ)
        → Lists C os W k L R resolved root_device
            (process_directory C os W k fuel)
            (matches_below C os W k resolved root_device fuel)
    unfolding process_directory matches_below
    directory-Lists zero fd path depth s ok t known h = absurd (cc)
    directory-Lists (suc fuel) fd path depth s ok t known h =
        entries-Lists (process_directory C os W k fuel)
          (matches_below C os W k resolved root_device fuel) (directory-Lists fuel) fd path depth s
          ok t known h
