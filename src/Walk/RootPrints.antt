-- ===== src/Walk/RootPrints.antt =====
-- One root of a sequential walk, beside the matches that Walk/Spec lists for it.
use bc_seek.Base.{
  ℕ, ◌≡◌, refl, Bool, false, not, ◌&&◌, some, List, [], ◌∷◌, ◌++◌, ◌⊎◌, Bytes, length, leb, ◌==◌,
  arith, Bool-cases, Option-cases, inl, inr,
}
use mathlib.Core.Path.{subst}
use bc_seek.CoreLib
use bc_seek.CoreLib.{BcCore}
use bc_seek.Types.{directory, entry_type_equal}
use bc_seek.Os.{Os, Stat, at_fdcwd, open_error, opened, stat_ok}
use bc_seek.Filter.{type_of_stat}
use bc_seek.Output.{Writer, IsLawful, Output}
use bc_seek.Walk.{
  WalkConfig, WalkState, append_error, emit_if_match, push_fd, close_dir, path_capacity,
  enametoolong,
}
use bc_seek.Walk.Iterate.{process_directory}
use bc_seek.Walk.Cases.{Open-cases, Stat-cases}
use bc_seek.Walk.Roots.{
  root_candidate, resolve_device, walk_fuel, descend_root, visit_stated_root, visit_root,
}
use bc_seek.Walk.Spec.{own_match, matches_below, matches_under, matches_of_root, matches_of_roots}
use bc_seek.Walk.Adds.{
  IsReliable, Adds-silent, Printed, Adds-append, Adds-at, Adds-none, emit_if_match-Adds,
}
use bc_seek.Walk.Cuts.{Cut, Cut-more, Cut-at, Cut-between, Ends, Ends-after, Ends-at}
use bc_seek.Walk.Refines.{directory-Lists}

module _ (C : BcCore) (os : Os) (W : Writer) (k : WalkConfig) (L : IsLawful W)
    (R : IsReliable W) where
  closed-Ends :
      (root_path : Bytes) (fd : ℕ) (s : WalkState W) (ok : Bool) (u : WalkState W)
      → s.stop_requested ≡ false
      → process_directory C os W k walk_fuel fd root_path 0 (push_fd s fd) ≡ some (ok, u)
      → Ends W L k ok s
          (close_dir u fd)
          (matches_below C os W k s.root_device_resolved s.root_device walk_fuel fd root_path 0)
  closed-Ends root_path fd s ok u h done =
      let opened_here = Adds-none W L {s = s} {t = push_fd s fd} refl h refl refl in
      elim (directory-Lists C os W k L R s.root_device_resolved s.root_device walk_fuel fd root_path
        0 (push_fd s fd) ok u (h, refl, refl) done) [
          | inl below ↦
              let closed =
                Adds-none W L {s = u} {t = close_dir u fd} refl below.running refl refl in
              inl (Adds-silent W L _ (Adds-append W L [] _ opened_here below) closed)
          | inr (failed, cut) ↦ inr (failed, Cut-between W L k refl refl cut.stopping cut)
        ]

  descend-Ends :
      (root_path : Bytes) (s : WalkState W) (ok : Bool) (t : WalkState W)
      → s.stop_requested ≡ false
      → descend_root C os W k root_path s ≡ some (ok, t)
      → Ends W L k ok s t (elim (os.openat at_fdcwd root_path (not k.follow_symlinks)) [
        | open_error e ↦ []
        | opened fd ↦
            matches_below C os W k s.root_device_resolved s.root_device walk_fuel fd root_path 0
      ])
  unfolding descend_root
  descend-Ends root_path s ok t h r =
      elim (Open-cases (os.openat at_fdcwd root_path (not k.follow_symlinks))) [
        | inl (e, failed) ↦ inl (
            Adds-at W L (ground arith) (ground arith)
              (Adds-none W L {s = s} {t = append_error s root_path (some e)} refl h refl refl))
        | inr (fd, found) ↦
            elim (Option-cases
              (process_directory C os W k walk_fuel fd root_path 0 (push_fd s fd))) [
                | inl out ↦ absurd (ground arith)
                | inr ((walk_ok, u), done) ↦ Ends-at W L k (ground arith) (ground arith) (
                    subst
                      (λ (b : Bool). Ends W L k b s (close_dir u fd) (
                        matches_below C os W k s.root_device_resolved s.root_device walk_fuel fd
                          root_path 0))
                      (ground arith) (closed-Ends root_path fd s walk_ok u h done))
              ]
      ]

  under-Ends :
      (root_path : Bytes) (st : Stat) (s : WalkState W) (ok : Bool) (t : WalkState W)
      → s.stop_requested ≡ false
      → visit_stated_root C os W k root_path (length root_path) st s ≡ some (ok, t)
      → Ends W L k ok s t (
          own_match os k (root_candidate C root_path (length root_path) st)
          ++ matches_under C os W k s.root_device_resolved s.root_device root_path st)
  unfolding visit_stated_root matches_under root_candidate
  under-Ends root_path st s ok t h r =
      let candidate = root_candidate C root_path (length root_path) st in
      let (emitted, judged, added) = emit_if_match-Adds W L R os k s candidate refl h in
      let u = (emit_if_match os W k s candidate).2 in
      Ends-after W L k _ _ added
        (elim (Bool-cases (
          entry_type_equal (type_of_stat st) directory
          && not (k.predicate.has_max_depth && (k.predicate.max_depth == 0)))) [
            | inl inside ↦
                Ends-at W L k refl (ground (arith, added.same_resolved, added.same_device))
                  (descend-Ends root_path u ok t added.running (ground arith))
            | inr outside ↦ inl (
                Adds-at W L (ground arith) (ground arith)
                  (Adds-none W L {s = u} {t = u} refl added.running refl refl))
          ])

  root-Ends :
      CoreLib.IsLawful C
      → (root_path : Bytes) (s : WalkState W) (ok : Bool) (t : WalkState W) (st : Stat)
      → s.stop_requested ≡ false
      → os.fstatat at_fdcwd root_path (not k.follow_symlinks) ≡ stat_ok st
      → visit_root C os W k root_path s ≡ some (ok, t)
      → Ends W L k ok (resolve_device k s st) t (
          matches_of_root C os W k
            (resolve_device k s st).root_device_resolved
            (resolve_device k s st).root_device
            root_path
            st)
  unfolding visit_root matches_of_root
  root-Ends lawful root_path s ok t st h found r =
      let u = resolve_device k s st in
      let goes_on : u.stop_requested ≡ false = ground arith in
      let measured = lawful.length_law root_path in
      elim (Bool-cases (leb path_capacity (length root_path))) [
        | inl long ↦ inl (
            Adds-at W L (ground arith) (ground arith) (
              Adds-none W L {s = u} {t = append_error u root_path (some enametoolong)} refl goes_on
                refl refl))
        | inr fits ↦
            Ends-at W L k refl (ground arith)
              (under-Ends root_path st u ok t goes_on (ground arith))
      ]

  -- One root, whether it has a stat or not.
  pub root-Printed :
      CoreLib.IsLawful C
      → (root_path : Bytes) (rest : List Bytes) (s : WalkState W) (ok : Bool) (t : WalkState W)
      → s.stop_requested ≡ false
      → visit_root C os W k root_path s ≡ some (ok, t)
      → ((ps : List Bytes) × Printed W L s.output t.output ps
          × (t.stop_requested ≡ false)
          × (matches_of_roots C os W k s.root_device_resolved s.root_device (root_path ∷ rest)
              ≡ ps ++ matches_of_roots C os W k t.root_device_resolved t.root_device rest))
        ⊎ Cut W L k s t
            (matches_of_roots C os W k s.root_device_resolved s.root_device (root_path ∷ rest))
  unfolding matches_of_roots
  root-Printed lawful root_path rest s ok t h r =
      elim (Stat-cases (os.fstatat at_fdcwd root_path (not k.follow_symlinks))) [
        | inl (e, failed) ↦
            let lost : append_error s root_path (some e) ≡ t = unfold visit_root in ground arith in
            let none_of =
              Adds-at W L lost refl
                (Adds-none W L {s = s} {t = append_error s root_path (some e)} refl h refl refl) in
            inl (
              [],
              (none_of.text, none_of.same_separator),
              none_of.running,
              ground (arith, none_of.same_resolved, none_of.same_device),
            )
        | inr (st, found) ↦
            let u = resolve_device k s st in
            let ps = matches_of_root C os W k u.root_device_resolved u.root_device root_path st in
            let kept : u.output ≡ s.output = ground arith in
            elim (root-Ends lawful root_path s ok t st h found r) [
              | inl added ↦ inl (
                ps,
                subst (λ (o : Output W). Printed W L o t.output ps) kept
                    (added.text, added.same_separator),
                added.running,
                ground (arith, added.same_resolved, added.same_device),
              )
              | inr (failed, cut) ↦
                  let others =
                    matches_of_roots C os W k u.root_device_resolved u.root_device rest in
                  inr (
                    Cut-at W L k refl (ground arith)
                      (Cut-more W L k ps others (Cut-between W L k kept refl cut.stopping cut)))
            ]
      ]
