-- ===== src/Walk/Balance.antt =====
-- The directory descriptors that are open during the sequential walk of
-- src/discovery/bc_seek_discovery_walk_sequential.c.
use bc_seek.Base.{
  ℕ, zero, suc, ◌≡◌, ◌∙◌, sym, Bool, true, false, not, ◌&&◌, some, List, [], ◌∷◌, Bytes, codes,
  Option-cases, inl, inr, arith,
}
use bc_seek.CoreLib.{BcCore}
use bc_seek.Os.{Os, DirEntry, StreamEnd, at_fdcwd, Stat}
use bc_seek.Filter.{Candidate}
use bc_seek.Output.{Writer, Output}
use bc_seek.Walk.{WalkConfig, WalkState, should_stop, entry_candidate, emit_if_match, push_fd}
use bc_seek.Walk.Iterate.{Outcome, after_descend, iterate, iterate_entries, process_directory}
use bc_seek.Walk.Cases.{Open-cases, Stat-cases}
use bc_seek.Walk.Views.{
  SubdirView, stayed, refused, lost, entered, EntryView, unwritten, judged, RoundView, stopped,
  hidden, too_long, exhausted, visited, broken, visit_entry-view, iterate-view,
}
use bc_seek.Walk.Roots.{
  root_candidate, resolve_device, walk_fuel, descend_root, visit_stated_root, visit_root,
  visit_roots, walk_start, walk_sequential,
}

module _ (C : BcCore) (os : Os) (W : Writer) (k : WalkConfig) where
  should_stop-open_fds : (s : WalkState W) → (should_stop k s).1.open_fds ≡ s.open_fds
  unfolding should_stop
  should_stop-open_fds s = ground arith

  emit-open_fds :
      (s : WalkState W) (c : Candidate) → (emit_if_match os W k s c).2.open_fds ≡ s.open_fds
  unfolding emit_if_match
  emit-open_fds s c = ground arith

  after_descend-open_fds :
      (fd : ℕ) (ok : Bool) (s : WalkState W) (fds : List ℕ)
      → s.open_fds ≡ fd ∷ fds
      → (after_descend C os W k fd (ok, s)).1.open_fds ≡ fds
  unfolding after_descend should_stop
  after_descend-open_fds fd ok s fds h = ground arith

  -- The open descriptors after a result are those before.
  abbrev Keeps : Outcome W → List ℕ → Type 0
  Keeps r fds = (ok : Bool) (t : WalkState W) → r ≡ some (ok, t) → t.open_fds ≡ fds

  abbrev Balanced : (ℕ → Bytes → ℕ → WalkState W → Outcome W) → Type 0
  Balanced descend =
      (fd : ℕ) (path : Bytes) (depth : ℕ) (s : WalkState W)
      → Keeps (descend fd path depth s) s.open_fds

  iterate-end :
      (descend : ℕ → Bytes → ℕ → WalkState W → Outcome W) (fd : ℕ) (path : Bytes) (depth : ℕ)
      (ending : StreamEnd) (s : WalkState W)
      → Keeps (iterate C os W k descend fd path depth ending [] s) s.open_fds
  unfolding iterate
  iterate-end descend fd path depth ending s ok t h = ground (arith, should_stop-open_fds s)

  module _ (descend : ℕ → Bytes → ℕ → WalkState W → Outcome W) (balanced : Balanced descend) where
    subdir-Keeps :
        (fd : ℕ) (child : Bytes) (e : DirEntry) (c : Candidate) (s : WalkState W) {r : Outcome W}
        → SubdirView C os W k descend fd child e c s r
        → Keeps r s.open_fds
    subdir-Keeps fd child e c s (stayed stay same) ok t h = ground arith
    subdir-Keeps fd child e c s (refused number go shut same) ok t h = ground arith
    subdir-Keeps fd child e c s (lost sub out same) ok t h = absurd (cc)
    subdir-Keeps fd child e c s (entered sub done u go found called same) ok t h = ground (
      arith,
      after_descend-open_fds sub done u s.open_fds
          (balanced sub child c.depth (push_fd s sub) done u called),
    )

    entry-Keeps :
        (fd : ℕ) (child : Bytes) (depth : ℕ) (e : DirEntry) (s : WalkState W) {r : Outcome W}
        → EntryView C os W k descend fd child depth e s r
        → Keeps r s.open_fds
    entry-Keeps fd child depth e s (unwritten c u found same) ok t h =
        ground (arith, emit-open_fds s (entry_candidate k fd child depth e))
    entry-Keeps fd child depth e s (judged c u found view) ok t h =
        subdir-Keeps fd child e c u view ok t h
        ∙ ground (arith, emit-open_fds s (entry_candidate k fd child depth e))

    round-Keeps :
        (fd : ℕ) (path : Bytes) (depth : ℕ) (ending : StreamEnd) (e : DirEntry)
        (entries : List DirEntry) (s : WalkState W) {r : Outcome W}
        → ((u : WalkState W)
            → Keeps (iterate C os W k descend fd path depth ending entries u) u.open_fds)
        → RoundView C os W k descend fd path depth ending e entries s r
        → Keeps r s.open_fds
    round-Keeps fd path depth ending e entries s rest (stopped u stop same) ok t h =
        ground (arith, should_stop-open_fds s)
    round-Keeps fd path depth ending e entries s rest (hidden u go dot same) ok t h =
        rest u ok t (sym same ∙ h) ∙ ground (arith, should_stop-open_fds s)
    round-Keeps fd path depth ending e entries s rest (too_long u go long same) ok t h =
        rest u ok t (sym same ∙ h) ∙ ground (arith, should_stop-open_fds s)
    round-Keeps fd path depth ending e entries s rest (exhausted u child fits out same) ok t h =
        absurd (cc)
    round-Keeps fd path depth ending e entries s rest (visited u child v go plain fits on same) ok t
          h =
        rest v ok t (sym same ∙ h)
        ∙ (entry-Keeps fd child depth e u (visit_entry-view C os W k descend fd child depth e u)
              true v on
            ∙ ground (arith, should_stop-open_fds s))
    round-Keeps fd path depth ending e entries s rest (broken u child v go plain fits off same) ok t
          h =
        ground (
          arith,
          entry-Keeps fd child depth e u (visit_entry-view C os W k descend fd child depth e u)
              false v off,
          should_stop-open_fds s,
        )

    iterate-Keeps :
        (fd : ℕ) (path : Bytes) (depth : ℕ) (ending : StreamEnd) (entries : List DirEntry)
        (s : WalkState W)
        → Keeps (iterate C os W k descend fd path depth ending entries s) s.open_fds
    iterate-Keeps fd path depth ending [] s ok t h =
        iterate-end descend fd path depth ending s ok t h
    iterate-Keeps fd path depth ending (e ∷ entries) s ok t h =
        round-Keeps fd path depth ending e entries s (iterate-Keeps fd path depth ending entries)
          (iterate-view C os W k descend fd path depth ending e entries s) ok t h

    entries-Keeps : Balanced (iterate_entries C os W k descend)
    unfolding iterate_entries
    entries-Keeps fd path depth s ok t h = elim (Option-cases (os.read_dir fd)) [
      | inl unread ↦ ground arith
      | inr (stream, found) ↦
          iterate-Keeps fd path depth stream.ending stream.entries s ok t
            (rw (found, iterate_entries) at h)
    ]

  -- A directory that is processed leaves the set of open directory descriptors as it was, whatever
  -- fails or stops on the way.
  pub process_directory-open_fds :
      (fuel fd : ℕ) (path : Bytes) (depth : ℕ) (s : WalkState W) (ok : Bool) (t : WalkState W)
      → process_directory C os W k fuel fd path depth s ≡ some (ok, t)
      → t.open_fds ≡ s.open_fds
  unfolding process_directory
  process_directory-open_fds zero fd path depth s ok t h = absurd (cc)
  process_directory-open_fds (suc fuel) fd path depth s ok t h =
      entries-Keeps (process_directory C os W k fuel) (process_directory-open_fds fuel) fd path
        depth s ok t h

  root-Keeps :
      (root_path : Bytes) (s : WalkState W) → Keeps (descend_root C os W k root_path s) s.open_fds
  unfolding descend_root
  root-Keeps root_path s ok t h =
      elim (Open-cases (os.openat at_fdcwd root_path (not k.follow_symlinks))) [
        | inl (e, failed) ↦ ground arith
        | inr (fd, found) ↦
            elim (Option-cases
              (process_directory C os W k walk_fuel fd root_path 0 (push_fd s fd))) [
                | inl out ↦ absurd (ground arith)
                | inr ((walk_ok, u), done) ↦ ground (
                  arith,
                  process_directory-open_fds walk_fuel fd root_path 0 (push_fd s fd) walk_ok u done,
                )
              ]
      ]

  stated-Keeps :
      (root_path : Bytes) (n : ℕ) (st : Stat) (s : WalkState W)
      → Keeps (visit_stated_root C os W k root_path n st s) s.open_fds
  unfolding visit_stated_root
  stated-Keeps root_path n st s ok t h =
      let emitted = emit_if_match os W k s (root_candidate C root_path n st) in
      ground (
        arith,
        emit-open_fds s (root_candidate C root_path n st),
        root-Keeps root_path emitted.2 ok t,
      )

  visit_root-Keeps :
      (root_path : Bytes) (s : WalkState W) → Keeps (visit_root C os W k root_path s) s.open_fds
  unfolding visit_root
  visit_root-Keeps root_path s ok t h =
      elim (Stat-cases (os.fstatat at_fdcwd root_path (not k.follow_symlinks))) [
        | inl (e, failed) ↦ ground arith
        | inr (st, found) ↦ elim (Option-cases (C.core_length root_path)) [
          | inl unknown ↦ ground arith
          | inr (n, measured) ↦
              ground (arith, stated-Keeps root_path n st (resolve_device k s st) ok t)
        ]
      ]

  visit_roots-Keeps :
      (roots : List Bytes) (any_ok : Bool) (s : WalkState W)
      → Keeps (visit_roots C os W k roots any_ok s) s.open_fds
  unfolding visit_roots
  visit_roots-Keeps [] any_ok s ok t h = ground arith
  visit_roots-Keeps (root_path ∷ rest) any_ok s ok t h =
      let polled = (should_stop k s).1 in
      elim (Option-cases (visit_root C os W k root_path polled)) [
        | inl out ↦ ground (arith, should_stop-open_fds s)
        | inr ((root_ok, u), done) ↦ ground (
          arith,
          should_stop-open_fds s,
          visit_root-Keeps root_path polled root_ok u done,
          visit_roots-Keeps rest (any_ok && root_ok) u ok t,
        )
      ]

  -- A sequential walk that returns has closed every directory that it opened, whatever the signals,
  -- the errors and the writer do.
  pub walk_sequential-open_fds :
      (roots : List Bytes) (output : Output W) (ok : Bool) (t : WalkState W)
      → walk_sequential C os W k roots output ≡ some (ok, t)
      → t.open_fds ≡ []
  unfolding walk_sequential
  walk_sequential-open_fds [] output ok t h =
      visit_root-Keeps (codes ".") (walk_start C os W k output) ok t h
  walk_sequential-open_fds (root_path ∷ rest) output ok t h =
      visit_roots-Keeps (root_path ∷ rest) true (walk_start C os W k output) ok t h
