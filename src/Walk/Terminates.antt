-- ===== src/Walk/Terminates.antt =====
-- The fuel of the recursion into subdirectories, measured by the length of the path.
use bc_seek.Base.{
  ℕ, zero, suc, ◌+◌, ◌-◌, ◌≤◌, ◌<◌, ◌≡◌, ◌≢◌, ◌∙◌, sym, Bool, true, not, ◌&&◌, none, some, List, [],
  ◌∷◌, Bytes, codes, length, length-append, Option-cases, inl, inr, arith,
}
use bc_seek.CoreLib.{BcCore, IsLawful}
use bc_seek.Os.{Os, DirEntry, DirStream, StreamEnd, at_fdcwd, Stat}
use bc_seek.Output.{Writer, Output}
use bc_seek.Walk.{
  WalkConfig, WalkState, should_stop, joined, append_path, path_capacity, emit_if_match, push_fd,
}
use bc_seek.Walk.Iterate.{Outcome, iterate, iterate_entries, process_directory}
use bc_seek.Walk.Cases.{Open-cases, Stat-cases}
use bc_seek.Walk.Views.{
  stayed, refused, lost, entered, EntryView, unwritten, judged, RoundView, stopped, hidden,
  too_long, exhausted, visited, broken, visit_entry-view, iterate-view,
}
use bc_seek.Walk.Roots.{
  root_candidate, resolve_device, walk_fuel, descend_root, visit_stated_root, visit_root,
  visit_roots, walk_start, walk_sequential,
}

-- The entries of a stream have names.
abbrev pub AllNamed : List DirEntry → Type 0
AllNamed [] = Unit
AllNamed (e ∷ entries) = (0 < length e.entry_name) × AllNamed entries

-- No directory has an entry with an empty name.
abbrev pub NamesEntries : Os → Type 0
NamesEntries os =
    (fd : ℕ) (stream : DirStream) → os.read_dir fd ≡ some stream → AllNamed stream.entries

joined-longer : (path name : Bytes) → length path + length name ≤ length (joined path name)
unfolding joined
joined-longer path name = ground (arith, length-append path name, length-append path (b'/' ∷ name))

append_path-bounds :
    (capacity : ℕ) (path name child : Bytes)
    → append_path capacity path name ≡ some child
    → (length path + length name ≤ length child) × (length child < capacity)
unfolding append_path
append_path-bounds capacity path name child h = ground (arith, joined-longer path name)

module _ (C : BcCore) (os : Os) (W : Writer) (k : WalkConfig) where
  -- A result for every path that is at least `n` bytes long and fits.
  abbrev TotalFrom : ℕ → (ℕ → Bytes → ℕ → WalkState W → Outcome W) → Type 0
  TotalFrom n descend =
      (fd : ℕ) (path : Bytes) (depth : ℕ) (s : WalkState W)
      → n ≤ length path
      → length path < path_capacity
      → descend fd path depth s ≢ none

  module _ (descend : ℕ → Bytes → ℕ → WalkState W → Outcome W) (n : ℕ)
      (total : TotalFrom (suc n) descend) where
    entry-total :
        (fd : ℕ) (child : Bytes) (depth : ℕ) (e : DirEntry) (s : WalkState W) {r : Outcome W}
        → suc n ≤ length child
        → length child < path_capacity
        → EntryView C os W k descend fd child depth e s r
        → r ≢ none
    entry-total fd child depth e s long fits (unwritten c t found same) = ground arith
    entry-total fd child depth e s long fits (judged c t found (stayed stay same)) = ground arith
    entry-total fd child depth e s long fits (judged c t found (refused number go shut same)) =
        ground arith
    entry-total fd child depth e s long fits (judged c t found (lost sub out same)) =
        absurd (total sub child c.depth (push_fd t sub) long fits out)
    entry-total fd child depth e s long fits
          (judged c t found (entered sub ok u go opens done same)) =
        ground arith

    round-total :
        (fd : ℕ) (path : Bytes) (depth : ℕ) (ending : StreamEnd) (e : DirEntry)
        (entries : List DirEntry) (s : WalkState W) {r : Outcome W}
        → n ≤ length path
        → 0 < length e.entry_name
        → ((u : WalkState W) → iterate C os W k descend fd path depth ending entries u ≢ none)
        → RoundView C os W k descend fd path depth ending e entries s r
        → r ≢ none
    round-total fd path depth ending e entries s long named rest (stopped u stop same) =
        ground arith
    round-total fd path depth ending e entries s long named rest (hidden u go dot same) =
        λ out. rest u (sym same ∙ out)
    round-total fd path depth ending e entries s long named rest (too_long u go over same) =
        λ out. rest u (sym same ∙ out)
    round-total fd path depth ending e entries s long named rest (exhausted u child fits out same) =
        absurd (
          entry-total fd child depth e u
            (omega (arith, append_path-bounds path_capacity path e.entry_name child fits))
            (omega (arith, append_path-bounds path_capacity path e.entry_name child fits))
            (visit_entry-view C os W k descend fd child depth e u) out)
    round-total fd path depth ending e entries s long named rest
          (visited u child v go plain fits on same) =
        λ out. rest v (sym same ∙ out)
    round-total fd path depth ending e entries s long named rest
          (broken u child v go plain fits off same) =
        ground arith

    iterate-total :
        (fd : ℕ) (path : Bytes) (depth : ℕ) (ending : StreamEnd) (entries : List DirEntry)
        (s : WalkState W)
        → n ≤ length path
        → AllNamed entries
        → iterate C os W k descend fd path depth ending entries s ≢ none
    iterate-total fd path depth ending [] s long named = unfold iterate in ground arith
    iterate-total fd path depth ending (e ∷ entries) s long (here, rest) =
        round-total fd path depth ending e entries s long here
          (λ u. iterate-total fd path depth ending entries u long rest)
          (iterate-view C os W k descend fd path depth ending e entries s)

    entries-total : NamesEntries os → TotalFrom n (iterate_entries C os W k descend)
    unfolding iterate_entries
    entries-total names fd path depth s long fits = elim (Option-cases (os.read_dir fd)) [
      | inl unread ↦ ground arith
      | inr (stream, found) ↦
          rw (found, iterate_entries)
            (iterate-total fd path depth stream.ending stream.entries s long
              (names fd stream found))
    ]

  -- Fuel for the bytes that the path can still grow by, and one more, is enough.
  directory-total :
      NamesEntries os
      → (fuel : ℕ) → TotalFrom (path_capacity + 1 - fuel) (process_directory C os W k fuel)
  unfolding process_directory
  directory-total names zero fd path depth s long fits = absurd (omega arith)
  directory-total names (suc fuel) fd path depth s long fits =
      entries-total (process_directory C os W k fuel) (path_capacity + 1 - suc fuel)
        (λ fd' path' depth' s' long' fits'.
          directory-total names fuel fd' path' depth' s' (omega arith) fits')
        names fd path depth s long fits

  root-total :
      NamesEntries os
      → (root_path : Bytes) (s : WalkState W) → length root_path < path_capacity
      → descend_root C os W k root_path s ≢ none
  unfolding descend_root
  root-total names root_path s fits =
      elim (Open-cases (os.openat at_fdcwd root_path (not k.follow_symlinks))) [
        | inl (e, failed) ↦ ground arith
        | inr (fd, found) ↦ ground (
          arith,
          directory-total names walk_fuel fd root_path 0 (push_fd s fd) (omega arith) fits,
        )
      ]

  stated-total :
      NamesEntries os
      → (root_path : Bytes) (n : ℕ) (st : Stat) (s : WalkState W) → length root_path < path_capacity
      → visit_stated_root C os W k root_path n st s ≢ none
  unfolding visit_stated_root
  stated-total names root_path n st s fits =
      let emitted = emit_if_match os W k s (root_candidate C root_path n st) in
      ground (arith, root-total names root_path emitted.2 fits)

  visit_root-total :
      IsLawful C
      → NamesEntries os
      → (root_path : Bytes) (s : WalkState W) → visit_root C os W k root_path s ≢ none
  unfolding visit_root
  visit_root-total L names root_path s =
      elim (Stat-cases (os.fstatat at_fdcwd root_path (not k.follow_symlinks))) [
        | inl (e, failed) ↦ ground arith
        | inr (st, found) ↦
            let t = resolve_device k s st in
            ground
              (arith, L.length_law root_path, stated-total names root_path (length root_path) st t)
      ]

  visit_roots-total :
      IsLawful C
      → NamesEntries os
      → (roots : List Bytes) (any_ok : Bool) (s : WalkState W)
      → visit_roots C os W k roots any_ok s ≢ none
  unfolding visit_roots
  visit_roots-total L names [] any_ok s = ground arith
  visit_roots-total L names (root_path ∷ rest) any_ok s =
      let polled = (should_stop k s).1 in
      elim (Option-cases (visit_root C os W k root_path polled)) [
        | inl out ↦ absurd (visit_root-total L names root_path polled out)
        | inr ((ok, t), done) ↦ ground (arith, visit_roots-total L names rest (any_ok && ok) t)
      ]

  -- The sequential walk returns on every file system whose directory entries have nonempty names,
  -- also where followed links make cycles: the fuel, one more than the capacity of the path buffer,
  -- never runs out. The core library is lawful.
  pub walk_sequential-total :
      IsLawful C
      → NamesEntries os
      → (roots : List Bytes) (output : Output W)
      → (ok : Bool) × (t : WalkState W) × (walk_sequential C os W k roots output ≡ some (ok, t))
  walk_sequential-total L names roots output =
      elim (Option-cases (walk_sequential C os W k roots output)) [
        | inl out ↦ absurd (returns roots out)
        | inr ((ok, t), done) ↦ (ok, t, done)
      ]
    where
      returns : (roots : List Bytes) → walk_sequential C os W k roots output ≢ none
      returns [] =
          unfold walk_sequential in
          visit_root-total L names (codes ".") (walk_start C os W k output)
      returns (root_path ∷ rest) =
          unfold walk_sequential in
          visit_roots-total L names (root_path ∷ rest) true (walk_start C os W k output)
