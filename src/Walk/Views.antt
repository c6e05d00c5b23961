-- ===== src/Walk/Views.antt =====
-- The ways through one entry of a directory, as the proofs on the walk take them.
use bc_seek.Base.{
  ℕ, ◌≡◌, refl, Bool, true, false, not, ◌&&◌, Option, none, some, List, ◌∷◌, Bytes, Bool-cases,
  Option-cases, inl, inr, arith, ◌⊎◌,
}
use bc_seek.CoreLib.{BcCore}
use bc_seek.Os.{Os, DirEntry, StreamEnd, open_fd}
use bc_seek.Filter.{Candidate}
use bc_seek.Output.{Writer}
use bc_seek.Walk.{
  WalkConfig, WalkState, append_error, should_stop, append_path, path_capacity, is_hidden_name,
  entry_candidate, emit_if_match, is_directory, should_descend, Subdir, subdir, no_subdir, push_fd,
}
use bc_seek.Walk.Opens.{subdir_of, open_subdir-subdir_of}
use bc_seek.Walk.Iterate.{Outcome, after_descend, visit_subdir, visit_entry, iterate}

pub Subdir-cases :
    (d : Subdir) → ((n : Option ℕ) × (d ≡ no_subdir n)) ⊎ ((fd : ℕ) × (d ≡ subdir fd))
Subdir-cases (no_subdir n) = inl (n, refl)
Subdir-cases (subdir fd) = inr (fd, refl)

module _ (C : BcCore) (os : Os) (W : Writer) (k : WalkConfig)
    (descend : ℕ → Bytes → ℕ → WalkState W → Outcome W) where
  abbrev enters : Candidate → DirEntry → Bool
  enters c e = is_directory os W k c && should_descend os W k C e.entry_name c.depth

  abbrev opens : WalkState W → ℕ → DirEntry → Subdir
  opens s fd e = subdir_of os k s.root_device_resolved s.root_device (open_fd fd) e.entry_name

  -- How `visit_subdir` ends.
  pub data SubdirView (fd : ℕ) (child : Bytes) (e : DirEntry) (c : Candidate) (s : WalkState W)
      : Outcome W → Type 0 where
    stayed :
        {r : Outcome W}
        → (is_directory os W k c && should_descend os W k C e.entry_name c.depth) ≡ false
        → r ≡ some (true, s)
        → SubdirView fd child e c s r
    refused :
        {r : Outcome W} (number : Option ℕ)
        → (is_directory os W k c && should_descend os W k C e.entry_name c.depth) ≡ true
        → subdir_of os k s.root_device_resolved s.root_device (open_fd fd) e.entry_name
          ≡ no_subdir number
        → r ≡ some (true, append_error s child number)
        → SubdirView fd child e c s r
    lost :
        {r : Outcome W} (sub : ℕ)
        → descend sub child c.depth (push_fd s sub) ≡ none
        → r ≡ none
        → SubdirView fd child e c s r
    entered :
        {r : Outcome W} (sub : ℕ) (ok : Bool) (t : WalkState W)
        → (is_directory os W k c && should_descend os W k C e.entry_name c.depth) ≡ true
        → subdir_of os k s.root_device_resolved s.root_device (open_fd fd) e.entry_name ≡ subdir sub
        → descend sub child c.depth (push_fd s sub) ≡ some (ok, t)
        → r ≡ some (after_descend C os W k sub (ok, t))
        → SubdirView fd child e c s r

  pub visit_subdir-view :
      (fd : ℕ) (child : Bytes) (e : DirEntry) (c : Candidate) (s : WalkState W)
      → SubdirView fd child e c s (visit_subdir C os W k descend fd child e c s)
  unfolding visit_subdir
  visit_subdir-view fd child e c s = elim (Bool-cases (enters c e)) [
    | inr stay ↦ stayed stay (ground arith)
    | inl go ↦ elim (Subdir-cases (opens s fd e)) [
      | inl (number, shut) ↦
          refused number go shut
            (ground (arith, open_subdir-subdir_of s os k (open_fd fd) e.entry_name))
      | inr (sub, found) ↦ elim (Option-cases (descend sub child c.depth (push_fd s sub))) [
        | inl out ↦
            lost sub out (ground (arith, open_subdir-subdir_of s os k (open_fd fd) e.entry_name))
        | inr ((ok, t), done) ↦
            entered sub ok t go found done
              (ground (arith, open_subdir-subdir_of s os k (open_fd fd) e.entry_name))
      ]
    ]
  ]

  -- How `visit_entry` ends, and a round of `iterate`.
  pub data EntryView (fd : ℕ) (child : Bytes) (depth : ℕ) (e : DirEntry) (s : WalkState W)
      : Outcome W → Type 0 where
    unwritten :
        {r : Outcome W} (c : Candidate) (t : WalkState W)
        → emit_if_match os W k s (entry_candidate k fd child depth e) ≡ (false, c, t)
        → r ≡ some (false, t)
        → EntryView fd child depth e s r
    judged :
        {r : Outcome W} (c : Candidate) (t : WalkState W)
        → emit_if_match os W k s (entry_candidate k fd child depth e) ≡ (true, c, t)
        → SubdirView fd child e c t r
        → EntryView fd child depth e s r

  emit_cases :
      (m : Bool × Candidate × WalkState W)
      → ((c : Candidate) × (t : WalkState W) × (m ≡ (true, c, t)))
        ⊎ ((c : Candidate) × (t : WalkState W) × (m ≡ (false, c, t)))
  emit_cases (true, c, t) = inl (c, t, refl)
  emit_cases (false, c, t) = inr (c, t, refl)

  visit_entry-go :
      (fd : ℕ) (child : Bytes) (depth : ℕ) (e : DirEntry) (s : WalkState W) (c : Candidate)
      (t : WalkState W)
      → emit_if_match os W k s (entry_candidate k fd child depth e) ≡ (true, c, t)
      → visit_entry C os W k descend fd child depth e s
        ≡ visit_subdir C os W k descend fd child e c t
  unfolding visit_entry
  visit_entry-go fd child depth e s c t h = ground arith

  pub visit_entry-view :
      (fd : ℕ) (child : Bytes) (depth : ℕ) (e : DirEntry) (s : WalkState W)
      → EntryView fd child depth e s (visit_entry C os W k descend fd child depth e s)
  unfolding visit_entry
  visit_entry-view fd child depth e s =
      elim (emit_cases (emit_if_match os W k s (entry_candidate k fd child depth e))) [
        | inl (c, t, found) ↦
            judged c t found
              (rw (visit_entry-go fd child depth e s c t found) (visit_subdir-view fd child e c t))
        | inr (c, t, found) ↦ unwritten c t found (ground arith)
      ]

  pub data RoundView (fd : ℕ) (path : Bytes) (depth : ℕ) (ending : StreamEnd) (e : DirEntry)
      (entries : List DirEntry) (s : WalkState W) : Outcome W → Type 0 where
    stopped :
        {r : Outcome W} (t : WalkState W)
        → should_stop k s ≡ (true, t)
        → r ≡ some (false, t)
        → RoundView fd path depth ending e entries s r
    hidden :
        {r : Outcome W} (t : WalkState W)
        → should_stop k s ≡ (false, t)
        → (not k.predicate.include_hidden && is_hidden_name e.entry_name) ≡ true
        → r ≡ iterate C os W k descend fd path depth ending entries t
        → RoundView fd path depth ending e entries s r
    too_long :
        {r : Outcome W} (t : WalkState W)
        → should_stop k s ≡ (false, t)
        → append_path path_capacity path e.entry_name ≡ none
        → r ≡ iterate C os W k descend fd path depth ending entries t
        → RoundView fd path depth ending e entries s r
    exhausted :
        {r : Outcome W} (t : WalkState W) (child : Bytes)
        → append_path path_capacity path e.entry_name ≡ some child
        → visit_entry C os W k descend fd child depth e t ≡ none
        → r ≡ none
        → RoundView fd path depth ending e entries s r
    visited :
        {r : Outcome W} (t : WalkState W) (child : Bytes) (u : WalkState W)
        → should_stop k s ≡ (false, t)
        → (not k.predicate.include_hidden && is_hidden_name e.entry_name) ≡ false
        → append_path path_capacity path e.entry_name ≡ some child
        → visit_entry C os W k descend fd child depth e t ≡ some (true, u)
        → r ≡ iterate C os W k descend fd path depth ending entries u
        → RoundView fd path depth ending e entries s r
    broken :
        {r : Outcome W} (t : WalkState W) (child : Bytes) (u : WalkState W)
        → should_stop k s ≡ (false, t)
        → (not k.predicate.include_hidden && is_hidden_name e.entry_name) ≡ false
        → append_path path_capacity path e.entry_name ≡ some child
        → visit_entry C os W k descend fd child depth e t ≡ some (false, u)
        → r ≡ some (false, u)
        → RoundView fd path depth ending e entries s r

  poll_cases :
      (m : Bool × WalkState W)
      → ((t : WalkState W) × (m ≡ (true, t))) ⊎ ((t : WalkState W) × (m ≡ (false, t)))
  poll_cases (true, t) = inl (t, refl)
  poll_cases (false, t) = inr (t, refl)

  outcome_cases :
      (m : Outcome W)
      → (m ≡ none)
        ⊎ (((t : WalkState W) × (m ≡ some (true, t))) ⊎ ((t : WalkState W) × (m ≡ some (false, t))))
  outcome_cases none = inl refl
  outcome_cases (some (true, t)) = inr (inl (t, refl))
  outcome_cases (some (false, t)) = inr (inr (t, refl))

  pub iterate-view :
      (fd : ℕ) (path : Bytes) (depth : ℕ) (ending : StreamEnd) (e : DirEntry)
      (entries : List DirEntry) (s : WalkState W)
      → RoundView fd path depth ending e entries s
          (iterate C os W k descend fd path depth ending (e ∷ entries) s)
  unfolding iterate
  iterate-view fd path depth ending e entries s = elim (poll_cases (should_stop k s)) [
    | inl (t, stop) ↦ stopped t stop (ground arith)
    | inr (t, go) ↦
        elim (Bool-cases (not k.predicate.include_hidden && is_hidden_name e.entry_name)) [
          | inl dot ↦ hidden t go dot (ground arith)
          | inr plain ↦ elim (Option-cases (append_path path_capacity path e.entry_name)) [
            | inl long ↦ too_long t go long (ground arith)
            | inr (child, fits) ↦
                elim (outcome_cases (visit_entry C os W k descend fd child depth e t)) [
                  | inl out ↦ exhausted t child fits out (ground arith)
                  | inr more ↦ elim more [
                    | inl (u, on) ↦ visited t child u go plain fits on (ground arith)
                    | inr (u, off) ↦ broken t child u go plain fits off (ground arith)
                  ]
                ]
          ]
        ]
  ]
