-- ===== src/Walk/Iterate.antt =====
-- bc_seek_walk_iterate_entries and bc_seek_walk_process_directory of
-- src/discovery/bc_seek_discovery_walk_sequential.c. The loop walks the entries that the reader
-- will return; the recursion into a subdirectory is the argument `descend`, and takes fuel. `none`
-- means that the fuel ran out.
use bc_seek.Base.{
  ℕ, zero, suc, Bool, true, false, not, ◌&&◌, Option, none, some, List, [], ◌∷◌, Bytes,
  if◌then◌else◌,
}
use bc_seek.CoreLib.{BcCore}
use bc_seek.Os.{Os, DirEntry, StreamEnd, end_of_stream, stream_error, open_fd}
use bc_seek.Filter.{Candidate}
use bc_seek.Output.{Writer}
use bc_seek.Walk.{
  WalkConfig, WalkState, append_error, should_stop, append_path, path_capacity, is_hidden_name,
  entry_candidate, emit_if_match, is_directory, should_descend, open_subdir, subdir, no_subdir,
  close_dir, enomem,
}

-- The result of a directory: `ok`, and the state; with the fuel it may be missing.
abbrev pub Outcome : Writer → Type 0
Outcome W = Option (Bool × WalkState W)

module _ (C : BcCore) (os : Os) (W : Writer) (k : WalkConfig) where
  -- After the recursive call: the descriptor is closed, and a failure ends the loop only if the
  -- walk is to stop. The first part of the result says whether to go on.
  unfoldable pub after_descend : ℕ → Bool × WalkState W → Bool × WalkState W
  after_descend fd (recurse_ok, s) =
      let closed = close_dir s fd in
      if recurse_ok
      then (true, closed)
      else let (stop, polled) = should_stop k closed in (not stop, polled)

  -- Going into the entry, if it is a directory to go into.
  unfoldable pub visit_subdir :
      (ℕ → Bytes → ℕ → WalkState W → Outcome W)
      → ℕ
      → Bytes
      → DirEntry
      → Candidate
      → WalkState W
      → Outcome W
  unfolding after_descend
  visit_subdir descend fd child e c s =
      elim (is_directory os W k c && should_descend os W k C e.entry_name c.depth) [
        | false ↦ some (true, s)
        | true ↦
            let (found, opening) = open_subdir os k s (open_fd fd) e.entry_name in
            elim found [
              | no_subdir number ↦ some (true, append_error opening child number)
              | subdir subdir_fd ↦ elim (descend subdir_fd child c.depth opening) [
                | none ↦ none
                | some result ↦ some (after_descend subdir_fd result)
              ]
            ]
      ]

  -- One entry whose path fits. The first part of the result says whether to go on.
  unfoldable pub visit_entry :
      (ℕ → Bytes → ℕ → WalkState W → Outcome W) → ℕ → Bytes → ℕ → DirEntry → WalkState W → Outcome W
  unfolding visit_subdir
  visit_entry descend fd child depth e s =
      let (ok, c, emitted) = emit_if_match os W k s (entry_candidate k fd child depth e) in
      elim ok [ false ↦ some (false, emitted) | true ↦ visit_subdir descend fd child e c emitted ]

  -- The rest of the loop, after the poll of a round.
  unfoldable pub iterate :
      (ℕ → Bytes → ℕ → WalkState W → Outcome W)
      → ℕ
      → Bytes
      → ℕ
      → StreamEnd
      → List DirEntry
      → WalkState W
      → Outcome W
  unfolding visit_entry
  iterate descend fd path depth ending [] s =
      let (stop, polled) = should_stop k s in
      if stop then some (false, polled) else elim ending [
        | end_of_stream ↦ some (true, polled)
        | stream_error e ↦ some (false, append_error polled path (some e))
      ]
  iterate descend fd path depth ending (e ∷ entries) s =
      let (stop, polled) = should_stop k s in
      elim stop [
        | true ↦ some (false, polled)
        | false ↦ elim (not k.predicate.include_hidden && is_hidden_name e.entry_name) [
          | true ↦ iterate descend fd path depth ending entries polled
          | false ↦ elim (append_path path_capacity path e.entry_name) [
            | none ↦ iterate descend fd path depth ending entries polled
            | some child ↦ elim (visit_entry descend fd child depth e polled) [
              | none ↦ none
              | some (go_on, t) ↦ elim go_on [
                | true ↦ iterate descend fd path depth ending entries t
                | false ↦ some (false, t)
              ]
            ]
          ]
        ]
      ]

  unfoldable pub iterate_entries :
      (ℕ → Bytes → ℕ → WalkState W → Outcome W) → ℕ → Bytes → ℕ → WalkState W → Outcome W
  unfolding iterate
  iterate_entries descend fd path depth s = elim (os.read_dir fd) [
    | none ↦ some (false, append_error s path (some enomem))
    | some stream ↦ iterate descend fd path depth stream.ending stream.entries s
  ]

  unfoldable pub process_directory : ℕ → ℕ → Bytes → ℕ → WalkState W → Outcome W
  unfolding iterate_entries
  process_directory zero fd path depth s = none
  process_directory (suc fuel) fd path depth s =
      iterate_entries (process_directory fuel) fd path depth s
