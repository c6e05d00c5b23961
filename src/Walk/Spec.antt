-- ===== src/Walk/Spec.antt =====
-- What a sequential walk is to print: the matches of a snapshot of the file system, as pure lists
-- in the order of the directory streams, with no state, no output and no descriptor to close.
use bc_seek.Base.{
  ℕ, zero, suc, ◌+◌, Bool, true, false, not, ◌&&◌, none, some, List, [], ◌∷◌, ◌++◌, Bytes, codes,
  length, leb, ◌==◌, if◌then◌else◌,
}
use bc_seek.Types.{directory, entry_type_equal}
use bc_seek.CoreLib.{BcCore}
use bc_seek.Os.{Os, DirEntry, Stat, stat_ok, stat_error, opened, open_error, open_fd, at_fdcwd}
use bc_seek.Filter.{Candidate, accept, type_of_stat}
use bc_seek.Filter.Evaluate.{evaluate}
use bc_seek.Output.{Writer}
use bc_seek.Walk.Opens.{subdir_of}
use bc_seek.Walk.{
  WalkConfig, append_path, path_capacity, is_hidden_name, entry_candidate, is_directory,
  should_descend, subdir, no_subdir,
}
use bc_seek.Walk.Roots.{walk_fuel, root_candidate}

-- The path of a candidate that the predicate accepts.
unfoldable pub own_match : Os → WalkConfig → Candidate → List Bytes
own_match os k c = elim ((evaluate os k.predicate c).0) [ accept ↦ c.path ∷ [] | _ ↦ [] ]

module _ (C : BcCore) (os : Os) (W : Writer) (k : WalkConfig) where
  module _ (below : ℕ → Bytes → ℕ → List Bytes) (resolved : Bool) (root_device : ℕ) where
    -- What lies below an entry: nothing, unless it is a directory to go into that opens.
    unfoldable pub matches_inside : ℕ → Bytes → ℕ → DirEntry → Candidate → List Bytes
    matches_inside fd child child_depth e judged =
        elim (is_directory os W k judged && should_descend os W k C e.entry_name child_depth) [
          | false ↦ []
          | true ↦ elim (subdir_of os k resolved root_device (open_fd fd) e.entry_name) [
            | no_subdir number ↦ []
            | subdir sub ↦ below sub child child_depth
          ]
        ]

    unfoldable pub matches_at : ℕ → Bytes → ℕ → DirEntry → List Bytes
    unfolding matches_inside
    matches_at fd child depth e =
        let c = entry_candidate k fd child depth e in
        own_match os k c ++ matches_inside fd child (depth + 1) e ((evaluate os k.predicate c).1)

    -- A hidden name is passed over, and so is a path that does not fit.
    unfoldable pub matches_in : ℕ → Bytes → ℕ → List DirEntry → List Bytes
    matches_in fd path depth [] = []
    matches_in fd path depth (e ∷ entries) =
        elim (not k.predicate.include_hidden && is_hidden_name e.entry_name) [
          | true ↦ matches_in fd path depth entries
          | false ↦ elim (append_path path_capacity path e.entry_name) [
            | none ↦ matches_in fd path depth entries
            | some child ↦ matches_at fd child depth e ++ matches_in fd path depth entries
          ]
        ]

  -- The matches in a directory and below it, as deep as `fuel` allows.
  unfoldable pub matches_below : Bool → ℕ → ℕ → ℕ → Bytes → ℕ → List Bytes
  matches_below resolved root_device zero fd path depth = []
  matches_below resolved root_device (suc fuel) fd path depth = elim (os.read_dir fd) [
    | none ↦ []
    | some stream ↦
        matches_in (matches_below resolved root_device fuel) resolved root_device fd path depth
          stream.entries
  ]

  -- What lies below a root: nothing at the maximum depth 0.
  unfoldable pub matches_under : Bool → ℕ → Bytes → Stat → List Bytes
  matches_under resolved root_device root_path st =
      elim (entry_type_equal (type_of_stat st) directory
        && not (k.predicate.has_max_depth && (k.predicate.max_depth == 0))) [
          | false ↦ []
          | true ↦ elim (os.openat at_fdcwd root_path (not k.follow_symlinks)) [
            | open_error e ↦ []
            | opened fd ↦ matches_below resolved root_device walk_fuel fd root_path 0
          ]
        ]

  unfoldable pub matches_of_root : Bool → ℕ → Bytes → Stat → List Bytes
  matches_of_root resolved root_device root_path st =
      if leb path_capacity (length root_path)
      then []
      else own_match os k (root_candidate C root_path (length root_path) st)
        ++ matches_under resolved root_device root_path st

  -- The matches of the roots. With `one_file_system` the first root that has a stat gives the
  -- device.
  unfoldable pub matches_of_roots : Bool → ℕ → List Bytes → List Bytes
  matches_of_roots resolved root_device [] = []
  matches_of_roots resolved root_device (root_path ∷ rest) =
      elim (os.fstatat at_fdcwd root_path (not k.follow_symlinks)) [
        | stat_error e ↦ matches_of_roots resolved root_device rest
        | stat_ok st ↦
            let first = k.one_file_system && not resolved in
            let device = if first then st.st_dev else root_device in
            let known = if first then true else resolved in
            matches_of_root known device root_path st ++ matches_of_roots known device rest
      ]

  unfoldable pub matches_of_walk : List Bytes → List Bytes
  matches_of_walk [] = matches_of_roots false 0 (codes "." ∷ [])
  matches_of_walk (root_path ∷ rest) = matches_of_roots false 0 (root_path ∷ rest)
