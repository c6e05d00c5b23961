-- ===== src/Walk/Roots.antt =====
-- bc_seek_walk_visit_root and bc_seek_discovery_walk_sequential of
-- src/discovery/bc_seek_discovery_walk_sequential.c.
use bc_seek.Base.{
  ℕ, ◌+◌, ◌-◌, Bool, true, false, not, ◌&&◌, none, some, List, [], ◌∷◌, Bytes, drop, leb, ◌==◌,
  if◌then◌else◌, codes, bit_and,
}
use bc_seek.Types.{any, directory, entry_type_equal}
use bc_seek.CoreLib.{BcCore}
use bc_seek.Os.{Os, at_fdcwd, Stat, stat_ok, stat_error, opened, open_error}
use bc_seek.Filter.{Candidate, type_of_stat, size_of_stat}
use bc_seek.Output.{Writer, Output}
use bc_seek.Walk.{
  WalkConfig, WalkState, append_error, should_stop, path_capacity, emit_if_match, push_fd,
  close_dir, einval, enametoolong,
}
use bc_seek.Walk.Iterate.{Outcome, process_directory}

-- One call for each byte that the path can still grow by, and one more.
abbrev pub walk_fuel : ℕ
walk_fuel = path_capacity + 1

-- The candidate of a root, from its stat. The descriptor of its parent is `AT_FDCWD`.
unfoldable pub root_candidate : BcCore → Bytes → ℕ → Stat → Candidate
unfolding type_of_stat
root_candidate C root_path path_length st =
    let start : ℕ = elim (C.core_find_last_byte root_path path_length b'/') [
      | none ↦ 0
      | some slash_offset ↦ slash_offset + 1
    ] in
    record {
      path = root_path;
      path_length = path_length;
      basename = drop start root_path;
      basename_length = path_length - start;
      depth = 0;
      entry_type = type_of_stat st;
      type_resolved = not (entry_type_equal (type_of_stat st) any);
      size_bytes = size_of_stat st;
      modification_time = st.st_mtime;
      permission_mask = bit_and st.st_mode 0o7777;
      stat_populated = true;
      follow_symlinks_enabled = false;
      parent_directory_fd = at_fdcwd;
    }

-- The first root sets the device.
abbrev pub resolve_device : {W : Writer} → WalkConfig → WalkState W → Stat → WalkState W
resolve_device k s st =
    if k.one_file_system && not s.root_device_resolved
    then record s { root_device = st.st_dev; root_device_resolved = true }
    else s

module _ (C : BcCore) (os : Os) (W : Writer) (k : WalkConfig) where
  -- The walk below a root that is a directory.
  unfoldable pub descend_root : Bytes → WalkState W → Outcome W
  descend_root root_path s = elim (os.openat at_fdcwd root_path (not k.follow_symlinks)) [
    | open_error e ↦ some (false, append_error s root_path (some e))
    | opened fd ↦ elim (process_directory C os W k walk_fuel fd root_path 0 (push_fd s fd)) [
      | none ↦ none
      | some (walk_ok, t) ↦ some (walk_ok, close_dir t fd)
    ]
  ]

  unfoldable pub visit_stated_root : Bytes → ℕ → Stat → WalkState W → Outcome W
  unfolding descend_root
  visit_stated_root root_path path_length st s =
      let (ok, c, emitted) = emit_if_match os W k s (root_candidate C root_path path_length st) in
      elim ok [
        | false ↦ some (false, emitted)
        | true ↦ elim (entry_type_equal (type_of_stat st) directory) [
          | false ↦ some (true, emitted)
          | true ↦ elim (k.predicate.has_max_depth && (k.predicate.max_depth == 0)) [
            | true ↦ some (true, emitted)
            | false ↦ descend_root root_path emitted
          ]
        ]
      ]

  unfoldable pub visit_root : Bytes → WalkState W → Outcome W
  unfolding visit_stated_root
  visit_root root_path s = elim (os.fstatat at_fdcwd root_path (not k.follow_symlinks)) [
    | stat_error e ↦ some (false, append_error s root_path (some e))
    | stat_ok st ↦
        let t = resolve_device k s st in
        elim (C.core_length root_path) [
          | none ↦ some (false, append_error t root_path (some einval))
          | some path_length ↦ elim (leb path_capacity path_length) [
            | true ↦ some (false, append_error t root_path (some enametoolong))
            | false ↦ visit_stated_root root_path path_length st t
          ]
        ]
  ]

  -- The loop over the roots; `any_ok` is what it has so far.
  unfoldable pub visit_roots : List Bytes → Bool → WalkState W → Outcome W
  unfolding visit_root
  visit_roots [] any_ok s = some (any_ok, s)
  visit_roots (root_path ∷ rest) any_ok s =
      let (stop, polled) = should_stop k s in
      elim stop [
        | true ↦ some (any_ok, polled)
        | false ↦ elim (visit_root root_path polled) [
          | none ↦ none
          | some (ok, t) ↦ visit_roots rest (any_ok && ok) t
        ]
      ]

  -- The context as `bc_core_zero` and the assignments leave it.
  unfoldable pub walk_start : Output W → WalkState W
  walk_start output = record {
    output = output;
    errors = [];
    root_device = 0;
    root_device_resolved = false;
    stop_requested = false;
    polls = 0;
    open_fds = [];
  }

  -- With no root the walk begins at `.`.
  unfoldable pub walk_sequential : List Bytes → Output W → Outcome W
  unfolding visit_roots walk_start
  walk_sequential [] output = visit_root (codes ".") (walk_start output)
  walk_sequential (root_path ∷ rest) output =
      visit_roots (root_path ∷ rest) true (walk_start output)
