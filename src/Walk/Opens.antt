-- ===== src/Walk/Opens.antt =====
-- bc_seek_walk_open_subdir of src/discovery/bc_seek_discovery_walk_sequential.c without the
-- bookkeeping of descriptors.
use bc_seek.Base.{ℕ, ◌≡◌, inl, inr, Bool, not, ◌&&◌, none, some, Bytes, ◌==◌, if◌then◌else◌, arith}
use bc_seek.Os.{Os, DirFd, StatResult, stat_ok, stat_error, opened, open_error}
use bc_seek.Output.{Writer}
use bc_seek.Walk.{
  WalkConfig, WalkState, Subdir, subdir, no_subdir, check_device, open_subdir, push_fd, close_dir,
}
use bc_seek.Walk.Cases.{Open-cases}

-- The subdirectory that is entered, by the snapshot alone: its descriptor, or why it is not
-- entered.
abbrev pub subdir_on_device : StatResult → ℕ → ℕ → Subdir
subdir_on_device (stat_error e) fd root_device = no_subdir (some e)
subdir_on_device (stat_ok st) fd root_device =
    if st.st_dev == root_device then subdir fd else no_subdir none

unfoldable pub subdir_of : Os → WalkConfig → Bool → ℕ → DirFd → Bytes → Subdir
subdir_of os k resolved root_device parent name =
    elim (os.openat parent name (not k.follow_symlinks)) [
      | open_error e ↦ no_subdir (some e)
      | opened fd ↦
          if k.one_file_system && resolved
          then subdir_on_device (os.fstat fd) fd root_device
          else subdir fd
    ]

-- The state with the descriptor open, if the subdirectory is entered.
abbrev pub with_subdir : {W : Writer} → WalkState W → Subdir → Subdir × WalkState W
with_subdir s (subdir fd) = (subdir fd, push_fd s fd)
with_subdir s (no_subdir number) = (no_subdir number, s)

module _ {W : Writer} (s : WalkState W) where
  -- Closing the descriptor opened last restores the state.
  close_dir-push_fd : (fd : ℕ) → close_dir (push_fd s fd) fd ≡ s
  close_dir-push_fd fd = ground arith

  check_device_lem :
      (st : StatResult) (fd : ℕ)
      → check_device st fd (push_fd s fd) ≡ with_subdir s (subdir_on_device st fd s.root_device)
  unfolding check_device
  check_device_lem (stat_error e) fd = ground (arith, close_dir-push_fd fd)
  check_device_lem (stat_ok st) fd = ground (arith, close_dir-push_fd fd)

  -- Opening a subdirectory leaves exactly the descriptor of one that is entered open; one that is
  -- refused is closed again.
  pub open_subdir-subdir_of :
      (os : Os) (k : WalkConfig) (parent : DirFd) (name : Bytes)
      → open_subdir os k s parent name
        ≡ with_subdir s (subdir_of os k s.root_device_resolved s.root_device parent name)
  unfolding open_subdir subdir_of
  open_subdir-subdir_of os k parent name =
      elim (Open-cases (os.openat parent name (not k.follow_symlinks))) [
        | inl (e, failed) ↦ ground arith
        | inr (fd, found) ↦ ground (arith, check_device_lem (os.fstat fd) fd)
      ]
