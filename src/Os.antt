-- ===== src/Os.antt =====
-- What the program asks of the operating system and the C library about files. All of it is a
-- parameter; a query is a function of its arguments, so that the file system is one snapshot.
use bc_seek.Base.{ℕ, Bool, Option, List, Bytes, ℤ}

-- A directory descriptor: `AT_FDCWD`, or one that `openat` returned.
pub data DirFd : Type 0 where
  at_fdcwd : DirFd
  open_fd : ℕ → DirFd

-- `struct stat`, with what `S_ISREG`, `S_ISDIR` and `S_ISLNK` say of `st_mode`.
pub record Stat : Type 0 where
  pub is_reg : Bool
  pub is_dir : Bool
  pub is_lnk : Bool
  pub st_mode : ℕ
  pub st_size : ℤ
  pub st_mtime : ℤ
  pub st_dev : ℕ

-- A failure holds its `errno`.
pub data StatResult : Type 0 where
  stat_ok : Stat → StatResult
  stat_error : ℕ → StatResult

pub data OpenResult : Type 0 where
  opened : ℕ → OpenResult
  open_error : ℕ → OpenResult

-- The `d_type` of a directory entry; `dt_other` stands for `DT_UNKNOWN` and all that is not named.
pub data DirentType : Type 0 where
  dt_reg dt_dir dt_lnk dt_other : DirentType

pub record DirEntry : Type 0 where
  pub entry_name : Bytes
  pub d_type : DirentType

-- What a directory stream gives: its entries, and how it ends.
pub data StreamEnd : Type 0 where
  end_of_stream : StreamEnd
  stream_error : ℕ → StreamEnd

pub record DirStream : Type 0 where
  pub entries : List DirEntry
  pub ending : StreamEnd

pub record Os : Type 0 where
  -- `fstatat(fd, name, &st, nofollow ? AT_SYMLINK_NOFOLLOW : 0)`
  pub fstatat : DirFd → Bytes → Bool → StatResult
  -- `fstat(fd, &st)`
  pub fstat : ℕ → StatResult
  -- `openat(fd, name, O_RDONLY | O_DIRECTORY | O_CLOEXEC | (nofollow ? O_NOFOLLOW : 0))`
  pub openat : DirFd → Bytes → Bool → OpenResult
  -- `bc_io_dirent_reader_create` and the entries that `bc_io_dirent_reader_next` returns; `none`
  -- means that no reader was made.
  pub read_dir : ℕ → Option DirStream
  -- `fnmatch(pattern, value, casefold ? FNM_CASEFOLD : 0)`; the pattern may be NULL.
  pub fnmatch : Option Bytes → Bytes → Bool → ℤ
