-- ===== src/Cli/Reflects.antt =====
-- The result of bc_seek_cli_bind_options beside the texts of `--name`, `--size`, `--mtime` and
-- `--perm`, and the numbers of the result.
use bc_seek.Base.{
  ℕ, ◌*◌, ◌≤◌, ◌≡◌, Bool, true, false, Option, none, some, List, Bytes, ℤ, pos, negsuc, ok, arith,
  inl, inr, Option-cases,
}
use mathlib.Core.Path.{subst}
use bc_seek.Types.{ThreadsMode, CliOptions, CompareOp}
use bc_seek.CoreLib.{BcCore, IsLawful}
use bc_seek.Cli.Parsers.Size.{SizeText, parse_size_filter}
use bc_seek.Cli.Parsers.SizeText.{parse_size_filter_iff}
use bc_seek.Cli.Parsers.Mtime.{DaysText, parse_mtime_filter, parse_mtime_filter_iff, int64_max}
use bc_seek.Cli.Parsers.Perm.{PermText, parse_perm_filter_iff}
use bc_seek.Cli.Parsers.Threads.{CountFits, parse_threads-CountFits}
use bc_seek.Cli.Bind.{
  ConfigStore, lookup_string, bind_global_threads, bind_name, bind_size, bind_mtime, bind_perm,
  bind_min_depth,
}
use bc_seek.Cli.Options.{bind_options}
use bc_seek.Cli.Bound.{Bound, bind_options-Bound}

-- What `--size TEXT` asks for.
abbrev pub SizeOption : Option Bytes → Bool → CompareOp → ℕ → Type 0
SizeOption none has op bytes = has ≡ false
SizeOption (some text) has op bytes = (has ≡ true) × SizeText text op bytes

-- What `--mtime TEXT` asks for: an age in days, kept in seconds, which fit in an `int64_t`.
abbrev pub MtimeOption : Option Bytes → Bool → CompareOp → ℤ → Type 0
MtimeOption none has op seconds = has ≡ false
MtimeOption (some text) has op seconds =
    (has ≡ true)
    × ((days : ℕ) × DaysText text op days
        × (seconds ≡ pos (days * 86400))
        × (days * 86400 ≤ int64_max))

abbrev pub PermOption : Option Bytes → Bool → ℕ → Type 0
PermOption none has mask = has ≡ false
PermOption (some text) has mask = (has ≡ true) × PermText text mask

-- `--name` and `--iname` exclude one another.
abbrev pub NameOption : Option Bytes → Option Bytes → Bool → Option Bytes → Bool → Type 0
NameOption (some name) (some iname) has glob insensitive = ⊥
NameOption (some name) none has glob insensitive =
    (has ≡ true) × (glob ≡ some name) × (insensitive ≡ false)
NameOption none (some iname) has glob insensitive =
    (has ≡ true) × (glob ≡ some iname) × (insensitive ≡ true)
NameOption none none has glob insensitive = has ≡ false

bind_size-SizeOption :
    (C : BcCore) (L : IsLawful C) (text : Option Bytes) (has : Bool) (op : CompareOp) (t : ℕ)
    → bind_size C text ≡ ok (has, op, t)
    → SizeOption text has op t
unfolding bind_size
bind_size-SizeOption C L none has op t h = ground arith
bind_size-SizeOption C L (some text) has op t h =
    elim (Option-cases (parse_size_filter C (some text))) [
      | inl failed ↦ absurd (ground arith)
      | inr ((op', t'), found) ↦
          (ground arith, (parse_size_filter_iff C L text op t).0 (ground arith))
    ]

bind_mtime-MtimeOption :
    (C : BcCore) (L : IsLawful C) (text : Option Bytes) (has : Bool) (op : CompareOp) (z : ℤ)
    → bind_mtime C text ≡ ok (has, op, z)
    → MtimeOption text has op z
unfolding bind_mtime
bind_mtime-MtimeOption C L none has op z h = ground arith
bind_mtime-MtimeOption C L (some text) has op z h =
    elim (Option-cases (parse_mtime_filter C (some text))) [
      | inl failed ↦ absurd (ground arith)
      | inr ((op', days), found) ↦
          let (n, same, shape) = (parse_mtime_filter_iff C L text op' days).0 found in
          let e : op' ≡ op = ground arith in
          (
            ground arith,
            (n, subst (λ (o : CompareOp). DaysText text o n) e shape, ground arith, ground arith),
          )
    ]

bind_perm-PermOption :
    (C : BcCore) (L : IsLawful C) (text : Option Bytes) (has : Bool) (mask : ℕ)
    → bind_perm C text ≡ ok (has, mask)
    → PermOption text has mask
unfolding bind_perm
bind_perm-PermOption C L none has mask h = ground arith
bind_perm-PermOption C L (some text) has mask h =
    (ground arith, (parse_perm_filter_iff C L text mask).0 (ground arith))

bind_name-NameOption :
    (name iname : Option Bytes) (has : Bool) (glob : Option Bytes) (insensitive : Bool)
    → bind_name name iname ≡ ok (has, glob, insensitive)
    → NameOption name iname has glob insensitive
unfolding bind_name
bind_name-NameOption (some name) (some iname) has glob insensitive h = absurd (cc)
bind_name-NameOption (some name) none has glob insensitive h = ground arith
bind_name-NameOption none (some iname) has glob insensitive h = ground arith
bind_name-NameOption none none has glob insensitive h = ground arith

bind_min_depth-le :
    (has : Bool) (max_depth min_depth : ℕ) (text : Option ℤ)
    → bind_min_depth (has, max_depth) text ≡ ok min_depth
    → has ≡ true
    → min_depth ≤ max_depth
unfolding bind_min_depth
bind_min_depth-le has max_depth min_depth none h e = ground arith
bind_min_depth-le has max_depth min_depth (some (pos n)) h e = ground arith
bind_min_depth-le has max_depth min_depth (some (negsuc n)) h e = ground arith

threads-CountFits :
    (C : BcCore) (store : ConfigStore) (mode : ThreadsMode) (n : ℕ)
    → bind_global_threads C store ≡ ok (mode, n)
    → CountFits (mode, n)
unfolding bind_global_threads
threads-CountFits C store mode n h = elim (Option-cases (store.get_string "global.threads")) [
  | inl missing ↦ absurd (ground arith)
  | inr (value, found) ↦ parse_threads-CountFits C value mode n (ground arith)
]

module _ (C : BcCore) (stat_mtime : Bytes → Option ℤ) (store : ConfigStore) where
  -- The filters, each read from the text of its option.
  pub record Reflects (o : CliOptions) : Type 0 where
    pub name :
        NameOption
          (lookup_string C store "find.name")
          (lookup_string C store "find.iname")
          o.has_name_glob
          o.name_glob
          o.name_case_insensitive
    pub size :
        SizeOption
          (lookup_string C store "find.size")
          o.has_size_filter
          o.size_op
          o.size_threshold_bytes
    pub mtime :
        MtimeOption
          (lookup_string C store "find.mtime")
          o.has_mtime_filter
          o.mtime_op
          o.mtime_threshold_seconds_ago
    pub perm : PermOption (lookup_string C store "find.perm") o.has_perm_filter o.perm_mask

  -- Whenever `bind_options` succeeds, the name, size, mtime and perm filters of the result are
  -- present exactly for the options given, and hold the values that the texts spell: for `--mtime`
  -- the days in seconds, with no overflow of an `int64_t`. The core library is lawful.
  pub bind_options-Reflects :
      IsLawful C
      → (values : List Bytes) (o : CliOptions) → bind_options C stat_mtime store values ≡ ok o
      → Reflects o
  bind_options-Reflects L values o h =
      let b : Bound C stat_mtime store values o =
        bind_options-Bound C stat_mtime store values o h in
      record {
        name = bind_name-NameOption _ _ _ _ _ b.name;
        size = bind_size-SizeOption C L _ _ _ _ b.size;
        mtime = bind_mtime-MtimeOption C L _ _ _ _ b.mtime;
        perm = bind_perm-PermOption C L _ _ _ b.perm;
      }

  -- Whenever `bind_options` succeeds, the minimum depth does not exceed a given maximum depth, and
  -- the worker count is positive in the explicit mode and 0 in the other modes.
  pub bind_options-bounds :
      (values : List Bytes) (o : CliOptions)
      → bind_options C stat_mtime store values ≡ ok o
      → (o.has_max_depth ≡ true → o.min_depth ≤ o.max_depth)
        × CountFits (o.threads_mode, o.explicit_worker_count)
  bind_options-bounds values o h =
      let b : Bound C stat_mtime store values o =
        bind_options-Bound C stat_mtime store values o h in
      (
        bind_min_depth-le o.has_max_depth o.max_depth o.min_depth _ b.min,
        threads-CountFits C store o.threads_mode o.explicit_worker_count b.threads,
      )
