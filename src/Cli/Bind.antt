-- ===== src/Cli/Bind.antt =====
-- bc_seek_cli_bind_options of src/cli/bc_seek_cli_spec.c and its helpers. The configuration store
-- and `stat` are parameters. The source fills a zeroed `out_options` field by field; here each step
-- gives the values of its fields and the last step puts them together. The text of an error is what
-- `bc_seek_cli_emit_stderr` hands to the writer.
use bc_seek.Base.{
  ℕ, ◌-◌, ◌/◌, ◌%◌, ◌^◌, Bool, true, false, ◌&&◌, Option, none, some, [], ◌∷◌, ◌++◌, Bytes, String,
  codes, get_or, ltb, ◌==◌, if◌then◌else◌, ℤ, pos, negsuc, ltb_ℤ, scale_ℤ, Result, ok, err, fault,
}
use bc_seek.Types.{
  EntryType, any, CompareOp, equal, ThreadsMode, OutputMode, stdout_mode, file_mode,
}
use bc_seek.CoreLib.{BcCore}
use bc_seek.Strings.{strings_equal}
use bc_seek.Cli.Parsers.Size.{parse_size_filter}
use bc_seek.Cli.Parsers.Mtime.{parse_mtime_filter, int64_max}
use bc_seek.Cli.Parsers.Perm.{parse_perm_filter}
use bc_seek.Cli.Parsers.TypeFilter.{parse_type_filter}
use bc_seek.Cli.Parsers.Threads.{parse_threads}

-- `bc_runtime_config_store_t`: each getter returns `false`, or a value; a string may be NULL.
pub record ConfigStore : Type 0 where
  pub get_string : String → Option (Option Bytes)
  pub get_integer : String → Option ℤ
  pub get_boolean : String → Option Bool

-- The parts that are not NULL, one after the other.
abbrev pub emit_stderr : Option Bytes → Option Bytes → Option Bytes → Option Bytes → Bytes
emit_stderr prefix middle value suffix = part prefix ++ (part middle ++ (part value ++ part suffix))
  where
    part : Option Bytes → Bytes
    part none = []
    part (some s) = s

abbrev pub fail {ℓ} : {A : Type ℓ} → String → Result A
fail message = err (emit_stderr (some (codes message)) none none none)

-- The quoted value ends in `'` and a newline.
abbrev pub fail_value {ℓ} : {A : Type ℓ} → String → Option Bytes → Result A
fail_value prefix value =
    err (emit_stderr (some (codes prefix)) none value (some (b'\'' ∷ 10 ∷ [])))

abbrev pub flag_or : Option Bool → Bool → Bool
flag_or none default = default
flag_or (some flag) default = flag

-- `(int)count`
abbrev pub int_of_size : ℕ → ℤ
int_of_size n =
    if ltb (n % 2 ^ 32) (2 ^ 31) then pos (n % 2 ^ 32) else negsuc (2 ^ 32 - 1 - n % 2 ^ 32)

module _ (C : BcCore) (store : ConfigStore) where
  unfoldable pub bind_global_threads : Result (ThreadsMode × ℕ)
  bind_global_threads = elim (store.get_string "global.threads") [
    | none ↦ fail "bc-seek: internal error: missing global.threads\n"
    | some value ↦ elim (parse_threads C value) [
      | none ↦ fail_value "bc-seek: invalid --threads value: '" value
      | some result ↦ ok result
    ]
  ]

  -- A missing, NULL or empty string counts as absent.
  unfoldable pub lookup_string : String → Option Bytes
  lookup_string key = elim (store.get_string key) [
    | none ↦ none
    | some value ↦ elim value [ none ↦ none | some s ↦ if get_or s 0 0 == 0 then none else some s ]
  ]

  unfoldable pub lookup_integer : String → Option ℤ
  lookup_integer key = store.get_integer key

  unfoldable pub lookup_boolean : String → Option Bool
  lookup_boolean key = store.get_boolean key

  unfoldable pub bind_output : Option Bytes → Result (OutputMode × Option Bytes)
  bind_output none = fault
  bind_output (some value) =
      if strings_equal C value (codes "-")
      then ok (stdout_mode, none)
      else if get_or value 0 0 == 0
      then fail_value "bc-seek: invalid --output: '" (some value)
      else ok (file_mode, some value)

-- `has_name_glob`, `name_glob` and `name_case_insensitive`, from `--name` and `--iname`.
unfoldable pub bind_name : Option Bytes → Option Bytes → Result (Bool × Option Bytes × Bool)
bind_name (some name) (some iname) = fail "bc-seek: --name and --iname are mutually exclusive\n"
bind_name (some name) none = ok (true, some name, false)
bind_name none (some iname) = ok (true, some iname, true)
bind_name none none = ok (false, none, false)

unfoldable pub bind_path : Option Bytes → Bool × Option Bytes
bind_path none = (false, none)
bind_path (some value) = (true, some value)

unfoldable pub bind_type : BcCore → Option Bytes → Result (Bool × EntryType)
bind_type C none = ok (false, any)
bind_type C (some value) = elim (parse_type_filter C value) [
  | none ↦ fail_value "bc-seek: invalid --type: '" (some value)
  | some type ↦ ok (true, type)
]

unfoldable pub bind_size : BcCore → Option Bytes → Result (Bool × CompareOp × ℕ)
bind_size C none = ok (false, equal, 0)
bind_size C (some value) = elim (parse_size_filter C (some value)) [
  | none ↦ fail_value "bc-seek: invalid --size: '" (some value)
  | some (op, threshold) ↦ ok (true, op, threshold)
]

unfoldable pub bind_mtime : BcCore → Option Bytes → Result (Bool × CompareOp × ℤ)
bind_mtime C none = ok (false, equal, pos 0)
bind_mtime C (some value) = elim (parse_mtime_filter C (some value)) [
  | none ↦ fail_value "bc-seek: invalid --mtime: '" (some value)
  | some (op, days) ↦
      if ltb_ℤ (pos (int64_max / 86400)) days
      then fail_value "bc-seek: --mtime value out of range: '" (some value)
      else ok (true, op, scale_ℤ days 86400)
]

-- `stat_mtime` is `stat` and its field `st_mtime`; `none` is a failure.
unfoldable pub bind_newer_reference : (Bytes → Option ℤ) → Bytes → Option ℤ
bind_newer_reference stat_mtime path = stat_mtime path

unfoldable pub bind_newer : (Bytes → Option ℤ) → Option Bytes → Result (Bool × ℤ)
bind_newer stat_mtime none = ok (false, pos 0)
bind_newer stat_mtime (some value) = elim (bind_newer_reference stat_mtime value) [
  | none ↦ fail_value "bc-seek: cannot stat --newer reference: '" (some value)
  | some reference_mtime ↦ ok (true, reference_mtime)
]

unfoldable pub bind_perm : BcCore → Option Bytes → Result (Bool × ℕ)
bind_perm C none = ok (false, 0)
bind_perm C (some value) = elim (parse_perm_filter C (some value)) [
  | none ↦ fail_value "bc-seek: invalid --perm: '" (some value)
  | some mask ↦ ok (true, mask)
]

-- `has_max_depth` and `max_depth`; a `long` that is not negative is its own `size_t`.
unfoldable pub bind_max_depth : Option ℤ → Result (Bool × ℕ)
bind_max_depth none = ok (false, 0)
bind_max_depth (some (pos n)) = ok (true, n)
bind_max_depth (some (negsuc n)) = fail "bc-seek: --max-depth must be non-negative\n"

unfoldable pub bind_min_depth : Bool × ℕ → Option ℤ → Result ℕ
bind_min_depth (has_max_depth, max_depth) (some (negsuc n)) =
    fail "bc-seek: --min-depth must be non-negative\n"
bind_min_depth (has_max_depth, max_depth) (some (pos n)) =
    if has_max_depth && ltb max_depth n
    then fail "bc-seek: --min-depth cannot exceed --max-depth\n"
    else ok n
bind_min_depth (has_max_depth, max_depth) none =
    if has_max_depth && ltb max_depth 0
    then fail "bc-seek: --min-depth cannot exceed --max-depth\n"
    else ok 0
