-- ===== src/App.antt =====
-- src/bc_seek_main.c: the state of the application and the callbacks that bc_runtime calls. What
-- the libraries answer is a record of parameters.
pub mod Program
pub mod Ways
pub mod Released
pub mod Concurrent
pub mod Prints
pub mod Ready
pub mod Exit
pub mod Usage
pub mod Workers
pub mod Status
use bc_seek.Base.{
  ℕ, zero, suc, ◌+◌, Bool, true, false, not, ◌&&◌, Option, none, some, List, [], ◌∷◌, ◌++◌, Bytes,
  String, length, take, ltb, leb, ◌==◌, if◌then◌else◌, codes, ℤ, pos, negsuc,
}
use bc_seek.Types.{
  any, equal, ThreadsMode, auto, mono, explicit, io, OutputMode, stdout_mode, file_mode, CliOptions,
}
use bc_seek.CoreLib.{BcCore}
use bc_seek.Os.{Os}
use bc_seek.Filter.{Predicate, predicate_from_options}
use bc_seek.Output.{Writer, Output, output_open_stdout, output_open_file, output_close}
use bc_seek.Walk.{WalkConfig, WalkError}
use bc_seek.Walk.Roots.{walk_sequential}
use bc_seek.Parallel.{Writev}
use bc_seek.Parallel.Visit.{Arrays}
use bc_seek.Parallel.Roots.{Schedule, Concurrency, Walked, of_sequential, walk_parallel}

-- What reaches the outside: the text on standard error, the reports of the error collector, the
-- descriptors closed, and the text written past the output's writer.
pub record Effects : Type 0 where
  pub stderr_text : Bytes
  pub reports : List (List WalkError)
  pub closed : List ℤ
  pub direct_text : Bytes

-- `ready` tells whether the writer of standard error was set up. NULL parts are left out.
unfoldable pub emit_stderr_message :
    Bool → Option Bytes → Option Bytes → Option Bytes → Option Bytes → Bytes
emit_stderr_message ready prefix middle path suffix =
    if not ready then [] else part prefix ++ (part middle ++ (part path ++ part suffix))
  where
    part : Option Bytes → Bytes
    part none = []
    part (some s) = s

-- What the runtime, the clock and the system answer to the callbacks.
pub record Runtime : Type 0 where
  pub memory_context : Bool
  pub collector_create : Bool
  pub parallel_context : Option Concurrency
  pub signal_handler : Option (ℕ → Bool)
  -- `bc_runtime_should_stop` after the walk
  pub interrupted : Bool
  pub stderr_ready : Bool
  pub now : ℤ
  pub open_file : Bytes → Option ℕ
  pub close_fd : ℤ → Bool

-- `errors` is `none` for NULL.
pub record ApplicationState (W : Writer) : Type 0 where
  pub cli_options : CliOptions
  pub predicate : Predicate
  pub output : Output W
  pub output_opened : Bool
  pub errors : Option (List WalkError)
  pub exit_code : ℕ
  pub effects : Effects

-- A predicate, an output and a state as `bc_core_zero` leaves them.
abbrev pub zero_predicate : Predicate
zero_predicate = record {
  has_name_glob = false;
  name_glob = none;
  name_case_insensitive = false;
  has_path_glob = false;
  path_glob = none;
  has_type_filter = false;
  type_filter = any;
  has_size_filter = false;
  size_op = equal;
  size_threshold_bytes = 0;
  has_mtime_filter = false;
  mtime_op = equal;
  mtime_threshold_seconds_ago = pos 0;
  has_newer_reference = false;
  newer_reference_mtime = pos 0;
  has_perm_filter = false;
  perm_mask = 0;
  has_max_depth = false;
  max_depth = 0;
  min_depth = 0;
  include_hidden = false;
  respect_ignore_defaults = false;
  follow_symlinks = false;
  require_stat = false;
  evaluation_reference_time = pos 0;
}

abbrev pub no_effects : Effects
no_effects = record { stderr_text = []; reports = []; closed = []; direct_text = [] }

abbrev pub zero_output : (W : Writer) → Output W
zero_output W = record {
  writer = W.zeroed;
  fd = pos 0;
  owns_fd = false;
  separator = 0;
  emitted_count = 0;
}

-- The state in `main` once the options are bound.
abbrev pub initial_state : (W : Writer) → CliOptions → ApplicationState W
initial_state W options = record {
  cli_options = options;
  predicate = zero_predicate;
  output = zero_output W;
  output_opened = false;
  errors = none;
  exit_code = 0;
  effects = no_effects;
}

-- `state->exit_code = 1; return false`
abbrev pub failing : {W : Writer} → ApplicationState W → Bool × ApplicationState W
failing s = (false, record s { exit_code = 1 })

abbrev pub say : {W : Writer} → ApplicationState W → Bytes → ApplicationState W
say s text = record s { effects = record s.effects { stderr_text = s.effects.stderr_text ++ text } }

abbrev pub close_all : {W : Writer} → ApplicationState W → List ℤ → ApplicationState W
close_all s fds = record s { effects = record s.effects { closed = s.effects.closed ++ fds } }

-- `open(NULL)` fails.
abbrev pub open_option : (Bytes → Option ℕ) → Option Bytes → Bytes → Option ℕ
open_option open_file none path = none
open_option open_file (some name) path = open_file name

module _ (W : Writer) (rt : Runtime) where
  -- The output by the mode of the options, with the text for standard error if it fails.
  unfoldable pub open_output : ApplicationState W → Bool × ApplicationState W
  unfolding emit_stderr_message
  open_output s = elim (s.cli_options.output_mode) [
    | stdout_mode ↦
        let (ok, output, fds) = output_open_stdout W s.cli_options.null_terminated in
        let t = close_all (record s { output = output }) fds in
        if ok
        then (true, record t { output_opened = true })
        else failing (
            say t (
              emit_stderr_message rt.stderr_ready
                (some (codes "bc-seek: cannot configure stdout output\n")) none none none))
    | file_mode ↦
        let (ok, output, fds) =
          output_open_file W (open_option rt.open_file s.cli_options.output_path) []
            s.cli_options.null_terminated s.output in
        let t = close_all (record s { output = output }) fds in
        if ok
        then (true, record t { output_opened = true })
        else failing (
            say t (
              emit_stderr_message rt.stderr_ready (some (codes "bc-seek: cannot open output '"))
                none s.cli_options.output_path (some (codes "'\n"))))
  ]

  unfoldable pub application_init : ApplicationState W → Bool × ApplicationState W
  unfolding open_output
  application_init s =
      if not rt.memory_context
      then failing s
      else if not rt.collector_create
      then failing s
      else open_output
          (record s { errors = some []; predicate = predicate_from_options rt.now s.cli_options })

  -- The output is closed once, and the errors are destroyed if there is memory to destroy them in.
  unfoldable pub application_cleanup : ApplicationState W → ApplicationState W
  application_cleanup s =
      let (ok, output, fds) = output_close W rt.close_fd s.output in
      let t : ApplicationState W =
        if s.output_opened
        then close_all (record s { output = output; output_opened = false }) fds
        else s in
      if not rt.memory_context then t else record t { errors = none }

-- `(size_t)positional_argument_count` of the values; `argc` keeps the count from being negative.
abbrev pub root_paths : CliOptions → List Bytes
root_paths o = elim (o.positional_argument_count) [
  | pos n ↦ take n o.positional_argument_values
  | negsuc n ↦ o.positional_argument_values
]

abbrev pub is_mono : ThreadsMode → Bool
is_mono auto = false
is_mono mono = true
is_mono explicit = false
is_mono io = false

abbrev pub walk_config : {W : Writer} → Runtime → ApplicationState W → WalkConfig
walk_config rt s = record {
  predicate = s.predicate;
  signal_handler = rt.signal_handler;
  follow_symlinks = s.cli_options.follow_symlinks;
  one_file_system = s.cli_options.one_file_system;
}

module _ (C : BcCore) (os : Os) (A : Arrays) (schedule : Schedule) (W : Writer) (writev : Writev)
    (iov_max : ℕ) (fuel : ℕ) (rt : Runtime) where
  -- The choice of the walk.
  unfoldable pub walk_by_mode : Concurrency → ApplicationState W → Option (Walked W)
  walk_by_mode concurrency s =
      if leb 2 concurrency.effective_worker_count && not (is_mono s.cli_options.threads_mode)
      then walk_parallel C os A schedule W writev iov_max fuel (walk_config rt s) (some concurrency)
          (root_paths s.cli_options) s.output
      else of_sequential
          (walk_sequential C os W (walk_config rt s) (root_paths s.cli_options) s.output)

  -- The exit status after the walk.
  unfoldable pub finish_run : Walked W → ApplicationState W → Bool × ApplicationState W
  finish_run walked s =
      let t : ApplicationState W = record s {
        output = walked.output;
        errors = some walked.errors;
        effects = record s.effects {
          reports = s.effects.reports ++ walked.errors ∷ [];
          direct_text = s.effects.direct_text ++ walked.direct_text;
        };
      } in
      if rt.interrupted
      then (false, record t { exit_code = 130 })
      else if not walked.walk_ok && (length walked.errors == 0)
      then failing t
      else (true, record t { exit_code = if length walked.errors == 0 then 0 else 1 })

  unfoldable pub application_run : ApplicationState W → Option (Bool × ApplicationState W)
  unfolding walk_by_mode finish_run
  application_run s =
      if not rt.memory_context then some (failing s) else elim (rt.parallel_context) [
        | none ↦ some (failing s)
        | some concurrency ↦ elim (walk_by_mode concurrency s) [
          | none ↦ none
          | some walked ↦ some (finish_run walked s)
        ]
      ]
