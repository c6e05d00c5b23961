-- ===== src/Cli/Spec.antt =====
-- The option table of src/cli/bc_seek_cli_spec.c. The parser that reads it is the bc_runtime
-- library's.
use bc_seek.Base.{ℕ, Bool, false, Option, none, some, List, [], ◌∷◌, String}

pub data OptionType : Type 0 where
  string_option enum_option integer_option flag_option : OptionType

pub record OptionSpec : Type 0 where
  pub long_name : String
  pub type : OptionType
  pub allowed_values : List String
  pub default_value : Option String
  pub required : Bool
  pub value_placeholder : Option String
  pub help_summary : String

pub record CommandSpec : Type 0 where
  pub name : String
  pub summary : String
  pub options : List OptionSpec
  pub positional_usage : String
  pub positional_min : ℕ
  pub positional_max : ℕ

pub record ProgramSpec : Type 0 where
  pub program_name : String
  pub version : String
  pub summary : String
  pub global_options : List OptionSpec
  pub commands : List CommandSpec

abbrev pub type_allowed_values : List String
type_allowed_values = "f" ∷ "d" ∷ "l" ∷ "file" ∷ "dir" ∷ "link" ∷ "symlink" ∷ []

-- Shorthands for the rows of the table.
abbrev text_row : String → String → String → OptionSpec
text_row long_name placeholder help = record {
  long_name = long_name;
  type = string_option;
  allowed_values = [];
  default_value = none;
  required = false;
  value_placeholder = some placeholder;
  help_summary = help;
}

abbrev flag_row : String → String → OptionSpec
flag_row long_name help = record {
  long_name = long_name;
  type = flag_option;
  allowed_values = [];
  default_value = none;
  required = false;
  value_placeholder = none;
  help_summary = help;
}

abbrev pub global_options : List OptionSpec
global_options =
    record (text_row "threads" "mono|auto|io|N"
      "thread mode: mono (single-thread, alias 0), auto (CPU-bound, physical cores - 1, default), io (I/O-bound, logical processors - 1, oversubscribe), or N (1..logical_cpu_count)") {
        default_value = some "auto";
      }
    ∷ []

abbrev pub find_options : List OptionSpec
find_options =
    text_row "name" "GLOB" "match entries whose basename matches the shell glob"
    ∷ text_row "iname" "GLOB" "like --name but case-insensitive"
    ∷ text_row "path" "GLOB" "match entries whose full path matches the shell glob"
    ∷ record (text_row "type" "f|d|l" "filter by entry type") {
      type = enum_option;
      allowed_values = type_allowed_values;
    }
    ∷ text_row "size" "+N|-N|N[cwbkMGT]"
        "filter by size (find(1) syntax; default unit: 512-byte blocks)"
    ∷ text_row "mtime" "+N|-N|N" "filter by modification age in 24h units (find(1) semantics)"
    ∷ text_row "newer" "PATH" "match entries modified more recently than the reference file"
    ∷ text_row "perm" "OCTAL" "match entries whose permission bits equal the octal mask"
    ∷ record (text_row "max-depth" "N" "descend at most N levels below each root") {
      type = integer_option;
    }
    ∷ record (text_row "min-depth" "N" "do not emit entries shallower than N") {
      type = integer_option;
      default_value = some "0";
    }
    ∷ flag_row "hidden" "include entries whose basename starts with a dot"
    ∷ flag_row "no-ignore" "do not prune well-known directories (.git, node_modules, ...)"
    ∷ flag_row "follow-symlinks" "follow symbolic links during descent"
    ∷ flag_row "one-file-system" "do not cross filesystem boundaries"
    ∷ flag_row "null" "separate matches with a NUL byte instead of a newline"
    ∷ record (text_row "output" "-|PATH" "output destination (- writes to stdout)") {
      default_value = some "-";
    }
    ∷ []

abbrev pub commands : List CommandSpec
commands =
    record {
      name = "find";
      summary = "enumerate files matching predicates";
      options = find_options;
      positional_usage = "[path...]";
      positional_min = 0;
      positional_max = 0;
    }
    ∷ []

abbrev pub program_spec_value : String → ProgramSpec
program_spec_value version = record {
  program_name = "bc-seek";
  version = version;
  summary = "parallel hardware-saturating file search";
  global_options = global_options;
  commands = commands;
}
