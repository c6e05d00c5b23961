-- ===== src/Cli/Parsers/Threads.antt =====
-- bc_seek_cli_parse_threads of src/cli/bc_seek_cli_parsers.c. A `size_t` has 64 bits.
use bc_seek.Base.{
  ℕ, ◌≡◌, ◌<◌, Option, none, some, Bytes, codes, get_or, not, ◌==◌, if◌then◌else◌, arith,
}
use bc_seek.Types.{ThreadsMode, auto, mono, explicit, io}
use bc_seek.CoreLib.{BcCore}
use bc_seek.Strings.{strings_equal, strings_length}

-- The result of the decimal parser: the value and the number of bytes read.
unfoldable pub threads_of_number : ℕ → Option (ℕ × ℕ) → Option (ThreadsMode × ℕ)
threads_of_number value_length none = none
threads_of_number value_length (some (parsed_value, consumed)) =
    if not (consumed == value_length)
    then none
    else if parsed_value == 0
    then some (mono, 0)
    else some (explicit, parsed_value)

unfoldable pub parse_threads : BcCore → Option Bytes → Option (ThreadsMode × ℕ)
unfolding threads_of_number
parse_threads C none = none
parse_threads C (some value) =
    if get_or value 0 0 == 0
    then none
    else if strings_equal C value (codes "mono")
    then some (mono, 0)
    else if strings_equal C value (codes "auto")
    then some (auto, 0)
    else if strings_equal C value (codes "io")
    then some (io, 0)
    else if strings_length C value == 0
    then none
    else threads_of_number (strings_length C value)
        (C.core_parse_decimal value (strings_length C value))

-- A worker count goes with the explicit mode only, and is then positive.
abbrev pub CountFits : ThreadsMode × ℕ → Type 0
CountFits (explicit, n) = 0 < n
CountFits (auto, n) = n ≡ 0
CountFits (mono, n) = n ≡ 0
CountFits (io, n) = n ≡ 0

-- An accepted `--threads` value gives a positive count in the explicit mode and the count 0 in the
-- others, whatever the core library returns.
pub parse_threads-CountFits :
    (C : BcCore) (value : Option Bytes) (mode : ThreadsMode) (n : ℕ)
    → parse_threads C value ≡ some (mode, n)
    → CountFits (mode, n)
unfolding parse_threads
parse_threads-CountFits C none mode n h = absurd (cc)
parse_threads-CountFits C (some value) mode n h = ground arith
