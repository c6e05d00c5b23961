-- ===== src/Tests/Cli.antt =====
-- The command line: runs of the parsers, and the theorems at concrete texts.
use bc_seek.Base.{
  ℕ, ◌≡◌, ◌≢◌, ◌↔◌, ◌≤◌, refl, true, none, some, [], ◌∷◌, codes, take, pos, ok, arith,
}
use bc_seek.Types.{explicit, greater, less}
use bc_seek.Strings.{strings_equal, strings_length, strings_equal_iff}
use bc_seek.Cli.Parsers.Unsigned.{parse_unsigned, parse_unsigned_iff, Spells}
use bc_seek.Cli.Parsers.Sign.{split_sign}
use bc_seek.Cli.Parsers.Size.{
  parse_size_filter, parse_size_cursor, parse_size_digits, scale_size, size_suffix, SizeText,
}
use bc_seek.Cli.Parsers.SizeText.{parse_size_filter_iff}
use bc_seek.Cli.Parsers.Mtime.{
  parse_mtime_filter, parse_mtime_cursor, DaysText, parse_mtime_filter_iff,
}
use bc_seek.Cli.Parsers.Perm.{
  parse_perm_filter, parse_perm_loop, push_octal, PermText, parse_perm_filter_iff,
}
use bc_seek.Cli.Parsers.Threads.{parse_threads, CountFits, parse_threads-CountFits}
use bc_seek.Cli.Parsers.TypeFilter.{parse_type_filter}
use bc_seek.Cli.Spec.{type_allowed_values}
use bc_seek.Cli.Allowed.{is_allowed, parse_type_filter-is_allowed}
use bc_seek.Cli.Bind.{
  bind_global_threads, lookup_string, lookup_integer, lookup_boolean, bind_output, bind_name,
  bind_path, bind_type, bind_size, bind_mtime, bind_newer, bind_perm, bind_max_depth,
  bind_min_depth,
}
use bc_seek.Cli.Options.{bind_options, bind_output_option}
use bc_seek.Cli.Reflects.{Reflects, bind_options-Reflects, bind_options-bounds}
use bc_seek.Tests.Samples.{
  sample_core as core, sample_core-IsLawful as lawful, sample_store, no_reference, bound,
}

size_run : parse_size_filter core (some (codes "+3k")) ≡ some (greater, 3072)
unfolding parse_size_filter parse_size_cursor parse_size_digits scale_size size_suffix split_sign
    parse_unsigned strings_length
size_run = refl

size_overflow : parse_size_filter core (some (codes "18014398509481984k")) ≡ none
unfolding parse_size_filter parse_size_cursor parse_size_digits scale_size size_suffix split_sign
    parse_unsigned strings_length
size_overflow = refl

mtime_run : parse_mtime_filter core (some (codes "-2")) ≡ some (less, pos 2)
unfolding parse_mtime_filter parse_mtime_cursor split_sign parse_unsigned strings_length
mtime_run = refl

perm_run : parse_perm_filter core (some (codes "0644")) ≡ some 0o644
unfolding parse_perm_filter parse_perm_loop push_octal strings_length
perm_run = refl

perm_wide : parse_perm_filter core (some (codes "10000")) ≡ none
unfolding parse_perm_filter parse_perm_loop push_octal strings_length
perm_wide = refl

threads_run : parse_threads core (some (codes "4")) ≡ some (explicit, 4)
unfolding parse_threads strings_equal strings_length parse_unsigned
threads_run = refl

bind_run : bind_options core no_reference sample_store (codes "src" ∷ []) ≡ ok bound
unfolding bind_options bind_output_option bind_global_threads lookup_string lookup_integer
    lookup_boolean bind_output bind_name bind_path bind_type bind_size bind_mtime bind_newer
    bind_perm bind_max_depth bind_min_depth parse_threads strings_equal strings_length
    parse_size_filter parse_size_cursor parse_size_digits scale_size size_suffix split_sign
    parse_unsigned parse_mtime_filter parse_mtime_cursor parse_perm_filter parse_perm_loop
    push_octal
bind_run = refl

strings_equal_iff_example :
    (strings_equal core (codes "-") (codes "-") ≡ true) ↔ (codes "-" ≡ codes "-")
strings_equal_iff_example = strings_equal_iff core lawful (codes "-") (codes "-")

parse_unsigned_iff_example :
    (parse_unsigned (codes "42k") 2 ≡ some 42) ↔ Spells (take 2 (codes "42k")) 42
parse_unsigned_iff_example = parse_unsigned_iff (codes "42k") 2 42 (omega arith)

parse_size_filter_iff_example :
    (parse_size_filter core (some (codes "+3k")) ≡ some (greater, 3072))
    ↔ SizeText (codes "+3k") greater 3072
parse_size_filter_iff_example = parse_size_filter_iff core lawful (codes "+3k") greater 3072

parse_mtime_filter_iff_example :
    (parse_mtime_filter core (some (codes "-2")) ≡ some (less, pos 2))
    ↔ ((n : ℕ) × (pos 2 ≡ pos n) × DaysText (codes "-2") less n)
parse_mtime_filter_iff_example = parse_mtime_filter_iff core lawful (codes "-2") less (pos 2)

parse_perm_filter_iff_example :
    (parse_perm_filter core (some (codes "0644")) ≡ some 0o644) ↔ PermText (codes "0644") 0o644
parse_perm_filter_iff_example = parse_perm_filter_iff core lawful (codes "0644") 0o644

parse_threads-CountFits_example : CountFits (explicit, 4)
parse_threads-CountFits_example =
    parse_threads-CountFits core (some (codes "4")) explicit 4 threads_run

parse_type_filter-is_allowed_example :
    (is_allowed type_allowed_values (codes "link") ≡ true)
    ↔ (parse_type_filter core (codes "link") ≢ none)
parse_type_filter-is_allowed_example = parse_type_filter-is_allowed core lawful (codes "link")

bind_options-Reflects_example : Reflects core no_reference sample_store bound
bind_options-Reflects_example =
    bind_options-Reflects core no_reference sample_store lawful (codes "src" ∷ []) bound bind_run

bind_options-bounds_example :
    (bound.has_max_depth ≡ true → bound.min_depth ≤ bound.max_depth)
    × CountFits (bound.threads_mode, bound.explicit_worker_count)
bind_options-bounds_example =
    bind_options-bounds core no_reference sample_store (codes "src" ∷ []) bound bind_run
