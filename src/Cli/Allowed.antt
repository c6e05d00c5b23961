-- ===== src/Cli/Allowed.antt =====
-- The values of `--type` in the option table of src/cli/bc_seek_cli_spec.c, beside
-- bc_seek_cli_parse_type_filter.
use bc_seek.Base.{
  Bool, true, false, ◌||◌, ◌≡◌, ◌≢◌, ◌↔◌, none, some, if◌then◌else◌, List, [], ◌∷◌, Bytes, String,
  codes, bytes_equal, arith,
}
use bc_seek.Types.{file, directory, symlink}
use bc_seek.CoreLib.{BcCore, IsLawful}
use bc_seek.Strings.{strings_equal_lem}
use bc_seek.Cli.Parsers.TypeFilter.{parse_type_filter}
use bc_seek.Cli.Spec.{type_allowed_values}

-- The value stands in a list of allowed ones.
abbrev pub is_allowed : List String → Bytes → Bool
is_allowed [] value = false
is_allowed (v ∷ vs) value = bytes_equal value (codes v) || is_allowed vs value

-- The choice among the seven comparisons.
choice-ne-none :
    (f d l file' dir' link' symlink' : Bool)
    → ((f || (d || (l || (file' || (dir' || (link' || (symlink' || false))))))) ≡ true) ↔ (
        (if f || file'
          then some file
          else if d || dir'
          then some directory
          else if l || link' || symlink'
          then some symlink
          else none)
        ≢ none)
choice-ne-none f d l file' dir' link' symlink' = ground arith

-- `parse_type_filter` accepts exactly the values that the table allows for `--type`. The core
-- library is lawful.
pub parse_type_filter-is_allowed :
    (C : BcCore)
    → IsLawful C
    → (value : Bytes)
    → (is_allowed type_allowed_values value ≡ true) ↔ (parse_type_filter C value ≢ none)
unfolding parse_type_filter
parse_type_filter-is_allowed C L value =
    let same = λ (s : String). bytes_equal value (codes s) in
    simp (strings_equal_lem C L, parse_type_filter)
      (choice-ne-none (same "f") (same "d") (same "l") (same "file") (same "dir") (same "link")
        (same "symlink"))
