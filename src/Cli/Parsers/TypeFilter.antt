-- ===== src/Cli/Parsers/TypeFilter.antt =====
-- bc_seek_cli_parse_type_filter of src/cli/bc_seek_cli_parsers.c.
use bc_seek.Base.{◌||◌, Option, none, some, Bytes, codes, if◌then◌else◌}
use bc_seek.Types.{EntryType, file, directory, symlink}
use bc_seek.CoreLib.{BcCore}
use bc_seek.Strings.{strings_equal}

unfoldable pub parse_type_filter : BcCore → Bytes → Option EntryType
parse_type_filter C value =
    if strings_equal C value (codes "f") || strings_equal C value (codes "file")
    then some file
    else if strings_equal C value (codes "d") || strings_equal C value (codes "dir")
    then some directory
    else if strings_equal C value (codes "l")
        || strings_equal C value (codes "link")
        || strings_equal C value (codes "symlink")
    then some symlink
    else none
