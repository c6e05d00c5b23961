-- ===== src/Lib.antt =====
-- bc-seek: a file search in the manner of find(1).
--
-- The program reads options (src/cli), turns them into a predicate, walks directory trees
-- (src/discovery), asks the filter about each entry (src/filter) and prints the accepted paths
-- through a buffered output (src/output).
--
-- Types            include/internal/bc_seek_types_internal.h: enums and options, field by field.
-- CoreLib          the operations of the bc_core library on byte strings: parameters, with the laws
--                  that its documentation gives (`IsLawful`).
-- Strings          src/strings/bc_seek_strings.c.
-- Cli.Parsers      src/cli/bc_seek_cli_parsers.c, a child for each parser; `bc_seek_cli_parse_x` is
--                  `parse_x`, and the grammar that a parser accepts stands beside it.
-- Cli.Spec         the option table of src/cli/bc_seek_cli_spec.c as data; Cli.Allowed compares it
--                  with the parser of `--type`.
-- Cli.Bind, Cli.Options  `bc_seek_cli_bind_options` of the same file, one function for each option,
--                  composed in the source's order; Cli.Bound and Cli.Reflects are about its result.
-- Os               what is asked of the operating system and the C library: parameters.
-- Filter           src/filter/bc_seek_filter.c and its header: predicate, candidate and checks.
--                  Filter.Evaluate is the evaluation, Filter.Selected its meaning, Filter.Lazy and
--                  Filter.Transparent are about the lazy stat, Filter.Age about `--mtime`.
-- Output           src/output/bc_seek_output.c over a parameter for the buffered writer.
-- Walk             src/discovery/bc_seek_discovery_walk_sequential.c: Walk.Iterate is the loop over a
--                  directory, Walk.Roots the roots; Walk.Views names the ways through a round.
--                  Walk.Buffer is the path as an array; Walk.Spec lists what a walk is to print.
--                  Walk.Adds is about what a step adds to the text, Walk.Cuts about a walk that a
--                  signal stops; Walk.Rounds, Walk.Refines, Walk.RootPrints and Walk.Prints compare
--                  entries, directories, roots and the walk with the list. Walk.Cases and Walk.Opens
--                  split on the answers of the system. Walk.Terminates and Walk.Balance are about the
--                  fuel and the descriptors.
-- Parallel         src/discovery/bc_seek_discovery_walk_parallel.c: Parallel.Visit has the callbacks
--                  and the slots of the workers, Parallel.Roots the roots and the walk itself. At the
--                  end the slots are collected (Parallel.Collect) and written with `writev`
--                  (Parallel.Written, Parallel.Merge); the kernel's answers are a parameter, by the
--                  number of the call. Parallel.Found says what is to be found, and Parallel.Records,
--                  Parallel.Interleave, Parallel.Collected and Parallel.Complete lead from one visit
--                  to the text of the whole walk. Parallel.Agrees and Parallel.Descends compare the
--                  callbacks with the sequential walk, and Parallel.Order two schedules.
-- App              src/bc_seek_main.c: the state and the callbacks `bc_seek_application_init`, `_run`
--                  and `_cleanup`; App.Program is `main`. App.Ways lists the ways through `main`,
--                  App.Status, App.Exit and App.Usage are about the exit status, App.Released
--                  about the resources, App.Workers about the number of workers, App.Ready,
--                  App.Prints and App.Concurrent about the text that a command prints.
-- Tests            runs at concrete inputs, and the theorems applied to them.
--
-- A C string is the list of its bytes before the NUL, a string that may be NULL an `Option`. Unsigned
-- numbers are natural numbers with the wrap-around written out; `int64_t` and `time_t` are integers
-- (a signed overflow is undefined in C, and the subtraction of two times is taken not to overflow).
-- A function that returns `false` gives `none`, or an error with the text for standard error.
--
-- The recursion of the walk into subdirectories takes fuel, 4097 at a root: each level makes the path
-- at least one byte longer, and a path of 4096 bytes is never entered. The file system is a snapshot:
-- a query is a function of its arguments. Only the signal handler answers by the number of its polls.
-- `open_fds` is the list of the open directory descriptors: each successful `openat` of the sequential
-- walk enters its descriptor and each `close` removes it, those of a refused subdirectory among them.
-- A stream reader that is created on a descriptor is not followed. The loop over `writev` takes fuel
-- for each byte to write and each interrupted call.
--
-- The library of the parallel walk calls the program back from several workers. A run of it is a list
-- of calls in the order in which they take effect (`Schedule`), and nothing is assumed of that order: a
-- worker changes only its own slot, and the collector of errors takes reports one after the other. An
-- operation that may fail for want of memory is a function of the number of the call. `main` is a
-- function of what the libraries answer (`Platform`, `Runtime`); `none` is undefined behaviour, or a
-- walk that does not return. The error collector is the list of its errors.
--
-- Not modelled: the libraries bc_core, bc_runtime, bc_io, bc_allocators and bc_concurrency, which are
-- not in the repository, with the parser of the command line among them; which directories the library
-- of the parallel walk enters; tests, fuzzing drivers and scripts.
pub mod Base
pub mod Types
pub mod CoreLib
pub mod Strings
pub mod Cli
pub mod Os
pub mod Filter
pub mod Output
pub mod Walk
pub mod Parallel
pub mod App
mod Tests
