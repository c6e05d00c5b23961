-- ===== src/Tests/Agrees.antt =====
-- `top/sub/b.c` and `top/sub`, as the parallel walk and the sequential one see them.
use bc_seek.Base.{
  ℕ, ◌+◌, ◌≡◌, ◌↔◌, ◌∙◌, refl, ap, true, false, not, ◌&&◌, ◌==◌, Option, none, some, [], ◌∷◌, ◌++◌,
  Bytes, codes, length, take-length, arith, if◌then◌else◌,
}
use bc_seek.Os.{dt_other}
use bc_seek.Filter.{accept, with_stat, type_of_stat}
use bc_seek.Filter.Evaluate.{evaluate}
use bc_seek.Output.Records.{Lacks}
use bc_seek.Walk.{WalkConfig, entry_candidate, should_descend, type_from_dtype}
use bc_seek.App.{zero_predicate}
use bc_seek.Parallel.Visit.{
  ParallelContext, WalkEntry, kind_directory, visit_candidate, parallel_should_descend, off_device,
  type_from_walk_kind,
}
use bc_seek.Parallel.Agrees.{FindsLast, Describes, visit_candidate-entry_candidate}
use bc_seek.Parallel.Descends.{parallel_should_descend-should_descend}
use bc_seek.Tests.Samples.{
  sample_core as core, sample_os as os, sample_writer as writer, sample_arrays, last_byte, entry,
  regular,
}
use bc_seek.Tests.Workers.{seen}

last_byte-Lacks :
    (b : Bytes) (byte i : ℕ) (found : Option ℕ) → Lacks byte b → last_byte b byte i found ≡ found
last_byte-Lacks [] byte i found lacks = refl
last_byte-Lacks (c ∷ b) byte i found (differs, rest) =
    let skipped : (if c == byte then some i else found) ≡ found = ground arith in
    last_byte-Lacks b byte (i + 1) (if c == byte then some i else found) rest ∙ skipped

last_byte-append :
    (a b : Bytes) (byte i : ℕ) (found : Option ℕ)
    → Lacks byte b
    → last_byte (a ++ byte ∷ b) byte i found ≡ some (i + length a)
last_byte-append [] b byte i found lacks =
    let met : (if byte == byte then some i else found) ≡ some (i + 0) = ground arith in
    last_byte-Lacks b byte (i + 1) (if byte == byte then some i else found) lacks ∙ met
last_byte-append (c ∷ a) b byte i found lacks =
    last_byte-append a b byte (i + 1) (if c == byte then some i else found) lacks
    ∙ ap (λ (n : ℕ). some n) {y = i + length (c ∷ a)} (omega arith)

core-FindsLast : FindsLast core
core-FindsLast = record {
  find_law = λ a b byte lacks.
      ap (λ (s : Bytes). last_byte s byte 0 none) (take-length (a ++ byte ∷ b))
      ∙ last_byte-append a b byte 0 none lacks
      ∙ ap (λ (n : ℕ). some n) {y = length a} (omega arith);
}

abbrev config : WalkConfig
config = record {
  predicate = zero_predicate;
  signal_handler = none;
  follow_symlinks = false;
  one_file_system = true;
}

abbrev context : ParallelContext
context = record {
  predicate = zero_predicate;
  output_separator = 10;
  follow_symlinks = false;
  one_file_system = true;
  root_device_initialized = true;
  root_device = 1;
}

described :
    Describes
      (seen "top/sub/b.c")
      (entry_candidate config 4 (codes "top/sub/b.c") 0 (entry "b.c" dt_other))
      (regular 5000)
unfolding entry_candidate with_stat type_from_dtype type_of_stat type_from_walk_kind
described = record {
  same_path = refl;
  same_length = refl;
  same_depth = refl;
  same_type = refl;
  listed = λ e. absurd (ground (arith, e));
  same_size = refl;
  small = ground arith;
  same_time = refl;
  same_mask = refl;
  known = refl;
}

visit_candidate-entry_candidate_example :
    ((evaluate os context.predicate (visit_candidate core context (seen "top/sub/b.c"))).0 ≡ accept)
    ↔ ((evaluate os config.predicate (
          entry_candidate config 4
            (codes "top/sub" ++ b'/' ∷ codes "b.c")
            0
            (entry "b.c" dt_other))).0
        ≡ accept)
visit_candidate-entry_candidate_example =
    visit_candidate-entry_candidate core core-FindsLast os config context refl 4 (codes "top/sub") 0
      (entry "b.c" dt_other) (ground arith) (seen "top/sub/b.c") (regular 5000) refl described refl
      (λ h. refl)

abbrev seen_directory : WalkEntry
seen_directory = record (seen "top/sub") { kind = kind_directory }

parallel_should_descend-should_descend_example :
    parallel_should_descend core os sample_arrays context seen_directory ≡ (
      should_descend os writer config core (codes "sub") 1
      && (not (zero_predicate.has_max_depth && (1 == zero_predicate.max_depth))
          && not (off_device context seen_directory)))
parallel_should_descend-should_descend_example =
    parallel_should_descend-should_descend core core-FindsLast os sample_arrays writer config
      context (codes "top") (codes "sub") seen_directory refl refl (ground arith) (ground arith)
      (λ e. absurd (ground (arith, e))) refl
