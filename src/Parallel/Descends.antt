-- ===== src/Parallel/Descends.antt =====
-- bc_seek_parallel_should_descend of src/discovery/bc_seek_discovery_walk_parallel.c beside the
-- sequential walk's bc_seek_walk_should_descend_directory.
use bc_seek.Base.{
  ℕ, ◌≡◌, ◌≢◌, ◌∙◌, ap, refl, not, ◌&&◌, ◌==◌, [], ◌∷◌, ◌++◌, Bytes, arith, length, codes,
}
use bc_seek.CoreLib.{BcCore}
use bc_seek.Os.{Os}
use bc_seek.Filter.{Predicate}
use bc_seek.Filter.Ignored.{ignored_directory_name}
use bc_seek.Output.{Writer}
use bc_seek.Output.Records.{Lacks}
use bc_seek.Walk.{WalkConfig, should_descend, is_hidden_name}
use bc_seek.Parallel.Visit.{
  Arrays, ParallelContext, WalkEntry, parallel_basename, parallel_should_descend,
  parallel_is_hidden_name, off_device,
}
use bc_seek.Parallel.Agrees.{FindsLast, parallel_basename-append}

-- The two tests for a hidden name differ only on the name of one dot.
hidden_lem :
    (name : Bytes)
    → Lacks 0 name
    → name ≢ codes "."
    → parallel_is_hidden_name name ≡ is_hidden_name name
unfolding parallel_is_hidden_name is_hidden_name
hidden_lem [] lacks other = refl
hidden_lem (c ∷ []) lacks other = ground (arith, one_dot)
  where
    one_dot : c ≡ b'.' → ⊥
    one_dot dot = other (ap (λ (x : ℕ). x ∷ []) dot)
hidden_lem (c ∷ d ∷ s) (first, (second, rest)) other = ground arith

module _ (C : BcCore) (F : FindsLast C) (os : Os) (A : Arrays) (W : Writer) (k : WalkConfig)
    (context : ParallelContext) where
  same_tests :
      (name : Bytes) (entry : WalkEntry)
      → parallel_basename C entry.absolute_path entry.absolute_path_length ≡ (name, length name)
      → parallel_is_hidden_name name ≡ is_hidden_name name
      → context.predicate ≡ k.predicate
      → parallel_should_descend C os A context entry ≡ (
          should_descend os W k C name entry.depth
          && (not (k.predicate.has_max_depth && (entry.depth == k.predicate.max_depth))
              && not (off_device context entry)))
  unfolding parallel_should_descend should_descend
  same_tests name entry named hidden same =
      let p = context.predicate in
      let ignored = ap (λ (n : Bytes × ℕ). ignored_directory_name C n.0 n.1) named in
      let dotted = ap (λ (n : Bytes × ℕ). parallel_is_hidden_name n.0) named ∙ hidden in
      let has_max = ap (λ (q : Predicate). q.has_max_depth) same in
      let max = ap (λ (q : Predicate). q.max_depth) same in
      let respect = ap (λ (q : Predicate). q.respect_ignore_defaults) same in
      let all = ap (λ (q : Predicate). q.include_hidden) same in
      ground (arith, ignored, dotted, has_max, max, respect, all)

  -- A worker enters a directory exactly if the sequential walk's test does, the directory does not
  -- lie at the maximum depth, where the sequential walk still opens it although it can print
  -- nothing below, and it lies on the device of the first root. The path ends in the name, which
  -- has no slash and no NUL and is not the dot, the predicate is that of the walk, and the search
  -- for the last slash is right.
  pub parallel_should_descend-should_descend :
      (parent name : Bytes) (entry : WalkEntry)
      → entry.absolute_path ≡ parent ++ b'/' ∷ name
      → entry.absolute_path_length ≡ length (parent ++ b'/' ∷ name)
      → Lacks b'/' name
      → Lacks 0 name
      → name ≢ codes "."
      → context.predicate ≡ k.predicate
      → parallel_should_descend C os A context entry ≡ (
          should_descend os W k C name entry.depth
          && (not (k.predicate.has_max_depth && (entry.depth == k.predicate.max_depth))
              && not (off_device context entry)))
  parallel_should_descend-should_descend parent name entry path count no_slash no_nul no_dot same =
      same_tests name entry
        (ap (λ (s : Bytes). parallel_basename C s entry.absolute_path_length) path
          ∙ ap (λ (n : ℕ). parallel_basename C (parent ++ b'/' ∷ name) n) count
          ∙ parallel_basename-append C F parent name no_slash)
        (hidden_lem name no_nul no_dot) same
