-- ===== src/Parallel/Agrees.antt =====
-- The candidate and the decision on an entry in src/discovery/bc_seek_discovery_walk_parallel.c,
-- beside those of the sequential walk.
use bc_seek.Base.{
  ℕ, suc, ◌+◌, ◌-◌, ◌^◌, ◌<◌, ◌≡◌, ◌≢◌, ◌↔◌, ◌∙◌, sym, ap, refl, true, false, not, some, [], ◌∷◌,
  ◌++◌, Bytes, arith, length, length-append, drop, bit_and,
}
use bc_seek.Types.{EntryType, any, file, directory, symlink, entry_type_equal}
use bc_seek.CoreLib.{BcCore}
use bc_seek.Os.{Os, Stat, stat_ok, DirEntry, open_fd}
use bc_seek.Filter.{Predicate, Candidate, accept, with_stat, size_of_stat}
use bc_seek.Filter.Evaluate.{evaluate}
use bc_seek.Filter.Lazy.{StatRule}
use bc_seek.Filter.Selected.{Selected, evaluate-Selected}
use bc_seek.Filter.Transparent.{evaluate-with_stat, known-with_stat}
use bc_seek.Output.Records.{Lacks}
use bc_seek.Walk.{WalkConfig, entry_candidate, type_from_dtype}
use bc_seek.Parallel.Visit.{
  ParallelContext, WalkEntry, visit_candidate, type_from_walk_kind, parallel_basename,
}

-- The search from the end finds the last byte of its kind.
pub record FindsLast (C : BcCore) : Type 0 where
  pub find_law :
      (a b : Bytes) (byte : ℕ)
      → Lacks byte b
      → C.core_find_last_byte (a ++ byte ∷ b) (length (a ++ byte ∷ b)) byte ≡ some (length a)

drop_past : (a : Bytes) (x : ℕ) (b : Bytes) → drop (suc (length a)) (a ++ x ∷ b) ≡ b
drop_past [] x b = refl
drop_past (y ∷ a) x b = drop_past a x b

drop-append : (a : Bytes) (x : ℕ) (b : Bytes) (n : ℕ) → n ≡ length a + 1 → drop n (a ++ x ∷ b) ≡ b
drop-append a x b n e =
    ap (λ (m : ℕ). drop m (a ++ x ∷ b)) {y = suc (length a)} (omega (arith, e)) ∙ drop_past a x b

-- The filters hold of a candidate by what they read of it.
Selected-same :
    (os : Os) (p : Predicate) (c d : Candidate)
    → d.depth ≡ c.depth
    → d.type_resolved ≡ c.type_resolved
    → d.entry_type ≡ c.entry_type
    → d.basename ≡ c.basename
    → d.path ≡ c.path
    → d.stat_populated ≡ c.stat_populated
    → d.size_bytes ≡ c.size_bytes
    → d.modification_time ≡ c.modification_time
    → d.permission_mask ≡ c.permission_mask
    → Selected os p c
    → Selected os p d
Selected-same os p c d depth resolved type name path populated size time mask s = record {
  in_depth = rw depth s.in_depth;
  has_type = rw (resolved, type) s.has_type;
  has_name = rw name s.has_name;
  has_path = rw path s.has_path;
  has_size = rw (populated, size) s.has_size;
  has_age = rw (populated, time) s.has_age;
  is_newer = rw (populated, time) s.is_newer;
  has_perm = rw (populated, mask) s.has_perm;
}

known_type : (t : EntryType) → t ≢ any → not (entry_type_equal t any) ≡ true
known_type file h = refl
known_type directory h = refl
known_type symlink h = refl
known_type any h = absurd (h refl)

-- The library describes the entry as its stat does.
pub record Describes (entry : WalkEntry) (c : Candidate) (st : Stat) : Type 0 where
  pub same_path : entry.absolute_path ≡ c.path
  pub same_length : entry.absolute_path_length ≡ length c.path
  pub same_depth : entry.depth ≡ c.depth
  pub same_type : type_from_walk_kind entry.kind ≡ (with_stat c st).entry_type
  pub listed : type_from_walk_kind entry.kind ≢ any
  pub same_size : entry.file_size ≡ size_of_stat st
  pub small : entry.file_size < 2 ^ 64
  pub same_time : entry.modification_time_seconds ≡ st.st_mtime
  pub same_mask : entry.permission_mask ≡ bit_and st.st_mode 0o7777
  pub known : entry.stat_populated ≡ true

module _ (C : BcCore) (F : FindsLast C) where
  pub parallel_basename-append :
      (parent name : Bytes)
      → Lacks b'/' name
      → parallel_basename C (parent ++ b'/' ∷ name) (length (parent ++ b'/' ∷ name))
        ≡ (name, length name)
  unfolding parallel_basename
  parallel_basename-append parent name lacks =
      let found = F.find_law parent name b'/' lacks in
      let tail = drop-append parent b'/' name (length parent + 1) refl in
      let count : length (parent ++ b'/' ∷ name) - (length parent + 1) ≡ length name =
        omega (arith, length-append parent (b'/' ∷ name)) in
      ground (arith, found, tail, count)

module _ (C : BcCore) (F : FindsLast C) (os : Os) (k : WalkConfig) (context : ParallelContext)
    (rule : StatRule k.predicate) (fd : ℕ) (parent : Bytes) (depth : ℕ) (e : DirEntry)
    (lacks : Lacks b'/' e.entry_name) (entry : WalkEntry) (st : Stat) where
  abbrev child : Bytes
  child = parent ++ b'/' ∷ e.entry_name

  -- The sequential walk's candidate.
  abbrev walked : Candidate
  walked = entry_candidate k fd child depth e

  basename-walked : walked.basename ≡ e.entry_name
  unfolding entry_candidate
  basename-walked =
      drop-append parent b'/' e.entry_name (length child - length e.entry_name)
        (omega (arith, length-append parent (b'/' ∷ e.entry_name)))

  basename-visited :
      Describes entry walked st → (visit_candidate C context entry).basename ≡ e.entry_name
  unfolding visit_candidate entry_candidate
  basename-visited d =
      ap (λ (path : Bytes). (parallel_basename C path entry.absolute_path_length).0) d.same_path
      ∙ ap (λ (n : ℕ). (parallel_basename C child n).0) d.same_length
      ∙ ap (λ (named : Bytes × ℕ). named.0) (parallel_basename-append C F parent e.entry_name lacks)

  -- What both candidates show to the filters.
  Selected-visited :
      Describes entry walked st
      → (Selected os k.predicate (with_stat walked st)
          ↔ Selected os k.predicate (visit_candidate C context entry))
  unfolding visit_candidate with_stat entry_candidate
  Selected-visited d =
      let v = visit_candidate C context entry in
      let w = with_stat walked st in
      let resolved : v.type_resolved ≡ w.type_resolved =
        known_type (type_from_walk_kind entry.kind) d.listed
        ∙ sym (known-with_stat os k.predicate walked st).0 in
      let size : v.size_bytes ≡ w.size_bytes = ground (arith, d.small, d.same_size) in
      let named : v.basename ≡ w.basename = basename-visited d ∙ sym basename-walked in
      (
        Selected-same os k.predicate w v d.same_depth resolved d.same_type named d.same_path d.known
            size d.same_time d.same_mask,
        Selected-same os k.predicate v w (sym d.same_depth) (sym resolved) (sym d.same_type)
            (sym named) (sym d.same_path) (sym d.known) (sym size) (sym d.same_time)
            (sym d.same_mask),
      )

  lazily :
      os.fstatat (open_fd fd) e.entry_name (not k.follow_symlinks) ≡ stat_ok st
      → ((type_from_dtype e.d_type).1 ≡ true → k.follow_symlinks ≡ false)
      → (evaluate os k.predicate walked).0 ≡ (evaluate os k.predicate (with_stat walked st)).0
  unfolding entry_candidate
  lazily found quiet =
      evaluate-with_stat os k.predicate rule walked st refl
        (ap (λ (name : Bytes). os.fstatat (open_fd fd) name (not k.follow_symlinks)) basename-walked
          ∙ found)
        quiet

  visited-known :
      Describes entry walked st
      → ((visit_candidate C context entry).type_resolved ≡ true)
        × ((visit_candidate C context entry).stat_populated ≡ true)
  unfolding visit_candidate
  visited-known d = (known_type (type_from_walk_kind entry.kind) d.listed, d.known)

  -- The worker of a parallel walk accepts an entry exactly if the sequential walk does, which asks
  -- for the stat only when a filter needs it. The entry is listed under its parent with a name that
  -- has no slash, its stat can be had, the library describes it as that stat does and of a type
  -- that can be filtered, a type that the directory tells is not that of a followed link, the
  -- predicate is that of the walk and asks for a stat if a filter needs one, and the search for the
  -- last slash is right.
  pub visit_candidate-entry_candidate :
      context.predicate ≡ k.predicate
      → Describes entry walked st
      → os.fstatat (open_fd fd) e.entry_name (not k.follow_symlinks) ≡ stat_ok st
      → ((type_from_dtype e.d_type).1 ≡ true → k.follow_symlinks ≡ false)
      → ((evaluate os context.predicate (visit_candidate C context entry)).0 ≡ accept) ↔ (
          (evaluate os k.predicate (entry_candidate k fd (parent ++ b'/' ∷ e.entry_name) depth e)).0
          ≡ accept)
  visit_candidate-entry_candidate same d found quiet =
      let p = k.predicate in
      let v = visit_candidate C context entry in
      let w = with_stat walked st in
      let (v_typed, v_known) = visited-known d in
      let (w_typed, w_known) = known-with_stat os p walked st in
      let of_v = evaluate-Selected os p v v_typed v_known in
      let of_w = evaluate-Selected os p w w_typed w_known in
      let lazy = lazily found quiet in
      let at_walk : (evaluate os context.predicate v).0 ≡ (evaluate os p v).0 =
        ap (λ (q : Predicate). (evaluate os q v).0) same in
      (
        λ h. lazy ∙ ap (λ r. r.0) (of_w.1 ((Selected-visited d).1 (of_v.0 (sym at_walk ∙ h)))),
        λ h. at_walk ∙ ap (λ r. r.0) (of_v.1 ((Selected-visited d).0 (of_w.0 (sym lazy ∙ h)))),
      )
