-- ===== src/Filter/Selected.antt =====
-- The meaning of a predicate, `Selected`, beside bc_seek_filter_evaluate: one condition for each
-- filter.
use bc_seek.Base.{
  Option, if◌then◌else◌, ℕ, ◌%◌, ◌≤◌, ◌<◌, ◌≡◌, ◌≢◌, ◌↔◌, refl, Bool, true, false, Bytes, ℤ, pos,
  ◌-ℤ◌, ◌<ℤ◌, ltb_ℤ_iff, eqb_ℤ_iff, ==_iff, bit_and-octal, arith, not,
}
use bc_seek.Types.{EntryType, entry_type_equal, CompareOp, equal, greater, less}
use bc_seek.Os.{Os}
use bc_seek.Filter.{
  Predicate, Candidate, accept, stat_required, verdict, filter_compare, filter_compare_signed,
  glob_matches, check_depth, check_type, check_name, check_path, check_size, check_mtime,
  check_newer, check_perm,
}
use bc_seek.Filter.Evaluate.{
  evaluate_stat, evaluate_required, evaluate_names, evaluate_type, evaluate,
}

abbrev pub Compares : CompareOp → ℕ → ℕ → Type 0
Compares equal a b = a ≡ b
Compares greater a b = b < a
Compares less a b = a < b

abbrev pub ComparesInt : CompareOp → ℤ → ℤ → Type 0
ComparesInt equal a b = a ≡ b
ComparesInt greater a b = b <ℤ a
ComparesInt less a b = a <ℤ b

module _ (os : Os) (p : Predicate) (c : Candidate) where
  abbrev pub InDepth : Type 0
  InDepth = (p.min_depth ≤ c.depth) × (p.has_max_depth ≡ true → c.depth ≤ p.max_depth)

  abbrev pub HasType : Type 0
  HasType = p.has_type_filter ≡ true → (c.type_resolved ≡ true) × (c.entry_type ≡ p.type_filter)

  abbrev pub HasName : Type 0
  HasName =
      p.has_name_glob ≡ true → os.fnmatch p.name_glob c.basename p.name_case_insensitive ≡ pos 0

  abbrev pub HasPath : Type 0
  HasPath = p.has_path_glob ≡ true → os.fnmatch p.path_glob c.path false ≡ pos 0

  abbrev pub HasSize : Type 0
  HasSize =
      p.has_size_filter ≡ true
      → (c.stat_populated ≡ true) × Compares p.size_op c.size_bytes p.size_threshold_bytes

  abbrev pub HasAge : Type 0
  HasAge =
      p.has_mtime_filter ≡ true
      → (c.stat_populated ≡ true)
        × ComparesInt p.mtime_op (p.evaluation_reference_time -ℤ c.modification_time)
            p.mtime_threshold_seconds_ago

  abbrev pub IsNewer : Type 0
  IsNewer =
      p.has_newer_reference ≡ true
      → (c.stat_populated ≡ true) × (p.newer_reference_mtime <ℤ c.modification_time)

  abbrev pub HasPerm : Type 0
  HasPerm =
      p.has_perm_filter ≡ true
      → (c.stat_populated ≡ true) × (c.permission_mask % 4096 ≡ p.perm_mask % 4096)

  -- Every filter that is given holds.
  pub record Selected : Type 0 where
    pub in_depth : InDepth
    pub has_type : HasType
    pub has_name : HasName
    pub has_path : HasPath
    pub has_size : HasSize
    pub has_age : HasAge
    pub is_newer : IsNewer
    pub has_perm : HasPerm

entry_type_equal_iff : (a b : EntryType) → (entry_type_equal a b ≡ true) ↔ (a ≡ b)
entry_type_equal_iff a b = ground arith

filter_compare_iff : (a b : ℕ) (op : CompareOp) → (filter_compare a b op ≡ true) ↔ Compares op a b
unfolding filter_compare
filter_compare_iff a b equal = ground arith
filter_compare_iff a b greater = ground arith
filter_compare_iff a b less = ground arith

filter_compare_signed_iff :
    (a b : ℤ) (op : CompareOp) → (filter_compare_signed a b op ≡ true) ↔ ComparesInt op a b
unfolding filter_compare_signed
filter_compare_signed_iff a b equal = eqb_ℤ_iff a b
filter_compare_signed_iff a b greater = ltb_ℤ_iff b a
filter_compare_signed_iff a b less = ltb_ℤ_iff a b

glob_matches_iff :
    (os : Os) (pattern : Option Bytes) (value : Bytes) (fold : Bool)
    → (glob_matches os pattern value fold ≡ true) ↔ (os.fnmatch pattern value fold ≡ pos 0)
unfolding glob_matches
glob_matches_iff os pattern value fold = eqb_ℤ_iff (os.fnmatch pattern value fold) (pos 0)

-- The shapes of a check: with no metadata needed, and with a flag that tells if they are there.
verdict-accept : (b : Bool) → (verdict b ≡ accept) ↔ (b ≡ true)
verdict-accept b = ground arith

given :
    (has b : Bool) (P : Type 0)
    → (b ≡ true) ↔ P
    → ((if not has then accept else verdict b) ≡ accept) ↔ (has ≡ true → P)
given true b P e = (λ h _. e.0 ((verdict-accept b).0 h), λ f. (verdict-accept b).1 (e.1 (f refl)))
given false b P e = (λ h x. absurd (cc), λ f. refl)

given_known :
    (has known b : Bool) (P : Type 0)
    → (b ≡ true) ↔ P
    → ((if not has then accept else if not known then stat_required else verdict b) ≡ accept)
      ↔ (has ≡ true → (known ≡ true) × P)
given_known true true b P e =
    (λ h _. (refl, e.0 ((verdict-accept b).0 h)), λ f. (verdict-accept b).1 (e.1 (f refl).1))
given_known true false b P e = (λ h x. absurd (cc), λ f. absurd (not_known (f refl).0))
  where
    not_known : false ≡ true → ⊥
    not_known h = cc
given_known false known b P e = (λ h x. absurd (cc), λ f. refl)

module _ (os : Os) (p : Predicate) (c : Candidate) where
  check_depth_iff : (check_depth p c ≡ accept) ↔ InDepth os p c
  unfolding check_depth
  check_depth_iff = ground arith

  check_type_iff : (check_type p c ≡ accept) ↔ HasType os p c
  unfolding check_type
  check_type_iff = given_known _ _ _ _ (entry_type_equal_iff c.entry_type p.type_filter)

  check_name_iff : (check_name os p c ≡ accept) ↔ HasName os p c
  unfolding check_name
  check_name_iff = given _ _ _ (glob_matches_iff os _ _ _)

  check_path_iff : (check_path os p c ≡ accept) ↔ HasPath os p c
  unfolding check_path
  check_path_iff = given _ _ _ (glob_matches_iff os _ _ _)

  check_size_iff : (check_size p c ≡ accept) ↔ HasSize os p c
  unfolding check_size
  check_size_iff = given_known _ _ _ _ (filter_compare_iff _ _ p.size_op)

  check_mtime_iff : (check_mtime p c ≡ accept) ↔ HasAge os p c
  unfolding check_mtime
  check_mtime_iff = given_known _ _ _ _ (filter_compare_signed_iff _ _ p.mtime_op)

  check_newer_iff : (check_newer p c ≡ accept) ↔ IsNewer os p c
  unfolding check_newer
  check_newer_iff = given_known _ _ _ _ (ltb_ℤ_iff p.newer_reference_mtime c.modification_time)

  check_perm_iff : (check_perm p c ≡ accept) ↔ HasPerm os p c
  unfolding check_perm
  check_perm_iff =
      given_known _ _ _ _
        (rw (bit_and-octal c.permission_mask, bit_and-octal p.perm_mask) (==_iff _ _))

  -- All checks accept.
  pub record Passes : Type 0 where
    pub depth : check_depth p c ≡ accept
    pub type : check_type p c ≡ accept
    pub name : check_name os p c ≡ accept
    pub path : check_path os p c ≡ accept
    pub size : check_size p c ≡ accept
    pub mtime : check_mtime p c ≡ accept
    pub newer : check_newer p c ≡ accept
    pub perm : check_perm p c ≡ accept

  pub Passes-Selected : Passes ↔ Selected os p c
  Passes-Selected = (
    λ h. record {
      in_depth = check_depth_iff.0 h.depth;
      has_type = check_type_iff.0 h.type;
      has_name = check_name_iff.0 h.name;
      has_path = check_path_iff.0 h.path;
      has_size = check_size_iff.0 h.size;
      has_age = check_mtime_iff.0 h.mtime;
      is_newer = check_newer_iff.0 h.newer;
      has_perm = check_perm_iff.0 h.perm;
    },
    λ s. record {
      depth = check_depth_iff.1 s.in_depth;
      type = check_type_iff.1 s.has_type;
      name = check_name_iff.1 s.has_name;
      path = check_path_iff.1 s.has_path;
      size = check_size_iff.1 s.has_size;
      mtime = check_mtime_iff.1 s.has_age;
      newer = check_newer_iff.1 s.is_newer;
      perm = check_perm_iff.1 s.has_perm;
    },
  )

  check_type-resolved : c.type_resolved ≡ true → check_type p c ≢ stat_required
  unfolding check_type
  check_type-resolved r = ground arith

  Passes-evaluate : c.stat_populated ≡ true → Passes → evaluate os p c ≡ (accept, c)
  unfolding evaluate evaluate_type evaluate_names evaluate_required evaluate_stat
  Passes-evaluate k h = ground arith

  evaluate-Passes :
      c.type_resolved ≡ true → c.stat_populated ≡ true → (evaluate os p c).0 ≡ accept → Passes
  unfolding evaluate evaluate_type evaluate_names evaluate_required evaluate_stat
  evaluate-Passes r k h = ground (arith, check_type-resolved r)

  -- Of a candidate whose type and stat are known, `evaluate` accepts exactly those that the given
  -- filters select: depth range, type, name and path globs, size, age, reference and permissions.
  -- An accepted candidate is left unchanged.
  pub evaluate-Selected :
      c.type_resolved ≡ true
      → c.stat_populated ≡ true
      → ((evaluate os p c).0 ≡ accept → Selected os p c)
        × (Selected os p c → evaluate os p c ≡ (accept, c))
  evaluate-Selected r k =
      (λ h. Passes-Selected.0 (evaluate-Passes r k h), λ s. Passes-evaluate k (Passes-Selected.1 s))
