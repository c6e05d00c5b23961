-- ===== src/Filter/Ignored.antt =====
-- bc_seek_filter_ignored_directory_name of src/filter/bc_seek_filter.c.
use mathlib.Core.Bool.{false≢true}
use bc_seek.Base.{
  ℕ, ◌≤◌, ◌∙◌, ◌≢◌, length-take, ◌≡◌, ◌↔◌, ◌||◌, Bool, true, false, not, none, some, List, [], ◌∷◌,
  Bytes, String, codes, length, take, take-length, ◌==◌, ==_iff, if◌then◌else◌, bytes_equal,
  bytes_equal_sound, bytes_equal_refl, ap, arith, Bool-cases, inl, inr, sym, ◌⊎◌,
}
use bc_seek.CoreLib.{BcCore, IsLawful}
use bc_seek.Strings.{strings_length, strings_length_lem}

abbrev pub ignored_directory_names : List String
ignored_directory_names =
    ".git" ∷ ".hg" ∷ ".svn" ∷ ".bzr" ∷ "CVS" ∷ ".cache" ∷ "node_modules" ∷ "target" ∷ "__pycache__"
    ∷ ".venv" ∷ ".tox" ∷ ".mypy_cache" ∷ ".pytest_cache" ∷ ".ruff_cache" ∷ ".ccls-cache" ∷ []

module _ (C : BcCore) where
  -- One round of the loop: the lengths agree, and so do that many bytes.
  unfoldable pub same_name : Bytes → Bytes → ℕ → Bool
  same_name candidate name name_length =
      if not (strings_length C candidate == name_length)
      then false
      else elim (C.core_equal candidate name name_length) [ none ↦ false | some equal ↦ equal ]

  unfoldable pub ignored_loop : List String → Bytes → ℕ → Bool
  unfolding same_name
  ignored_loop [] name name_length = false
  ignored_loop (candidate ∷ rest) name name_length =
      same_name (codes candidate) name name_length || ignored_loop rest name name_length

  unfoldable pub ignored_directory_name : Bytes → ℕ → Bool
  unfolding ignored_loop
  ignored_directory_name = ignored_loop ignored_directory_names

-- `name` is one of the texts.
abbrev pub OneOf : List String → Bytes → Type 0
OneOf [] name = ⊥
OneOf (s ∷ rest) name = (name ≡ codes s) ⊎ OneOf rest name

module _ (C : BcCore) (L : IsLawful C) where
  same_name_lem :
      (candidate name : Bytes) (n : ℕ)
      → n ≤ length name
      → same_name C candidate name n ≡ bytes_equal candidate (take n name)
  unfolding same_name
  same_name_lem candidate name n h = elim (Bool-cases (length candidate == n)) [
    | inl same ↦
        let e : length candidate ≡ n = (==_iff (length candidate) n).0 same in
        rw (strings_length_lem C L candidate, same)
          (rw (L.equal_law candidate name n (omega arith) h, ← e, take-length))
    | inr differs ↦
        rw (strings_length_lem C L candidate, differs)
          (differing candidate (take n name) (ground (arith, length-take n name)))
  ]
    where
      differing : (a b : Bytes) → length a ≢ length b → false ≡ bytes_equal a b
      differing a b ne = elim (Bool-cases (bytes_equal a b)) [
        | inl same ↦ absurd (ne (ap length (bytes_equal_sound a b same)))
        | inr other ↦ sym other
      ]

  loop-OneOf :
      (names : List String) (name : Bytes) (n : ℕ)
      → n ≤ length name
      → (ignored_loop C names name n ≡ true) ↔ OneOf names (take n name)
  unfolding ignored_loop
  loop-OneOf [] name n h = (λ e. absurd (cc), λ e. absurd e)
  loop-OneOf (s ∷ rest) name n h = elim (Bool-cases (same_name C (codes s) name n)) [
    | inl same ↦ (
      λ _. inl (
          sym (
            bytes_equal_sound (codes s) (take n name)
              (sym (same_name_lem (codes s) name n h) ∙ same))),
      λ _. rw same,
    )
    | inr differs ↦ (
      λ e. inr ((loop-OneOf rest name n h).0 (rw differs at e)),
      λ e. elim e [
        | inl here ↦ absurd (not_here here differs)
        | inr there ↦ rw differs ((loop-OneOf rest name n h).1 there)
      ],
    )
  ]
    where
      not_here : take n name ≡ codes s → same_name C (codes s) name n ≡ false → ⊥
      not_here here differs =
          false≢true (
            sym differs ∙ (same_name_lem (codes s) name n h ∙ rw here (bytes_equal_refl (codes s))))

  -- A directory name of `n` bytes is pruned exactly if it is one of the fifteen names of the table.
  -- The pointer shows `n` bytes at least, and the core library is lawful.
  pub ignored_directory_name-OneOf :
      (name : Bytes) (n : ℕ)
      → n ≤ length name
      → (ignored_directory_name C name n ≡ true) ↔ OneOf ignored_directory_names (take n name)
  unfolding ignored_directory_name
  ignored_directory_name-OneOf name n h = loop-OneOf ignored_directory_names name n h
