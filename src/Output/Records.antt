-- ===== src/Output/Records.antt =====
-- Sequences of emissions of src/output/bc_seek_output.c, and a reader of their text.
use bc_seek.Base.{
  ℕ, ◌≡◌, ◌≢◌, ◌∙◌, refl, ap, sym, Bool, true, false, List, [], ◌∷◌, ◌++◌, append_assoc, append-nil,
  Bytes, take, take-length, length, ◌==◌, if◌then◌else◌, arith,
}
use bc_seek.Output.{Writer, IsLawful, Output, output_emit}
use bc_seek.Output.Written.{printed, output_emit-written}

-- The text of several matches.
abbrev pub print_all : ℕ → List Bytes → Bytes
print_all separator [] = []
print_all separator (path ∷ paths) = printed separator path ++ print_all separator paths

pub print_all-append :
    (b : ℕ) (ps qs : List Bytes) → print_all b (ps ++ qs) ≡ print_all b ps ++ print_all b qs
print_all-append b [] qs = refl
print_all-append b (p ∷ ps) qs =
    ap (λ s. printed b p ++ s) (print_all-append b ps qs)
    ∙ sym (append_assoc (printed b p) (print_all b ps) (print_all b qs))

-- Cutting a text behind each separator; what follows the last one is no record.
abbrev pub read_records : ℕ → Bytes → Bytes → List Bytes
read_records separator current [] = []
read_records separator current (c ∷ s) = elim (c == separator) [
  | true ↦ current ∷ read_records separator [] s
  | false ↦ read_records separator (current ++ c ∷ []) s
]

abbrev pub Lacks : ℕ → Bytes → Type 0
Lacks b [] = Unit
Lacks b (c ∷ s) = (c ≢ b) × Lacks b s

abbrev pub AllLack : ℕ → List Bytes → Type 0
AllLack b [] = Unit
AllLack b (s ∷ rest) = Lacks b s × AllLack b rest

module _ (b : ℕ) where
  read-path :
      (s rest current : Bytes)
      → Lacks b s
      → read_records b current (printed b s ++ rest) ≡ (current ++ s) ∷ read_records b [] rest
  read-path [] rest current h = ground (arith, append-nil current)
  read-path (c ∷ s) rest current (ne, h) =
      ground (arith, read-path s rest (current ++ c ∷ []) h, append_assoc current (c ∷ []) s)

  read-print_all :
      (paths : List Bytes) → AllLack b paths → read_records b [] (print_all b paths) ≡ paths
  read-print_all [] h = refl
  read-print_all (s ∷ paths) (here, rest) =
      read-path s (print_all b paths) [] here ∙ ap (λ r. s ∷ r) (read-print_all paths rest)

module _ (W : Writer) (L : IsLawful W) where
  -- The emissions of a list of paths, stopped at the first failure.
  unfoldable pub emit_all : Output W → List Bytes → Bool × Output W
  emit_all o [] = (true, o)
  emit_all o (path ∷ paths) =
      let (done, next) = output_emit W o path (length path) in
      let rest = emit_all next paths in if done then rest else (false, next)

  emit_all-written :
      (paths : List Bytes) (o o' : Output W)
      → emit_all o paths ≡ (true, o')
      → L.written o'.writer ≡ L.written o.writer ++ print_all o.separator paths
  unfolding emit_all
  emit_all-written [] o o' h =
      let same : o.writer ≡ o'.writer = ground arith in
      sym (append-nil (L.written o'.writer)) ∙ ap (λ (w : W.State). L.written w ++ []) (sym same)
  emit_all-written (path ∷ paths) o o' h =
      let next = (output_emit W o path (length path)).1 in
      let first : output_emit W o path (length path) ≡ (true, next) = ground arith in
      let rest : emit_all next paths ≡ (true, o') = ground arith in
      let (text, count, separator, fd) = output_emit-written W L o next path (length path) first in
      emit_all-written paths next o' rest
      ∙ (ap (λ (b : ℕ). L.written next.writer ++ print_all b paths) separator
          ∙ (ap (λ s. s ++ print_all o.separator paths) text
              ∙ (append_assoc (L.written o.writer) (printed o.separator (take (length path) path))
                    (print_all o.separator paths)
                  ∙ ap
                      (λ s.
                        L.written o.writer
                        ++ (printed o.separator s ++ print_all o.separator paths))
                      (take-length path))))

  -- Paths emitted one after the other into an empty output can be read back: cutting the text
  -- behind each separator gives the same paths in the same order, if none of them holds the
  -- separator. With `--null` the separator is NUL, which no path holds.
  pub read_records-emit_all :
      (paths : List Bytes) (o o' : Output W)
      → L.written o.writer ≡ []
      → AllLack o.separator paths
      → emit_all o paths ≡ (true, o')
      → read_records o.separator [] (L.written o'.writer) ≡ paths
  read_records-emit_all paths o o' empty lacks h =
      ap (read_records o.separator [])
        (emit_all-written paths o o' h ∙ ap (λ s. s ++ print_all o.separator paths) empty)
      ∙ read-print_all o.separator paths lacks
