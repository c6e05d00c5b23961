-- ===== src/Walk/Adds.antt =====
-- The text that a step of the sequential walk adds, for a writer that never fails.
use bc_seek.Base.{
  ℕ, ◌≡◌, ◌∙◌, refl, ap, sym, Bool, true, false, some, List, [], ◌∷◌, ◌++◌, append_assoc,
  append-nil, Bytes, take, length, take-length, arith, Option-cases, inl, inr,
}
use mathlib.Core.Path.{subst}
use bc_seek.Os.{Os}
use bc_seek.Filter.{Predicate, Candidate, Decision, accept, reject, stat_required, populate_stat}
use bc_seek.Filter.Evaluate.{evaluate, evaluate_type, evaluate_names, evaluate_required}
use bc_seek.Output.{Writer, IsLawful, Output, output_emit, write_match}
use bc_seek.Output.Written.{printed, output_emit-written}
use bc_seek.Output.Records.{print_all, print_all-append}
use bc_seek.Walk.{WalkConfig, WalkState, emit_if_match}
use bc_seek.Walk.Spec.{own_match}

-- Each write succeeds.
pub record IsReliable (W : Writer) : Type 0 where
  pub bytes_law : (w : W.State) (s : Bytes) → (W.write_bytes w s).0 ≡ true
  pub char_law : (w : W.State) (c : ℕ) → (W.write_char w c).0 ≡ true

-- There is no signal handler, or none of its answers is to stop.
abbrev pub NeverStops : WalkConfig → Type 0
NeverStops k = (signal : ℕ → Bool) → k.signal_handler ≡ some signal → (n : ℕ) → signal n ≡ false

-- The places that the evaluation leaves alone.
abbrev SamePlace : Candidate → Candidate → Type 0
SamePlace c d = (d.path ≡ c.path) × (d.path_length ≡ c.path_length) × (d.depth ≡ c.depth)

module _ (os : Os) (p : Predicate) where
  populate-SamePlace : (c d : Candidate) → populate_stat os c ≡ some d → SamePlace c d
  unfolding populate_stat
  populate-SamePlace c d h = ground arith

  required-SamePlace : (c : Candidate) → SamePlace c (evaluate_required os p c).1
  unfolding evaluate_required
  required-SamePlace c = elim (Option-cases (populate_stat os c)) [
    | inl failed ↦ ground arith
    | inr (d, stated) ↦ ground (arith, populate-SamePlace c d stated)
  ]

  names-SamePlace : (c : Candidate) → SamePlace c (evaluate_names os p c).1
  unfolding evaluate_names
  names-SamePlace c = ground (arith, required-SamePlace c)

  type-SamePlace : (c : Candidate) → SamePlace c (evaluate_type os p c).1
  unfolding evaluate_type
  type-SamePlace c = elim (Option-cases (populate_stat os c)) [
    | inl failed ↦ ground (arith, names-SamePlace c)
    | inr (d, stated) ↦
        ground (arith, populate-SamePlace c d stated, names-SamePlace c, names-SamePlace d)
  ]

  pub evaluate-SamePlace : (c : Candidate) → SamePlace c (evaluate os p c).1
  unfolding evaluate
  evaluate-SamePlace c = ground (arith, type-SamePlace c)

module _ (W : Writer) (L : IsLawful W) where
  -- `o'` has the matches `ps` more than `o`.
  abbrev pub Printed : Output W → Output W → List Bytes → Type 0
  Printed o o' ps =
      (L.written o'.writer ≡ L.written o.writer ++ print_all o.separator ps)
      × (o'.separator ≡ o.separator)

  pub Printed-append :
      (o o' q : Output W) (ps qs : List Bytes)
      → Printed o o' ps
      → Printed o' q qs
      → Printed o q (ps ++ qs)
  Printed-append o o' q ps qs (text, kept) (text', kept') = (
    text'
        ∙ ap (λ (c : ℕ). L.written o'.writer ++ print_all c qs) kept
        ∙ ap (λ x. x ++ print_all o.separator qs) text
        ∙ append_assoc (L.written o.writer) (print_all o.separator ps) (print_all o.separator qs)
        ∙ ap (λ x. L.written o.writer ++ x) (sym (print_all-append o.separator ps qs)),
    kept' ∙ kept,
  )

  -- `t` has the matches `ps` more than `s`, and the walk goes on.
  pub record Adds (s t : WalkState W) (ps : List Bytes) : Type 0 where
    pub text :
        L.written t.output.writer ≡ L.written s.output.writer ++ print_all s.output.separator ps
    pub same_separator : t.output.separator ≡ s.output.separator
    pub running : t.stop_requested ≡ false
    pub same_resolved : t.root_device_resolved ≡ s.root_device_resolved
    pub same_device : t.root_device ≡ s.root_device

  pub Adds-append :
      {s t u : WalkState W} (ps qs : List Bytes) → Adds s t ps → Adds t u qs → Adds s u (ps ++ qs)
  Adds-append {s = s} {t = t} {u = u} ps qs a b =
      let (whole, kept) =
        Printed-append s.output t.output u.output ps qs (a.text, a.same_separator)
          (b.text, b.same_separator) in
      record {
        text = whole;
        same_separator = kept;
        running = b.running;
        same_resolved = b.same_resolved ∙ a.same_resolved;
        same_device = b.same_device ∙ a.same_device;
      }

  pub Adds-at :
      {s t u : WalkState W} {ps qs : List Bytes} → t ≡ u → ps ≡ qs → Adds s t ps → Adds s u qs
  Adds-at {s = s} {u = u} {ps = ps} e d a =
      subst (λ (x : List Bytes). Adds s u x) d (subst (λ (x : WalkState W). Adds s x ps) e a)

  pub Adds-silent :
      {s t u : WalkState W} (ps : List Bytes) → Adds s t ps → Adds t u [] → Adds s u ps
  Adds-silent ps a b = Adds-at refl (append-nil ps) (Adds-append ps [] a b)

  -- A step that writes nothing.
  pub Adds-none :
      {s t : WalkState W}
      → t.output ≡ s.output
      → t.stop_requested ≡ false
      → t.root_device_resolved ≡ s.root_device_resolved
      → t.root_device ≡ s.root_device
      → Adds s t []
  Adds-none {s = s} {t = t} o r d e = record {
    text =
        ap (λ (x : Output W). L.written x.writer) o ∙ sym (append-nil (L.written s.output.writer));
    same_separator = ap (λ (x : Output W). x.separator) o;
    running = r;
    same_resolved = d;
    same_device = e;
  }

  module _ (R : IsReliable W) where
    emit-reliable :
        (o : Output W) (path : Bytes) (n : ℕ)
        → output_emit W o path n ≡ (true, (output_emit W o path n).1)
    unfolding output_emit write_match
    emit-reliable o path n =
        let text = take n path in
        let middle = (W.write_bytes o.writer text).1 in
        ground (
          arith,
          R.bytes_law o.writer (text ++ o.separator ∷ []),
          R.bytes_law o.writer text,
          R.char_law middle o.separator,
        )

    module _ (os : Os) (k : WalkConfig) where
      written-Adds :
          (s : WalkState W) (c : Candidate)
          → c.path_length ≡ length c.path
          → s.stop_requested ≡ false
          → Adds s
              (record s { output = (output_emit W s.output c.path c.path_length).1 })
              (c.path ∷ [])
      written-Adds s c n h =
          let o' = (output_emit W s.output c.path c.path_length).1 in
          let (text, count, separator, fd) =
            output_emit-written W L s.output o' c.path c.path_length
              (emit-reliable s.output c.path c.path_length) in
          let whole : take c.path_length c.path ≡ c.path =
            ap (λ (m : ℕ). take m c.path) n ∙ take-length c.path in
          record {
            text =
                text
                ∙ ap (λ x. L.written s.output.writer ++ x)
                    (ap (λ x. printed s.output.separator x) whole
                      ∙ sym (append-nil (printed s.output.separator c.path)));
            same_separator = separator;
            running = h;
            same_resolved = refl;
            same_device = refl;
          }

      abbrev after_judging :
          Decision → Bool → Candidate → WalkState W → WalkState W → Bool × Candidate × WalkState W
      after_judging decision ok c s t = elim decision [ accept ↦ (ok, c, t) | _ ↦ (true, c, s) ]

      judged-Adds :
          (decision : Decision) (ok : Bool) (c : Candidate) (s t : WalkState W) (path : Bytes)
          → s.stop_requested ≡ false
          → Adds s t (path ∷ [])
          → Adds s
              (after_judging decision ok c s t).2
              (elim decision [ accept ↦ path ∷ [] | _ ↦ [] ])
      judged-Adds accept ok c s t path h added = added
      judged-Adds reject ok c s t path h added = Adds-none refl h refl refl
      judged-Adds stat_required ok c s t path h added = Adds-none refl h refl refl

      -- An accepted candidate adds its path, any other nothing.
      pub emit_if_match-Adds :
          (s : WalkState W) (c : Candidate)
          → c.path_length ≡ length c.path
          → s.stop_requested ≡ false
          → ((emit_if_match os W k s c).0 ≡ true)
            × ((emit_if_match os W k s c).1 ≡ (evaluate os k.predicate c).1)
            × Adds s (emit_if_match os W k s c).2 (own_match os k c)
      unfolding emit_if_match own_match
      emit_if_match-Adds s c n h =
          let judged = (evaluate os k.predicate c).1 in
          let (path, path_length, depth) = evaluate-SamePlace os k.predicate c in
          let sound = emit-reliable s.output judged.path judged.path_length in
          let t : WalkState W = record s {
            output = (output_emit W s.output judged.path judged.path_length).1;
          } in
          let added : Adds s t (judged.path ∷ []) = written-Adds s judged (ground arith) h in
          (
            ground arith,
            ground arith,
            judged-Adds (evaluate os k.predicate c).0
                (output_emit W s.output judged.path judged.path_length).0 judged s t c.path h
                (subst (λ (x : Bytes). Adds s t (x ∷ [])) path added),
          )
