-- ===== src/Walk/Cuts.antt =====
-- A sequential walk that a signal stops: the part of the matches that it has printed by then.
use bc_seek.Base.{
  ℕ, ◌≡◌, ◌∙◌, refl, ap, sym, Bool, true, false, some, List, [], ◌++◌, append_assoc, append-nil,
  Bytes, arith, Bool-cases, Option-cases, inl, inr, ◌⊎◌,
}
use mathlib.Core.Path.{subst}
use bc_seek.Output.{Writer, IsLawful, Output}
use bc_seek.Walk.{WalkConfig, WalkState, should_stop}
use bc_seek.Walk.Adds.{Printed, Printed-append, Adds, Adds-append, Adds-none}

-- There is a signal handler, and one of its answers is to stop.
abbrev pub Interrupts : WalkConfig → Type 0
Interrupts k = (signal : ℕ → Bool) × (n : ℕ) × (k.signal_handler ≡ some signal) × (signal n ≡ true)

module _ (W : Writer) (L : IsLawful W) (k : WalkConfig) where
  -- The walk is to stop, and `t` has a beginning of the matches `ps` more than `s`.
  pub record Cut (s t : WalkState W) (ps : List Bytes) : Type 0 where
    pub first : List Bytes
    pub left : List Bytes
    pub whole : first ++ left ≡ ps
    pub text : Printed W L s.output t.output first
    pub stopping : t.stop_requested ≡ true
    pub cause : Interrupts k

  pub Adds-Cut :
      {s t u : WalkState W} (ps qs : List Bytes) → Adds W L s t ps → Cut t u qs → Cut s u (ps ++ qs)
  Adds-Cut {s = s} {t = t} {u = u} ps qs a c = record {
    first = ps ++ c.first;
    left = c.left;
    whole = append_assoc ps c.first c.left ∙ ap (λ (l : List Bytes). ps ++ l) c.whole;
    text =
        Printed-append W L s.output t.output u.output ps c.first (a.text, a.same_separator) c.text;
    stopping = c.stopping;
    cause = c.cause;
  }

  -- A walk that stops leaves what follows.
  pub Cut-more : {s t : WalkState W} (ps qs : List Bytes) → Cut s t ps → Cut s t (ps ++ qs)
  Cut-more ps qs c = record {
    first = c.first;
    left = c.left ++ qs;
    whole = sym (append_assoc c.first c.left qs) ∙ ap (λ (l : List Bytes). l ++ qs) c.whole;
    text = c.text;
    stopping = c.stopping;
    cause = c.cause;
  }

  pub Cut-at :
      {s t u : WalkState W} {ps qs : List Bytes} → t ≡ u → ps ≡ qs → Cut s t ps → Cut s u qs
  Cut-at {s = s} {u = u} {ps = ps} e d c =
      subst (λ (x : List Bytes). Cut s u x) d (subst (λ (x : WalkState W). Cut s x ps) e c)

  -- States with the same output.
  pub Cut-between :
      {s t s' t' : WalkState W} {ps : List Bytes}
      → s.output ≡ s'.output
      → t.output ≡ t'.output
      → t'.stop_requested ≡ true
      → Cut s t ps
      → Cut s' t' ps
  Cut-between {t = t} {s' = s'} d e h c = record {
    first = c.first;
    left = c.left;
    whole = c.whole;
    text =
        subst (λ (o : Output W). Printed W L s'.output o c.first) e
          (subst (λ (o : Output W). Printed W L o t.output c.first) d c.text);
    stopping = h;
    cause = c.cause;
  }

  -- A result is complete, or false and cut.
  abbrev pub Ends : Bool → WalkState W → WalkState W → List Bytes → Type 0
  Ends ok s t ps = Adds W L s t ps ⊎ ((ok ≡ false) × Cut s t ps)

  -- A round goes on and is complete, or does not and is cut.
  abbrev pub Goes : Bool → WalkState W → WalkState W → List Bytes → Type 0
  Goes go_on s t ps = ((go_on ≡ true) × Adds W L s t ps) ⊎ ((go_on ≡ false) × Cut s t ps)

  pub Ends-after :
      {ok : Bool} {s t u : WalkState W} (ps qs : List Bytes)
      → Adds W L s t ps
      → Ends ok t u qs
      → Ends ok s u (ps ++ qs)
  Ends-after ps qs a (inl b) = inl (Adds-append W L ps qs a b)
  Ends-after ps qs a (inr (off, c)) = inr (off, Adds-Cut ps qs a c)

  pub Goes-after :
      {go_on : Bool} {s t u : WalkState W} (ps qs : List Bytes)
      → Adds W L s t ps
      → Goes go_on t u qs
      → Goes go_on s u (ps ++ qs)
  Goes-after ps qs a (inl (on, b)) = inl (on, Adds-append W L ps qs a b)
  Goes-after ps qs a (inr (off, c)) = inr (off, Adds-Cut ps qs a c)

  pub Ends-at :
      {ok : Bool} {s t u : WalkState W} {ps qs : List Bytes}
      → t ≡ u
      → ps ≡ qs
      → Ends ok s t ps
      → Ends ok s u qs
  Ends-at {ok = ok} {s = s} {u = u} {ps = ps} e d r =
      subst (λ (x : List Bytes). Ends ok s u x) d (subst (λ (x : WalkState W). Ends ok s x ps) e r)

  pub Goes-at :
      {on go_on : Bool} {s t u : WalkState W} {ps qs : List Bytes}
      → on ≡ go_on
      → t ≡ u
      → ps ≡ qs
      → Goes on s t ps
      → Goes go_on s u qs
  Goes-at {on = on} {go_on = go_on} {s = s} {u = u} {ps = ps} {qs = qs} b e d r =
      subst (λ (x : Bool). Goes x s u qs) b
        (subst (λ (x : List Bytes). Goes on s u x) d
          (subst (λ (x : WalkState W). Goes on s x ps) e r))

  -- A poll of a walk that runs, and of one that is to stop.
  pub should_stop-cases :
      (s : WalkState W)
      → s.stop_requested ≡ false
      → (((should_stop k s).0 ≡ false) × Adds W L s (should_stop k s).1 [])
        ⊎ (((should_stop k s).0 ≡ true) × Cut s (should_stop k s).1 [])
  unfolding should_stop
  should_stop-cases s h = elim (Option-cases (k.signal_handler)) [
    | inl absent ↦
        inl
          (ground arith, Adds-none W L (ground arith) (ground arith) (ground arith) (ground arith))
    | inr (signal, found) ↦ elim (Bool-cases (signal s.polls)) [
      | inr quiet ↦
          inl (
            ground arith,
            Adds-none W L (ground arith) (ground arith) (ground arith) (ground arith),
          )
      | inl answer ↦
          let stop : (should_stop k s).1.stop_requested ≡ true = ground arith in
          let kept : (should_stop k s).1.output ≡ s.output = ground arith in
          inr (
            ground arith,
            record {
              first = [];
              left = [];
              whole = refl;
              text = (
                ap (λ (o : Output W). L.written o.writer) kept
                    ∙ sym (append-nil (L.written s.output.writer)),
                ap (λ (o : Output W). o.separator) kept,
              );
              stopping = stop;
              cause = (signal, s.polls, found, answer);
            },
          )
    ]
  ]

  pub should_stop-stopping :
      (s : WalkState W) → s.stop_requested ≡ true → should_stop k s ≡ (true, s)
  unfolding should_stop
  should_stop-stopping s h = ground arith
