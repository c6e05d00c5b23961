-- ===== src/Walk/Prints.antt =====
-- The roots of a sequential walk, and the text that the whole walk prints.
use bc_seek.Base.{
  ℕ, ◌≡◌, ◌∙◌, refl, ap, sym, Bool, true, false, ◌&&◌, some, List, [], ◌∷◌, ◌++◌, append-nil,
  append_assoc, ◌⊎◌, Bytes, arith, Option-cases, inl, inr, codes,
}
use mathlib.Core.Path.{subst}
use bc_seek.CoreLib
use bc_seek.CoreLib.{BcCore}
use bc_seek.Os.{Os}
use bc_seek.Output.{Writer, IsLawful, Output}
use bc_seek.Output.Records.{print_all}
use bc_seek.Walk.{WalkConfig, WalkState, should_stop}
use bc_seek.Walk.Roots.{visit_root, visit_roots, walk_start, walk_sequential}
use bc_seek.Walk.Terminates.{NamesEntries, walk_sequential-total}
use bc_seek.Walk.Spec.{matches_of_roots, matches_of_walk}
use bc_seek.Walk.Adds.{IsReliable, NeverStops, Printed, Printed-append, Adds-at, Adds-none}
use bc_seek.Walk.Cuts.{Interrupts, Cut, Cut-more, Cut-at, should_stop-cases, should_stop-stopping}
use bc_seek.Walk.RootPrints.{root-Printed}

-- A walk that no signal stops leaves nothing.
pub all_of_whole :
    (k : WalkConfig)
    → NeverStops k
    → (first left matches : List Bytes) {stopping : Bool} → first ++ left ≡ matches
    → (left ≡ []) ⊎ ((stopping ≡ true) × Interrupts k)
    → first ≡ matches
all_of_whole k quiet first left matches whole (inl none_left) =
    sym (append-nil first) ∙ ap (λ (l : List Bytes). first ++ l) (sym none_left) ∙ whole
all_of_whole k quiet first left matches whole (inr (stopping, (signal, n, found, answer))) =
    absurd (ground (arith, quiet signal found n, answer))

module _ (C : BcCore) (os : Os) (W : Writer) (k : WalkConfig) (L : IsLawful W)
    (R : IsReliable W) where
  -- The text has the matches `ps` more, or a beginning of them.
  abbrev PrintedOrCut : WalkState W → WalkState W → List Bytes → Type 0
  PrintedOrCut s t ps = Printed W L s.output t.output ps ⊎ Cut W L k s t ps

  Printed-Cut :
      (s t u : WalkState W) (ps qs : List Bytes)
      → Printed W L s.output t.output ps
      → PrintedOrCut t u qs
      → PrintedOrCut s u (ps ++ qs)
  Printed-Cut s t u ps qs here (inl below) =
      inl (Printed-append W L s.output t.output u.output ps qs here below)
  Printed-Cut s t u ps qs here (inr c) = inr (record {
    first = ps ++ c.first;
    left = c.left;
    whole = append_assoc ps c.first c.left ∙ ap (λ (l : List Bytes). ps ++ l) c.whole;
    text = Printed-append W L s.output t.output u.output ps c.first here c.text;
    stopping = c.stopping;
    cause = c.cause;
  })

  -- The roots that are left when the walk is to stop are not visited.
  visit_roots-stopping :
      (roots : List Bytes) (any_ok : Bool) (s : WalkState W)
      → s.stop_requested ≡ true
      → visit_roots C os W k roots any_ok s ≡ some (any_ok, s)
  unfolding visit_roots
  visit_roots-stopping [] any_ok s h = refl
  visit_roots-stopping (root_path ∷ rest) any_ok s h =
      ground (arith, should_stop-stopping W L k s h)

  roots-Printed :
      CoreLib.IsLawful C
      → (roots : List Bytes) (any_ok : Bool) (s : WalkState W) (ok : Bool) (t : WalkState W)
      → s.stop_requested ≡ false
      → visit_roots C os W k roots any_ok s ≡ some (ok, t)
      → PrintedOrCut s t (matches_of_roots C os W k s.root_device_resolved s.root_device roots)
  roots-Printed lawful [] any_ok s ok t h r =
      let same : s ≡ t = unfold visit_roots in ground arith in
      let added = Adds-at W L same refl (Adds-none W L {s = s} {t = s} refl h refl refl) in
      inl (unfold matches_of_roots in (added.text, added.same_separator))
  roots-Printed lawful (root_path ∷ rest) any_ok s ok t h r =
      let u = (should_stop k s).1 in
      let listed : Bool → ℕ → List Bytes =
        λ b d. matches_of_roots C os W k b d (root_path ∷ rest) in
      elim (should_stop-cases W L k s h) [
        | inr (stop, cut) ↦
            let same : u ≡ t = unfold visit_roots in ground arith in
            inr (
              Cut-at W L k same refl
                (Cut-more W L k [] (listed s.root_device_resolved s.root_device) cut))
        | inl (go_on, polled) ↦
            let known : listed u.root_device_resolved u.root_device
                ≡ listed s.root_device_resolved s.root_device =
              ap (λ (d : ℕ). listed u.root_device_resolved d) polled.same_device
              ∙ ap (λ (b : Bool). listed b s.root_device) polled.same_resolved in
            elim (Option-cases (visit_root C os W k root_path u)) [
              | inl out ↦ absurd (unfold visit_roots in ground arith)
              | inr ((root_ok, v), done) ↦
                  let left : visit_roots C os W k rest (any_ok && root_ok) v ≡ some (ok, t) =
                    unfold visit_roots in ground arith in
                  subst (λ (qs : List Bytes). PrintedOrCut s t qs) known
                    (Printed-Cut s u t [] _ (polled.text, polled.same_separator)
                      (elim (root-Printed C os W k L R lawful root_path rest u root_ok v
                        polled.running done) [
                          | inl (ps, here, running, list) ↦
                              subst (λ (qs : List Bytes). PrintedOrCut u t qs) (sym list)
                                (Printed-Cut u v t ps _ here (
                                  roots-Printed lawful rest (any_ok && root_ok) v ok t running
                                    left))
                          | inr cut ↦
                              let same : v ≡ t = ground (
                                arith,
                                left,
                                visit_roots-stopping rest (any_ok && root_ok) v cut.stopping,
                              ) in
                              inr (Cut-at W L k same refl cut)
                        ]))
            ]
      ]

  walk-Printed :
      CoreLib.IsLawful C
      → (roots : List Bytes) (output : Output W) (ok : Bool) (t : WalkState W)
      → walk_sequential C os W k roots output ≡ some (ok, t)
      → PrintedOrCut (walk_start C os W k output) t (matches_of_walk C os W k roots)
  unfolding walk_sequential matches_of_walk walk_start
  walk-Printed lawful [] output ok t r =
      elim (root-Printed C os W k L R lawful (codes ".") [] (walk_start C os W k output) ok t refl
        r) [
          | inl (ps, here, running, list) ↦ inl (
              subst (λ (qs : List Bytes). Printed W L output t.output qs)
                (sym (append-nil ps) ∙ sym (unfold matches_of_roots in list)) here)
          | inr cut ↦ inr cut
        ]
  walk-Printed lawful (root_path ∷ rest) output ok t r =
      roots-Printed lawful (root_path ∷ rest) true (walk_start C os W k output) ok t refl r

  -- Whatever the signal handler answers, if each write to a lawful writer succeeds, the sequential
  -- walk returns, and what it has added to the text is a beginning of the matches of the snapshot, in
  -- the order of the roots and of the directory streams, each followed by the separator: no path is
  -- cut, repeated or passed over. Either it is all of them, or the handler has an answer to stop and
  -- the walk is left with the request. Directory entries have nonempty names, and the core library is
  -- lawful.
  pub walk_sequential-begins :
      CoreLib.IsLawful C
      → NamesEntries os
      → (roots : List Bytes) (output : Output W)
      → (ok : Bool) × (t : WalkState W) × (first : List Bytes) × (left : List Bytes)
        × (walk_sequential C os W k roots output ≡ some (ok, t))
        × (first ++ left ≡ matches_of_walk C os W k roots)
        × (L.written t.output.writer ≡ L.written output.writer ++ print_all output.separator first)
        × ((left ≡ []) ⊎ ((t.stop_requested ≡ true) × Interrupts k))
  unfolding walk_start
  walk_sequential-begins lawful names roots output =
      let (ok, t, returns) = walk_sequential-total C os W k lawful names roots output in
      elim (walk-Printed lawful roots output ok t returns) [
        | inl printed ↦ (
          ok,
          t,
          matches_of_walk C os W k roots,
          [],
          returns,
          append-nil (matches_of_walk C os W k roots),
          printed.0,
          inl refl,
        )
        | inr c ↦ (ok, t, c.first, c.left, returns, c.whole, c.text.0, inr (c.stopping, c.cause))
      ]

  -- If no signal stops it and each write to a lawful writer succeeds, the sequential walk returns
  -- and has added to the text the matches of the snapshot, in the order of the roots and of the
  -- directory streams, each followed by the separator. Directory entries have nonempty names, and
  -- the core library is lawful.
  pub walk_sequential-matches_of_walk :
      NeverStops k
      → CoreLib.IsLawful C
      → NamesEntries os
      → (roots : List Bytes) (output : Output W)
      → (ok : Bool) × (t : WalkState W) × (walk_sequential C os W k roots output ≡ some (ok, t))
        × (L.written t.output.writer
            ≡ L.written output.writer
              ++ print_all output.separator (matches_of_walk C os W k roots))
  walk_sequential-matches_of_walk quiet lawful names roots output =
      let (ok, t, first, left, returns, whole, text, complete) =
        walk_sequential-begins lawful names roots output in
      let all_printed = all_of_whole k quiet first left _ whole complete in
      (
        ok,
        t,
        returns,
        text
            ∙ ap (λ (l : List Bytes). L.written output.writer ++ print_all output.separator l)
                all_printed,
      )
