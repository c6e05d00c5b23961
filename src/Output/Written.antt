-- ===== src/Output/Written.antt =====
-- What `output_emit` adds to the text of a lawful writer.
use bc_seek.Base.{
  ℕ, ◌+◌, ◌%◌, ◌^◌, ◌≡◌, ◌∙◌, ap, true, [], ◌∷◌, ◌++◌, append_assoc, Bytes, take, leb, arith,
  Bool-cases, inl, inr,
}
use bc_seek.Output.{Writer, IsLawful, emit_stack_capacity, Output, write_match, output_emit}

-- One match as it is printed.
abbrev pub printed : ℕ → Bytes → Bytes
printed separator path = path ++ separator ∷ []

module _ (W : Writer) (L : IsLawful W) where
  write_match-written :
      (o : Output W) (path : Bytes) (n : ℕ) (w : W.State)
      → write_match W o path n ≡ (true, w)
      → L.written w ≡ L.written o.writer ++ printed o.separator (take n path)
  unfolding write_match
  write_match-written o path n w h = elim (Bool-cases (leb (n + 1) emit_stack_capacity)) [
    | inl small ↦ L.write_bytes_law o.writer w _ (ground arith)
    | inr large ↦
        let text = take n path in
        let middle = (W.write_bytes o.writer text).1 in
        let first : W.write_bytes o.writer text ≡ (true, middle) = ground arith in
        let second : W.write_char middle o.separator ≡ (true, w) = ground arith in
        L.write_char_law middle w o.separator second
        ∙ (ap (λ s. s ++ o.separator ∷ []) (L.write_bytes_law o.writer middle text first)
            ∙ append_assoc (L.written o.writer) text (o.separator ∷ []))
  ]

  -- A successful emission adds the first `n` bytes of the path and the separator to the text,
  -- through the stack buffer and past it alike, counts one match, and keeps descriptor and
  -- separator.
  pub output_emit-written :
      (o o' : Output W) (path : Bytes) (n : ℕ)
      → output_emit W o path n ≡ (true, o')
      → (L.written o'.writer ≡ L.written o.writer ++ printed o.separator (take n path))
        × (o'.emitted_count ≡ (o.emitted_count + 1) % 2 ^ 64)
        × (o'.separator ≡ o.separator)
        × (o'.fd ≡ o.fd)
  unfolding output_emit
  output_emit-written o o' path n h =
      let done : write_match W o path n ≡ (true, o'.writer) = ground arith in
      (write_match-written o path n o'.writer done, ground arith, ground arith, ground arith)
