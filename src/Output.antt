-- ===== src/Output.antt =====
-- include/internal/bc_seek_output_internal.h and src/output/bc_seek_output.c. The buffered writer
-- of bc_core and the calls `open` and `close` are parameters; a function that may close a
-- descriptor returns the descriptors that it closed, last.
pub mod Written
pub mod Records
pub mod Close
use bc_seek.Base.{
  ℕ, ◌+◌, ◌%◌, ◌^◌, ◌≡◌, Bool, true, false, not, ◌&&◌, Option, none, some, List, [], ◌∷◌, ◌++◌,
  Bytes, take, leb, if◌then◌else◌, ℤ, pos, negsuc, ltb_ℤ,
}

-- `bc_core_writer_t`. Each operation tells whether it succeeded.
pub record Writer : Type 1 where
  pub State : Type 0
  -- The state that `bc_core_zero` leaves.
  pub zeroed : State
  pub init : State → ℤ → Bool × State
  pub write_bytes : State → Bytes → Bool × State
  pub write_char : State → ℕ → Bool × State
  pub flush : State → Bool × State
  pub destroy : State → State

-- `written` is the text that the writer has accepted, flushed or not.
pub record IsLawful (W : Writer) : Type 0 where
  pub written : W.State → Bytes
  pub write_bytes_law :
      (w w' : W.State) (s : Bytes) → W.write_bytes w s ≡ (true, w') → written w' ≡ written w ++ s
  pub write_char_law :
      (w w' : W.State) (c : ℕ) → W.write_char w c ≡ (true, w') → written w' ≡ written w ++ c ∷ []
  pub init_law : (w w' : W.State) (fd : ℤ) → W.init w fd ≡ (true, w') → written w' ≡ []

abbrev pub emit_stack_capacity : ℕ
emit_stack_capacity = 4097

module _ (W : Writer) where
  pub record Output : Type 0 where
    pub writer : W.State
    pub fd : ℤ
    pub owns_fd : Bool
    pub separator : ℕ
    pub emitted_count : ℕ

  unfoldable pub output_attach : ℤ → Bool → Bool → Bool × Output × List ℤ
  output_attach fd null_terminated owns_fd =
      let (ok, writer) = W.init W.zeroed fd in
      let output : Output = record {
        writer = writer;
        fd = fd;
        owns_fd = owns_fd;
        separator = if null_terminated then 0 else 10;
        emitted_count = 0;
      } in
      if ok
      then (true, output, [])
      else (false, record output { fd = negsuc 0 }, if owns_fd then fd ∷ [] else [])

  -- `STDOUT_FILENO` is 1.
  unfoldable pub output_open_stdout : Bool → Bool × Output × List ℤ
  unfolding output_attach
  output_open_stdout null_terminated = output_attach (pos 1) null_terminated false

  -- `open_file` is `open` with the flags and the mode of the source; `none` is a failure, which
  -- leaves `out_output` alone.
  unfoldable pub output_open_file :
      (Bytes → Option ℕ) → Bytes → Bool → Output → Bool × Output × List ℤ
  unfolding output_attach
  output_open_file open_file path null_terminated out_output = elim (open_file path) [
    | none ↦ (false, out_output, [])
    | some fd ↦ output_attach (pos fd) null_terminated true
  ]

  -- The write of one match: at once through a stack buffer if it fits, else in two calls.
  unfoldable pub write_match : Output → Bytes → ℕ → Bool × W.State
  write_match output path path_length =
      if leb (path_length + 1) emit_stack_capacity
      then W.write_bytes output.writer (take path_length path ++ output.separator ∷ [])
      else let (ok, writer) = W.write_bytes output.writer (take path_length path) in
        if not ok then (false, writer) else W.write_char writer output.separator

  unfoldable pub output_emit : Output → Bytes → ℕ → Bool × Output
  unfolding write_match
  output_emit output path path_length =
      let (ok, writer) = write_match output path path_length in
      if not ok then (false, record output { writer = writer }) else (
        true,
        record output { writer = writer; emitted_count = (output.emitted_count + 1) % 2 ^ 64 },
      )

  -- `close_fd` tells whether `close` returned 0.
  unfoldable pub output_close : (ℤ → Bool) → Output → Bool × Output × List ℤ
  output_close close_fd output =
      if ltb_ℤ output.fd (pos 0)
      then (true, output, [])
      else let (ok, flushed) = W.flush output.writer in
        let left : Output = record output { writer = W.destroy flushed; fd = negsuc 0 } in
        if output.owns_fd
        then (if close_fd output.fd then ok else false, left, output.fd ∷ [])
        else (ok, left, [])
