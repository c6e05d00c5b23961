-- ===== src/Output/Close.antt =====
-- The descriptors of bc_seek_output_open_file and bc_seek_output_close of
-- src/output/bc_seek_output.c.
use bc_seek.Base.{ℕ, ◌≡◌, Bool, true, Option, some, List, [], ◌∷◌, ◌++◌, Bytes, ℤ, pos, arith}
use bc_seek.Output.{Writer, Output, output_open_stdout, output_open_file, output_close}

module _ (W : Writer) (close_fd : ℤ → Bool) where
  -- A second `output_close` is a success that does nothing.
  again :
      (o : Output W)
      → output_close W close_fd (output_close W close_fd o).1
        ≡ (true, (output_close W close_fd o).1, [])
  unfolding output_close
  again o = ground arith

  -- The descriptors closed by an opening, a close and one more close.
  abbrev pub closed_in_all : Bool × Output W × List ℤ → List ℤ
  closed_in_all (ok, o, closed) =
      let (ok', o', closed') = output_close W close_fd o in
      let (ok'', o'', closed'') = output_close W close_fd o' in closed ++ (closed' ++ closed'')

  -- A file that was opened for the output is closed exactly once, whether the writer could be set
  -- up or not and whatever the closing calls return, also if the output is closed a second time.
  pub output_open_file-closed_in_all :
      (open_file : Bytes → Option ℕ) (path : Bytes) (null_terminated : Bool) (o : Output W) (fd : ℕ)
      → open_file path ≡ some fd
      → closed_in_all (output_open_file W open_file path null_terminated o) ≡ pos fd ∷ []
  unfolding output_open_file output_close
  output_open_file-closed_in_all open_file path null_terminated o fd opened = ground arith

  -- Standard output is never closed.
  pub output_open_stdout-closed_in_all :
      (null_terminated : Bool) → closed_in_all (output_open_stdout W null_terminated) ≡ []
  unfolding output_open_stdout output_close
  output_open_stdout-closed_in_all null_terminated = ground arith
