-- ===== src/Tests/Runtime.antt =====
-- A runtime that calls the callbacks in order.
use bc_seek.Base.{inr, true, false, not, none, some, pos, arith, if◌then◌else◌}
use bc_seek.App.{Runtime}
use bc_seek.App.Program.{RunCallbacks}
use bc_seek.App.Exit.{RunsInOrder}
use bc_seek.Tests.Samples.{sample_writer as writer}
use bc_seek.Tests.Workers.{two_workers}

abbrev pub sample_runtime : Runtime
sample_runtime = record {
  memory_context = true;
  collector_create = true;
  parallel_context = some two_workers;
  signal_handler = none;
  interrupted = false;
  stderr_ready = true;
  now = pos 1000;
  open_file = λ path. none;
  close_fd = λ fd. true;
}

abbrev pub run_in_order : RunCallbacks writer
run_in_order init run cleanup s =
    let (set_up, t) = init s in
    if not set_up
    then some (cleanup t)
    else elim (run t) [ none ↦ none | some (succeeds, u) ↦ some (cleanup u) ]

pub run_in_order-RunsInOrder : RunsInOrder run_in_order
run_in_order-RunsInOrder = record {
  refused_law = λ init run cleanup s h. inr (ground (arith, h));
  finished_law = λ init run cleanup s succeeds t h done. ground (arith, h, done);
  unending_law = λ init run cleanup s h out. ground (arith, h, out);
}
