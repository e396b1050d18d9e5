-- ===== src/Proc/Tests.antt =====
-- The theorems on proc.c at concrete process tables.
use xv.Common.{ℕ, ◌≡◌, refl, arith, false, Option, none, some, [], ◌∷◌, returns}
use xv.Proc.Table.{ProcState, sleeping, runnable, running, no_chan, proc_chan, Proc, Kernel}
use xv.Proc.Life.{exit_table, Reaped, wait}
use xv.Proc.Sched.{fifo_key, fifo_round}
use xv.Proc.Round.{Round, fifo_round-Round}
use xv.Proc.ExitWait.{At, IsReaped, exit-wait}

abbrev process : ProcState → (pid created : ℕ) → Option ℕ → Proc
process s pid created parent = record {
  sz = 4096;
  pgdir = 1;
  kstack = 2;
  state = s;
  pid = pid;
  parent = parent;
  chan = no_chan;
  killed = false;
  ofile = [];
  cwd = 1;
  name = [];
  priority = 2;
  end_time = 0;
  turnaround_time = 0;
  creation_time = created;
  wait_time = 0;
  start_time = 0;
  ticks_runs = 0;
}

-- init sleeps in wait for its child, pid 2; pid 3 can run, and so can pid 4, which is older
abbrev table : Kernel
table = record {
  procs =
      record (process sleeping 1 0 none) { chan = proc_chan 0 }
      ∷ process running 2 5 (some 0)
      ∷ process runnable 3 9 (some 1)
      ∷ process runnable 4 7 (some 1)
      ∷ [];
  nextpid = 5;
  initproc = 0;
  ticks = 100;
}

fifo_example : Round fifo_key (λ p. p) table (fifo_round table)
fifo_example = fifo_round-Round table

exit_example :
    let k' = exit_table 1 table in
    At (λ r. r.state ≡ runnable) k'.procs 0
    × ((k'' : Kernel) × (r : Reaped) × (wait 0 k' ≡ returns (k'', r)) × IsReaped 0 k' k'' r)
exit_example =
    exit-wait table 1 0 (process running 2 5 (some 0))
      (record (process sleeping 1 0 none) { chan = proc_chan 0 }) (λ e. omega arith) refl refl refl
      (refl, refl)
