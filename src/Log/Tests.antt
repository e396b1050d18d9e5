-- ===== src/Log/Tests.antt =====
-- The theorems on log.c at one small log: block 50 logged with new contents.
use xv.Common.{ℕ, ◌≡◌, ◌≢◌, refl, ◌⊎◌, inr, arith, true, false, none, some, [], ◌∷◌, panic, update}
use xv.Common.Int.{pos}
use xv.Log.Disk.{Block, Machine, bwrite}
use xv.Log.Ops.{
  LogHeader, Log, install_from, install_trans, copy_in, read_head, copy_out, header_block,
  write_head, recover_from_log, initlog, begin_op, write_from, write_log, commit, end_op_enter,
  record_block, log_write,
}
use xv.Log.Logical.{IsHome, IsLog}
use xv.Log.Commit.{IsReady, OldOrNew, updated}
use xv.Log.Crash.{reboot, reboots, commit_atomic, commit_complete, crash_atomic}
use xv.Log.Calls.{System, begin, write, finish, Reach, here, next}
use xv.Log.Reserve.{idle, no_panic}

abbrev seven : Block
seven = λ i. 7

abbrev old_disk : ℕ → Block
old_disk = λ b i. 0

abbrev header : LogHeader
header = record { n = 1; block = λ i. 50 }

abbrev log : Log
log = record {
  start = 2;
  size = 40;
  outstanding = pos 1;
  committing = false;
  wakeups = 0;
  lh = header;
}

abbrev machine : ℕ → Machine
machine power = record {
  disk = old_disk;
  cache = update (λ b. none) 50 (some (record { words = seven; dirty = true }));
  power = power;
}

ready : (power : ℕ) → IsReady log (machine power)
ready power = record {
  sound = record {
    room = omega arith;
    distinct = λ j k p q e. omega arith;
    home = λ j p. inr (omega arith);
  };
  empty = refl;
}

-- The power fails after the commit record; the first boot is cut short as well.
crash_atomic_example :
    let final = reboot 2 40 log (reboots 2 40 log (commit log (machine 2)).1.disk (1 ∷ [])) 5 in
    ((b : ℕ) → IsHome 2 40 b → final b ≡ old_disk b)
    ⊎ ((b : ℕ) → IsHome 2 40 b → final b ≡ updated log (machine 2) b)
unfolding initlog recover_from_log read_head copy_in install_trans install_from write_head
    header_block copy_out bwrite commit write_log write_from
crash_atomic_example = crash_atomic log (machine 2) (ready 2) log (1 ∷ []) 5 (omega arith)

commit_atomic_example :
    OldOrNew log (machine 1) (commit log (machine 1)).1.disk
    × IsLog 2 40 (commit log (machine 1)).1.disk
commit_atomic_example = commit_atomic log (machine 1) (ready 1)

commit_complete_example :
    ((b : ℕ) → IsHome 2 40 b → (commit log (machine 9)).1.disk b ≡ updated log (machine 9) b)
    × ((commit log (machine 9)).1.disk 2 0 ≡ 0)
    × ((commit log (machine 9)).0.lh.n ≡ 0)
commit_complete_example = commit_complete log (machine 9) (ready 9) (omega arith)

-- A disk whose log holds block 50, committed.
abbrev crashed : ℕ → Block
crashed = update (update old_disk 2 (update (update (λ i. 0) 0 1) 1 50)) 3 seven

crashed-IsLog : IsLog 2 40 crashed
crashed-IsLog = record {
  room = omega arith;
  distinct = λ j k p q e. omega arith;
  home = λ j p. inr (ground arith);
}

-- A second block is logged.
abbrev logged : Log
logged = record log { lh = record_block header 60 }

-- One call begins, logs a block and ends.
abbrev begun : Log
begun = record (idle log (machine 9)).log { outstanding = pos 1 }

abbrev wrote : Log
wrote = record begun { lh = record_block begun.lh 50 }

abbrev wrote_machine : Machine
wrote_machine = record (machine 9) {
  cache = update (machine 9).cache 50 (some (record { words = seven; dirty = true }));
}

abbrev ended : Log
ended = record wrote { outstanding = pos 0; committing = true }

abbrev after_begin : System
after_begin = record { log = begun; machine = machine 9; ops = 10 ∷ [] }

abbrev after_write : System
after_write = record { log = wrote; machine = wrote_machine; ops = 9 ∷ [] }

abbrev after_end : System
after_end = record { log = ended; machine = wrote_machine; ops = [] }

Reach-begin : Reach (idle log (machine 9)) after_begin
unfolding begin_op
Reach-begin = next here (begin (idle log (machine 9)) begun refl)

Reach-write : Reach (idle log (machine 9)) after_write
unfolding log_write
Reach-write = next Reach-begin (write after_begin [] [] 9 50 seven wrote wrote_machine refl refl)

Reach-end : Reach (idle log (machine 9)) after_end
unfolding end_op_enter
Reach-end = next Reach-write (finish after_write [] [] 9 ended true refl refl)

no_panic_example : log_write wrote wrote_machine 51 seven ≢ panic
no_panic_example = no_panic log (machine 9) [] [] 8 51 seven (omega arith) Reach-write refl
