-- ===== src/Spinlock/Tests.antt =====
-- The theorems on spinlock.c with two CPUs.
use xv.Common.{◌≢◌, refl, arith, true, false, none, some, update}
use xv.Spinlock.{Cpu, pushcli, popcli, holding, acquire_enter, xchg, acquire_take}
use xv.Spinlock.Nesting.{released}
use xv.Spinlock.Exclusion.{
  outside, spinning, taking, inside, System, enter, win, take, Reach, here, next, mutual_exclusion,
}

abbrev idle : Cpu
idle = record { ncli = 0; intena = false; interrupts = true }

-- CPU 1 gets the lock, and CPU 0 spins.
abbrev start : System
start = record { lock = released; cpu = λ i. idle; phase = λ i. outside }

abbrev off : Cpu
off = record { ncli = 1; intena = true; interrupts = false }

abbrev one_enters : System
one_enters = record {
  lock = released;
  cpu = update (λ i. idle) 1 off;
  phase = update (λ i. outside) 1 spinning;
}

abbrev one_wins : System
one_wins = record one_enters {
  lock = record { locked = true; cpu = none };
  phase = update one_enters.phase 1 taking;
}

abbrev one_inside : System
one_inside = record one_wins {
  lock = record { locked = true; cpu = some 1 };
  phase = update one_wins.phase 1 inside;
}

Reach-inside : Reach start one_inside
unfolding acquire_enter holding pushcli popcli xchg acquire_take
Reach-inside =
    next (next (next here (enter start 1 off refl refl)) (win one_enters 1 refl refl))
      (take one_wins 1 refl)

exclusion_example : one_inside.phase 2 ≢ inside
exclusion_example = mutual_exclusion 1 2 (λ k. refl) Reach-inside refl (λ e. omega arith)
