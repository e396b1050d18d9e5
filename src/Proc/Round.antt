-- ===== src/Proc/Round.antt =====
-- One round of each scheduler: which slot it runs, and what becomes of the table.
use xv.Common.{
  ℕ, ◌≡◌, ◌∙◌, inl, inr, arith, true, false, Option, none, some, Bool-cases, set, Outcome, ok,
  panic, ◌>>=◌,
}
use xv.Proc.Table.{running, Proc, Kernel}
use xv.Proc.Sched.{fifo_key, priority_key, is_loaded, dispatch, fifo_round, priority_round, started}
use xv.Proc.Select.{NoneRunnable, IsBest, Picks, idle, picks, select-Picks}

-- A round of a scheduler that picks by `key` and prepares the picked process by `prepare`.
pub data Round (key : Proc → ℕ) (prepare : Proc → Proc) (k : Kernel)
    : Outcome (Option ℕ × Kernel) → Type 0 where
  rests : NoneRunnable k.procs → Round key prepare k (ok (none, k))
  runs :
      (i : ℕ) (p : Proc)
      → IsBest key k.procs i p
      → is_loaded p ≡ true
      → Round key prepare k
          (ok (some i, record k { procs = set k.procs i (record (prepare p) { state = running }) }))
  faults :
      (i : ℕ) (p : Proc) → IsBest key k.procs i p → is_loaded p ≡ false → Round key prepare k panic

-- FIFO runs the runnable process that was created first, the first slot of equals; it sets that one
-- slot to RUNNING and changes nothing else; it rests only if no process can run, and panics only if
-- the picked process has no stack or no page table.
pub fifo_round-Round : (k : Kernel) → Round fifo_key (λ p. p) k (fifo_round k)
unfolding fifo_round dispatch
fifo_round-Round k = go (select-Picks fifo_key k.procs)
  where
    go :
        {o : Option (ℕ × Proc)}
        → Picks fifo_key k.procs o
        → Round fifo_key
            (λ p. p)
            k
            (elim o [
              | none ↦ ok (none, k)
              | some (i, p) ↦ dispatch i p k >>= λ k'. ok (some i, k')
            ])
    go (idle dead) = rests dead
    go (picks i p best) = elim (Bool-cases (is_loaded p)) [
      | inl loaded ↦ rw loaded (runs i p best loaded)
      | inr bare ↦ rw bare (faults i p best bare)
    ]

is_loaded-started : (ticks : ℕ) (p : Proc) → is_loaded (started ticks p) ≡ is_loaded p
is_loaded-started ticks p = ground arith

-- PRIORITY runs the runnable process with the least priority number, the first slot of equals, and
-- stamps its start time if it has none; for the rest it is like FIFO.
pub priority_round-Round : (k : Kernel) → Round priority_key (started k.ticks) k (priority_round k)
unfolding priority_round dispatch
priority_round-Round k = go (select-Picks priority_key k.procs)
  where
    go :
        {o : Option (ℕ × Proc)}
        → Picks priority_key k.procs o
        → Round priority_key (started k.ticks) k (elim o [
          | none ↦ ok (none, k)
          | some (i, p) ↦ dispatch i (started k.ticks p) k >>= λ k'. ok (some i, k')
        ])
    go (idle dead) = rests dead
    go (picks i p best) = elim (Bool-cases (is_loaded p)) [
      | inl loaded ↦ rw (is_loaded-started k.ticks p ∙ loaded) (runs i p best loaded)
      | inr bare ↦ rw (is_loaded-started k.ticks p ∙ bare) (faults i p best bare)
    ]
