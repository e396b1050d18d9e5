-- ===== src/Proc/Sched.antt =====
-- The three schedulers of proc.c (the default, FIFO and PRIORITY builds), sched, yield and sleep.
use xv.Common.{
  ℕ, suc, ◌+◌, Bool, ◌&&◌, Option, none, some, List, [], ◌∷◌, ◌==◌, ltb, if◌then◌else◌, set,
  get_elem?, drop, Outcome, ok, panic, ◌>>=◌,
}
use xv.Proc.Table.{runnable, running, is, Proc, Kernel, first_from}

-- One round of a selection loop: slot `i` holding `p` replaces the selected slot if it is runnable
-- and its key is smaller.
abbrev pub choose : (Proc → ℕ) → Option (ℕ × Proc) → ℕ → Proc → Option (ℕ × Proc)
choose key none i p = if is runnable p then some (i, p) else none
choose key (some (j, q)) i p =
    if is runnable p && ltb (key p) (key q) then some (i, p) else some (j, q)

-- The selection loop, with the slot selected so far and the slots from `i` on.
unfoldable pub select_from : (Proc → ℕ) → Option (ℕ × Proc) → ℕ → List Proc → Option (ℕ × Proc)
select_from key selected i [] = selected
select_from key selected i (p ∷ ps) = select_from key (choose key selected i p) (suc i) ps

-- FIFO: the least creation time. PRIORITY: the least priority number.
abbrev pub fifo_key : Proc → ℕ
fifo_key p = p.creation_time

abbrev pub priority_key : Proc → ℕ
priority_key p = p.priority

abbrev pub is_loaded : Proc → Bool
is_loaded p = ltb 0 p.kstack && ltb 0 p.pgdir

-- Switch to slot `i`, holding `p`: switchuvm checks the stack and the page table, and the state
-- becomes RUNNING.
unfoldable pub dispatch : ℕ → Proc → Kernel → Outcome Kernel
dispatch i p k =
    if is_loaded p
    then ok (record k { procs = set k.procs i (record p { state = running }) })
    else panic

-- One round of the FIFO scheduler up to swtch: the slot that it runs, if any.
unfoldable pub fifo_round : Kernel → Outcome (Option ℕ × Kernel)
unfolding dispatch
fifo_round k = elim (select_from fifo_key none 0 k.procs) [
  | none ↦ ok (none, k)
  | some (i, p) ↦ dispatch i p k >>= λ k'. ok (some i, k')
]

-- One round of the PRIORITY scheduler: a first run gets its start time.
abbrev pub started : ℕ → Proc → Proc
started ticks p = if p.start_time == 0 then record p { start_time = ticks } else p

unfoldable pub priority_round : Kernel → Outcome (Option ℕ × Kernel)
unfolding dispatch
priority_round k = elim (select_from priority_key none 0 k.procs) [
  | none ↦ ok (none, k)
  | some (i, p) ↦ dispatch i (started k.ticks p) k >>= λ k'. ok (some i, k')
]

-- The default scheduler goes on from slot `i`: the next runnable slot, if there is one before the
-- end of the table.
unfoldable pub default_round : (i : ℕ) → Kernel → Outcome (Option ℕ × Kernel)
unfolding dispatch
default_round i k = elim (first_from (is runnable) i (drop i k.procs)) [
  | none ↦ ok (none, k)
  | some (j, p) ↦ dispatch j p k >>= λ k'. ok (some j, k')
]

-- Back from swtch: p->ticks_runs++.
unfoldable pub switched_back : ℕ → Kernel → Kernel
switched_back i k = elim (get_elem? k.procs i) [
  | none ↦ k
  | some p ↦ record k { procs = set k.procs i (record p { ticks_runs = p.ticks_runs + 1 }) }
]

-- yield, up to swtch; the check of sched that the caller is no longer RUNNING passes.
unfoldable pub yield : (cur : ℕ) → Kernel → Kernel
yield cur k = elim (get_elem? k.procs cur) [
  | none ↦ k
  | some p ↦ record k { procs = set k.procs cur (record p { state = runnable }) }
]
