-- ===== src/Proc/Table.antt =====
-- The process table of proc.c and the operations that scan it. A `struct proc *` is an index into
-- `ptable.proc`; every function below holds `ptable.lock` throughout.
use xv.Common.{
  ℕ, suc, Bool, true, false, ◌&&◌, ◌||◌, Option, none, some, List, [], ◌∷◌, map, ◌==◌, ltb,
  if◌then◌else◌, set, get_elem?,
}
use xv.Common.Int.{ℤ, pos, negsuc}

abbrev pub nproc : ℕ
nproc = 64

-- `enum procstate`
pub data ProcState : Type 0 where
  unused embryo sleeping runnable running zombie : ProcState

abbrev pub same_state : ProcState → ProcState → Bool
same_state unused unused = true
same_state embryo embryo = true
same_state sleeping sleeping = true
same_state runnable runnable = true
same_state running running = true
same_state zombie zombie = true
same_state _ _ = false

-- What a process sleeps on: nothing (0), the process at an index, or another kernel address.
pub data Chan : Type 0 where
  no_chan : Chan
  proc_chan : ℕ → Chan
  addr_chan : ℕ → Chan

abbrev pub same_chan : Chan → Chan → Bool
same_chan no_chan no_chan = true
same_chan (proc_chan i) (proc_chan j) = i == j
same_chan (addr_chan a) (addr_chan b) = a == b
same_chan _ _ = false

-- `struct proc`, without the trap frame and the saved registers. Pointers to a page table, a stack,
-- a file or an inode are numbers, 0 for null.
pub record Proc : Type 0 where
  pub sz : ℕ
  pub pgdir : ℕ
  pub kstack : ℕ
  pub state : ProcState
  pub pid : ℕ
  pub parent : Option ℕ
  pub chan : Chan
  pub killed : Bool
  pub ofile : List ℕ
  pub cwd : ℕ
  pub name : List ℕ
  pub priority : ℕ
  pub end_time : ℕ
  pub turnaround_time : ℕ
  pub creation_time : ℕ
  pub wait_time : ℕ
  pub start_time : ℕ
  pub ticks_runs : ℕ

-- `ptable`, `nextpid`, `initproc` and `ticks`
pub record Kernel : Type 0 where
  pub procs : List Proc
  pub nextpid : ℕ
  pub initproc : ℕ
  pub ticks : ℕ

-- `for(p = ptable.proc; p < &ptable.proc[NPROC]; p++) if(test) …`: the first slot that passes, from
-- slot `i` on.
unfoldable pub first_from : (Proc → Bool) → ℕ → List Proc → Option (ℕ × Proc)
first_from test i [] = none
first_from test i (p ∷ ps) = if test p then some (i, p) else first_from test (suc i) ps

abbrev pub first : (Proc → Bool) → List Proc → Option (ℕ × Proc)
first test ps = first_from test 0 ps

abbrev pub is : ProcState → Proc → Bool
is s p = same_state p.state s

-- wakeup1, for one slot and for the table
abbrev pub wake : Chan → Proc → Proc
wake c p =
    if same_state p.state sleeping && same_chan p.chan c then record p { state = runnable } else p

unfoldable pub wakeup1 : Chan → List Proc → List Proc
wakeup1 c ps = map (wake c) ps

unfoldable pub wakeup : Chan → Kernel → Kernel
wakeup c k = record k { procs = wakeup1 c k.procs }

abbrev pub doom : Proc → Proc
doom p = record p {
  killed = true;
  state = if same_state p.state sleeping then runnable else p.state;
}

-- kill: the first slot with this pid
unfoldable pub kill : ℕ → Kernel → Kernel × ℤ
kill pid k = elim (first (λ p. p.pid == pid) k.procs) [
  | none ↦ (k, negsuc 0)
  | some (i, p) ↦ (record k { procs = set k.procs i (doom p) }, pos 0)
]

-- set_sched_priority, for the process in slot `cur`
unfoldable pub set_sched_priority : (cur : ℕ) → ℤ → Kernel → Kernel × ℤ
set_sched_priority cur (negsuc n) k = (k, negsuc 0)
set_sched_priority cur (pos n) k =
    if ltb 2 n then (k, negsuc 0) else (elim (get_elem? k.procs cur) [
      | none ↦ (k, negsuc 0)
      | some p ↦ (record k { procs = set k.procs cur (record p { priority = n }) }, pos 0)
    ])

-- get_sched_priority
unfoldable pub get_sched_priority : ℕ → Kernel → ℤ
get_sched_priority pid k =
    elim (first (λ p. (p.pid == pid) && (is runnable p || is running p)) k.procs) [
      | none ↦ negsuc 0
      | some (i, p) ↦ pos p.priority
    ]

abbrev pub in_queue : Proc → Bool
in_queue p = is runnable p || is running p || is sleeping p

-- The loop of fifo_position, with the position counted so far.
unfoldable pub position_from : ℕ → ℕ → List Proc → ℤ
position_from pid position [] = negsuc 0
position_from pid position (p ∷ ps) =
    let found = pos position in
    let later = position_from pid (if in_queue p then suc position else position) ps in
    if in_queue p && (p.pid == pid) then found else later

unfoldable pub fifo_position : ℕ → Kernel → ℤ
fifo_position pid k = position_from pid 0 k.procs

-- ticks_running, given the pid that argint fetches
unfoldable pub ticks_running : ℕ → Kernel → ℤ
ticks_running pid k = elim (first (λ p. p.pid == pid) k.procs) [
  | none ↦ negsuc 0
  | some (i, p) ↦ if is unused p then negsuc 0 else pos p.ticks_runs
]
