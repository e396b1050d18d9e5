-- ===== src/Proc/Life.antt =====
-- allocproc, fork, exit, wait and clone of proc.c.
use xv.Common.{
  ℕ, zero, suc, ◌+◌, ◌-◌, ◌%◌, ◌^◌, Bool, false, not, ◌&&◌, ◌||◌, Option, none, some, List, [], ◌∷◌,
  map, ◌==◌, ltb, if◌then◌else◌, set, get_elem?, get_or, Outcome, ok, panic, ◌>>=◌, Turn, returns,
  sleeps,
}
use xv.Common.Int.{ℤ, pos, negsuc}
use xv.Proc.Table.{
  nproc, unused, embryo, sleeping, runnable, zombie, Chan, no_chan, proc_chan, Proc, Kernel, first,
  is, wakeup1,
}

-- The file table and the inode cache, as proc.c uses them.
pub record FileOps (F : Type 0) : Type 0 where
  pub filedup : ℕ → F → Outcome F
  pub fileclose : ℕ → F → Outcome F
  pub idup : ℕ → F → Outcome F
  pub iput : ℕ → F → Outcome F

-- allocproc: `stack` is what kalloc returns for the kernel stack, 0 if there is no memory. The slot,
-- if there is one, and the new table.
unfoldable pub allocproc : (stack : ℕ) → Kernel → Option ℕ × Kernel
allocproc stack k = elim (first (is unused) k.procs) [
  | none ↦ (none, k)
  | some (i, p) ↦
      let k' = record k { nextpid = k.nextpid + 1 } in
      if stack == 0
      then (
        none,
        record k' {
          procs = set k.procs i (record p { state = unused; pid = k.nextpid; kstack = 0 });
        },
      )
      else (
        some i,
        record k' {
          procs = set k.procs i (record p {
            state = embryo;
            pid = k.nextpid;
            kstack = stack;
            creation_time = k.ticks;
            wait_time = 0;
          });
        },
      )
]

abbrev pub has_parent : ℕ → Proc → Bool
has_parent cur p = elim p.parent [ none ↦ false | some i ↦ i == cur ]

-- One round of the loop of exit that passes abandoned children to init, at slot `i`.
unfoldable pub adopt : (cur init i : ℕ) → List Proc → List Proc
adopt cur init i ps = elim (get_elem? ps i) [
  | none ↦ ps
  | some p ↦
      let ps' = set ps i (record p { parent = some init }) in
      if has_parent cur p then (if is zombie p then wakeup1 (proc_chan init) ps' else ps') else ps
]

unfoldable pub reparent : (cur init : ℕ) (rounds i : ℕ) → List Proc → List Proc
reparent cur init zero i ps = ps
reparent cur init (suc rounds) i ps = reparent cur init rounds (suc i) (adopt cur init i ps)

abbrev pub u32 : ℕ → ℕ
u32 n = n % 2 ^ 32

-- uint subtraction
abbrev pub sub32 : ℕ → ℕ → ℕ
sub32 a b = (a + 2 ^ 32 - b) % 2 ^ 32

-- What exit stores in its own slot, at time `ticks`.
abbrev pub exited : (ticks : ℕ) → Proc → Proc
exited ticks p = record p {
  end_time = ticks;
  wait_time = sub32 p.start_time p.creation_time;
  turnaround_time = sub32 ticks p.creation_time;
  state = zombie;
}

-- wakeup1(curproc->parent); a null parent wakes whoever sleeps on the null channel
abbrev pub parent_chan : Proc → Chan
parent_chan p = elim p.parent [ none ↦ no_chan | some i ↦ proc_chan i ]

-- The part of exit under ptable.lock, by the process in slot `cur`.
unfoldable pub exit_table : (cur : ℕ) → Kernel → Kernel
exit_table cur k = elim (get_elem? k.procs cur) [
  | none ↦ k
  | some p ↦
      let ps = reparent cur k.initproc nproc 0 (wakeup1 (parent_chan p) k.procs) in
      elim (get_elem? ps cur) [
        | none ↦ k
        | some p' ↦ record k { procs = set ps cur (exited k.ticks p') }
      ]
]

-- One pass of wait over the table: the first zombie child, and whether there is a child at all.
-- The real scan stops at the zombie; `havekids` matters only where there is none.
abbrev pub is_child : ℕ → Proc → Bool
is_child cur p = has_parent cur p

unfoldable pub have_kids : ℕ → List Proc → Bool
have_kids cur [] = false
have_kids cur (p ∷ ps) = is_child cur p || have_kids cur ps

abbrev pub reap : Proc → Proc
reap p = record p {
  kstack = 0;
  pid = 0;
  parent = none;
  name = set p.name 0 0;
  killed = false;
  state = unused;
}

-- What wait hands back: the pid, and the stack and the page table that it frees.
pub record Reaped : Type 0 where
  pub pid : ℤ
  pub kstack : ℕ
  pub pgdir : ℕ

abbrev pub no_child : Reaped
no_child = record { pid = negsuc 0; kstack = 0; pgdir = 0 }

-- sleep(curproc, &ptable.lock), up to the call of sched
unfoldable pub sleep_on : (cur : ℕ) → Chan → Kernel → Kernel
sleep_on cur c k = elim (get_elem? k.procs cur) [
  | none ↦ k
  | some p ↦ record k { procs = set k.procs cur (record p { chan = c; state = sleeping }) }
]

-- wait by the process in slot `cur`, started or woken: one round of its outer loop
unfoldable pub wait : (cur : ℕ) → Kernel → Turn Kernel (Kernel × Reaped)
wait cur k = elim (first (λ p. is_child cur p && is zombie p) k.procs) [
  | some (i, p) ↦ returns (
    record k { procs = set k.procs i (reap p) },
    record { pid = pos p.pid; kstack = p.kstack; pgdir = p.pgdir },
  )
  | none ↦
      let killed : Bool = elim (get_elem? k.procs cur) [ none ↦ false | some p ↦ p.killed ] in
      if not (have_kids cur k.procs) || killed
      then returns (k, no_child)
      else sleeps (sleep_on cur (proc_chan cur) k)
]

module _ {F : Type 0} (ops : FileOps F) where
  -- for(i = 0; i < NOFILE; i++) if(curproc->ofile[i]) np->ofile[i] = filedup(curproc->ofile[i])
  unfoldable pub dup_files : List ℕ → List ℕ → F → Outcome (List ℕ × F)
  dup_files [] new f = ok (new, f)
  dup_files (h ∷ hs) [] f = ok ([], f)
  dup_files (h ∷ hs) (n ∷ ns) f =
      let keep = dup_files hs ns f >>= λ r. ok (n ∷ r.0, r.1) in
      let dup = ops.filedup h f >>= λ f'. dup_files hs ns f' >>= λ r. ok (h ∷ r.0, r.1) in
      if h == 0 then keep else dup

  -- the child, once its memory is copied to `pgdir`
  abbrev pub child : (cur : ℕ) (parent new : Proc) (pgdir ticks : ℕ) (files : List ℕ) → Proc
  child cur parent new pgdir ticks files = record new {
    pgdir = pgdir;
    sz = parent.sz;
    parent = some cur;
    ofile = files;
    cwd = parent.cwd;
    name = parent.name;
    priority = if ltb 2 new.priority then 1 else new.priority;
    start_time = ticks;
    state = runnable;
  }

  -- fork by the process in slot `cur`; `pgdir` is what copyuvm returns, 0 if there is no memory
  unfoldable pub fork : (cur stack pgdir : ℕ) → Kernel → F → Outcome (Kernel × F × ℤ)
  unfolding allocproc
  fork cur stack pgdir k f =
      let (slot, k') = allocproc stack k in
      elim slot [
        | none ↦ ok (k', f, negsuc 0)
        | some i ↦ elim (get_elem? k'.procs cur) [
          | none ↦ panic
          | some parent ↦ elim (get_elem? k'.procs i) [
            | none ↦ panic
            | some new ↦
                if pgdir == 0
                then ok (
                  record k' {
                    procs = set k'.procs i (record new { pgdir = 0; kstack = 0; state = unused });
                  },
                  f,
                  negsuc 0,
                )
                else (dup_files parent.ofile new.ofile f >>= λ r. ops.idup parent.cwd r.1 >>= λ f'.
                    ok (
                      record k' {
                        procs = set k'.procs i (child cur parent new pgdir k'.ticks r.0);
                      },
                      f',
                      pos new.pid,
                    ))
          ]
        ]
      ]

  -- the loop of exit over the open files
  unfoldable pub close_files : List ℕ → F → Outcome F
  close_files [] f = ok f
  close_files (h ∷ hs) f =
      let skip = close_files hs f in
      let close = ops.fileclose h f >>= λ f'. close_files hs f' in if h == 0 then skip else close

  -- exit by the process in slot `cur`, up to the call of sched that leaves it for good
  unfoldable pub exit : (cur : ℕ) → Kernel → F → Outcome (Kernel × F)
  unfolding exit_table
  exit cur k f = if cur == k.initproc then panic else (elim (get_elem? k.procs cur) [
    | none ↦ panic
    | some p ↦ close_files p.ofile f >>= λ f'. ops.iput p.cwd f' >>= λ f''. ok (
      exit_table cur (record k {
        procs = set k.procs cur (record p { ofile = map (λ _. 0) p.ofile; cwd = 0 });
      }),
      f'',
    )
  ])

  -- clone as it is written: the new thread's `ofile[i]` is filled by filedup of its own `ofile[i]`,
  -- and its state is never set to RUNNABLE; the function then ends with no return value (`none`).
  -- The user stack and the trap frame that it fills in are not part of the table.
  unfoldable pub clone_files : List ℕ → List ℕ → F → Outcome (List ℕ × F)
  clone_files [] new f = ok (new, f)
  clone_files (h ∷ hs) [] f = ok ([], f)
  clone_files (h ∷ hs) (n ∷ ns) f =
      let keep = ops.idup h f >>= λ f'. clone_files hs ns f' >>= λ r. ok (n ∷ r.0, r.1) in
      let dup = ops.filedup n f >>= λ f'.
      ops.idup h f' >>= λ f''. clone_files hs ns f'' >>= λ r. ok (n ∷ r.0, r.1) in
      if h == 0 then keep else dup

  unfoldable pub clone : (cur stack : ℕ) → Kernel → F → Outcome (Kernel × F × Option ℤ)
  unfolding allocproc
  clone cur stack k f =
      let (slot, k') = allocproc stack k in
      elim slot [
        | none ↦ ok (k', f, some (negsuc 0))
        | some i ↦ elim (get_elem? k'.procs cur) [
          | none ↦ panic
          | some this ↦ elim (get_elem? k'.procs i) [
            | none ↦ panic
            | some new ↦ clone_files this.ofile new.ofile f >>= λ r. ok (
              record k' {
                procs = set k'.procs i (record new {
                  pgdir = this.pgdir;
                  sz = this.sz;
                  parent = none;
                  ofile = r.0;
                  cwd = get_or this.ofile 15 0;
                });
              },
              r.1,
              none,
            )
          ]
        ]
      ]
