-- ===== src/Spinlock.antt =====
-- spinlock.c: one spin lock, and the interrupt flag of each CPU. The two parts of `acquire` and
-- `release` that other CPUs can see apart are functions of their own.
pub mod Nesting
pub mod Exclusion
mod Tests
use xv.Common.{
  ℕ, zero, suc, ◌+◌, ◌-◌, Bool, true, false, ◌&&◌, not, Option, none, some, ◌==◌, if◌then◌else◌,
  Outcome, ok, panic, ◌>>=◌,
}

-- `struct cpu` as pushcli and popcli use it, and the flag FL_IF of the CPU. `ncli` is never negative:
-- popcli panics first.
pub record Cpu : Type 0 where
  pub ncli : ℕ
  pub intena : Bool
  pub interrupts : Bool

-- `struct spinlock`; `cpu` is the CPU that holds it
pub record Spinlock : Type 0 where
  pub locked : Bool
  pub cpu : Option ℕ

unfoldable pub pushcli : Cpu → Cpu
pushcli c = record {
  ncli = c.ncli + 1;
  intena = if c.ncli == 0 then c.interrupts else c.intena;
  interrupts = false;
}

unfoldable pub popcli : Cpu → Outcome Cpu
popcli c =
    if c.interrupts
    then panic
    else if c.ncli == 0
    then panic
    else (let n = c.ncli - 1 in
        ok
          (record c { ncli = n; interrupts = if (n == 0) && c.intena then true else c.interrupts }))

abbrev pub is_cpu : ℕ → Option ℕ → Bool
is_cpu me none = false
is_cpu me (some i) = i == me

-- holding, on CPU `me`
unfoldable pub holding : (me : ℕ) → Spinlock → Cpu → Outcome (Bool × Cpu)
unfolding pushcli popcli
holding me lk c = popcli (pushcli c) >>= λ c'. ok (lk.locked && is_cpu me lk.cpu, c')

-- acquire up to its loop
unfoldable pub acquire_enter : (me : ℕ) → Spinlock → Cpu → Outcome Cpu
unfolding holding pushcli
acquire_enter me lk c = holding me lk (pushcli c) >>= λ r. if r.0 then panic else ok r.1

-- xchg(&lk->locked, 1): the old value, and the lock
unfoldable pub xchg : Spinlock → Bool × Spinlock
xchg lk = (lk.locked, record lk { locked = true })

-- lk->cpu = mycpu()
unfoldable pub acquire_take : (me : ℕ) → Spinlock → Spinlock
acquire_take me lk = record lk { cpu = some me }

-- acquire, where no other CPU comes between: none while the lock is not free
unfoldable pub acquire : (me : ℕ) → Spinlock → Cpu → Outcome (Option (Spinlock × Cpu))
unfolding acquire_enter xchg acquire_take
acquire me lk c = acquire_enter me lk c >>= λ c'.
    let (old, lk') = xchg lk in ok (if old then none else some (acquire_take me lk', c'))

-- release up to the store that frees the lock
unfoldable pub release_clear : (me : ℕ) → Spinlock → Cpu → Outcome (Spinlock × Cpu)
unfolding holding
release_clear me lk c =
    holding me lk c >>= λ r. if not r.0 then panic else ok (record lk { cpu = none }, r.1)

-- the rest of release
unfoldable pub release_free : Spinlock → Cpu → Outcome (Spinlock × Cpu)
unfolding popcli
release_free lk c = popcli c >>= λ c'. ok (record lk { locked = false }, c')

unfoldable pub release : (me : ℕ) → Spinlock → Cpu → Outcome (Spinlock × Cpu)
unfolding release_clear release_free
release me lk c = release_clear me lk c >>= λ r. release_free r.0 r.1
