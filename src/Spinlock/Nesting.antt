-- ===== src/Spinlock/Nesting.antt =====
-- pushcli and popcli are matched, and so are acquire and release.
use xv.Common.{
  ℕ, zero, suc, ◌-◌, ◌<◌, ◌≡◌, refl, ap, ◌∙◌, arith, dec_lt, ==_refl, true, false, none, some, ◌==◌,
  ◌&&◌, Outcome, ok, panic, ◌>>=◌,
}
use xv.Spinlock.{
  Cpu, Spinlock, pushcli, popcli, is_cpu, holding, acquire_enter, xchg, acquire_take, acquire,
  release_clear, release_free, release,
}

-- Interrupts are off inside a section.
abbrev pub IsMatched : Cpu → Type 0
IsMatched c = 0 < c.ncli → c.interrupts ≡ false

Cpu-ext : (c d : Cpu) → c.ncli ≡ d.ncli → c.intena ≡ d.intena → c.interrupts ≡ d.interrupts → c ≡ d
Cpu-ext c d n i f = cc

abbrev popped : Cpu → Cpu
popped c = record c { ncli = c.ncli - 1; interrupts = (c.ncli - 1 == 0) && c.intena }

popcli_lem : (c : Cpu) → 0 < c.ncli → c.interrupts ≡ false → popcli c ≡ ok (popped c)
unfolding popcli
popcli_lem c h off =
    let some_left : (c.ncli == 0) ≡ false = ground arith in
    rw (off, some_left) (ap ok (Cpu-ext _ (popped c) refl refl (ground arith)))

pop-push_nested : (c : Cpu) → 0 < c.ncli → c.interrupts ≡ false → popcli (pushcli c) ≡ ok c
unfolding pushcli
pop-push_nested c h off =
    popcli_lem (pushcli c) (omega arith) refl
    ∙ ap ok (Cpu-ext (popped (pushcli c)) c (omega arith) (ground arith) (ground arith))

abbrev opened : Cpu → Cpu
opened c = record c { intena = c.interrupts }

pop-push_outer : (c : Cpu) → c.ncli ≡ 0 → popcli (pushcli c) ≡ ok (opened c)
unfolding pushcli
pop-push_outer c h =
    popcli_lem (pushcli c) (omega arith) refl
    ∙ ap ok (Cpu-ext (popped (pushcli c)) (opened c) (omega arith) (ground arith) (ground arith))

-- The counter and the interrupt flag are the same.
pub record SameFlags (c d : Cpu) : Type 0 where
  pub ncli : d.ncli ≡ c.ncli
  pub interrupts : d.interrupts ≡ c.interrupts

pop-push : (c : Cpu) → IsMatched c → (d : Cpu) × (popcli (pushcli c) ≡ ok d) × SameFlags c d
pop-push c m = elim (dec_lt 0 c.ncli) [
  | yes inside ↦ (c, pop-push_nested c inside (m inside), record { ncli = refl; interrupts = refl })
  | no outside ↦
      (opened c, pop-push_outer c (omega arith), record { ncli = refl; interrupts = refl })
]

abbrev pub pushes : ℕ → Cpu → Cpu
pushes zero c = c
pushes (suc n) c = pushcli (pushes n c)

abbrev pub pops : ℕ → Cpu → Outcome Cpu
pops zero c = ok c
pops (suc n) c = popcli c >>= λ c'. pops n c'

pushes-IsOff :
    (n : ℕ) (c : Cpu) → (0 < (pushes (suc n) c).ncli) × ((pushes (suc n) c).interrupts ≡ false)
unfolding pushcli
pushes-IsOff n c = (omega arith, refl)

-- On a CPU whose interrupts are off in every section, n calls of popcli after n calls of pushcli do
-- not panic, and bring back the counter and the interrupt flag; n is 1 at least.
pub pops-pushes :
    (n : ℕ) (c : Cpu)
    → IsMatched c
    → (d : Cpu) × (pops (suc n) (pushes (suc n) c) ≡ ok d) × SameFlags c d
pops-pushes zero c m = let (d, e, same) = pop-push c m in (d, rw e refl, same)
pops-pushes (suc n) c m =
    let (inside, off) = pushes-IsOff n c in
    let (d, e, same) = pops-pushes n c m in
    (d, rw (pop-push_nested (pushes (suc n) c) inside off) e, same)

pub holding_nested :
    (me : ℕ) (lk : Spinlock) (c : Cpu)
    → 0 < c.ncli
    → c.interrupts ≡ false
    → holding me lk c ≡ ok (lk.locked && is_cpu me lk.cpu, c)
unfolding holding
holding_nested me lk c h off = rw (pop-push_nested c h off)

-- The lock held by `me`, and the free lock.
abbrev pub held_by : ℕ → Spinlock
held_by me = record { locked = true; cpu = some me }

abbrev pub released : Spinlock
released = record { locked = false; cpu = none }

acquire_free :
    (me : ℕ) (lk : Spinlock) (c : Cpu)
    → lk.locked ≡ false
    → acquire me lk c ≡ ok (some (held_by me, pushcli c))
unfolding acquire acquire_enter xchg acquire_take pushcli
acquire_free me lk c free = rw (holding_nested me lk (pushcli c) (omega arith) refl, free) refl

release_held :
    (me : ℕ) (c : Cpu) (d : Cpu)
    → 0 < c.ncli
    → c.interrupts ≡ false
    → popcli c ≡ ok d
    → release me (held_by me) c ≡ ok (released, d)
unfolding release release_clear release_free
release_held me c d h off e = rw (holding_nested me (held_by me) c h off, ==_refl me) (rw e refl)

-- acquire of a free lock, on a CPU whose interrupts are off in every section, turns interrupts off
-- and holds the lock; acquire of it again on that CPU panics; release brings back the counter, the
-- interrupt flag and a free lock.
pub release-acquire :
    (me : ℕ) (lk : Spinlock) (c : Cpu)
    → lk.locked ≡ false
    → IsMatched c
    → (held : Spinlock) × (c' : Cpu) × (d : Cpu) × (acquire me lk c ≡ ok (some (held, c')))
      × (c'.interrupts ≡ false)
      × (acquire me held c' ≡ panic)
      × (release me held c' ≡ ok (released, d))
      × SameFlags c d
unfolding acquire acquire_enter pushcli
release-acquire me lk c free m =
    let (d, e, same) = pop-push c m in
    (
      held_by me,
      pushcli c,
      d,
      acquire_free me lk c free,
      refl,
      rw (holding_nested me (held_by me) (pushcli (pushcli c)) (omega arith) refl, ==_refl me) refl,
      release_held me (pushcli c) d (omega arith) refl e,
      same,
    )
