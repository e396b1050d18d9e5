-- ===== src/Proc/ExitWait.antt =====
-- exit wakes the parent that sleeps in wait, and wait then finds a child to reap.
use xv.Common.{
  ℕ, zero, suc, ◌≡◌, ◌≢◌, refl, sym, ap, ◌∙◌, inl, inr, arith, true, ◌&&◌, Option, none, some, List,
  [], ◌∷◌, map, get_elem?, Bool-cases, if◌then◌else◌, set, ℕ_discrete, get_elem?-set_self,
  get_elem?-set_ne, returns, ==_refl,
}
use mathlib.Core.Path.{subst}
use mathlib.Core.Option.{some-injective}
use xv.Common.Int.{pos}
use xv.Proc.Table.{
  nproc, sleeping, runnable, zombie, Chan, proc_chan, Proc, Kernel, is, wake, wakeup1,
}
use xv.Proc.Life.{
  has_parent, adopt, reparent, exited, exit_table, parent_chan, wait, reap, Reaped, is_child,
}
use xv.Proc.Scan.{First, missing, hit, first_from-First}
use xv.Proc.Select.{get_elem?-lt}

-- A property of the process in a slot.
abbrev pub At : (Proc → Type 0) → List Proc → ℕ → Type 0
At P ps i = (q : Proc) × (get_elem? ps i ≡ some q) × P q

get_elem?-map {ℓ} :
    {A : Type ℓ} (f : A → A) (xs : List A) (i : ℕ) {x : A}
    → get_elem? xs i ≡ some x
    → get_elem? (map f xs) i ≡ some (f x)
get_elem?-map f [] i e = absurd (cc e)
get_elem?-map f (x ∷ xs) zero e = ap (λ y. some (f y)) (some-injective _ _ e)
get_elem?-map f (x ∷ xs) (suc i) e = get_elem?-map f xs i e

At-set :
    (P : Proc → Type 0) (ps : List Proc) (i j : ℕ) (p : Proc)
    → At P ps i
    → (i ≡ j → P p)
    → At P (set ps j p) i
At-set P ps i j p (q, e, h) new = elim (ℕ_discrete j i) [
  | yes same ↦ (
    p,
    subst (λ n. get_elem? (set ps j p) n ≡ some p) same
        (get_elem?-set_self ps j p (rw same (get_elem?-lt ps i e))),
    new (sym same),
  )
  | no other ↦ (q, get_elem?-set_ne ps p other ∙ e, h)
]

At-wakeup1 :
    (P : Proc → Type 0) (c : Chan) (ps : List Proc) (i : ℕ)
    → ((q : Proc) → P q → P (wake c q))
    → At P ps i
    → At P (wakeup1 c ps) i
unfolding wakeup1
At-wakeup1 P c ps i keep (q, e, h) = (wake c q, get_elem?-map (wake c) ps i e, keep q h)

-- What the loop of exit keeps: a property that wakeups keep, and that a change of the parent keeps
-- for the children of `cur`.
module _ (P : Proc → Type 0) (cur init : ℕ) (woken : (c : Chan) (q : Proc) → P q → P (wake c q))
    (adopted : (q : Proc)
      → has_parent cur q ≡ true
      → P q
      → P (record q { parent = some init })) where
  At-adopt : (ps : List Proc) (j i : ℕ) → At P ps i → At P (adopt cur init j ps) i
  unfolding adopt
  At-adopt ps j i at = go (get_elem? ps j) refl
    where
      go :
          (o : Option Proc)
          → get_elem? ps j ≡ o
          → At P
              (elim o [
                | none ↦ ps
                | some p ↦
                    if has_parent cur p
                    then (if is zombie p
                        then wakeup1 (proc_chan init) (set ps j (record p { parent = some init }))
                        else set ps j (record p { parent = some init }))
                    else ps
              ])
              i
      go none e = at
      go (some p) e = elim (Bool-cases (has_parent cur p)) [
        | inr other ↦ rw other at
        | inl child ↦
            let here : (i ≡ j → P (record p { parent = some init })) = λ same.
              adopted p child
                (subst P (some-injective _ _ (sym at.1 ∙ ap (get_elem? ps) same ∙ e)) at.2) in
            let at' = At-set P ps i j (record p { parent = some init }) at here in
            elim (Bool-cases (is zombie p)) [
              | inl dead ↦
                  rw (child, dead) (At-wakeup1 P (proc_chan init) _ i (woken (proc_chan init)) at')
              | inr alive ↦ rw (child, alive) at'
            ]
      ]

  At-reparent :
      (rounds j i : ℕ) (ps : List Proc) → At P ps i → At P (reparent cur init rounds j ps) i
  unfolding reparent
  At-reparent zero j i ps at = at
  At-reparent (suc rounds) j i ps at = At-reparent rounds (suc j) i _ (At-adopt ps j i at)

-- A waiting parent: it sleeps on its own address.
abbrev pub WaitsForChild : (i : ℕ) → Proc → Type 0
WaitsForChild i p = (p.state ≡ sleeping) × (p.chan ≡ proc_chan i)

abbrev IsRunnable : Proc → Type 0
IsRunnable p = p.state ≡ runnable

abbrev ChildOf : ℕ → Proc → Type 0
ChildOf i p = p.parent ≡ some i

wake-IsRunnable : (c : Chan) (q : Proc) → IsRunnable q → IsRunnable (wake c q)
wake-IsRunnable c q h = ground arith

wake-ChildOf : (i : ℕ) (c : Chan) (q : Proc) → ChildOf i q → ChildOf i (wake c q)
wake-ChildOf i c q h = ground arith

wake-waits : (i : ℕ) (q : Proc) → WaitsForChild i q → IsRunnable (wake (proc_chan i) q)
wake-waits i q w = rw (w.0, w.1, ==_refl i) refl

not_own_child : (cur i : ℕ) (q : Proc) → i ≢ cur → ChildOf i q → has_parent cur q ≢ true
not_own_child cur i q ne child e = ground arith

-- A child of the process in slot `i` that has exited.
abbrev pub IsDeadChild : (i : ℕ) → Proc → Type 0
IsDeadChild i c = (c.parent ≡ some i) × (is zombie c ≡ true)

-- `r` gives the pid of such a child, and its slot is unused in `k'`.
abbrev pub IsReaped : (i : ℕ) (k k' : Kernel) → Reaped → Type 0
IsReaped i k k' r =
    (j : ℕ) × At
      (λ c.
        IsDeadChild i c × (r.pid ≡ pos c.pid) × (k' ≡ record k { procs = set k.procs j (reap c) }))
      k.procs j

wait-returns :
    (i : ℕ) (k : Kernel) (j : ℕ)
    → At (λ q. (is_child i q && is zombie q) ≡ true) k.procs j
    → (k' : Kernel) × (r : Reaped) × (wait i k ≡ returns (k', r)) × IsReaped i k k' r
unfolding wait
wait-returns i k j (q, e, h) =
    let (n, p, hit_at) = found (first_from-First (λ p. is_child i p && is zombie p) 0 k.procs) in
    rw (hit_at.0, wait) (_, _, refl, (n, (p, hit_at.1, (hit_at.2, refl, refl))))
  where
    found :
        {o : Option (ℕ × Proc)}
        → First (λ p. is_child i p && is zombie p) 0 k.procs o
        → (n : ℕ) × (p : Proc) × ((o ≡ some (n, p))
            × (get_elem? k.procs n ≡ some p)
            × IsDeadChild i p)
    found (missing out) = absurd (cc (sym (out j q e) ∙ h))
    found (hit j' n p at slot pass before) = (
      n,
      p,
      (
        refl,
        subst (λ m. get_elem? k.procs m ≡ some p) (omega (arith, at)) slot,
        (ground (arith, pass), ground (arith, pass)),
      ),
    )

zombie_child :
    (i ticks : ℕ) (q : Proc)
    → ChildOf i q
    → (is_child i (exited ticks q) && is zombie (exited ticks q)) ≡ true
zombie_child i ticks q h = rw h (rw (==_refl i))

exit_table_lem :
    (cur : ℕ) (k : Kernel) (p p' : Proc)
    → get_elem? k.procs cur ≡ some p
    → let ps = reparent cur k.initproc nproc 0 (wakeup1 (parent_chan p) k.procs) in
      get_elem? ps cur ≡ some p'
      → exit_table cur k ≡ record k { procs = set ps cur (exited k.ticks p') }
unfolding exit_table
exit_table_lem cur k p p' e e' = rw (e, exit_table, e')

first_wake :
    (k : Kernel) (cur i : ℕ) (p q : Proc)
    → p.parent ≡ some i
    → get_elem? k.procs i ≡ some q
    → WaitsForChild i q
    → At IsRunnable (wakeup1 (parent_chan p) k.procs) i
unfolding wakeup1
first_wake k cur i p q child there waits =
    rw child (
      wake (proc_chan i) q,
      get_elem?-map (wake (proc_chan i)) k.procs i there,
      wake-waits i q waits,
    )

-- If the parent, in slot `i`, sleeps in wait, then the exit of its child, in another slot, makes it
-- runnable, and its wait then returns the pid of a process of the table that is its child and has
-- exited, whose slot becomes unused, and does not sleep again.
pub exit-wait :
    (k : Kernel) (cur i : ℕ) (p q : Proc)
    → i ≢ cur
    → get_elem? k.procs cur ≡ some p
    → p.parent ≡ some i
    → get_elem? k.procs i ≡ some q
    → WaitsForChild i q
    → let k' = exit_table cur k in
      At (λ r. r.state ≡ runnable) k'.procs i
      × ((k'' : Kernel) × (r : Reaped) × (wait i k' ≡ returns (k'', r)) × IsReaped i k' k'' r)
exit-wait k cur i p q ne here child there waits =
    let ps = reparent cur k.initproc nproc 0 (wakeup1 (parent_chan p) k.procs) in
    let parent_up : At IsRunnable ps i =
      At-reparent IsRunnable cur k.initproc wake-IsRunnable (λ r e h. h) nproc 0 i _
        (first_wake k cur i p q child there waits) in
    let kid : At (ChildOf i) ps cur =
      At-reparent (ChildOf i) cur k.initproc (wake-ChildOf i)
        (λ r e h. absurd (not_own_child cur i r ne h e)) nproc 0 cur _
        (At-wakeup1 (ChildOf i) (parent_chan p) k.procs cur (wake-ChildOf i (parent_chan p))
          (p, here, child)) in
    rw (exit_table_lem cur k p kid.0 here kid.1) (
      At-set IsRunnable ps i cur (exited k.ticks kid.0) parent_up (λ e. absurd (ne e)),
      wait-returns i _ cur (
        exited k.ticks kid.0,
        get_elem?-set_self ps cur (exited k.ticks kid.0) (get_elem?-lt ps cur kid.1),
        zombie_child i k.ticks kid.0 kid.2,
      ),
    )
