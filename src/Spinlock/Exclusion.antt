-- ===== src/Spinlock/Exclusion.antt =====
-- Many CPUs and one lock: whoever passes acquire is alone until its release.
use mathlib.Core.Path.{subst}
use xv.Common.{
  ℕ, ◌≡◌, ◌≢◌, refl, sym, ap, ◌∙◌, ℕ_discrete, Bool, true, false, none, Outcome, ok, panic,
  ok-injective, ◌>>=◌, not, update, update_self, update_ne, if◌then◌else◌,
}
use xv.Spinlock.{
  Cpu, Spinlock, holding, popcli, xchg, acquire_enter, acquire_take, release_clear, release_free,
}

-- Where a CPU is: outside, in the loop of acquire, past it with `lk->cpu` not yet stored, in the
-- section, or in release with the lock not yet freed.
pub data Phase : Type 0 where
  outside spinning taking inside leaving : Phase

-- The CPU has the lock.
abbrev pub owns : Phase → Bool
owns outside = false
owns spinning = false
owns taking = true
owns inside = true
owns leaving = true

pub record System : Type 0 where
  pub lock : Spinlock
  pub cpu : ℕ → Cpu
  pub phase : ℕ → Phase

-- One step of CPU `i`.
pub data Step : System → System → Type 0 where
  enter :
      (s : System) (i : ℕ) (c : Cpu)
      → s.phase i ≡ outside
      → acquire_enter i s.lock (s.cpu i) ≡ ok c
      → Step s (record s { cpu = update s.cpu i c; phase = update s.phase i spinning })
  spin :
      (s : System) (i : ℕ)
      → s.phase i ≡ spinning
      → (xchg s.lock).0 ≡ true
      → Step s (record s { lock = (xchg s.lock).1 })
  win :
      (s : System) (i : ℕ)
      → s.phase i ≡ spinning
      → (xchg s.lock).0 ≡ false
      → Step s (record s { lock = (xchg s.lock).1; phase = update s.phase i taking })
  take :
      (s : System) (i : ℕ)
      → s.phase i ≡ taking
      → Step s (record s { lock = acquire_take i s.lock; phase = update s.phase i inside })
  clear :
      (s : System) (i : ℕ) (lk : Spinlock) (c : Cpu)
      → s.phase i ≡ inside
      → release_clear i s.lock (s.cpu i) ≡ ok (lk, c)
      → Step s (record { lock = lk; cpu = update s.cpu i c; phase = update s.phase i leaving })
  free :
      (s : System) (i : ℕ) (lk : Spinlock) (c : Cpu)
      → s.phase i ≡ leaving
      → release_free s.lock (s.cpu i) ≡ ok (lk, c)
      → Step s (record { lock = lk; cpu = update s.cpu i c; phase = update s.phase i outside })

pub data Reach (s : System) : System → Type 0 where
  here : Reach s s
  next : {t u : System} → Reach s t → Step t u → Reach s u

-- The lock is taken exactly if one CPU has it.
record IsExclusive (locked : Bool) (phase : ℕ → Phase) : Type 0 where
  taken : (i : ℕ) → owns (phase i) ≡ true → locked ≡ true
  single : (i j : ℕ) → owns (phase i) ≡ true → owns (phase j) ≡ true → i ≡ j

-- A CPU that does not own changes to a phase that does not own.
still :
    {locked : Bool} {phase : ℕ → Phase} (i : ℕ) (p : Phase)
    → owns p ≡ owns (phase i)
    → IsExclusive locked phase
    → IsExclusive locked (update phase i p)
still {locked} {phase} i p e x = record {
  taken = λ j o. x.taken j (sym (same j) ∙ o);
  single = λ j k o o'. x.single j k (sym (same j) ∙ o) (sym (same k) ∙ o');
}
  where
    same : (j : ℕ) → owns (update phase i p j) ≡ owns (phase j)
    same j = elim (ℕ_discrete i j) [
      | yes eq ↦ rw (← eq) (ap owns (update_self phase i p) ∙ e)
      | no ne ↦ ap owns (update_ne phase p ne)
    ]

won :
    {locked : Bool} {phase : ℕ → Phase} (i : ℕ)
    → locked ≡ false
    → IsExclusive locked phase
    → IsExclusive true (update phase i taking)
won {locked} {phase} i unheld x = record {
  taken = λ j o. refl;
  single = λ j k o o'. sym (me j o) ∙ me k o';
}
  where
    me : (j : ℕ) → owns (update phase i taking j) ≡ true → i ≡ j
    me j o = elim (ℕ_discrete i j) [
      | yes eq ↦ eq
      | no ne ↦ absurd (cc (sym unheld ∙ x.taken j (ap owns (sym (update_ne phase taking ne)) ∙ o)))
    ]

freed :
    {locked : Bool} {phase : ℕ → Phase} (i : ℕ)
    → owns (phase i) ≡ true
    → IsExclusive locked phase
    → IsExclusive false (update phase i outside)
freed {locked} {phase} i had x = record {
  taken = λ j o. absurd (nobody j o);
  single = λ j k o o'. absurd (nobody j o);
}
  where
    nobody : (j : ℕ) → owns (update phase i outside j) ≢ true
    nobody j o = elim (ℕ_discrete i j) [
      | yes eq ↦ absurd (
          cc (
            sym (ap owns (update_self phase i outside))
            ∙ subst (λ k. owns (update phase i outside k) ≡ true) (sym eq) o))
      | no ne ↦ absurd (ne (x.single i j had (ap owns (sym (update_ne phase outside ne)) ∙ o)))
    ]

-- What release does after holding, and after popcli.
abbrev checked : Spinlock → Bool × Cpu → Outcome (Spinlock × Cpu)
checked lk r = if not r.0 then panic else ok (record lk { cpu = none }, r.1)

abbrev unlocked : Spinlock → Cpu → Outcome (Spinlock × Cpu)
unlocked lk c = ok (record lk { locked = false }, c)

release_clear-locked :
    (me : ℕ) (lk lk' : Spinlock) (c c' : Cpu)
    → release_clear me lk c ≡ ok (lk', c')
    → lk'.locked ≡ lk.locked
unfolding release_clear
release_clear-locked me lk lk' c c' = go (holding me lk c)
  where
    go : (o : Outcome (Bool × Cpu)) → (o >>= checked lk) ≡ ok (lk', c') → lk'.locked ≡ lk.locked
    go panic e = absurd (cc e)
    go (ok (true, d)) e =
        ap (λ (r : Spinlock × Cpu). r.0.locked)
          (sym (ok-injective (record lk { cpu = none }, d) (lk', c') e))
    go (ok (false, d)) e = absurd (cc e)

release_free-locked :
    (lk lk' : Spinlock) (c c' : Cpu) → release_free lk c ≡ ok (lk', c') → lk'.locked ≡ false
unfolding release_free
release_free-locked lk lk' c c' = go (popcli c)
  where
    go : (o : Outcome Cpu) → (o >>= unlocked lk) ≡ ok (lk', c') → lk'.locked ≡ false
    go panic e = absurd (cc e)
    go (ok d) e =
        ap (λ (r : Spinlock × Cpu). r.0.locked)
          (sym (ok-injective (record lk { locked = false }, d) (lk', c') e))

abbrev IsSafe : System → Type 0
IsSafe s = IsExclusive s.lock.locked s.phase

Step-IsSafe : {s t : System} → Step s t → IsSafe s → IsSafe t
unfolding xchg acquire_take
Step-IsSafe (enter s i c at e) x = still i spinning (sym (ap owns at)) x
Step-IsSafe (spin s i at e) x = record { taken = λ j o. refl; single = x.single }
Step-IsSafe (win s i at e) x = won i e x
Step-IsSafe (take s i at) x = still i inside (sym (ap owns at)) x
Step-IsSafe (clear s i lk c at e) x =
    subst (λ b. IsExclusive b (update s.phase i leaving))
      (sym (release_clear-locked i s.lock lk (s.cpu i) c e)) (still i leaving (sym (ap owns at)) x)
Step-IsSafe (free s i lk c at e) x =
    subst (λ b. IsExclusive b (update s.phase i outside))
      (sym (release_free-locked s.lock lk (s.cpu i) c e)) (freed i (ap owns at) x)

Reach-IsSafe : {s t : System} → Reach s t → IsSafe s → IsSafe t
Reach-IsSafe here x = x
Reach-IsSafe (next reach step) x = Step-IsSafe step (Reach-IsSafe reach x)

-- In every run that starts with all CPUs outside, whatever their flags and the lock, and in any
-- interleaving of the steps of acquire and release: while one CPU is in the section, no other is.
pub mutual_exclusion :
    {s t : System} (i j : ℕ)
    → ((k : ℕ) → s.phase k ≡ outside)
    → Reach s t
    → t.phase i ≡ inside
    → i ≢ j
    → t.phase j ≢ inside
mutual_exclusion {s} i j start reach at ne at' =
    ne ((Reach-IsSafe reach nobody).single i j (ap owns at) (ap owns at'))
  where
    nobody : IsSafe s
    nobody = record {
      taken = λ k o. absurd (cc (sym (ap owns (start k)) ∙ o));
      single = λ k l o o'. absurd (cc (sym (ap owns (start k)) ∙ o));
    }
