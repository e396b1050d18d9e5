-- ===== src/Proc/Scan.antt =====
-- The loops over the process table that stop at the first slot that passes a test.
use xv.Common.{
  ℕ, zero, suc, ◌+◌, ◌<◌, ◌≡◌, refl, inl, inr, arith, Bool, true, false, Option, none, some, List,
  [], ◌∷◌, get_elem?, Bool-cases,
}
use mathlib.Core.Path.{subst}
use mathlib.Core.Option.{some-injective}
use xv.Proc.Table.{Proc, first_from}

-- Slot `i + j` is the first that passes, or none does.
pub data First (test : Proc → Bool) (i : ℕ) (ps : List Proc) : Option (ℕ × Proc) → Type 0 where
  missing : ((j : ℕ) (q : Proc) → get_elem? ps j ≡ some q → test q ≡ false) → First test i ps none
  hit :
      (j n : ℕ) (p : Proc)
      → n ≡ i + j
      → get_elem? ps j ≡ some p
      → test p ≡ true
      → ((j' : ℕ) (q : Proc) → j' < j → get_elem? ps j' ≡ some q → test q ≡ false)
      → First test i ps (some (n, p))

First-cons :
    (test : Proc → Bool) (i : ℕ) (p : Proc) (ps : List Proc) {o : Option (ℕ × Proc)}
    → test p ≡ false
    → First test (suc i) ps o
    → First test i (p ∷ ps) o
First-cons test i p ps e (missing out) = missing λ j q h. go j q h
  where
    go : (j : ℕ) (q : Proc) → get_elem? (p ∷ ps) j ≡ some q → test q ≡ false
    go zero q h = subst (λ x. test x ≡ false) (some-injective _ _ h) e
    go (suc j) q h = out j q h
First-cons test i p ps e (hit j n q at slot pass before) =
    hit (suc j) n q (omega arith) slot pass go
  where
    go : (j' : ℕ) (r : Proc) → j' < suc j → get_elem? (p ∷ ps) j' ≡ some r → test r ≡ false
    go zero r lt h = subst (λ x. test x ≡ false) (some-injective _ _ h) e
    go (suc j') r lt h = before j' r (omega arith) h

pub first_from-First :
    (test : Proc → Bool) (i : ℕ) (ps : List Proc) → First test i ps (first_from test i ps)
unfolding first_from
first_from-First test i [] = missing (λ j q e. absurd (cc e))
first_from-First test i (p ∷ ps) = elim (Bool-cases (test p)) [
  | inl pass ↦ rw pass (hit 0 i p (omega arith) refl pass (λ j' q lt e. absurd (omega arith)))
  | inr fail ↦ rw fail (First-cons test i p ps fail (first_from-First test (suc i) ps))
]
