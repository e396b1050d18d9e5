-- ===== src/Common/Outcomes.antt =====
-- How a kernel routine ends: with a value, or in `panic`, which never returns.
use mathlib.Core.Path.{◌≡◌}

pub data Outcome {ℓ} (A : Type ℓ) : Type ℓ where
  ok : A → Outcome A
  panic : Outcome A

infixl 5 ◌>>=◌
abbrev pub ◌>>=◌ {ℓ κ} : {A : Type ℓ} {B : Type κ} → Outcome A → (A → Outcome B) → Outcome B
ok a >>= f = f a
panic >>= f = panic

-- How one run of a routine that may sleep ends: it returns, or it sleeps on a channel in the
-- given state, to be resumed after a wakeup.
pub data Turn {ℓ κ} (S : Type ℓ) (A : Type κ) : Type (ℓ ⊔ κ) where
  returns : A → Turn S A
  sleeps : S → Turn S A

pub ok-injective {ℓ} : {A : Type ℓ} (a b : A) → ok a ≡ ok b → a ≡ b
ok-injective a b h = cc

module _ {ℓ κ} {S : Type ℓ} {A : Type κ} where
  pub returns-injective : (a b : A) → ◌≡◌ {A = Turn S A} (returns a) (returns b) → a ≡ b
  returns-injective a b h = cc

  pub sleeps-injective : (a b : S) → ◌≡◌ {A = Turn S A} (sleeps a) (sleeps b) → a ≡ b
  sleeps-injective a b h = cc
