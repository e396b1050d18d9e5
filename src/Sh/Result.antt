-- ===== src/Sh/Result.antt =====
-- How a run of the parser ends, and postconditions on it.
use mathlib.Core.Path.{subst}
use xv.Common.{◌≡◌, ◌≢◌, Bool, true, false, refl, if◌then◌else◌}

-- `panics` is a call of `panic`, which prints the syntax error and exits; `out_of_fuel` has no
-- counterpart in the program.
pub data Result {ℓ} (A : Type ℓ) : Type ℓ where
  done : A → Result A
  panics out_of_fuel : Result A

infixl 5 ◌>>=◌
abbrev pub ◌>>=◌ {ℓ κ} : {A : Type ℓ} {B : Type κ} → Result A → (A → Result B) → Result B
done a >>= f = f a
panics >>= f = panics
out_of_fuel >>= f = out_of_fuel

-- The run ends within its fuel, and `P` holds of its value if it has one.
pub data Ends {ℓ κ} {A : Type ℓ} (P : A → Type κ) : Result A → Type (ℓ ⊔ κ) where
  value : {a : A} → P a → Ends P (done a)
  error : Ends P panics

module _ {ℓ κ} {A : Type ℓ} {P : A → Type κ} where
  pub Ends-done : {r : Result A} {a : A} → Ends P r → r ≡ done a → P a
  Ends-done (value h) e = subst P (cc) h
  Ends-done error e = absurd (cc e)

  pub Ends-out_of_fuel : {r : Result A} → Ends P r → r ≢ out_of_fuel
  Ends-out_of_fuel (value h) e = cc
  Ends-out_of_fuel error e = cc

  pub Ends-if :
      (b : Bool) {x y : Result A}
      → (b ≡ true → Ends P x)
      → (b ≡ false → Ends P y)
      → Ends P (if b then x else y)
  Ends-if true hx hy = hx refl
  Ends-if false hx hy = hy refl

  pub Ends-bind {ℓ' κ'} :
      {B : Type ℓ'} {Q : B → Type κ'} {r : Result A} {f : A → Result B}
      → Ends P r
      → ((a : A) → P a → Ends Q (f a))
      → Ends Q (r >>= f)
  Ends-bind (value {a} h) k = k a h
  Ends-bind error k = error
