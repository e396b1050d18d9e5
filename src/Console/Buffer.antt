-- ===== src/Console/Buffer.antt =====
-- The ring `input.buf`: the bytes from a counter on, and the bytes back from a counter.
use mathlib.Core.Path.{subst}
use xv.Common.{
  ℕ, zero, suc, ◌+◌, ◌-◌, ◌%◌, ◌^◌, ◌≤◌, ◌<◌, ◌≡◌, refl, ◌∙◌, arith, List, [], ◌∷◌, ◌++◌, update,
  update_ne, length,
}
use xv.Console.{input_buf, u32, prior}

-- The bytes from counter `r` on are `xs`.
abbrev pub IsAhead : (buf : ℕ → ℕ) (r : ℕ) → List ℕ → Type 0
IsAhead buf r [] = r ≡ r
IsAhead buf r (x ∷ xs) = (buf (r % input_buf) ≡ x) × IsAhead buf (u32 (r + 1)) xs

-- The bytes before counter `e` are `xs`, the latest first.
abbrev pub IsBehind : (buf : ℕ → ℕ) (e : ℕ) → List ℕ → Type 0
IsBehind buf e [] = e ≡ e
IsBehind buf e (x ∷ xs) = (buf (prior e % input_buf) ≡ x) × IsBehind buf (prior e) xs

-- `xs`, the latest first, before `ys`
abbrev pub rev_onto : List ℕ → List ℕ → List ℕ
rev_onto [] ys = ys
rev_onto (x ∷ xs) ys = rev_onto xs (x ∷ ys)

pub IsAhead-append :
    (buf : ℕ → ℕ) (r : ℕ) (xs ys : List ℕ)
    → IsAhead buf r xs
    → IsAhead buf (u32 (r + length xs)) ys
    → r < 2 ^ 32
    → IsAhead buf r (xs ++ ys)
IsAhead-append buf r [] ys h k b = subst (λ a. IsAhead buf a ys) (omega arith) k
IsAhead-append buf r (x ∷ xs) ys h k b = (
  h.0,
  IsAhead-append buf (u32 (r + 1)) xs ys h.1 (subst (λ a. IsAhead buf a ys) (omega arith) k)
      (omega arith),
)

pub IsAhead-rev_onto :
    (buf : ℕ → ℕ) (e : ℕ) (xs ys : List ℕ)
    → IsBehind buf e xs
    → IsAhead buf e ys
    → e < 2 ^ 32
    → length xs ≤ input_buf
    → IsAhead buf (u32 (e + 2 ^ 32 - length xs)) (rev_onto xs ys)
IsAhead-rev_onto buf e [] ys h k b l = subst (λ a. IsAhead buf a ys) (omega arith) k
IsAhead-rev_onto buf e (x ∷ xs) ys h k b l =
    subst (λ a. IsAhead buf a (rev_onto xs (x ∷ ys))) (omega arith)
      (IsAhead-rev_onto buf (prior e) xs (x ∷ ys) h.1
        (h.0, subst (λ a. IsAhead buf a ys) (omega arith) k) (omega arith) (omega arith))

-- A write at a counter that is not among those of a stretch keeps the stretch.
pub IsAhead-update :
    (buf : ℕ → ℕ) (r v k : ℕ) (xs : List ℕ)
    → IsAhead buf r xs
    → length xs ≤ k
    → k < input_buf
    → r < 2 ^ 32
    → IsAhead (update buf (u32 (r + k) % input_buf) v) r xs
IsAhead-update buf r v k [] h l m b = refl
IsAhead-update buf r v zero (x ∷ xs) h l m b = absurd (omega arith)
IsAhead-update buf r v (suc k) (x ∷ xs) h l m b = (
  update_ne buf v (omega arith) ∙ h.0,
  subst (λ a. IsAhead (update buf (a % input_buf) v) (u32 (r + 1)) xs) (omega arith)
      (IsAhead-update buf (u32 (r + 1)) v k xs h.1 (omega arith) (omega arith) (omega arith)),
)

pub IsBehind-update :
    (buf : ℕ → ℕ) (e v k : ℕ) (xs : List ℕ)
    → IsBehind buf e xs
    → k + length xs < input_buf
    → e < 2 ^ 32
    → IsBehind (update buf (u32 (e + k) % input_buf) v) e xs
IsBehind-update buf e v k [] h l b = refl
IsBehind-update buf e v k (x ∷ xs) h l b = (
  update_ne buf v (omega arith) ∙ h.0,
  subst (λ a. IsBehind (update buf (a % input_buf) v) (prior e) xs) (omega arith)
      (IsBehind-update buf (prior e) v (suc k) xs h.1 (omega arith) (omega arith)),
)
