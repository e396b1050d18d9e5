-- ===== src/Strings/Compare.antt =====
-- strncmp as equality of C strings, safestrcpy and strlen.
use mathlib.Core.Path.{subst}
use xv.Common.{
  ℕ, zero, suc, ◌+◌, ◌≤◌, ◌<◌, ◌≡◌, ◌≢◌, refl, ap, ◌∙◌, ◌⊎◌, ◌↔◌, inl, inr, arith, Bool-cases, ◌==◌,
  if◌then◌else◌, update, update_ne, ℕ_discrete, some, List, [], ◌∷◌,
}
use xv.Common.Int.{pos, sub_ℕ}
use xv.Strings.{Memory, strncmp, safe_loop, safestrcpy, strlen_from}

-- The string at `p` in a field of `n` bytes: the bytes before the first zero, at most n.
abbrev pub text : Memory → (p n : ℕ) → List ℕ
text mem p zero = []
text mem p (suc n) = let rest = text mem (p + 1) n in if mem p == 0 then [] else mem p ∷ rest

sub-zero : (a b : ℕ) → a ≢ b → sub_ℕ a b ≢ pos 0
sub-zero a b h e = ground arith

cons-injective {ℓ} : {A : Type ℓ} (x y : A) (xs ys : List A) → x ∷ xs ≡ y ∷ ys → (x ≡ y) × (xs ≡ ys)
cons-injective x y xs ys e = (cc, cc)

-- strncmp returns 0 exactly for two fields that hold the same string.
pub strncmp_iff :
    (mem : Memory) (p q n : ℕ) → (strncmp mem p q n ≡ pos 0) ↔ (text mem p n ≡ text mem q n)
unfolding strncmp
strncmp_iff mem p q zero = (λ e. refl, λ e. refl)
strncmp_iff mem p q (suc n) =
    let ih = strncmp_iff mem (p + 1) (q + 1) n in
    elim (ℕ_discrete (mem p) 0) [
      | yes zp ↦ elim (ℕ_discrete (mem q) 0) [
        | yes zq ↦ (λ e. ground arith, λ e. ground arith)
        | no nq ↦ (λ e. ground arith, λ e. ground arith)
      ]
      | no np ↦ elim (ℕ_discrete (mem p) (mem q)) [
        | yes same ↦ (λ e. ground (arith, ih.0), λ e. ground (arith, ih.1))
        | no other ↦ (λ e. ground arith, λ e. ground arith)
      ]
    ]

-- No byte outside the field changes.
safe_loop-end :
    (mem : Memory) (s t n : ℕ) (a : ℕ) → (a < s) ⊎ (s + suc n ≤ a) → safe_loop mem s t n a ≡ mem a
unfolding safe_loop
safe_loop-end mem s t zero a o = update_ne mem 0 (λ (e : s ≡ a). omega arith)
safe_loop-end mem s t (suc n) a o = elim (Bool-cases (mem t == 0)) [
  | inl stop ↦ rw stop (
      update_ne (update mem s (mem t)) 0 (λ (e : s + 1 ≡ a). omega arith)
      ∙ update_ne mem (mem t) (λ (e : s ≡ a). omega arith))
  | inr go ↦ rw go (
      safe_loop-end (update mem s (mem t)) (s + 1) (t + 1) n a (omega arith)
      ∙ update_ne mem (mem t) (λ (e : s ≡ a). omega arith))
]

-- There is a zero among the n bytes.
abbrev pub Terminated : Memory → (s n : ℕ) → Type 0
Terminated mem s n = (i : ℕ) × (i < n) × (mem (s + i) ≡ 0)

safe_loop-Terminated : (mem : Memory) (s t n : ℕ) → Terminated (safe_loop mem s t n) s (suc n)
unfolding safe_loop
safe_loop-Terminated mem s t zero = (0, omega arith, ground arith)
safe_loop-Terminated mem s t (suc n) = elim (Bool-cases (mem t == 0)) [
  | inl stop ↦ rw stop (1, omega arith, ground arith)
  | inr go ↦ rw go (
      let (i, lt, e) = safe_loop-Terminated (update mem s (mem t)) (s + 1) (t + 1) n in
      (
        suc i,
        omega arith,
        subst (λ a. safe_loop (update mem s (mem t)) (s + 1) (t + 1) n a ≡ 0) (omega arith) e,
      ))
]

-- safestrcpy into a field of n > 0 bytes leaves a terminated string and changes nothing outside.
pub safestrcpy-Terminated :
    (mem : Memory) (s t n : ℕ)
    → 0 < n
    → Terminated (safestrcpy mem s t n) s n
      × ((a : ℕ) → (a < s) ⊎ (s + n ≤ a) → safestrcpy mem s t n a ≡ mem a)
unfolding safestrcpy
safestrcpy-Terminated mem s t zero h = absurd (omega arith)
safestrcpy-Terminated mem s t (suc n) h = (safe_loop-Terminated mem s t n, safe_loop-end mem s t n)

-- strlen finds the first zero, given fuel for the bytes up to it.
pub strlen_from_lem :
    (fuel : ℕ) (mem : Memory) (s n k : ℕ)
    → ((i : ℕ) → i < k → mem (s + n + i) ≢ 0)
    → mem (s + n + k) ≡ 0
    → k < fuel
    → strlen_from fuel mem s n ≡ some (n + k)
unfolding strlen_from
strlen_from_lem zero mem s n k before end h = absurd (omega arith)
strlen_from_lem (suc fuel) mem s n zero before end h =
    let e : mem (s + n) ≡ 0 = ap mem (omega arith) ∙ end in rw e (ap some (omega arith))
strlen_from_lem (suc fuel) mem s n (suc k) before end h =
    let ne : mem (s + n) ≢ 0 = λ e. before 0 (omega arith) (ap mem (omega arith) ∙ e) in
    let rest =
      strlen_from_lem fuel mem s (n + 1) k
        (λ i lt e. before (suc i) (omega arith) (ap mem (omega arith) ∙ e))
        (ap mem (omega arith) ∙ end) (omega arith) in
    ground arith
