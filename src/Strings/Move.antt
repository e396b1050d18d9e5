-- ===== src/Strings/Move.antt =====
-- memmove copies as if through a buffer, also where the two ranges overlap.
use mathlib.Core.Path.{subst, subst₂}
use xv.Common.{
  ℕ, zero, suc, ◌+◌, ◌-◌, ◌≤◌, ◌<◌, ◌≡◌, refl, ap, ◌∙◌, ◌⊎◌, inl, inr, arith, false, Bool-cases,
  ltb, ◌&&◌, update, update_self, update_ne, ℕ_discrete, dec_lt,
}
use xv.Strings.{Memory, copy_down, copy_up, memmove}

-- The memory after the move.
pub record Moved (mem : Memory) (dst src n : ℕ) (mem' : Memory) : Type 0 where
  pub inside : (i : ℕ) → i < n → mem' (dst + i) ≡ mem (src + i)
  pub outside : (a : ℕ) → (a < dst) ⊎ (dst + n ≤ a) → mem' a ≡ mem a

copy_down-Moved :
    (mem : Memory) (dst src n : ℕ) → src ≤ dst → Moved mem dst src n (copy_down mem dst src n)
unfolding copy_down
copy_down-Moved mem dst src zero h = record {
  inside = λ i lt. absurd (omega arith);
  outside = λ a o. refl;
}
copy_down-Moved mem dst src (suc n) h =
    let mem' = update mem (dst + n) (mem (src + n)) in
    let m = copy_down-Moved mem' dst src n h in
    record {
      inside = λ i lt. elim (ℕ_discrete i n) [
        | yes e ↦
            rw e
              (m.outside (dst + n) (inr (omega arith)) ∙ update_self mem (dst + n) (mem (src + n)))
        | no ne ↦
            m.inside i (omega arith) ∙ update_ne mem _ (λ (e : dst + n ≡ src + i). omega arith)
      ];
      outside =
          λ a o. m.outside a (omega arith) ∙ update_ne mem _ (λ (e : dst + n ≡ a). omega arith);
    }

copy_up-Moved :
    (mem : Memory) (dst src n : ℕ)
    → (dst ≤ src) ⊎ (src + n ≤ dst)
    → Moved mem dst src n (copy_up mem dst src n)
unfolding copy_up
copy_up-Moved mem dst src zero h = record {
  inside = λ i lt. absurd (omega arith);
  outside = λ a o. refl;
}
copy_up-Moved mem dst src (suc n) h =
    let mem' = update mem dst (mem src) in
    let m = copy_up-Moved mem' (dst + 1) (src + 1) n (omega arith) in
    record {
      inside = λ i lt. elim (ℕ_discrete i 0) [
        | yes e ↦ rw e (
            subst (λ a. copy_up mem' (dst + 1) (src + 1) n a ≡ mem (src + 0)) (omega arith)
              (m.outside dst (inl (omega arith))
                ∙ update_self mem dst (mem src)
                ∙ ap mem (omega arith)))
        | no ne ↦
            subst₂ (λ a b. copy_up mem' (dst + 1) (src + 1) n a ≡ mem b) (omega arith) (omega arith)
              (m.inside (i - 1) (omega arith)
                ∙ update_ne mem _ (λ (e : dst ≡ src + 1 + (i - 1)). omega arith))
      ];
      outside = λ a o. m.outside a (omega arith) ∙ update_ne mem _ (λ (e : dst ≡ a). omega arith);
    }

-- memmove leaves in the n bytes at dst what stood in the n bytes at src, whether or not the ranges
-- overlap, and changes no other byte.
pub memmove-Moved : (mem : Memory) (dst src n : ℕ) → Moved mem dst src n (memmove mem dst src n)
unfolding memmove
memmove-Moved mem dst src n = elim (Bool-cases (ltb src dst && ltb dst (src + n))) [
  | inl over ↦ rw over (copy_down-Moved mem dst src n (ground arith))
  | inr apart ↦ rw apart (copy_up-Moved mem dst src n (far (dec_lt src dst) apart))
]
  where
    far :
        Dec (src < dst) → (ltb src dst && ltb dst (src + n)) ≡ false → (dst ≤ src) ⊎ (src + n ≤ dst)
    far (yes lt) e = inr (ground arith)
    far (no ge) e = inl (omega arith)
