-- ===== src/Strings/Fill.antt =====
-- memset's two paths, by words and by bytes, write the same bytes.
use mathlib.Core.Path.{subst}
use xv.Common.{
  ℕ, zero, suc, ◌+◌, ◌*◌, ◌/◌, ◌%◌, ◌≤◌, ◌<◌, ◌≡◌, refl, sym, ap, ◌∙◌, ◌⊎◌, inl, inr, arith,
  Bool-cases, ◌==◌, ◌&&◌, update, update_self, update_ne, ℕ_discrete, dec_lt,
}
use xv.Strings.{Memory, stosb, store32, stosl, memset}

-- The n bytes from dst on are `byte`, all others are as before.
pub record Filled (mem : Memory) (dst byte n : ℕ) (mem' : Memory) : Type 0 where
  pub inside : (a : ℕ) → dst ≤ a → a < dst + n → mem' a ≡ byte
  pub outside : (a : ℕ) → (a < dst) ⊎ (dst + n ≤ a) → mem' a ≡ mem a

stosb-Filled : (mem : Memory) (dst byte n : ℕ) → Filled mem dst byte n (stosb mem dst byte n)
unfolding stosb
stosb-Filled mem dst byte zero = record {
  inside = λ a g h. absurd (omega arith);
  outside = λ a o. refl;
}
stosb-Filled mem dst byte (suc n) =
    let f = stosb-Filled (update mem dst byte) (dst + 1) byte n in
    record {
      inside = λ a g h. elim (ℕ_discrete dst a) [
        | yes e ↦
            f.outside a (inl (omega arith))
            ∙ ap (update mem dst byte) (sym e)
            ∙ update_self mem dst byte
        | no ne ↦ f.inside a (omega arith) (omega arith)
      ];
      outside = λ a o. f.outside a (omega arith) ∙ update_ne mem _ (λ (e : dst ≡ a). omega arith);
    }

abbrev word_of : ℕ → ℕ
word_of b = b * 16777216 + b * 65536 + b * 256 + b

store32-Filled :
    (mem : Memory) (dst b : ℕ) → b < 256 → Filled mem dst b 4 (store32 mem dst (word_of b))
store32-Filled mem dst b h = record {
  inside = λ a g l. ground arith;
  outside = λ a o. ground arith;
}

stosl-Filled :
    (mem : Memory) (dst b n : ℕ) → b < 256 → Filled mem dst b (n * 4) (stosl mem dst (word_of b) n)
unfolding stosl
stosl-Filled mem dst b zero h = record {
  inside = λ a g l. absurd (omega arith);
  outside = λ a o. refl;
}
stosl-Filled mem dst b (suc n) h =
    let mem' = store32 mem dst (word_of b) in
    let s = store32-Filled mem dst b h in
    let f = stosl-Filled mem' (dst + 4) b n h in
    record {
      inside = λ a g l. elim (dec_lt a (dst + 4)) [
        | yes low ↦ f.outside a (inl low) ∙ s.inside a g low
        | no high ↦ f.inside a (omega arith) (omega arith)
      ];
      outside = λ a o. f.outside a (omega arith) ∙ s.outside a (omega arith);
    }

-- memset writes the low byte of c to the n bytes at dst, on either path, and to no other byte.
pub memset-Filled : (mem : Memory) (dst c n : ℕ) → Filled mem dst (c % 256) n (memset mem dst c n)
unfolding memset
memset-Filled mem dst c n = elim (Bool-cases ((dst % 4 == 0) && (n % 4 == 0))) [
  | inl words ↦
      let whole : n / 4 * 4 ≡ n = ground arith in
      rw words (
        subst (λ k. Filled mem dst (c % 256) k (stosl mem dst (word_of (c % 256)) (n / 4))) whole
          (stosl-Filled mem dst (c % 256) (n / 4) (omega arith)))
  | inr bytes ↦ rw bytes (stosb-Filled mem dst (c % 256) n)
]
