-- ===== src/Log/Find.antt =====
-- The search of log_write, and the header block: what a `struct logheader` on the disk says.
use xv.Common.{
  ℕ, zero, suc, ◌+◌, ◌≤◌, ◌<◌, ◌≡◌, ◌≢◌, refl, sym, ◌∙◌, inl, inr, arith, update_self, update_ne,
  ◌==◌, Bool-cases, ==_iff, ℕ_discrete,
}
use xv.Log.Disk.{Block}
use xv.Log.Ops.{LogHeader, find_from, copy_in, copy_out, header_block}

-- The search stops at the first hit, or one past the last index.
pub data Found (block : ℕ → ℕ) (b rounds i k : ℕ) : Type 0 where
  missing :
      k ≡ i + rounds → ((j : ℕ) → i ≤ j → j < i + rounds → block j ≢ b) → Found block b rounds i k
  found : i ≤ k → k < i + rounds → block k ≡ b → Found block b rounds i k

Found-suc :
    {block : ℕ → ℕ} {b rounds i k : ℕ}
    → block i ≢ b
    → Found block b rounds (suc i) k
    → Found block b (suc rounds) i k
Found-suc {block} {b} {rounds} {i} ne (missing e out) = missing (omega arith) λ j g h.
    elim (ℕ_discrete i j) [ yes q ↦ rw (← q) ne | no q ↦ out j (omega arith) (omega arith) ]
Found-suc ne (found g h e) = found (omega arith) (omega arith) e

pub find_from-Found :
    (block : ℕ → ℕ) (b rounds i : ℕ) → Found block b rounds i (find_from block b rounds i)
unfolding find_from
find_from-Found block b zero i = missing (omega arith) (λ j g h. absurd (omega arith))
find_from-Found block b (suc rounds) i = elim (Bool-cases (block i == b)) [
  | inl hit ↦ rw hit (found (omega arith) (omega arith) ((==_iff _ _).0 hit))
  | inr miss ↦
      rw miss
        (Found-suc (λ e. cc ((==_iff (block i) b).1 e)) (find_from-Found block b rounds (suc i)))
]

-- Where the first `n` entries differ, the search finds the index of an entry.
abbrev pub Distinct : (ℕ → ℕ) → ℕ → Type 0
Distinct block n = (j k : ℕ) → j < n → k < n → block j ≡ block k → j ≡ k

pub find_hit :
    (block : ℕ → ℕ) (b n j : ℕ) → Distinct block n → j < n → block j ≡ b → find_from block b n 0 ≡ j
find_hit block b n j distinct h e = go (find_from-Found block b n 0)
  where
    go : {k : ℕ} → Found block b n 0 k → k ≡ j
    go (missing e' out) = absurd (out j (omega arith) (omega arith) e)
    go {k} (found g h' e') = distinct k j (omega arith) h (e' ∙ sym e)

-- The words of the header block that write_head writes.
copy_out_below :
    (block : ℕ → ℕ) (rounds i : ℕ) (w : Block) (j : ℕ) → j ≤ i → copy_out block rounds i w j ≡ w j
unfolding copy_out
copy_out_below block zero i w j h = refl
copy_out_below block (suc rounds) i w j h =
    copy_out_below block rounds (suc i) _ j (omega arith) ∙ update_ne w (block i) (omega arith)

copy_out_entry :
    (block : ℕ → ℕ) (rounds i : ℕ) (w : Block) (j : ℕ)
    → i ≤ j
    → j < i + rounds
    → copy_out block rounds i w (suc j) ≡ block j
unfolding copy_out
copy_out_entry block zero i w j g h = absurd (omega arith)
copy_out_entry block (suc rounds) i w j g h = elim (ℕ_discrete i j) [
  | yes e ↦ rw (← e) (
      copy_out_below block rounds (suc i) _ (suc i) (omega arith) ∙ update_self w (suc i) (block i))
  | no ne ↦ copy_out_entry block rounds (suc i) _ j (omega arith) (omega arith)
]

pub header_block-n : (h : LogHeader) (w : Block) → header_block h w 0 ≡ h.n
unfolding header_block
header_block-n h w = copy_out_below h.block h.n 0 _ 0 (omega arith) ∙ update_self w 0 h.n

pub header_block-entry :
    (h : LogHeader) (w : Block) (j : ℕ) → j < h.n → header_block h w (suc j) ≡ h.block j
unfolding header_block
header_block-entry h w j lt = copy_out_entry h.block h.n 0 _ j (omega arith) (omega arith)

-- The entries that read_head reads.
copy_in_below :
    (w : Block) (rounds i : ℕ) (block : ℕ → ℕ) (j : ℕ)
    → j < i
    → copy_in w rounds i block j ≡ block j
unfolding copy_in
copy_in_below w zero i block j h = refl
copy_in_below w (suc rounds) i block j h =
    copy_in_below w rounds (suc i) _ j (omega arith) ∙ update_ne block (w (suc i)) (omega arith)

pub copy_in_entry :
    (w : Block) (rounds i : ℕ) (block : ℕ → ℕ) (j : ℕ)
    → i ≤ j
    → j < i + rounds
    → copy_in w rounds i block j ≡ w (suc j)
unfolding copy_in
copy_in_entry w zero i block j g h = absurd (omega arith)
copy_in_entry w (suc rounds) i block j g h = elim (ℕ_discrete i j) [
  | yes e ↦
      rw (← e) (copy_in_below w rounds (suc i) _ i (omega arith) ∙ update_self block i (w (suc i)))
  | no ne ↦ copy_in_entry w rounds (suc i) _ j (omega arith) (omega arith)
]
