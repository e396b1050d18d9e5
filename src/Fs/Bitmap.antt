-- ===== src/Fs/Bitmap.antt =====
-- balloc and bfree of fs.c change the bit of one block.
use xv.Common.{
  ℕ, zero, suc, ◌+◌, ◌/◌, ◌%◌, ◌≤◌, ◌<◌, ◌≡◌, ◌≢◌, refl, sym, ap, ap₂, ◌∙◌, arith, ℕ_discrete,
  false, Bool-cases, inl, inr, Option, none, some, ◌⊎◌, ==_iff, ◌==◌, if◌then◌else◌, update,
  update_self, update_ne, Outcome, ok, panic,
}
use mathlib.Core.Path.{subst}
use xv.Fs.Disk.{
  bpb, Superblock, Blocks, set_byte, bzero, bblock, bit, bitmap_byte, used, mark, unmark, free_from,
  balloc, bfree,
}
use xv.Fs.Bits.{set_bit, clear_bit, bit-lt}

set_byte_self : (disk : Blocks) (b i v : ℕ) → set_byte disk b i v b i ≡ v
set_byte_self disk b i v =
    ap (λ d. d i) (update_self disk b (update (disk b) i v)) ∙ update_self (disk b) i v

set_byte_byte : (disk : Blocks) (b v : ℕ) {i j : ℕ} → i ≢ j → set_byte disk b i v b j ≡ disk b j
set_byte_byte disk b v {i} {j} ne =
    ap (λ d. d j) (update_self disk b (update (disk b) i v)) ∙ update_ne (disk b) v ne

set_byte_block : (disk : Blocks) (i v : ℕ) {b c : ℕ} → b ≢ c → set_byte disk b i v c ≡ disk c
set_byte_block disk i v {b} ne = update_ne disk (update (disk b) i v) ne

-- A new value of one byte of the bitmap shows in the bits of that byte only.
used-set_byte :
    (sb : Superblock) (disk : Blocks) (b v x : ℕ) (j : ℕ)
    → ((k : ℕ) → bit v k ≡ (if b % 8 == k then x else bit (bitmap_byte sb disk b) k))
    → used sb (set_byte disk (bblock sb b) (b % bpb / 8) v) j
      ≡ (if b == j then x else used sb disk j)
used-set_byte sb disk b v x j h = elim (ℕ_discrete (bblock sb b) (bblock sb j)) [
  | yes block ↦ elim (ℕ_discrete (b % bpb / 8) (j % bpb / 8)) [
    | yes byte ↦
        let same : bitmap_byte sb disk b ≡ bitmap_byte sb disk j = ap₂ disk block byte in
        let now : set_byte disk (bblock sb b) (b % bpb / 8) v (bblock sb j) (j % bpb / 8) ≡ v =
          ap₂ (set_byte disk (bblock sb b) (b % bpb / 8) v) (sym block) (sym byte)
          ∙ set_byte_self disk (bblock sb b) (b % bpb / 8) v in
        let hj = h (j % 8) in ap (λ n. bit n (j % 8)) now ∙ hj ∙ ground (arith, same)
    | no other ↦
        let kept : set_byte disk (bblock sb b) (b % bpb / 8) v (bblock sb j) (j % bpb / 8)
            ≡ bitmap_byte sb disk j =
          subst
            (λ c.
              set_byte disk (bblock sb b) (b % bpb / 8) v c (j % bpb / 8) ≡ disk c (j % bpb / 8))
            block (set_byte_byte disk (bblock sb b) v other) in
        ap (λ n. bit n (j % 8)) kept ∙ ground arith
  ]
  | no other ↦
      let kept : set_byte disk (bblock sb b) (b % bpb / 8) v (bblock sb j) (j % bpb / 8)
          ≡ bitmap_byte sb disk j =
        ap (λ d. d (j % bpb / 8)) (set_byte_block disk (b % bpb / 8) v other) in
      ap (λ n. bit n (j % 8)) kept ∙ ground arith
]

pub used-mark :
    (sb : Superblock) (disk : Blocks) (b j : ℕ)
    → used sb disk b ≡ 0
    → used sb (mark sb disk b) j ≡ (if b == j then 1 else used sb disk j)
unfolding mark
used-mark sb disk b j free =
    used-set_byte sb disk b _ 1 j (λ k. set_bit (bitmap_byte sb disk b) (b % 8) k free)

pub used-unmark :
    (sb : Superblock) (disk : Blocks) (b j : ℕ)
    → used sb disk b ≡ 1
    → used sb (unmark sb disk b) j ≡ (if b == j then 0 else used sb disk j)
unfolding unmark
used-unmark sb disk b j taken =
    used-set_byte sb disk b _ 0 j (λ k. clear_bit (bitmap_byte sb disk b) (b % 8) k taken)

-- The blocks of the bitmap are in use.
abbrev pub IsReserved : Superblock → Blocks → Type 0
IsReserved sb disk = (j : ℕ) → j < sb.size → used sb disk (bblock sb j) ≡ 1

-- The first clear bit from `b` on, or none.
data Clear (sb : Superblock) (disk : Blocks) (b rounds : ℕ) : Option ℕ → Type 0 where
  none_clear : ((j : ℕ) → b ≤ j → j < b + rounds → used sb disk j ≡ 1) → Clear sb disk b rounds none
  first_clear :
      (c : ℕ)
      → c < b + rounds
      → used sb disk c ≡ 0
      → ((j : ℕ) → b ≤ j → j < c → used sb disk j ≡ 1)
      → Clear sb disk b rounds (some c)

set_of_nonzero :
    (sb : Superblock) (disk : Blocks) (b : ℕ) → (used sb disk b == 0) ≡ false → used sb disk b ≡ 1
set_of_nonzero sb disk b e = ground (arith, bit-lt (bitmap_byte sb disk b) (b % 8))

Clear-step :
    (sb : Superblock) (disk : Blocks) (b rounds : ℕ) {o : Option ℕ}
    → used sb disk b ≡ 1
    → Clear sb disk (b + 1) rounds o
    → Clear sb disk b (suc rounds) o
Clear-step sb disk b rounds taken (none_clear all) = none_clear λ j low high.
    elim (ℕ_discrete b j) [
      | yes same ↦ subst (λ n. used sb disk n ≡ 1) same taken
      | no other ↦ all j (omega arith) (omega arith)
    ]
Clear-step sb disk b rounds taken (first_clear c high free below) =
    first_clear c (omega arith) free λ j low lt. elim (ℕ_discrete b j) [
      | yes same ↦ subst (λ n. used sb disk n ≡ 1) same taken
      | no other ↦ below j (omega arith) lt
    ]

free_from-Clear :
    (sb : Superblock) (disk : Blocks) (rounds b : ℕ)
    → Clear sb disk b rounds (free_from sb disk rounds b)
unfolding free_from
free_from-Clear sb disk zero b = none_clear (λ j low high. absurd (omega arith))
free_from-Clear sb disk (suc rounds) b = elim (Bool-cases (used sb disk b == 0)) [
  | inl free ↦ rw free (
      first_clear b (omega arith) ((==_iff (used sb disk b) 0).0 free)
        (λ j low lt. absurd (omega arith)))
  | inr taken ↦ rw taken (
      Clear-step sb disk b rounds (set_of_nonzero sb disk b taken)
        (free_from-Clear sb disk rounds (b + 1)))
]

-- What balloc does: the first free block, marked and zeroed, or a panic when there is none.
pub data Allocated (sb : Superblock) (disk : Blocks) : Outcome (ℕ × Blocks) → Type 0 where
  full : ((j : ℕ) → j < sb.size → used sb disk j ≡ 1) → Allocated sb disk panic
  fresh :
      (b : ℕ) (disk' : Blocks)
      → b < sb.size
      → used sb disk b ≡ 0
      → ((j : ℕ) → j < b → used sb disk j ≡ 1)
      → ((j : ℕ) → j < sb.size → used sb disk' j ≡ (if b == j then 1 else used sb disk j))
      → ((i : ℕ) → disk' b i ≡ 0)
      → ((c : ℕ) → c ≢ b → c ≢ bblock sb b → disk' c ≡ disk c)
      → Allocated sb disk (ok (b, disk'))

bzero_other : (disk : Blocks) {b c : ℕ} → b ≢ c → bzero disk b c ≡ disk c
unfolding bzero
bzero_other disk {b} {c} ne = update_ne disk (λ i. 0) ne

bzero_self : (disk : Blocks) (b : ℕ) → bzero disk b b ≡ (λ i. 0)
unfolding bzero
bzero_self disk b = update_self disk b (λ i. 0)

mark_other :
    (sb : Superblock) (disk : Blocks) (b c : ℕ) → c ≢ bblock sb b → mark sb disk b c ≡ disk c
unfolding mark
mark_other sb disk b c ne = set_byte_block disk (b % bpb / 8) _ (λ e. ne (sym e))

unmark_other :
    (sb : Superblock) (disk : Blocks) (b c : ℕ) → c ≢ bblock sb b → unmark sb disk b c ≡ disk c
unfolding unmark
unmark_other sb disk b c ne = set_byte_block disk (b % bpb / 8) _ (λ e. ne (sym e))

-- Where the blocks of the bitmap are marked, balloc panics just when every block is in use; else it
-- returns the first block that is not, marks it and no other, fills it with zeros, and changes no
-- block but it and its block of the bitmap.
pub balloc-Allocated :
    (sb : Superblock) (disk : Blocks) → IsReserved sb disk → Allocated sb disk (balloc sb disk)
unfolding balloc
balloc-Allocated sb disk reserved = go (free_from-Clear sb disk sb.size 0)
  where
    go :
        {o : Option ℕ}
        → Clear sb disk 0 sb.size o
        → Allocated sb disk (elim o [ none ↦ panic | some b ↦ ok (b, bzero (mark sb disk b) b) ])
    go (none_clear all) = full (λ j h. all j (omega arith) (omega arith))
    go (first_clear b high free below) =
        fresh b (bzero (mark sb disk b) b) (omega arith) free (λ j lt. below j (omega arith) lt)
          (λ j h.
            let apart : b ≢ bblock sb j = λ e. omega (arith, reserved j h, ap (used sb disk) e) in
            ap (λ d. bit (d (j % bpb / 8)) (j % 8)) (bzero_other (mark sb disk b) apart)
            ∙ used-mark sb disk b j free)
          (λ i. ap (λ d. d i) (bzero_self (mark sb disk b) b))
          (λ c ne ne'. bzero_other (mark sb disk b) (λ e. ne (sym e)) ∙ mark_other sb disk b c ne')

-- bfree of a block in use clears its bit and no other, and changes only its block of the bitmap; of
-- a block that is free it panics.
pub bfree_lem :
    (sb : Superblock) (disk : Blocks) (b : ℕ)
    → ((used sb disk b ≡ 0) × (bfree sb disk b ≡ panic))
      ⊎ ((disk' : Blocks) × (bfree sb disk b ≡ ok disk')
          × ((j : ℕ) → used sb disk' j ≡ (if b == j then 0 else used sb disk j))
          × ((c : ℕ) → c ≢ bblock sb b → disk' c ≡ disk c))
unfolding bfree
bfree_lem sb disk b = elim (Bool-cases (used sb disk b == 0)) [
  | inl free ↦ inl ((==_iff (used sb disk b) 0).0 free, rw free refl)
  | inr taken ↦ inr (
    unmark sb disk b,
    rw taken refl,
    (λ j. used-unmark sb disk b j (set_of_nonzero sb disk b taken)),
    unmark_other sb disk b,
  )
]
