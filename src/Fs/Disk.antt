-- ===== src/Fs/Disk.antt =====
-- The blocks of the disk as the buffer cache holds them, and the block allocator of fs.c.
use xv.Common.{
  ℕ, zero, suc, ◌+◌, ◌-◌, ◌*◌, ◌/◌, ◌%◌, Option, none, some, ◌==◌, if◌then◌else◌, update, Outcome,
  ok, panic,
}

abbrev pub bsize : ℕ
bsize = 512

-- BPB: bits in a block
abbrev pub bpb : ℕ
bpb = 4096

-- the fields of `struct superblock` that fs.c uses
pub record Superblock : Type 0 where
  pub size : ℕ
  pub ninodes : ℕ
  pub inodestart : ℕ
  pub bmapstart : ℕ

-- the bytes of each block
abbrev pub Blocks : Type 0
Blocks = ℕ → ℕ → ℕ

-- bp = bread(dev, b); bp->data[i] = v; log_write(bp)
abbrev pub set_byte : Blocks → (b i v : ℕ) → Blocks
set_byte disk b i v = update disk b (update (disk b) i v)

-- memset(bp->data, 0, BSIZE)
unfoldable pub bzero : Blocks → ℕ → Blocks
bzero disk b = update disk b (λ i. 0)

-- BBLOCK
abbrev pub bblock : Superblock → ℕ → ℕ
bblock sb b = b / bpb + sb.bmapstart

-- v & (1 << k), as 0 or 1
unfoldable pub bit : (v k : ℕ) → ℕ
bit v zero = v % 2
bit v (suc k) = bit (v / 2) k

-- 1 << k
unfoldable pub mask : ℕ → ℕ
mask zero = 1
mask (suc k) = 2 * mask k

-- the byte of the bitmap with the bit of block `b`, and the bit in that byte
abbrev pub bitmap_byte : Superblock → Blocks → ℕ → ℕ
bitmap_byte sb disk b = disk (bblock sb b) (b % bpb / 8)

abbrev pub used : Superblock → Blocks → ℕ → ℕ
used sb disk b = bit (bitmap_byte sb disk b) (b % 8)

-- data[bi/8] |= m, where the bit is clear
unfoldable pub mark : Superblock → Blocks → ℕ → Blocks
mark sb disk b = set_byte disk (bblock sb b) (b % bpb / 8) (bitmap_byte sb disk b + mask (b % 8))

-- data[bi/8] &= ~m, where the bit is set
unfoldable pub unmark : Superblock → Blocks → ℕ → Blocks
unmark sb disk b = set_byte disk (bblock sb b) (b % bpb / 8) (bitmap_byte sb disk b - mask (b % 8))

-- The two loops of balloc go through the bits in the order of b + bi.
unfoldable pub free_from : Superblock → Blocks → (rounds b : ℕ) → Option ℕ
free_from sb disk zero b = none
free_from sb disk (suc rounds) b =
    let rest = free_from sb disk rounds (b + 1) in if used sb disk b == 0 then some b else rest

unfoldable pub balloc : Superblock → Blocks → Outcome (ℕ × Blocks)
unfolding free_from mark bzero
balloc sb disk = elim (free_from sb disk sb.size 0) [
  | none ↦ panic
  | some b ↦ ok (b, bzero (mark sb disk b) b)
]

unfoldable pub bfree : Superblock → Blocks → ℕ → Outcome Blocks
unfolding unmark
bfree sb disk b = if used sb disk b == 0 then panic else ok (unmark sb disk b)
