-- ===== src/Fs/Grow.antt =====
-- What bmap's two ways to get a block, from `addrs` or from a block of addresses, do to the disk.

use xv.Common.{
  ℕ, ◌*◌, ◌/◌, ◌%◌, ◌^◌, ◌≤◌, ◌<◌, ◌≡◌, ◌≢◌, refl, sym, ap, ◌∙◌, arith, ◌⊎◌, inl, inr, false,
  Bool-cases, ◌==◌, ==_iff, update_self, update_ne, get_or, set, Outcome, ok, panic, ◌>>=◌,
}
use xv.Strings.{store32}
use xv.Extents.{Inode}
use xv.Fs.Disk.{bpb, Superblock, Blocks, bblock, bit, used, balloc}
use xv.Fs.Bitmap.{IsReserved, Allocated, full, fresh, balloc-Allocated}
use xv.Fs.Bmap.{word, set_word, slot, entry}

word-store32 : (d : ℕ → ℕ) (i v : ℕ) → v < 2 ^ 32 → word (store32 d (4 * i) v) i ≡ v
unfolding word
word-store32 d i v h = ground arith

word-set_word : (disk : Blocks) (b i v : ℕ) → v < 2 ^ 32 → word (set_word disk b i v b) i ≡ v
unfolding set_word
word-set_word disk b i v h =
    ap (λ d. word d i) (update_self disk b (store32 (disk b) (4 * i) v))
    ∙ word-store32 (disk b) i v h

set_word_other : (disk : Blocks) (b i v : ℕ) {c : ℕ} → b ≢ c → set_word disk b i v c ≡ disk c
unfolding set_word
set_word_other disk b i v ne = update_ne disk (store32 (disk b) (4 * i) v) ne

-- The disk is small enough for its block numbers, its bitmap lies on it and is marked, and so is
-- block 0.
pub record IsDisk (sb : Superblock) (disk : Blocks) : Type 0 where
  pub small : sb.size ≤ 2 ^ 32
  pub inside : (j : ℕ) → j < sb.size → bblock sb j < sb.size
  pub reserved : IsReserved sb disk
  pub boot : used sb disk 0 ≡ 1

-- A block in use that holds no part of the bitmap.
pub record IsOwned (sb : Superblock) (disk : Blocks) (b : ℕ) : Type 0 where
  pub in_use : used sb disk b ≡ 1
  pub in_range : b < sb.size
  pub no_bitmap : (j : ℕ) → j < sb.size → b ≢ bblock sb j

-- Block `a` was free and is now owned; what was owned is still owned.
pub record Grown (sb : Superblock) (disk : Blocks) (a : ℕ) (disk' : Blocks) : Type 0 where
  pub was_free : used sb disk a ≡ 0
  pub nonzero : a ≢ 0
  pub good : IsDisk sb disk'
  pub owned : IsOwned sb disk' a
  pub keeps : (c : ℕ) → IsOwned sb disk c → IsOwned sb disk' c

abbrev Balloc : Superblock → Blocks → Outcome (ℕ × Blocks) → Type 0
Balloc sb disk r =
    (r ≡ panic)
    ⊎ ((a : ℕ) × (disk' : Blocks) × (r ≡ ok (a, disk'))
        × Grown sb disk a disk'
        × ((c : ℕ) → IsOwned sb disk c → disk' c ≡ disk c)
        × ((i : ℕ) → disk' a i ≡ 0))

balloc-Grown : (sb : Superblock) (disk : Blocks) → IsDisk sb disk → Balloc sb disk (balloc sb disk)
balloc-Grown sb disk d = go (balloc-Allocated sb disk d.reserved)
  where
    go : {r : Outcome (ℕ × Blocks)} → Allocated sb disk r → Balloc sb disk r
    go (full all) = inl refl
    go (fresh b disk' range free first marks zeros others) =
        let differs : (c : ℕ) → used sb disk c ≡ 1 → b ≢ c =
          λ c taken e. omega (arith, free, taken, ap (used sb disk) e) in
        let still : (c : ℕ) → c < sb.size → used sb disk c ≡ 1 → used sb disk' c ≡ 1 =
          λ c h taken. marks c h ∙ ground (arith, taken) in
        inr (
          b,
          disk',
          refl,
          record {
            was_free = free;
            nonzero = λ e. differs 0 d.boot e;
            good = record {
              small = d.small;
              inside = d.inside;
              reserved = λ j h. still (bblock sb j) (d.inside j h) (d.reserved j h);
              boot = still 0 (omega arith) d.boot;
            };
            owned = record {
              in_use = marks b range ∙ ground arith;
              in_range = range;
              no_bitmap = λ j h. differs (bblock sb j) (d.reserved j h);
            };
            keeps = λ c o. record {
              in_use = still c o.in_range o.in_use;
              in_range = o.in_range;
              no_bitmap = o.no_bitmap;
            };
          },
          λ c o. others c (λ e. differs c o.in_use (sym e)) (o.no_bitmap b range),
          zeros,
        )

-- A change of a block that holds no part of the bitmap leaves what is owned.
used_same :
    (sb : Superblock) (disk disk' : Blocks)
    → ((j : ℕ) → j < sb.size → disk' (bblock sb j) ≡ disk (bblock sb j))
    → (j : ℕ) → j < sb.size
    → used sb disk' j ≡ used sb disk j
used_same sb disk disk' same j h = ap (λ d. bit (d (j % bpb / 8)) (j % 8)) (same j h)

module _ (sb : Superblock) (disk : Blocks) (b i v : ℕ) (o : IsOwned sb disk b) where
  same_bits : (j : ℕ) → j < sb.size → used sb (set_word disk b i v) j ≡ used sb disk j
  same_bits =
      used_same sb disk (set_word disk b i v) (λ j h. set_word_other disk b i v (o.no_bitmap j h))

  set_word-IsOwned : (c : ℕ) → IsOwned sb disk c → IsOwned sb (set_word disk b i v) c
  set_word-IsOwned c oc = record {
    in_use = same_bits c oc.in_range ∙ oc.in_use;
    in_range = oc.in_range;
    no_bitmap = oc.no_bitmap;
  }

  set_word-IsDisk : IsDisk sb disk → IsDisk sb (set_word disk b i v)
  set_word-IsDisk d = record {
    small = d.small;
    inside = d.inside;
    reserved = λ j h. same_bits (bblock sb j) (d.inside j h) ∙ d.reserved j h;
    boot = same_bits 0 (omega (arith, o.in_range)) ∙ d.boot;
  }

-- What `entry` does for the block of addresses `b`: its word `i` is there, or is a new block.
pub data Entry (sb : Superblock) (b i : ℕ) (disk : Blocks) : Outcome (ℕ × Blocks) → Type 0 where
  stuck : word (disk b) i ≡ 0 → Entry sb b i disk panic
  there : (a : ℕ) → word (disk b) i ≡ a → a ≢ 0 → Entry sb b i disk (ok (a, disk))
  grown :
      (a : ℕ) (disk' : Blocks)
      → word (disk b) i ≡ 0
      → Grown sb disk a disk'
      → word (disk' b) i ≡ a
      → ((c : ℕ) → IsOwned sb disk c → c ≢ b → disk' c ≡ disk c)
      → Entry sb b i disk (ok (a, disk'))

pub entry-Entry :
    (sb : Superblock) (b i : ℕ) (disk : Blocks)
    → IsDisk sb disk
    → IsOwned sb disk b
    → Entry sb b i disk (entry sb b i disk)
unfolding entry
entry-Entry sb b i disk d o = elim (Bool-cases (word (disk b) i == 0)) [
  | inl empty ↦ rw empty (go ((==_iff (word (disk b) i) 0).0 empty) (balloc-Grown sb disk d))
  | inr full_word ↦ rw full_word (there (word (disk b) i) refl (ground arith))
]
  where
    go :
        {r : Outcome (ℕ × Blocks)}
        → word (disk b) i ≡ 0
        → Balloc sb disk r
        → Entry sb b i disk (r >>= λ (a, disk'). ok (a, set_word disk' b i a))
    go none_yet (inl e) = rw e (stuck none_yet)
    go none_yet (inr (a, disk', e, g, same, zeros)) = rw e (
        grown a (set_word disk' b i a) none_yet
          (record {
            was_free = g.was_free;
            nonzero = g.nonzero;
            good = set_word-IsDisk sb disk' b i a (g.keeps b o) g.good;
            owned = set_word-IsOwned sb disk' b i a (g.keeps b o) a g.owned;
            keeps = λ c oc. set_word-IsOwned sb disk' b i a (g.keeps b o) c (g.keeps c oc);
          })
          (word-set_word disk' b i a (omega (arith, g.owned.in_range, g.good.small)))
          (λ c oc ne. set_word_other disk' b i a (λ e'. ne (sym e')) ∙ same c oc))

-- An entry that is there is found again.
pub entry_there :
    (sb : Superblock) (b i : ℕ) (disk : Blocks) (a : ℕ)
    → word (disk b) i ≡ a
    → a ≢ 0
    → entry sb b i disk ≡ ok (a, disk)
unfolding entry
entry_there sb b i disk a e ne = let found : (a == 0) ≡ false = ground arith in rw e (rw found refl)

-- What `slot` does: the address is there, or is a new block, full of zeros.
pub data Slot (sb : Superblock) (k : ℕ) (ip : Inode) (disk : Blocks)
    : Outcome (ℕ × Inode × Blocks) → Type 0 where
  stuck : Slot sb k ip disk panic
  there : (a : ℕ) → get_or ip.addrs k 0 ≡ a → a ≢ 0 → Slot sb k ip disk (ok (a, ip, disk))
  grown :
      (a : ℕ) (disk' : Blocks)
      → Grown sb disk a disk'
      → ((c : ℕ) → IsOwned sb disk c → disk' c ≡ disk c)
      → ((i : ℕ) → disk' a i ≡ 0)
      → Slot sb k ip disk (ok (a, record ip { addrs = set ip.addrs k a }, disk'))

pub slot-Slot :
    (sb : Superblock) (k : ℕ) (ip : Inode) (disk : Blocks)
    → IsDisk sb disk
    → Slot sb k ip disk (slot sb k ip disk)
unfolding slot
slot-Slot sb k ip disk d = elim (Bool-cases (get_or ip.addrs k 0 == 0)) [
  | inl empty ↦ rw empty (go (balloc-Grown sb disk d))
  | inr full_word ↦ rw full_word (there (get_or ip.addrs k 0) refl (ground arith))
]
  where
    go :
        {r : Outcome (ℕ × Blocks)}
        → Balloc sb disk r
        → Slot sb k ip disk
            (r >>= λ (b, disk'). ok (b, record ip { addrs = set ip.addrs k b }, disk'))
    go (inl e) = rw e stuck
    go (inr (a, disk', e, g, same, zeros)) = rw e (grown a disk' g same zeros)

pub slot_there :
    (sb : Superblock) (k : ℕ) (ip : Inode) (disk : Blocks) (a : ℕ)
    → get_or ip.addrs k 0 ≡ a
    → a ≢ 0
    → slot sb k ip disk ≡ ok (a, ip, disk)
unfolding slot
slot_there sb k ip disk a e ne = let found : (a == 0) ≡ false = ground arith in rw e (rw found refl)
