-- ===== src/Icache/Update.antt =====
-- iupdate and what ilock, or a search for a free inode, then finds on disk.

use xv.Common.{
  ℕ, ◌+◌, ◌-◌, ◌*◌, ◌%◌, ◌^◌, ◌≤◌, ◌<◌, ◌≡◌, ◌≢◌, ◌⊎◌, inl, inr, ap, ap₂, ◌∙◌, arith, true, false,
  some, length, get_or, ok, ℕ_discrete,
}
use xv.Fs.Disk.{Superblock, Blocks}
use xv.Extents.{ndirect}
use xv.Icache.{Entry, in_use, iupdate, ilock}
use xv.Icache.Layout.{
  write_dinode, iblock, dinode_at, naddrs, ipb, Dinode, load16, type_at, load_dinode, store_dinode,
}
use xv.Icache.Words.{
  IsDinode, load_dinode-store_dinode, store_dinode_apart, load16-store_dinode_overrun,
}

pub own_block :
    (sb : Superblock) (e : Entry) (disk : Blocks) (b : ℕ)
    → b ≡ iblock sb e.inum
    → iupdate sb e disk b ≡ store_dinode (disk b) (dinode_at e.inum) e.copy
unfolding iupdate write_dinode
own_block sb e disk b h = ground (arith, h)

other_block :
    (sb : Superblock) (e : Entry) (disk : Blocks) (b : ℕ)
    → b ≢ iblock sb e.inum
    → iupdate sb e disk b ≡ disk b
unfolding iupdate write_dinode
other_block sb e disk b h = ground (arith, h)

ilock_fresh :
    (sb : Superblock) (e : Entry) (disk : Blocks) (d : Dinode)
    → in_use e ≡ true
    → e.valid ≡ false
    → load_dinode (disk (iblock sb e.inum)) (dinode_at e.inum) ≡ d
    → d.type ≢ 0
    → ilock sb (some e) disk ≡ ok (record e { locked = true; valid = true; copy = d })
unfolding ilock
ilock_fresh sb e disk d used fresh loaded typed = rw (used, fresh, loaded) (ground (arith, typed))

-- What iupdate wrote is what ilock reads into an entry of the same inode: every field, with the
-- last word of `addrs`. The fields fit their C types, the inode is not free, and the entry `e'` is
-- in use and has not been read.
pub ilock-iupdate :
    (sb : Superblock) (e e' : Entry) (disk : Blocks)
    → IsDinode e.copy
    → e'.inum ≡ e.inum
    → in_use e' ≡ true
    → e'.valid ≡ false
    → e.copy.type ≢ 0
    → ilock sb (some e') (iupdate sb e disk)
      ≡ ok (record e' { locked = true; valid = true; copy = e.copy })
ilock-iupdate sb e e' disk h same used fresh typed =
    let own = own_block sb e disk (iblock sb e'.inum) (ap (iblock sb) same) in
    let loaded : load_dinode (iupdate sb e disk (iblock sb e'.inum)) (dinode_at e'.inum) ≡ e.copy =
      ap₂ load_dinode own (ap dinode_at same)
      ∙ load_dinode-store_dinode (disk (iblock sb e'.inum)) (dinode_at e.inum) e.copy h in
    ilock_fresh sb e' (iupdate sb e disk) e.copy used fresh loaded typed

-- Two inodes of a block that do not follow each other are 64 bytes apart or more.
dinodes_apart :
    (sb : Superblock) (m n : ℕ)
    → iblock sb n ≡ iblock sb m
    → n ≢ m
    → (n ≢ m + 1) ⊎ (m % ipb ≡ ipb - 1)
    → (dinode_at n + 2 ≤ dinode_at m) ⊎ (dinode_at m + 64 ≤ dinode_at n)
dinodes_apart sb m n e ne (inl h) = ground arith
dinodes_apart sb m n e ne (inr h) = ground arith

-- iupdate keeps every other inode on disk but the next one of the same block.
pub iupdate_keeps :
    (sb : Superblock) (e : Entry) (disk : Blocks) (other : ℕ)
    → length e.copy.addrs ≡ naddrs
    → other ≢ e.inum
    → (other ≢ e.inum + 1) ⊎ (e.inum % ipb ≡ ipb - 1)
    → type_at (iupdate sb e disk (iblock sb other)) other ≡ type_at (disk (iblock sb other)) other
iupdate_keeps sb e disk other n differ apart =
    elim (ℕ_discrete (iblock sb other) (iblock sb e.inum)) [
      | yes same ↦
          ap (λ d. type_at d other) (own_block sb e disk (iblock sb other) same)
          ∙ elim (dinodes_apart sb e.inum other same differ apart) [
            | inl below ↦
                ap₂ (λ x y. x + 256 * y)
                  (store_dinode_apart (disk (iblock sb other)) (dinode_at e.inum) e.copy
                    (dinode_at other) n (inl (omega arith)))
                  (store_dinode_apart (disk (iblock sb other)) (dinode_at e.inum) e.copy
                    (dinode_at other + 1) n (inl (omega arith)))
            | inr above ↦
                ap₂ (λ x y. x + 256 * y)
                  (store_dinode_apart (disk (iblock sb other)) (dinode_at e.inum) e.copy
                    (dinode_at other) n (inr (omega arith)))
                  (store_dinode_apart (disk (iblock sb other)) (dinode_at e.inum) e.copy
                    (dinode_at other + 1) n (inr (omega arith)))
          ]
      | no differ' ↦ ap (λ d. type_at d other) (other_block sb e disk (iblock sb other) differ')
    ]

-- iupdate of an inode that is not the last of its block sets the type of the next inode on disk, as
-- ilock and ialloc read it, to the lower half of addrs[NDIRECT + 1]: to 0, the type of a free
-- inode, when the file has no doubly indirect block.
pub type_at-iupdate :
    (sb : Superblock) (e : Entry) (disk : Blocks)
    → length e.copy.addrs ≡ naddrs
    → e.inum % ipb < ipb - 1
    → type_at (iupdate sb e disk (iblock sb (e.inum + 1))) (e.inum + 1)
      ≡ get_or e.copy.addrs (ndirect + 1) 0 % 2 ^ 16
type_at-iupdate sb e disk n h =
    let d = disk (iblock sb (e.inum + 1)) in
    ap (λ d'. type_at d' (e.inum + 1)) (own_block sb e disk (iblock sb (e.inum + 1)) (omega arith))
    ∙ ap (load16 (store_dinode d (dinode_at e.inum) e.copy)) (omega arith)
    ∙ load16-store_dinode_overrun d (dinode_at e.inum) e.copy n
