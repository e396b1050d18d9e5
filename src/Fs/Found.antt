-- ===== src/Fs/Found.antt =====
-- bmap of a direct or indirect block of a file finds the block again.
use xv.Common.{
  ℕ, ◌+◌, ◌-◌, ◌<◌, ◌≡◌, refl, ◌∙◌, arith, inl, inr, true, false, Bool-cases, ltb, ltb→lt, Outcome,
}
use xv.Extents.{ndirect, Inode}
use xv.Fs.Disk.{Superblock, Blocks}
use xv.Fs.Bmap.{nindirect, slot, bmap_indirect, bmap_blocks}
use xv.Fs.Grow.{IsDisk}
use xv.Fs.Lookup.{IsFile, Again, none_given, again, slot-Again, bmap_indirect-Again}

Again-same :
    {find find' : Inode → Blocks → Outcome (ℕ × Inode × Blocks)}
    → ((ip : Inode) (disk : Blocks) → find' ip disk ≡ find ip disk)
    → {r : Outcome (ℕ × Inode × Blocks)} → Again find r
    → Again find' r
Again-same same none_given = none_given
Again-same same (again a ip disk ne e) = again a ip disk ne (same ip disk ∙ e)

module _ (sb : Superblock) (bn : ℕ) where
  -- The block is direct.
  bmap_direct :
      ltb bn ndirect ≡ true
      → (ip : Inode) (disk : Blocks) → bmap_blocks sb bn ip disk ≡ slot sb bn ip disk
  unfolding bmap_blocks
  bmap_direct e ip disk = rw e refl

  module _ (far : ltb bn ndirect ≡ false) where
    bmap_single :
        ltb (bn - ndirect) nindirect ≡ true
        → (ip : Inode) (disk : Blocks)
        → bmap_blocks sb bn ip disk ≡ bmap_indirect sb (bn - ndirect) ip disk
    unfolding bmap_blocks
    bmap_single e ip disk = rw far (rw e refl)

-- On a disk whose bitmap is marked and for an inode whose blocks of addresses are in use, the block
-- that bmap gives for a direct or indirect block `bn` of the file, there before or new, is not block
-- 0, and bmap of the inode and disk it leaves gives the same block and changes nothing.
pub bmap_blocks-Again :
    (sb : Superblock) (bn : ℕ) (ip : Inode) (disk : Blocks)
    → bn < ndirect + nindirect
    → IsDisk sb disk
    → IsFile sb ip disk
    → Again (bmap_blocks sb bn) (bmap_blocks sb bn ip disk)
bmap_blocks-Again sb bn ip disk single d f = elim (Bool-cases (ltb bn ndirect)) [
  | inl direct ↦
      take (bmap_direct sb bn direct)
        (slot-Again sb bn ip disk d (omega (arith, f.slots, ltb→lt bn ndirect direct)))
  | inr far ↦
      take (bmap_single sb bn far (ground (arith, far, single)))
        (bmap_indirect-Again sb (bn - ndirect) ip disk d f)
]
  where
    take :
        {find : Inode → Blocks → Outcome (ℕ × Inode × Blocks)}
        → ((ip' : Inode) (disk' : Blocks) → bmap_blocks sb bn ip' disk' ≡ find ip' disk')
        → Again find (find ip disk)
        → Again (bmap_blocks sb bn) (bmap_blocks sb bn ip disk)
    take same h = rw (same ip disk) (Again-same same h)
