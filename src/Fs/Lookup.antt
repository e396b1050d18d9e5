-- ===== src/Fs/Lookup.antt =====
-- A slot of an inode, or an entry of its indirect block, that has been looked up is found again.
use mathlib.Core.Path.{subst}
use xv.Common.{
  ℕ, ◌+◌, ◌≤◌, ◌<◌, ◌≡◌, ◌≢◌, refl, sym, ◌∙◌, arith, length, get_or, set, get_or-set_self, Outcome,
  ok, panic, ◌>>=◌,
}
use xv.Extents.{ndirect, Inode}
use xv.Fs.Disk.{Superblock, Blocks}
use xv.Fs.Bmap.{slot, entry, bmap_indirect}
use xv.Fs.Grow.{
  IsDisk, IsOwned, Slot, Entry, stuck, there, grown, slot-Slot, slot_there, entry-Entry,
  entry_there,
}

-- The slots of an inode are there, and that of the indirect block is 0 or holds a block in use.
pub record IsFile (sb : Superblock) (ip : Inode) (disk : Blocks) : Type 0 where
  pub slots : ndirect + 2 ≤ length ip.addrs
  pub single : get_or ip.addrs ndirect 0 ≢ 0 → IsOwned sb disk (get_or ip.addrs ndirect 0)

-- Either no block is given, or the one given is not 0, and `find` gives it again and changes nothing.
pub data Again (find : Inode → Blocks → Outcome (ℕ × Inode × Blocks))
    : Outcome (ℕ × Inode × Blocks) → Type 0 where
  none_given : Again find panic
  again :
      (a : ℕ) (ip : Inode) (disk : Blocks)
      → a ≢ 0
      → find ip disk ≡ ok (a, ip, disk)
      → Again find (ok (a, ip, disk))

-- A slot that has been looked up.
data Slotted (sb : Superblock) (k : ℕ) : Outcome (ℕ × Inode × Blocks) → Type 0 where
  none_slot : Slotted sb k panic
  slotted :
      (b : ℕ) (ip : Inode) (disk : Blocks)
      → get_or ip.addrs k 0 ≡ b
      → b ≢ 0
      → IsDisk sb disk
      → IsOwned sb disk b
      → Slotted sb k (ok (b, ip, disk))

module _ (sb : Superblock) (k : ℕ) (ip : Inode) (disk : Blocks) (d : IsDisk sb disk)
    (room : k < length ip.addrs) where
  pub slot-Again : Again (slot sb k) (slot sb k ip disk)
  slot-Again = go (slot-Slot sb k ip disk d)
    where
      go : {r : Outcome (ℕ × Inode × Blocks)} → Slot sb k ip disk r → Again (slot sb k) r
      go stuck = none_given
      go (there a e ne) = again a ip disk ne (slot_there sb k ip disk a e ne)
      go (grown a disk' g same zeros) =
          again a (record ip { addrs = set ip.addrs k a }) disk' g.nonzero
            (slot_there sb k _ disk' a (get_or-set_self ip.addrs k a 0 room) g.nonzero)

  slot-Slotted :
      (get_or ip.addrs k 0 ≢ 0 → IsOwned sb disk (get_or ip.addrs k 0))
      → Slotted sb k (slot sb k ip disk)
  slot-Slotted owned = go (slot-Slot sb k ip disk d)
    where
      go : {r : Outcome (ℕ × Inode × Blocks)} → Slot sb k ip disk r → Slotted sb k r
      go stuck = none_slot
      go (there a e ne) =
          slotted a ip disk e ne d (subst (IsOwned sb disk) e (owned (λ z. ne (sym e ∙ z))))
      go (grown a disk' g same zeros) =
          slotted a (record ip { addrs = set ip.addrs k a }) disk'
            (get_or-set_self ip.addrs k a 0 room) g.nonzero g.good g.owned

pub bmap_indirect-Again :
    (sb : Superblock) (bn : ℕ) (ip : Inode) (disk : Blocks)
    → IsDisk sb disk
    → IsFile sb ip disk
    → Again (bmap_indirect sb bn) (bmap_indirect sb bn ip disk)
unfolding bmap_indirect
bmap_indirect-Again sb bn ip disk d f =
    go (slot-Slotted sb ndirect ip disk d (omega (arith, f.slots)) f.single)
  where
    last :
        (b : ℕ) (ip' : Inode) (disk' : Blocks) {r : Outcome (ℕ × Blocks)}
        → get_or ip'.addrs ndirect 0 ≡ b
        → b ≢ 0
        → Entry sb b bn disk' r
        → Again (bmap_indirect sb bn) (r >>= λ (a, disk''). ok (a, ip', disk''))
    last b ip' disk' at_b ne (stuck z) = none_given
    last b ip' disk' at_b ne (there a e nz) = again a ip' disk' nz (
        rw (slot_there sb ndirect ip' disk' b at_b ne) (rw (entry_there sb b bn disk' a e nz) refl))
    last b ip' disk' at_b ne (grown a disk'' z g e same) = again a ip' disk'' g.nonzero (
        rw (slot_there sb ndirect ip' disk'' b at_b ne)
          (rw (entry_there sb b bn disk'' a e g.nonzero) refl))

    go :
        {r : Outcome (ℕ × Inode × Blocks)}
        → Slotted sb ndirect r
        → Again
            (bmap_indirect sb bn)
            (r >>= λ (b, ip', disk'). entry sb b bn disk' >>= λ (a, disk''). ok (a, ip', disk''))
    go none_slot = none_given
    go (slotted b ip' disk' at_b ne good owned) =
        last b ip' disk' at_b ne (entry-Entry sb b bn disk' good owned)
