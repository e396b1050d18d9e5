-- ===== src/Icache.antt =====
-- fs.c: the cache of inodes, the inodes on disk, and how they are allocated and given up. The lock
-- of the inode is held where the source holds it: ilock goes on from acquiresleep's return.
pub mod Layout
pub mod Words
pub mod Update
pub mod Scan
pub mod Table
pub mod Alloc
pub mod Release
mod Tests
use xv.Common.{
  ℕ, zero, suc, ◌+◌, ◌-◌, ◌*◌, ◌/◌, ◌%◌, ◌^◌, Bool, true, false, not, ◌&&◌, ◌||◌, Option, none,
  some, List, [], ◌∷◌, ◌==◌, ltb, if◌then◌else◌, set, get_elem?, Outcome, ok, panic, ◌>>=◌,
}
use xv.Extents.{Inode}
use xv.Fs.Disk.{Superblock, Blocks}
use xv.Fs.Bmap.{itrunc}
use xv.Icache.Layout.{Dinode, load_dinode, write_dinode, iblock, dinode_at, type_at, clear_dinode}

-- `struct inode`; `disk` holds its copy of the dinode. `ref` is the 32-bit pattern of an int.
pub record Entry : Type 0 where
  pub dev : ℕ
  pub inum : ℕ
  pub ref : ℕ
  pub locked : Bool
  pub valid : Bool
  pub copy : Dinode

-- ip->ref > 0
abbrev pub in_use : Entry → Bool
in_use e = ltb 0 e.ref && ltb e.ref (2 ^ 31)

-- How the loop of iget ends: at the entry of the inode, or with the first unused entry.
pub data Probe : Type 0 where
  hit : ℕ → Probe
  missing : Option ℕ → Probe

abbrev pub remember : Option ℕ → ℕ → Entry → Option ℕ
remember (some k) i e = some k
remember none i e = if e.ref == 0 then some i else none

-- The loop of iget from entry `i` on, with `empty`.
unfoldable pub find_entry : (dev inum i : ℕ) → (empty : Option ℕ) → List Entry → Probe
find_entry dev inum i empty [] = missing empty
find_entry dev inum i empty (e ∷ rest) =
    let later = find_entry dev inum (i + 1) (remember empty i e) rest in
    if in_use e && (e.dev == dev) && (e.inum == inum) then hit i else later

-- The change of one entry; a pointer out of the table does not occur.
abbrev pub at_entry : (i : ℕ) → (Entry → Entry) → List Entry → List Entry
at_entry i f es = elim (get_elem? es i) [ none ↦ es | some e ↦ set es i (f e) ]

-- ip->ref++ and ip->ref--
abbrev pub one_more : Entry → Entry
one_more e = record e { ref = (e.ref + 1) % 2 ^ 32 }

abbrev pub one_less : Entry → Entry
one_less e = record e { ref = (e.ref + (2 ^ 32 - 1)) % 2 ^ 32 }

abbrev pub taken_for : (dev inum : ℕ) → Entry → Entry
taken_for dev inum e = record e { dev = dev; inum = inum; ref = 1; valid = false }

unfoldable pub iget : (dev inum : ℕ) → List Entry → Outcome (ℕ × List Entry)
unfolding find_entry
iget dev inum es = elim (find_entry dev inum 0 none es) [
  | hit i ↦ ok (i, at_entry i one_more es)
  | missing none ↦ panic
  | missing (some i) ↦ ok (i, at_entry i (taken_for dev inum) es)
]

unfoldable pub idup : ℕ → List Entry → ℕ × List Entry
idup i es = (i, at_entry i one_more es)

unfoldable pub iupdate : Superblock → Entry → Blocks → Blocks
iupdate sb e disk = write_dinode sb e.inum e.copy disk

-- ilock of the entry that `ip` points to, once acquiresleep has returned; a null `ip` is none
unfoldable pub ilock : Superblock → Option Entry → Blocks → Outcome Entry
ilock sb none disk = panic
ilock sb (some e) disk =
    let found = load_dinode (disk (iblock sb e.inum)) (dinode_at e.inum) in
    if not (in_use e)
    then panic
    else (if e.valid
        then ok (record e { locked = true })
        else (if found.type == 0
            then panic
            else ok (record e { locked = true; valid = true; copy = found })))

-- iunlock; `locked` is what holdingsleep tells its caller
unfoldable pub iunlock : Option Entry → Outcome Entry
iunlock none = panic
iunlock (some e) =
    if not e.locked || not (in_use e) then panic else ok (record e { locked = false })

-- itrunc with its iupdate
unfoldable pub truncate : Superblock → Entry → Blocks → Outcome (Entry × Blocks)
truncate sb e disk =
    itrunc sb (record { size = e.copy.size; addrs = e.copy.addrs }) disk >>= λ (file, disk').
    let e' = record e { copy = record e.copy { size = file.size; addrs = file.addrs } } in
    ok (e', iupdate sb e' disk')

-- iput of the entry that `ip` points to. It takes the lock and gives it back.
unfoldable pub iput : Superblock → Entry → Blocks → Outcome (Entry × Blocks)
iput sb e disk =
    let freed = truncate sb e disk >>= λ (e', disk').
    let e'' = record e' { copy = record e'.copy { type = 0 } } in
    ok (one_less (record e'' { valid = false }), iupdate sb e'' disk') in
    if e.valid && (e.copy.nlink == 0) && (e.ref == 1) then freed else ok (one_less e, disk)

-- iunlockput
unfoldable pub iunlockput : Superblock → Entry → Blocks → Outcome (Entry × Blocks)
iunlockput sb e disk = iunlock (some e) >>= λ e'. iput sb e' disk

-- the block of `inum` with its dinode allocated
unfoldable pub claim : Superblock → (inum type : ℕ) → Blocks → Blocks
claim sb inum type disk b = if b == iblock sb inum then clear_dinode (disk b) inum type else disk b

-- The loop of ialloc from `inum` on: a free inode, marked on disk as allocated.
unfoldable pub ialloc_from :
    Superblock → (type : ℕ) → (rounds inum : ℕ) → Blocks → Option (ℕ × Blocks)
unfolding claim
ialloc_from sb type zero inum disk = none
ialloc_from sb type (suc rounds) inum disk =
    let later = ialloc_from sb type rounds (inum + 1) disk in
    if type_at (disk (iblock sb inum)) inum == 0
    then some (inum, claim sb inum type disk)
    else later

unfoldable pub ialloc :
    Superblock → (dev type : ℕ) → List Entry → Blocks → Outcome (ℕ × (List Entry × Blocks))
unfolding ialloc_from iget
ialloc sb dev type es disk = elim (ialloc_from sb type (sb.ninodes - 1) 1 disk) [
  | none ↦ panic
  | some (inum, disk') ↦ iget dev inum es >>= λ (i, es'). ok (i, (es', disk'))
]
