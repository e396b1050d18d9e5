-- ===== src/Icache/Layout.antt =====
-- `struct dinode` of fs.h, as ilock and iupdate of fs.c copy it: the copy of `addrs` has the size of
-- the array of a `struct inode`, one word more than that of a dinode.
use xv.Common.{ℕ, zero, suc, ◌+◌, ◌*◌, ◌/◌, ◌%◌, List, [], ◌∷◌, ◌==◌, if◌then◌else◌}
use xv.Strings.{Memory, store32, load32, memset}
use xv.Extents.{ndirect}
use xv.Fs.Disk.{bsize, Superblock, Blocks}

-- sizeof(struct dinode)
abbrev pub dinode_size : ℕ
dinode_size = 12 + 4 * (ndirect + 1)

-- IPB
abbrev pub ipb : ℕ
ipb = bsize / dinode_size

-- the words of `addrs` in a `struct inode`
abbrev pub naddrs : ℕ
naddrs = ndirect + 2

-- IBLOCK
abbrev pub iblock : Superblock → ℕ → ℕ
iblock sb inum = inum / ipb + sb.inodestart

-- (struct dinode*)bp->data + inum%IPB
abbrev pub dinode_at : ℕ → ℕ
dinode_at inum = dinode_size * (inum % ipb)

pub record Dinode : Type 0 where
  pub type : ℕ
  pub major : ℕ
  pub minor : ℕ
  pub nlink : ℕ
  pub size : ℕ
  pub addrs : List ℕ

abbrev pub load16 : Memory → ℕ → ℕ
load16 d a = d a + 256 * d (a + 1)

abbrev pub store16 : Memory → (dst half : ℕ) → Memory
store16 d dst half i =
    if i == dst then half % 256 else (if i == dst + 1 then half / 256 % 256 else d i)

abbrev pub load_words : Memory → (src n : ℕ) → List ℕ
load_words d src zero = []
load_words d src (suc n) = load32 d src ∷ load_words d (src + 4) n

abbrev pub store_words : Memory → (dst : ℕ) → List ℕ → Memory
store_words d dst [] = d
store_words d dst (w ∷ ws) = store_words (store32 d dst w) (dst + 4) ws

-- the assignments of ilock, from the dinode at `a`
unfoldable pub load_dinode : Memory → (a : ℕ) → Dinode
load_dinode d a = record {
  type = load16 d a;
  major = load16 d (a + 2);
  minor = load16 d (a + 4);
  nlink = load16 d (a + 6);
  size = load32 d (a + 8);
  addrs = load_words d (a + 12) naddrs;
}

-- the assignments of iupdate, to the dinode at `a`, before its memmove
unfoldable pub store_fields : Memory → (a : ℕ) → Dinode → Memory
store_fields d a ip =
    let d1 = store16 d a ip.type in
    let d2 = store16 d1 (a + 2) ip.major in
    let d3 = store16 d2 (a + 4) ip.minor in store32 (store16 d3 (a + 6) ip.nlink) (a + 8) ip.size

unfoldable pub store_dinode : Memory → (a : ℕ) → Dinode → Memory
unfolding store_fields
store_dinode d a ip = store_words (store_fields d a ip) (a + 12) ip.addrs

-- bread of the block of `inum`, the copy into its dinode, and log_write
unfoldable pub write_dinode : Superblock → (inum : ℕ) → Dinode → Blocks → Blocks
write_dinode sb inum ip disk b =
    if b == iblock sb inum then store_dinode (disk b) (dinode_at inum) ip else disk b

abbrev pub type_at : Memory → (inum : ℕ) → ℕ
type_at d inum = load16 d (dinode_at inum)

-- memset(dip, 0, sizeof(*dip)); dip->type = type
unfoldable pub clear_dinode : Memory → (inum type : ℕ) → Memory
clear_dinode d inum type = store16 (memset d (dinode_at inum) 0 dinode_size) (dinode_at inum) type
