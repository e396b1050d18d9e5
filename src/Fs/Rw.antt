-- ===== src/Fs/Rw.antt =====
-- readi and writei of fs.c for a file without extents; `dst` and `src` point into a memory of bytes.
use xv.Common.{
  ℕ, zero, suc, ◌+◌, ◌-◌, ◌*◌, ◌/◌, ◌%◌, ◌^◌, min, ◌&&◌, ◌||◌, Option, none, some, ◌==◌, ltb, leb,
  if◌then◌else◌, update, Outcome, ok, ◌>>=◌,
}
use xv.Strings.{Memory}
use xv.Extents.{ndirect, Inode}
use xv.Fs.Disk.{bsize, Superblock, Blocks}
use xv.Fs.Bmap.{nindirect, bmap_blocks}
use xv.Icache.Layout.{Dinode, write_dinode}

-- memmove(dst, data + src, m), from the data of a buffer
abbrev pub move : Memory → (dst : ℕ) → (data' : ℕ → ℕ) → (src m : ℕ) → Memory
move mem dst data' src m j = if leb dst j && ltb j (dst + m) then data' (src + (j - dst)) else mem j

-- The loop of readi with `left` bytes to go, which is n - tot.
unfoldable pub read_from :
    Superblock
    → (rounds left off dst : ℕ) → Inode
    → Blocks
    → Memory
    → Outcome (Inode × Blocks × Memory)
unfolding bmap_blocks
read_from sb zero left off dst ip disk mem = ok (ip, disk, mem)
read_from sb (suc rounds) left off dst ip disk mem =
    let m = min left (bsize - off % bsize) in
    let rest = bmap_blocks sb (off / bsize) ip disk >>= λ (addr, ip', disk').
    read_from sb rounds (left - m) (off + m) (dst + m) ip' disk'
      (move mem dst (disk' addr) (off % bsize) m) in
    if left == 0 then ok (ip, disk, mem) else rest

-- The number of bytes that readi reads at most `n` of, from offset `off` on.
abbrev pub clip : (size off n : ℕ) → ℕ
clip size off n = if ltb size ((off + n) % 2 ^ 32) then size - off else n

-- readi after its test for a device; -1 is none
unfoldable pub readi :
    Superblock
    → Inode
    → Blocks
    → Memory
    → (dst off n : ℕ) → Outcome (Option ℕ × Inode × Blocks × Memory)
unfolding read_from
readi sb ip disk mem dst off n =
    let count = clip ip.size off n in
    let result = read_from sb count count off dst ip disk mem >>= λ (ip', disk', mem').
    ok (some count, ip', disk', mem') in
    if ltb ip.size off || ltb ((off + n) % 2 ^ 32) off then ok (none, ip, disk, mem) else result

-- MAXFILE
abbrev pub max_file : ℕ
max_file = ndirect + nindirect * (nindirect * nindirect)

-- The loop of writei with `left` bytes to go. log_write makes the block part of the transaction.
unfoldable pub write_from :
    Superblock → (rounds left off src : ℕ) → Memory → Inode → Blocks → Outcome (Inode × Blocks)
unfolding bmap_blocks
write_from sb zero left off src mem ip disk = ok (ip, disk)
write_from sb (suc rounds) left off src mem ip disk =
    let m = min left (bsize - off % bsize) in
    let rest = bmap_blocks sb (off / bsize) ip disk >>= λ (addr, ip', disk').
    write_from sb rounds (left - m) ((off + m) % 2 ^ 32) (src + m) mem ip'
      (update disk' addr (move (disk' addr) (off % bsize) mem src m)) in
    if left == 0 then ok (ip, disk) else rest

-- the size and the addresses of an inode
abbrev pub inode_of : Dinode → Inode
inode_of d = record { size = d.size; addrs = d.addrs }

-- ip->size = off; iupdate(ip), where the write has passed the end of the file
unfoldable pub save_size : Superblock → (inum off n : ℕ) → Dinode → Inode → Blocks → Dinode × Blocks
save_size sb inum off n d ip disk =
    let last = (off + n) % 2 ^ 32 in
    let kept : Dinode = record d { size = ip.size; addrs = ip.addrs } in
    let grown : Dinode = record kept { size = last } in
    if ltb 0 n && ltb ip.size last then (grown, write_dinode sb inum grown disk) else (kept, disk)

-- writei of inode `inum`, with the copy `d` of its dinode, after its test for a device; its n < 0 is
-- false, since n is a `uint`.
unfoldable pub writei :
    Superblock
    → (inum : ℕ) → Dinode
    → Blocks
    → Memory
    → (src off n : ℕ) → Outcome (Option ℕ × Dinode × Blocks)
writei sb inum d disk mem src off n =
    let result = write_from sb n n off src mem (inode_of d) disk >>= λ (ip, disk').
    let (d', disk'') = save_size sb inum off n d ip disk' in ok (some n, d', disk'') in
    if ltb (max_file * bsize) ((off + n) % 2 ^ 32) then ok (none, d, disk) else result
