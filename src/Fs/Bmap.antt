-- ===== src/Fs/Bmap.antt =====
-- bmap of fs.c for files that are not of type T_EXTENT: direct, indirect and doubly indirect blocks.
use xv.Common.{
  ℕ, zero, suc, ◌+◌, ◌-◌, ◌*◌, ◌/◌, ◌%◌, ◌==◌, ltb, if◌then◌else◌, update, get_or, set, Outcome, ok,
  panic, ◌>>=◌,
}
use xv.Strings.{store32}
use xv.Extents.{ndirect, Inode}
use xv.Fs.Disk.{Superblock, Blocks, balloc, bfree}

-- NINDIRECT
abbrev pub nindirect : ℕ
nindirect = 128

-- ((uint*)bp->data)[i], low byte first
unfoldable pub word : (ℕ → ℕ) → ℕ → ℕ
word d i = d (4 * i) + 256 * d (4 * i + 1) + 65536 * d (4 * i + 2) + 16777216 * d (4 * i + 3)

-- a[i] = v; log_write(bp), for the buffer of block `b`
unfoldable pub set_word : Blocks → (b i v : ℕ) → Blocks
set_word disk b i v = update disk b (store32 (disk b) (4 * i) v)

-- ip->addrs[k], which balloc fills if it is 0
unfoldable pub slot : Superblock → (k : ℕ) → Inode → Blocks → Outcome (ℕ × Inode × Blocks)
unfolding balloc
slot sb k ip disk =
    let addr = get_or ip.addrs k 0 in
    let new =
      balloc sb disk >>= λ (b, disk'). ok (b, record ip { addrs = set ip.addrs k b }, disk') in
    if addr == 0 then new else ok (addr, ip, disk)

-- word `i` of the block `b` of addresses, which balloc fills if it is 0
unfoldable pub entry : Superblock → (b i : ℕ) → Blocks → Outcome (ℕ × Blocks)
unfolding balloc word set_word
entry sb b i disk =
    let addr = word (disk b) i in
    let new = balloc sb disk >>= λ (a, disk'). ok (a, set_word disk' b i a) in
    if addr == 0 then new else ok (addr, disk)

unfoldable pub bmap_indirect : Superblock → (bn : ℕ) → Inode → Blocks → Outcome (ℕ × Inode × Blocks)
unfolding slot entry
bmap_indirect sb bn ip disk = slot sb ndirect ip disk >>= λ (b, ip', disk').
    entry sb b bn disk' >>= λ (a, disk''). ok (a, ip', disk'')

-- The last number is that of the block of addresses whose buffer is not released.
unfoldable pub bmap_double :
    Superblock → (bn : ℕ) → Inode → Blocks → Outcome (ℕ × Inode × Blocks × ℕ)
unfolding slot entry
bmap_double sb bn ip disk = slot sb (ndirect + 1) ip disk >>= λ (b, ip', disk').
    entry sb b (bn / nindirect) disk' >>= λ (c, disk'').
    entry sb c (bn % nindirect) disk'' >>= λ (a, disk'''). ok (a, ip', disk''', c)

-- bmap after its test for T_EXTENT. The locks of buffers are not in its state: on a doubly indirect
-- block it is the call that no earlier one keeps waiting, since none has left `locked` locked.
unfoldable pub bmap_blocks : Superblock → (bn : ℕ) → Inode → Blocks → Outcome (ℕ × Inode × Blocks)
unfolding slot bmap_indirect bmap_double
bmap_blocks sb bn ip disk =
    if ltb bn ndirect
    then slot sb bn ip disk
    else if ltb (bn - ndirect) nindirect
    then bmap_indirect sb (bn - ndirect) ip disk
    else if ltb (bn - ndirect - nindirect) (nindirect * nindirect)
    then (bmap_double sb (bn - ndirect - nindirect) ip disk >>= λ (a, ip', disk', locked).
        ok (a, ip', disk'))
    else panic

-- The loop of itrunc over the direct blocks, from slot `k` on.
unfoldable pub free_direct : Superblock → (rounds k : ℕ) → Inode → Blocks → Outcome (Inode × Blocks)
unfolding bfree
free_direct sb zero k ip disk = ok (ip, disk)
free_direct sb (suc rounds) k ip disk =
    let addr = get_or ip.addrs k 0 in
    let cleared = bfree sb disk addr >>= λ disk'.
    free_direct sb rounds (k + 1) (record ip { addrs = set ip.addrs k 0 }) disk' in
    let kept = free_direct sb rounds (k + 1) ip disk in if addr == 0 then kept else cleared

-- The loop over the words of the indirect block `b`; its buffer is read while the blocks are freed.
unfoldable pub free_words : Superblock → (b : ℕ) → (rounds j : ℕ) → Blocks → Outcome Blocks
unfolding bfree word
free_words sb b zero j disk = ok disk
free_words sb b (suc rounds) j disk =
    let a = word (disk b) j in
    let freed = bfree sb disk a >>= λ disk'. free_words sb b rounds (j + 1) disk' in
    let kept = free_words sb b rounds (j + 1) disk in if a == 0 then kept else freed

-- itrunc up to iupdate. It does not free what `addrs[NDIRECT + 1]` leads to.
unfoldable pub itrunc : Superblock → Inode → Blocks → Outcome (Inode × Blocks)
unfolding free_direct free_words bfree
itrunc sb ip disk = free_direct sb ndirect 0 ip disk >>= λ (ip', disk').
    let b = get_or ip'.addrs ndirect 0 in
    let indirect = free_words sb b nindirect 0 disk' >>= λ disk''. bfree sb disk'' b >>= λ disk'''.
    ok (record ip' { size = 0; addrs = set ip'.addrs ndirect 0 }, disk''') in
    if b == 0 then ok (record ip' { size = 0 }, disk') else indirect
