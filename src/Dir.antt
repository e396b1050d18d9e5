-- ===== src/Dir.antt =====
-- Directories in fs.c: namecmp, dirlookup and dirlink. `name` and `de` are addresses in a memory of
-- bytes, `de` that of the local variable.
pub mod Lookup
mod Tests
use xv.Common.{
  ℕ, zero, suc, ◌+◌, ◌-◌, ◌/◌, ◌%◌, ◌^◌, Bool, true, false, not, Option, none, some, List, ◌==◌,
  ltb, if◌then◌else◌, Outcome, ok, panic, ◌>>=◌,
}
use xv.Common.Int.{ℤ, pos, negsuc}
use xv.Strings.{Memory, strncmp, strncpy}
use xv.Extents.{Inode}
use xv.Fs.Disk.{Superblock, Blocks}
use xv.Fs.Rw.{readi, writei, inode_of}
use xv.Fs.Path.{dirsiz}
use xv.Icache.{Entry, iget, iput}
use xv.Icache.Layout.{Dinode, load16, store16}

-- sizeof(struct dirent)
abbrev pub dirent_size : ℕ
dirent_size = 2 + dirsiz

-- T_DIR
abbrev pub t_dir : ℕ
t_dir = 1

-- The result of readi or writei is sizeof(de).
abbrev pub is_whole : Option ℕ → Bool
is_whole none = false
is_whole (some n) = n == dirent_size

abbrev pub is_nought : ℤ → Bool
is_nought (pos n) = n == 0
is_nought (negsuc n) = false

unfoldable pub namecmp : Memory → (s t : ℕ) → ℤ
namecmp mem s t = strncmp mem s t dirsiz

-- The loop of dirlookup from `off` on: the offset and the inode number of the entry of that name.
unfoldable pub look_from :
    Superblock
    → (rounds name de off : ℕ) → Inode
    → Blocks
    → Memory
    → Outcome (Option (ℕ × ℕ) × Inode × Blocks × Memory)
look_from sb zero name de off ip disk mem = ok (none, ip, disk, mem)
look_from sb (suc rounds) name de off ip disk mem =
    let step = readi sb ip disk mem de off dirent_size >>= λ (r, ip', disk', mem').
    let rest = look_from sb rounds name de ((off + dirent_size) % 2 ^ 32) ip' disk' mem' in
    if not (is_whole r)
    then panic
    else (if load16 mem' de == 0
        then rest
        else (if is_nought (namecmp mem' name (de + 2))
            then ok (some (off, load16 mem' de), ip', disk', mem')
            else rest)) in
    if ltb off ip.size then step else ok (none, ip, disk, mem)

-- the file of the inode of an entry, and the entry with a file that bmap may have changed
abbrev pub file_of : Entry → Inode
file_of dp = record { size = dp.copy.size; addrs = dp.copy.addrs }

abbrev pub with_inode : Entry → Inode → Entry
with_inode dp ip = record dp { copy = record dp.copy { size = ip.size; addrs = ip.addrs } }

-- dirlookup: the entry of the inode in the table and the offset, if the name is there
unfoldable pub dirlookup :
    Superblock
    → (name de : ℕ) → (dp : Entry) → List Entry
    → Blocks
    → Memory
    → Outcome (Option (ℕ × ℕ) × Entry × List Entry × Blocks × Memory)
dirlookup sb name de dp es disk mem =
    let found =
      look_from sb (dp.copy.size / dirent_size + 1) name de 0 (file_of dp) disk mem
      >>= λ (r, ip, disk', mem'). elim r [
        | none ↦ ok (none, with_inode dp ip, es, disk', mem')
        | some (off, inum) ↦ iget dp.dev inum es >>= λ (i, es').
            ok (some (i, off), with_inode dp ip, es', disk', mem')
      ] in
    if dp.copy.type == t_dir then found else panic

-- The loop of dirlink from `off` on: the offset of the first empty entry, or of the end.
unfoldable pub empty_from :
    Superblock
    → (rounds de off : ℕ) → Inode
    → Blocks
    → Memory
    → Outcome (ℕ × Inode × Blocks × Memory)
empty_from sb zero de off ip disk mem = ok (off, ip, disk, mem)
empty_from sb (suc rounds) de off ip disk mem =
    let step = readi sb ip disk mem de off dirent_size >>= λ (r, ip', disk', mem').
    let rest = empty_from sb rounds de (off + dirent_size) ip' disk' mem' in
    if not (is_whole r)
    then panic
    else (if load16 mem' de == 0 then ok (off, ip', disk', mem') else rest) in
    if ltb off ip.size then step else ok (off, ip, disk, mem)

-- dirlink of inode `dnum`, with the copy `d` of its dinode, after its test that the name is not there
unfoldable pub link_entry :
    Superblock
    → (name de inum dnum : ℕ) → Dinode
    → Blocks
    → Memory
    → Outcome (Dinode × Blocks × Memory)
link_entry sb name de inum dnum d disk mem =
    empty_from sb (d.size / dirent_size + 1) de 0 (inode_of d) disk mem
    >>= λ (off, ip, disk', mem').
        let mem'' = store16 (strncpy mem' (de + 2) name dirsiz) de inum in
        writei sb dnum (record d { size = ip.size; addrs = ip.addrs }) disk' mem'' de off
          dirent_size
        >>= λ (r, d', disk''). if is_whole r then ok (d', disk'', mem'') else panic
