-- ===== src/Fs/Tests.antt =====
-- The allocator and bmap on a small disk with one block of bitmap.
use xv.Common.{
  map, take, ℕ, zero, suc, ◌+◌, ◌-◌, ◌*◌, ◌/◌, ◌≤◌, ◌<◌, min, ◌≡◌, ◌≢◌, refl, arith, ◌⊎◌, true,
  Option, List, ltb, ◌>>=◌, none, some, ◌==◌, if◌then◌else◌, [], ◌∷◌, get_or, ok,
}
use xv.Extents.{Inode}
use xv.Fs.Disk.{Superblock, Blocks, bblock, bit, balloc}
use xv.Fs.Bitmap.{IsReserved, Allocated, balloc-Allocated}
use xv.Fs.Path.{dirsiz, skip_slashes, element, after_element, skipelem}
use xv.Fs.Elements.{words, join}
use xv.Fs.Namex.{InodeOps, visit, finish, namex_from, start, namex, follow, namex-follow}
use xv.Fs.Rw.{readi, writei, max_file, inode_of}
use xv.Icache.Layout.{Dinode, iblock}
use xv.Icache.Words.{IsDinode}
use xv.Fs.Writes.{IsWithin, Same, written, IsSaved, writei_lem}
use xv.Fs.Reads.{file_byte, with_file, readi_lem}
use xv.Fs.Bmap.{bmap_blocks, slot}
use xv.Fs.Grow.{IsDisk}
use xv.Fs.Lookup.{IsFile, Again}
use xv.Fs.Found.{bmap_blocks-Again}

abbrev small : Superblock
small = record { size = 40; ninodes = 8; inodestart = 2; bmapstart = 3 }

-- blocks 0 to 3 in use, and block 3 their bitmap
abbrev fresh_disk : Blocks
fresh_disk b i = if b == 3 then (if i == 0 then 15 else 0) else 0

one_bitmap : (j : ℕ) → j < 40 → bblock small j ≡ 3
one_bitmap j h = ground arith

small-IsReserved : IsReserved small fresh_disk
unfolding bit
small-IsReserved j h = rw (one_bitmap j h) refl

small-IsDisk : IsDisk small fresh_disk
unfolding bit
small-IsDisk = record {
  small = ground arith;
  inside = λ j h. ground (arith, one_bitmap j h);
  reserved = small-IsReserved;
  boot = refl;
}

-- an inode of an empty file
abbrev empty_file : Inode
empty_file = record { size = 0; addrs = 0 ∷ 0 ∷ 0 ∷ 0 ∷ 0 ∷ 0 ∷ 0 ∷ 0 ∷ 0 ∷ 0 ∷ 0 ∷ 0 ∷ 0 ∷ [] }

empty_file-IsFile : IsFile small empty_file fresh_disk
empty_file-IsFile = record { slots = ground arith; single = λ ne. absurd (ne refl) }

balloc-Allocated_example : Allocated small fresh_disk (balloc small fresh_disk)
balloc-Allocated_example = balloc-Allocated small fresh_disk small-IsReserved

-- Block 100 of the file is indirect: two blocks are allocated.
bmap_blocks-Again_example :
    Again (bmap_blocks small 100) (bmap_blocks small 100 empty_file fresh_disk)
bmap_blocks-Again_example =
    bmap_blocks-Again small 100 empty_file fresh_disk (ground arith) small-IsDisk empty_file-IsFile

-- a file of 600 bytes in the blocks 10 and 11
abbrev two_blocks : Inode
two_blocks = record { size = 600; addrs = 10 ∷ 11 ∷ 0 ∷ 0 ∷ 0 ∷ 0 ∷ 0 ∷ 0 ∷ 0 ∷ 0 ∷ 0 ∷ 0 ∷ 0 ∷ [] }

abbrev texts : Blocks
texts b i = if b == 10 then 65 else if b == 11 then 66 else 0

abbrev block_at : ℕ → ℕ
block_at bn = get_or two_blocks.addrs bn 0

abbrev blank : ℕ → ℕ
blank j = 0

there :
    (bn : ℕ)
    → 510 / 512 ≤ bn
    → bn * 512 < 510 + 5
    → bmap_blocks small bn two_blocks texts ≡ ok (block_at bn, two_blocks, texts)
unfolding bmap_blocks slot
there zero low high = refl
there (suc zero) low high = refl
there (suc (suc bn)) low high = absurd (omega (arith, high))

-- Five bytes from offset 510 on are two of block 10 and three of block 11.
readi_lem_example :
    ((600 < 510)
      × (readi small two_blocks texts blank 1000 510 5 ≡ ok (none, two_blocks, texts, blank)))
    ⊎ ((510 ≤ 600)
        × ((mem' : ℕ → ℕ) × (readi small two_blocks texts blank 1000 510 5
              ≡ ok (some (min 5 (600 - 510)), two_blocks, texts, mem'))
            × ((j : ℕ) → mem' j ≡ with_file texts block_at blank 1000 510 (min 5 (600 - 510)) j)))
readi_lem_example = readi_lem small two_blocks texts block_at blank 1000 510 5 (ground arith) there

-- a file of 512 bytes with room for more in block 11
abbrev growing : Dinode
growing = record { type = 2; major = 0; minor = 0; nlink = 1; size = 512; addrs = two_blocks.addrs }

growing-IsDinode : IsDinode growing
growing-IsDinode = record {
  type = ground arith;
  major = ground arith;
  minor = ground arith;
  nlink = ground arith;
  size = ground arith;
  words = ground arith;
  count = refl;
}

found :
    (disk' : Blocks)
    → Same block_at 510 515 texts disk'
    → (bn : ℕ) → IsWithin block_at 510 515 bn
    → bmap_blocks small bn (inode_of growing) disk' ≡ ok (block_at bn, inode_of growing, disk')
unfolding bmap_blocks slot
found disk' same zero w = refl
found disk' same (suc zero) w = refl
found disk' same (suc (suc bn)) w = absurd (omega (arith, w.1))

not_inodes : (bn : ℕ) → IsWithin block_at 510 515 bn → block_at bn ≢ iblock small 3
not_inodes zero w e = absurd (omega (arith, e))
not_inodes (suc zero) w e = absurd (omega (arith, e))
not_inodes (suc (suc bn)) w e = absurd (omega (arith, w.1))

apart :
    (a b : ℕ)
    → IsWithin block_at 510 515 a
    → IsWithin block_at 510 515 b
    → block_at a ≡ block_at b
    → a ≡ b
apart zero zero wa wb e = refl
apart zero (suc zero) wa wb e = absurd (omega (arith, e))
apart (suc zero) zero wa wb e = absurd (omega (arith, e))
apart (suc zero) (suc zero) wa wb e = refl
apart (suc (suc a)) b wa wb e = absurd (omega (arith, wa.1))
apart a (suc (suc b)) wa wb e = absurd (omega (arith, wb.1))

-- Five bytes from offset 510 on go to two bytes of block 10 and three of block 11.
writei_lem_example :
    ((max_file * 512 < 515)
      × (writei small 3 growing texts blank 1000 510 5 ≡ ok (none, growing, texts)))
    ⊎ ((515 ≤ max_file * 512)
        × ((disk' : Blocks) × (writei small 3 growing texts blank 1000 510 5
              ≡ ok (some 5, record growing { size = 515 }, disk'))
            × IsSaved small 3 growing (record growing { size = 515 }) texts disk'
            × ((b : ℕ)
                → ((bn : ℕ) → IsWithin block_at 510 515 bn → block_at bn ≢ b)
                → b ≢ iblock small 3
                → disk' b ≡ texts b)
            × ((i : ℕ)
                → IsWithin block_at 510 515 (i / 512)
                → file_byte disk' block_at i ≡ written texts block_at blank 1000 510 5 i)))
writei_lem_example =
    writei_lem small 3 growing texts block_at blank 1000 510 5 (ground arith) growing-IsDinode apart
      not_inodes found

-- "/ab//c/"
abbrev path : List ℕ
path = 47 ∷ 97 ∷ 98 ∷ 47 ∷ 47 ∷ 99 ∷ 47 ∷ []

abbrev entry_of : List ℕ → Option ℕ
entry_of [] = none
entry_of (c ∷ name) = if c == 97 then some 2 else if c == 99 then some 3 else none

-- directories 1 and 2, and a file 3; the state counts references
abbrev tree : InodeOps ℕ
tree = record {
  root = λ s. ok (1, s + 1);
  cwd = λ s. ok (2, s + 1);
  ilock = λ ip s. ok s;
  is_dir = λ ip s. ltb ip 3;
  iunlock = λ ip s. ok s;
  iunlockput = λ ip s. ok (s - 1);
  iput = λ ip s. ok (s - 1);
  dirlookup = λ ip name s. ok (entry_of name, s + 1);
}

namex-follow_example :
    namex tree true path [] 0
    ≡ (start tree path 0 >>= λ (ip, s'). follow tree true (map (take dirsiz) (words path)) [] ip s')
namex-follow_example = namex-follow tree true path [] 0

parent_found : namex tree true path [] 0 ≡ ok (some 2, 99 ∷ [], 1)
unfolding namex start namex_from visit finish skipelem skip_slashes element after_element
parent_found = refl

path_names : words (47 ∷ 97 ∷ 98 ∷ 47 ∷ 47 ∷ 99 ∷ []) ≡ (97 ∷ 98 ∷ []) ∷ (99 ∷ []) ∷ []
unfolding words join
path_names = refl
