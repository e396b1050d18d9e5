-- ===== src/Dir/Tests.antt =====
-- A directory of two entries in one block.
use xv.Common.{
  ℕ, zero, suc, ◌*◌, ◌<◌, ◌≡◌, refl, arith, inl, [], ◌∷◌, ◌==◌, if◌then◌else◌, get_or, ok,
}
use xv.Strings.{Memory}
use xv.Extents.{Inode}
use xv.Fs.Disk.{Superblock, Blocks}
use xv.Fs.Bmap.{bmap_blocks, slot}
use xv.Dir.{look_from}
use xv.Dir.Lookup.{Looked, look_from_lem}

abbrev layout : Superblock
layout = record { size = 1000; ninodes = 200; inodestart = 32; bmapstart = 58 }

abbrev dir : Inode
dir = record { size = 32; addrs = 60 ∷ 0 ∷ 0 ∷ 0 ∷ 0 ∷ 0 ∷ 0 ∷ 0 ∷ 0 ∷ 0 ∷ 0 ∷ 0 ∷ 0 ∷ [] }

-- inode 1 as "a", and inode 7 as "b"
abbrev entries : Blocks
entries b i =
    if b == 60
    then get_or (1 ∷ 0 ∷ 97 ∷ 0 ∷ 0 ∷ 0 ∷ 0 ∷ 0 ∷ 0 ∷ 0 ∷ 0 ∷ 0 ∷ 0 ∷ 0 ∷ 0 ∷ 0 ∷ 7 ∷ 0 ∷ 98 ∷ []) i
        0
    else 0

abbrev block_of : ℕ → ℕ
block_of bn = get_or dir.addrs bn 0

abbrev named_b : Memory
named_b j = if j == 100 then 98 else 0

there :
    (bn : ℕ) → bn * 512 < 32 → bmap_blocks layout bn dir entries ≡ ok (block_of bn, dir, entries)
unfolding bmap_blocks slot
there zero h = refl
there (suc bn) h = absurd (omega arith)

look_from_lem_example :
    Looked layout dir entries block_of 100 200
      (98 ∷ [])
      0
      (look_from layout 3 100 200 0 dir entries named_b)
look_from_lem_example =
    look_from_lem layout dir entries block_of 100 200 (98 ∷ []) named_b there (inl (ground arith))
      refl (ground arith) refl
