-- ===== src/Extents.antt =====
-- The extent files of fs.c: a word of `addrs` holds the first block of a run in its upper 24 bits and
-- the number of its blocks in the lowest 8.
pub mod Lookup
mod Tests
use xv.Common.{
  ℕ, zero, suc, ◌+◌, ◌-◌, ◌*◌, ◌/◌, ◌%◌, ◌^◌, Bool, true, false, ◌&&◌, List, [], ◌∷◌, ◌==◌, ltb,
  leb, if◌then◌else◌, set, get_or, Outcome, ok, panic,
}

abbrev pub ndirect : ℕ
ndirect = 11

-- GEN_ADDRESS: the lowest 8 bits of the shifted address are 0, so `|` with an unsigned char adds it
abbrev pub gen_address : (address length : ℕ) → ℕ
gen_address address length = address * 256 % 2 ^ 32 + length % 256

abbrev pub ext_length : ℕ → ℕ
ext_length address = address % 256

abbrev pub ext_address : ℕ → ℕ
ext_address address = address / 256

-- How the loop of bmap over the extents ends: it returns a block, or it leaves `i` behind.
pub data Search : Type 0 where
  found : ℕ → Search
  stops : ℕ → Search

-- The loop of bmap, for block `bn` of the file, with the words of `addrs` from `i` on. An array of
-- NDIRECT + 2 words does not end before the break.
unfoldable pub find_extent : (bn i current_length : ℕ) → List ℕ → Search
find_extent bn i current_length [] = stops i
find_extent bn i current_length (a ∷ rest) =
    let later = find_extent bn (i + 1) (current_length + ext_length a) rest in
    if a == 0
    then stops i
    else if leb current_length bn && ltb bn (current_length + ext_length a)
    then found (ext_address a + bn - current_length)
    else if ltb ndirect i
    then stops i
    else later

-- `size` and `addrs` of a `struct inode`; `addrs[-1]` is `size`, the field before it
pub record Inode : Type 0 where
  pub size : ℕ
  pub addrs : List ℕ

-- bmap for an inode of type T_EXTENT, where `new_block` is what balloc returns if it is called
unfoldable pub bmap_extent : (bn new_block : ℕ) → Inode → Outcome (ℕ × Inode)
unfolding find_extent
bmap_extent bn new_block ip = elim (find_extent bn 0 0 ip.addrs) [
  | found addr ↦ ok (addr, ip)
  | stops i ↦
      let last = if i == 0 then ip.size else get_or ip.addrs (i - 1) 0 in
      let longer : Inode =
        if i == 0
        then record ip { size = (last + 1) % 2 ^ 32 }
        else record ip { addrs = set ip.addrs (i - 1) ((last + 1) % 2 ^ 32) } in
      if ltb ndirect i
      then panic
      else if (new_block == ext_address last + ext_length last) && ltb (ext_length last) 255
      then ok (new_block, longer)
      else ok (new_block, record ip { addrs = set ip.addrs i (gen_address new_block 1) })
]
