-- ===== src/Extents/Tests.antt =====
-- A file of the blocks 100, 101, 102 and 200.
use xv.Common.{ℕ, ◌≡◌, refl, some, List, [], ◌∷◌}
use xv.Extents.{gen_address, find_extent}
use xv.Extents.Lookup.{found_block}

abbrev addrs : List ℕ
addrs = gen_address 100 3 ∷ gen_address 200 1 ∷ 0 ∷ []

find_extent_3 : found_block (find_extent 3 0 0 addrs) ≡ some 200
unfolding find_extent
find_extent_3 = refl
