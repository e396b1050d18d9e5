-- ===== src/Extents/Lookup.antt =====
-- The extents of a file stand for the list of its blocks.
use xv.Common.{
  ℕ, zero, suc, ◌+◌, ◌-◌, ◌^◌, ◌≤◌, ◌<◌, ◌≡◌, refl, sym, ap, ◌∙◌, arith, dec_lt, true, false,
  Bool-cases, inl, inr, ◌&&◌, Option, none, some, List, [], ◌∷◌, ◌++◌, ◌==◌, ltb, leb,
  if◌then◌else◌, get_elem?, length,
}
use xv.Extents.{ndirect, gen_address, ext_length, ext_address, Search, found, stops, find_extent}

-- GEN_ADDRESS keeps a block number of 24 bits and a length of 8 bits apart.
pub gen_address_lem :
    (address length : ℕ)
    → address < 2 ^ 24
    → length < 256
    → (ext_address (gen_address address length) ≡ address)
      × (ext_length (gen_address address length) ≡ length)
gen_address_lem address length small short = (omega arith, omega arith)

-- `n` blocks from `start` on
abbrev pub run : (start n : ℕ) → List ℕ
run start zero = []
run start (suc n) = start ∷ run (start + 1) n

-- The blocks of a file, in order: all extents before the first word that is 0.
abbrev pub blocks : List ℕ → List ℕ
blocks [] = []
blocks (a ∷ rest) = if a == 0 then [] else run (ext_address a) (ext_length a) ++ blocks rest

get_run :
    (start n k : ℕ) (rest : List ℕ) → k < n → get_elem? (run start n ++ rest) k ≡ some (start + k)
get_run start zero k rest h = absurd (omega arith)
get_run start (suc n) zero rest h = ap some (omega arith)
get_run start (suc n) (suc k) rest h =
    get_run (start + 1) n k rest (omega arith) ∙ ap some (omega arith)

skip_run :
    (start n k : ℕ) (rest : List ℕ)
    → n ≤ k
    → get_elem? (run start n ++ rest) k ≡ get_elem? rest (k - n)
skip_run start zero k rest h = ap (get_elem? rest) (omega arith)
skip_run start (suc n) zero rest h = absurd (omega arith)
skip_run start (suc n) (suc k) rest h =
    skip_run (start + 1) n k rest (omega arith) ∙ ap (get_elem? rest) (omega arith)

no_blocks : (rest : List ℕ) (k : ℕ) → length rest ≡ 0 → get_elem? (blocks rest) k ≡ none
no_blocks [] k e = refl
no_blocks (a ∷ rest) k e = absurd (omega arith)

-- the result of the search as an optional block
abbrev pub found_block : Search → Option ℕ
found_block (found a) = some a
found_block (stops i) = none

find_from_extent :
    (addrs : List ℕ) (bn i current : ℕ)
    → i + length addrs ≤ ndirect + 2
    → current ≤ bn
    → found_block (find_extent bn i current addrs) ≡ get_elem? (blocks addrs) (bn - current)
unfolding find_extent
find_from_extent [] bn i current size h = refl
find_from_extent (a ∷ rest) bn i current size h = elim (Bool-cases (a == 0)) [
  | inl zero_word ↦ rw zero_word refl
  | inr used ↦ elim (dec_lt bn (current + ext_length a)) [
    | yes here ↦
        let hit : (leb current bn && ltb bn (current + ext_length a)) ≡ true = ground arith in
        rw (used, hit)
          (ap some (omega arith)
            ∙ sym
                (get_run (ext_address a) (ext_length a) (bn - current) (blocks rest) (omega arith)))
    | no past ↦
        let miss : (leb current bn && ltb bn (current + ext_length a)) ≡ false = ground arith in
        let skip =
          skip_run (ext_address a) (ext_length a) (bn - current) (blocks rest) (omega arith) in
        rw (used, miss)
          (elim (Bool-cases (ltb ndirect i)) [
            | inl last ↦
                let full : ndirect < i = ground arith in
                rw last (sym (skip ∙ no_blocks rest _ (omega arith)))
            | inr more ↦ rw more (
                find_from_extent rest bn (i + 1) (current + ext_length a) (omega arith)
                  (omega arith)
                ∙ ap (get_elem? (blocks rest)) (omega arith)
                ∙ sym skip)
          ])
  ]
]

-- For an array of at most NDIRECT + 2 words, the loop of bmap finds block `bn` of an extent file just
-- where the list of its blocks has it, and finds none past the end of the list.
pub find_extent_lem :
    (addrs : List ℕ) (bn : ℕ)
    → length addrs ≤ ndirect + 2
    → found_block (find_extent bn 0 0 addrs) ≡ get_elem? (blocks addrs) bn
find_extent_lem addrs bn size =
    find_from_extent addrs bn 0 0 (omega arith) (omega arith)
    ∙ ap (get_elem? (blocks addrs)) (omega arith)
