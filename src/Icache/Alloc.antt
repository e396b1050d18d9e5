-- ===== src/Icache/Alloc.antt =====
-- ialloc takes the first free inode.
use mathlib.Core.Path.{subst}
use xv.Common.{
  ℕ, zero, suc, ◌+◌, ◌*◌, ◌^◌, ◌≤◌, ◌<◌, ◌≡◌, ◌≢◌, ◌⊎◌, inl, inr, refl, sym, ap, ap₂, ◌∙◌, arith,
  true, false, Option, none, some, ◌==◌, ℕ_discrete,
}
use xv.Strings.{Memory, memset}
use xv.Strings.Fill.{memset-Filled}
use xv.Fs.Disk.{Superblock, Blocks}
use xv.Icache.{claim, ialloc_from}
use xv.Icache.Layout.{iblock, dinode_at, dinode_size, type_at, clear_dinode}
use xv.Icache.Words.{load16-store16, store16_apart}

-- the type that an inode has on disk
abbrev pub type_on : Superblock → Blocks → ℕ → ℕ
type_on sb disk inum = type_at (disk (iblock sb inum)) inum

-- The outcomes of a search for a free inode from `inum` on.
pub data Claimed (sb : Superblock) (type rounds inum : ℕ) (disk : Blocks)
    : Option (ℕ × Blocks) → Type 0 where
  -- the first free one, which has the new type on disk now, while all others keep theirs
  claims :
      (found : ℕ) (disk' : Blocks)
      → inum ≤ found
      → found < inum + rounds
      → type_on sb disk found ≡ 0
      → ((i : ℕ) → inum ≤ i → i < found → type_on sb disk i ≢ 0)
      → type_on sb disk' found ≡ type
      → ((i : ℕ) → i ≢ found → type_on sb disk' i ≡ type_on sb disk i)
      → Claimed sb type rounds inum disk (some (found, disk'))
  all_taken :
      ((i : ℕ) → inum ≤ i → i < inum + rounds → type_on sb disk i ≢ 0)
      → Claimed sb type rounds inum disk none

claim_own :
    (sb : Superblock) (inum type : ℕ) (disk : Blocks) (b : ℕ)
    → b ≡ iblock sb inum
    → claim sb inum type disk b ≡ clear_dinode (disk b) inum type
unfolding claim
claim_own sb inum type disk b h = ground (arith, h)

claim_other :
    (sb : Superblock) (inum type : ℕ) (disk : Blocks) (b : ℕ)
    → b ≢ iblock sb inum
    → claim sb inum type disk b ≡ disk b
unfolding claim
claim_other sb inum type disk b h = ground (arith, h)

clear_dinode_type :
    (d : Memory) (inum type : ℕ) → type < 2 ^ 16 → type_at (clear_dinode d inum type) inum ≡ type
unfolding clear_dinode
clear_dinode_type d inum type h =
    load16-store16 (memset d (dinode_at inum) 0 dinode_size) (dinode_at inum) type h

clear_dinode_apart :
    (d : Memory) (inum type i : ℕ)
    → (i < dinode_at inum) ⊎ (dinode_at inum + dinode_size ≤ i)
    → clear_dinode d inum type i ≡ d i
unfolding clear_dinode
clear_dinode_apart d inum type i (inl h) =
    store16_apart (memset d (dinode_at inum) 0 dinode_size) (dinode_at inum) type i (inl h)
    ∙ (memset-Filled d (dinode_at inum) 0 dinode_size).outside i (inl h)
clear_dinode_apart d inum type i (inr h) =
    store16_apart (memset d (dinode_at inum) 0 dinode_size) (dinode_at inum) type i
      (inr (omega arith))
    ∙ (memset-Filled d (dinode_at inum) 0 dinode_size).outside i (inr h)

claim_type :
    (sb : Superblock) (inum type : ℕ) (disk : Blocks)
    → type < 2 ^ 16
    → type_on sb (claim sb inum type disk) inum ≡ type
claim_type sb inum type disk h =
    ap (λ d. type_at d inum) (claim_own sb inum type disk (iblock sb inum) refl)
    ∙ clear_dinode_type (disk (iblock sb inum)) inum type h

dinodes_disjoint :
    (sb : Superblock) (m i : ℕ)
    → iblock sb i ≡ iblock sb m
    → i ≢ m
    → (dinode_at i + 2 ≤ dinode_at m) ⊎ (dinode_at m + dinode_size ≤ dinode_at i)
dinodes_disjoint sb m i e ne = ground arith

claim_others :
    (sb : Superblock) (inum type : ℕ) (disk : Blocks) (i : ℕ)
    → i ≢ inum
    → type_on sb (claim sb inum type disk) i ≡ type_on sb disk i
claim_others sb inum type disk i ne = elim (ℕ_discrete (iblock sb i) (iblock sb inum)) [
  | yes same ↦
      let d = disk (iblock sb i) in
      let kept : type_at (clear_dinode d inum type) i ≡ type_at d i =
        elim (dinodes_disjoint sb inum i same ne) [
          | inl h ↦
              ap₂ (λ x y. x + 256 * y)
                (clear_dinode_apart d inum type (dinode_at i) (inl (omega arith)))
                (clear_dinode_apart d inum type (dinode_at i + 1) (inl (omega arith)))
          | inr h ↦
              ap₂ (λ x y. x + 256 * y)
                (clear_dinode_apart d inum type (dinode_at i) (inr (omega arith)))
                (clear_dinode_apart d inum type (dinode_at i + 1) (inr (omega arith)))
        ] in
      ap (λ d'. type_at d' i) (claim_own sb inum type disk (iblock sb i) same) ∙ kept
  | no differ ↦ ap (λ d. type_at d i) (claim_other sb inum type disk (iblock sb i) differ)
]

Claimed-suc :
    (sb : Superblock) (type k inum : ℕ) (disk : Blocks) (r : Option (ℕ × Blocks))
    → type_on sb disk inum ≢ 0
    → Claimed sb type k (inum + 1) disk r
    → Claimed sb type (suc k) inum disk r
Claimed-suc sb type k inum disk r used (claims found disk' lo hi free before now kept) =
    claims found disk' (omega arith) (omega arith) free
      (λ i ge lt. elim (ℕ_discrete i inum) [
        | yes e ↦ subst (λ n. type_on sb disk n ≢ 0) (sym e) used
        | no ne ↦ before i (omega (arith, ne)) lt
      ])
      now kept
Claimed-suc sb type k inum disk r used (all_taken before) = all_taken (λ i ge lt.
    elim (ℕ_discrete i inum) [
      | yes e ↦ subst (λ n. type_on sb disk n ≢ 0) (sym e) used
      | no ne ↦ before i (omega (arith, ne)) (omega arith)
    ])

-- The loop of ialloc over any run of inodes: it takes the first that is free on disk, gives it the
-- type that was asked for, and changes the type of no other inode; it finds none exactly when all
-- of the run are taken. The type fits a short.
pub ialloc_from-Claimed :
    (sb : Superblock) (type rounds inum : ℕ) (disk : Blocks)
    → type < 2 ^ 16
    → Claimed sb type rounds inum disk (ialloc_from sb type rounds inum disk)
unfolding ialloc_from
ialloc_from-Claimed sb type zero inum disk small = all_taken (λ i lo hi. absurd (omega arith))
ialloc_from-Claimed sb type (suc k) inum disk small =
    let ih = ialloc_from-Claimed sb type k (inum + 1) disk small in
    elim (ℕ_discrete (type_on sb disk inum) 0) [
      | yes free ↦
          let test : (type_on sb disk inum == 0) ≡ true = ground (arith, free) in
          rw test (
            claims inum (claim sb inum type disk) (omega arith) (omega arith) free
              (λ i ge lt. absurd (omega arith)) (claim_type sb inum type disk small)
              (claim_others sb inum type disk))
      | no used ↦
          let test : (type_on sb disk inum == 0) ≡ false = ground (arith, used) in
          rw test (Claimed-suc sb type k inum disk (ialloc_from sb type k (inum + 1) disk) used ih)
    ]
