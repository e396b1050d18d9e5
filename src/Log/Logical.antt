-- ===== src/Log/Logical.antt =====
-- What a disk means to the next boot: the blocks that a committed header names are taken from the
-- log area, all others from their places.
use xv.Common.{ℕ, suc, ◌+◌, ◌≤◌, ◌<◌, ◌≡◌, ◌≢◌, refl, sym, ◌∙◌, ◌⊎◌, arith, ◌==◌, if◌then◌else◌}
use mathlib.Core.Path.{subst}
use xv.Log.Disk.{Block}
use xv.Log.Ops.{LogHeader, find_from}
use xv.Log.Find.{Distinct, Found, missing, found, find_from-Found, find_hit}

-- A block outside the log area.
abbrev pub IsHome : (start size b : ℕ) → Type 0
IsHome start size b = (b < start) ⊎ (start + size ≤ b)

unfoldable pub logical : (start : ℕ) → (ℕ → Block) → ℕ → Block
logical start disk b =
    let n = disk start 0 in
    let i = find_from (λ j. disk start (suc j)) b n 0 in
    if i == n then disk b else disk (start + i + 1)

-- The header block on the disk says what `h` says.
pub record IsCommitted (start : ℕ) (h : LogHeader) (disk : ℕ → Block) : Type 0 where
  pub count : disk start 0 ≡ h.n
  pub entries : (j : ℕ) → j < h.n → disk start (suc j) ≡ h.block j

-- A header whose blocks are distinct, outside the log area, and fit into it.
pub record IsSound (start size : ℕ) (h : LogHeader) : Type 0 where
  pub room : h.n < size
  pub distinct : Distinct h.block h.n
  pub home : (j : ℕ) → j < h.n → IsHome start size (h.block j)

-- The header that a disk holds.
abbrev pub header_of : ℕ → (ℕ → Block) → LogHeader
header_of start disk = record { n = disk start 0; block = λ j. disk start (suc j) }

-- A disk that recovery can read.
abbrev pub IsLog : (start size : ℕ) → (ℕ → Block) → Type 0
IsLog start size disk = IsSound start size (header_of start disk)

pub IsLog-of_empty :
    {start size : ℕ} (disk : ℕ → Block) → 0 < size → disk start 0 ≡ 0 → IsLog start size disk
IsLog-of_empty disk h e = record {
  room = omega arith;
  distinct = λ j k p. absurd (omega arith);
  home = λ j p. absurd (omega arith);
}

pub IsLog-of_committed :
    {start size : ℕ} {h : LogHeader} (disk : ℕ → Block)
    → IsSound start size h
    → IsCommitted start h disk
    → IsLog start size disk
IsLog-of_committed disk s c = record {
  room = omega arith;
  distinct = λ j k p q e.
      s.distinct j k (omega arith) (omega arith)
        (sym (c.entries j (omega arith)) ∙ e ∙ c.entries k (omega arith));
  home = λ j p. rw (c.entries j (omega arith)) (s.home j (omega arith));
}

pub IsLog-of_head :
    {start size : ℕ} (disk disk' : ℕ → Block)
    → disk' start ≡ disk start
    → IsLog start size disk
    → IsLog start size disk'
IsLog-of_head {start} {size} disk disk' e log =
    subst (λ (w : Block). IsSound start size (record { n = w 0; block = λ j. w (suc j) })) (sym e)
      log

module _ (start : ℕ) (disk : ℕ → Block) where
  pub logical_empty : (b : ℕ) → disk start 0 ≡ 0 → logical start disk b ≡ disk b
  unfolding logical find_from
  logical_empty b e = rw e

  pub logical_hit :
      (j : ℕ)
      → Distinct (λ i. disk start (suc i)) (disk start 0)
      → j < disk start 0
      → logical start disk (disk start (suc j)) ≡ disk (start + j + 1)
  unfolding logical
  logical_hit j distinct h =
      rw (find_hit (λ i. disk start (suc i)) (disk start (suc j)) (disk start 0) j distinct h refl)
        (ground arith)

  pub logical_miss :
      (b : ℕ)
      → ((j : ℕ) → j < disk start 0 → disk start (suc j) ≢ b)
      → logical start disk b ≡ disk b
  unfolding logical
  logical_miss b out = go (find_from-Found (λ i. disk start (suc i)) b (disk start 0) 0)
    where
      go :
          {k : ℕ}
          → Found (λ i. disk start (suc i)) b (disk start 0) 0 k
          → (if k == disk start 0 then disk b else disk (start + k + 1)) ≡ disk b
      go (missing e _) = ground arith
      go {k} (found g h e) = absurd (out k (omega arith) e)

-- Two disks mean the same where the header, the log and the blocks it does not name agree.
pub logical_same :
    (start : ℕ) (disk disk' : ℕ → Block) (b : ℕ)
    → disk' start ≡ disk start
    → ((j : ℕ) → j < disk start 0 → disk' (start + j + 1) ≡ disk (start + j + 1))
    → (((j : ℕ) → j < disk start 0 → disk start (suc j) ≢ b) → disk' b ≡ disk b)
    → logical start disk' b ≡ logical start disk b
unfolding logical
logical_same start disk disk' b head slots other =
    rw head (go (find_from-Found (λ i. disk start (suc i)) b (disk start 0) 0))
  where
    go :
        {k : ℕ}
        → Found (λ i. disk start (suc i)) b (disk start 0) 0 k
        → (if k == disk start 0 then disk' b else disk' (start + k + 1))
          ≡ (if k == disk start 0 then disk b else disk (start + k + 1))
    go (missing e out) = ground (arith, other (λ j h. out j (omega arith) (omega arith)))
    go {k} (found g h e) = ground (arith, slots k (omega arith))
