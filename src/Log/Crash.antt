-- ===== src/Log/Crash.antt =====
-- Commit and recovery together: the crash safety of log.c.
use xv.Common.{
  ℕ, ◌+◌, ◌<◌, ◌≡◌, refl, sym, ◌∙◌, ◌⊎◌, inl, inr, arith, Bool-cases, ltb, List, [], ◌∷◌,
}
use xv.Log.Disk.{Block, Machine}
use xv.Log.Ops.{Log, commit, initlog}
use xv.Log.Logical.{IsHome, IsLog, IsLog-of_empty, logical, logical_empty}
use xv.Log.Recover.{boot, recover-logical, recover_complete}
use xv.Log.Commit.{
  IsReady, updated, updated_miss, OldOrNew, cleared_old, cleared_new, cleared_complete,
}
use native.Mathlib.Decide.{dec_lt}

-- One boot with power for `power` block writes: what initlog leaves on the disk.
abbrev pub reboot : (start size : ℕ) → Log → (ℕ → Block) → ℕ → ℕ → Block
reboot start size l disk power = (initlog start size l (boot disk power)).1.disk

-- Boots one after the other, each cut short when its power ends.
abbrev pub reboots : (start size : ℕ) → Log → (ℕ → Block) → List ℕ → ℕ → Block
reboots start size l disk [] = disk
reboots start size l disk (power ∷ later) =
    reboots start size l (reboot start size l disk power) later

module _ (start size : ℕ) (l : Log) where
  -- Boots, however many and wherever each is cut short, keep what a disk with a readable log means
  -- outside the log area, and leave a readable log.
  pub reboots-logical :
      (powers : List ℕ) (disk : ℕ → Block)
      → IsLog start size disk
      → ((b : ℕ)
          → IsHome start size b
          → logical start (reboots start size l disk powers) b ≡ logical start disk b)
        × IsLog start size (reboots start size l disk powers)
  unfolding initlog
  reboots-logical [] disk log = (λ b h. refl, log)
  reboots-logical (power ∷ later) disk log =
      let (same, log') = recover-logical (record l { start = start; size = size }) disk power log in
      let (same', log'') = reboots-logical later _ log' in (λ b h. same' b h ∙ same b h, log'')

module _ (l : Log) (m : Machine) (ready : IsReady l m) where
  -- Wherever the power fails in a commit of a state that is ready for it, what the disk means to the
  -- next boot is, outside the log area, the old disk or the whole transaction, and recovery can read
  -- the log.
  pub commit_atomic : OldOrNew l m (commit l m).1.disk × IsLog l.start l.size (commit l m).1.disk
  unfolding commit
  commit_atomic = elim (Bool-cases (ltb 0 l.lh.n)) [
    | inl some_blocks ↦ rw some_blocks (elim (dec_lt l.lh.n m.power) [
      | yes live ↦ cleared_new l m ready live
      | no dead ↦ cleared_old l m ready (omega arith)
    ])
    | inr no_blocks ↦ rw no_blocks (
      inl (λ b h. logical_empty l.start m.disk b ready.empty),
      IsLog-of_empty m.disk (omega (arith, ready.sound.room)) ready.empty,
    )
  ]

  -- A commit of a ready state with power for two writes of each logged block and two of the header
  -- puts every block in its place and empties the log, in memory and on the disk.
  pub commit_complete :
      l.lh.n + l.lh.n + 1 < m.power
      → ((b : ℕ) → IsHome l.start l.size b → (commit l m).1.disk b ≡ updated l m b)
        × ((commit l m).1.disk l.start 0 ≡ 0)
        × ((commit l m).0.lh.n ≡ 0)
  unfolding commit
  commit_complete live = elim (Bool-cases (ltb 0 l.lh.n)) [
    | inl some_blocks ↦
        rw some_blocks (let (same, empty) = cleared_complete l m ready live in (same, empty, refl))
    | inr no_blocks ↦ rw no_blocks (
        let none : l.lh.n ≡ 0 = ground arith in
        (λ b h. sym (updated_miss l m ready b (λ j lt. absurd (omega arith))), ready.empty, none))
  ]

  -- A commit whose power may fail at any block write, then any number of boots that are cut short,
  -- then one boot with power for a write of each logged block and one more: outside the log area the
  -- disk is what it was before the commit, or what the whole transaction makes of it. The state is
  -- ready for commit: an empty log on the disk, and logged blocks that are distinct, outside the log
  -- area and fewer than its blocks.
  pub crash_atomic :
      (l₀ : Log) (powers : List ℕ) (power : ℕ)
      → reboots l.start l.size l₀ (commit l m).1.disk powers l.start 0 < power
      → let final =
          reboot l.start l.size l₀ (reboots l.start l.size l₀ (commit l m).1.disk powers) power in
        ((b : ℕ) → IsHome l.start l.size b → final b ≡ m.disk b)
        ⊎ ((b : ℕ) → IsHome l.start l.size b → final b ≡ updated l m b)
  unfolding initlog
  crash_atomic l₀ powers power live =
      let (meaning, log) = commit_atomic in
      let (same, log') = reboots-logical l.start l.size l₀ powers _ log in
      let (final, _) =
        recover_complete (record l₀ { start = l.start; size = l.size }) _ power log' live in
      elim meaning [
        | inl old ↦ inl (λ b h. final b h ∙ same b h ∙ old b h)
        | inr new ↦ inr (λ b h. final b h ∙ same b h ∙ new b h)
      ]
