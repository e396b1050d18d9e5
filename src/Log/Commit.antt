-- ===== src/Log/Commit.antt =====
-- A commit is atomic: wherever the power fails in it, the disk means either what it held before or
-- what the transaction wrote, for all blocks at once.
use mathlib.Core.Path.{subst}
use xv.Common.{
  ℕ, ◌+◌, ◌-◌, ◌≤◌, ◌<◌, ◌≡◌, ◌≢◌, refl, sym, ap, ◌∙◌, fun_ext, ◌⊎◌, inl, inr, arith, ◌==◌,
  if◌then◌else◌, ℕ_discrete,
}
use xv.Log.Disk.{Block, Machine, bread}
use xv.Log.Ops.{Log, find_from, install_trans, write_head, write_log, clear, header_block}
use xv.Log.Copy.{
  write_from-copy, Apart, power-copy, disk-copy_ne, bread-copy, disk-copy, disk-bwrite_live,
  power-bwrite, bread-bwrite_ne,
}
use xv.Log.Find.{
  Found, missing, found, find_from-Found, header_block-n, header_block-entry, find_hit,
}
use xv.Log.Install.{
  home_ne_slot, install_slot, install_head, install_other, install_done, power-install,
  install_dead, head_other, head_dead, head_count,
}
use xv.Log.Logical.{
  IsHome, IsSound, IsCommitted, IsLog, IsLog-of_empty, IsLog-of_committed, logical, logical_empty,
  logical_hit, logical_miss,
}

-- What the transaction makes of the disk: the logged blocks hold their cached content.
unfoldable pub updated : Log → Machine → ℕ → Block
updated l m b = if find_from l.lh.block b l.lh.n 0 == l.lh.n then m.disk b else bread m b

-- The disk means what it meant before, or all that the transaction wrote.
abbrev pub OldOrNew : Log → Machine → (ℕ → Block) → Type 0
OldOrNew l m disk =
    ((b : ℕ) → IsHome l.start l.size b → logical l.start disk b ≡ m.disk b)
    ⊎ ((b : ℕ) → IsHome l.start l.size b → logical l.start disk b ≡ updated l m b)

-- The state in which commit is called: the header on the disk is empty.
pub record IsReady (l : Log) (m : Machine) : Type 0 where
  pub sound : IsSound l.start l.size l.lh
  pub empty : m.disk l.start 0 ≡ 0

module _ (l : Log) (m : Machine) (ready : IsReady l m) where
  abbrev pub sound' : IsSound l.start l.size l.lh
  sound' = ready.sound

  abbrev pub written : Machine
  written = write_log l m

  abbrev pub headed : Machine
  headed = write_head l written

  abbrev pub installed : Machine
  installed = install_trans l headed

  abbrev pub cleared : Machine
  cleared = write_head (clear l) installed

  written-Apart : Apart l.lh.block (λ t. l.start + t + 1) l.lh.n
  written-Apart = record {
    apart = λ j k p q e.
        home_ne_slot (k + 1) (sound'.home j p) (omega (arith, sound'.room)) (omega (arith, e));
    distinct = λ j k p q e. omega arith;
  }

  power-written : written.power ≡ m.power - l.lh.n
  unfolding write_log
  power-written = rw (write_from-copy l l.lh.n 0 m) (power-copy _ _ l.lh.n 0 m)

  written_other : (b : ℕ) → ((j : ℕ) → j < l.lh.n → l.start + j + 1 ≢ b) → written.disk b ≡ m.disk b
  unfolding write_log
  written_other b out =
      rw (write_from-copy l l.lh.n 0 m)
        (disk-copy_ne l.lh.block (λ t. l.start + t + 1) l.lh.n 0 m b (λ j g h. out j (omega arith)))

  written_home : (b : ℕ) → IsHome l.start l.size b → written.disk b ≡ m.disk b
  written_home b home =
      written_other b
        (λ j h e. home_ne_slot (j + 1) home (omega (arith, sound'.room)) (omega (arith, sym e)))

  written_head : written.disk l.start ≡ m.disk l.start
  written_head = written_other l.start (λ j h e. absurd (omega arith))

  written_slot :
      (j : ℕ)
      → j < l.lh.n
      → l.lh.n ≤ m.power
      → written.disk (l.start + j + 1) ≡ bread m (l.lh.block j)
  unfolding write_log
  written_slot j h live =
      rw (write_from-copy l l.lh.n 0 m)
        (disk-copy written-Apart l.lh.n 0 m j (omega arith) (omega arith) (omega arith) live)

  written_view : (j : ℕ) → j < l.lh.n → bread written (l.start + j + 1) ≡ bread m (l.lh.block j)
  unfolding write_log
  written_view j h =
      rw (write_from-copy l l.lh.n 0 m)
        (bread-copy written-Apart l.lh.n 0 m j (omega arith) (omega arith) (omega arith))

  -- Power lost before the header is written: nothing has happened.
  dead_disk : m.power ≤ l.lh.n → cleared.disk ≡ written.disk
  unfolding write_head
  dead_disk dead = fun_ext λ c.
      let p1 : written.power ≡ 0 = omega (arith, power-written) in
      let p2 : headed.power ≡ 0 =
        omega (arith, power-bwrite written l.start (header_block l.lh (bread written l.start))) in
      let p3 : installed.power ≡ 0 = omega (arith, power-install l sound' headed) in
      head_dead (clear l) installed p3 c ∙ install_dead l headed p2 c ∙ head_dead l written p1 c

  headed-IsCommitted : l.lh.n < m.power → IsCommitted l.start l.lh headed.disk
  unfolding write_head
  headed-IsCommitted live =
      let on : headed.disk l.start ≡ header_block l.lh (bread written l.start) =
        disk-bwrite_live written l.start _ (omega (arith, power-written)) in
      record {
        count = rw on (header_block-n l.lh _);
        entries = λ j h. rw on (header_block-entry l.lh _ j h);
      }

  installed-IsCommitted : l.lh.n < m.power → IsCommitted l.start l.lh installed.disk
  installed-IsCommitted live =
      let c = headed-IsCommitted live in
      record {
        count = rw (install_head l sound' headed) c.count;
        entries = λ j h. rw (install_head l sound' headed) (c.entries j h);
      }

  -- The log blocks hold the transaction from the write of the header on.
  installed_slot :
      (j : ℕ)
      → j < l.lh.n
      → l.lh.n < m.power
      → installed.disk (l.start + j + 1) ≡ bread m (l.lh.block j)
  installed_slot j h live =
      subst (λ k. installed.disk k ≡ headed.disk k) (omega arith)
        (install_slot l sound' headed (j + 1) (omega (arith, sound'.room)))
      ∙ head_other l written (λ e. absurd (omega arith))
      ∙ written_slot j h (omega arith)

  home_ne_head : (b : ℕ) → IsHome l.start l.size b → l.start ≢ b
  home_ne_head b home e = home_ne_slot 0 home (omega (arith, sound'.room)) (omega (arith, sym e))

  pub updated_hit : (j : ℕ) → j < l.lh.n → updated l m (l.lh.block j) ≡ bread m (l.lh.block j)
  unfolding updated
  updated_hit j h =
      rw (find_hit l.lh.block (l.lh.block j) l.lh.n j sound'.distinct h refl) (ground arith)

  pub updated_miss : (b : ℕ) → ((j : ℕ) → j < l.lh.n → l.lh.block j ≢ b) → updated l m b ≡ m.disk b
  unfolding updated
  updated_miss b out = go (find_from-Found l.lh.block b l.lh.n 0)
    where
      go :
          {k : ℕ}
          → Found l.lh.block b l.lh.n 0 k
          → (if k == l.lh.n then m.disk b else bread m b) ≡ m.disk b
      go (missing e _) = ground arith
      go {k} (found g h e) = absurd (out k (omega arith) e)

  -- With the header written, the disk means what the transaction wrote.
  logical-installed :
      l.lh.n < m.power
      → (b : ℕ) → IsHome l.start l.size b
      → logical l.start installed.disk b ≡ updated l m b
  logical-installed live b home = go (find_from-Found l.lh.block b l.lh.n 0)
    where
      c : IsCommitted l.start l.lh installed.disk
      c = installed-IsCommitted live

      log : IsLog l.start l.size installed.disk
      log = IsLog-of_committed installed.disk sound' c

      go :
          {k : ℕ} → Found l.lh.block b l.lh.n 0 k → logical l.start installed.disk b ≡ updated l m b
      go (missing e out) =
          let out' : (j : ℕ) → j < l.lh.n → l.lh.block j ≢ b =
            λ j h. out j (omega arith) (omega arith) in
          logical_miss l.start installed.disk b (λ j h q.
            out' j (omega (arith, c.count)) (sym (c.entries j (omega (arith, c.count))) ∙ q))
          ∙ install_other l sound' headed b out'
          ∙ head_other l written (home_ne_head b home)
          ∙ written_home b home
          ∙ sym (updated_miss b out')
      go {k} (found g h e) =
          subst (λ i. logical l.start installed.disk i ≡ updated l m i)
            (c.entries k (omega arith) ∙ e)
            (logical_hit l.start installed.disk k log.distinct (omega (arith, c.count))
              ∙ installed_slot k (omega arith) live
              ∙ sym (updated_hit k (omega arith))
              ∙ ap (updated l m) (sym (c.entries k (omega arith))))

  -- With power for both loops and the header the blocks are in their places.
  installed_settled :
      l.lh.n + l.lh.n < m.power
      → (b : ℕ) → IsHome l.start l.size b
      → installed.disk b ≡ updated l m b
  unfolding write_head
  installed_settled live b home = go (find_from-Found l.lh.block b l.lh.n 0)
    where
      go : {k : ℕ} → Found l.lh.block b l.lh.n 0 k → installed.disk b ≡ updated l m b
      go (missing e out) =
          let out' : (j : ℕ) → j < l.lh.n → l.lh.block j ≢ b =
            λ j h. out j (omega arith) (omega arith) in
          install_other l sound' headed b out'
          ∙ head_other l written (home_ne_head b home)
          ∙ written_home b home
          ∙ sym (updated_miss b out')
      go {k} (found g h e) =
          subst (λ i. installed.disk i ≡ updated l m i) e
            (install_done l sound' headed k (omega arith) (
                omega (
                  arith,
                  power-written,
                  power-bwrite written l.start (header_block l.lh (bread written l.start)),
                ))
              ∙ bread-bwrite_ne written l.start _ (λ q. absurd (omega arith))
              ∙ written_view k (omega arith)
              ∙ sym (updated_hit k (omega arith)))

  power-installed : installed.power ≡ m.power - l.lh.n - 1 - l.lh.n
  unfolding write_head
  power-installed = omega (
    arith,
    power-install l sound' headed,
    power-written,
    power-bwrite written l.start (header_block l.lh (bread written l.start)),
  )

  pub cleared_old : m.power ≤ l.lh.n → OldOrNew l m cleared.disk × IsLog l.start l.size cleared.disk
  cleared_old dead = rw (dead_disk dead) (
    inl (λ b home.
        logical_empty l.start written.disk b (ap (λ (w : Block). w 0) written_head ∙ ready.empty)
        ∙ written_home b home),
    IsLog-of_empty written.disk (omega (arith, sound'.room))
        (ap (λ (w : Block). w 0) written_head ∙ ready.empty),
  )

  pub cleared_new : l.lh.n < m.power → OldOrNew l m cleared.disk × IsLog l.start l.size cleared.disk
  cleared_new live = elim (ℕ_discrete installed.power 0) [
    | yes dead ↦
        let same : cleared.disk ≡ installed.disk = fun_ext (head_dead (clear l) installed dead) in
        rw same (
          inr (logical-installed live),
          IsLog-of_committed installed.disk sound' (installed-IsCommitted live),
        )
    | no on ↦
        let empty : cleared.disk l.start 0 ≡ 0 = head_count (clear l) installed (omega arith) in
        (
          inr (λ b home.
              logical_empty l.start cleared.disk b empty
              ∙ head_other (clear l) installed (home_ne_head b home)
              ∙ installed_settled (omega (arith, power-installed)) b home),
          IsLog-of_empty cleared.disk (omega (arith, sound'.room)) empty,
        )
  ]

  pub cleared_complete :
      l.lh.n + l.lh.n + 1 < m.power
      → ((b : ℕ) → IsHome l.start l.size b → cleared.disk b ≡ updated l m b)
        × (cleared.disk l.start 0 ≡ 0)
  cleared_complete live = (
    λ b home.
        head_other (clear l) installed (home_ne_head b home)
        ∙ installed_settled (omega arith) b home,
    head_count (clear l) installed (omega (arith, power-installed)),
  )
