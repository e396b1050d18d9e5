-- ===== src/Log/Recover.antt =====
-- Recovery after a power failure: it never changes what the disk means, even when the power fails
-- again, and once it completes every block is in its place and the log is empty.
use xv.Common.{
  ℕ, suc, ◌+◌, ◌-◌, ◌≤◌, ◌<◌, ◌≡◌, ◌≢◌, refl, sym, ap, ◌∙◌, fun_ext, none, arith, ℕ_discrete,
}
use mathlib.Core.Path.{subst}
use xv.Log.Disk.{Block, Machine}
use xv.Log.Ops.{Log, install_trans, clear, read_head, recover_from_log}
use xv.Log.Find.{Found, missing, found, find_from-Found, copy_in_entry}
use xv.Log.Install.{
  home_ne_slot, install_slot, install_head, install_other, install_done, power-install, head_other,
  head_dead, head_count,
}
use xv.Log.Logical.{
  IsHome, IsSound, IsCommitted, IsLog, IsLog-of_empty, IsLog-of_head, logical, logical_empty,
  logical_hit, logical_miss, logical_same,
}

-- The machine when it boots: nothing is cached.
abbrev pub boot : (ℕ → Block) → ℕ → Machine
boot disk power = record { disk = disk; cache = λ _. none; power = power }

module _ (l : Log) (disk : ℕ → Block) (power : ℕ) where
  abbrev booted : Machine
  booted = boot disk power

  abbrev found_log : Log
  found_log = read_head l booted

  abbrev installed : Machine
  installed = install_trans found_log booted

  pub read_head-IsCommitted : IsCommitted l.start found_log.lh disk
  unfolding read_head
  read_head-IsCommitted = record {
    count = refl;
    entries = λ j h.
        sym (
          copy_in_entry (disk l.start) (disk l.start 0) 0 l.lh.block j (omega arith) (omega arith));
  }

  module _ (log : IsLog l.start l.size disk) where
    found-IsSound : IsSound found_log.start found_log.size found_log.lh
    unfolding read_head
    found-IsSound =
        let c = read_head-IsCommitted in
        record {
          room = log.room;
          distinct = λ j k p q e. log.distinct j k p q (c.entries j p ∙ e ∙ sym (c.entries k q));
          home = λ j p. rw (← c.entries j p) (log.home j p);
        }

    installed_head : installed.disk l.start ≡ disk l.start
    unfolding read_head
    installed_head = install_head found_log found-IsSound booted

    installed_slot :
        (j : ℕ) → j < disk l.start 0 → installed.disk (l.start + j + 1) ≡ disk (l.start + j + 1)
    unfolding read_head
    installed_slot j h =
        subst (λ k. installed.disk k ≡ disk k) (omega arith)
          (install_slot found_log found-IsSound booted (j + 1) (omega (arith, log.room)))

    installed_other :
        (b : ℕ)
        → ((j : ℕ) → j < disk l.start 0 → disk l.start (suc j) ≢ b)
        → installed.disk b ≡ disk b
    unfolding read_head
    installed_other b out =
        install_other found_log found-IsSound booted b
          (λ j h e. out j h (read_head-IsCommitted.entries j h ∙ e))

    logical-installed : (b : ℕ) → logical l.start installed.disk b ≡ logical l.start disk b
    logical-installed b =
        logical_same l.start disk installed.disk b installed_head installed_slot (installed_other b)

    -- With power for the whole loop every block is in its place.
    installed_settled : (b : ℕ) → disk l.start 0 ≤ power → installed.disk b ≡ logical l.start disk b
    unfolding read_head
    installed_settled b live = go (find_from-Found (λ i. disk l.start (suc i)) b (disk l.start 0) 0)
      where
        go :
            {k : ℕ}
            → Found (λ i. disk l.start (suc i)) b (disk l.start 0) 0 k
            → installed.disk b ≡ logical l.start disk b
        go (missing e out) =
            installed_other b (λ j h. out j (omega arith) (omega arith))
            ∙ sym (logical_miss l.start disk b (λ j h. out j (omega arith) (omega arith)))
        go {k} (found g h e) =
            subst (λ c. installed.disk c ≡ logical l.start disk c)
              (sym (read_head-IsCommitted.entries k (omega arith)) ∙ e)
              (install_done found_log found-IsSound booted k (omega arith) live
                ∙ sym (logical_hit l.start disk k log.distinct (omega arith))
                ∙ ap (logical l.start disk) (read_head-IsCommitted.entries k (omega arith)))

    power-installed : installed.power ≡ power - disk l.start 0
    unfolding read_head
    power-installed = power-install found_log found-IsSound booted

    abbrev recovered : Machine
    recovered = (recover_from_log l booted).1

    recovered_dead : installed.power ≡ 0 → recovered.disk ≡ installed.disk
    unfolding recover_from_log read_head
    recovered_dead dead = fun_ext (head_dead (clear found_log) installed dead)

    recovered_count : 0 < installed.power → recovered.disk l.start 0 ≡ 0
    unfolding recover_from_log read_head
    recovered_count live = head_count (clear found_log) installed live

    recovered_other : (b : ℕ) → l.start ≢ b → recovered.disk b ≡ installed.disk b
    unfolding recover_from_log read_head
    recovered_other b ne = head_other (clear found_log) installed ne

    -- On a disk with a readable log, recovery keeps the meaning of every block outside the log area,
    -- wherever the power fails in it, and leaves a disk that recovery can read again.
    pub recover-logical :
        ((b : ℕ)
          → IsHome l.start l.size b
          → logical l.start recovered.disk b ≡ logical l.start disk b)
        × IsLog l.start l.size recovered.disk
    recover-logical = elim (ℕ_discrete installed.power 0) [
      | yes dead ↦
          rw (recovered_dead dead)
            (λ b h. logical-installed b, IsLog-of_head disk installed.disk installed_head log)
      | no live ↦ (
        λ b h.
            logical_empty l.start recovered.disk b (recovered_count (omega arith))
            ∙ recovered_other b
                (λ e. home_ne_slot 0 h (omega (arith, log.room)) (omega (arith, sym e)))
            ∙ installed_settled b (omega (arith, power-installed)),
        IsLog-of_empty recovered.disk (omega (arith, log.room)) (recovered_count (omega arith)),
      )
    ]

    -- On a disk with a readable log, and with power for one block write for each logged block and one
    -- for the header, recovery
    -- completes: every block outside the log area is in its place and the log is empty.
    pub recover_complete :
        disk l.start 0 < power
        → ((b : ℕ) → IsHome l.start l.size b → recovered.disk b ≡ logical l.start disk b)
          × (recovered.disk l.start 0 ≡ 0)
    recover_complete live = (
      λ b h.
          recovered_other b (λ e. home_ne_slot 0 h (omega (arith, log.room)) (omega (arith, sym e)))
          ∙ installed_settled b (omega arith),
      recovered_count (omega (arith, power-installed)),
    )
