-- ===== src/Log/Install.antt =====
-- install_trans and write_head: which blocks of the disk they change, and to what.
use xv.Common.{ℕ, ◌+◌, ◌-◌, ◌≤◌, ◌<◌, ◌≡◌, ◌≢◌, sym, inl, inr, arith}
use mathlib.Core.Path.{subst}
use xv.Log.Disk.{Machine, bread}
use xv.Log.Ops.{Log, install_trans, write_head}
use xv.Log.Copy.{
  install_from-copy, Apart, power-copy, copy_dead, disk-copy_ne, disk-copy, disk-bwrite_ne,
  disk-bwrite_dead, disk-bwrite_live,
}
use xv.Log.Find.{header_block-n}
use xv.Log.Logical.{IsHome, IsSound}

pub home_ne_slot : {start size b : ℕ} (j : ℕ) → IsHome start size b → j < size → b ≢ start + j
home_ne_slot j (inl h) lt e = absurd (omega arith)
home_ne_slot j (inr h) lt e = absurd (omega arith)

module _ (l : Log) (sound : IsSound l.start l.size l.lh) where
  pub install-Apart : Apart (λ t. l.start + t + 1) l.lh.block l.lh.n
  install-Apart = record {
    apart = λ j k p q e.
        home_ne_slot (j + 1) (sound.home k q) (omega (arith, sound.room)) (omega (arith, sym e));
    distinct = sound.distinct;
  }

  -- install_trans touches home blocks only.
  pub install_slot :
      (m : Machine) (i : ℕ)
      → i < l.size
      → (install_trans l m).disk (l.start + i) ≡ m.disk (l.start + i)
  unfolding install_trans
  install_slot m i lt = rw (install_from-copy l l.lh.n 0 m) (
      disk-copy_ne (λ t. l.start + t + 1) l.lh.block l.lh.n 0 m (l.start + i)
        (λ j g h. home_ne_slot i (sound.home j (omega arith)) lt))

  pub install_other :
      (m : Machine) (b : ℕ)
      → ((j : ℕ) → j < l.lh.n → l.lh.block j ≢ b)
      → (install_trans l m).disk b ≡ m.disk b
  unfolding install_trans
  install_other m b out =
      rw (install_from-copy l l.lh.n 0 m)
        (disk-copy_ne (λ t. l.start + t + 1) l.lh.block l.lh.n 0 m b (λ j g h. out j (omega arith)))

  pub install_done :
      (m : Machine) (j : ℕ)
      → j < l.lh.n
      → l.lh.n ≤ m.power
      → (install_trans l m).disk (l.lh.block j) ≡ bread m (l.start + j + 1)
  unfolding install_trans
  install_done m j lt live =
      rw (install_from-copy l l.lh.n 0 m)
        (disk-copy install-Apart l.lh.n 0 m j (omega arith) (omega arith) (omega arith) live)

  pub power-install : (m : Machine) → (install_trans l m).power ≡ m.power - l.lh.n
  unfolding install_trans
  power-install m = rw (install_from-copy l l.lh.n 0 m) (power-copy _ _ l.lh.n 0 m)

pub install_dead :
    (l : Log) (m : Machine) → m.power ≡ 0 → (c : ℕ) → (install_trans l m).disk c ≡ m.disk c
unfolding install_trans
install_dead l m dead c = rw (install_from-copy l l.lh.n 0 m) (copy_dead _ _ l.lh.n 0 m dead c)

module _ (l : Log) (m : Machine) where
  pub head_other : {c : ℕ} → l.start ≢ c → (write_head l m).disk c ≡ m.disk c
  unfolding write_head
  head_other ne = disk-bwrite_ne m _ _ ne

  pub head_dead : m.power ≡ 0 → (c : ℕ) → (write_head l m).disk c ≡ m.disk c
  unfolding write_head
  head_dead dead c = disk-bwrite_dead m _ _ dead c

  pub head_count : 0 < m.power → (write_head l m).disk l.start 0 ≡ l.lh.n
  unfolding write_head
  head_count live = rw (disk-bwrite_live m l.start _ live) (header_block-n l.lh _)

pub install_head :
    (l : Log)
    → IsSound l.start l.size l.lh
    → (m : Machine) → (install_trans l m).disk l.start ≡ m.disk l.start
install_head l sound m =
    subst (λ k. (install_trans l m).disk k ≡ m.disk k) (omega arith)
      (install_slot l sound m 0 (omega (arith, sound.room)))
