-- ===== src/Log/Copy.antt =====
-- write_log and install_trans are one loop: copy the blocks `src tail` to the blocks `dst tail`.
-- What it does to the disk, to the cached view and to the power that is left.
use xv.Common.{
  ℕ, zero, suc, ◌+◌, ◌-◌, ◌≤◌, ◌<◌, ◌≡◌, ◌≢◌, refl, sym, ◌∙◌, ap₂, arith, update_self, update_ne,
  ℕ_discrete,
}
use xv.Log.Disk.{Block, Machine, view, bread, bwrite, store}
use xv.Log.Ops.{Log, install_from, write_from}

module _ (disk : ℕ → Block) (b : ℕ) (d : Block) where
  store_ne : (k : ℕ) {c : ℕ} → b ≢ c → store k disk b d c ≡ disk c
  store_ne zero ne = refl
  store_ne (suc k) ne = update_ne disk d ne

  store_live : (k : ℕ) → 0 < k → store k disk b d b ≡ d
  store_live zero h = absurd (omega arith)
  store_live (suc k) h = update_self disk b d

module _ (m : Machine) (b : ℕ) (d : Block) where
  pub disk-bwrite_ne : {c : ℕ} → b ≢ c → (bwrite m b d).disk c ≡ m.disk c
  unfolding bwrite
  disk-bwrite_ne ne = store_ne m.disk b d m.power ne

  pub disk-bwrite_dead : m.power ≡ 0 → (c : ℕ) → (bwrite m b d).disk c ≡ m.disk c
  unfolding bwrite
  disk-bwrite_dead dead c = rw dead

  pub disk-bwrite_live : 0 < m.power → (bwrite m b d).disk b ≡ d
  unfolding bwrite
  disk-bwrite_live live = store_live m.disk b d m.power live

  pub power-bwrite : (bwrite m b d).power ≡ m.power - 1
  unfolding bwrite
  power-bwrite = refl

  pub bread-bwrite_self : bread (bwrite m b d) b ≡ d
  unfolding bwrite
  bread-bwrite_self = ground arith

  pub bread-bwrite_ne : {c : ℕ} → b ≢ c → bread (bwrite m b d) c ≡ bread m c
  unfolding bwrite
  bread-bwrite_ne ne = ap₂ view (update_ne m.cache _ ne) (store_ne m.disk b d m.power ne)

-- The common loop.
unfoldable pub copy : (src dst : ℕ → ℕ) (rounds tail : ℕ) → Machine → Machine
copy src dst zero tail m = m
copy src dst (suc rounds) tail m =
    copy src dst rounds (suc tail) (bwrite m (dst tail) (bread m (src tail)))

pub install_from-copy :
    (l : Log) (rounds tail : ℕ) (m : Machine)
    → install_from l rounds tail m ≡ copy (λ t. l.start + t + 1) l.lh.block rounds tail m
unfolding install_from copy
install_from-copy l zero tail m = refl
install_from-copy l (suc rounds) tail m = install_from-copy l rounds (suc tail) _

pub write_from-copy :
    (l : Log) (rounds tail : ℕ) (m : Machine)
    → write_from l rounds tail m ≡ copy l.lh.block (λ t. l.start + t + 1) rounds tail m
unfolding write_from copy
write_from-copy l zero tail m = refl
write_from-copy l (suc rounds) tail m = write_from-copy l rounds (suc tail) _

-- The `n` sources are no destinations, and the destinations differ.
pub record Apart (src dst : ℕ → ℕ) (n : ℕ) : Type 0 where
  pub apart : (j k : ℕ) → j < n → k < n → src j ≢ dst k
  pub distinct : (j k : ℕ) → j < n → k < n → dst j ≡ dst k → j ≡ k

module _ (src dst : ℕ → ℕ) where
  pub power-copy :
      (rounds tail : ℕ) (m : Machine) → (copy src dst rounds tail m).power ≡ m.power - rounds
  unfolding copy
  power-copy zero tail m = omega arith
  power-copy (suc rounds) tail m =
      let m' = bwrite m (dst tail) (bread m (src tail)) in
      omega (arith, power-copy rounds (suc tail) m', power-bwrite m (dst tail) (bread m (src tail)))

  pub copy_dead :
      (rounds tail : ℕ) (m : Machine)
      → m.power ≡ 0
      → (c : ℕ) → (copy src dst rounds tail m).disk c ≡ m.disk c
  unfolding copy
  copy_dead zero tail m dead c = refl
  copy_dead (suc rounds) tail m dead c =
      copy_dead rounds (suc tail) _ (omega (arith, power-bwrite m (dst tail) (bread m (src tail))))
        c
      ∙ disk-bwrite_dead m _ _ dead c

  -- A block that is no destination keeps its disk content and its cached view.
  pub disk-copy_ne :
      (rounds tail : ℕ) (m : Machine) (c : ℕ)
      → ((j : ℕ) → tail ≤ j → j < tail + rounds → dst j ≢ c)
      → (copy src dst rounds tail m).disk c ≡ m.disk c
  unfolding copy
  disk-copy_ne zero tail m c ne = refl
  disk-copy_ne (suc rounds) tail m c ne =
      disk-copy_ne rounds (suc tail) _ c (λ j g h. ne j (omega arith) (omega arith))
      ∙ disk-bwrite_ne m _ _ (ne tail (omega arith) (omega arith))

  pub bread-copy_ne :
      (rounds tail : ℕ) (m : Machine) (c : ℕ)
      → ((j : ℕ) → tail ≤ j → j < tail + rounds → dst j ≢ c)
      → bread (copy src dst rounds tail m) c ≡ bread m c
  unfolding copy
  bread-copy_ne zero tail m c ne = refl
  bread-copy_ne (suc rounds) tail m c ne =
      bread-copy_ne rounds (suc tail) _ c (λ j g h. ne j (omega arith) (omega arith))
      ∙ bread-bwrite_ne m _ _ (ne tail (omega arith) (omega arith))

module _ {src dst : ℕ → ℕ} {n : ℕ} (ok : Apart src dst n) where
  -- Afterwards each destination shows what its source showed at the start …
  pub bread-copy :
      (rounds tail : ℕ) (m : Machine) (j : ℕ)
      → tail + rounds ≤ n
      → tail ≤ j
      → j < tail + rounds
      → bread (copy src dst rounds tail m) (dst j) ≡ bread m (src j)
  unfolding copy
  bread-copy zero tail m j fits low high = absurd (omega arith)
  bread-copy (suc rounds) tail m j fits low high = elim (ℕ_discrete tail j) [
    | yes e ↦
        let m' = bwrite m (dst tail) (bread m (src tail)) in
        rw (← e) (
          bread-copy_ne src dst rounds (suc tail) m' (dst tail)
            (λ i g h q. absurd (omega (arith, ok.distinct i tail (omega arith) (omega arith) q)))
          ∙ bread-bwrite_self m (dst tail) (bread m (src tail)))
    | no ne ↦
        bread-copy rounds (suc tail) _ j (omega arith) (omega arith) (omega arith)
        ∙ bread-bwrite_ne m _ _ (λ q. ok.apart j tail (omega arith) (omega arith) (sym q))
  ]

  -- … and with power for every round the disk holds it.
  pub disk-copy :
      (rounds tail : ℕ) (m : Machine) (j : ℕ)
      → tail + rounds ≤ n
      → tail ≤ j
      → j < tail + rounds
      → rounds ≤ m.power
      → (copy src dst rounds tail m).disk (dst j) ≡ bread m (src j)
  unfolding copy
  disk-copy zero tail m j fits low high live = absurd (omega arith)
  disk-copy (suc rounds) tail m j fits low high live = elim (ℕ_discrete tail j) [
    | yes e ↦
        let m' = bwrite m (dst tail) (bread m (src tail)) in
        rw (← e) (
          disk-copy_ne src dst rounds (suc tail) m' (dst tail)
            (λ i g h q. absurd (omega (arith, ok.distinct i tail (omega arith) (omega arith) q)))
          ∙ disk-bwrite_live m (dst tail) (bread m (src tail)) (omega arith))
    | no ne ↦
        disk-copy rounds (suc tail) _ j (omega arith) (omega arith) (omega arith)
          (omega (arith, power-bwrite m (dst tail) (bread m (src tail))))
        ∙ bread-bwrite_ne m _ _ (λ q. ok.apart j tail (omega arith) (omega arith) (sym q))
  ]
