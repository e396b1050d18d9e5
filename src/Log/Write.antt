-- ===== src/Log/Write.antt =====
-- log_write: one more block in the transaction.
use mathlib.Core.Path.{subst}
use xv.Common.{
  ℕ, ◌+◌, ◌-◌, ◌≤◌, ◌<◌, ◌≡◌, ◌≢◌, refl, sym, ap, ◌∙◌, inl, inr, arith, ◌==◌, if◌then◌else◌,
  Bool-cases, leb, ◌||◌, true, some, ℕ_discrete, update, ok, ok-injective, dec_lt,
}
use xv.Common.Int.{ltb_ℤ, pos}
use xv.Log.Disk.{Block, Machine, bread}
use xv.Log.Ops.{log_size, LogHeader, Log, find_from, record_block, log_write}
use xv.Log.Find.{Found, missing, found, find_from-Found}
use xv.Log.Logical.{IsHome, IsSound}
use xv.Log.Commit.{IsReady, updated, updated_hit, updated_miss}

-- What record_block makes of a header: it holds `b`, it holds what it held, and nothing else.
record Recorded (h : LogHeader) (b : ℕ) (h' : LogHeader) : Type 0 where
  grows : (h.n ≤ h'.n) × (h'.n ≤ h.n + 1)
  at : ℕ
  holds : (at < h'.n) × (h'.block at ≡ b)
  keeps : (j : ℕ) → j < h.n → h'.block j ≡ h.block j
  fresh : (j : ℕ) → h.n ≤ j → j < h'.n → (j ≡ at) × ((k : ℕ) → k < h.n → h.block k ≢ b)

record_block-Recorded : (h : LogHeader) (b : ℕ) → Recorded h b (record_block h b)
unfolding record_block
record_block-Recorded h b = go (find_from-Found h.block b h.n 0)
  where
    go :
        {k : ℕ}
        → Found h.block b h.n 0 k
        → Recorded h b
            (record { n = if k == h.n then h.n + 1 else h.n; block = update h.block k b })
    go {k} (missing e out) = record {
      grows = ground arith;
      at = h.n;
      holds = (ground arith, ground arith);
      keeps = λ j p. ground arith;
      fresh = λ j p q. (ground arith, λ i r. out i (omega arith) (omega arith));
    }
    go {k} (found g p e) = record {
      grows = ground arith;
      at = k;
      holds = (ground arith, ground arith);
      keeps = λ j q. ground arith;
      fresh = λ j q r. absurd (ground arith);
    }

module _ (h : LogHeader) (b : ℕ) (h' : LogHeader) (r : Recorded h b h') where
  -- A new entry is `b`, and no old entry is.
  fresh_entry : (j : ℕ) → h.n ≤ j → j < h'.n → h'.block j ≡ b
  fresh_entry j p q = ap h'.block (r.fresh j p q).0 ∙ r.holds.1

  fresh_clash : (j k : ℕ) → j < h.n → h.n ≤ k → k < h'.n → h'.block j ≢ h'.block k
  fresh_clash j k p q q' e = (r.fresh k q q').1 j p (sym (r.keeps j p) ∙ e ∙ fresh_entry k q q')

  Recorded-IsSound :
      {start size : ℕ}
      → IsSound start size h
      → h.n + 1 < size
      → IsHome start size b
      → IsSound start size h'
  Recorded-IsSound {start} {size} s room home = record {
    room = omega (arith, r.grows);
    distinct = λ j k p q e. elim (dec_lt j h.n) [
      | yes pj ↦ elim (dec_lt k h.n) [
        | yes pk ↦ s.distinct j k pj pk (sym (r.keeps j pj) ∙ e ∙ r.keeps k pk)
        | no nk ↦ absurd (fresh_clash j k pj (omega arith) q e)
      ]
      | no nj ↦ elim (dec_lt k h.n) [
        | yes pk ↦ absurd (fresh_clash k j pk (omega arith) p (sym e))
        | no nk ↦ (r.fresh j (omega arith) p).0 ∙ sym (r.fresh k (omega arith) q).0
      ]
    ];
    home = λ j p. elim (dec_lt j h.n) [
      | yes pj ↦ rw (r.keeps j pj) (s.home j pj)
      | no nj ↦ rw (fresh_entry j (omega arith) p) home
    ];
  }

module _ (l : Log) (m : Machine) (b : ℕ) (d : Block) where
  abbrev logged : Log
  logged = record l { lh = record_block l.lh b }

  abbrev dirtied : Machine
  dirtied = record m { cache = update m.cache b (some (record { words = d; dirty = true })) }

  bread-dirtied_ne : (c : ℕ) → b ≢ c → bread dirtied c ≡ bread m c
  bread-dirtied_ne c ne = ground arith

  bread-dirtied_self : bread dirtied b ≡ d
  bread-dirtied_self = ground arith

  module _ (ready : IsReady l m) (room : l.lh.n + 1 < l.size) (home : IsHome l.start l.size b) where
    logged-IsReady : IsReady logged dirtied
    logged-IsReady = record {
      sound = Recorded-IsSound l.lh b _ (record_block-Recorded l.lh b) ready.sound room home;
      empty = ready.empty;
    }

    updated-logged : (c : ℕ) → updated logged dirtied c ≡ (if b == c then d else updated l m c)
    updated-logged c = elim (ℕ_discrete b c) [
      | yes e ↦
          subst (λ i. updated logged dirtied i ≡ (if b == i then d else updated l m i)) e
            (subst (λ i. updated logged dirtied i ≡ bread dirtied i) r.holds.1
                (updated_hit logged dirtied logged-IsReady r.at r.holds.0)
              ∙ bread-dirtied_self
              ∙ ground arith)
      | no ne ↦ elim (find_from-Found l.lh.block c l.lh.n 0) [
        | missing _ out ↦
            updated_miss logged dirtied logged-IsReady c (λ j q e. elim (dec_lt j l.lh.n) [
              | yes pj ↦ out j (omega arith) (omega arith) (sym (r.keeps j pj) ∙ e)
              | no nj ↦ ne (sym (fresh_entry l.lh b _ r j (omega arith) q) ∙ e)
            ])
            ∙ sym (updated_miss l m ready c (λ j q. out j (omega arith) (omega arith)))
            ∙ ground arith
        | found g q e ↦
            let k = find_from l.lh.block c l.lh.n 0 in
            let q' : k < l.lh.n = omega arith in
            subst (λ i. updated logged dirtied i ≡ bread dirtied i) (r.keeps k q' ∙ e)
              (updated_hit logged dirtied logged-IsReady k (omega (arith, r.grows)))
            ∙ bread-dirtied_ne c ne
            ∙ sym (subst (λ i. updated l m i ≡ bread m i) e (updated_hit l m ready k q'))
            ∙ ground arith
      ]
    ]
      where
        r : Recorded l.lh b (record_block l.lh b)
        r = record_block-Recorded l.lh b

  -- A log_write of a home block that succeeds on a ready state keeps it ready for commit, adds just that
  -- block to what the transaction makes of the disk, and leaves the disk alone.
  pub log_write_lem :
      {l' : Log} {m' : Machine}
      → IsReady l m
      → IsHome l.start l.size b
      → log_write l m b d ≡ ok (l', m')
      → IsReady l' m'
        × ((c : ℕ) → updated l' m' c ≡ (if b == c then d else updated l m c))
        × (m'.disk ≡ m.disk)
  unfolding log_write
  log_write_lem {l'} {m'} ready home e =
      elim (Bool-cases (leb log_size l.lh.n || leb (l.size - 1) l.lh.n)) [
        | inl big ↦ absurd (cc (rw big at e))
        | inr fits ↦ elim (Bool-cases (ltb_ℤ l.outstanding (pos 1))) [
          | inl outside ↦ absurd (cc (rw (fits, outside) at e))
          | inr inside ↦
              subst
                (λ (r : Log × Machine).
                  IsReady r.0 r.1
                  × ((c : ℕ) → updated r.0 r.1 c ≡ (if b == c then d else updated l m c))
                  × (r.1.disk ≡ m.disk))
                (ok-injective (logged, dirtied) (l', m') (rw (fits, inside) at e))
                (
                  logged-IsReady ready (ground arith) home,
                  updated-logged ready (ground arith) home,
                  refl,
                )
        ]
      ]
