-- ===== src/Bcache/Sync.antt =====
-- iderw, bread and bwrite bring one buffer and its block of the disk into agreement.
use mathlib.Core.Path.{subst}
use xv.Common.{
  ℕ, ◌≡◌, refl, sym, ◌∙◌, arith, Bool, true, false, Bool-cases, not, ◌&&◌, inl, inr, some, ◌==◌,
  ltb, if◌then◌else◌, update, update_self, update_ne, Outcome, ok, panic, ◌>>=◌, ok-injective,
}
use xv.Bcache.Sleep.{holdingsleep}
use xv.Bcache.Buf.{Buf, Cache, deref, change, transfer, iderw}
use xv.Bcache.Get.{bread}
use xv.Bcache.View.{view, live, IsGood, IsCache}
use xv.Bcache.Change.{IsChange, deref-IsGood, IsCache-change, deref-change}
use xv.Bcache.Front.{view-deref, view-change_same}

-- The ways that iderw's work on one buffer ends.
data Moved (y : Buf) (disk : ℕ → ℕ → ℕ) : Outcome (Buf × (ℕ → ℕ → ℕ)) → Type 0 where
  refused : Moved y disk panic
  written :
      y.dirty ≡ true
      → Moved y disk (ok (record y { dirty = false; valid = true }, update disk y.blockno y.bytes))
  fetched :
      y.dirty ≡ false
      → y.valid ≡ false
      → Moved y disk (ok (record y { bytes = disk y.blockno; valid = true }, disk))

transfer-Moved :
    (disksize me : ℕ) (y : Buf) (disk : ℕ → ℕ → ℕ) → Moved y disk (transfer disksize me y disk)
unfolding transfer
transfer-Moved disksize me y disk = elim (Bool-cases (holdingsleep me y.lock)) [
  | inr h ↦ rw h refused
  | inl h ↦ rw h (elim (Bool-cases (y.valid && not y.dirty)) [
    | inl v ↦ rw v refused
    | inr v ↦ rw v (elim (Bool-cases (y.dev == 1)) [
      | inr d ↦ rw d refused
      | inl d ↦ rw d (elim (Bool-cases (ltb y.blockno disksize)) [
        | inr b ↦ rw b refused
        | inl b ↦ rw b (moves refl v)
      ])
    ])
  ])
]
  where
    moves :
        {dirty : Bool}
        → y.dirty ≡ dirty
        → (y.valid && not y.dirty) ≡ false
        → Moved y disk (
            if dirty
            then ok (record y { dirty = false; valid = true }, update disk y.blockno y.bytes)
            else ok (record y { bytes = disk y.blockno; valid = true }, disk))
    moves {dirty = true} e v = written e
    moves {dirty = false} e v = fetched e (ground (arith, v, e))

-- Buffer `i`, of block `b`, is valid and holds what is seen of the block; nothing else is seen
-- differently, and buffers and disk still agree.
pub record IsSync (i b : ℕ) (c c' : Cache) : Type 0 where
  pub buf : Buf
  pub cache : IsCache c'.disk c'.bufs
  pub views : (n : ℕ) → view c'.disk c'.bufs n ≡ view c.disk c.bufs n
  pub found : deref i c'.bufs ≡ some buf
  pub is_valid : buf.valid ≡ true
  pub shows : buf.bytes ≡ view c.disk c.bufs b

module _ (i : ℕ) (y : Buf) (c : Cache) (good : IsCache c.disk c.bufs) (at : deref i c.bufs ≡ some y)
    (l : live y ≡ true) where
  is_good : IsGood c.disk y
  is_good = deref-IsGood i c.bufs y good at

  after_change :
      (y' : Buf) (disk' : ℕ → ℕ → ℕ)
      → IsChange c.disk disk' y (λ _. y')
      → y'.valid ≡ true
      → y'.bytes ≡ (if y.valid then y.bytes else c.disk y.blockno)
      → IsSync i y.blockno c (record { bufs = change i (λ _. y') c.bufs; disk = disk' })
  after_change y' disk' k v shows = record {
    buf = y';
    cache = IsCache-change i (λ _. y') y k c.bufs at good;
    views = view-change_same i (λ _. y') y c.bufs k (rw v shows) good at;
    found = deref-change i (λ _. y') y k c.bufs at;
    is_valid = v;
    shows = shows ∙ sym (view-deref c.disk i c.bufs y l (is_good.on_disk l) good at);
  }

  pub iderw-IsSync :
      (disksize me : ℕ) (c' : Cache) → iderw disksize me i c ≡ ok c' → IsSync i y.blockno c c'
  unfolding iderw
  iderw-IsSync disksize me c' e = go (transfer-Moved disksize me y c.disk) (rw (at, iderw) at e)
    where
      go :
          {r : Outcome (Buf × (ℕ → ℕ → ℕ))}
          → Moved y c.disk r
          → (r >>= λ (b', disk'). ok (record { bufs = change i (λ _. b') c.bufs; disk = disk' }))
            ≡ ok c'
          → IsSync i y.blockno c c'
      go refused e' = cc
      go (written dirty) e' = subst (IsSync i y.blockno c) (ok-injective _ _ e') (
          after_change _ _
            (record {
              is_live = l;
              first_disk = is_good.on_disk l;
              same_index = refl;
              same_dev = refl;
              same_block = refl;
              good = record {
                on_disk = λ _. is_good.on_disk l;
                dirty_valid = λ _. refl;
                agrees = λ _ _. sym (update_self c.disk y.blockno y.bytes);
              };
              elsewhere = λ b ne. update_ne c.disk y.bytes (λ same. ne (sym same));
            })
            refl (rw (is_good.dirty_valid dirty) refl))
      go (fetched clean invalid) e' = subst (IsSync i y.blockno c) (ok-injective _ _ e') (
          after_change _ _
            (record {
              is_live = l;
              first_disk = is_good.on_disk l;
              same_index = refl;
              same_dev = refl;
              same_block = refl;
              good = record {
                on_disk = λ _. is_good.on_disk l;
                dirty_valid = λ _. refl;
                agrees = λ _ _. refl;
              };
              elsewhere = λ b ne. refl;
            })
            refl (rw invalid refl))

  -- In a cache whose buffers agree with the disk, and for a buffer with references: if bread of it,
  -- locked, returns, then the buffer is valid and holds what is seen of its block, and what is seen of
  -- the blocks and the agreement are kept.
  pub bread-IsSync :
      (disksize me : ℕ) (c' : Cache) → bread disksize me i c ≡ ok c' → IsSync i y.blockno c c'
  unfolding bread
  bread-IsSync disksize me c' e = elim (Bool-cases y.valid) [
    | inl v ↦
        subst (IsSync i y.blockno c) (ok-injective _ _ (sym (rw (at, bread) (rw v refl)) ∙ e))
          (record {
            buf = y;
            cache = good;
            views = λ n. refl;
            found = at;
            is_valid = v;
            shows = sym (view-deref c.disk i c.bufs y l (is_good.on_disk l) good at ∙ rw v refl);
          })
    | inr invalid ↦ iderw-IsSync disksize me c' (sym (rw (at, bread) (rw invalid refl)) ∙ e)
  ]
