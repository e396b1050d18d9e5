-- ===== src/Bcache/Steps.antt =====
-- Any interleaving of the cache's operations, by any processes, is a run of one disk.

use xv.Common.{
  ℕ, ◌≡◌, ◌≢◌, refl, sym, ◌∙◌, arith, true, Bool-cases, inl, inr, some, List, update, Outcome, ok,
  panic,
}
use xv.Bcache.Sleep.{Sleeplock, holdingsleep}
use xv.Bcache.Buf.{Buf, Cache, deref, change}
use xv.Bcache.Get.{bget, lock_buf, bread}
use xv.Bcache.Release.{bwrite, modify, unlock_buf, put_buf}
use xv.Bcache.View.{view, live, IsGood, IsCache}
use xv.Bcache.Change.{IsChange, deref-IsGood, IsCache-change, view-change, deref-change}
use xv.Bcache.Front.{view-change_same}
use xv.Bcache.Sync.{IsSync, iderw-IsSync}

-- A step writes the block `b`, or is seen by no reader.
pub data Event : Type 0 where
  unseen : Event
  wrote : (b : ℕ) (bytes : ℕ → ℕ) → Event

-- One step of a process with pid `me`, on a buffer that it has a reference to except in `get`.
pub data Step (disksize : ℕ) (c : Cache) : Event → Cache → Type 0 where
  get :
      (b i : ℕ) (xs : List Buf)
      → bget 1 b c.bufs ≡ ok (i, xs)
      → Step disksize c unseen (record c { bufs = xs })
  lock :
      (me i : ℕ) (y : Buf) (xs : List Buf)
      → deref i c.bufs ≡ some y
      → y.refcnt ≢ 0
      → lock_buf me i c.bufs ≡ some xs
      → Step disksize c unseen (record c { bufs = xs })
  read :
      (me i : ℕ) (y : Buf) (c' : Cache)
      → deref i c.bufs ≡ some y
      → y.refcnt ≢ 0
      → bread disksize me i c ≡ ok c'
      → Step disksize c unseen c'
  write :
      (me i : ℕ) (y : Buf) (bytes : ℕ → ℕ)
      → deref i c.bufs ≡ some y
      → y.refcnt ≢ 0
      → holdingsleep me y.lock ≡ true
      → y.valid ≡ true
      → Step disksize c (wrote y.blockno bytes) (record c { bufs = modify i bytes c.bufs })
  flush :
      (me i : ℕ) (y : Buf) (c' : Cache)
      → deref i c.bufs ≡ some y
      → y.refcnt ≢ 0
      → y.valid ≡ true
      → bwrite disksize me i c ≡ ok c'
      → Step disksize c unseen c'
  unlock :
      (me i : ℕ) (y : Buf) (xs : List Buf)
      → deref i c.bufs ≡ some y
      → y.refcnt ≢ 0
      → unlock_buf me i c.bufs ≡ ok xs
      → Step disksize c unseen (record c { bufs = xs })
  put :
      (i : ℕ) (y : Buf) (xs : List Buf)
      → deref i c.bufs ≡ some y
      → y.refcnt ≢ 0
      → put_buf i c.bufs ≡ ok xs
      → Step disksize c unseen (record c { bufs = xs })

-- A disk after a step, as a function from block numbers to contents.
abbrev pub after : Event → (ℕ → ℕ → ℕ) → ℕ → ℕ → ℕ
after unseen disk = disk
after (wrote b bytes) disk = update disk b bytes

-- The buffers and the disk agree, and the step does to what is seen what it does to a disk.
pub record IsRun (c : Cache) (e : Event) (c' : Cache) : Type 0 where
  pub agrees : IsCache c'.disk c'.bufs
  pub sees : (b : ℕ) → view c'.disk c'.bufs b ≡ after e (view c.disk c.bufs) b

pub refcnt-live : (y : Buf) → y.refcnt ≢ 0 → live y ≡ true
refcnt-live y refs = ground arith

pub IsSync-IsRun : (i b : ℕ) (c c' : Cache) → IsSync i b c c' → IsRun c unseen c'
IsSync-IsRun i b c c' s = record { agrees = s.cache; sees = s.views }

-- A change of the buffer `i` that leaves the disk.
module _ (c : Cache) (good : IsCache c.disk c.bufs) (i : ℕ) (y : Buf) (at : deref i c.bufs ≡ some y)
    (refs : y.refcnt ≢ 0) where
  is_good : IsGood c.disk y
  is_good = deref-IsGood i c.bufs y good at

  pub relock :
      (lk : Buf → Sleeplock)
      → IsRun c unseen (record c { bufs = change i (λ b. record b { lock = lk b }) c.bufs })
  relock lk =
      let k : IsChange c.disk c.disk y (λ b. record b { lock = lk b }) = record {
        is_live = refcnt-live y refs;
        first_disk = is_good.on_disk (refcnt-live y refs);
        same_index = refl;
        same_dev = refl;
        same_block = refl;
        good = record {
          on_disk = is_good.on_disk;
          dirty_valid = is_good.dirty_valid;
          agrees = is_good.agrees;
        };
        elsewhere = λ b ne. refl;
      } in
      record {
        agrees = IsCache-change i _ y k c.bufs at good;
        sees = view-change_same i _ y c.bufs k refl good at;
      }

  module _ (valid : y.valid ≡ true) where
    -- A dirty buffer with the contents `bytes y`.
    soil :
        (bytes : Buf → ℕ → ℕ)
        → IsChange c.disk c.disk y (λ b. record b { bytes = bytes b; dirty = true })
    soil bytes = record {
      is_live = refcnt-live y refs;
      first_disk = is_good.on_disk (refcnt-live y refs);
      same_index = refl;
      same_dev = refl;
      same_block = refl;
      good = record { on_disk = is_good.on_disk; dirty_valid = λ _. valid; agrees = λ v clean. cc };
      elsewhere = λ b ne. refl;
    }

    pub modify-IsRun :
        (bytes : ℕ → ℕ)
        → IsRun c (wrote y.blockno bytes) (record c { bufs = modify i bytes c.bufs })
    unfolding modify
    modify-IsRun bytes = record {
      agrees = IsCache-change i _ y (soil (λ _. bytes)) c.bufs at good;
      sees = λ b. view-change i _ y (soil (λ _. bytes)) c.bufs at good b ∙ rw valid refl;
    }

    pub bwrite-IsSync :
        (disksize me : ℕ) (c' : Cache) → bwrite disksize me i c ≡ ok c' → IsSync i y.blockno c c'
    unfolding bwrite
    bwrite-IsSync disksize me c' e = elim (Bool-cases (holdingsleep me y.lock)) [
      | inr h ↦ absurd (panic≢ok (sym (rw (at, bwrite) (rw h refl)) ∙ e))
      | inl h ↦
          let k = soil (λ b. b.bytes) in
          let dirtied : Cache = record c {
            bufs = change i (λ b. record b { dirty = true }) c.bufs;
          } in
          let s =
            iderw-IsSync i (record y { dirty = true }) dirtied
              (IsCache-change i _ y k c.bufs at good) (deref-change i _ y k c.bufs at)
              (refcnt-live y refs) disksize me c' (sym (rw (at, bwrite) (rw h refl)) ∙ e) in
          let same = view-change_same i _ y c.bufs k refl good at in
          record {
            buf = s.buf;
            cache = s.cache;
            views = λ n. s.views n ∙ same n;
            found = s.found;
            is_valid = s.is_valid;
            shows = s.shows ∙ same y.blockno;
          }
    ]
      where
        panic≢ok : {c'' : Cache} → ◌≢◌ {A = Outcome Cache} panic (ok c'')
        panic≢ok e' = cc
