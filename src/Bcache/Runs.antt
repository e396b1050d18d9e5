-- ===== src/Bcache/Runs.antt =====
-- Runs of the cache from its initial state: the blocks seen are those of a disk after the writes.
use mathlib.Core.Path.{subst}
use mathlib.Core.Option.{some-injective}
use xv.Common.{
  ℕ, zero, suc, ◌≡◌, ◌≢◌, refl, sym, ap, ◌∙◌, arith, Bool, true, false, Option, none, some, List,
  if◌then◌else◌, Outcome, ok, panic, ok-injective, ◌≤◌, ◌==◌,
}
use xv.Bcache.Sleep.{Sleeplock, acquiresleep, releasesleep, holdingsleep}
use xv.Bcache.Buf.{Buf, Cache, deref, change, binit, nbuf}
use xv.Bcache.Get.{lock_buf, bget}
use xv.Bcache.Release.{unlock_buf}
use xv.Bcache.View.{view, view_apart, IsApart, no_more, one_more, IsCache, no_buf, a_buf}
use xv.Bcache.Recycle.{Gets, gets, no_buffers, bget-Gets}
use xv.Bcache.Front.{put_buf-IsPut}
use xv.Bcache.Sync.{bread-IsSync}
use xv.Bcache.Steps.{
  Event, unseen, wrote, Step, get, lock, read, write, flush, unlock, put, after, IsRun, refcnt-live,
  IsSync-IsRun, relock, modify-IsRun, bwrite-IsSync,
}

module _ (c : Cache) (good : IsCache c.disk c.bufs) where
  get-IsRun :
      (b i : ℕ) (xs : List Buf)
      → bget 1 b c.bufs ≡ ok (i, xs)
      → IsRun c unseen (record c { bufs = xs })
  get-IsRun b i xs e = go (bget-Gets c.disk b c.bufs good) e
    where
      go :
          {r : Outcome (ℕ × List Buf)}
          → Gets c.disk b c.bufs r
          → r ≡ ok (i, xs)
          → IsRun c unseen (record c { bufs = xs })
      go (gets i' xs' y got) e' =
          subst (λ zs. IsRun c unseen (record c { bufs = zs }))
            (ap (λ r. r.1) (ok-injective _ _ e')) (record { agrees = got.cache; sees = got.views })
      go (no_buffers o all) e' = cc

  lock-IsRun :
      (me i : ℕ) (y : Buf) (xs : List Buf)
      → deref i c.bufs ≡ some y
      → y.refcnt ≢ 0
      → lock_buf me i c.bufs ≡ some xs
      → IsRun c unseen (record c { bufs = xs })
  unfolding lock_buf
  lock-IsRun me i y xs at refs e = go (acquiresleep me y.lock) (sym (rw (at, lock_buf) refl) ∙ e)
    where
      go :
          (o : Option Sleeplock)
          → elim o [ none ↦ none | some lk ↦ some (change i (λ b. record b { lock = lk }) c.bufs) ]
            ≡ some xs
          → IsRun c unseen (record c { bufs = xs })
      go none e' = cc
      go (some lk) e' =
          subst (λ zs. IsRun c unseen (record c { bufs = zs })) (some-injective _ _ e')
            (relock c good i y at refs (λ b. lk))

  unlock-IsRun :
      (me i : ℕ) (y : Buf) (xs : List Buf)
      → deref i c.bufs ≡ some y
      → y.refcnt ≢ 0
      → unlock_buf me i c.bufs ≡ ok xs
      → IsRun c unseen (record c { bufs = xs })
  unfolding unlock_buf
  unlock-IsRun me i y xs at refs e =
      go (holdingsleep me y.lock) (sym (rw (at, unlock_buf) refl) ∙ e)
    where
      go :
          (h : Bool)
          → (if h
              then ok (change i (λ b. record b { lock = releasesleep b.lock }) c.bufs)
              else panic)
            ≡ ok xs
          → IsRun c unseen (record c { bufs = xs })
      go false e' = cc
      go true e' =
          subst (λ zs. IsRun c unseen (record c { bufs = zs })) (ok-injective _ _ e')
            (relock c good i y at refs (λ b. releasesleep b.lock))

-- From a cache whose buffers agree with the disk, each step of a process on a buffer of disk 1 keeps
-- the agreement, and what is seen of the blocks changes only in a write of the holder of a valid
-- buffer: it is then what the holder wrote for the block of the buffer, and as before for the others.
pub step-IsRun :
    (disksize : ℕ) (c : Cache) (e : Event) (c' : Cache)
    → IsCache c.disk c.bufs
    → Step disksize c e c'
    → IsRun c e c'
step-IsRun disksize c _ _ good (get b i xs e) = get-IsRun c good b i xs e
step-IsRun disksize c _ _ good (lock me i y xs at refs e) = lock-IsRun c good me i y xs at refs e
step-IsRun disksize c _ _ good (read me i y c' at refs e) =
    IsSync-IsRun i y.blockno c c' (bread-IsSync i y c good at (refcnt-live y refs) disksize me c' e)
step-IsRun disksize c _ _ good (write me i y bytes at refs holds valid) =
    modify-IsRun c good i y at refs valid bytes
step-IsRun disksize c _ _ good (flush me i y c' at refs valid e) =
    IsSync-IsRun i y.blockno c c' (bwrite-IsSync c good i y at refs valid disksize me c' e)
step-IsRun disksize c _ _ good (unlock me i y xs at refs e) =
    unlock-IsRun c good me i y xs at refs e
step-IsRun disksize c _ _ good (put i y xs at refs e) =
    let p = put_buf-IsPut c.disk i c.bufs y good at refs in
    subst (λ zs. IsRun c unseen (record c { bufs = zs })) (ok-injective _ _ (sym p.1 ∙ e))
      (record { agrees = p.2.cache; sees = p.2.views })

-- The states that steps lead to, with the disk that the writes make.
pub data Runs (disksize : ℕ) (start : Cache) : Cache → (ℕ → ℕ → ℕ) → Type 0 where
  at_start : Runs disksize start start start.disk
  then_step :
      (c c' : Cache) (e : Event) (disk : ℕ → ℕ → ℕ)
      → Runs disksize start c disk
      → Step disksize c e c'
      → Runs disksize start c' (after e disk)

binit-deref : (n j : ℕ) → n ≤ j → deref j (binit n) ≡ none
unfolding binit deref
binit-deref zero j h = refl
binit-deref (suc n) j h =
    let other : (n == j) ≡ false = ground arith in rw other (binit-deref n j (omega arith))

binit-IsApart : (d b n : ℕ) → IsApart d b (binit n)
unfolding binit
binit-IsApart d b zero = no_more
binit-IsApart d b (suc n) = one_more (λ l. cc) (binit-IsApart d b n)

pub binit-IsCache : (disk : ℕ → ℕ → ℕ) (n : ℕ) → IsCache disk (binit n)
unfolding binit
binit-IsCache disk zero = no_buf
binit-IsCache disk (suc n) =
    a_buf (record { on_disk = λ l. cc; dirty_valid = λ e. cc; agrees = λ e. cc })
      (binit-IsApart 0 0 n) (binit-deref n n (omega arith)) (binit-IsCache disk n)

abbrev pub booted : (ℕ → ℕ → ℕ) → Cache
booted disk = record { bufs = binit nbuf; disk = disk }

view-binit : (disk : ℕ → ℕ → ℕ) (n b : ℕ) → view disk (binit n) b ≡ disk b
view-binit disk n b = view_apart disk (binit n) b (binit-IsApart 1 b n)

after_same :
    (e : Event) (f g : ℕ → ℕ → ℕ) → ((b : ℕ) → f b ≡ g b) → (b : ℕ) → after e f b ≡ after e g b
after_same unseen f g same b = same b
after_same (wrote a bytes) f g same b = rw (same b) refl

-- Whatever steps processes take on the cache that binit makes, and in whatever order, buffers and
-- disk agree, and each block is seen as the last write of it left it, or as it is on the disk at the
-- start.
pub Runs-view :
    (disksize : ℕ) (start : ℕ → ℕ → ℕ) (c : Cache) (disk : ℕ → ℕ → ℕ)
    → Runs disksize (booted start) c disk
    → IsCache c.disk c.bufs × ((b : ℕ) → view c.disk c.bufs b ≡ disk b)
Runs-view disksize start _ _ at_start =
    let good = binit-IsCache start nbuf in (good, λ b. view-binit start nbuf b)
Runs-view disksize start _ _ (then_step c c' e disk runs step) =
    let before = Runs-view disksize start c disk runs in
    let r = step-IsRun disksize c e c' before.0 step in
    (r.agrees, λ b. r.sees b ∙ after_same e (view c.disk c.bufs) disk before.1 b)
