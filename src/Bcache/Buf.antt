-- ===== src/Bcache/Buf.antt =====
-- `struct buf`, the list of buffers from the one used last, and the transfer of one buffer.
use xv.Common.{
  ℕ, zero, suc, Bool, true, false, not, ◌&&◌, Option, none, some, List, [], ◌∷◌, ◌==◌, ltb,
  if◌then◌else◌, update, Outcome, ok, panic, ◌>>=◌,
}
use xv.Bcache.Sleep.{Sleeplock, initsleeplock, holdingsleep}

-- A buffer: `index` is its place in bcache.buf, `valid` and `dirty` are its flags B_VALID and
-- B_DIRTY. The order of the list stands for prev and next.
pub record Buf : Type 0 where
  pub index : ℕ
  pub valid : Bool
  pub dirty : Bool
  pub dev : ℕ
  pub blockno : ℕ
  pub lock : Sleeplock
  pub refcnt : ℕ
  pub bytes : ℕ → ℕ

abbrev pub nbuf : ℕ
nbuf = 30

-- The list that binit's loop makes of the first `n` buffers, each put before the others.
unfoldable pub binit : (n : ℕ) → List Buf
binit zero = []
binit (suc n) =
    record {
      index = n;
      valid = false;
      dirty = false;
      dev = 0;
      blockno = 0;
      lock = initsleeplock;
      refcnt = 0;
      bytes = λ i. 0;
    }
    ∷ binit n

-- *b, for the buffer with index `i`
unfoldable pub deref : (i : ℕ) → List Buf → Option Buf
deref i [] = none
deref i (x ∷ xs) = if x.index == i then some x else deref i xs

-- *b = f(*b)
unfoldable pub change : (i : ℕ) → (Buf → Buf) → List Buf → List Buf
change i f [] = []
change i f (x ∷ xs) = if x.index == i then f x ∷ xs else x ∷ change i f xs

-- The buffers and the blocks of the disk.
pub record Cache : Type 0 where
  pub bufs : List Buf
  pub disk : ℕ → ℕ → ℕ

-- iderw of memide.c on the buffer `b`: the buffer and the disk after it.
unfoldable pub transfer : (disksize me : ℕ) → Buf → (ℕ → ℕ → ℕ) → Outcome (Buf × (ℕ → ℕ → ℕ))
unfolding holdingsleep
transfer disksize me b disk =
    if not (holdingsleep me b.lock)
    then panic
    else if b.valid && not b.dirty
    then panic
    else if not (b.dev == 1)
    then panic
    else if not (ltb b.blockno disksize)
    then panic
    else if b.dirty
    then ok (record b { dirty = false; valid = true }, update disk b.blockno b.bytes)
    else ok (record b { bytes = disk b.blockno; valid = true }, disk)

-- iderw(b), for the buffer with index `i`
unfoldable pub iderw : (disksize me i : ℕ) → Cache → Outcome Cache
unfolding deref change transfer
iderw disksize me i c = elim (deref i c.bufs) [
  | none ↦ panic
  | some b ↦ transfer disksize me b c.disk >>= λ (b', disk').
      ok (record { bufs = change i (λ _. b') c.bufs; disk = disk' })
]
