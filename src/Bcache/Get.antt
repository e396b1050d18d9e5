-- ===== src/Bcache/Get.antt =====
-- bget and bread of bio.c.
use xv.Common.{
  ℕ, ◌+◌, ◌%◌, ◌^◌, Bool, false, not, ◌&&◌, Option, none, some, List, [], ◌∷◌, ◌==◌, if◌then◌else◌,
  Outcome, ok, panic,
}
use xv.Bcache.Sleep.{acquiresleep}
use xv.Bcache.Buf.{Buf, Cache, deref, change, iderw}

unfoldable pub matches : (dev blockno : ℕ) → Buf → Bool
matches dev blockno b = (b.dev == dev) && (b.blockno == blockno)

-- The first loop of bget: the buffer that caches the block, with one more reference.
unfoldable pub cached : (dev blockno : ℕ) → List Buf → Option (ℕ × List Buf)
unfolding matches
cached dev blockno [] = none
cached dev blockno (x ∷ xs) =
    let rest = cached dev blockno xs in
    if matches dev blockno x
    then some (x.index, record x { refcnt = (x.refcnt + 1) % 2 ^ 32 } ∷ xs)
    else elim rest [ none ↦ none | some r ↦ some (r.0, x ∷ r.1) ]

-- The second loop, from the end of the list: an unused buffer, made a buffer of the block.
unfoldable pub recycle : (dev blockno : ℕ) → List Buf → Option (ℕ × List Buf)
recycle dev blockno [] = none
recycle dev blockno (x ∷ xs) = elim (recycle dev blockno xs) [
  | some r ↦ some (r.0, x ∷ r.1)
  | none ↦
      if (x.refcnt == 0) && not x.dirty
      then some (
        x.index,
        record x { dev = dev; blockno = blockno; valid = false; dirty = false; refcnt = 1 } ∷ xs,
      )
      else none
]

-- bget up to acquiresleep: what it does under bcache.lock
unfoldable pub bget : (dev blockno : ℕ) → List Buf → Outcome (ℕ × List Buf)
unfolding cached recycle
bget dev blockno bufs = elim (cached dev blockno bufs) [
  | some r ↦ ok r
  | none ↦ elim (recycle dev blockno bufs) [ some r ↦ ok r | none ↦ panic ]
]

-- acquiresleep(&b->lock), for the buffer with index `i`: none when the process has to sleep
unfoldable pub lock_buf : (me i : ℕ) → List Buf → Option (List Buf)
unfolding deref change acquiresleep
lock_buf me i bufs = elim (deref i bufs) [
  | none ↦ none
  | some b ↦ elim (acquiresleep me b.lock) [
    | none ↦ none
    | some lk ↦ some (change i (λ b'. record b' { lock = lk }) bufs)
  ]
]

-- bread after bget, with the buffer locked
unfoldable pub bread : (disksize me i : ℕ) → Cache → Outcome Cache
unfolding deref iderw
bread disksize me i c = elim (deref i c.bufs) [
  | none ↦ panic
  | some b ↦ if b.valid then ok c else iderw disksize me i c
]
