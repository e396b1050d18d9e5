-- ===== src/Bcache/Release.antt =====
-- bwrite and brelse of bio.c, and what log_write does to a buffer.
use xv.Common.{
  ℕ, ◌+◌, ◌-◌, ◌%◌, ◌^◌, true, none, some, List, [], ◌∷◌, ◌==◌, if◌then◌else◌, Outcome, ok, panic,
}
use xv.Bcache.Sleep.{releasesleep, holdingsleep}
use xv.Bcache.Buf.{Buf, Cache, deref, change, iderw}

unfoldable pub bwrite : (disksize me i : ℕ) → Cache → Outcome Cache
unfolding deref change iderw holdingsleep
bwrite disksize me i c = elim (deref i c.bufs) [
  | none ↦ panic
  | some b ↦
      if holdingsleep me b.lock
      then iderw disksize me i
          (record c { bufs = change i (λ b'. record b' { dirty = true }) c.bufs })
      else panic
]

-- The holder's new contents of a buffer, and the flag that log_write sets.
unfoldable pub modify : (i : ℕ) (bytes : ℕ → ℕ) → List Buf → List Buf
unfolding change
modify i bytes bufs = change i (λ b. record b { bytes = bytes; dirty = true }) bufs

-- brelse up to its call of releasesleep, which is in it
unfoldable pub unlock_buf : (me i : ℕ) → List Buf → Outcome (List Buf)
unfolding deref change holdingsleep
unlock_buf me i bufs = elim (deref i bufs) [
  | none ↦ panic
  | some b ↦
      if holdingsleep me b.lock
      then ok (change i (λ b'. record b' { lock = releasesleep b'.lock }) bufs)
      else panic
]

-- b->next->prev = b->prev; b->prev->next = b->next
unfoldable pub unlink : (i : ℕ) → List Buf → List Buf
unlink i [] = []
unlink i (x ∷ xs) = if x.index == i then xs else x ∷ unlink i xs

-- --b->refcnt
abbrev pub drop_ref : Buf → Buf
drop_ref b = record b { refcnt = (b.refcnt + 2 ^ 32 - 1) % 2 ^ 32 }

-- brelse from its call of acquire on: one reference less, and without references to the front
unfoldable pub put_buf : (i : ℕ) → List Buf → Outcome (List Buf)
unfolding deref change unlink
put_buf i bufs = elim (deref i bufs) [
  | none ↦ panic
  | some b ↦
      if (drop_ref b).refcnt == 0
      then ok (drop_ref b ∷ unlink i bufs)
      else ok (change i drop_ref bufs)
]
