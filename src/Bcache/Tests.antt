-- ===== src/Bcache/Tests.antt =====
-- A process reads block 7 through the cache, writes it and lets go of its buffer.
use xv.Common.{ℕ, ◌+◌, ◌≡◌, refl, Bool, true, false, List, update}
use xv.Bcache.Sleep.{initsleeplock, acquiresleep, holdingsleep}
use xv.Bcache.Buf.{Buf, Cache, deref, change, binit, nbuf, transfer, iderw}
use xv.Bcache.Get.{matches, cached, recycle, bget, lock_buf, bread}
use xv.Bcache.Release.{modify}
use xv.Bcache.View.{view, IsCache}
use xv.Bcache.Recycle.{Gets, bget-Gets}
use xv.Bcache.Steps.{get, lock, read, write}
use xv.Bcache.Runs.{Runs, at_start, then_step, booted, binit-IsCache, Runs-view}

abbrev contents : ℕ → ℕ → ℕ
contents b i = b + i

abbrev nines : ℕ → ℕ
nines i = 9

bget-Gets_example : Gets contents 7 (binit nbuf) (bget 1 7 (binit nbuf))
bget-Gets_example = bget-Gets contents 7 (binit nbuf) (binit-IsCache contents nbuf)

-- buffer 0, which the second loop of bget finds first, in the states of the process
abbrev first_buf : (valid dirty : Bool) (bytes : ℕ → ℕ) → Buf
first_buf valid dirty bytes = record {
  index = 0;
  valid = valid;
  dirty = dirty;
  dev = 1;
  blockno = 7;
  lock = record { locked = true; pid = 5 };
  refcnt = 1;
  bytes = bytes;
}

abbrev got_buf : Buf
got_buf = record (first_buf false false (λ i. 0)) { lock = initsleeplock }

-- the other buffers, which do not change
abbrev in_cache : Buf → List Buf
unfolding binit change
in_cache y = change 0 (λ b. y) (binit nbuf)

abbrev in_state : Buf → Cache
in_state y = record { bufs = in_cache y; disk = contents }

to_got : Runs 100 (booted contents) (in_state got_buf) contents
unfolding bget cached recycle matches binit change
to_got = then_step _ _ _ _ at_start (get 7 0 (in_cache got_buf) refl)

to_locked : Runs 100 (booted contents) (in_state (first_buf false false (λ i. 0))) contents
unfolding lock_buf deref change binit acquiresleep
to_locked = then_step _ _ _ _ to_got (lock 5 0 got_buf _ refl (λ e. cc) refl)

abbrev read_buf : Buf
read_buf = first_buf true false (contents 7)

to_read : Runs 100 (booted contents) (in_state read_buf) contents
unfolding bread iderw transfer deref change binit holdingsleep
to_read =
    then_step _ _ _ _ to_locked (read 5 0 (first_buf false false (λ i. 0)) _ refl (λ e. cc) refl)

to_written :
    Runs 100 (booted contents) (in_state (first_buf true true nines)) (update contents 7 nines)
unfolding modify deref change binit holdingsleep
to_written = then_step _ _ _ _ to_read (write 5 0 read_buf nines refl (λ e. cc) refl refl)

Runs-view_example :
    IsCache contents (in_cache (first_buf true true nines))
    × ((b : ℕ) → view contents (in_cache (first_buf true true nines)) b ≡ update contents 7 nines b)
Runs-view_example =
    Runs-view 100 contents (in_state (first_buf true true nines)) (update contents 7 nines)
      to_written
