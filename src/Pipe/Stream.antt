-- ===== src/Pipe/Stream.antt =====
-- What a run of pipewrite or piperead does to the queue of bytes.

use mathlib.Core.List.{append-nil, append_assoc}
use xv.Common.{
  ℕ, zero, suc, ◌<◌, ◌≡◌, refl, sym, ap, ◌∙◌, ◌⊎◌, arith, Bool, true, false, not, ◌&&◌, ◌||◌, List,
  [], ◌∷◌, ◌++◌, if◌then◌else◌, length, min, Bool-cases, inl, inr, Turn, returns, sleeps,
}
use xv.Common.Int.{ℤ, pos, negsuc}
use xv.Pipe.{
  pipe_size, nread_chan, nwrite_chan, Pipe, wakeup, is_full, is_empty, put, get, pipewrite_from,
  read_loop, ReadResult, failed, read, piperead,
}
use xv.Pipe.Queue.{
  count, contents, IsValid, is_full_iff, is_empty_iff, put-IsValid, contents-put, get-IsValid,
  count-get, contents-get,
}

-- The bytes `sent` went to the end of the queue, and the ends stayed as they were. (The calls of
-- wakeup at the end of a run are stated beside this.)
pub record Sent (p : Pipe) (sent : List ℕ) (p' : Pipe) : Type 0 where
  pub valid : IsValid p'
  pub queue : contents p' ≡ contents p ++ sent
  pub ends : (p'.readopen ≡ p.readopen) × (p'.writeopen ≡ p.writeopen)
  pub woken : p'.woken ≡ p.woken

-- The outcomes of pipewrite over the bytes `rest`.
pub data Written (n : ℕ) (killed : Bool) (p : Pipe) (rest : List ℕ)
    : Turn (Pipe × List ℕ) (Pipe × ℤ) → Type 0 where
  -- all bytes are in the queue, and the readers have been woken
  done :
      (p' : Pipe) → Sent p rest p' → Written n killed p rest (returns (wakeup nread_chan p', pos n))
  -- -1: the queue is full and nobody will read it, or the caller is killed
  broken :
      (p' : Pipe) (sent left : List ℕ)
      → sent ++ left ≡ rest
      → Sent p sent p'
      → count p' ≡ pipe_size
      → (p.readopen ≡ false) ⊎ (killed ≡ true)
      → Written n killed p rest (returns (p', negsuc 0))
  -- the queue is full, the readers have been woken, and `left` is still to be written
  waits :
      (p' : Pipe) (sent left : List ℕ)
      → sent ++ left ≡ rest
      → Sent p sent p'
      → count p' ≡ pipe_size
      → (p.readopen ≡ true) × (killed ≡ false)
      → Written n killed p rest (sleeps (wakeup nread_chan p', left))

Sent-put :
    (p : Pipe) (byte : ℕ) (rest : List ℕ) (p' : Pipe)
    → IsValid p
    → count p < pipe_size
    → Sent (put p byte) rest p'
    → Sent p (byte ∷ rest) p'
unfolding put
Sent-put p byte rest p' v room s = record {
  valid = s.valid;
  queue =
      s.queue
      ∙ ap (λ q. q ++ rest) (contents-put p byte v room)
      ∙ append_assoc (contents p) (byte ∷ []) rest;
  ends = s.ends;
  woken = s.woken;
}

Written-put :
    {n : ℕ} {killed : Bool} (p : Pipe) (byte : ℕ) (rest : List ℕ)
    {t : Turn (Pipe × List ℕ) (Pipe × ℤ)}
    → IsValid p
    → count p < pipe_size
    → Written n killed (put p byte) rest t
    → Written n killed p (byte ∷ rest) t
unfolding put
Written-put p byte rest v room (done p' s) = done p' (Sent-put p byte rest p' v room s)
Written-put p byte rest v room (broken p' sent left e s full why) =
    broken p' (byte ∷ sent) left (ap (λ l. byte ∷ l) e) (Sent-put p byte sent p' v room s) full why
Written-put p byte rest v room (waits p' sent left e s full alive) =
    waits p' (byte ∷ sent) left (ap (λ l. byte ∷ l) e) (Sent-put p byte sent p' v room s) full alive

nothing-Sent : (p : Pipe) → IsValid p → Sent p [] p
nothing-Sent p v = record {
  valid = v;
  queue = sym (append-nil _);
  ends = (refl, refl);
  woken = refl;
}

-- On a pipe with valid counters, pipewrite appends to the queue the bytes that it sends, in order.
-- It returns n when all are sent, with the readers woken; it stops early only at a full queue,
-- returning -1 if nobody reads or it is killed, and sleeping otherwise, and then with the readers
-- woken.
pub pipewrite-Written :
    (n : ℕ) (killed : Bool) (p : Pipe) (rest : List ℕ)
    → IsValid p
    → Written n killed p rest (pipewrite_from n killed p rest)
unfolding pipewrite_from
pipewrite-Written n killed p [] v = done p (nothing-Sent p v)
pipewrite-Written n killed p (byte ∷ rest) v = elim (Bool-cases (is_full p)) [
  | inr room ↦
      let short : count p < pipe_size = ground (arith, is_full_iff v) in
      rw room (
        Written-put p byte rest v short
          (pipewrite-Written n killed (put p byte) rest (put-IsValid p byte v short)))
  | inl full ↦
      let size : count p ≡ pipe_size = ground (arith, is_full_iff v) in
      elim (Bool-cases (not p.readopen || killed)) [
        | inl stop ↦
            rw (full, stop) (broken p [] (byte ∷ rest) refl (nothing-Sent p v) size (ground arith))
        | inr go ↦
            rw (full, go)
              (waits p [] (byte ∷ rest) refl (nothing-Sent p v) size (ground arith, ground arith))
      ]
]

-- The bytes `got` came from the front of the queue.
pub record Got (p : Pipe) (rounds : ℕ) (got : List ℕ) (p' : Pipe) : Type 0 where
  pub valid : IsValid p'
  pub queue : contents p ≡ got ++ contents p'
  pub number : length got ≡ min rounds (count p)
  pub ends : (p'.readopen ≡ p.readopen) × (p'.writeopen ≡ p.writeopen)
  pub woken : p'.woken ≡ p.woken

get_ends :
    (p : Pipe)
    → ((get p).1.readopen ≡ p.readopen)
      × ((get p).1.writeopen ≡ p.writeopen)
      × ((get p).1.woken ≡ p.woken)
unfolding get
get_ends p = (refl, refl, refl)

read_loop-Got :
    (rounds : ℕ) (p : Pipe) → IsValid p → Got p rounds (read_loop rounds p).0 (read_loop rounds p).1
unfolding read_loop
read_loop-Got zero p v = record {
  valid = v;
  queue = refl;
  number = omega arith;
  ends = (refl, refl);
  woken = refl;
}
read_loop-Got (suc rounds) p v = elim (Bool-cases (is_empty p)) [
  | inl none ↦
      let zero_left : count p ≡ 0 = ground (arith, is_empty_iff v) in
      rw none (record {
        valid = v;
        queue = refl;
        number = omega arith;
        ends = (refl, refl);
        woken = refl;
      })
  | inr more ↦
      let left : 0 < count p = ground (arith, is_empty_iff v) in
      let g = read_loop-Got rounds (get p).1 (get-IsValid p v left) in
      rw more (record {
        valid = g.valid;
        queue = contents-get p v left ∙ ap (λ l. (get p).0 ∷ l) g.queue;
        number = omega (arith, g.number, count-get p v left);
        ends = (g.ends.0 ∙ (get_ends p).0, g.ends.1 ∙ (get_ends p).1);
        woken = g.woken ∙ (get_ends p).2;
      })
]

-- The outcomes of piperead.
pub data Read (n : ℕ) (killed : Bool) (p : Pipe) : Turn Pipe (Pipe × ReadResult) → Type 0 where
  -- nothing to read yet, and the write end is open: sleep, or fail if killed
  waits : count p ≡ 0 → p.writeopen ≡ true → killed ≡ false → Read n killed p (sleeps p)
  broken : count p ≡ 0 → p.writeopen ≡ true → killed ≡ true → Read n killed p (returns (p, failed))
  -- bytes from the front, as many as there are up to n; none only at the end of the stream
  done :
      (p' : Pipe) (got : List ℕ)
      → Got p n got p'
      → (count p ≡ 0 → p.writeopen ≡ false)
      → Read n killed p (returns (wakeup nwrite_chan p', read got))

-- On a pipe with valid counters, piperead takes from the front of the queue as many bytes as there are, up to n, wakes the
-- writers, and leaves the rest. On an empty pipe it sleeps while the write end is open, fails if
-- killed, and returns no bytes once the write end is closed.
pub piperead-Read :
    (n : ℕ) (killed : Bool) (p : Pipe) → IsValid p → Read n killed p (piperead n killed p)
unfolding piperead
piperead-Read n killed p v = elim (Bool-cases (is_empty p && p.writeopen)) [
  | inl wait ↦ rw wait (idle killed (ground (arith, is_empty_iff v)) (ground arith))
  | inr go ↦ rw go (
      done (read_loop n p).1 (read_loop n p).0 (read_loop-Got n p v)
        (λ e. ground (arith, is_empty_iff v)))
]
  where
    idle :
        (k : Bool)
        → count p ≡ 0
        → p.writeopen ≡ true
        → Read n k p (if k then returns (p, failed) else sleeps p)
    idle true none open_end = broken none open_end refl
    idle false none open_end = waits none open_end refl
