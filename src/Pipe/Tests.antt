-- ===== src/Pipe/Tests.antt =====
-- The theorems on pipe.c at concrete pipes; the counters of the first are about to wrap.
use xv.Common.{
  ℕ, ◌+◌, ◌%◌, ◌≤◌, ◌≡◌, ◌≢◌, refl, ◌∙◌, arith, true, false, List, [], ◌∷◌, ◌++◌, length, replicate,
  length-replicate, returns, sleeps,
}
use xv.Common.Int.{negsuc}
use xv.Pipe.{pipe_size, nread_chan, Pipe, fresh, wakeup, is_full, put, pipewrite_from, piperead}
use xv.Pipe.Queue.{count, IsValid, is_full_iff, put-IsValid, count-put}
use xv.Pipe.Stream.{Written, Read, pipewrite-Written, piperead-Read}
use xv.Pipe.Tasks.{
  outside, asleep, System, settle, call_write, write_sleeps, call_read, read_sleeps, Reach, here,
  next,
}
use xv.Pipe.Wakeup.{opened, no_deadlock, killed_writer}

abbrev garbage : ℕ → ℕ
garbage = λ i. i % 256

-- 511 bytes, across the wrap
abbrev nearly_full : Pipe
nearly_full = record (fresh garbage) { nread = 4294967295; nwrite = 510 }

nearly_full-IsValid : IsValid nearly_full
nearly_full-IsValid = record {
  nread_word = omega arith;
  nwrite_word = omega arith;
  bounded = omega arith;
}

pipewrite_example :
    Written 3 false nearly_full
      (1 ∷ 2 ∷ 3 ∷ [])
      (pipewrite_from 3 false nearly_full (1 ∷ 2 ∷ 3 ∷ []))
pipewrite_example = pipewrite-Written 3 false nearly_full (1 ∷ 2 ∷ 3 ∷ []) nearly_full-IsValid

piperead_example : Read 5 false nearly_full (piperead 5 false nearly_full)
piperead_example = piperead-Read 5 false nearly_full nearly_full-IsValid

killed_writer_example :
    (p' : Pipe) × (pipewrite_from 2 true nearly_full (1 ∷ 2 ∷ []) ≡ returns (p', negsuc 0))
    × (count p' ≡ pipe_size)
    × (p'.woken ≡ [])
killed_writer_example = killed_writer 2 nearly_full (1 ∷ 2 ∷ []) nearly_full-IsValid (omega arith)

-- A writer of 513 bytes on a new pipe.
abbrev fill : List ℕ → Pipe → Pipe
fill [] p = p
fill (x ∷ xs) p = fill xs (put p x)

fill_lem :
    (n : ℕ) (p : Pipe) (bytes rest : List ℕ)
    → IsValid p
    → length bytes + count p ≤ pipe_size
    → IsValid (fill bytes p)
      × (count (fill bytes p) ≡ length bytes + count p)
      × (pipewrite_from n false p (bytes ++ rest) ≡ pipewrite_from n false (fill bytes p) rest)
unfolding pipewrite_from
fill_lem n p [] rest v h = (v, omega arith, refl)
fill_lem n p (x ∷ xs) rest v h =
    let room : is_full p ≡ false = ground (arith, is_full_iff v) in
    let (v', c, e) =
      fill_lem n (put p x) xs rest (put-IsValid p x v (omega arith))
        (omega (arith, count-put p x v (omega arith))) in
    (v', omega (arith, c, count-put p x v (omega arith)), rw room e)

abbrev zeros : List ℕ
zeros = replicate 512 0

length-zeros : length zeros ≡ 512
length-zeros = length-replicate {A = ℕ} 512 0

abbrev full_pipe : Pipe
full_pipe = fill zeros (fresh garbage)

put-flags : (p : Pipe) (x : ℕ) → ((put p x).readopen ≡ p.readopen) × ((put p x).woken ≡ p.woken)
unfolding put
put-flags p x = (refl, refl)

fill-flags :
    (bytes : List ℕ) (p : Pipe)
    → ((fill bytes p).readopen ≡ p.readopen) × ((fill bytes p).woken ≡ p.woken)
fill-flags [] p = (refl, refl)
fill-flags (x ∷ xs) p =
    let (a, b) = fill-flags xs (put p x) in (a ∙ (put-flags p x).0, b ∙ (put-flags p x).1)

blocked :
    pipewrite_from 513 false (fresh garbage) (zeros ++ (9 ∷ []))
    ≡ sleeps (wakeup nread_chan full_pipe, 9 ∷ [])
unfolding pipewrite_from
blocked =
    let (v, c, e) =
      fill_lem 513 (fresh garbage) zeros (9 ∷ [])
        (record { nread_word = omega arith; nwrite_word = omega arith; bounded = omega arith })
        (omega (arith, length-zeros)) in
    let full : is_full full_pipe ≡ true = ground (arith, is_full_iff v, length-zeros) in
    e ∙ rw full (rw (fill-flags zeros (fresh garbage)).0 refl)

abbrev start : System
start = opened garbage

abbrev stuck : System
stuck = settle (wakeup nread_chan full_pipe) (asleep (513, 9 ∷ [])) outside

Reach-stuck : Reach start stuck
Reach-stuck = next (next here (call_write (fresh garbage) outside (zeros ++ (9 ∷ [])) refl)) (
    write_sleeps (fresh garbage) (wakeup nread_chan full_pipe) outside 513 (zeros ++ (9 ∷ []))
      (9 ∷ []) blocked)

stuck_writer : stuck.writer ≡ asleep (513, 9 ∷ [])
unfolding put
stuck_writer = refl

no_deadlock_example : stuck.reader ≢ asleep 4
no_deadlock_example = no_deadlock garbage 4 Reach-stuck stuck_writer

-- A reader that comes first.
abbrev waiting : System
waiting = record start { reader = asleep 4 }

Reach-waiting : Reach start waiting
unfolding piperead
Reach-waiting =
    next (next here (call_read (fresh garbage) outside 4 refl))
      (read_sleeps (fresh garbage) (fresh garbage) outside 4 false refl)
