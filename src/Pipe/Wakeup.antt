-- ===== src/Pipe/Wakeup.antt =====
-- No wakeup is lost between a writer and a reader on one pipe.
use mathlib.Core.Path.{subst}
use xv.Common.{
  ℕ, ◌+◌, ◌<◌, ◌≡◌, refl, ◌∙◌, arith, ◌≢◌, true, List, [], ◌∷◌, length, returns, Bool-cases, inl,
  inr,
}
use xv.Common.Int.{negsuc}
use xv.Pipe.{pipe_size, Pipe, fresh, is_full, put, pipewrite_from}
use xv.Pipe.Queue.{count, IsValid, is_full_iff, put-IsValid, count-put}
use xv.Pipe.Tasks.{outside, asleep, System, Reach, here, next}
use xv.Pipe.Awake.{WriterWaits, ReaderWaits, woken-put, IsAwake, Step-IsAwake}

-- A pipe from pipealloc, both ends open and nobody in a call.
abbrev pub opened : (ℕ → ℕ) → System
opened garbage = record { pipe = fresh garbage; writer = outside; reader = outside }

Reach-IsAwake : {s t : System} → IsAwake s → Reach s t → IsAwake t
Reach-IsAwake h here = h
Reach-IsAwake h (next r st) = Step-IsAwake st (Reach-IsAwake h r)

opened-IsAwake : (garbage : ℕ → ℕ) → IsAwake (opened garbage)
opened-IsAwake garbage = record { valid = omega arith; quiet = refl; writer = tt; reader = tt }

-- In any run of one writer that is not killed and one reader on a new pipe: a writer that sleeps
-- has a full pipe, with its read end open.
pub sleeping_writer :
    {s : System} {left : ℕ × List ℕ} (garbage : ℕ → ℕ)
    → Reach (opened garbage) s
    → s.writer ≡ asleep left
    → (count s.pipe ≡ pipe_size) × (s.pipe.readopen ≡ true)
sleeping_writer {s} garbage reach e =
    let w = subst (WriterWaits s.pipe) e (Reach-IsAwake (opened-IsAwake garbage) reach).writer in
    (w.1, w.2)

-- In any run of one writer that is not killed and one reader on a new pipe: a reader that sleeps
-- has an empty pipe, with its write end open.
pub sleeping_reader :
    {s : System} {wanted : ℕ} (garbage : ℕ → ℕ)
    → Reach (opened garbage) s
    → s.reader ≡ asleep wanted
    → (count s.pipe ≡ 0) × (s.pipe.writeopen ≡ true)
sleeping_reader {s} garbage reach e =
    let r = subst (ReaderWaits s.pipe) e (Reach-IsAwake (opened-IsAwake garbage) reach).reader in
    (r.1, r.2)

-- In any run of one writer that is not killed and one reader on a new pipe, the two never sleep at
-- the same time.
pub no_deadlock :
    {s : System} {left : ℕ × List ℕ} (garbage : ℕ → ℕ) (n : ℕ)
    → Reach (opened garbage) s
    → s.writer ≡ asleep left
    → s.reader ≢ asleep n
no_deadlock garbage n reach e e' =
    omega (arith, (sleeping_writer garbage reach e).0, (sleeping_reader garbage reach e').0)

-- A killed writer with more bytes than there is room, on a pipe with valid counters, fills the pipe
-- and returns -1 with no call of wakeup.
pub killed_writer :
    (n : ℕ) (p : Pipe) (bytes : List ℕ)
    → IsValid p
    → pipe_size < count p + length bytes
    → (p' : Pipe) × (pipewrite_from n true p bytes ≡ returns (p', negsuc 0))
      × (count p' ≡ pipe_size)
      × (p'.woken ≡ p.woken)
unfolding pipewrite_from
killed_writer n p [] v h = absurd (omega arith)
killed_writer n p (byte ∷ rest) v h = elim (Bool-cases (is_full p)) [
  | inl full ↦ rw full (p, ground arith, ground (arith, is_full_iff v), refl)
  | inr room ↦
      let short : count p < pipe_size = ground (arith, is_full_iff v) in
      rw room (
        let (p', e, c, w) =
          killed_writer n (put p byte) rest (put-IsValid p byte v short)
            (omega (arith, count-put p byte v short)) in
        (p', e, c, w ∙ woken-put p byte))
]
