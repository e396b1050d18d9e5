-- ===== src/Pipe.antt =====
-- pipe.c: the pipe, its two ends and its loops. Every function runs under `p->lock`; `sleep` gives
-- the lock up, so a run ends there (`sleeps`) and goes on from that state at the next wakeup.
pub mod Queue
pub mod Stream
pub mod Tasks
pub mod Awake
pub mod Wakeup
mod Tests
use xv.Common.{
  ℕ, zero, suc, ◌+◌, ◌-◌, ◌%◌, ◌^◌, Bool, true, false, not, ◌&&◌, ◌||◌, List, [], ◌∷◌, ◌++◌, ◌==◌,
  if◌then◌else◌, update, Turn, returns, sleeps,
}
use xv.Common.Int.{ℤ, pos, negsuc}

abbrev pub pipe_size : ℕ
pipe_size = 512

-- The two channels: `&p->nread`, where readers sleep, and `&p->nwrite`, where writers sleep.
pub data Chan : Type 0 where
  nread_chan nwrite_chan : Chan

-- `struct pipe`. `nread` and `nwrite` are 32-bit counters that wrap. `woken` lists the calls of
-- wakeup, the latest first.
pub record Pipe : Type 0 where
  pub bytes : ℕ → ℕ
  pub nread : ℕ
  pub nwrite : ℕ
  pub readopen : Bool
  pub writeopen : Bool
  pub woken : List Chan

abbrev pub u32 : ℕ → ℕ
u32 n = n % 2 ^ 32

abbrev pub wakeup : Chan → Pipe → Pipe
wakeup c p = record p { woken = c ∷ p.woken }

-- What pipealloc stores in the page that it gets.
abbrev pub fresh : (ℕ → ℕ) → Pipe
fresh garbage = record {
  bytes = garbage;
  nread = 0;
  nwrite = 0;
  readopen = true;
  writeopen = true;
  woken = [];
}

-- pipeclose: the pipe, and whether its page is freed.
unfoldable pub pipeclose : Pipe → (writable : Bool) → Pipe × Bool
pipeclose p writable =
    let p' =
      if writable
      then wakeup nread_chan (record p { writeopen = false })
      else wakeup nwrite_chan (record p { readopen = false }) in
    (p', not p'.readopen && not p'.writeopen)

abbrev pub is_full : Pipe → Bool
is_full p = p.nwrite == u32 (p.nread + pipe_size)

abbrev pub is_empty : Pipe → Bool
is_empty p = p.nread == p.nwrite

-- p->data[p->nwrite++ % PIPESIZE] = byte
unfoldable pub put : Pipe → ℕ → Pipe
put p byte = record p {
  bytes = update p.bytes (p.nwrite % pipe_size) byte;
  nwrite = u32 (p.nwrite + 1);
}

-- pipewrite from the head of its loop: `rest` are the bytes addr[i], …, addr[n - 1] still to go. It
-- returns what pipewrite returns, or sleeps on `&p->nwrite` with the bytes that are left.
unfoldable pub pipewrite_from :
    (n : ℕ) (killed : Bool) → Pipe → List ℕ → Turn (Pipe × List ℕ) (Pipe × ℤ)
pipewrite_from n killed p [] = returns (wakeup nread_chan p, pos n)
pipewrite_from n killed p (byte ∷ rest) =
    let more = pipewrite_from n killed (put p byte) rest in
    if is_full p
    then (if not p.readopen || killed
        then returns (p, negsuc 0)
        else sleeps (wakeup nread_chan p, byte ∷ rest))
    else more

-- addr[i] = p->data[p->nread++ % PIPESIZE]
unfoldable pub get : Pipe → ℕ × Pipe
get p = (p.bytes (p.nread % pipe_size), record p { nread = u32 (p.nread + 1) })

-- The copy loop of piperead, with `rounds` rounds left: the bytes that it stores.
unfoldable pub read_loop : (rounds : ℕ) → Pipe → List ℕ × Pipe
read_loop zero p = ([], p)
read_loop (suc rounds) p =
    let (byte, p') = get p in
    let (more, p'') = read_loop rounds p' in if is_empty p then ([], p) else (byte ∷ more, p'')

-- What piperead returns: -1, or the bytes that it stored (their number is the result).
pub data ReadResult : Type 0 where
  failed : ReadResult
  read : List ℕ → ReadResult

-- piperead, started or woken. It sleeps on `&p->nread` with the pipe unchanged.
unfoldable pub piperead : (n : ℕ) (killed : Bool) → Pipe → Turn Pipe (Pipe × ReadResult)
piperead n killed p =
    if is_empty p && p.writeopen
    then (if killed then returns (p, failed) else sleeps p)
    else (let (got, p') = read_loop n p in returns (wakeup nwrite_chan p', read got))
