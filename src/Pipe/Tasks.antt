-- ===== src/Pipe/Tasks.antt =====
-- A writer and a reader on one pipe: the steps of their calls, and who is woken.

use xv.Common.{ℕ, ◌≡◌, Bool, true, false, List, [], ◌∷◌, length, returns, sleeps, ◌||◌, not}
use xv.Common.Int.{ℤ}
use xv.Pipe.{Chan, nread_chan, nwrite_chan, Pipe, pipewrite_from, ReadResult, piperead, pipeclose}

-- A process at one end: outside the call, about to run, or asleep in it. `A` is what it has to go on
-- with: the bytes that are left for a writer, the bytes wanted for a reader.
pub data Task (A : Type 0) : Type 0 where
  outside : Task A
  ready : A → Task A
  asleep : A → Task A

abbrev pub rouse : {A : Type 0} → Bool → Task A → Task A
rouse true (asleep a) = ready a
rouse true outside = outside
rouse true (ready a) = ready a
rouse false t = t

abbrev pub is_nread : Chan → Bool
is_nread nread_chan = true
is_nread nwrite_chan = false

abbrev pub wakes_reader : List Chan → Bool
wakes_reader [] = false
wakes_reader (c ∷ cs) = is_nread c || wakes_reader cs

abbrev pub wakes_writer : List Chan → Bool
wakes_writer [] = false
wakes_writer (c ∷ cs) = not (is_nread c) || wakes_writer cs

pub record System : Type 0 where
  pub pipe : Pipe
  pub writer : Task (ℕ × List ℕ)
  pub reader : Task ℕ

abbrev pub calm : Pipe → Pipe
calm p = record p { woken = [] }

-- The calls of wakeup that a run has made take effect.
abbrev pub settle : Pipe → Task (ℕ × List ℕ) → Task ℕ → System
settle p w r = record {
  pipe = calm p;
  writer = rouse (wakes_writer p.woken) w;
  reader = rouse (wakes_reader p.woken) r;
}

-- A process that is inside a call holds its end open. The writer is not killed.
pub data Step : System → System → Type 0 where
  call_write :
      (p : Pipe) (r : Task ℕ) (bytes : List ℕ)
      → p.writeopen ≡ true
      → Step
          (record { pipe = p; writer = outside; reader = r })
          (record { pipe = p; writer = ready (length bytes, bytes); reader = r })
  write_returns :
      (p p' : Pipe) (r : Task ℕ) (n : ℕ) (left : List ℕ) (result : ℤ)
      → pipewrite_from n false p left ≡ returns (p', result)
      → Step (record { pipe = p; writer = ready (n, left); reader = r }) (settle p' outside r)
  write_sleeps :
      (p p' : Pipe) (r : Task ℕ) (n : ℕ) (left left' : List ℕ)
      → pipewrite_from n false p left ≡ sleeps (p', left')
      → Step
          (record { pipe = p; writer = ready (n, left); reader = r })
          (settle p' (asleep (n, left')) r)
  call_read :
      (p : Pipe) (w : Task (ℕ × List ℕ)) (n : ℕ)
      → p.readopen ≡ true
      → Step
          (record { pipe = p; writer = w; reader = outside })
          (record { pipe = p; writer = w; reader = ready n })
  read_returns :
      (p p' : Pipe) (w : Task (ℕ × List ℕ)) (n : ℕ) (killed : Bool) (result : ReadResult)
      → piperead n killed p ≡ returns (p', result)
      → Step (record { pipe = p; writer = w; reader = ready n }) (settle p' w outside)
  read_sleeps :
      (p p' : Pipe) (w : Task (ℕ × List ℕ)) (n : ℕ) (killed : Bool)
      → piperead n killed p ≡ sleeps p'
      → Step (record { pipe = p; writer = w; reader = ready n }) (settle p' w (asleep n))
  close_write :
      (p : Pipe) (r : Task ℕ)
      → Step
          (record { pipe = p; writer = outside; reader = r })
          (settle (pipeclose p true).0 outside r)
  close_read :
      (p : Pipe) (w : Task (ℕ × List ℕ))
      → Step
          (record { pipe = p; writer = w; reader = outside })
          (settle (pipeclose p false).0 w outside)

pub data Reach (s : System) : System → Type 0 where
  here : Reach s s
  next : {t u : System} → Reach s t → Step t u → Reach s u
