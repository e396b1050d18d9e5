-- ===== src/Files.antt =====
-- file.c: the table of open files and its reference counts. A `struct file *` is an index into
-- `ftable.file`; the table is changed under `ftable.lock`.
pub mod Count
pub mod Shared
mod Tests
use xv.Common.{
  ℕ, zero, suc, ◌+◌, ◌-◌, Bool, true, false, Option, none, some, List, [], ◌∷◌, ◌==◌, ltb,
  if◌then◌else◌, set, get_elem?, Outcome, ok, panic, ◌>>=◌,
}

pub data FileType : Type 0 where
  fd_none fd_pipe fd_inode : FileType

-- `struct file`; a pointer to a pipe or an inode is a number. `ref` is never negative: filedup and
-- fileclose panic first.
pub record File : Type 0 where
  pub type : FileType
  pub ref : ℕ
  pub readable : Bool
  pub writable : Bool
  pub pipe : ℕ
  pub ip : ℕ
  pub off : ℕ

-- the loop of filealloc from slot `i` on: the first free slot
unfoldable pub free_slot : ℕ → List File → Option (ℕ × File)
free_slot i [] = none
free_slot i (f ∷ fs) = if f.ref == 0 then some (i, f) else free_slot (suc i) fs

unfoldable pub filealloc : List File → Option ℕ × List File
filealloc files = elim (free_slot 0 files) [
  | none ↦ (none, files)
  | some (i, f) ↦ (some i, set files i (record f { ref = 1 }))
]

unfoldable pub filedup : ℕ → List File → Outcome (List File)
filedup i files = elim (get_elem? files i) [
  | none ↦ panic
  | some f ↦ if ltb f.ref 1 then panic else ok (set files i (record f { ref = f.ref + 1 }))
]

-- The part of fileclose under the lock: the file `ff` that is to be closed, if this was its last
-- reference.
unfoldable pub drop_ref : ℕ → List File → Outcome (Option File × List File)
drop_ref i files = elim (get_elem? files i) [
  | none ↦ panic
  | some f ↦
      if ltb f.ref 1
      then panic
      else if ltb 0 (f.ref - 1)
      then ok (none, set files i (record f { ref = f.ref - 1 }))
      else ok (some f, set files i (record f { ref = 0; type = fd_none }))
]

-- pipe.c, and iput between begin_op and end_op, as fileclose uses them
pub record Closers (S : Type 0) : Type 0 where
  pub pipeclose : ℕ → (writable : Bool) → S → Outcome S
  pub iput : ℕ → S → Outcome S

unfoldable pub close_end : {S : Type 0} → Closers S → File → S → Outcome S
close_end closers ff s = elim ff.type [
  | fd_none ↦ ok s
  | fd_pipe ↦ closers.pipeclose ff.pipe ff.writable s
  | fd_inode ↦ closers.iput ff.ip s
]

unfoldable pub fileclose : {S : Type 0} → Closers S → ℕ → List File → S → Outcome (List File × S)
unfolding drop_ref close_end
fileclose closers i files s = drop_ref i files >>= λ r. elim r.0 [
  | none ↦ ok (r.1, s)
  | some ff ↦ close_end closers ff s >>= λ s'. ok (r.1, s')
]
