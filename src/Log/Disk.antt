-- ===== src/Log/Disk.antt =====
-- The disk and the buffer cache as log.c sees them through bio.c. A block is its words: the C
-- code casts `buf->data` to `struct logheader`, whose `n` is word 0 and `block[i]` word `i + 1`.
-- `power` is the number of block writes left until the machine loses power: from then on
-- writes have no effect on the disk. One block write is atomic (a block is a disk sector).
use xv.Common.{ℕ, zero, suc, ◌-◌, Bool, false, Option, none, some, update}

abbrev pub Block : Type 0
Block = ℕ → ℕ

-- `struct buf` in the cache: the data, and the flag B_DIRTY, which pins the buffer.
pub record Buf : Type 0 where
  pub words : Block
  pub dirty : Bool

pub record Machine : Type 0 where
  pub disk : ℕ → Block
  pub cache : ℕ → Option Buf
  pub power : ℕ

abbrev pub view : Option Buf → Block → Block
view none d = d
view (some b) d = b.words

-- `bread`: the cached copy, or what the disk holds.
abbrev pub bread : Machine → ℕ → Block
bread m b = view (m.cache b) (m.disk b)

abbrev pub store : ℕ → (ℕ → Block) → ℕ → Block → ℕ → Block
store zero disk b d = disk
store (suc k) disk b d = update disk b d

-- Fill the buffer of block `b` with `d`, then `bwrite` it: the disk gets the block, and
-- `iderw` clears B_DIRTY.
unfoldable pub bwrite : Machine → ℕ → Block → Machine
bwrite m b d = record {
  disk = store m.power m.disk b d;
  cache = update m.cache b (some (record { words = d; dirty = false }));
  power = m.power - 1;
}
