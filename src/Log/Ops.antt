-- ===== src/Log/Ops.antt =====
-- The operations of log.c. `struct log` loses its lock and its device: every operation below runs
-- under `log.lock` where the source holds it, and there is one disk.
use xv.Common.{
  ℕ, zero, suc, ◌+◌, ◌*◌, ◌-◌, Bool, true, false, some, ◌||◌, update, ltb, leb, ◌==◌, if◌then◌else◌,
  Outcome, ok, panic, Turn, returns, sleeps,
}
use xv.Common.Int.{ℤ, pos, negsuc, inc, dec, ltb_ℤ}
use xv.Log.Disk.{Block, Machine, bread, bwrite}

abbrev pub log_size : ℕ
log_size = 30

abbrev pub max_op_blocks : ℕ
max_op_blocks = 10

-- `struct logheader`, in memory
pub record LogHeader : Type 0 where
  pub n : ℕ
  pub block : ℕ → ℕ

-- `wakeups` counts the calls of wakeup(&log).
pub record Log : Type 0 where
  pub start : ℕ
  pub size : ℕ
  pub outstanding : ℤ
  pub committing : Bool
  pub wakeups : ℕ
  pub lh : LogHeader

-- `for (tail = …; …; tail++)` of install_trans, with `rounds` rounds left
unfoldable pub install_from : Log → (rounds tail : ℕ) → Machine → Machine
install_from l zero tail m = m
install_from l (suc rounds) tail m =
    let lbuf = bread m (l.start + tail + 1) in
    install_from l rounds (suc tail) (bwrite m (l.lh.block tail) lbuf)

unfoldable pub install_trans : Log → Machine → Machine
install_trans l m = install_from l l.lh.n 0 m

-- the loop of read_head: block[i] = lh->block[i]
unfoldable pub copy_in : Block → (rounds i : ℕ) → (ℕ → ℕ) → ℕ → ℕ
copy_in w zero i block = block
copy_in w (suc rounds) i block = copy_in w rounds (suc i) (update block i (w (suc i)))

unfoldable pub read_head : Log → Machine → Log
read_head l m =
    let w = bread m l.start in
    record l { lh = record { n = w 0; block = copy_in w (w 0) 0 l.lh.block } }

-- the loop of write_head: hb->block[i] = block[i]
unfoldable pub copy_out : (ℕ → ℕ) → (rounds i : ℕ) → Block → Block
copy_out block zero i w = w
copy_out block (suc rounds) i w = copy_out block rounds (suc i) (update w (suc i) (block i))

-- the header block that write_head writes over the old one `w`
unfoldable pub header_block : LogHeader → Block → Block
header_block h w = copy_out h.block h.n 0 (update w 0 h.n)

unfoldable pub write_head : Log → Machine → Machine
write_head l m = bwrite m l.start (header_block l.lh (bread m l.start))

abbrev pub clear : Log → Log
clear l = record l { lh = record { n = 0; block = l.lh.block } }

unfoldable pub recover_from_log : Log → Machine → Log × Machine
recover_from_log l m =
    let l' = read_head l m in let m' = install_trans l' m in (clear l', write_head (clear l') m')

-- initlog, given `logstart` and `nlog` of the superblock. A `struct logheader` takes 124 bytes, so
-- the check of its size never fails.
unfoldable pub initlog : (logstart nlog : ℕ) → Log → Machine → Log × Machine
initlog logstart nlog l m = recover_from_log (record l { start = logstart; size = nlog }) m

-- log.lh.n + (log.outstanding + 1) * MAXOPBLOCKS > LOGSIZE
abbrev pub exhausts : ℕ → ℤ → Bool
exhausts n (pos k) = ltb log_size (n + (k + 1) * max_op_blocks)
exhausts n (negsuc k) = ltb (log_size + k * max_op_blocks) n

-- One round of the loop of begin_op: it sleeps on `&log`, or it is through.
unfoldable pub begin_op : Log → Turn Log Log
begin_op l =
    if l.committing
    then sleeps l
    else if exhausts l.lh.n l.outstanding
    then sleeps l
    else returns (record l { outstanding = inc l.outstanding })

-- the loop of write_log
unfoldable pub write_from : Log → (rounds tail : ℕ) → Machine → Machine
write_from l zero tail m = m
write_from l (suc rounds) tail m =
    let from = bread m (l.lh.block tail) in
    write_from l rounds (suc tail) (bwrite m (l.start + tail + 1) from)

unfoldable pub write_log : Log → Machine → Machine
write_log l m = write_from l l.lh.n 0 m

unfoldable pub commit : Log → Machine → Log × Machine
commit l m =
    if ltb 0 l.lh.n
    then (clear l, write_head (clear l) (install_trans l (write_head l (write_log l m))))
    else (l, m)

-- The first part of end_op, up to the release of the lock: the new log and `do_commit`.
unfoldable pub end_op_enter : Log → Outcome (Log × Bool)
end_op_enter l =
    let l' = record l { outstanding = dec l.outstanding } in
    if l.committing then panic else elim l'.outstanding [
      | pos zero ↦ ok (record l' { committing = true }, true)
      | _ ↦ ok (record l' { wakeups = suc l.wakeups }, false)
    ]

unfoldable pub end_op : Log → Machine → Outcome (Log × Machine)
end_op l m = elim (end_op_enter l) [
  | panic ↦ panic
  | ok (l', do_commit) ↦
      if do_commit
      then (let (l'', m') = commit l' m in
          ok (record l'' { committing = false; wakeups = suc l''.wakeups }, m'))
      else ok (l', m)
]

-- the loop of log_write: the first i with block[i] == b->blockno, or n
unfoldable pub find_from : (ℕ → ℕ) → ℕ → (rounds i : ℕ) → ℕ
find_from block b zero i = i
find_from block b (suc rounds) i =
    let rest = find_from block b rounds (suc i) in if block i == b then i else rest

-- The header after log_write has recorded block `b`.
unfoldable pub record_block : LogHeader → ℕ → LogHeader
record_block h b =
    let i = find_from h.block b h.n 0 in
    record { n = if i == h.n then h.n + 1 else h.n; block = update h.block i b }

-- log_write, with the caller's change of the buffer: the buffer of `b` holds `d` from now on.
unfoldable pub log_write : Log → Machine → ℕ → Block → Outcome (Log × Machine)
log_write l m b d =
    if leb log_size l.lh.n || leb (l.size - 1) l.lh.n
    then panic
    else if ltb_ℤ l.outstanding (pos 1)
    then panic
    else ok (
      record l { lh = record_block l.lh b },
      record m { cache = update m.cache b (some (record { words = d; dirty = true })) },
    )
