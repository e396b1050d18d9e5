-- ===== src/Log/Calls.antt =====
-- Several file-system calls at once: the reservation that begin_op makes for each. Every call is
-- one that keeps to its budget of MAXOPBLOCKS calls of log_write; the steps of the calls, each under
-- `log.lock`, come in any order, and a commit runs as one step while others sleep in begin_op.

use xv.Common.{
  ap, ℕ, suc, ◌+◌, ◌*◌, ◌≤◌, ◌≡◌, refl, arith, Bool, true, false, List, [], ◌∷◌, ◌++◌, ok, returns,
  length,
}
use xv.Log.Disk.{Block, Machine}
use xv.Log.Ops.{max_op_blocks, Log, begin_op, log_write, end_op_enter, commit}

-- `ops` holds, for each outstanding call, how often it may still call log_write.
pub record System : Type 0 where
  pub log : Log
  pub machine : Machine
  pub ops : List ℕ

pub data Step : System → System → Type 0 where
  begin :
      (s : System) (l : Log)
      → begin_op s.log ≡ returns l
      → Step s (record s { log = l; ops = max_op_blocks ∷ s.ops })
  write :
      (s : System) (before after : List ℕ) (k b : ℕ) (d : Block) (l : Log) (m : Machine)
      → s.ops ≡ before ++ (suc k ∷ after)
      → log_write s.log s.machine b d ≡ ok (l, m)
      → Step s (record { log = l; machine = m; ops = before ++ (k ∷ after) })
  finish :
      (s : System) (before after : List ℕ) (k : ℕ) (l : Log) (do_commit : Bool)
      → s.ops ≡ before ++ (k ∷ after)
      → end_op_enter s.log ≡ ok (l, do_commit)
      → Step s (record s { log = l; ops = before ++ after })
  committed :
      (s : System)
      → s.log.committing ≡ true
      → Step s (record s {
        log = record (commit s.log s.machine).0 {
          committing = false;
          wakeups = suc (commit s.log s.machine).0.wakeups;
        };
        machine = (commit s.log s.machine).1;
      })

pub data Reach (s : System) : System → Type 0 where
  here : Reach s s
  next : {t u : System} → Reach s t → Step t u → Reach s u

abbrev pub total : List ℕ → ℕ
total [] = 0
total (k ∷ ks) = k + total ks

-- No call may log more than MAXOPBLOCKS blocks.
abbrev pub Within : List ℕ → Type 0
Within [] = Unit
Within (k ∷ ks) = (k ≤ max_op_blocks) × Within ks

pub Within-split :
    (xs : List ℕ) (k : ℕ) (ys : List ℕ)
    → Within (xs ++ (k ∷ ys))
    → (k ≤ max_op_blocks) × Within (xs ++ ys)
Within-split [] k ys w = w
Within-split (x ∷ xs) k ys w = let (b, w') = Within-split xs k ys w.1 in (b, (w.0, w'))

pub Within-join :
    (xs : List ℕ) (k : ℕ) (ys : List ℕ)
    → k ≤ max_op_blocks
    → Within (xs ++ ys)
    → Within (xs ++ (k ∷ ys))
Within-join [] k ys h w = (h, w)
Within-join (x ∷ xs) k ys h w = (w.0, Within-join xs k ys h w.1)

pub total-le : (ks : List ℕ) → Within ks → total ks ≤ max_op_blocks * length ks
total-le [] w = omega arith
total-le (k ∷ ks) w = omega (arith, total-le ks w.1, w.0)

-- A budget in the middle of the list, and the rest.
pub sums :
    (before : List ℕ) (k : ℕ) (after : List ℕ)
    → (total (before ++ (k ∷ after)) ≡ k + total (before ++ after))
      × (length (before ++ (k ∷ after)) ≡ suc (length (before ++ after)))
sums [] k after = (refl, refl)
sums (x ∷ before) k after = let (t, n) = sums before k after in (omega arith, ap suc n)
