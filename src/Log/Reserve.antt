-- ===== src/Log/Reserve.antt =====
-- The reservation that begin_op makes is enough: the log has room for what is logged and all that
-- the outstanding calls may still log.
use mathlib.Core.Path.{subst, subst₂}
use xv.Common.{
  sym, ap, ◌∙◌, ℕ, zero, suc, ◌+◌, ◌*◌, ◌≤◌, ◌<◌, ◌≡◌, ◌≢◌, refl, arith, Bool, true, false, List,
  [], ◌∷◌, ◌++◌, ok, panic, returns, length,
}
use xv.Common.Int.{pos}
use xv.Log.Disk.{Block, Machine}
use xv.Log.Ops.{
  log_size, max_op_blocks, LogHeader, Log, begin_op, log_write, record_block, end_op_enter, commit,
}
use xv.Log.Calls.{
  System, Step, begin, write, finish, committed, Reach, here, next, total, Within, Within-split,
  Within-join, total-le, sums,
}

-- The log has room for what is logged and all that the outstanding calls may still log.
pub record IsReserved (s : System) : Type 0 where
  pub counted : s.log.outstanding ≡ pos (length s.ops)
  pub room : s.log.lh.n + total s.ops ≤ log_size
  pub within : Within s.ops
  pub alone : s.log.committing ≡ true → length s.ops ≡ 0
  pub big : log_size < s.log.size

nil_of_length : (ks : List ℕ) → length ks ≡ 0 → ks ≡ []
nil_of_length [] e = refl
nil_of_length (k ∷ ks) e = absurd (omega arith)

-- The fields of the invariant that are about the log, without the budgets.
record Counts (l : Log) (n sum : ℕ) : Type 0 where
  counted : l.outstanding ≡ pos n
  room : l.lh.n + sum ≤ log_size
  alone : l.committing ≡ true → n ≡ 0
  big : log_size < l.size

counts : {s : System} → IsReserved s → Counts s.log (length s.ops) (total s.ops)
counts r = record { counted = r.counted; room = r.room; alone = r.alone; big = r.big }

reserved : (s : System) → Within s.ops → Counts s.log (length s.ops) (total s.ops) → IsReserved s
reserved s w c = record {
  counted = c.counted;
  room = c.room;
  within = w;
  alone = c.alone;
  big = c.big;
}

begin-Counts :
    (l l' : Log) (n sum : ℕ)
    → Counts l n sum
    → sum ≤ max_op_blocks * n
    → begin_op l ≡ returns l'
    → Counts l' (suc n) (max_op_blocks + sum)
unfolding begin_op
begin-Counts l l' n sum c h e = ground arith

record_block-n : (h : LogHeader) (b : ℕ) → (record_block h b).n ≤ h.n + 1
unfolding record_block
record_block-n h b = ground arith

write-Counts :
    (l l' : Log) (m m' : Machine) (n k sum b : ℕ) (d : Block)
    → Counts l n (suc k + sum)
    → log_write l m b d ≡ ok (l', m')
    → Counts l' n (k + sum)
unfolding log_write
write-Counts l l' m m' n k sum b d c e = ground (arith, record_block-n l.lh b)

finish-Counts :
    (l l' : Log) (n sum k : ℕ) (go : Bool)
    → Counts l (suc n) (k + sum)
    → end_op_enter l ≡ ok (l', go)
    → Counts l' n sum
unfolding end_op_enter
finish-Counts l l' zero sum k go c e = ground arith
finish-Counts l l' (suc n) sum k go c e = ground arith

committed-Counts :
    (l : Log) (m : Machine) (n sum : ℕ)
    → Counts l n sum
    → Counts
        (record (commit l m).0 { committing = false; wakeups = suc (commit l m).0.wakeups })
        n
        sum
unfolding commit
committed-Counts l m n sum c = ground arith

-- The steps keep the reservation.
pub Step-IsReserved : {s t : System} → Step s t → IsReserved s → IsReserved t
Step-IsReserved (begin s l e) r =
    reserved _ (omega arith, r.within)
      (begin-Counts s.log l (length s.ops) (total s.ops) (counts r) (total-le s.ops r.within) e)
Step-IsReserved (write s before after k b d l m q e) r =
    let (small, rest) = Within-split before (suc k) after (subst Within q r.within) in
    let (t, n) = sums before (suc k) after in
    let (t', n') = sums before k after in
    reserved _ (Within-join before k after (omega arith) rest) (
      subst₂ (Counts l) (sym n') (sym t') (
        write-Counts s.log l s.machine m _ k _ b d
          (subst₂ (Counts s.log) (ap length q ∙ n) (ap total q ∙ t) (counts r)) e))
Step-IsReserved (finish s before after k l go q e) r =
    let (_, rest) = Within-split before k after (subst Within q r.within) in
    let (t, n) = sums before k after in
    reserved _ rest (
      finish-Counts s.log l _ _ k go
        (subst₂ (Counts s.log) (ap length q ∙ n) (ap total q ∙ t) (counts r)) e)
Step-IsReserved (committed s e) r =
    reserved _ r.within (committed-Counts s.log s.machine _ _ (counts r))

pub Reach-IsReserved : {s t : System} → IsReserved s → Reach s t → IsReserved t
Reach-IsReserved h here = h
Reach-IsReserved h (next r st) = Step-IsReserved st (Reach-IsReserved h r)

-- After initlog, with no call outstanding.
abbrev pub idle : Log → Machine → System
idle l m = record {
  log = record l {
    outstanding = pos 0;
    committing = false;
    lh = record { n = 0; block = l.lh.block };
  };
  machine = m;
  ops = [];
}

idle-IsReserved : (l : Log) (m : Machine) → log_size < l.size → IsReserved (idle l m)
idle-IsReserved l m big = record {
  counted = refl;
  room = omega arith;
  within = tt;
  alone = λ e. refl;
  big = big;
}

no_panic_write :
    (l : Log) (m : Machine) (n k sum b : ℕ) (d : Block)
    → Counts l (suc n) (suc k + sum)
    → log_write l m b d ≢ panic
unfolding log_write
no_panic_write l m n k sum b d c e = ground arith

no_panic_end : (l : Log) (n sum : ℕ) → Counts l (suc n) sum → end_op_enter l ≢ panic
unfolding end_op_enter
no_panic_end l n sum c e = ground arith

-- On a log of more than LOGSIZE blocks, and in any interleaving of calls that keep to their
-- budgets, log_write does not panic for a call that has budget left.
pub no_panic :
    {s : System} (l : Log) (m : Machine) (before after : List ℕ) (k b : ℕ) (d : Block)
    → log_size < l.size
    → Reach (idle l m) s
    → s.ops ≡ before ++ (suc k ∷ after)
    → log_write s.log s.machine b d ≢ panic
no_panic {s} l m before after k b d big reach q =
    let r = Reach-IsReserved (idle-IsReserved l m big) reach in
    let (t, n) = sums before (suc k) after in
    no_panic_write s.log s.machine _ k _ b d
      (subst₂ (Counts s.log) (ap length q ∙ n) (ap total q ∙ t) (counts r))

-- On a log of more than LOGSIZE blocks, and in any interleaving of calls that keep to their
-- budgets, end_op does not find a commit under way while a call is outstanding: it does not panic.
pub no_panic_at_end :
    {s : System} (l : Log) (m : Machine) (before after : List ℕ) (k : ℕ)
    → log_size < l.size
    → Reach (idle l m) s
    → s.ops ≡ before ++ (k ∷ after)
    → end_op_enter s.log ≢ panic
no_panic_at_end {s} l m before after k big reach q =
    let r = Reach-IsReserved (idle-IsReserved l m big) reach in
    let (t, n) = sums before k after in
    no_panic_end s.log _ _ (subst₂ (Counts s.log) (ap length q ∙ n) (ap total q ∙ t) (counts r))

-- On a log of more than LOGSIZE blocks, and in any interleaving of calls that keep to their
-- budgets, no call is outstanding while a commit is under way.
pub commit_alone :
    {s : System} (l : Log) (m : Machine)
    → log_size < l.size
    → Reach (idle l m) s
    → s.log.committing ≡ true
    → (s.ops ≡ []) × (s.log.outstanding ≡ pos 0)
commit_alone {s} l m big reach e =
    let r = Reach-IsReserved (idle-IsReserved l m big) reach in
    (nil_of_length s.ops (r.alone e), r.counted ∙ ap pos (r.alone e))
