-- ===== src/Bcache/Sleep.antt =====
-- sleeplock.c: a lock that a process may hold while it sleeps.
use xv.Common.{ℕ, Bool, true, false, ◌&&◌, ◌==◌, Option, none, some, if◌then◌else◌}

-- `struct sleeplock` without its spin lock and its name
pub record Sleeplock : Type 0 where
  pub locked : Bool
  pub pid : ℕ

abbrev pub initsleeplock : Sleeplock
initsleeplock = record { locked = false; pid = 0 }

-- One round of the loop of acquiresleep, by the process `me`: none when it has to sleep.
unfoldable pub acquiresleep : (me : ℕ) → Sleeplock → Option Sleeplock
acquiresleep me lk = if lk.locked then none else some (record { locked = true; pid = me })

abbrev pub releasesleep : Sleeplock → Sleeplock
releasesleep lk = record { locked = false; pid = 0 }

unfoldable pub holdingsleep : (me : ℕ) → Sleeplock → Bool
holdingsleep me lk = lk.locked && (lk.pid == me)
