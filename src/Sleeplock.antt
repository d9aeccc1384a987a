-- ===== src/Sleeplock.antt =====
-- kernel/sleeplock.c: a lock whose waiters sleep, over the process table. Its own spin lock makes a
-- round of each function one step. The lock's address is the channel; `me` is the caller's slot.
pub mod Handover
use os_study.Prelude.{
  ℕ, Bool, true, false, ◌&&◌, Option, none, some, ◌==◌, if◌then◌else◌, get_elem?,
}
use os_study.Proc.{Proc, Table, sleep, wakeup}

pub record Sleeplock : Type 0 where
  pub locked : Bool
  pub pid : ℕ

abbrev pub initsleeplock : Sleeplock
initsleeplock = record { locked = false; pid = 0 }

-- The lock with the processes
pub record Sleepers : Type 0 where
  pub lock : Sleeplock
  pub table : Table

-- `myproc()->pid`
abbrev pub pid_in : Option Proc → ℕ
pid_in none = 0
pid_in (some p) = p.pid

abbrev pub pid_of : Table → ℕ → ℕ
pid_of t me = pid_in (get_elem? t.procs me)

-- One round of `acquiresleep`: says whether it has the lock, else the caller sleeps.
unfoldable pub acquiresleep : ℕ → ℕ → Sleepers → Bool × Sleepers
unfolding sleep
acquiresleep me chan s =
    if s.lock.locked
    then (false, record s { table = sleep me chan s.table })
    else (true, record s { lock = record { locked = true; pid = pid_of s.table me } })

unfoldable pub releasesleep : ℕ → ℕ → Sleepers → Sleepers
unfolding wakeup
releasesleep me chan s = record {
  lock = record { locked = false; pid = 0 };
  table = wakeup me chan s.table;
}

abbrev pub holdingsleep : ℕ → Sleepers → Bool
holdingsleep me s = s.lock.locked && (s.lock.pid == pid_of s.table me)
