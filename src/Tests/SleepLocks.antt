-- ===== src/Tests/SleepLocks.antt =====
-- kernel/sleeplock.c: two processes and a lock.
use os_study.Prelude.{ℕ, ◌≡◌, refl, arith, true, false, none, [], ◌∷◌, pos}
use os_study.Proc.{Proc, running}
use os_study.Sleeplock.{Sleepers, acquiresleep, releasesleep}
use os_study.Sleeplock.Handover.{HandedOver, handover}

abbrev worker : ℕ → Proc
worker n = record {
  state = running;
  chan = 0;
  killed = false;
  xstate = pos 0;
  pid = n;
  parent = none;
  sz = 4096;
  pagetable = 0x87000000;
  trapframe = 0x87001000;
}

-- Slot 1 has the lock.
abbrev held : Sleepers
held = record {
  lock = record { locked = true; pid = 8 };
  table = record { procs = worker 7 ∷ worker 8 ∷ []; nextpid = 9; freed = [] };
}

handover_example :
    ((acquiresleep 0 600 held).0 ≡ false)
    × HandedOver 0 600 (worker 7) (releasesleep 1 600 (acquiresleep 0 600 held).1)
handover_example = handover held 0 1 600 refl refl (omega arith)
