-- ===== src/Tests/Logging.antt =====
-- kernel/log.c: a log at block 2 with a transaction of two blocks.
use os_study.Prelude.{
  ℕ, ◌≡◌, refl, true, false, some, none, [], ◌∷◌, pos, ok, arith, take, if◌then◌else◌, ◌==◌,
}
use os_study.Log.{Log, begin_op, log_write, initlog, exceeds, get_words}
use os_study.Log.Disk.{Block, view, replay}
use os_study.Log.Commit.{IsLog}
use os_study.Log.Crash.{recovered, booted}
use os_study.Log.Atomic.{crashed, crash_atomic}
use os_study.Log.Again.{recovery_again}
use os_study.Log.Budget.{Running, Reach, start, next, Spend, begin}
use os_study.Log.Space.{log_write-ok}

-- Blocks 40 and 41 are changed in the cache. Every block on disk is all zeros.
abbrev pending : Log
pending = record {
  start = 2;
  outstanding = pos 0;
  committing = true;
  lh = 40 ∷ 41 ∷ [];
  io = record {
    disk = λ b w. 0;
    cache = λ b. if b == 40 then some (λ w. 5) else if b == 41 then some (λ w. 6) else none;
    pins = λ b. 1;
    writes = [];
  };
}

pending-IsLog : IsLog pending
pending-IsLog = record { few = omega arith; homes = omega arith }

-- Three writes are enough, two are not.
crash_atomic_example : recovered 2 (crashed pending 3) 41 ≡ (λ w. 6)
unfolding view
crash_atomic_example = crash_atomic pending 3 41 pending-IsLog (omega arith) refl refl (omega arith)

-- A disk whose header commits block 40, with its contents in block 3.
abbrev committed : ℕ → Block
committed b w = if b == 2 then (if w == 0 then 1 else 40) else b

recovery_again_example :
    recovered 2 (replay committed (take 1 (initlog 2 (booted committed)).io.writes)) 40
    ≡ recovered 2 committed 40
unfolding get_words
recovery_again_example = recovery_again 2 committed 1 40 (omega arith) (omega arith) (omega arith)

abbrev idle_log : Log
idle_log = record pending { committing = false; lh = [] }

abbrev admitted : Running
admitted = record { log = record idle_log { outstanding = pos 1 }; budgets = 10 ∷ [] }

admitted-Reach : Reach admitted
unfolding begin_op exceeds
admitted-Reach = next (start {l = idle_log} refl refl refl) (begin refl)

log_write-ok_example : (l : Log) × (log_write admitted.log 40 ≡ ok l)
log_write-ok_example = log_write-ok {bs = 9 ∷ []} 40 admitted-Reach Spend.here
