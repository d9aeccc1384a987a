-- ===== src/Tests/Locks.antt =====
-- kernel/spinlock.c on one CPU and on two.
use os_study.Prelude.{ℕ, ◌≡◌, refl, true, false, some, ok, update}
use os_study.Spinlock.{Cpu, initlock, Holder, push_off, holding, acquire}
use os_study.Spinlock.Race.{
  idle, swapping, won, critical, System, Reach, here, next, enter, swap, record_cpu,
  mutual_exclusion,
}

abbrev cpu : Cpu
cpu = record { hartid = 0; interrupts = true; noff = 0; intena = false }

abbrev taken : Holder
taken = record {
  cpu = record { hartid = 0; interrupts = false; noff = 1; intena = true };
  lock = record { locked = true; cpu = some 0 };
}

acquire_runs : acquire cpu initlock ≡ ok taken
unfolding acquire holding push_off
acquire_runs = refl

-- CPU 1 has taken the lock while CPU 0 was about to try.
abbrev contended : System
contended = record {
  lock = record { locked = true; cpu = some 1 };
  pc = update (update (update (update (λ i. idle) 0 swapping) 1 swapping) 1 won) 1 critical;
}

contended-Reach : Reach contended
contended-Reach =
    next (next (next (next here (enter 0 refl refl)) (enter 1 refl refl)) (swap 1 refl refl))
      (record_cpu 1 refl)

mutual_exclusion_example : ◌≡◌ {A = ℕ} 1 1
mutual_exclusion_example = mutual_exclusion contended-Reach 1 1 refl refl
