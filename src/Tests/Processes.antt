-- ===== src/Tests/Processes.antt =====
-- kernel/proc.c on small tables.
use os_study.Prelude.{
  ◌⊎◌, panic, ℕ, ◌+◌, ◌≡◌, ◌≢◌, refl, true, false, Option, none, some, [], ◌∷◌, pos, ok, get_elem?,
  arith,
}
use os_study.Proc.{
  ProcState, used, sleeping, running, zombie, Proc, Table, Pages, free_slots, procinit, allocpid,
  find_from, allocproc, kkill,
}
use os_study.Proc.Life.{kexit, kwait}
use os_study.Proc.Reach.{Reach, boot, next, alloc, pids_unique}
use os_study.Proc.Exit.{Exited, kexit_lem}
use os_study.Proc.Wait.{Outcomes, kwait_lem}
use os_study.Proc.SleepWake.{
  testing, going, letting, marking, switching, away, returning, outside, deciding, waking, nobody,
  waker, System, test_false, take_p, drop_lk, mark, swtch, retake, enter, decide,
}
use os_study.Proc.SleepWake as SleepWake
use os_study.Proc.NoLostWakeup.{will_look, no_lost_wakeup}

abbrev process : ProcState → ℕ → Option ℕ → ℕ → Proc
process state pid parent chan = record {
  state = state;
  chan = chan;
  killed = false;
  xstate = pos 0;
  pid = pid;
  parent = parent;
  sz = 4096;
  pagetable = 0x87000000;
  trapframe = 0x87001000;
}

-- Slot 0 is `init`, which waits; slot 1 waits for its child in slot 2, which has one in slot 3.
abbrev family : Table
family = record {
  procs =
      process sleeping 1 none 100
      ∷ process sleeping 2 (some 0) 101
      ∷ process running 3 (some 1) 0
      ∷ process zombie 4 (some 2) 0
      ∷ [];
  nextpid = 5;
  freed = [];
}

abbrev addr : ℕ → ℕ
addr i = 100 + i

kexit_lem_example :
    (◌≡◌ {A = ℕ} 2 0 × (kexit addr 0 2 (pos 7) family ≡ panic "init exiting"))
    ⊎ (◌≢◌ {A = ℕ} 2 0
        × ((u : Table) × (kexit addr 0 2 (pos 7) family ≡ ok u)
            × Exited addr 2 1 (pos 7) family (process running 3 (some 1) 0) u))
kexit_lem_example = kexit_lem addr 0 2 1 (pos 7) family refl refl

kwait_lem_example : Outcomes 2 false true family (kwait 2 false true family)
kwait_lem_example = kwait_lem 2 false true family

abbrev pages : Pages
pages = record { trapframe = 0x87001000; pagetable = 0x87000000 }

abbrev two : Table
two = (allocproc (allocproc procinit pages).1 pages).1

two-Reach : Reach two
unfolding allocproc allocpid procinit
two-Reach = next (next boot (omega arith) (alloc pages)) (omega arith) (alloc pages)

abbrev taken : ℕ → Proc
taken n = record (process used n none 0) { sz = 0 }

two_first : get_elem? two.procs 0 ≡ some (taken 1)
unfolding allocproc allocpid find_from procinit free_slots
two_first = refl

two_second : get_elem? two.procs 1 ≡ some (taken 2)
unfolding allocproc allocpid find_from procinit free_slots
two_second = refl

pids_unique_example : ((taken 1).pid ≢ (taken 2).pid) × ((taken 1).pid ≢ 0)
pids_unique_example = pids_unique 0 1 two-Reach two_first two_second refl (omega arith)

-- Process id 0 is that of an unused slot, which `kkill` finds.
kkill_zero : (kkill 0 procinit).0 ≡ pos 0
unfolding kkill procinit
kkill_zero = refl

-- The sleeper is asleep and the waker has made the condition true.
abbrev missed : System
missed = record {
  cond = true;
  lk = waker;
  p_lock = nobody;
  proc = process sleeping 1 none 9;
  sleeper_pc = away;
  waker_pc = waking;
}

missed-Reach : SleepWake.Reach 9 missed
missed-Reach =
    SleepWake.next
      (SleepWake.next
        (SleepWake.next
          (SleepWake.next
            (SleepWake.next
              (SleepWake.next
                (SleepWake.next
                  (SleepWake.next (SleepWake.start {p = process running 1 none 0} refl)
                    (retake refl refl))
                  (test_false refl refl))
                (take_p refl refl))
              (drop_lk refl))
            (mark refl))
          (swtch refl))
        (enter refl refl))
      (decide refl)

no_lost_wakeup_example : (missed.proc.chan ≡ 9) × (will_look missed.waker_pc ≡ true)
no_lost_wakeup_example = no_lost_wakeup missed-Reach refl refl
