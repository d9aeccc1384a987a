-- ===== src/Proc/SleepWake.antt =====
-- kernel/proc.c: `while(!cond) sleep(chan, lk)` of one process and `cond = 1; wakeup(chan)` of
-- another, under the condition lock `lk`, an access at a time. `kkill` may wake the sleeper at any
-- time at which its `p->lock` is free.
use os_study.Prelude.{◌≡◌, Bool, true, false, ℕ}
use os_study.Proc.{Proc, is_state, sleeping, runnable, running, wake_one, kill_proc}

-- Where the sleeper stands.
pub data Sleeper : Type 0 where
  testing : Sleeper  -- holds `lk`, about to test the condition
  going : Sleeper  -- in `sleep`, about to acquire `p->lock`
  letting : Sleeper  -- holds both locks, about to release `lk`
  marking : Sleeper  -- about to set `chan` and `state`
  switching : Sleeper  -- in `sched`, with `p->lock` held
  away : Sleeper  -- the scheduler has released `p->lock`
  tidying : Sleeper  -- runs again, with `p->lock` held by the scheduler
  returning : Sleeper  -- about to acquire `lk`
  done : Sleeper

-- Where the waker stands.
pub data Waker : Type 0 where
  outside : Waker
  deciding : Waker  -- holds `lk`, about to make the condition true
  waking : Waker  -- in `wakeup`, about to acquire the sleeper's `p->lock`
  looking : Waker  -- holds it, about to test `state` and `chan`
  unlooking : Waker  -- about to release it
  leaving : Waker  -- about to release `lk`
  finished : Waker

pub data Owner : Type 0 where
  nobody sleeper waker : Owner

pub record System : Type 0 where
  pub cond : Bool
  pub lk : Owner
  pub p_lock : Owner
  pub proc : Proc
  pub sleeper_pc : Sleeper
  pub waker_pc : Waker

-- The sleeper is in slot 0, the waker in slot 1.
pub data Step (chan : ℕ) (s : System) : System → Type 0 where
  test_false :
      s.sleeper_pc ≡ testing → s.cond ≡ false → Step chan s (record s { sleeper_pc = going })
  test_true :
      s.sleeper_pc ≡ testing
      → s.cond ≡ true
      → Step chan s (record s { sleeper_pc = done; lk = nobody })
  take_p :
      s.sleeper_pc ≡ going
      → s.p_lock ≡ nobody
      → Step chan s (record s { sleeper_pc = letting; p_lock = sleeper })
  drop_lk : s.sleeper_pc ≡ letting → Step chan s (record s { sleeper_pc = marking; lk = nobody })
  mark :
      s.sleeper_pc ≡ marking
      → Step chan s (record s {
        sleeper_pc = switching;
        proc = record s.proc { chan = chan; state = sleeping };
      })
  swtch : s.sleeper_pc ≡ switching → Step chan s (record s { sleeper_pc = away; p_lock = nobody })
  resume :
      s.sleeper_pc ≡ away
      → s.p_lock ≡ nobody
      → is_state s.proc.state runnable ≡ true
      → Step chan s (record s {
        sleeper_pc = tidying;
        p_lock = sleeper;
        proc = record s.proc { state = running };
      })
  tidy :
      s.sleeper_pc ≡ tidying
      → Step chan s
          (record s { sleeper_pc = returning; p_lock = nobody; proc = record s.proc { chan = 0 } })
  retake :
      s.sleeper_pc ≡ returning
      → s.lk ≡ nobody
      → Step chan s (record s { sleeper_pc = testing; lk = sleeper })
  enter :
      s.waker_pc ≡ outside
      → s.lk ≡ nobody
      → Step chan s (record s { waker_pc = deciding; lk = waker })
  decide : s.waker_pc ≡ deciding → Step chan s (record s { waker_pc = waking; cond = true })
  grab :
      s.waker_pc ≡ waking
      → s.p_lock ≡ nobody
      → Step chan s (record s { waker_pc = looking; p_lock = waker })
  wake :
      s.waker_pc ≡ looking
      → Step chan s (record s { waker_pc = unlooking; proc = wake_one 1 chan 0 s.proc })
  ungrab : s.waker_pc ≡ unlooking → Step chan s (record s { waker_pc = leaving; p_lock = nobody })
  leave : s.waker_pc ≡ leaving → Step chan s (record s { waker_pc = finished; lk = nobody })
  kill : s.p_lock ≡ nobody → Step chan s (record s { proc = kill_proc s.proc })

pub data Reach (chan : ℕ) : System → Type 0 where
  start :
      {p : Proc}
      → is_state p.state running ≡ true
      → Reach chan (record {
        cond = false;
        lk = nobody;
        p_lock = nobody;
        proc = p;
        sleeper_pc = returning;
        waker_pc = outside;
      })
  next : {s t : System} → Reach chan s → Step chan s t → Reach chan t
