-- ===== src/Proc/NoLostWakeup.antt =====
-- kernel/proc.c: `sleep` of one process and `wakeup` of another, in every order of their accesses.
use os_study.Prelude.{◌≡◌, Bool, true, false, ℕ, arith}
use os_study.Proc.{is_state, sleeping}
use os_study.Proc.SleepWake.{
  Sleeper, testing, going, letting, marking, switching, away, tidying, Waker, outside, waking,
  looking, unlooking, finished, Owner, nobody, sleeper, waker, System, Step, test_false, test_true,
  take_p, drop_lk, mark, swtch, resume, tidy, retake, enter, decide, grab, wake, ungrab, leave,
  kill, Reach, start, next,
}

-- Who has `lk` and `p->lock`, by where the two stand.
abbrev lk_of : Sleeper → Waker → Owner
lk_of testing _ = sleeper
lk_of going _ = sleeper
lk_of letting _ = sleeper
lk_of _ outside = nobody
lk_of _ finished = nobody
lk_of _ _ = waker

abbrev sleeper_has_lk : Sleeper → Bool
sleeper_has_lk testing = true
sleeper_has_lk going = true
sleeper_has_lk letting = true
sleeper_has_lk _ = false

abbrev waker_has_lk : Waker → Bool
waker_has_lk outside = false
waker_has_lk finished = false
waker_has_lk _ = true

abbrev sleeper_has_p : Sleeper → Bool
sleeper_has_p letting = true
sleeper_has_p marking = true
sleeper_has_p switching = true
sleeper_has_p tidying = true
sleeper_has_p _ = false

abbrev waker_has_p : Waker → Bool
waker_has_p looking = true
waker_has_p unlooking = true
waker_has_p _ = false

-- The sleeper has seen the condition false and `lk` is still its own.
abbrev resolved : Sleeper → Bool
resolved going = true
resolved letting = true
resolved _ = false

abbrev is_marking : Sleeper → Bool
is_marking marking = true
is_marking _ = false

abbrev may_sleep : Sleeper → Bool
may_sleep switching = true
may_sleep away = true
may_sleep _ = false

-- The waker has still to look at the sleeper.
abbrev pub will_look : Waker → Bool
will_look waking = true
will_look looking = true
will_look _ = false

-- What holds of the locks, of the condition, and of a sleeper that is about to sleep or asleep.
abbrev Inv : ℕ → System → Type 0
Inv chan s =
    (sleeper_has_lk s.sleeper_pc ≡ true → s.lk ≡ sleeper)
    × (waker_has_lk s.waker_pc ≡ true → s.lk ≡ waker)
    × (sleeper_has_p s.sleeper_pc ≡ true → s.p_lock ≡ sleeper)
    × (waker_has_p s.waker_pc ≡ true → s.p_lock ≡ waker)
    × (resolved s.sleeper_pc ≡ true → s.cond ≡ false)
    × (is_state s.proc.state sleeping ≡ true → may_sleep s.sleeper_pc ≡ true)
    × (is_state s.proc.state sleeping ≡ true → s.proc.chan ≡ chan)
    × (is_marking s.sleeper_pc ≡ true → s.cond ≡ true → will_look s.waker_pc ≡ true)
    × (is_state s.proc.state sleeping ≡ true → s.cond ≡ true → will_look s.waker_pc ≡ true)

Step-Inv : {chan : ℕ} {s t : System} → Step chan s t → Inv chan s → Inv chan t
Step-Inv (test_false a b) v = ground (arith, v)
Step-Inv (test_true a b) v = ground (arith, v)
Step-Inv (take_p a b) v = ground (arith, v)
Step-Inv (drop_lk a) v = ground (arith, v)
Step-Inv (mark a) v = ground (arith, v)
Step-Inv (swtch a) v = ground (arith, v)
Step-Inv (resume a b c) v = ground (arith, v)
Step-Inv (tidy a) v = ground (arith, v)
Step-Inv (retake a b) v = ground (arith, v)
Step-Inv (enter a b) v = ground (arith, v)
Step-Inv (decide a) v = ground (arith, v)
Step-Inv (grab a b) v = ground (arith, v)
Step-Inv (wake a) v = ground (arith, v)
Step-Inv (ungrab a) v = ground (arith, v)
Step-Inv (leave a) v = ground (arith, v)
Step-Inv (kill a) v = ground (arith, v)

Reach-Inv : {chan : ℕ} {s : System} → Reach chan s → Inv chan s
Reach-Inv (start e) = ground (arith, e)
Reach-Inv (next r st) = Step-Inv st (Reach-Inv r)

-- However `sleep`, `wakeup` and `kkill` interleave: while the sleeper is asleep and the condition
-- is true, it sleeps on the waker's channel and the waker has still to look at it in `wakeup`.
pub no_lost_wakeup :
    {chan : ℕ} {s : System}
    → Reach chan s
    → s.cond ≡ true
    → is_state s.proc.state sleeping ≡ true
    → (s.proc.chan ≡ chan) × (will_look s.waker_pc ≡ true)
no_lost_wakeup r met asleep = ground (arith, Reach-Inv r, met, asleep)
