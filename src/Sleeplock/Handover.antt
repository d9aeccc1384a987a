-- ===== src/Sleeplock/Handover.antt =====
-- kernel/sleeplock.c: a process that waits for the lock, across a release of it.
use os_study.Prelude.{
  ℕ, ◌≡◌, ◌≢◌, refl, sym, subst, ap, ◌∙◌, Bool, true, false, some, eq→==, if◌then◌else◌, get_elem?,
}
use os_study.Proc.{Proc, runnable, sleeping, sleep, wakeup, awake}
use os_study.Proc.Wake.{wakeup-sleep}
use os_study.Sleeplock.{Sleepers, pid_of, acquiresleep, releasesleep, holdingsleep}

-- The round of a process that was woken
abbrev pub retry : ℕ → ℕ → Sleepers → Bool × Sleepers
retry me chan s = acquiresleep me chan (record s { table = awake me s.table })

asleep :
    (s : Sleepers) (i chan : ℕ)
    → s.lock.locked ≡ true
    → acquiresleep i chan s ≡ (false, record s { table = sleep i chan s.table })
unfolding acquiresleep
asleep s i chan h = rw h refl

free_again :
    (s : Sleepers) (me chan : ℕ)
    → releasesleep me chan s
      ≡ record { lock = record { locked = false; pid = 0 }; table = wakeup me chan s.table }
unfolding releasesleep
free_again s me chan = refl

taken :
    (i chan : ℕ) (s : Sleepers)
    → s.lock.locked ≡ false
    → ((acquiresleep i chan s).0 ≡ true) × (holdingsleep i (acquiresleep i chan s).1 ≡ true)
unfolding acquiresleep
taken i chan s h = rw h (refl, eq→== (pid_of s.table i) (pid_of s.table i) refl)

-- The sleeper `i` can run, and gets the lock when it does.
abbrev pub HandedOver : ℕ → ℕ → Proc → Sleepers → Type 0
HandedOver i chan p s =
    (get_elem? s.table.procs i ≡ some (record p { chan = chan; state = runnable }))
    × ((retry i chan s).0 ≡ true)
    × (holdingsleep i (retry i chan s).1 ≡ true)

-- A process that finds the lock held sleeps. When another process releases the lock, the sleeper
-- can run, with only its channel and its state changed, and if it runs before a third process takes
-- the lock it gets the lock and holds it.
pub handover :
    (s : Sleepers) (i me chan : ℕ) {p : Proc}
    → get_elem? s.table.procs i ≡ some p
    → s.lock.locked ≡ true
    → me ≢ i
    → ((acquiresleep i chan s).0 ≡ false)
      × HandedOver i chan p (releasesleep me chan (acquiresleep i chan s).1)
handover s i me chan {p} e held other =
    let t2 = wakeup me chan (sleep i chan s.table) in
    let s2 : Sleepers = record { lock = record { locked = false; pid = 0 }; table = t2 } in
    let woken : get_elem? t2.procs i ≡ some (record p { chan = chan; state = runnable }) =
      wakeup-sleep s.table i me chan chan e other
      ∙ ap (λ (b : Bool). some (record p { chan = chan; state = if b then runnable else sleeping }))
          (eq→== chan chan refl) in
    let (gets, holds) = taken i chan (record s2 { table = awake i t2 }) refl in
    subst (λ (o : Bool × Sleepers). (o.0 ≡ false) × HandedOver i chan p (releasesleep me chan o.1))
      (sym (asleep s i chan held))
      (
        refl,
        subst (HandedOver i chan p)
            (sym (free_again (record s { table = sleep i chan s.table }) me chan))
            (woken, gets, holds),
      )
