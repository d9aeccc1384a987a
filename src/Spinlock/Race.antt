-- ===== src/Spinlock/Race.antt =====
-- kernel/spinlock.c: any number of CPUs at one lock, a shared access at a time.
use os_study.Prelude.{
  ℕ, ◌≡◌, ◌↔◌, refl, Bool, true, false, none, some, arith, update, if◌then◌else◌,
}
use os_study.Spinlock.{Spinlock, initlock, same_hart}

-- Where a CPU stands in `acquire` and `release`.
pub data Pc : Type 0 where
  idle : Pc  -- outside, or before the test `holding` of `acquire`
  swapping : Pc  -- at the `__sync_lock_test_and_set` loop
  won : Pc  -- the swap returned 0; `lk->cpu` is still to be written
  critical : Pc  -- `acquire` has returned
  leaving : Pc  -- `release` has cleared `lk->cpu`; `lk->locked` is still set

pub record System : Type 0 where
  pub lock : Spinlock
  pub pc : ℕ → Pc

abbrev pub holding_now : Spinlock → ℕ → Bool
holding_now lk i = if lk.locked then same_hart lk.cpu i else false

abbrev at : System → ℕ → Spinlock → Pc → System
at s i lk p = record { lock = lk; pc = update s.pc i p }

-- One access of CPU `i`. The tests of `holding` that would panic make no step.
pub data Step (s : System) : System → Type 0 where
  enter : (i : ℕ) → s.pc i ≡ idle → holding_now s.lock i ≡ false → Step s (at s i s.lock swapping)
  spin : (i : ℕ) → s.pc i ≡ swapping → s.lock.locked ≡ true → Step s s
  swap :
      (i : ℕ)
      → s.pc i ≡ swapping
      → s.lock.locked ≡ false
      → Step s (at s i (record { locked = true; cpu = s.lock.cpu }) won)
  record_cpu :
      (i : ℕ)
      → s.pc i ≡ won
      → Step s (at s i (record { locked = s.lock.locked; cpu = some i }) critical)
  clear_cpu :
      (i : ℕ)
      → s.pc i ≡ critical
      → holding_now s.lock i ≡ true
      → Step s (at s i (record { locked = s.lock.locked; cpu = none }) leaving)
  unlock :
      (i : ℕ)
      → s.pc i ≡ leaving
      → Step s (at s i (record { locked = false; cpu = s.lock.cpu }) idle)

abbrev pub start : System
start = record { lock = initlock; pc = λ i. idle }

pub data Reach : System → Type 0 where
  here : Reach start
  next : {s t : System} → Reach s → Step s t → Reach t

-- From winning the swap to the final store a CPU owns the lock.
abbrev pub owns : Pc → Bool
owns idle = false
owns swapping = false
owns _ = true

record Inv (s : System) : Type 0 where
  set : (i : ℕ) → owns (s.pc i) ≡ true → s.lock.locked ≡ true
  unique : (i j : ℕ) → owns (s.pc i) ≡ true → owns (s.pc j) ≡ true → i ≡ j
  named : (i : ℕ) → s.pc i ≡ critical → s.lock.cpu ≡ some i
  truthful : (i : ℕ) → s.lock.cpu ≡ some i → s.pc i ≡ critical

Step-Inv : {s t : System} → Step s t → Inv s → Inv t
Step-Inv (enter i p h) v = record {
  set = λ j o. ground (arith, v.set j);
  unique = λ j k o q. ground (arith, v.unique j k);
  named = λ j e. ground (arith, v.named j);
  truthful = λ j e. ground (arith, v.truthful j);
}
Step-Inv (spin i p h) v = v
Step-Inv (swap i p h) v = record {
  set = λ j o. refl;
  unique = λ j k o q. ground (arith, v.set j, v.set k);
  named = λ j e. ground (arith, v.named j);
  truthful = λ j e. ground (arith, v.truthful j);
}
Step-Inv (record_cpu i p) v = record {
  set = λ j o. ground (arith, v.set i, v.set j);
  unique = λ j k o q. ground (arith, v.unique j k, v.unique i k, v.unique j i);
  named = λ j e. ground (arith, v.unique i j, v.named j);
  truthful = λ j e. ground (arith, v.truthful j);
}
Step-Inv (clear_cpu i p h) v = record {
  set = λ j o. ground (arith, v.set i, v.set j);
  unique = λ j k o q. ground (arith, v.unique j k, v.unique i k, v.unique j i);
  named = λ j e. ground (arith, v.unique i j, v.named j);
  truthful = λ j e. ground (arith, v.truthful j);
}
Step-Inv (unlock i p) v = record {
  set = λ j o. ground (arith, v.unique i j);
  unique = λ j k o q. ground (arith, v.unique j k);
  named = λ j e. ground (arith, v.named j);
  truthful = λ j e. ground (arith, v.truthful j);
}

Reach-Inv : {s : System} → Reach s → Inv s
Reach-Inv here = record {
  set = λ i o. cc;
  unique = λ i j o p. cc;
  named = λ i e. cc;
  truthful = λ i e. cc;
}
Reach-Inv (next r st) = Step-Inv st (Reach-Inv r)

-- In every reachable state at most one CPU is between its winning swap and the store that frees the
-- lock.
pub mutual_exclusion :
    {s : System} → Reach s → (i j : ℕ) → owns (s.pc i) ≡ true → owns (s.pc j) ≡ true → i ≡ j
mutual_exclusion r i j = (Reach-Inv r).unique i j

-- In every reachable state `holding`, as CPU `i` computes it, is true exactly when CPU `i` is in
-- its critical section.
pub holding_exact :
    {s : System} → Reach s → (i : ℕ) → (holding_now s.lock i ≡ true) ↔ (s.pc i ≡ critical)
holding_exact {s} r i =
    (λ h. ground (arith, v.truthful i), λ e. ground (arith, v.named i e, v.set i))
  where
    v : Inv s
    v = Reach-Inv r
