-- ===== src/Proc/Life.antt =====
-- kernel/proc.c: how a process comes from its parent and goes: `kfork`, `reparent`, `kexit`, `kwait`.
use os_study.Prelude.{
  ℕ, zero, suc, ◌+◌, Bool, true, false, not, ◌&&◌, ◌||◌, Option, none, some, ℤ, pos, negsuc,
  Outcome, ok, panic, ◌==◌, if◌then◌else◌, set, get_elem?, length,
}
use os_study.Proc.{
  is_state, Proc, Table, same_slot, freeproc, find_from, Pages, allocproc, wakeup, change, runnable,
  zombie,
}

-- One slot of `reparent`: `init` is the slot of `initproc`, `chan` its address.
abbrev pub adopt : ℕ → ℕ → ℕ → ℕ → Proc → Table → Table
adopt init chan me i p t =
    if same_slot p.parent me
    then wakeup me chan (record t { procs = set t.procs i (record p { parent = some init }) })
    else t

abbrev pub adopt_at : ℕ → ℕ → ℕ → ℕ → Table → Table
adopt_at init chan me i t = elim (get_elem? t.procs i) [
  | none ↦ t
  | some p ↦ adopt init chan me i p t
]

-- `reparent(p)` by its process in slot `me`, for the `k` slots from `i` on.
unfoldable pub reparent_from : ℕ → ℕ → ℕ → ℕ → ℕ → Table → Table
unfolding wakeup
reparent_from zero i init chan me t = t
reparent_from (suc k) i init chan me t =
    reparent_from k (i + 1) init chan me (adopt_at init chan me i t)

abbrev pub parent_of : ℕ → Table → Option ℕ
parent_of i t = elim (get_elem? t.procs i) [ none ↦ none | some p ↦ p.parent ]

abbrev pub chan_of : (ℕ → ℕ) → Option ℕ → ℕ
chan_of addr none = 0
chan_of addr (some j) = addr j

-- What `kexit` by slot `me` does to the table after its test, up to its call of `sched`; `addr`
-- gives the address of a slot. The files and the directory that it closes are no part of the table.
unfoldable pub exited : (ℕ → ℕ) → ℕ → ℕ → ℤ → Table → Table
unfolding reparent_from wakeup
exited addr init me status t =
    let t1 = reparent_from (length t.procs) 0 init (addr init) me t in
    change me (λ p. record p { xstate = status; state = zombie })
      (wakeup me (chan_of addr (parent_of me t1)) t1)

unfoldable pub kexit : (ℕ → ℕ) → ℕ → ℕ → ℤ → Table → Outcome Table
unfolding exited
kexit addr init me status t =
    if me == init then panic "init exiting" else ok (exited addr init me status t)

abbrev pub sz_of : ℕ → Table → ℕ
sz_of i t = elim (get_elem? t.procs i) [ none ↦ 0 | some p ↦ p.sz ]

-- `kfork` by slot `me`: `copied` says that `uvmcopy` works. The result is the child's process id, or
-- -1.
abbrev pub fork_into : ℕ → Bool → Table → ℕ → Proc → ℤ × Table
fork_into me copied t i np = if not copied then (negsuc 0, freeproc t i np) else (
  pos np.pid,
  record t {
    procs = set t.procs i (record np { sz = sz_of me t; parent = some me; state = runnable });
  },
)

abbrev pub fork_at : ℕ → Bool → Table → Option ℕ → ℤ × Table
fork_at me copied t none = (negsuc 0, t)
fork_at me copied t (some i) = elim (get_elem? t.procs i) [
  | none ↦ (negsuc 0, t)
  | some np ↦ fork_into me copied t i np
]

unfoldable pub kfork : ℕ → Pages → Bool → Table → ℤ × Table
unfolding allocproc freeproc
kfork me g copied t = let (o, t1) = allocproc t g in fork_at me copied t1 o

-- What one run through the table of `kwait` ends in. `sleeps` waits for a child to exit.
pub data Waited : Type 0 where
  returns : ℤ → Table → Waited
  sleeps : Waited

abbrev pub is_child : ℕ → ℕ → Proc → Bool
is_child me i p = same_slot p.parent me

abbrev pub is_dead_child : ℕ → ℕ → Proc → Bool
is_dead_child me i p = same_slot p.parent me && is_state p.state zombie

abbrev pub is_some {ℓ} : {A : Type ℓ} → Option A → Bool
is_some none = false
is_some (some a) = true

-- `kwait(addr)` of slot `me`: `killed` is its own flag, `copied` says that `addr` is 0 or that
-- `copyout` of the exit status works.
unfoldable pub kwait : ℕ → Bool → Bool → Table → Waited
unfolding find_from freeproc
kwait me killed copied t = elim (find_from (is_dead_child me) 0 t.procs) [
  | some (i, p) ↦ if copied then returns (pos p.pid) (freeproc t i p) else returns (negsuc 0) t
  | none ↦
      if not (is_some (find_from (is_child me) 0 t.procs)) || killed
      then returns (negsuc 0) t
      else sleeps
]
