-- ===== src/Proc.antt =====
-- kernel/proc.c: the process table. A process is named by its slot in `proc[]`; `chan` and the
-- addresses of pages are numbers, with 0 for null. The sections under `p->lock` and `wait_lock` are
-- single steps. A process id is its 32 bits. Open files, the working directory, the saved registers
-- and the name are left out.
pub mod Life
pub mod Slots
pub mod Pids
pub mod Alike
pub mod Preserve
pub mod Reach
pub mod Wake
pub mod Orphans
pub mod Exit
pub mod Wait
pub mod SleepWake
pub mod NoLostWakeup
use os_study.Prelude.{
  ℕ, zero, suc, ◌+◌, ◌%◌, ◌^◌, ◌-◌, ◌*◌, Bool, true, false, not, ◌&&◌, ◌||◌, Option, none, some,
  List, [], ◌∷◌, ◌++◌, ℤ, pos, negsuc, Outcome, ok, panic, blocked, ◌==◌, if◌then◌else◌, set,
  get_elem?, length,
}

pub data ProcState : Type 0 where
  unused used sleeping runnable running zombie : ProcState

abbrev pub is_state : ProcState → ProcState → Bool
is_state unused unused = true
is_state used used = true
is_state sleeping sleeping = true
is_state runnable runnable = true
is_state running running = true
is_state zombie zombie = true
is_state _ _ = false

pub record Proc : Type 0 where
  pub state : ProcState
  pub chan : ℕ
  pub killed : Bool
  pub xstate : ℤ
  pub pid : ℕ
  pub parent : Option ℕ
  pub sz : ℕ
  pub pagetable : ℕ
  pub trapframe : ℕ

-- `proc[]`, `nextpid`, and what `kfree` and `proc_freepagetable` have been given back.
pub record Table : Type 0 where
  pub procs : List Proc
  pub nextpid : ℕ
  pub freed : List ℕ

abbrev pub same_slot : Option ℕ → ℕ → Bool
same_slot none i = false
same_slot (some j) i = j == i

-- `nextpid` is an `int`, here by its 32 bits.
unfoldable pub allocpid : Table → ℕ × Table
allocpid t = (t.nextpid, record t { nextpid = (t.nextpid + 1) % 2 ^ 32 })

abbrev pub given_back : ℕ → List ℕ
given_back a = if a == 0 then [] else a ∷ []

-- The fields that `freeproc` leaves.
abbrev pub free_slot : Proc
free_slot = record {
  state = unused;
  chan = 0;
  killed = false;
  xstate = pos 0;
  pid = 0;
  parent = none;
  sz = 0;
  pagetable = 0;
  trapframe = 0;
}

unfoldable pub free_slots : ℕ → List Proc
free_slots zero = []
free_slots (suc n) = free_slot ∷ free_slots n

-- `procinit` makes every slot free, `NPROC` of them; process ids start at 1.
unfoldable pub procinit : Table
unfolding free_slots
procinit = record { procs = free_slots 64; nextpid = 1; freed = [] }

-- `freeproc` of slot `i`, whose process is `p`.
unfoldable pub freeproc : Table → ℕ → Proc → Table
freeproc t i p = record t {
  procs = set t.procs i free_slot;
  freed = t.freed ++ (given_back p.trapframe ++ given_back p.pagetable);
}

-- The first slot from `i` on whose process passes the test, with that process.
unfoldable pub find_from : (ℕ → Proc → Bool) → ℕ → List Proc → Option (ℕ × Proc)
find_from test i [] = none
find_from test i (p ∷ ps) =
    let rest = find_from test (i + 1) ps in if test i p then some (i, p) else rest

abbrev pub is_unused : ℕ → Proc → Bool
is_unused i p = is_state p.state unused

-- The results of `kalloc` and `proc_pagetable`; 0 when they fail.
pub record Pages : Type 0 where
  pub trapframe : ℕ
  pub pagetable : ℕ

abbrev pub allocate : Table → Pages → ℕ → Proc → Option ℕ × Table
allocate t g i p =
    let (n, t1) = allocpid t in
    let p1 = record p { pid = n; state = used; trapframe = g.trapframe } in
    if g.trapframe == 0
    then (none, freeproc t1 i p1)
    else let p2 = record p1 { pagetable = g.pagetable } in
      if g.pagetable == 0
      then (none, freeproc t1 i p2)
      else (some i, record t1 { procs = set t1.procs i p2 })

-- `allocproc`: the slot of the new process, if there is one.
unfoldable pub allocproc : Table → Pages → Option ℕ × Table
unfolding allocpid freeproc find_from
allocproc t g = elim (find_from is_unused 0 t.procs) [
  | none ↦ (none, t)
  | some (i, p) ↦ allocate t g i p
]

-- Each process, with its slot, changed by `f`: a loop over the whole table.
unfoldable pub each_from : (ℕ → Proc → Proc) → ℕ → List Proc → List Proc
each_from f i [] = []
each_from f i (p ∷ ps) = f i p ∷ each_from f (i + 1) ps

abbrev pub wake_one : ℕ → ℕ → ℕ → Proc → Proc
wake_one me chan i p =
    if not (i == me) && (is_state p.state sleeping && (p.chan == chan))
    then record p { state = runnable }
    else p

-- `wakeup(chan)` by the process in slot `me`.
unfoldable pub wakeup : ℕ → ℕ → Table → Table
unfolding each_from
wakeup me chan t = record t { procs = each_from (wake_one me chan) 0 t.procs }

-- The fields of slot `i` changed by `f`.
abbrev pub change : ℕ → (Proc → Proc) → Table → Table
change i f t = elim (get_elem? t.procs i) [
  | none ↦ t
  | some p ↦ record t { procs = set t.procs i (f p) }
]

-- `yield` by slot `me`, up to its call of `sched`.
unfoldable pub yield : ℕ → Table → Table
yield me t = change me (λ p. record p { state = runnable }) t

-- `sleep` by slot `me`, up to its call of `sched`, and what it tidies up after it.
unfoldable pub sleep : ℕ → ℕ → Table → Table
sleep me chan t = change me (λ p. record p { chan = chan; state = sleeping }) t

unfoldable pub awake : ℕ → Table → Table
awake me t = change me (λ p. record p { chan = 0 }) t

abbrev pub run_one : Proc → Proc
run_one p = if is_state p.state runnable then record p { state = running } else p

-- The body of `scheduler`'s loop over the table, for slot `i`, up to its call of `swtch`.
unfoldable pub dispatch : ℕ → Table → Table
dispatch i t = change i run_one t

abbrev pub has_pid : ℕ → ℕ → Proc → Bool
has_pid pid i p = p.pid == pid

abbrev pub kill_proc : Proc → Proc
kill_proc p =
    let p1 = record p { killed = true } in
    if is_state p.state sleeping then record p1 { state = runnable } else p1

-- `kkill`: 0 or -1
unfoldable pub kkill : ℕ → Table → ℤ × Table
unfolding find_from
kkill pid t = elim (find_from (has_pid pid) 0 t.procs) [
  | none ↦ (negsuc 0, t)
  | some (i, p) ↦ (pos 0, record t { procs = set t.procs i (kill_proc p) })
]

unfoldable pub setkilled : ℕ → Table → Table
setkilled i t = change i (λ p. record p { killed = true }) t
