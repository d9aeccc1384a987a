-- ===== src/Proc/Pids.antt =====
-- kernel/proc.c: process ids, whatever operations run on the table.
use os_study.Prelude.{
  get_elem?-set, lt-length, ℕ, ◌+◌, ◌-◌, ◌%◌, ◌^◌, ◌≤◌, ◌<◌, ◌≡◌, ◌≢◌, refl, ap, ◌∙◌, Bool, true,
  false, not, Option, none, some, List, arith, if◌then◌else◌, ◌==◌, get_elem?, set, length,
}
use mathlib.Core.Option
use os_study.Proc.{unused, is_state, Proc, Table, free_slot, wakeup, wake_one}
use os_study.Proc.Wake.{get_elem?-wakeup}

abbrev pub pid_of : Option Proc → ℕ
pid_of none = 0
pid_of (some p) = p.pid

abbrev pub used_of : Option Proc → Bool
used_of none = false
used_of (some p) = not (is_state p.state unused)

abbrev pub pid_at : List Proc → ℕ → ℕ
pid_at ps i = pid_of (get_elem? ps i)

abbrev pub in_use : List Proc → ℕ → Bool
in_use ps i = used_of (get_elem? ps i)

-- A slot has a process id exactly when it is in use, ids are below `nextpid`, and no two slots
-- share one.
pub record Inv (t : Table) : Type 0 where
  pub counting : 0 < t.nextpid
  pub free : (i : ℕ) → in_use t.procs i ≡ false → pid_at t.procs i ≡ 0
  pub busy : (i : ℕ) → in_use t.procs i ≡ true → pid_at t.procs i ≢ 0
  pub low : (i : ℕ) → pid_at t.procs i < t.nextpid
  pub unique : (i j : ℕ) → pid_at t.procs i ≡ pid_at t.procs j → pid_at t.procs i ≢ 0 → i ≡ j

-- Two tables with the same ids.
pub record Alike (s t : Table) : Type 0 where
  pub pids : (i : ℕ) → pid_at t.procs i ≡ pid_at s.procs i
  pub uses : (i : ℕ) → in_use t.procs i ≡ in_use s.procs i
  pub next : t.nextpid ≡ s.nextpid

pub Alike-Inv : {s t : Table} → Alike s t → Inv s → Inv t
Alike-Inv {s} {t} a v = record {
  counting = rw a.next v.counting;
  free = λ i e. ground (arith, a.pids i, a.uses i, v.free i);
  busy = λ i e. ground (arith, a.pids i, a.uses i, v.busy i);
  low = λ i. omega (arith, a.pids i, a.next, v.low i);
  unique = λ i j e n. ground (arith, a.pids i, a.pids j, v.unique i j);
}

wake_one-pid :
    (me chan i : ℕ) (o : Option Proc) → pid_of (Option.map (wake_one me chan i) o) ≡ pid_of o
wake_one-pid me chan i none = refl
wake_one-pid me chan i (some p) = ground arith

wake_one-used :
    (me chan i : ℕ) (o : Option Proc) → used_of (Option.map (wake_one me chan i) o) ≡ used_of o
wake_one-used me chan i none = refl
wake_one-used me chan i (some p) = ground arith

pub Alike-wakeup : (me chan : ℕ) (t : Table) → Alike t (wakeup me chan t)
Alike-wakeup me chan t = record {
  pids =
      λ i. ap pid_of (get_elem?-wakeup me chan t i) ∙ wake_one-pid me chan i (get_elem? t.procs i);
  uses = λ i.
      ap used_of (get_elem?-wakeup me chan t i) ∙ wake_one-used me chan i (get_elem? t.procs i);
  next = unfold wakeup in refl;
}

-- Slot `i` changed, where neither its id nor whether it is in use changes.
pub Alike-set :
    (t : Table) (i : ℕ) (p v : Proc)
    → get_elem? t.procs i ≡ some p
    → v.pid ≡ p.pid
    → is_state v.state unused ≡ is_state p.state unused
    → Alike t (record t { procs = set t.procs i v })
Alike-set t i p v e pid state = record {
  pids = λ k. ap pid_of (get_elem?-set t.procs i k v (lt-length t.procs i e)) ∙ ground arith;
  uses = λ k. ap used_of (get_elem?-set t.procs i k v (lt-length t.procs i e)) ∙ ground arith;
  next = refl;
}

pub pid_at-set :
    (ps : List Proc) (i k : ℕ) (v : Proc)
    → i < length ps
    → pid_at (set ps i v) k ≡ (if i == k then v.pid else pid_at ps k)
pid_at-set ps i k v h = ap pid_of (get_elem?-set ps i k v h) ∙ ground arith

pub in_use-set :
    (ps : List Proc) (i k : ℕ) (v : Proc)
    → i < length ps
    → in_use (set ps i v) k ≡ (if i == k then not (is_state v.state unused) else in_use ps k)
in_use-set ps i k v h = ap used_of (get_elem?-set ps i k v h) ∙ ground arith

-- Slot `i` set free, after `nextpid` may have gone up.
pub Inv-freed :
    (t : Table) (i n : ℕ) (fs : List ℕ)
    → Inv t
    → i < length t.procs
    → t.nextpid ≤ n
    → Inv (record { procs = set t.procs i free_slot; nextpid = n; freed = fs })
Inv-freed t i n fs v h up =
    let pids = λ (k : ℕ). pid_at-set t.procs i k free_slot h in
    let uses = λ (k : ℕ). in_use-set t.procs i k free_slot h in
    record {
      counting = omega (arith, v.counting);
      free = λ k e. ground (arith, pids k, uses k, v.free k);
      busy = λ k e. ground (arith, pids k, uses k, v.busy k);
      low = λ k. ground (arith, pids k, v.low k, v.counting);
      unique = λ j k e n. ground (arith, pids j, pids k, v.unique j k);
    }

-- Slot `i` taken with a new id.
pub Inv-taken :
    (t : Table) (i : ℕ) (q : Proc) (fs : List ℕ)
    → Inv t
    → i < length t.procs
    → t.nextpid < 2 ^ 31 - 1
    → q.pid ≡ t.nextpid
    → is_state q.state unused ≡ false
    → Inv (record { procs = set t.procs i q; nextpid = (t.nextpid + 1) % 2 ^ 32; freed = fs })
Inv-taken t i q fs v h room new busy =
    let step : (t.nextpid + 1) % 2 ^ 32 ≡ t.nextpid + 1 = omega (arith, room) in
    let pids = λ (k : ℕ). pid_at-set t.procs i k q h in
    let uses = λ (k : ℕ). in_use-set t.procs i k q h in
    record {
      counting = omega (arith, step);
      free = λ k e. ground (arith, pids k, uses k, v.free k);
      busy = λ k e. ground (arith, pids k, uses k, v.busy k, v.counting);
      low = λ k. ground (arith, pids k, v.low k, step);
      unique = λ j k e n. ground (arith, pids j, pids k, v.unique j k, v.low j, v.low k);
    }
