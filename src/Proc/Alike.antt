-- ===== src/Proc/Alike.antt =====
-- kernel/proc.c: process ids across operations on other fields.
use os_study.Prelude.{
  ℕ, zero, suc, ◌+◌, ◌≡◌, refl, ◌∙◌, Option-cases, Bool-cases, inl, inr, true, false, some, arith,
  get_elem?,
}
use os_study.Proc.{unused, is_state, Proc, Table, change, same_slot}
use os_study.Proc.Life.{adopt, adopt_at, reparent_from}
use os_study.Proc.Pids.{Alike, Alike-set, Alike-wakeup, in_use}

pub Alike-refl : (t : Table) → Alike t t
Alike-refl t = record { pids = λ i. refl; uses = λ i. refl; next = refl }

pub Alike-trans : {s t u : Table} → Alike s t → Alike t u → Alike s u
Alike-trans a b = record {
  pids = λ i. b.pids i ∙ a.pids i;
  uses = λ i. b.uses i ∙ a.uses i;
  next = b.next ∙ a.next;
}

pub Alike-change :
    (t : Table) (i : ℕ) (f : Proc → Proc)
    → ((p : Proc)
        → get_elem? t.procs i ≡ some p
        → ((f p).pid ≡ p.pid) × (is_state (f p).state unused ≡ is_state p.state unused))
    → Alike t (change i f t)
Alike-change t i f h = elim (Option-cases (get_elem? t.procs i)) [
  | inl e ↦ rw (change, e) (Alike-refl t)
  | inr (p, e) ↦ rw (change, e) (Alike-set t i p (f p) e (h p e).0 (h p e).1)
]

-- A slot in use may be given any state but `UNUSED`.
pub Alike-move :
    (t : Table) (i : ℕ) (f : Proc → Proc)
    → in_use t.procs i ≡ true
    → ((p : Proc) → ((f p).pid ≡ p.pid) × (is_state (f p).state unused ≡ false))
    → Alike t (change i f t)
Alike-move t i f busy h = Alike-change t i f λ p e. ((h p).0, ground (arith, h p))

Alike-adopt :
    (init chan me i : ℕ) (p : Proc) (t : Table)
    → get_elem? t.procs i ≡ some p
    → Alike t (adopt init chan me i p t)
Alike-adopt init chan me i p t e = elim (Bool-cases (same_slot p.parent me)) [
  | inl h ↦ rw h (
      Alike-trans (Alike-set t i p (record p { parent = some init }) e refl refl)
        (Alike-wakeup me chan _))
  | inr h ↦ rw h (Alike-refl t)
]

Alike-adopt_at : (init chan me i : ℕ) (t : Table) → Alike t (adopt_at init chan me i t)
Alike-adopt_at init chan me i t = elim (Option-cases (get_elem? t.procs i)) [
  | inl e ↦ rw (adopt_at, e) (Alike-refl t)
  | inr (p, e) ↦ rw (adopt_at, e) (Alike-adopt init chan me i p t e)
]

pub Alike-reparent : (k i init chan me : ℕ) (t : Table) → Alike t (reparent_from k i init chan me t)
unfolding reparent_from
Alike-reparent zero i init chan me t = Alike-refl t
Alike-reparent (suc k) i init chan me t =
    Alike-trans (Alike-adopt_at init chan me i t) (Alike-reparent k (i + 1) init chan me _)
