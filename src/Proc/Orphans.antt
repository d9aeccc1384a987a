-- ===== src/Proc/Orphans.antt =====
-- kernel/proc.c: `reparent`, slot by slot.
use os_study.Prelude.{
  get_elem?-set, lt-length, ℕ, zero, suc, ◌+◌, ◌≡◌, refl, ap, ◌∙◌, Option-cases, Bool-cases, inl,
  inr, Bool, true, false, ◌&&◌, ◌||◌, Option, none, some, arith, if◌then◌else◌, ◌==◌, ltb, leb,
  get_elem?,
}
use mathlib.Core.Option
use os_study.Proc.{sleeping, runnable, is_state, Proc, Table, wake_one, same_slot}
use os_study.Proc.Life.{adopt, adopt_at, reparent_from}
use os_study.Proc.Wake.{get_elem?-wakeup}

-- A slot after one round of `reparent` at slot `i`.
get_elem?-adopt :
    (init chan me i j : ℕ) (p : Proc) (t : Table)
    → get_elem? t.procs i ≡ some p
    → same_slot p.parent me ≡ true
    → get_elem? (adopt init chan me i p t).procs j
      ≡ Option.map
          (wake_one me chan j)
          (if i == j then some (record p { parent = some init }) else get_elem? t.procs j)
get_elem?-adopt init chan me i j p t e h =
    rw (adopt, h)
      (get_elem?-wakeup me chan _ j
        ∙ ap (Option.map (wake_one me chan j))
            (get_elem?-set t.procs i j _ (lt-length t.procs i e)))

adopt_at-own :
    (init chan me i : ℕ) (t : Table) (p : Proc)
    → get_elem? t.procs me ≡ some p
    → same_slot p.parent me ≡ false
    → get_elem? (adopt_at init chan me i t).procs me ≡ some p
adopt_at-own init chan me i t p e h = elim (Option-cases (get_elem? t.procs i)) [
  | inl n ↦ rw (adopt_at, n) e
  | inr (q, n) ↦
      rw (adopt_at, n)
        (elim (Bool-cases (same_slot q.parent me)) [
          | inl c ↦ get_elem?-adopt init chan me i me q t n c ∙ ground (arith, e, n)
          | inr c ↦ rw (adopt, c) e
        ])
]

-- The exiting process's own slot, which is not its own child.
pub reparent-own :
    (k i init chan me : ℕ) (t : Table) (p : Proc)
    → get_elem? t.procs me ≡ some p
    → same_slot p.parent me ≡ false
    → get_elem? (reparent_from k i init chan me t).procs me ≡ some p
unfolding reparent_from
reparent-own zero i init chan me t p e h = e
reparent-own (suc k) i init chan me t p e h =
    reparent-own k (i + 1) init chan me _ p (adopt_at-own init chan me i t p e h) h

-- A process that sleeps on `chan`, or that has been woken.
abbrev pub awaits : ℕ → Option Proc → Bool
awaits chan none = false
awaits chan (some p) = (is_state p.state sleeping && (p.chan == chan)) || is_state p.state runnable

pub awaits-wake_one :
    (me chan c j : ℕ) (o : Option Proc)
    → awaits c o ≡ true
    → awaits c (Option.map (wake_one me chan j) o) ≡ true
awaits-wake_one me chan c j none h = h
awaits-wake_one me chan c j (some p) h = ground arith

adopt_at-awaits :
    (init chan me c i j : ℕ) (t : Table)
    → awaits c (get_elem? t.procs j) ≡ true
    → awaits c (get_elem? (adopt_at init chan me i t).procs j) ≡ true
adopt_at-awaits init chan me c i j t h = elim (Option-cases (get_elem? t.procs i)) [
  | inl n ↦ rw (adopt_at, n) h
  | inr (q, n) ↦
      rw (adopt_at, n)
        (elim (Bool-cases (same_slot q.parent me)) [
          | inl d ↦
              ap (awaits c) (get_elem?-adopt init chan me i j q t n d)
              ∙ awaits-wake_one me chan c j _ (ground (arith, n))
          | inr d ↦ rw (adopt, d) h
        ])
]

pub reparent-awaits :
    (k i init chan me c j : ℕ) (t : Table)
    → awaits c (get_elem? t.procs j) ≡ true
    → awaits c (get_elem? (reparent_from k i init chan me t).procs j) ≡ true
unfolding reparent_from
reparent-awaits zero i init chan me c j t h = h
reparent-awaits (suc k) i init chan me c j t h =
    reparent-awaits k (i + 1) init chan me c j _ (adopt_at-awaits init chan me c i j t h)

abbrev pub parent_in : Option Proc → Option ℕ
parent_in none = none
parent_in (some p) = p.parent

abbrev pub adopted : ℕ → ℕ → Option ℕ → Option ℕ
adopted init me o = if same_slot o me then some init else o

wake_one-parent :
    (me chan j : ℕ) (o : Option Proc) → parent_in (Option.map (wake_one me chan j) o) ≡ parent_in o
wake_one-parent me chan j none = refl
wake_one-parent me chan j (some p) = ground arith

adopt_at-parent :
    (init chan me i j : ℕ) (t : Table)
    → parent_in (get_elem? (adopt_at init chan me i t).procs j) ≡ (
        if i == j
        then adopted init me (parent_in (get_elem? t.procs j))
        else parent_in (get_elem? t.procs j))
adopt_at-parent init chan me i j t = elim (Option-cases (get_elem? t.procs i)) [
  | inl n ↦ rw (adopt_at, n) (ground (arith, n))
  | inr (q, n) ↦
      rw (adopt_at, n)
        (elim (Bool-cases (same_slot q.parent me)) [
          | inl d ↦
              ap parent_in (get_elem?-adopt init chan me i j q t n d)
              ∙ wake_one-parent me chan j _
              ∙ ground (arith, n, d)
          | inr d ↦ rw (adopt, d) (ground (arith, n, d))
        ])
]

-- The loop passes slot `j` once if it is among the `k` slots from `i` on.
pub reparent-parent :
    (k i init chan me j : ℕ) (t : Table)
    → parent_in (get_elem? (reparent_from k i init chan me t).procs j) ≡ (
        if leb i j && ltb j (i + k)
        then adopted init me (parent_in (get_elem? t.procs j))
        else parent_in (get_elem? t.procs j))
unfolding reparent_from
reparent-parent zero i init chan me j t = ground arith
reparent-parent (suc k) i init chan me j t =
    reparent-parent k (i + 1) init chan me j _ ∙ ground (arith, adopt_at-parent init chan me i j t)
