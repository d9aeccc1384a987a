-- ===== src/Proc/Exit.antt =====
-- kernel/proc.c: what `kexit` leaves to the children, to the parent and for `kwait`.
use os_study.Prelude.{
  ◌&&◌, ◌⊎◌, ==→eq, ==→ne, Bool-cases, true≢false, panic, get_elem?-set, lt-length, ℕ, ◌≡◌, ◌≢◌,
  refl, ap, sym, ◌∙◌, Option-cases, inl, inr, Bool, true, false, Option, none, some, arith, ℤ, ok,
  if◌then◌else◌, ◌==◌, ne→==, get_elem?, length,
}
use mathlib.Core.Option
use os_study.Proc.{same_slot, runnable, zombie, is_state, Proc, Table, change, wakeup, wake_one}
use os_study.Proc.Life.{reparent_from, parent_of, chan_of, exited, kexit}
use os_study.Proc.Wake.{get_elem?-wakeup}
use os_study.Proc.Orphans.{
  reparent-own, reparent-awaits, awaits, reparent-parent, parent_in, adopted,
}

get_elem?-change :
    (t : Table) (i j : ℕ) (f : Proc → Proc)
    → get_elem? (change i f t).procs j
      ≡ (if i == j then Option.map f (get_elem? t.procs j) else get_elem? t.procs j)
get_elem?-change t i j f = elim (Option-cases (get_elem? t.procs i)) [
  | inl n ↦ rw (change, n) (ground (arith, n))
  | inr (p, n) ↦
      rw (change, n) (get_elem?-set t.procs i j (f p) (lt-length t.procs i n) ∙ ground (arith, n))
]

abbrev orphaned : (ℕ → ℕ) → ℕ → ℕ → Table → Table
orphaned addr init me t = reparent_from (length t.procs) 0 init (addr init) me t

-- The channel that `kexit` wakes.
parent_of-orphaned :
    (addr : ℕ → ℕ) (init me parent : ℕ) (t : Table) (p : Proc)
    → get_elem? t.procs me ≡ some p
    → p.parent ≡ some parent
    → parent ≢ me
    → (get_elem? (orphaned addr init me t).procs me ≡ some p)
      × (parent_of me (orphaned addr init me t) ≡ some parent)
parent_of-orphaned addr init me parent t p here son away =
    let own = reparent-own (length t.procs) 0 init (addr init) me t p here (ground arith) in
    (own, rw (parent_of, own) son)

abbrev to_zombie : ℤ → Proc → Proc
to_zombie status p = record p { xstate = status; state = zombie }

exited_lem :
    (addr : ℕ → ℕ) (init me parent : ℕ) (status : ℤ) (t : Table)
    → parent_of me (orphaned addr init me t) ≡ some parent
    → exited addr init me status t
      ≡ change me (to_zombie status) (wakeup me (addr parent) (orphaned addr init me t))
unfolding exited
exited_lem addr init me parent status t e =
    ap (λ o. change me (to_zombie status) (wakeup me (chan_of addr o) (orphaned addr init me t))) e

abbrev pub runs : Option Proc → Bool
runs none = false
runs (some q) = is_state q.state runnable

wake_one-awaits :
    (me c j : ℕ) (o : Option Proc)
    → j ≢ me
    → awaits c o ≡ true
    → runs (Option.map (wake_one me c j) o) ≡ true
wake_one-awaits me c j none away h = absurd (ground arith)
wake_one-awaits me c j (some q) away h = ground arith

-- `u` is `t` after the exit of `me`, which was `p`, for its parent if that is `parent`.
abbrev pub Exited : (ℕ → ℕ) → ℕ → ℕ → ℤ → Table → Proc → Table → Type 0
Exited addr me parent status t p u =
    (get_elem? u.procs me ≡ some (record p { xstate = status; state = zombie }))
    × ((if same_slot p.parent parent && awaits (addr parent) (get_elem? t.procs parent)
          then runs (get_elem? u.procs parent)
          else true)
        ≡ true)

same_slot-some : (o : Option ℕ) (i : ℕ) → same_slot o i ≡ true → o ≡ some i
same_slot-some none i e = absurd (cc)
same_slot-some (some j) i e = ap (λ x. some x) (==→eq j i e)

own_slot :
    (addr : ℕ → ℕ) (init me : ℕ) (status : ℤ) (t : Table) (p : Proc)
    → get_elem? t.procs me ≡ some p
    → same_slot p.parent me ≡ false
    → get_elem? (exited addr init me status t).procs me
      ≡ some (record p { xstate = status; state = zombie })
unfolding exited
own_slot addr init me status t p here other =
    let t1 = orphaned addr init me t in
    let own = reparent-own (length t.procs) 0 init (addr init) me t p here other in
    let chan = chan_of addr (parent_of me t1) in
    get_elem?-change (wakeup me chan t1) me me (to_zombie status)
    ∙ ground (arith, get_elem?-wakeup me chan t1 me, own)

parent_slot :
    (addr : ℕ → ℕ) (init me parent : ℕ) (status : ℤ) (t : Table) (p : Proc)
    → get_elem? t.procs me ≡ some p
    → p.parent ≡ some parent
    → parent ≢ me
    → awaits (addr parent) (get_elem? t.procs parent) ≡ true
    → runs (get_elem? (exited addr init me status t).procs parent) ≡ true
parent_slot addr init me parent status t p here son away asleep =
    let (_, chan) = parent_of-orphaned addr init me parent t p here son away in
    let woken = get_elem?-wakeup me (addr parent) (orphaned addr init me t) parent in
    let waiting =
      reparent-awaits (length t.procs) 0 init (addr init) me (addr parent) parent t asleep in
    ap (λ u. runs (get_elem? u.procs parent)) (exited_lem addr init me parent status t chan)
    ∙ ap runs (
        get_elem?-change _ me parent (to_zombie status)
        ∙ rw (ne→== me parent (λ e. away (sym e))) woken)
    ∙ wake_one-awaits me (addr parent) parent _ away waiting

both_true : (a b : Bool) → (a && b) ≡ true → (a ≡ true) × (b ≡ true)
both_true true b e = (refl, e)
both_true false b e = absurd (cc)

-- `kexit` of a process that is not its own parent panics if and only if that is `init`. Otherwise
-- its slot becomes a zombie with its exit status and is else unchanged, and its parent is runnable
-- if it slept in `kwait`, that is on its own address, or was runnable.
pub kexit_lem :
    (addr : ℕ → ℕ) (init me parent : ℕ) (status : ℤ) (t : Table) {p : Proc}
    → get_elem? t.procs me ≡ some p
    → same_slot p.parent me ≡ false
    → ((me ≡ init) × (kexit addr init me status t ≡ panic "init exiting"))
      ⊎ ((me ≢ init)
          × ((u : Table) × (kexit addr init me status t ≡ ok u)
              × Exited addr me parent status t p u))
unfolding kexit
kexit_lem addr init me parent status t {p} here other = elim (Bool-cases (me == init)) [
  | inl e ↦ inl (==→eq me init e, rw (kexit, e) refl)
  | inr e ↦ inr (
    ==→ne me init e,
    (
      exited addr init me status t,
      rw (kexit, e) refl,
      (
        own_slot addr init me status t p here other,
        elim (Bool-cases
            (same_slot p.parent parent && awaits (addr parent) (get_elem? t.procs parent))) [
              | inr off ↦ rw off refl
              | inl on ↦ rw on (
                  parent_slot addr init me parent status t p here
                    (same_slot-some p.parent parent (both_true _ _ on).0)
                    (λ same.
                      true≢false (sym (both_true _ _ on).0 ∙ ap (same_slot p.parent) same ∙ other))
                    (both_true _ _ on).1)
            ],
      ),
    ),
  )
]

wake_one-parent :
    (me chan j : ℕ) (o : Option Proc) → parent_in (Option.map (wake_one me chan j) o) ≡ parent_in o
wake_one-parent me chan j none = refl
wake_one-parent me chan j (some p) = ground arith

to_zombie-parent :
    (status : ℤ) (mine : Bool) (o : Option Proc)
    → parent_in (if mine then Option.map (to_zombie status) o else o) ≡ parent_in o
to_zombie-parent status true none = refl
to_zombie-parent status true (some p) = refl
to_zombie-parent status false o = refl

orphaned-parent :
    (addr : ℕ → ℕ) (init me j : ℕ) (t : Table)
    → parent_in (get_elem? (orphaned addr init me t).procs j)
      ≡ adopted init me (parent_in (get_elem? t.procs j))
orphaned-parent addr init me j t =
    reparent-parent (length t.procs) 0 init (addr init) me j t
    ∙ elim (Option-cases (get_elem? t.procs j)) [
      | inl e ↦ rw e (ground arith)
      | inr (p, e) ↦ ground (arith, lt-length t.procs j e)
    ]

-- `kexit` gives the children of the process that exits to `init`, and leaves every other process
-- its parent.
pub exited-parent :
    (addr : ℕ → ℕ) (init me : ℕ) (status : ℤ) (t : Table) (j : ℕ)
    → parent_in (get_elem? (exited addr init me status t).procs j)
      ≡ adopted init me (parent_in (get_elem? t.procs j))
unfolding exited
exited-parent addr init me status t j =
    let t1 = orphaned addr init me t in
    let chan = chan_of addr (parent_of me t1) in
    ap parent_in (get_elem?-change (wakeup me chan t1) me j (to_zombie status))
    ∙ to_zombie-parent status (me == j) (get_elem? (wakeup me chan t1).procs j)
    ∙ ap parent_in (get_elem?-wakeup me chan t1 j)
    ∙ wake_one-parent me chan j (get_elem? t1.procs j)
    ∙ orphaned-parent addr init me j t
