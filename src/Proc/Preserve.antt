-- ===== src/Proc/Preserve.antt =====
-- kernel/proc.c: the operations of the table and the order of process ids.
use os_study.Prelude.{
  lt-length, ℕ, zero, suc, ◌-◌, ◌<◌, ◌^◌, ◌≡◌, refl, subst, ◌∙◌, Option-cases, Bool-cases, inl, inr,
  Bool, true, false, Option, none, some, List, arith, ℤ, ok, ◌==◌, get_elem?, length,
}
use os_study.Proc.{
  Proc, Table, Pages, free_slots, procinit, freeproc, allocpid, allocproc, allocate, find_from,
  is_unused, kkill, has_pid,
}
use os_study.Proc.Life.{kexit, exited, kfork, fork_at, kwait, returns, is_dead_child}
use os_study.Proc.Slots.{find_from-Found}
use os_study.Proc.Pids.{
  Alike, Alike-Inv, Alike-set, Alike-wakeup, in_use, pid_at, Inv, Inv-freed, Inv-taken, in_use-set,
}
use os_study.Proc.Alike.{Alike-trans, Alike-move, Alike-reparent}

-- The slot that a search from 0 finds.
pub found_at :
    (test : ℕ → Proc → Bool) (ps : List Proc) (i : ℕ) {p : Proc}
    → find_from test 0 ps ≡ some (i, p)
    → (get_elem? ps i ≡ some p) × (test i p ≡ true)
found_at test ps i e =
    let f = find_from-Found test ps 0 i e in
    let same : i - 0 ≡ i = omega arith in (rw same at f.here, f.passes)

-- `INT_MAX`
abbrev pub max_int : ℕ
max_int = 2 ^ 31 - 1

pub allocate-Inv :
    (t : Table) (g : Pages) (i : ℕ) (p : Proc)
    → get_elem? t.procs i ≡ some p
    → t.nextpid < max_int
    → Inv t
    → Inv (allocate t g i p).1
unfolding allocpid freeproc
allocate-Inv t g i p e low v = elim (Bool-cases (g.trapframe == 0)) [
  | inl h ↦ rw (allocate, h) (Inv-freed t i _ _ v (lt-length t.procs i e) (omega (arith, low)))
  | inr h ↦ (elim (Bool-cases (g.pagetable == 0)) [
    | inl k ↦ rw (allocate, h, k) (Inv-freed t i _ _ v (lt-length t.procs i e) (omega (arith, low)))
    | inr k ↦ rw (allocate, h, k) (Inv-taken t i _ _ v (lt-length t.procs i e) low refl refl)
  ])
]

pub allocproc-Inv : (t : Table) (g : Pages) → t.nextpid < max_int → Inv t → Inv (allocproc t g).1
unfolding allocproc
allocproc-Inv t g low v = elim (Option-cases (find_from is_unused 0 t.procs)) [
  | inl e ↦ rw (allocproc, e) v
  | inr ((i, p), e) ↦
      rw (allocproc, e) (allocate-Inv t g i p (found_at is_unused t.procs i e).0 low v)
]

allocate-in_use :
    (t : Table) (g : Pages) (i k : ℕ) (p : Proc)
    → get_elem? t.procs i ≡ some p
    → (allocate t g i p).0 ≡ some k
    → in_use (allocate t g i p).1.procs k ≡ true
unfolding allocpid freeproc
allocate-in_use t g i k p e = elim (Bool-cases (g.trapframe == 0)) [
  | inl h ↦ rw (allocate, h) (λ o. absurd (cc))
  | inr h ↦ (elim (Bool-cases (g.pagetable == 0)) [
    | inl k ↦ rw (allocate, h, k) (λ o. absurd (cc))
    | inr l ↦
        rw (allocate, h, l)
          (λ o.
            let same : i ≡ k = cc in
            in_use-set t.procs i k _ (lt-length t.procs i e) ∙ ground arith)
  ])
]

allocproc-in_use :
    (t : Table) (g : Pages) (k : ℕ)
    → (allocproc t g).0 ≡ some k
    → in_use (allocproc t g).1.procs k ≡ true
unfolding allocproc
allocproc-in_use t g k = elim (Option-cases (find_from is_unused 0 t.procs)) [
  | inl e ↦ rw (allocproc, e) (λ o. absurd (cc))
  | inr ((i, p), e) ↦
      rw (allocproc, e) (allocate-in_use t g i k p (found_at is_unused t.procs i e).0)
]

pub fork_at-Inv :
    (me : ℕ) (copied : Bool) (t : Table) (o : Option ℕ)
    → Inv t
    → ((i : ℕ) → o ≡ some i → in_use t.procs i ≡ true)
    → Inv (fork_at me copied t o).1
unfolding freeproc
fork_at-Inv me copied t none v busy = v
fork_at-Inv me copied t (some i) v busy = elim (Option-cases (get_elem? t.procs i)) [
  | inl e ↦ rw (fork_at, e) v
  | inr (p, e) ↦ elim (Bool-cases copied) [
    | inl c ↦
        rw (fork_at, e, c) (Alike-Inv (Alike-set t i p _ e refl (ground (arith, busy i refl))) v)
    | inr c ↦ rw (fork_at, e, c) (Inv-freed t i _ _ v (lt-length t.procs i e) (omega arith))
  ]
]

pub kfork-Inv :
    (me : ℕ) (g : Pages) (copied : Bool) (t : Table)
    → t.nextpid < max_int
    → Inv t
    → Inv (kfork me g copied t).1
unfolding kfork
kfork-Inv me g copied t low v =
    fork_at-Inv me copied (allocproc t g).1 (allocproc t g).0 (allocproc-Inv t g low v)
      (allocproc-in_use t g)

exited-Alike :
    (addr : ℕ → ℕ) (init me : ℕ) (status : ℤ) (t : Table)
    → in_use t.procs me ≡ true
    → Alike t (exited addr init me status t)
unfolding exited
exited-Alike addr init me status t busy =
    let orphans = Alike-reparent (length t.procs) 0 init (addr init) me t in
    let woken = Alike-trans orphans (Alike-wakeup me _ _) in
    Alike-trans woken (Alike-move _ me _ (woken.uses me ∙ busy) (λ p. (refl, refl)))

pub kexit-Inv :
    (addr : ℕ → ℕ) (init me : ℕ) (status : ℤ) (t u : Table)
    → in_use t.procs me ≡ true
    → kexit addr init me status t ≡ ok u
    → Inv t
    → Inv u
unfolding kexit
kexit-Inv addr init me status t u busy e v =
    let done : exited addr init me status t ≡ u = ground arith in
    subst Inv done (Alike-Inv (exited-Alike addr init me status t busy) v)

pub kwait-Inv :
    (me : ℕ) (killed copied : Bool) (r : ℤ) (t u : Table)
    → Inv t
    → kwait me killed copied t ≡ returns r u
    → Inv u
unfolding kwait freeproc
kwait-Inv me killed copied r t u v = elim (Option-cases (find_from (is_dead_child me) 0 t.procs)) [
  | inl e ↦ rw (kwait, e) (λ o. let same : t ≡ u = ground arith in subst Inv same v)
  | inr ((i, p), e) ↦ elim (Bool-cases copied) [
    | inl c ↦
        rw (kwait, e, c)
          (λ o.
            let same : freeproc t i p ≡ u = cc in
            subst Inv same (
              Inv-freed t i _ _ v (lt-length t.procs i (found_at (is_dead_child me) t.procs i e).0)
                (omega arith)))
    | inr c ↦ rw (kwait, e, c) (λ o. let same : t ≡ u = cc in subst Inv same v)
  ]
]

pub kkill-Inv : (pid : ℕ) (t : Table) → Inv t → Inv (kkill pid t).1
unfolding kkill
kkill-Inv pid t v = elim (Option-cases (find_from (has_pid pid) 0 t.procs)) [
  | inl e ↦ rw (kkill, e) v
  | inr ((i, p), e) ↦
      rw (kkill, e)
        (Alike-Inv
          (Alike-set t i p _ (found_at (has_pid pid) t.procs i e).0 (ground arith) (ground arith))
          v)
]

free_slots-free : (n i : ℕ) → (pid_at (free_slots n) i ≡ 0) × (in_use (free_slots n) i ≡ false)
unfolding free_slots
free_slots-free zero i = (refl, refl)
free_slots-free (suc n) zero = (refl, refl)
free_slots-free (suc n) (suc i) = free_slots-free n i

pub procinit-Inv : Inv procinit
unfolding procinit
procinit-Inv = record {
  counting = omega arith;
  free = λ i e. (free_slots-free 64 i).0;
  busy = λ i e z. absurd (ground (arith, free_slots-free 64 i));
  low = λ i. omega (arith, free_slots-free 64 i);
  unique = λ i j e n. absurd (ground (arith, free_slots-free 64 i));
}
