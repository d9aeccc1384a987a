-- ===== src/Proc/Wait.antt =====
-- kernel/proc.c: every outcome of a run of `kwait` through the table.
use os_study.Prelude.{
  ℕ, ◌+◌, ◌≡◌, refl, Option-cases, Bool-cases, inl, inr, Bool, true, false, ◌&&◌, none, some, List,
  [], ◌∷◌, arith, pos, negsuc, All, get_elem?,
}
use os_study.Proc.{Proc, Table, zombie, is_state, same_slot, find_from, freeproc}
use os_study.Proc.Life.{kwait, Waited, returns, sleeps, is_child, is_dead_child}
use os_study.Proc.Preserve.{found_at}

-- The table has no child of `me`.
abbrev pub Childless : ℕ → Table → Type 0
Childless me t = All (λ p. same_slot p.parent me ≡ false) t.procs

abbrev pub NoneDead : ℕ → Table → Type 0
NoneDead me t = All (λ p. (same_slot p.parent me && is_state p.state zombie) ≡ false) t.procs

-- What `kwait` may end in, and when.
pub data Outcomes (me : ℕ) (killed copied : Bool) (t : Table) : Waited → Type 0 where
  reaped :
      (i : ℕ) (p : Proc)
      → get_elem? t.procs i ≡ some p
      → same_slot p.parent me ≡ true
      → is_state p.state zombie ≡ true
      → copied ≡ true
      → Outcomes me killed copied t (returns (pos p.pid) (freeproc t i p))
  not_copied :
      (i : ℕ) (p : Proc)
      → get_elem? t.procs i ≡ some p
      → same_slot p.parent me ≡ true
      → is_state p.state zombie ≡ true
      → copied ≡ false
      → Outcomes me killed copied t (returns (negsuc 0) t)
  childless : Childless me t → Outcomes me killed copied t (returns (negsuc 0) t)
  was_killed : NoneDead me t → killed ≡ true → Outcomes me killed copied t (returns (negsuc 0) t)
  waiting :
      (i : ℕ) (p : Proc)
      → get_elem? t.procs i ≡ some p
      → same_slot p.parent me ≡ true
      → NoneDead me t
      → killed ≡ false
      → Outcomes me killed copied t sleeps

none-All :
    (f : Proc → Bool) (i : ℕ) (ps : List Proc)
    → find_from (λ k. f) i ps ≡ none
    → All (λ p. f p ≡ false) ps
unfolding find_from
none-All f i [] e = tt
none-All f i (p ∷ ps) e = (ground arith, none-All f (i + 1) ps (ground arith))

-- `kwait` frees a dead child and returns its id, or returns -1 when the status cannot be copied
-- out, when there is no child, or when the caller was killed and no child is dead; it sleeps only
-- when it has a child, no child is dead and it was not killed.
pub kwait_lem :
    (me : ℕ) (killed copied : Bool) (t : Table)
    → Outcomes me killed copied t (kwait me killed copied t)
unfolding kwait
kwait_lem me killed copied t = elim (Option-cases (find_from (is_dead_child me) 0 t.procs)) [
  | inl e ↦ elim (Option-cases (find_from (is_child me) 0 t.procs)) [
    | inl n ↦ rw (kwait, e, n) (childless (none-All (λ p. same_slot p.parent me) 0 t.procs n))
    | inr ((i, p), f) ↦
        (let (here, child) = found_at (is_child me) t.procs i f in
          let alive =
            none-All (λ p. same_slot p.parent me && is_state p.state zombie) 0 t.procs e in
          elim (Bool-cases killed) [
            | inl k ↦ rw (kwait, e, f, k) (was_killed alive refl)
            | inr k ↦ rw (kwait, e, f, k) (waiting i p here child alive refl)
          ])
  ]
  | inr ((i, p), e) ↦
      let (here, dead) = found_at (is_dead_child me) t.procs i e in
      elim (Bool-cases copied) [
        | inl c ↦ rw (kwait, e, c) (reaped i p here (ground arith) (ground arith) refl)
        | inr c ↦ rw (kwait, e, c) (not_copied i p here (ground arith) (ground arith) refl)
      ]
]
