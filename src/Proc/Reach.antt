-- ===== src/Proc/Reach.antt =====
-- kernel/proc.c: the tables that the operations can make from the one of `procinit`.
use os_study.Prelude.{
  ℕ, ◌<◌, ◌≡◌, ◌≢◌, refl, ap, sym, ◌∙◌, Option-cases, Bool-cases, inl, inr, Bool, true, false, some,
  arith, ℤ, pos, ok, ◌==◌, ==→eq, ==→ne, get_elem?, set,
}
use os_study.Proc.{
  unused, is_state, Proc, Table, Pages, procinit, allocproc, find_from, wakeup, run_one, yield,
  sleep, awake, dispatch, kkill, kill_proc, has_pid, setkilled,
}
use os_study.Proc.Life.{kexit, kfork, kwait, returns}
use os_study.Proc.Slots.{find_from-none}
use os_study.Proc.Pids.{Alike-Inv, Alike-wakeup, in_use, pid_at, Inv}
use os_study.Proc.Alike.{Alike-change, Alike-move}
use os_study.Proc.Preserve.{
  max_int, found_at, allocproc-Inv, kfork-Inv, kexit-Inv, kwait-Inv, kkill-Inv, procinit-Inv,
}

-- One operation. The process that yields, sleeps or exits is in a slot in use.
pub data Step (t : Table) : Table → Type 0 where
  alloc : (g : Pages) → Step t (allocproc t g).1
  fork : (me : ℕ) (g : Pages) (copied : Bool) → Step t (kfork me g copied t).1
  exit :
      (addr : ℕ → ℕ) (init me : ℕ) (status : ℤ) {u : Table}
      → in_use t.procs me ≡ true
      → kexit addr init me status t ≡ ok u
      → Step t u
  wait :
      (me : ℕ) (killed copied : Bool) (r : ℤ) {u : Table}
      → kwait me killed copied t ≡ returns r u
      → Step t u
  yields : (me : ℕ) → in_use t.procs me ≡ true → Step t (yield me t)
  dozes : (me chan : ℕ) → in_use t.procs me ≡ true → Step t (sleep me chan t)
  resumes : (me : ℕ) → Step t (awake me t)
  wakes : (me chan : ℕ) → Step t (wakeup me chan t)
  dispatches : (i : ℕ) → Step t (dispatch i t)
  kills : (pid : ℕ) → Step t (kkill pid t).1
  marks : (i : ℕ) → Step t (setkilled i t)

-- As long as `nextpid`, an `int`, can still be counted up
pub data Reach : Table → Type 0 where
  boot : Reach procinit
  next : {t u : Table} → Reach t → t.nextpid < max_int → Step t u → Reach u

Step-Inv : {t u : Table} → t.nextpid < max_int → Step t u → Inv t → Inv u
Step-Inv {t} low (alloc g) v = allocproc-Inv t g low v
Step-Inv {t} low (fork me g copied) v = kfork-Inv me g copied t low v
Step-Inv {t} {u} low (exit addr init me status busy e) v =
    kexit-Inv addr init me status t u busy e v
Step-Inv {t} {u} low (wait me killed copied r e) v = kwait-Inv me killed copied r t u v e
Step-Inv {t} low (yields me busy) v =
    unfold yield in (Alike-Inv (Alike-move t me _ busy (λ p. (refl, refl))) v)
Step-Inv {t} low (dozes me chan busy) v =
    unfold sleep in (Alike-Inv (Alike-move t me _ busy (λ p. (refl, refl))) v)
Step-Inv {t} low (resumes me) v =
    unfold awake in (Alike-Inv (Alike-change t me _ (λ p e. (refl, refl))) v)
Step-Inv {t} low (wakes me chan) v = Alike-Inv (Alike-wakeup me chan t) v
Step-Inv {t} low (dispatches i) v =
    unfold dispatch in (Alike-Inv (Alike-change t i run_one (λ p e. ground arith)) v)
Step-Inv {t} low (kills pid) v = kkill-Inv pid t v
Step-Inv {t} low (marks i) v =
    unfold setkilled in (Alike-Inv (Alike-change t i _ (λ p e. (refl, refl))) v)

pub Reach-Inv : {t : Table} → Reach t → Inv t
Reach-Inv boot = procinit-Inv
Reach-Inv (next r low s) = Step-Inv low s (Reach-Inv r)

-- In every table that the operations can reach from boot, each called while `nextpid` is below
-- INT_MAX, two slots in use have different process
-- ids, and these are not 0.
pub pids_unique :
    {t : Table} (i j : ℕ) {p q : Proc}
    → Reach t
    → get_elem? t.procs i ≡ some p
    → get_elem? t.procs j ≡ some q
    → is_state p.state unused ≡ false
    → i ≢ j
    → (p.pid ≢ q.pid) × (p.pid ≢ 0)
pids_unique {t} i j {p} {q} r e f used_p different =
    let v = Reach-Inv r in
    let here : in_use t.procs i ≡ true = ground (arith, e) in
    let pid : pid_at t.procs i ≡ p.pid = ground (arith, e) in
    let pid' : pid_at t.procs j ≡ q.pid = ground (arith, f) in
    let some_pid : p.pid ≢ 0 = λ z. v.busy i here (pid ∙ z) in
    (
      λ same. different (v.unique i j (pid ∙ same ∙ sym pid') (λ z. some_pid (sym pid ∙ z))),
      some_pid,
    )

-- `kkill` of the id of a process in use returns 0, marks that process killed, makes it runnable if
-- it slept, and changes nothing else.
pub kkill_lem :
    {t : Table} (i : ℕ) {p : Proc}
    → Reach t
    → get_elem? t.procs i ≡ some p
    → is_state p.state unused ≡ false
    → kkill p.pid t ≡ (pos 0, record t { procs = set t.procs i (kill_proc p) })
unfolding kkill
kkill_lem {t} i {p} r e used_p = elim (Option-cases (find_from (has_pid p.pid) 0 t.procs)) [
  | inl missing ↦ absurd (ground (arith, find_from-none (has_pid p.pid) t.procs 0 i missing e))
  | inr ((j, q), found) ↦
      let at_j = found_at (has_pid p.pid) t.procs j found in
      let same : i ≡ j = elim (Bool-cases (i == j)) [
        | inl h ↦ ==→eq i j h
        | inr h ↦
            absurd
              ((pids_unique i j r e at_j.0 used_p (==→ne i j h)).0 (sym (==→eq q.pid p.pid at_j.1)))
      ] in
      let hit : some p ≡ some q = sym e ∙ ap (get_elem? t.procs) same ∙ at_j.0 in
      rw (kkill, found) (ground (arith, hit))
]
