-- ===== src/Log/Space.antt =====
-- kernel/log.c: the room in the log, and the operations that `begin_op` admits.
use os_study.Prelude.{
  ℕ, zero, suc, ◌+◌, ◌-◌, ◌*◌, ◌≤◌, ◌<◌, ◌≡◌, refl, ap, sym, subst, ◌∙◌, Bool-cases, inl, inr, true,
  false, List, [], ◌∷◌, ◌++◌, arith, length, length-append, ne→==, if◌then◌else◌, ◌==◌, ltb, pos,
  Outcome, ok,
}
use os_study.Log.{Log, log_blocks, max_op_blocks, begin_op, end_op, log_write, logged, commit}
use os_study.Log.Disk.{bpin}
use os_study.Log.Budget.{
  here, there, begin, write, rewrite, finish, start, next, Running, sum, Spend, Drop, Step, Reach,
  Inv, Spend-sum, Drop-sum, Spend-le, Drop-le, sum-le,
}

commit-lh : (l : Log) → (commit l).lh ≡ []
unfolding commit
commit-lh l = elim (Bool-cases (ltb 0 (length l.lh))) [
  | inl some_left ↦ rw some_left
  | inr none_left ↦ rw none_left (empty l.lh none_left)
]
  where
    empty : (xs : List ℕ) → ltb 0 (length xs) ≡ false → xs ≡ []
    empty [] e = refl
    empty (x ∷ xs) e = absurd (ground arith)

commit-outstanding : (l : Log) → (commit l).outstanding ≡ l.outstanding
unfolding commit
commit-outstanding l = ground arith

-- `end_op` with `n` other operations in progress.
end_op_lem :
    (l : Log) (n : ℕ)
    → l.committing ≡ false
    → l.outstanding ≡ pos (suc n)
    → (l' : Log) × (end_op l ≡ ok l')
      × (l'.outstanding ≡ pos n)
      × (l'.committing ≡ false)
      × (l'.lh ≡ (if n == 0 then [] else l.lh))
unfolding end_op
end_op_lem l zero idle e =
    let l1 = record l { outstanding = pos 0; committing = true } in
    (
      record (commit l1) { committing = false },
      ground arith,
      commit-outstanding l1,
      refl,
      commit-lh l1,
    )
end_op_lem l (suc n) idle e =
    (record l { outstanding = pos (suc n) }, ground arith, refl, idle, ground arith)

begin_op_lem :
    (l l' : Log) (n : ℕ)
    → l.outstanding ≡ pos n
    → begin_op l ≡ ok l'
    → (l'.outstanding ≡ pos (suc n))
      × (l'.committing ≡ false)
      × (l'.lh ≡ l.lh)
      × (length l.lh + (n + 1) * max_op_blocks ≤ log_blocks)
unfolding begin_op
begin_op_lem l l' n e h = ground arith

log_write_lem :
    (l : Log) (n b : ℕ)
    → l.outstanding ≡ pos (suc n)
    → length l.lh < log_blocks
    → (l' : Log) × (log_write l b ≡ ok l')
      × (l'.outstanding ≡ l.outstanding)
      × (l'.committing ≡ l.committing)
      × (l'.lh ≡ (if logged b l.lh then l.lh else l.lh ++ (b ∷ [])))
unfolding log_write
log_write_lem l n b e room = elim (Bool-cases (logged b l.lh)) [
  | inl old ↦ (l, ground arith, refl, refl, rw old)
  | inr new ↦
      (record l { lh = l.lh ++ (b ∷ []); io = bpin l.io b }, ground arith, refl, refl, rw new)
]

ok-injective : {l m : Log} → ok l ≡ ok m → l ≡ m
ok-injective e = cc

-- What a call that returned has left, from what it is known to return.
returned :
    (P : Log → Type 0) {o : Outcome Log} {l : Log} → o ≡ ok l → (l' : Log) → o ≡ ok l' → P l' → P l
returned P e l' e' p = subst P (ok-injective (sym e' ∙ e)) p

begin-Inv :
    {s : Running} {l : Log}
    → Inv s
    → begin_op s.log ≡ ok l
    → Inv (record { log = l; budgets = max_op_blocks ∷ s.budgets })
begin-Inv {s} {l} v e =
    let b = begin_op_lem s.log l (length s.budgets) v.counted e in
    record {
      counted = b.0;
      idle = b.1;
      small = (omega arith, v.small);
      room = rw b.2 (omega (arith, b.3, sum-le s.budgets v.small));
    }

Spend-suc : {xs ys : List ℕ} → Spend xs ys → length ys ≡ suc (length ys - 1)
Spend-suc here = omega arith
Spend-suc (there sp) = omega arith

write-Inv :
    {s : Running} {l : Log} {bs : List ℕ} (b : ℕ)
    → Inv s
    → Spend s.budgets bs
    → log_write s.log b ≡ ok l
    → Inv (record { log = l; budgets = bs })
write-Inv {s} {l} {bs} b v sp e =
    let n = length bs - 1 in
    let sums = Spend-sum sp in
    let few : length bs ≡ suc n = Spend-suc sp in
    let (l', run, out, still, lh) =
      log_write_lem s.log n b (v.counted ∙ ap pos (sums.1 ∙ few)) (omega (arith, v.room, sums)) in
    let grown : length l'.lh ≤ suc (length s.log.lh) = at_most l'.lh lh in
    returned (λ m. Inv (record { log = m; budgets = bs })) e l' run
      (record {
        counted = out ∙ v.counted ∙ ap pos sums.1;
        idle = still ∙ v.idle;
        small = Spend-le sp v.small;
        room = omega (arith, v.room, sums, grown);
      })
  where
    at_most :
        (xs : List ℕ)
        → xs ≡ (if logged b s.log.lh then s.log.lh else s.log.lh ++ (b ∷ []))
        → length xs ≤ suc (length s.log.lh)
    at_most xs e = elim (Bool-cases (logged b s.log.lh)) [
      | inl old ↦ rw (e, old) (omega arith)
      | inr new ↦ rw (e, new) (omega (arith, length-append s.log.lh (b ∷ [])))
    ]

log_write-logged : (l l' : Log) (b : ℕ) → logged b l.lh ≡ true → log_write l b ≡ ok l' → l ≡ l'
unfolding log_write
log_write-logged l l' b old e = ground arith

rewrite-Inv :
    {s : Running} {l : Log} (b : ℕ)
    → Inv s
    → logged b s.log.lh ≡ true
    → log_write s.log b ≡ ok l
    → Inv (record { log = l; budgets = s.budgets })
rewrite-Inv {s} {l} b v old e =
    subst (λ m. Inv (record { log = m; budgets = s.budgets })) (log_write-logged s.log l b old e) v

Drop-length : {xs ys : List ℕ} → Drop xs ys → length xs ≡ suc (length ys)
Drop-length d = (Drop-sum d).1

finish-Inv :
    {s : Running} {l : Log} {bs : List ℕ}
    → Inv s
    → Drop s.budgets bs
    → end_op s.log ≡ ok l
    → Inv (record { log = l; budgets = bs })
finish-Inv {s} {l} {bs} v d e =
    let (l', run, out, still, lh) =
      end_op_lem s.log (length bs) v.idle (v.counted ∙ ap pos (Drop-length d)) in
    returned (λ m. Inv (record { log = m; budgets = bs })) e l' run
      (record {
        counted = out;
        idle = still;
        small = Drop-le d v.small;
        room = shorter l'.lh bs (Drop-sum d).0 lh;
      })
  where
    shorter :
        (xs bs : List ℕ)
        → sum bs ≤ sum s.budgets
        → xs ≡ (if length bs == 0 then [] else s.log.lh)
        → length xs + sum bs ≤ log_blocks
    shorter xs [] h e = rw e (omega arith)
    shorter xs (x ∷ bs) h e =
        rw (e, ne→== (suc (length bs)) 0 (omega arith)) (omega (arith, v.room))

Step-Inv : {s t : Running} → Step s t → Inv s → Inv t
Step-Inv (begin e) v = begin-Inv v e
Step-Inv (write b sp e) v = write-Inv b v sp e
Step-Inv (rewrite b old e) v = rewrite-Inv b v old e
Step-Inv (finish d e) v = finish-Inv v d e

-- In every reachable state the blocks logged and the blocks that the operations in progress may
-- still log fit the log together.
pub Reach-Inv : {s : Running} → Reach s → Inv s
Reach-Inv (start {l} empty out idle) = record {
  counted = out;
  idle = idle;
  small = tt;
  room = rw empty (omega arith);
}
Reach-Inv (next r st) = Step-Inv st (Reach-Inv r)

-- An operation that `begin_op` admitted and that has logged fewer than `MAXOPBLOCKS` blocks can log
-- another: `log_write` does not panic, whatever the other operations have done.
pub log_write-ok :
    {s : Running} {bs : List ℕ} (b : ℕ)
    → Reach s
    → Spend s.budgets bs
    → (l : Log) × (log_write s.log b ≡ ok l)
log_write-ok {s} {bs} b r sp =
    let v = Reach-Inv r in
    let sums = Spend-sum sp in
    let out : s.log.outstanding ≡ pos (suc (length bs - 1)) =
      v.counted ∙ ap pos (sums.1 ∙ Spend-suc sp) in
    let (l, run, _, _, _) =
      log_write_lem s.log (length bs - 1) b out (omega (arith, v.room, sums)) in
    (l, run)

-- An operation in progress can end: `end_op` does not panic. It empties the log when it is the
-- last one in progress, and otherwise leaves the logged blocks as they are.
pub end_op-ok :
    {s : Running} {bs : List ℕ}
    → Reach s
    → Drop s.budgets bs
    → (l : Log) × (end_op s.log ≡ ok l) × (l.lh ≡ (if length bs == 0 then [] else s.log.lh))
end_op-ok {s} {bs} r d =
    let v = Reach-Inv r in
    let (l, run, _, _, lh) =
      end_op_lem s.log (length bs) v.idle (v.counted ∙ ap pos (Drop-length d)) in
    (l, run, lh)
