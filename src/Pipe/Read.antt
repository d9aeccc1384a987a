-- ===== src/Pipe/Read.antt =====
-- kernel/pipe.c: `piperead` against a bounded first-in first-out queue.
use os_study.Prelude.{
  ℕ, zero, suc, ◌+◌, ◌≤◌, ◌≡◌, refl, ap, subst, ◌⊎◌, ◌∙◌, Bool-cases, inl, inr, true, false, ◌&&◌,
  List, [], ◌∷◌, ◌++◌, arith, ne→==, if◌then◌else◌, ◌==◌, length, ℤ, pos, negsuc, pos_part,
}
use os_study.Pipe.{
  Pipe, Caller, Run, Channel, readers, Progress, returns, sleeps, front, advance, is_empty,
  read_from, piperead, cons_moved,
}
use os_study.Pipe.Ring.{count, IsValid, contents, is_empty_iff, advance-IsValid, contents-advance}

-- Why a run of `piperead` that had `k` rounds left stopped after `n` bytes, in round `i`.
abbrev pub ReadEnd : Caller → Pipe → ℕ → ℕ → ℕ → ℕ → Progress → Type 0
ReadEnd c q addr k n i (returns (pos j)) =
    (j ≡ i) × ((n ≡ k) ⊎ (count q ≡ 0) ⊎ (c.copyout (addr + i) ≡ false))
ReadEnd c q addr k n i (returns (negsuc e)) =
    (e ≡ 0) × (i ≡ 0) × ((c.killed 0 ≡ true) ⊎ (c.copyout (addr + i) ≡ false))
ReadEnd c q addr k n i (sleeps ch j) =
    (ch ≡ readers) × (j ≡ i) × (i ≡ 0) × (count q ≡ 0) × (q.writeopen ≡ true)

-- What a run of `piperead` from round `i` on, with `k` rounds left, does to the queue.
pub record Got (c : Caller) (p : Pipe) (addr i k : ℕ) (r : Run) : Type 0 where
  pub valid : IsValid r.pipe
  pub dequeued : contents p ≡ r.moved ++ contents r.pipe
  pub few : length r.moved ≤ k
  pub ended : ReadEnd c r.pipe addr k (length r.moved) (i + length r.moved) r.progress

stopped :
    (c : Caller) (p : Pipe) (addr i k : ℕ) (g : Progress) (woken : List Channel)
    → IsValid p
    → ReadEnd c p addr k 0 (i + 0) g
    → Got c p addr i k (record { pipe = p; progress = g; woken = woken; moved = [] })
stopped c p addr i k g woken v e = record {
  valid = v;
  dequeued = refl;
  few = omega arith;
  ended = e;
}

moved_on :
    (c : Caller) (p : Pipe) (addr i k : ℕ) (r : Run)
    → IsValid p
    → is_empty p ≡ false
    → Got c (advance p) addr (i + 1) k r
    → Got c p addr i (suc k) (cons_moved (front p) r)
moved_on c p addr i k r v some_left w = record {
  valid = w.valid;
  dequeued = contents-advance p v some_left ∙ ap (λ l. front p ∷ l) w.dequeued;
  few = omega (arith, w.few);
  ended = ends r.progress w.ended;
}
  where
    s : i + 1 + length r.moved ≡ i + suc (length r.moved)
    s = omega arith

    ends :
        (g : Progress)
        → ReadEnd c r.pipe addr k (length r.moved) (i + 1 + length r.moved) g
        → ReadEnd c r.pipe addr (suc k) (suc (length r.moved)) (i + suc (length r.moved)) g
    ends (returns (pos j)) (e, h) = (e ∙ s, grind arith)
    ends (returns (negsuc n)) (e, z, h) = absurd (omega arith)
    ends (sleeps x j) (e, h, z, none_left, opened) = absurd (omega arith)

read_from-Got :
    (k : ℕ) (c : Caller) (p : Pipe) (addr i : ℕ)
    → IsValid p
    → Got c p addr i k (read_from k c p addr i)
unfolding read_from
read_from-Got zero c p addr i v = stopped c p addr i 0 _ _ v (omega arith, inl refl)
read_from-Got (suc k) c p addr i v = elim (Bool-cases (is_empty p)) [
  | inl e ↦
      rw e (
        stopped c p addr i (suc k) _ _ v
          (omega arith, inr (inl (ground (arith, is_empty_iff p v)))))
  | inr ne ↦ rw ne (elim (Bool-cases (c.copyout (addr + i))) [
    | inl good ↦ rw good (
        moved_on c p addr i k _ v ne
          (read_from-Got k c (advance p) addr (i + 1) (advance-IsValid p v ne)))
    | inr bad ↦ rw bad (stopped c p addr i (suc k) _ _ v (failed i bad))
  ])
]
  where
    failed :
        (i : ℕ)
        → c.copyout (addr + i) ≡ false
        → ReadEnd c p addr (suc k) 0 (i + 0) (returns (if i == 0 then negsuc 0 else pos i))
    failed zero bad = (refl, omega arith, inr (subst (λ a. c.copyout a ≡ false) (omega arith) bad))
    failed (suc i) bad =
        rw (ne→== (suc i) 0 (omega arith))
          (omega arith, inr (inr (subst (λ a. c.copyout a ≡ false) (omega arith) bad)))

pub piperead_lem :
    (c : Caller) (p : Pipe) (addr : ℕ) (n : ℤ)
    → IsValid p
    → Got c p addr 0 (pos_part n) (piperead c p addr n)
unfolding piperead
piperead_lem c p addr n v = elim (Bool-cases (is_empty p && p.writeopen)) [
  | inl wait ↦ rw wait (elim (Bool-cases (c.killed 0)) [
    | inl dead ↦ rw dead (stopped c p addr 0 (pos_part n) _ _ v (refl, omega arith, inl dead))
    | inr alive ↦ rw alive (
        stopped c p addr 0 (pos_part n) _ _ v
          (refl, omega arith, omega arith, ground (arith, is_empty_iff p v), ground arith))
  ])
  | inr go ↦ rw go (read_from-Got (pos_part n) c p addr 0 v)
]
