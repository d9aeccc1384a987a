-- ===== src/Pipe/Write.antt =====
-- kernel/pipe.c: `pipewrite` against a bounded first-in first-out queue.
use os_study.Prelude.{
  ℕ, zero, suc, ◌+◌, ◌≤◌, ◌<◌, ◌≡◌, refl, ap, subst, ◌⊎◌, sym, ◌∙◌, Bool-cases, Option-cases, inl,
  inr, true, false, not, ◌||◌, none, some, List, [], ◌∷◌, ◌++◌, arith, length, ℤ, pos, negsuc,
  pos_part,
}
use native.Mathlib.Nat.{add-zero}
use mathlib.Core.List.{append_assoc, append-nil}
use os_study.Pipe.{
  Pipe, Caller, Run, Channel, writers, Progress, returns, sleeps, pipe_size, put, is_full,
  write_from, pipewrite, cons_moved,
}
use os_study.Pipe.Ring.{count, IsValid, contents, is_full_iff, put-IsValid, contents-put}

-- The bytes that `copyin` reads from `a` on are `bs`.
abbrev pub Reads : Caller → ℕ → List ℕ → Type 0
Reads c a [] = Unit
Reads c a (b ∷ bs) = (c.copyin a ≡ some b) × Reads c (a + 1) bs

-- In round `i` the read end is open and the process not killed.
abbrev pub Open : Caller → Pipe → ℕ → Type 0
Open c q i = (q.readopen ≡ true) × (c.killed i ≡ false)

abbrev pub OpenAll : Caller → Pipe → ℕ → List ℕ → Type 0
OpenAll c q i [] = Unit
OpenAll c q i (b ∷ bs) = Open c q i × OpenAll c q (i + 1) bs

-- Why a run of `pipewrite` that had `k` rounds left stopped after `n` bytes, in round `i`.
abbrev pub WriteEnd : Caller → Pipe → ℕ → ℕ → ℕ → ℕ → Progress → Type 0
WriteEnd c q addr k n i (returns (pos j)) =
    (j ≡ i) × ((n ≡ k) ⊎ ((c.copyin (addr + i) ≡ none) × Open c q i))
WriteEnd c q addr k n i (returns (negsuc e)) =
    (e ≡ 0) × (n < k) × ((q.readopen ≡ false) ⊎ (c.killed i ≡ true))
WriteEnd c q addr k n i (sleeps ch j) =
    (ch ≡ writers) × (n < k) × (j ≡ i) × (count q ≡ pipe_size) × Open c q i

-- What a run of `pipewrite` from round `i` on, with `k` rounds left, does to the queue.
pub record Wrote (c : Caller) (p : Pipe) (addr i k : ℕ) (r : Run) : Type 0 where
  pub valid : IsValid r.pipe
  pub queued : contents r.pipe ≡ contents p ++ r.moved
  pub source : Reads c (addr + i) r.moved
  pub few : length r.moved ≤ k
  pub same_end : r.pipe.readopen ≡ p.readopen
  pub open_end : OpenAll c r.pipe i r.moved
  pub ended : WriteEnd c r.pipe addr k (length r.moved) (i + length r.moved) r.progress

-- A run that stops at once.
stopped :
    (c : Caller) (p : Pipe) (addr i k : ℕ) (g : Progress) (woken : List Channel)
    → IsValid p
    → WriteEnd c p addr k 0 (i + 0) g
    → Wrote c p addr i k (record { pipe = p; progress = g; woken = woken; moved = [] })
stopped c p addr i k g woken v e = record {
  valid = v;
  queued = sym (append-nil (contents p));
  source = tt;
  few = omega arith;
  same_end = refl;
  open_end = tt;
  ended = e;
}

-- A run whose first round queues `ch`.
moved_on :
    (c : Caller) (p : Pipe) (addr i k ch : ℕ) (r : Run)
    → IsValid p
    → is_full p ≡ false
    → c.copyin (addr + i) ≡ some ch
    → Open c p i
    → Wrote c (put p ch) addr (i + 1) k r
    → Wrote c p addr i (suc k) (cons_moved ch r)
unfolding put
moved_on c p addr i k ch r v room from (open_p, lives) w = record {
  valid = w.valid;
  queued =
      w.queued
      ∙ ap (λ l. l ++ r.moved) (contents-put p ch v room)
      ∙ append_assoc (contents p) (ch ∷ []) r.moved;
  source = (from, subst (λ a. Reads c a r.moved) (omega arith) w.source);
  few = omega (arith, w.few);
  same_end = w.same_end;
  open_end = ((w.same_end ∙ open_p, lives), w.open_end);
  ended = ends r.progress w.ended;
}
  where
    still :
        i + 1 + length r.moved ≡ i + suc (length r.moved)
        → (length r.moved ≡ k)
          ⊎ ((c.copyin (addr + (i + 1 + length r.moved)) ≡ none)
              × Open c r.pipe (i + 1 + length r.moved))
        → (suc (length r.moved) ≡ suc k)
          ⊎ ((c.copyin (addr + (i + suc (length r.moved))) ≡ none)
              × Open c r.pipe (i + suc (length r.moved)))
    still s (inl all) = inl (ap suc all)
    still s (inr bad) =
        inr (subst (λ (j : ℕ). (c.copyin (addr + j) ≡ none) × Open c r.pipe j) s bad)

    ends :
        (g : Progress)
        → WriteEnd c r.pipe addr k (length r.moved) (i + 1 + length r.moved) g
        → WriteEnd c r.pipe addr (suc k) (suc (length r.moved)) (i + suc (length r.moved)) g
    ends (returns (pos j)) (e, h) =
        let s : i + 1 + length r.moved ≡ i + suc (length r.moved) = omega arith in
        (e ∙ s, still s h)
    ends (returns (negsuc n)) (e, early, h) =
        let s : i + 1 + length r.moved ≡ i + suc (length r.moved) = omega arith in
        (e, omega (arith, early), subst (λ j. (r.pipe.readopen ≡ false) ⊎ (c.killed j ≡ true)) s h)
    ends (sleeps x j) (e, early, h, full, up) =
        let s : i + 1 + length r.moved ≡ i + suc (length r.moved) = omega arith in
        (e, omega (arith, early), h ∙ s, full, subst (Open c r.pipe) s up)

write_from-Wrote :
    (k : ℕ) (c : Caller) (p : Pipe) (addr i : ℕ)
    → IsValid p
    → Wrote c p addr i k (write_from k c p addr i)
unfolding write_from
write_from-Wrote zero c p addr i v = stopped c p addr i 0 _ _ v (omega arith, inl refl)
write_from-Wrote (suc k) c p addr i v = elim (Bool-cases (not p.readopen || c.killed i)) [
  | inl gone ↦ rw gone (stopped c p addr i (suc k) _ _ v (refl, omega arith, ground arith))
  | inr open_end ↦ rw open_end (
      let up : Open c p i = (ground arith, ground arith) in
      elim (Bool-cases (is_full p)) [
        | inl full ↦ rw full (
            stopped c p addr i (suc k) _ _ v
              (refl, omega arith, omega arith, ground (arith, is_full_iff p v), rw add-zero up))
        | inr room ↦ rw room (elim (Option-cases (c.copyin (addr + i))) [
          | inl bad ↦ rw bad (
              stopped c p addr i (suc k) _ _ v (omega arith, inr (rw add-zero bad, rw add-zero up)))
          | inr (ch, good) ↦ rw good (
              moved_on c p addr i k ch _ v room good up
                (write_from-Wrote k c (put p ch) addr (i + 1) (put-IsValid p ch v room)))
        ])
      ])
]

-- A run of `pipewrite` on a valid pipe appends to the queue bytes that it read from the user's
-- memory, in order from `addr` on, and at most `n` of them. Before every byte the
-- read end was open and the process not killed. After all `n` it returns their number; before that,
-- it returns -1 if and only if the read end is closed or the process killed, and otherwise it sleeps
-- only with the queue full, or returns their number at an address that it cannot read.
pub pipewrite_lem :
    (c : Caller) (p : Pipe) (addr : ℕ) (n : ℤ)
    → IsValid p
    → Wrote c p addr 0 (pos_part n) (pipewrite c p addr n)
unfolding pipewrite
pipewrite_lem c p addr n v = write_from-Wrote (pos_part n) c p addr 0 v
