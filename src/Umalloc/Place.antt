-- ===== src/Umalloc/Place.antt =====
-- user/umalloc.c: where `free` finds the place of a block.
use os_study.Prelude.{
  ℕ, zero, suc, ◌+◌, ◌-◌, ◌≤◌, ◌<◌, ◌≡◌, ◌⊎◌, inl, inr, refl, sym, ap, ◌∙◌, true, false, List, [],
  ◌∷◌, arith, ltb, length, some, if◌then◌else◌,
}
use os_study.Umalloc.{Heap, is_place, find_place}
use os_study.Umalloc.Ring.{Segs, At, here, there, after, Segs-after, length-after, At-le}

-- The last of `p` and `xs` below `bp`, in order from `p` on
abbrev pub place : ℕ → ℕ → List ℕ → ℕ
place bp p [] = p
place bp p (x ∷ xs) = if ltb x bp then place bp x xs else p

-- None of the blocks is `bp`.
abbrev pub Apart : ℕ → List ℕ → Type 0
Apart bp [] = Unit
Apart bp (x ∷ xs) = ((x < bp) ⊎ (bp < x)) × Apart bp xs

pub At-Apart :
    {q p bp : ℕ} {xs : List ℕ} → At q p xs → Apart bp xs → (p < bp) ⊎ (bp < p) → (q < bp) ⊎ (bp < q)
At-Apart here n apart = apart
At-Apart (there a) (n, ns) apart = At-Apart a ns n

-- From below `bp` the loop stops at the last block below it.
walk_up :
    (fuel : ℕ) (h : Heap) (bp p : ℕ) (xs : List ℕ) (stop : ℕ)
    → length xs < fuel
    → Segs h p xs stop
    → Apart bp xs
    → p < bp
    → stop ≤ p
    → find_place fuel h bp p ≡ some (place bp p xs)
unfolding find_place
walk_up zero h bp p xs stop f s n lt le = absurd (omega arith)
walk_up (suc fuel) h bp p [] stop f s n lt le = ground (arith, s, lt, le)
walk_up (suc fuel) h bp p (x ∷ xs) stop f (next, gap, s) (inl below, n) lt le =
    let goes_on : is_place h bp p ≡ false = ground (arith, next, gap, below) in
    let placed : place bp p (x ∷ xs) ≡ place bp x xs = ground (arith, below) in
    rw (goes_on, next)
      (walk_up fuel h bp x xs stop (omega arith) s n below (omega (arith, le, gap))
        ∙ ap some (sym placed))
walk_up (suc fuel) h bp p (x ∷ xs) stop f (next, gap, s) (inr above, n) lt le =
    let stops : is_place h bp p ≡ true = ground (arith, next, above, lt) in
    rw stops (ap some (ground (arith, above)))

-- From above `bp` the loop goes round to the start of the list.
walk_round :
    (fuel : ℕ) (h : Heap) (bp p : ℕ) (xs : List ℕ) (stop : ℕ)
    → length xs < fuel
    → Segs h p xs stop
    → bp < p
    → stop < bp
    → find_place fuel h bp p ≡ find_place (fuel - 1 - length xs) h bp stop
unfolding find_place
walk_round zero h bp p xs stop f s lt le = absurd (omega arith)
walk_round (suc fuel) h bp p [] stop f s lt le =
    let goes_on : is_place h bp p ≡ false = ground (arith, s, lt, le) in
    let left : suc fuel - 1 - 0 ≡ fuel = omega arith in rw (goes_on, s, left) refl
walk_round (suc fuel) h bp p (x ∷ xs) stop f (next, gap, s) lt le =
    let above : bp < x = omega (arith, gap, lt) in
    let goes_on : is_place h bp p ≡ false = ground (arith, next, gap, above, lt) in
    let left : fuel - 1 - length xs ≡ suc fuel - 1 - suc (length xs) = omega arith in
    rw (goes_on, next)
      (walk_round fuel h bp x xs stop (omega arith) s above le
        ∙ ap (λ k. find_place k h bp stop) left)

place-after :
    {q p : ℕ} {xs : List ℕ} (h : Heap) (bp stop : ℕ) (a : At q p xs)
    → Segs h p xs stop
    → q < bp
    → place bp q (after a) ≡ place bp p xs
place-after h bp stop here s lt = refl
place-after {q} h bp stop (there {p} {x} {xs} a) (_, _, s) lt =
    let below : x < bp = omega (arith, At-le h stop a s, lt) in
    place-after h bp stop a s lt ∙ ground (arith, below)

Apart-after : {q p : ℕ} {xs : List ℕ} (bp : ℕ) (a : At q p xs) → Apart bp xs → Apart bp (after a)
Apart-after bp here n = n
Apart-after bp (there a) (_, n) = Apart-after bp a n

-- Wherever `freep` is in the list, the loop finds the last block below `bp`.
pub find_place_lem :
    (fuel : ℕ) (h : Heap) (bp base : ℕ) (xs : List ℕ) {q : ℕ} (a : At q base xs)
    → length xs + length xs + 2 ≤ fuel
    → Segs h base xs base
    → Apart bp xs
    → base < bp
    → (q < bp) ⊎ (bp < q)
    → find_place fuel h bp q ≡ some (place bp base xs)
find_place_lem fuel h bp base xs {q} a f s n lt (inl below) =
    walk_up fuel h bp q (after a) base (omega (arith, length-after a)) (Segs-after h base a s)
      (Apart-after bp a n) below (At-le h base a s)
    ∙ ap some (place-after h bp base a s below)
find_place_lem fuel h bp base xs {q} a f s n lt (inr above) =
    walk_round fuel h bp q (after a) base (omega (arith, length-after a)) (Segs-after h base a s)
      above lt
    ∙ walk_up (fuel - 1 - length (after a)) h bp base xs base (omega (arith, length-after a)) s n lt
        (omega arith)
