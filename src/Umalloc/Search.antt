-- ===== src/Umalloc/Search.antt =====
-- user/umalloc.c: the loop of `malloc` round the list of free blocks.
use os_study.Prelude.{
  ℤ, ℕ, zero, suc, ◌+◌, ◌-◌, ◌≤◌, ◌<◌, ◌≡◌, ◌≢◌, ◌⊎◌, refl, ap, ◌∙◌, true, false, List, [], ◌∷◌,
  arith, leb, ◌==◌, Bool-cases, inl, inr, Option, none, some, Outcome, ok, panic, blocked, ◌>>=◌,
  length, All,
}
use os_study.Umalloc.{Heap, carve, morecore, search_from}
use os_study.Umalloc.Ring.{Segs, At, here, there, after, Segs-after, length-after, At-le}
use os_study.Umalloc.Free.{IsFreeList}
use os_study.Umalloc.Carve.{Pair, first, later}

abbrev pub Small : Heap → ℕ → List ℕ → Type 0
Small h n xs = All (λ x. h.size x < n) xs

-- How `search_from` goes on after `morecore`
abbrev pub after_more : ℕ → (ℤ → Option ℕ) → ℕ → Option ℕ × Heap → Outcome (Option ℕ × Heap)
after_more fuel sbrk n (none, h2) = ok (none, h2)
after_more fuel sbrk n (some p2, h2) = search_from fuel sbrk h2 p2 (h2.ptr p2) n

abbrev pub more_at : ℕ → (ℤ → Option ℕ) → Heap → ℕ → Outcome (Option ℕ × Heap)
more_at fuel sbrk h n = morecore fuel sbrk h n >>= after_more fuel sbrk n

-- The block at `x` is taken.
abbrev pub takes : Heap → ℕ → ℕ → ℕ → Outcome (Option ℕ × Heap)
takes h prevp x n = ok (some (carve h prevp x n).0, (carve h prevp x n).1)

step_takes :
    (fuel : ℕ) (sbrk : ℤ → Option ℕ) (h : Heap) (prevp p n : ℕ)
    → n ≤ h.size p
    → search_from (suc fuel) sbrk h prevp p n ≡ takes h prevp p n
unfolding search_from
step_takes fuel sbrk h prevp p n le =
    let fits : leb n (h.size p) ≡ true = ground (arith, le) in rw fits refl

step_more :
    (fuel : ℕ) (sbrk : ℤ → Option ℕ) (h : Heap) (prevp p n : ℕ)
    → h.size p < n
    → p ≡ h.freep
    → search_from (suc fuel) sbrk h prevp p n ≡ more_at fuel sbrk h n
unfolding search_from
step_more fuel sbrk h prevp p n lt e =
    let misfit : leb n (h.size p) ≡ false = ground (arith, lt) in
    let back : (p == h.freep) ≡ true = ground (arith, e) in
    rw (misfit, back) (same (morecore fuel sbrk h n))
  where
    same :
        (o : Outcome (Option ℕ × Heap))
        → (o >>= λ (r, h2). elim r [
          | none ↦ ok (none, h2)
          | some p2 ↦ search_from fuel sbrk h2 p2 (h2.ptr p2) n
        ])
          ≡ (o >>= after_more fuel sbrk n)
    same (ok (none, h2)) = refl
    same (ok (some p2, h2)) = refl
    same (panic why) = refl
    same blocked = refl

step_on :
    (fuel : ℕ) (sbrk : ℤ → Option ℕ) (h : Heap) (prevp p n : ℕ)
    → h.size p < n
    → p ≢ h.freep
    → search_from (suc fuel) sbrk h prevp p n ≡ search_from fuel sbrk h p (h.ptr p) n
unfolding search_from
step_on fuel sbrk h prevp p n lt ne =
    let misfit : leb n (h.size p) ≡ false = ground (arith, lt) in
    let onward : (p == h.freep) ≡ false = ground (arith, ne) in rw (misfit, onward) refl

abbrev last : ℕ → List ℕ → ℕ
last p [] = p
last p (x ∷ xs) = last x xs

-- A block behind `p` that is large enough is taken.
record Found (h : Heap) (n p : ℕ) (xs : List ℕ) (out : Outcome (Option ℕ × Heap)) : Type 0 where
  prevp : ℕ
  x : ℕ
  pair : Pair prevp x p xs
  fits : n ≤ h.size x
  result : out ≡ takes h prevp x n

Found-later :
    (h : Heap) (n p y : ℕ) (ys : List ℕ) (out out' : Outcome (Option ℕ × Heap))
    → out' ≡ out
    → Found h n y ys out
    → Found h n p (y ∷ ys) out'
Found-later h n p y ys out out' e f = record {
  prevp = f.prevp;
  x = f.x;
  pair = later f.pair;
  fits = f.fits;
  result = e ∙ f.result;
}

fits_or : (h : Heap) (n x : ℕ) → (n ≤ h.size x) ⊎ (h.size x < n)
fits_or h n x = elim (Bool-cases (leb n (h.size x))) [
  | inl e ↦ inl (ground (arith, e))
  | inr e ↦ inr (ground (arith, e))
]

-- From `p`, which is `freep` or behind it, to the end of the list
walk_end :
    (fuel : ℕ) (sbrk : ℤ → Option ℕ) (h : Heap) (n p : ℕ) (xs : List ℕ) (stop : ℕ)
    → length xs < fuel
    → h.freep ≤ p
    → Segs h p xs stop
    → Found h n p xs (search_from fuel sbrk h p (h.ptr p) n)
      ⊎ (Small h n xs
          × (search_from fuel sbrk h p (h.ptr p) n
              ≡ search_from (fuel - length xs) sbrk h (last p xs) stop n))
walk_end zero sbrk h n p xs stop f le s = absurd (omega arith)
walk_end (suc fuel) sbrk h n p [] stop f le s =
    let all : suc fuel - 0 ≡ suc fuel = omega arith in inr (tt, rw (s, all) refl)
walk_end (suc fuel) sbrk h n p (x ∷ xs) stop f le (next, gap, s) =
    let at : search_from (suc fuel) sbrk h p (h.ptr p) n ≡ search_from (suc fuel) sbrk h p x n =
      ap (λ y. search_from (suc fuel) sbrk h p y n) next in
    elim (fits_or h n x) [
      | inl fits ↦ inl (record {
        prevp = p;
        x = x;
        pair = first;
        fits = fits;
        result = at ∙ step_takes fuel sbrk h p x n fits;
      })
      | inr small ↦
          let on = at ∙ step_on fuel sbrk h p x n small (omega (arith, gap, le)) in
          elim (walk_end fuel sbrk h n x xs stop (omega arith) (omega (arith, gap, le)) s) [
            | inl found ↦ inl (Found-later h n p x xs _ _ on found)
            | inr (smalls, e) ↦
                (let left : fuel - length xs ≡ suc fuel - suc (length xs) = omega arith in
                  inr (
                    (small, smalls),
                    on ∙ e ∙ ap (λ k. search_from k sbrk h (last x xs) stop n) left,
                  ))
          ]
    ]

-- The blocks up to `q`
abbrev upto : {q p : ℕ} {xs : List ℕ} → At q p xs → List ℕ
upto here = []
upto (there {p} {x} {xs} a) = x ∷ upto a

-- From before `freep` to `freep`, where more memory is asked for
walk_to :
    (fuel : ℕ) (sbrk : ℤ → Option ℕ) (h : Heap) (n p : ℕ) {q x : ℕ} {xs : List ℕ} (a : At q x xs)
    (stop : ℕ)
    → q ≡ h.freep
    → length xs < fuel
    → Segs h p (x ∷ xs) stop
    → Found h n p (x ∷ xs) (search_from fuel sbrk h p x n)
      ⊎ (Small h n (x ∷ upto a)
          × ((k : ℕ) × (fuel ≤ k + 1 + length xs)
              × (search_from fuel sbrk h p x n ≡ more_at k sbrk h n)))
walk_to zero sbrk h n p a stop e f s = absurd (omega arith)
walk_to (suc fuel) sbrk h n p {x} (here {xs}) stop e f s = elim (fits_or h n x) [
  | inl fits ↦ inl (record {
    prevp = p;
    x = x;
    pair = first;
    fits = fits;
    result = step_takes fuel sbrk h p x n fits;
  })
  | inr small ↦ inr ((small, tt), (fuel, omega arith, step_more fuel sbrk h p x n small e))
]
walk_to (suc fuel) sbrk h n p {x} (there {x = z} {xs = zs} a) stop e f (next, gap, s) =
    elim (fits_or h n x) [
      | inl fits ↦ inl (record {
        prevp = p;
        x = x;
        pair = first;
        fits = fits;
        result = step_takes fuel sbrk h p x n fits;
      })
      | inr small ↦
          let below = At-le h stop a s.2 in
          let on =
            step_on fuel sbrk h p x n small (omega (arith, e, s.1, below))
            ∙ ap (λ y. search_from fuel sbrk h x y n) s.0 in
          elim (walk_to fuel sbrk h n x a stop e (omega arith) s) [
            | inl found ↦ inl (Found-later h n p x (z ∷ zs) _ _ on found)
            | inr (smalls, (k, le, e')) ↦ inr ((small, smalls), (k, omega (arith, le), on ∙ e'))
          ]
    ]

Pair-after :
    {prevp x q p : ℕ} {xs : List ℕ} (a : At q p xs) → Pair prevp x q (after a) → Pair prevp x p xs
Pair-after here pr = pr
Pair-after (there a) pr = later (Pair-after a pr)

Small-join :
    {q p : ℕ} {xs : List ℕ} (h : Heap) (n : ℕ) (a : At q p xs)
    → Small h n (upto a)
    → Small h n (after a)
    → Small h n xs
Small-join h n here before behind = behind
Small-join h n (there a) (s, before) behind = (s, Small-join h n a before behind)

-- The search from `freep` on takes a block of the list that is large enough, or there is none and it
-- asks for more memory.
pub data Searched (sbrk : ℤ → Option ℕ) (h : Heap) (n fuel base : ℕ) (xs : List ℕ)
    (out : Outcome (Option ℕ × Heap)) : Type 0 where
  found :
      {prevp x : ℕ}
      → Pair prevp x base xs
      → n ≤ h.size x
      → out ≡ takes h prevp x n
      → Searched sbrk h n fuel base xs out
  missed :
      (k : ℕ)
      → Small h n xs
      → fuel ≤ k + 2 + length xs + length xs
      → out ≡ more_at k sbrk h n
      → Searched sbrk h n fuel base xs out

-- From the end of the list on, at `base`
round :
    (fuel : ℕ) (sbrk : ℤ → Option ℕ) (h : Heap) (n prevp base : ℕ) {q : ℕ} {xs : List ℕ}
    (a : At q base xs)
    → q ≡ h.freep
    → Segs h base xs base
    → h.size base < n
    → length xs < fuel
    → Found h n base xs (search_from (suc fuel) sbrk h prevp base n)
      ⊎ (Small h n (upto a)
          × ((k : ℕ) × (fuel ≤ k + 1 + length xs)
              × (search_from (suc fuel) sbrk h prevp base n ≡ more_at k sbrk h n)))
round fuel sbrk h n prevp base here e s small f =
    inr (tt, (fuel, omega arith, step_more fuel sbrk h prevp base n small e))
round fuel sbrk h n prevp base (there {x = y} {xs = ys} a) e s small f =
    let above = At-le h base a s.2 in
    let on =
      step_on fuel sbrk h prevp base n small (omega (arith, e, s.1, above))
      ∙ ap (λ z. search_from fuel sbrk h base z n) s.0 in
    elim (walk_to fuel sbrk h n base a base e (omega arith) s) [
      | inl got ↦ inl (record {
        prevp = got.prevp;
        x = got.x;
        pair = got.pair;
        fits = got.fits;
        result = on ∙ got.result;
      })
      | inr (smalls, (k, le, e')) ↦ inr (smalls, (k, omega (arith, le), on ∙ e'))
    ]

pub search_lem :
    (fuel : ℕ) (sbrk : ℤ → Option ℕ) (h : Heap) (n base : ℕ) (xs : List ℕ)
    → IsFreeList h base xs
    → 0 < n
    → length xs + length xs + 2 < fuel
    → Searched sbrk h n fuel base xs (search_from fuel sbrk h h.freep (h.ptr h.freep) n)
search_lem fuel sbrk h n base xs l pos_n f =
    let a = l.freep_in in
    let s = Segs-after h base a l.ring in
    elim (walk_end fuel sbrk h n h.freep (after a) base (omega (arith, length-after a))
      (omega arith) s) [
        | inl got ↦ found (Pair-after a got.pair) got.fits got.result
        | inr (behind, e) ↦
            let k1 = fuel - length (after a) - 1 in
            let fuel1 : fuel - length (after a) ≡ suc k1 = omega (arith, length-after a) in
            let to_base =
              e ∙ ap (λ k. search_from k sbrk h (last h.freep (after a)) base n) fuel1 in
            elim (round k1 sbrk h n (last h.freep (after a)) base a refl l.ring
              (omega (arith, l.empty_base)) (omega (arith, length-after a))) [
                | inl got ↦ found got.pair got.fits (to_base ∙ got.result)
                | inr (smalls, (k, le, e')) ↦
                    missed k (Small-join h n a smalls behind) (omega (arith, le, length-after a))
                      (to_base ∙ e')
              ]
      ]
