-- ===== src/Bio/Ring.antt =====
-- kernel/bio.c: the buffers in the order of their ring, and what `brelse` does to it.
use os_study.Prelude.{ℕ, ◌≡◌, ◌≢◌, sym, List, [], ◌∷◌, ◌++◌, All, arith, update}
use os_study.Bio.{Bcache}

-- From `a` the pointers go through `xs` to `z`, and back.
unfoldable pub Seg : (ℕ → ℕ) → (ℕ → ℕ) → ℕ → List ℕ → ℕ → Type 0
Seg next prev a [] z = (next a ≡ z) × (prev z ≡ a)
Seg next prev a (x ∷ xs) z = (next a ≡ x) × (prev x ≡ a) × Seg next prev x xs z

abbrev pub Without : ℕ → List ℕ → Type 0
Without p xs = All (λ x. x ≢ p) xs

unfoldable pub Distinct : List ℕ → Type 0
Distinct [] = Unit
Distinct (x ∷ xs) = Without x xs × Distinct xs

-- The ring has the buffers `xs`, from the head's `next` on.
pub record IsRing (c : Bcache) (xs : List ℕ) : Type 0 where
  pub links : Seg c.next c.prev 0 xs 0
  pub buffers : Without 0 xs
  pub distinct : Distinct xs

pub Seg-next :
    (next prev : ℕ → ℕ) (a z p v : ℕ) (xs : List ℕ)
    → a ≢ p
    → Without p xs
    → Seg next prev a xs z
    → Seg (update next p v) prev a xs z
unfolding Seg
Seg-next next prev a z p v [] h w s = ground (arith, s, h)
Seg-next next prev a z p v (x ∷ xs) h w (n, b, s) =
    (ground (arith, n, h), b, Seg-next next prev x z p v xs w.0 w.1 s)

pub Seg-prev :
    (next prev : ℕ → ℕ) (a z p v : ℕ) (xs : List ℕ)
    → z ≢ p
    → Without p xs
    → Seg next prev a xs z
    → Seg next (update prev p v) a xs z
unfolding Seg
Seg-prev next prev a z p v [] h w s = ground (arith, s, h)
Seg-prev next prev a z p v (x ∷ xs) h w (n, b, s) =
    (n, ground (arith, b, w.0), Seg-prev next prev x z p v xs h w.1 s)

abbrev pub last : ℕ → List ℕ → ℕ
last a [] = a
last a (x ∷ xs) = last x xs

abbrev pub first : List ℕ → ℕ → ℕ
first [] z = z
first (x ∷ xs) z = x

last-Without : (a p : ℕ) (xs : List ℕ) → a ≢ p → Without p xs → last a xs ≢ p
last-Without a p [] h w = h
last-Without a p (x ∷ xs) h w = last-Without x p xs w.0 w.1

pub Seg-last :
    (next prev : ℕ → ℕ) (a z : ℕ) (xs : List ℕ) → Seg next prev a xs z → prev z ≡ last a xs
unfolding Seg
Seg-last next prev a z [] s = s.1
Seg-last next prev a z (x ∷ xs) (n, b, s) = Seg-last next prev x z xs s

pub Seg-first :
    (next prev : ℕ → ℕ) (a z : ℕ) (xs : List ℕ) → Seg next prev a xs z → next a ≡ first xs z
unfolding Seg
Seg-first next prev a z [] s = s.0
Seg-first next prev a z (x ∷ xs) (n, b, s) = n

pub Seg-split :
    (next prev : ℕ → ℕ) (a b z : ℕ) (ys zs : List ℕ)
    → Seg next prev a (ys ++ (b ∷ zs)) z
    → Seg next prev a ys b × Seg next prev b zs z
unfolding Seg
Seg-split next prev a b z [] zs (n, p, s) = ((n, p), s)
Seg-split next prev a b z (y ∷ ys) zs (n, p, s) =
    let (front, back) = Seg-split next prev y b z ys zs s in ((n, p, front), back)

pub Without-append : (p : ℕ) (ys zs : List ℕ) → Without p (ys ++ zs) → Without p ys × Without p zs
Without-append p [] zs w = (tt, w)
Without-append p (y ∷ ys) zs w = let r = Without-append p ys zs w.1 in ((w.0, r.0), r.1)

pub first-Without : (p z : ℕ) (xs : List ℕ) → z ≢ p → Without p xs → first xs z ≢ p
first-Without p z [] h w = h
first-Without p z (x ∷ xs) h w = w.0

-- The pointers joined over what stood between `ys` and `zs`.
pub Seg-join :
    (next prev : ℕ → ℕ) (a b z : ℕ) (ys zs : List ℕ)
    → Seg next prev a ys b
    → Seg next prev b zs z
    → Without a (ys ++ zs)
    → Without z (ys ++ zs)
    → Distinct (ys ++ zs)
    → Seg
        (update next (last a ys) (first zs z))
        (update prev (first zs z) (last a ys))
        a
        (ys ++ zs)
        z
unfolding Seg Distinct
Seg-join next prev a b z [] [] s t wa wz d = ground arith
Seg-join next prev a b z [] (x ∷ xs) s (n, p, t) wa wz d = (
  ground arith,
  ground arith,
  Seg-prev (update next a x) prev x z x a xs (λ e. wz.0 (sym e)) d.0
      (Seg-next next prev x z a x xs wa.0 wa.1 t),
)
Seg-join next prev a b z (y ∷ ys) zs (n, p, s) t wa wz d =
    let (fore, aft) = Without-append y ys zs d.0 in
    let low = last-Without y a ys wa.0 (Without-append a ys zs wa.1).0 in
    let high = first-Without y z zs (λ e. wz.0 (sym e)) aft in
    (
      ground (arith, n, low),
      ground (arith, p, high),
      Seg-join next prev y b z ys zs s t d.0 wz.1 d.1,
    )
