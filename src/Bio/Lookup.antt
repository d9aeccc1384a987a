-- ===== src/Bio/Lookup.antt =====
-- kernel/bio.c: which buffer `bget` takes.
use os_study.Prelude.{
  ℕ, zero, suc, ◌≡◌, ◌≢◌, refl, ◌∙◌, ap₂, ◌<◌, List, [], ◌∷◌, ◌++◌, arith, if◌then◌else◌, ◌==◌,
  Bool, Option, none, some, length, length-append, Outcome, ok, panic,
}
use os_study.Bio.{Bcache, walk, bget_from, bget, caches, take_cached, recycle}
use os_study.Bio.Ring.{Seg, Without, IsRing}

unfoldable pub find : (ℕ → Bool) → List ℕ → Option ℕ
find test [] = none
find test (x ∷ xs) = let rest = find test xs in if test x then some x else rest

-- The ring from its least recently used buffer on.
unfoldable pub backwards : List ℕ → List ℕ
backwards [] = []
backwards (x ∷ xs) = backwards xs ++ (x ∷ [])

abbrev hit : Option ℕ → ℕ
hit none = 0
hit (some b) = b

walk_lem :
    (fuel : ℕ) (next prev : ℕ → ℕ) (test : ℕ → Bool) (a : ℕ) (xs : List ℕ)
    → Seg next prev a xs 0
    → Without 0 xs
    → length xs < fuel
    → walk fuel next test (next a) ≡ some (hit (find test xs))
unfolding walk find Seg
walk_lem zero next prev test a xs s w h = absurd (omega arith)
walk_lem (suc fuel) next prev test a [] s w h = ground (arith, s)
walk_lem (suc fuel) next prev test a (x ∷ xs) (n, p, s) w h =
    ground (arith, n, w.0, walk_lem fuel next prev test x xs s w.1)

Seg-snoc :
    (next prev : ℕ → ℕ) (a b z : ℕ) (xs : List ℕ)
    → Seg next prev a xs b
    → next b ≡ z
    → prev z ≡ b
    → Seg next prev a (xs ++ (b ∷ [])) z
unfolding Seg
Seg-snoc next prev a b z [] s e f = (s.0, s.1, (e, f))
Seg-snoc next prev a b z (x ∷ xs) (n, p, s) e f = (n, p, Seg-snoc next prev x b z xs s e f)

Seg-backwards :
    (next prev : ℕ → ℕ) (a z : ℕ) (xs : List ℕ)
    → Seg next prev a xs z
    → Seg prev next z (backwards xs) a
unfolding Seg backwards
Seg-backwards next prev a z [] s = (s.1, s.0)
Seg-backwards next prev a z (x ∷ xs) (n, p, s) =
    Seg-snoc prev next z x a (backwards xs) (Seg-backwards next prev x z xs s) p n

Without-snoc : (p b : ℕ) (xs : List ℕ) → Without p xs → b ≢ p → Without p (xs ++ (b ∷ []))
Without-snoc p b [] w h = (h, tt)
Without-snoc p b (x ∷ xs) w h = (w.0, Without-snoc p b xs w.1 h)

Without-backwards : (p : ℕ) (xs : List ℕ) → Without p xs → Without p (backwards xs)
unfolding backwards
Without-backwards p [] w = tt
Without-backwards p (x ∷ xs) w = Without-snoc p x (backwards xs) (Without-backwards p xs w.1) w.0

length-backwards : (xs : List ℕ) → length (backwards xs) ≡ length xs
unfolding backwards
length-backwards [] = refl
length-backwards (x ∷ xs) =
    omega (arith, length-append (backwards xs) (x ∷ []), length-backwards xs)

find-Without :
    (test : ℕ → Bool) (xs : List ℕ) (b : ℕ) → Without 0 xs → find test xs ≡ some b → b ≢ 0
unfolding find
find-Without test [] b w e = absurd (cc)
find-Without test (x ∷ xs) b w e = ground (arith, w.0, find-Without test xs b w.1)

-- What `bget` does, by the buffers that it finds.
abbrev pub chosen : Bcache → ℕ → ℕ → Option ℕ → Option ℕ → Outcome (ℕ × Bcache)
chosen c dev blockno (some b) o = ok (b, take_cached c b)
chosen c dev blockno none (some b) = ok (b, recycle c dev blockno b)
chosen c dev blockno none none = panic "bget: no buffers"

bget_from-hit :
    (c : Bcache) (dev blockno : ℕ) (o q : Option ℕ)
    → ((b : ℕ) → o ≡ some b → b ≢ 0)
    → ((b : ℕ) → q ≡ some b → b ≢ 0)
    → bget_from c dev blockno (some (hit o)) (some (hit q)) ≡ chosen c dev blockno o q
bget_from-hit c dev blockno none none h k = refl
bget_from-hit c dev blockno none (some zero) h k = absurd (k 0 refl refl)
bget_from-hit c dev blockno none (some (suc b)) h k = refl
bget_from-hit c dev blockno (some zero) q h k = absurd (h 0 refl refl)
bget_from-hit c dev blockno (some (suc b)) q h k = refl

-- With more fuel than the ring has buffers `bget` ends. It takes the buffer that caches the block;
-- without one it recycles the least recently used buffer with no reference, and panics only when
-- every buffer has one.
pub bget_lem :
    (fuel : ℕ) (c : Bcache) (xs : List ℕ) (dev blockno : ℕ)
    → IsRing c xs
    → length xs < fuel
    → bget fuel c dev blockno
      ≡ chosen c dev blockno
          (find (caches c dev blockno) xs)
          (find (λ b. (c.buf b).refcnt == 0) (backwards xs))
unfolding bget
bget_lem fuel c xs dev blockno r h =
    let free : ℕ → Bool = λ b. (c.buf b).refcnt == 0 in
    let back = Seg-backwards c.next c.prev 0 0 xs r.links in
    let some_back = Without-backwards 0 xs r.buffers in
    ap₂ (bget_from c dev blockno)
      (walk_lem fuel c.next c.prev (caches c dev blockno) 0 xs r.links r.buffers h)
      (walk_lem fuel c.prev c.next free 0 (backwards xs) back some_back
        (omega (arith, length-backwards xs)))
    ∙ bget_from-hit c dev blockno (find (caches c dev blockno) xs) (find free (backwards xs))
        (λ b. find-Without (caches c dev blockno) xs b r.buffers)
        (λ b. find-Without free (backwards xs) b some_back)
