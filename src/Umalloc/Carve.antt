-- ===== src/Umalloc/Carve.antt =====
-- user/umalloc.c: the block that `malloc` takes out of a free one.
use os_study.Prelude.{
  ℕ, ◌+◌, ◌-◌, ◌*◌, ◌≤◌, ◌<◌, ◌≡◌, ◌≢◌, refl, sym, ap, ◌∙◌, Bool, true, false, true≢false, ◌&&◌,
  ◌||◌, List, [], ◌∷◌, arith, ltb, leb, ◌==◌, Bool-cases, update, inl, inr,
}
use mathlib.Core.Bool.{or_assoc, or_comm}
use os_study.Umalloc.{Heap, unit, end_of, carve}
use os_study.Umalloc.Ring.{Segs, At, here, there, in_block, covered}

-- `x` follows `prevp` in the list from `p` on.
pub data Pair (prevp x : ℕ) : ℕ → List ℕ → Type 0 where
  first : {xs : List ℕ} → Pair prevp x prevp (x ∷ xs)
  later : {p y : ℕ} {ys : List ℕ} → Pair prevp x y ys → Pair prevp x p (y ∷ ys)

-- The `n` units from `q` on
abbrev pub in_units : ℕ → ℕ → ℕ → Bool
in_units q n a = leb q a && ltb a (q + n * unit)

-- A list from a block that ends no later, where all behind that block is the same
Segs-keep :
    (h h' : Heap) (p p' : ℕ) (xs : List ℕ) (stop : ℕ)
    → h'.ptr p' ≡ h.ptr p
    → end_of h' p' ≤ end_of h p
    → ((a : ℕ) → end_of h p < a → (h'.ptr a ≡ h.ptr a) × (h'.size a ≡ h.size a))
    → Segs h p xs stop
    → Segs h' p' xs stop
Segs-keep h h' p p' [] stop e f same s = e ∙ s
Segs-keep h h' p p' (x ∷ xs) stop e f same (next, gap, s) =
    let (ptr_x, size_x) = same x gap in
    (
      e ∙ next,
      omega (arith, f, gap),
      Segs-keep h h' x x xs stop ptr_x (omega (arith, size_x))
          (λ a lt. same a (omega (arith, gap, lt))) s,
    )

covered-keep :
    (h h' : Heap) (p : ℕ) (xs : List ℕ) (stop a : ℕ)
    → ((b : ℕ) → end_of h p < b → h'.size b ≡ h.size b)
    → Segs h p xs stop
    → covered h' xs a ≡ covered h xs a
covered-keep h h' p [] stop a same s = refl
covered-keep h h' p (x ∷ xs) stop a same (_, gap, s) =
    ap (λ n. (leb x a && ltb a (x + n * unit)) || covered h' xs a) (same x gap)
    ∙ ap (λ b. in_block h x a || b)
        (covered-keep h h' x xs stop a (λ b lt. same b (omega (arith, gap, lt))) s)

-- The blocks behind `p` begin where `p` has ended.
covered_behind :
    (h : Heap) (p : ℕ) (xs : List ℕ) (stop a : ℕ)
    → Segs h p xs stop
    → a < end_of h p
    → covered h xs a ≡ false
covered_behind h p [] stop a s lt = refl
covered_behind h p (x ∷ xs) stop a (_, gap, s) lt =
    ground (arith, gap, lt, covered_behind h x xs stop a s)

-- The list from `p` on after `carve` at `x`
pub record Carved (h h1 : Heap) (prevp p : ℕ) (xs : List ℕ) (stop q n : ℕ) : Type 0 where
  pub blocks : List ℕ
  pub segs : Segs h1 p blocks stop
  pub at : At prevp p blocks
  pub cover : (a : ℕ) → covered h xs a ≡ (covered h1 blocks a || in_units q n a)
  pub apart : (a : ℕ) → (covered h1 blocks a && in_units q n a) ≡ false

abbrev taken : Heap → ℕ → ℕ → ℕ → Heap
taken h prevp x n = record h { ptr = update h.ptr prevp (h.ptr x); freep = prevp }

taken_first :
    (h : Heap) (p x : ℕ) (xs : List ℕ) (stop n : ℕ)
    → Segs h p (x ∷ xs) stop
    → h.size x ≡ n
    → Carved h (taken h p x n) p p (x ∷ xs) stop x n
taken_first h p x xs stop n (next, gap, s) e = record {
  blocks = xs;
  segs =
      Segs-keep h (taken h p x n) x p xs stop (ground arith) (omega (arith, gap))
        (λ a lt. (ground (arith, gap, lt), refl)) s;
  at = here;
  cover = λ a.
      or_comm (in_block h x a) (covered h xs a)
      ∙ ap (λ k. covered h xs a || in_units x k a) e
      ∙ ap (λ c. c || in_units x n a) (sym (same a));
  apart = λ a. apart a (covered (taken h p x n) xs a) (same a);
}
  where
    same : (a : ℕ) → covered (taken h p x n) xs a ≡ covered h xs a
    same a = covered-keep h (taken h p x n) x xs stop a (λ b lt. refl) s

    apart : (a : ℕ) (c : Bool) → c ≡ covered h xs a → (c && in_units x n a) ≡ false
    apart a false f = refl
    apart a true f = ground (arith, f, e, covered_behind h x xs stop a s)

-- A block in two parts, whose second is the `n` units at its end
split_block :
    (x s n a : ℕ) (d : Bool)
    → n < s
    → ((leb x a && ltb a (x + s * unit)) || d)
      ≡ (((leb x a && ltb a (x + (s - n) * unit)) || d) || in_units (x + (s - n) * unit) n a)
split_block x s n a true lt = ground arith
split_block x s n a false lt = ground (arith, lt)

split_apart :
    (x s n a : ℕ) (d : Bool)
    → n < s
    → (a < x + s * unit → d ≡ false)
    → (((leb x a && ltb a (x + (s - n) * unit)) || d) && in_units (x + (s - n) * unit) n a) ≡ false
split_apart x s n a false lt behind = ground (arith, lt)
split_apart x s n a true lt behind = elim (Bool-cases (ltb a (x + s * unit))) [
  | inl below ↦ absurd (true≢false (behind (ground (arith, below))))
  | inr above ↦ ground (arith, lt, above)
]

abbrev cut : Heap → ℕ → ℕ → ℕ → Heap
cut h prevp x n =
    let left = h.size x - n in
    record h { size = update (update h.size x left) (x + left * unit) n; freep = prevp }

cut_first :
    (h : Heap) (p x : ℕ) (xs : List ℕ) (stop n : ℕ)
    → Segs h p (x ∷ xs) stop
    → 0 < n
    → n < h.size x
    → Carved h (cut h p x n) p p (x ∷ xs) stop (x + (h.size x - n) * unit) n
cut_first h p x xs stop n (next, gap, s) pos_n lt = record {
  blocks = x ∷ xs;
  segs = (
    next,
    omega (arith, gap, size_p),
    Segs-keep h (cut h p x n) x x xs stop refl (omega (arith, size_x)) (λ a b. (refl, behind a b))
        s,
  );
  at = here;
  cover = λ a. whole a (covered (cut h p x n) xs a) (covered h xs a) (same a);
  apart = λ a. apart a (covered (cut h p x n) xs a) (same a);
}
  where
    size_x : (cut h p x n).size x ≡ h.size x - n
    size_x = ground (arith, lt)

    size_p : (cut h p x n).size p ≡ h.size p
    size_p = ground (arith, gap, lt)

    behind : (a : ℕ) → end_of h x < a → (cut h p x n).size a ≡ h.size a
    behind a b = ground (arith, b, lt, pos_n)

    same : (a : ℕ) → covered (cut h p x n) xs a ≡ covered h xs a
    same a = covered-keep h (cut h p x n) x xs stop a behind s

    whole :
        (a : ℕ) (c d : Bool)
        → c ≡ d
        → (in_block h x a || d)
          ≡ ((in_block (cut h p x n) x a || c) || in_units (x + (h.size x - n) * unit) n a)
    whole a c d f =
        split_block x (h.size x) n a d lt
        ∙ ap
            (λ k.
              ((leb x a && ltb a (x + k * unit)) || d) || in_units (x + (h.size x - n) * unit) n a)
            (sym size_x)
        ∙ ap (λ e. (in_block (cut h p x n) x a || e) || in_units (x + (h.size x - n) * unit) n a)
            (sym f)

    apart :
        (a : ℕ) (c : Bool)
        → c ≡ covered h xs a
        → ((in_block (cut h p x n) x a || c) && in_units (x + (h.size x - n) * unit) n a) ≡ false
    apart a c f =
        ap
          (λ k.
            ((leb x a && ltb a (x + k * unit)) || c) && in_units (x + (h.size x - n) * unit) n a)
          size_x
        ∙ split_apart x (h.size x) n a c lt (λ below. f ∙ covered_behind h x xs stop a s below)

-- A block in front of the place, whose pointer and size stay
Carved-later :
    (h h1 : Heap) (prevp p y : ℕ) (ys : List ℕ) (stop q n : ℕ)
    → h.ptr p ≡ y
    → end_of h p < y
    → h1.ptr p ≡ h.ptr p
    → h1.size p ≡ h.size p
    → h1.size y ≡ h.size y
    → end_of h y ≤ q
    → Carved h h1 prevp y ys stop q n
    → Carved h h1 prevp p (y ∷ ys) stop q n
Carved-later h h1 prevp p y ys stop q n next gap ptr_p size_p size_y below c = record {
  blocks = y ∷ c.blocks;
  segs = (ptr_p ∙ next, omega (arith, gap, size_p), c.segs);
  at = there c.at;
  cover = λ a.
      ap (λ b. in_block h y a || b) (c.cover a)
      ∙ ap (λ k. (leb y a && ltb a (y + k * unit)) || (covered h1 c.blocks a || in_units q n a))
          (sym size_y)
      ∙ sym (or_assoc (in_block h1 y a) (covered h1 c.blocks a) (in_units q n a));
  apart = λ a. apart a (covered h1 c.blocks a) (c.apart a);
}
  where
    apart :
        (a : ℕ) (b : Bool)
        → (b && in_units q n a) ≡ false
        → ((in_block h1 y a || b) && in_units q n a) ≡ false
    apart a true e = ground (arith, e)
    apart a false e = ground (arith, size_y, below)

pub Pair-ptr :
    {prevp x p : ℕ} {xs : List ℕ} (h : Heap) (stop : ℕ) (pr : Pair prevp x p xs)
    → Segs h p xs stop
    → (h.ptr prevp ≡ x) × (p ≤ prevp) × (prevp < x) × (end_of h p < x)
Pair-ptr h stop first (next, gap, s) = (next, omega arith, omega (arith, gap), gap)
Pair-ptr h stop (later pr) (next, gap, s) =
    let (e, le, lt, gap') = Pair-ptr h stop pr s in
    (e, omega (arith, le, gap), lt, omega (arith, gap, gap'))

carve_below :
    (h : Heap) (prevp x n a : ℕ)
    → a < x
    → prevp ≢ a
    → ((carve h prevp x n).1.ptr a ≡ h.ptr a) × ((carve h prevp x n).1.size a ≡ h.size a)
unfolding carve
carve_below h prevp x n a lt ne = ground (arith, lt, ne)

pub carve_size : (h : Heap) (prevp x n a : ℕ) → a < x → (carve h prevp x n).1.size a ≡ h.size a
unfolding carve
carve_size h prevp x n a lt = ground (arith, lt)

carve_start : (h : Heap) (prevp x n : ℕ) → x ≤ (carve h prevp x n).0
unfolding carve
carve_start h prevp x n = ground arith

-- Where the block at `x` has `n` units, `carve` takes the block or the end of it out of the list.
pub carve_lem :
    {prevp x p : ℕ} {xs : List ℕ} (h : Heap) (stop n : ℕ) (pr : Pair prevp x p xs)
    → Segs h p xs stop
    → 0 < n
    → n ≤ h.size x
    → Carved h (carve h prevp x n).1 prevp p xs stop (carve h prevp x n).0 n
unfolding carve
carve_lem {x} {p} h stop n (first {xs}) s pos_n le = elim (Bool-cases (h.size x == n)) [
  | inl all ↦ rw all (taken_first h p x xs stop n s (ground (arith, all)))
  | inr part ↦ rw part (cut_first h p x xs stop n s pos_n (ground (arith, part, le)))
]
carve_lem {prevp} {x} h stop n (later {p} {y} {ys} pr) (next, gap, s) pos_n le =
    let (_, at_least, below, gap') = Pair-ptr h stop pr s in
    let (ptr_p, size_p) =
      carve_below h prevp x n p (omega (arith, gap, gap')) (omega (arith, gap, at_least)) in
    Carved-later h (carve h prevp x n).1 prevp p y ys stop (carve h prevp x n).0 n next gap ptr_p
      size_p (carve_size h prevp x n y (omega (arith, at_least, below)))
      (omega (arith, gap', carve_start h prevp x n)) (carve_lem h stop n pr s pos_n le)

pub carve_freep : (h : Heap) (prevp x n : ℕ) → (carve h prevp x n).1.freep ≡ prevp
unfolding carve
carve_freep h prevp x n = ground arith

-- The header of the block has its size.
pub carve_units : (h : Heap) (prevp x n : ℕ) → (carve h prevp x n).1.size (carve h prevp x n).0 ≡ n
unfolding carve
carve_units h prevp x n = ground arith
