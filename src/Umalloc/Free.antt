-- ===== src/Umalloc/Free.antt =====
-- user/umalloc.c: what `free` makes of the list of free blocks.
use os_study.Prelude.{
  suc, ℕ, ◌+◌, ◌*◌, ◌≤◌, ◌<◌, ◌≡◌, inl, inr, refl, sym, ap, subst, ◌∙◌, Bool, true, false, ◌&&◌,
  ◌||◌, List, [], ◌∷◌, arith, ltb, leb, ◌==◌, length, Bool-cases, Outcome, ok,
}
use mathlib.Core.Bool.{or_assoc}
use os_study.Umalloc.{Heap, unit, end_of, join_next, join_prev, free}
use os_study.Umalloc.Ring.{Segs, At, here, there, Segs-move, in_block, covered, covered-same}
use os_study.Umalloc.Place.{At-Apart, place, find_place_lem}
use os_study.Umalloc.Behind.{Clear, Clear-Apart, next_same, prev_same, Behind, behind, place_ge}

-- The list from `p` on after `free`, whose place for `bp` was `q`.
record Put (h h2 : Heap) (bp q p : ℕ) (xs : List ℕ) (stop : ℕ) : Type 0 where
  blocks : List ℕ
  segs : Segs h2 p blocks stop
  at : At q p blocks
  cover : (a : ℕ) → covered h2 (p ∷ blocks) a ≡ (covered h (p ∷ xs) a || in_block h bp a)
  big : ℕ
  big_in : At big p blocks
  big_size : h.size bp ≤ h2.size big
  count : length blocks ≤ suc (length xs)

-- A block and the one that it meets, as one.
pub joined_block :
    (a p s t n : ℕ)
    → n ≡ s + t
    → (leb p a && ltb a (p + n * unit)) ≡ (
        (leb p a && ltb a (p + s * unit))
        || (leb (p + s * unit) a && ltb a (p + s * unit + t * unit)))
joined_block a p s t n e = ground (arith, e)

regroup : (b c d e f : Bool) → (c || d) ≡ (e || f) → ((b || c) || d) ≡ ((b || e) || f)
regroup true c d e f h = refl
regroup false c d e f h = h

-- `bp` grows the block `p` that it meets.
insertion_joined :
    (h h1 : Heap) (bp p : ℕ) (xs : List ℕ) (stop : ℕ)
    → Behind h h1 bp xs stop
    → p < bp
    → end_of h1 p ≡ bp
    → h1.size p ≡ h.size p
    → Put h (join_prev h1 bp p) bp p p xs stop
unfolding join_prev
insertion_joined h h1 bp p xs stop b lt meets size_p =
    let size2 : (join_prev h1 bp p).size p ≡ h1.size p + h1.size bp = ground (arith, meets) in
    let ptr2 : (join_prev h1 bp p).ptr p ≡ h1.ptr bp = ground (arith, meets) in
    record {
      blocks = b.blocks;
      big = p;
      big_in = here;
      big_size = omega (arith, size2, b.grows);
      count = omega (arith, b.count);
      segs =
          Segs-move h1 (join_prev h1 bp p) bp p b.blocks stop ptr2 (omega (arith, size2, meets))
            (λ a above. prev_same h1 bp p a (omega (arith, above, lt))) b.segs;
      at = here;
      cover = λ a.
          ap (λ c. in_block (join_prev h1 bp p) p a || c)
            (covered-same h1 (join_prev h1 bp p) bp b.blocks stop a
              (λ c above. (prev_same h1 bp p c (omega (arith, above, lt))).1) b.segs)
          ∙ ap (λ x. x || covered h1 b.blocks a)
              (joined_block a p (h1.size p) (h1.size bp) ((join_prev h1 bp p).size p) size2
                ∙ ap (λ x. in_block h1 p a || (leb x a && ltb a (x + h1.size bp * unit))) meets
                ∙ ap (λ n. (leb p a && ltb a (p + n * unit)) || in_block h1 bp a) size_p)
          ∙ regroup (in_block h p a) (in_block h1 bp a) (covered h1 b.blocks a) (covered h xs a)
              (in_block h bp a) (b.cover a);
    }

insertion_linked :
    (h h1 : Heap) (bp p : ℕ) (xs : List ℕ) (stop : ℕ)
    → Behind h h1 bp xs stop
    → p < bp
    → end_of h1 p < bp
    → h1.size p ≡ h.size p
    → Put h (join_prev h1 bp p) bp p p xs stop
unfolding join_prev
insertion_linked h h1 bp p xs stop b lt apart size_p =
    let size2 : (join_prev h1 bp p).size p ≡ h1.size p = ground (arith, apart) in
    let ptr2 : (join_prev h1 bp p).ptr p ≡ bp = ground (arith, apart) in
    let same_bp = prev_same h1 bp p bp (omega (arith, lt)) in
    record {
      blocks = bp ∷ b.blocks;
      big = bp;
      big_in = there here;
      big_size = omega (arith, same_bp.1, b.grows);
      count = omega (arith, b.count);
      segs = (
        ptr2,
        omega (arith, size2, apart),
        Segs-move h1 (join_prev h1 bp p) bp bp b.blocks stop same_bp.0
            (ap (λ n. bp + n * unit) same_bp.1)
            (λ a above. prev_same h1 bp p a (omega (arith, above, lt))) b.segs,
      );
      at = here;
      cover = λ a.
          ap (λ c. in_block (join_prev h1 bp p) p a || (in_block (join_prev h1 bp p) bp a || c))
            (covered-same h1 (join_prev h1 bp p) bp b.blocks stop a
              (λ c above. (prev_same h1 bp p c (omega (arith, above, lt))).1) b.segs)
          ∙ ap
              (λ n.
                (leb p a && ltb a (p + n * unit))
                || (in_block (join_prev h1 bp p) bp a || covered h1 b.blocks a))
              (size2 ∙ size_p)
          ∙ ap
              (λ n.
                in_block h p a || ((leb bp a && ltb a (bp + n * unit)) || covered h1 b.blocks a))
              same_bp.1
          ∙ ap (λ x. in_block h p a || x) (b.cover a)
          ∙ sym (or_assoc (in_block h p a) (covered h xs a) (in_block h bp a));
    }

insertion_here :
    (h : Heap) (bp q p : ℕ) (xs : List ℕ) (stop : ℕ)
    → place bp p xs ≡ q
    → place bp p xs ≡ p
    → Segs h p xs stop
    → p < bp
    → end_of h p ≤ bp
    → stop ≤ p
    → 0 < h.size bp
    → Clear h bp xs
    → Put h (join_prev (join_next h bp q) bp q) bp q p xs stop
insertion_here h bp q p xs stop e e' s lt apart le some_size c =
    subst (λ y. Put h (join_prev (join_next h bp y) bp y) bp y p xs stop) (sym e' ∙ e) at_p
  where
    b : Behind h (join_next h bp p) bp xs stop
    b = behind h bp p xs stop s lt le some_size e' c

    size_p : (join_next h bp p).size p ≡ h.size p
    size_p = (next_same h bp p p (omega (arith, lt))).1

    at_p : Put h (join_prev (join_next h bp p) bp p) bp p p xs stop
    at_p = elim (Bool-cases (end_of (join_next h bp p) p == bp)) [
      | inl meets ↦
          insertion_joined h (join_next h bp p) bp p xs stop b lt (ground (arith, meets)) size_p
      | inr gap ↦
          insertion_linked h (join_next h bp p) bp p xs stop b lt
            (ground (arith, gap, apart, size_p)) size_p
    ]

-- A block in front, which neither step changes.
insertion_there :
    (h : Heap) (bp q p x : ℕ) (xs : List ℕ) (stop : ℕ)
    → h.ptr p ≡ x
    → end_of h p < x
    → Segs h x xs stop
    → p < bp
    → x ≤ q
    → Put h (join_prev (join_next h bp q) bp q) bp q x xs stop
    → Put h (join_prev (join_next h bp q) bp q) bp q p (x ∷ xs) stop
insertion_there h bp q p x xs stop next gap s lt ge r =
    let h1 = join_next h bp q in
    let h2 = join_prev h1 bp q in
    let (ptr1, size1) = next_same h bp q p (omega (arith, lt)) in
    let (ptr2, size2) = prev_same h1 bp q p (omega (arith, gap, ge)) in
    record {
      blocks = x ∷ r.blocks;
      big = r.big;
      big_in = there r.big_in;
      big_size = r.big_size;
      count = omega (arith, r.count);
      segs = (ptr2 ∙ ptr1 ∙ next, omega (arith, size1, size2, gap), r.segs);
      at = there r.at;
      cover = λ a.
          ap (λ n. (leb p a && ltb a (p + n * unit)) || covered h2 (x ∷ r.blocks) a) (size2 ∙ size1)
          ∙ ap (λ c. in_block h p a || c) (r.cover a)
          ∙ sym (or_assoc (in_block h p a) (covered h (x ∷ xs) a) (in_block h bp a));
    }

-- Both steps at the place that was found.
insertion :
    (h : Heap) (bp q p : ℕ) (xs : List ℕ) (stop : ℕ)
    → place bp p xs ≡ q
    → Segs h p xs stop
    → p < bp
    → end_of h p ≤ bp
    → stop ≤ p
    → 0 < h.size bp
    → Clear h bp xs
    → Put h (join_prev (join_next h bp q) bp q) bp q p xs stop
insertion h bp q p [] stop e s lt apart le some_size c =
    insertion_here h bp q p [] stop e refl s lt apart le some_size c
insertion h bp q p (x ∷ xs) stop e (next, gap, s) lt apart le some_size (inl above, c) =
    insertion_here h bp q p (x ∷ xs) stop e (ground (arith, above, some_size)) (next, gap, s) lt
      apart le some_size (inl above, c)
insertion h bp q p (x ∷ xs) stop e (next, gap, s) lt apart le some_size
      (inr (below, end_below), c) =
    let e' : place bp x xs ≡ q = sym (ground (arith, below)) ∙ e in
    let r = insertion h bp q x xs stop e' s below end_below (omega (arith, le, gap)) some_size c in
    insertion_there h bp q p x xs stop next gap s lt
      (subst (λ y. x ≤ y) e' (place_ge h bp xs x stop s)) r

prev_empty : (h1 : Heap) (bp q p : ℕ) → h1.size p ≡ 0 → p < bp → (join_prev h1 bp q).size p ≡ 0
unfolding join_prev
prev_empty h1 bp q p e lt = elim (Bool-cases (q == p)) [
  | inl same ↦
      (let at : q ≡ p = ground (arith, same) in
        subst (λ x. (join_prev h1 bp x).size p ≡ 0) (sym at) (ground (arith, e, lt)))
  | inr other ↦ (prev_same h1 bp q p (ground (arith, other))).1 ∙ e
]

in_empty : (h : Heap) (x a : ℕ) → h.size x ≡ 0 → in_block h x a ≡ false
in_empty h x a e = ground (arith, e)

-- The list of free blocks: above `base`, an empty block, lie the blocks `xs` in the order of their
-- addresses with gaps between them; the last leads back to `base`, and `freep` is one of them.
pub record IsFreeList (h : Heap) (base : ℕ) (xs : List ℕ) : Type 0 where
  pub ring : Segs h base xs base
  pub empty_base : h.size base ≡ 0
  pub freep_in : At h.freep base xs

-- What `free` of the block `bp` gives.
pub record Freed (h : Heap) (base : ℕ) (xs : List ℕ) (bp : ℕ) (out : Outcome Heap) : Type 0 where
  pub heap : Heap
  pub blocks : List ℕ
  pub result : out ≡ ok heap
  pub is_list : IsFreeList heap base blocks
  pub cover : (a : ℕ) → covered heap blocks a ≡ (covered h xs a || in_block h bp a)
  pub big : ℕ
  pub big_in : At big base blocks
  pub big_size : h.size bp ≤ heap.size big
  pub count : length blocks ≤ suc (length xs)

-- `free` of a block above `base` that overlaps no free block comes to an end, wherever `freep` is in
-- the list: the result is again such a list, without blocks that meet, and an address is free in it
-- exactly when it was free before or is in the block.
pub free_lem :
    (fuel : ℕ) (h : Heap) (base : ℕ) (xs : List ℕ) (bp : ℕ)
    → length xs + length xs + 2 ≤ fuel
    → IsFreeList h base xs
    → base < bp
    → 0 < h.size bp
    → Clear h bp xs
    → Freed h base xs bp (free fuel h bp)
unfolding free
free_lem fuel h base xs bp enough l above some_size c =
    let found =
      find_place_lem fuel h bp base xs l.freep_in enough l.ring (Clear-Apart h bp xs some_size c)
        above (At-Apart l.freep_in (Clear-Apart h bp xs some_size c) (inl above)) in
    let q = place bp base xs in
    let r =
      insertion h bp q base xs base refl l.ring above (omega (arith, l.empty_base, above))
        (omega arith) some_size c in
    let h2 = join_prev (join_next h bp q) bp q in
    let empty : h2.size base ≡ 0 =
      prev_empty (join_next h bp q) bp q base
        ((next_same h bp q base (omega (arith, above))).1 ∙ l.empty_base) above in
    record {
      heap = record h2 { freep = q };
      blocks = r.blocks;
      big = r.big;
      big_in = r.big_in;
      big_size = r.big_size;
      count = r.count;
      result = rw (found, free) refl;
      is_list = record { ring = r.segs; empty_base = empty; freep_in = r.at };
      cover = λ a.
          sym (ap (λ b. b || covered h2 r.blocks a) (in_empty h2 base a empty))
          ∙ r.cover a
          ∙ ap (λ b. (b || covered h xs a) || in_block h bp a) (in_empty h base a l.empty_base);
    }
