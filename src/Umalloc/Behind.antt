-- ===== src/Umalloc/Behind.antt =====
-- user/umalloc.c: the block that is freed, and the blocks behind it.
use os_study.Prelude.{
  length, ℕ, ◌+◌, ◌*◌, ◌≤◌, ◌<◌, ◌≡◌, ◌≢◌, ◌⊎◌, inl, inr, ap, ◌∙◌, Bool, true, false, ◌&&◌, ◌||◌,
  List, [], ◌∷◌, arith, ltb, leb, ◌==◌, Bool-cases,
}
use os_study.Umalloc.{Heap, unit, end_of, join_next, join_prev}
use os_study.Umalloc.Ring.{Segs, Segs-move, in_block, covered, covered-same}
use os_study.Umalloc.Place.{place, Apart}

-- The block at `bp` overlaps none of the blocks.
abbrev pub Clear : Heap → ℕ → List ℕ → Type 0
Clear h bp [] = Unit
Clear h bp (x ∷ xs) = ((end_of h bp ≤ x) ⊎ ((x < bp) × (end_of h x ≤ bp))) × Clear h bp xs

pub Clear-Apart : (h : Heap) (bp : ℕ) (xs : List ℕ) → 0 < h.size bp → Clear h bp xs → Apart bp xs
Clear-Apart h bp [] some_size c = tt
Clear-Apart h bp (x ∷ xs) some_size (inl above, c) =
    (inr (omega (arith, some_size, above)), Clear-Apart h bp xs some_size c)
Clear-Apart h bp (x ∷ xs) some_size (inr below, c) = (inl below.0, Clear-Apart h bp xs some_size c)

pub next_same :
    (h : Heap) (bp p a : ℕ)
    → bp ≢ a
    → ((join_next h bp p).ptr a ≡ h.ptr a) × ((join_next h bp p).size a ≡ h.size a)
unfolding join_next
next_same h bp p a ne = ground arith

pub prev_same :
    (h : Heap) (bp p a : ℕ)
    → p ≢ a
    → ((join_prev h bp p).ptr a ≡ h.ptr a) × ((join_prev h bp p).size a ≡ h.size a)
unfolding join_prev
prev_same h bp p a ne = ground arith

-- What stands in the list from `bp` on after the first step.
pub record Behind (h h1 : Heap) (bp : ℕ) (xs : List ℕ) (stop : ℕ) : Type 0 where
  pub blocks : List ℕ
  pub segs : Segs h1 bp blocks stop
  pub cover : (a : ℕ) → covered h1 (bp ∷ blocks) a ≡ (covered h xs a || in_block h bp a)
  pub grows : h.size bp ≤ h1.size bp
  pub count : length blocks ≤ length xs

-- Two blocks that meet are one, and two that do not meet are both there.
whole :
    (a bp x s t n : ℕ) (new old : Bool)
    → n ≡ s + t
    → new ≡ old
    → bp + s * unit ≡ x
    → ((leb bp a && ltb a (bp + n * unit)) || new)
      ≡ (((leb x a && ltb a (x + t * unit)) || old) || (leb bp a && ltb a (bp + s * unit)))
whole a bp x s t n new true e f at = rw f (ground arith)
whole a bp x s t n new false e f at = rw f (ground (arith, e, at))

both : (b c d e : Bool) → d ≡ e → (b || (c || d)) ≡ ((c || e) || b)
both b c d true f = rw f (ground arith)
both b c d false f = rw f (ground arith)

meets_next :
    (h : Heap) (bp p x : ℕ) (xs : List ℕ) (stop : ℕ)
    → h.ptr p ≡ x
    → end_of h bp ≡ x
    → bp < x
    → Segs h x xs stop
    → Behind h (join_next h bp p) bp (x ∷ xs) stop
unfolding join_next
meets_next h bp p x xs stop next at above s =
    let size_bp : (join_next h bp p).size bp ≡ h.size bp + h.size x = ground (arith, at, next) in
    let ptr_bp : (join_next h bp p).ptr bp ≡ h.ptr x = ground (arith, at, next) in
    record {
      blocks = xs;
      grows = omega (arith, size_bp);
      count = omega arith;
      segs =
          Segs-move h (join_next h bp p) x bp xs stop ptr_bp (omega (arith, size_bp, at))
            (λ a b. next_same h bp p a (omega (arith, b, above))) s;
      cover = λ a.
          whole a bp x (h.size bp) (h.size x) ((join_next h bp p).size bp)
            (covered (join_next h bp p) xs a) (covered h xs a) size_bp
            (covered-same h (join_next h bp p) x xs stop a
              (λ b lt. (next_same h bp p b (omega (arith, lt, above))).1) s)
            at;
    }

below_next :
    (h : Heap) (bp p x : ℕ) (xs : List ℕ) (stop : ℕ)
    → h.ptr p ≡ x
    → end_of h bp < x
    → bp < x
    → Segs h x xs stop
    → Behind h (join_next h bp p) bp (x ∷ xs) stop
unfolding join_next
below_next h bp p x xs stop next at above s =
    let size_bp : (join_next h bp p).size bp ≡ h.size bp = ground (arith, at, next) in
    let ptr_bp : (join_next h bp p).ptr bp ≡ x = ground (arith, at, next) in
    let same_x = next_same h bp p x (omega (arith, above)) in
    record {
      blocks = x ∷ xs;
      grows = omega (arith, size_bp);
      count = omega arith;
      segs = (
        ptr_bp,
        omega (arith, size_bp, at),
        Segs-move h (join_next h bp p) x x xs stop same_x.0 (ap (λ n. x + n * unit) same_x.1)
            (λ a b. next_same h bp p a (omega (arith, b, above))) s,
      );
      cover = λ a.
          ap (λ n. (leb bp a && ltb a (bp + n * unit)) || covered (join_next h bp p) (x ∷ xs) a)
            size_bp
          ∙ ap
              (λ n.
                in_block h bp a
                || ((leb x a && ltb a (x + n * unit)) || covered (join_next h bp p) xs a))
              same_x.1
          ∙ both (in_block h bp a) (in_block h x a) (covered (join_next h bp p) xs a)
              (covered h xs a)
              (covered-same h (join_next h bp p) x xs stop a
                (λ b lt. (next_same h bp p b (omega (arith, lt, above))).1) s);
    }

pub place_ge : (h : Heap) (bp : ℕ) (ys : List ℕ) (y stop : ℕ) → Segs h y ys stop → y ≤ place bp y ys
place_ge h bp [] y stop t = omega arith
place_ge h bp (z ∷ ys) y stop (_, gap, t) = ground (arith, gap, place_ge h bp ys z stop t)

pub behind :
    (h : Heap) (bp p : ℕ) (xs : List ℕ) (stop : ℕ)
    → Segs h p xs stop
    → p < bp
    → stop ≤ p
    → 0 < h.size bp
    → place bp p xs ≡ p
    → Clear h bp xs
    → Behind h (join_next h bp p) bp xs stop
unfolding join_next
behind h bp p [] stop s lt le some_size here_it c = record {
  blocks = [];
  grows = ground (arith, s, lt, le, some_size);
  count = omega arith;
  segs = ground (arith, s, lt, le, some_size);
  cover = λ a. ground (arith, s, lt, le, some_size);
}
behind h bp p (x ∷ xs) stop (next, gap, s) lt le some_size here_it (inr (below, _), c) =
    absurd (ground (arith, gap, below, here_it, place_ge h bp xs x stop s))
behind h bp p (x ∷ xs) stop (next, gap, s) lt le some_size here_it (inl above, c) =
    let beyond : bp < x = omega (arith, some_size, above) in
    elim (Bool-cases (end_of h bp == x)) [
      | inl meets ↦ meets_next h bp p x xs stop next (ground (arith, meets)) beyond s
      | inr apart ↦ below_next h bp p x xs stop next (ground (arith, apart, above)) beyond s
    ]
