-- ===== src/Umalloc/Ring.antt =====
-- user/umalloc.c: the circular list of free blocks, in the order of their addresses.
use os_study.Prelude.{
  ℕ, ◌+◌, ◌*◌, ◌≤◌, ◌<◌, ◌≡◌, refl, ap, ◌∙◌, Bool, false, ◌&&◌, ◌||◌, List, [], ◌∷◌, arith, ltb,
  leb, length,
}
use os_study.Umalloc.{Heap, unit, end_of}

-- From `p` the pointers lead through `xs` to `stop`, upwards. A gap is left between a block and the
-- next: blocks that meet have been joined.
abbrev pub Segs : Heap → ℕ → List ℕ → ℕ → Type 0
Segs h p [] stop = h.ptr p ≡ stop
Segs h p (x ∷ xs) stop = (h.ptr p ≡ x) × (end_of h p < x) × Segs h x xs stop

-- `q` is `p` or one of `xs`.
pub data At (q : ℕ) : ℕ → List ℕ → Type 0 where
  here : {xs : List ℕ} → At q q xs
  there : {p x : ℕ} {xs : List ℕ} → At q x xs → At q p (x ∷ xs)

abbrev pub after : {q p : ℕ} {xs : List ℕ} → At q p xs → List ℕ
after (here {xs}) = xs
after (there a) = after a

pub Segs-after :
    {q p : ℕ} {xs : List ℕ} (h : Heap) (stop : ℕ) (a : At q p xs)
    → Segs h p xs stop
    → Segs h q (after a) stop
Segs-after h stop here s = s
Segs-after h stop (there a) (_, _, s) = Segs-after h stop a s

pub length-after : {q p : ℕ} {xs : List ℕ} (a : At q p xs) → length (after a) ≤ length xs
length-after here = omega arith
length-after (there a) = omega (arith, length-after a)

pub At-le : {q p : ℕ} {xs : List ℕ} (h : Heap) (stop : ℕ) (a : At q p xs) → Segs h p xs stop → p ≤ q
At-le h stop here s = omega arith
At-le h stop (there a) (_, gap, s) = omega (arith, gap, At-le h stop a s)

-- A list that starts at `p` is one that starts at `p'` where all behind is the same.
pub Segs-move :
    (h h' : Heap) (p p' : ℕ) (xs : List ℕ) (stop : ℕ)
    → h'.ptr p' ≡ h.ptr p
    → end_of h' p' ≡ end_of h p
    → ((a : ℕ) → p < a → (h'.ptr a ≡ h.ptr a) × (h'.size a ≡ h.size a))
    → Segs h p xs stop
    → Segs h' p' xs stop
Segs-move h h' p p' [] stop e f same s = e ∙ s
Segs-move h h' p p' (x ∷ xs) stop e f same (next, gap, s) =
    let above : p < x = omega (arith, gap) in
    let (ptr_x, size_x) = same x above in
    (
      e ∙ next,
      omega (arith, f, gap),
      Segs-move h h' x x xs stop ptr_x (ap (λ n. x + n * unit) size_x)
          (λ a lt. same a (omega (arith, above, lt))) s,
    )

-- Whether the block at `x` has the address `a`, and whether one of the blocks has it.
abbrev pub in_block : Heap → ℕ → ℕ → Bool
in_block h x a = leb x a && ltb a (end_of h x)

abbrev pub covered : Heap → List ℕ → ℕ → Bool
covered h [] a = false
covered h (x ∷ xs) a = in_block h x a || covered h xs a

pub covered-same :
    (h h' : Heap) (p : ℕ) (xs : List ℕ) (stop a : ℕ)
    → ((b : ℕ) → p < b → h'.size b ≡ h.size b)
    → Segs h p xs stop
    → covered h' xs a ≡ covered h xs a
covered-same h h' p [] stop a same s = refl
covered-same h h' p (x ∷ xs) stop a same (_, gap, s) =
    let above : p < x = omega (arith, gap) in
    ap (λ n. (leb x a && ltb a (x + n * unit)) || covered h' xs a) (same x above)
    ∙ ap (λ b. in_block h x a || b)
        (covered-same h h' x xs stop a (λ b lt. same b (omega (arith, above, lt))) s)
