-- ===== src/Bio/Release.antt =====
-- kernel/bio.c: `brelse` and the ring of buffers.
use os_study.Prelude.{
  ℕ, zero, suc, ◌+◌, ◌-◌, ◌≡◌, ◌≢◌, ◌∙◌, sym, ◌%◌, ◌^◌, ◌<◌, List, [], ◌∷◌, ◌++◌, All, arith,
  if◌then◌else◌, ◌==◌, update, update_ne, true, false, Bool-cases, inl, inr,
}
use os_study.Bio.{Buf, Bcache, binit_from, set_buf, insert_front, unlink, brelse}
use os_study.Bio.Ring.{
  Seg, Seg-next, Seg-prev, Seg-first, Seg-last, Seg-split, Seg-join, Without, Without-append,
  Distinct, IsRing, first, first-Without,
}

Without-remove : (p b : ℕ) (ys zs : List ℕ) → Without p (ys ++ (b ∷ zs)) → Without p (ys ++ zs)
Without-remove p b [] zs w = w.1
Without-remove p b (y ∷ ys) zs w = (w.0, Without-remove p b ys zs w.1)

Without-middle : (p b : ℕ) (ys zs : List ℕ) → Without p (ys ++ (b ∷ zs)) → b ≢ p
Without-middle p b [] zs w = w.0
Without-middle p b (y ∷ ys) zs w = Without-middle p b ys zs w.1

-- Without its buffer `b` the ring still has no buffer twice, and `b` not at all.
Distinct-remove :
    (b : ℕ) (ys zs : List ℕ)
    → Distinct (ys ++ (b ∷ zs))
    → Distinct (ys ++ zs) × Without b (ys ++ zs)
unfolding Distinct
Distinct-remove b [] zs d = (d.1, d.0)
Distinct-remove b (y ∷ ys) zs d =
    let (rest, away) = Distinct-remove b ys zs d.1 in
    let other : y ≢ b = λ e. Without-middle y b ys zs d.0 (sym e) in
    ((Without-remove y b ys zs d.0, rest), (other, away))

Seg-insert :
    (next prev : ℕ → ℕ) (b : ℕ) (xs : List ℕ)
    → b ≢ 0
    → Without b xs
    → Without 0 xs
    → Distinct xs
    → Seg next prev 0 xs 0
    → Seg
        (update (update next b (first xs 0)) 0 b)
        (update (update prev b 0) (first xs 0) b)
        0
        (b ∷ xs)
        0
unfolding Seg Distinct
Seg-insert next prev b [] h w o d s = ground arith
Seg-insert next prev b (x ∷ xs) h w o d (n, p, s) =
    let nexts =
      Seg-next (update next b x) prev x 0 0 b xs o.0 o.1
        (Seg-next next prev x 0 b x xs w.0 w.1 s) in
    let prevs =
      Seg-prev (update (update next b x) 0 b) (update prev b 0) x 0 x b xs (λ e. o.0 (sym e)) d.0
        (Seg-prev (update (update next b x) 0 b) prev x 0 b 0 xs (λ e. h (sym e)) w.1 nexts) in
    (ground arith, ground (arith, w.0), (ground (arith, h), ground arith, prevs))

pub insert_front-IsRing :
    (c : Bcache) (b : ℕ) (xs : List ℕ)
    → b ≢ 0
    → Without b xs
    → IsRing c xs
    → IsRing (insert_front c b) (b ∷ xs)
unfolding insert_front
insert_front-IsRing c b xs h w r = record {
  links = rw (head, first_at) (Seg-insert c.next c.prev b xs h w r.buffers r.distinct r.links);
  buffers = (h, r.buffers);
  distinct = unfold Distinct in (w, r.distinct);
}
  where
    first_at : c.next 0 ≡ first xs 0
    first_at = Seg-first c.next c.prev 0 0 xs r.links

    head : update c.next b (c.next 0) 0 ≡ c.next 0
    head = update_ne c.next b 0 (c.next 0) h

unlink-IsRing :
    (c : Bcache) (b : ℕ) (ys zs : List ℕ)
    → IsRing c (ys ++ (b ∷ zs))
    → IsRing (unlink c b) (ys ++ zs)
unfolding unlink
unlink-IsRing c b ys zs r =
    let (front, back) = Seg-split c.next c.prev 0 b 0 ys zs r.links in
    let (rest, away) = Distinct-remove b ys zs r.distinct in
    let outer = Without-remove 0 b ys zs r.buffers in
    let before = Seg-last c.next c.prev 0 b ys front in
    let after = Seg-first c.next c.prev b 0 zs back in
    let some_buffer = Without-middle 0 b ys zs r.buffers in
    let beyond = first-Without b 0 zs (λ e. some_buffer (sym e)) (Without-append b ys zs away).1 in
    let kept : update c.prev (c.next b) (c.prev b) b ≡ c.prev b =
      update_ne c.prev (c.next b) b (c.prev b) (λ e. beyond (sym after ∙ e)) in
    record {
      links =
          rw (kept, after, before) (Seg-join c.next c.prev 0 b 0 ys zs front back outer outer rest);
      buffers = outer;
      distinct = rest;
    }

set_buf-IsRing :
    (c : Bcache) (b : ℕ) (x : Buf) (xs : List ℕ) → IsRing c xs → IsRing (set_buf c b x) xs
set_buf-IsRing c b x xs r = record { links = r.links; buffers = r.buffers; distinct = r.distinct }

-- `refcnt--` of a `uint` above 0
decremented : (n : ℕ) → 0 < n → n < 2 ^ 32 → (n + 2 ^ 32 - 1) % 2 ^ 32 ≡ n - 1
decremented n h k = omega arith

-- Giving up a reference to the buffer `b` keeps the ring whole. When it was the last one, `b` moves
-- to the front and the others stay in their order; otherwise the order is as it was.
pub brelse_lem :
    (c : Bcache) (b : ℕ) (ys zs : List ℕ)
    → IsRing c (ys ++ (b ∷ zs))
    → 0 < (c.buf b).refcnt
    → (c.buf b).refcnt < 2 ^ 32
    → IsRing (brelse c b) (if (c.buf b).refcnt == 1 then b ∷ (ys ++ zs) else ys ++ (b ∷ zs))
unfolding brelse
brelse_lem c b ys zs r some_ref small = elim (Bool-cases ((c.buf b).refcnt == 1)) [
  | inl e ↦
      let free : ((c.buf b).refcnt - 1 == 0) ≡ true = ground arith in
      let (rest, away) = Distinct-remove b ys zs r.distinct in
      rw (brelse, decremented (c.buf b).refcnt some_ref small, free, e)
        (insert_front-IsRing _ b (ys ++ zs) (Without-middle 0 b ys zs r.buffers) away
          (unlink-IsRing _ b ys zs (set_buf-IsRing c b _ (ys ++ (b ∷ zs)) r)))
  | inr e ↦
      let busy : ((c.buf b).refcnt - 1 == 0) ≡ false = ground arith in
      rw (brelse, decremented (c.buf b).refcnt some_ref small, busy, e)
        (set_buf-IsRing c b _ (ys ++ (b ∷ zs)) r)
]

-- The buffers `b` to `b + k - 1` put in front of `xs` one by one.
unfoldable pub stacked : ℕ → ℕ → List ℕ → List ℕ
stacked zero b xs = xs
stacked (suc k) b xs = stacked k (b + 1) (b ∷ xs)

below-Without : (b : ℕ) (xs : List ℕ) → All (λ x. x < b) xs → Without b xs
below-Without b [] h = tt
below-Without b (x ∷ xs) h = (omega (arith, h.0), below-Without b xs h.1)

below_suc : (b : ℕ) (xs : List ℕ) → All (λ x. x < b) xs → All (λ x. x < b + 1) xs
below_suc b [] h = tt
below_suc b (x ∷ xs) h = (omega (arith, h.0), below_suc b xs h.1)

-- `binit` of any number of buffers makes a ring of all of them.
pub binit_from-IsRing :
    (k b : ℕ) (c : Bcache) (xs : List ℕ)
    → b ≢ 0
    → All (λ x. x < b) xs
    → IsRing c xs
    → IsRing (binit_from k b c) (stacked k b xs)
unfolding binit_from stacked
binit_from-IsRing zero b c xs h w r = r
binit_from-IsRing (suc k) b c xs h w r =
    binit_from-IsRing k (b + 1) (insert_front c b) (b ∷ xs) (omega arith)
      (omega arith, below_suc b xs w) (insert_front-IsRing c b xs h (below-Without b xs w) r)
