-- ===== src/Umalloc/Malloc.antt =====
-- user/umalloc.c: what `malloc` gives, from the free blocks or from new memory.
use os_study.Prelude.{
  ℤ, pos, true, ◌%◌, ◌^◌, ℕ, ◌+◌, ◌*◌, ◌≤◌, ◌<◌, ◌≡◌, ◌⊎◌, refl, sym, ap, subst, ◌∙◌, Bool, false,
  ◌&&◌, ◌||◌, List, [], ◌∷◌, arith, ltb, leb, if◌then◌else◌, inl, inr, Option, Option-cases, none,
  some, Outcome, ok, ◌>>=◌, length, update,
}
use os_study.Umalloc.{
  Heap, unit, carve, free, morecore, search_from, started, malloc, nunits_of, int_of,
}
use os_study.Umalloc.Ring.{Segs, At, here, there, in_block, covered}
use os_study.Umalloc.Place.{Apart}
use os_study.Umalloc.Behind.{Clear, Clear-Apart}
use os_study.Umalloc.Free.{IsFreeList, free_lem}
use os_study.Umalloc.Carve.{
  Pair, Pair-ptr, in_units, carve_lem, carve_size, carve_freep, carve_units,
}
use os_study.Umalloc.Search.{Small, after_more, more_at, takes, found, missed, search_lem}

-- A block of `n` units was allocated at `q`, out of the addresses that were `available`.
pub record Allocated (base n : ℕ) (available : ℕ → Bool) (out : Outcome (Option ℕ × Heap))
    : Type 0 where
  pub q : ℕ
  pub heap : Heap
  pub blocks : List ℕ
  pub result : out ≡ ok (some q, heap)
  pub is_list : IsFreeList heap base blocks
  pub units : heap.size q ≡ n
  pub cover : (a : ℕ) → available a ≡ (covered heap blocks a || in_units q n a)
  pub apart : (a : ℕ) → (covered heap blocks a && in_units q n a) ≡ false

from_list :
    (h : Heap) (base n prevp x : ℕ) (xs : List ℕ) (out : Outcome (Option ℕ × Heap))
    → IsFreeList h base xs
    → 0 < n
    → Pair prevp x base xs
    → n ≤ h.size x
    → out ≡ takes h prevp x n
    → Allocated base n (covered h xs) out
from_list h base n prevp x xs out l pos_n pr fits e =
    let c = carve_lem h base n pr l.ring pos_n fits in
    let (_, le, lt, _) = Pair-ptr h base pr l.ring in
    record {
      q = (carve h prevp x n).0;
      heap = (carve h prevp x n).1;
      blocks = c.blocks;
      result = e;
      is_list = record {
        ring = c.segs;
        empty_base = carve_size h prevp x n base (omega (arith, le, lt)) ∙ l.empty_base;
        freep_in = subst (λ y. At y base c.blocks) (sym (carve_freep h prevp x n)) c.at;
      };
      units = carve_units h prevp x n;
      cover = c.cover;
      apart = c.apart;
    }

-- A large block is in the list, so the search does not miss it.
not-Small :
    {q p : ℕ} {xs : List ℕ} (h : Heap) (n : ℕ)
    → At q p xs
    → n ≤ h.size q
    → h.size p < n
    → Small h n xs
    → ⊥
not-Small h n here le lt s = absurd (omega arith)
not-Small h n (there {x} a) le lt (s, ss) = not-Small h n a le s ss

-- The heap with the size of the new block
abbrev pub with_new : Heap → ℕ → ℕ → Heap
with_new h p nu = record h { size = update h.size p nu }

Segs-new :
    (h : Heap) (p nu s : ℕ) (xs : List ℕ) (stop : ℕ)
    → (s < p) ⊎ (p < s)
    → Apart p xs
    → Segs h s xs stop
    → Segs (with_new h p nu) s xs stop
Segs-new h p nu s [] stop d n g = g
Segs-new h p nu s (x ∷ xs) stop d (nx, n) (next, gap, g) =
    (next, ground (arith, gap, d), Segs-new h p nu x xs stop nx n g)

covered-new :
    (h : Heap) (p nu a : ℕ) (xs : List ℕ)
    → Apart p xs
    → covered (with_new h p nu) xs a ≡ covered h xs a
covered-new h p nu a [] n = refl
covered-new h p nu a (x ∷ xs) (nx, n) =
    let same : update h.size p nu x ≡ h.size x = ground (arith, nx) in
    ap (λ k. (leb x a && ltb a (x + k * unit)) || covered (with_new h p nu) xs a) same
    ∙ ap (λ b. in_block h x a || b) (covered-new h p nu a xs n)

-- The units that `morecore` asks for
abbrev pub units_of : ℕ → ℕ
units_of n = if ltb n 4096 then 4096 else n

-- New memory lies above `base` and is no part of a free block.
abbrev pub IsNew : Heap → ℕ → List ℕ → ℕ → ℕ → Type 0
IsNew h base xs nu p = (base < p) × Clear (with_new h p nu) p xs

morecore-none :
    (fuel : ℕ) (sbrk : ℤ → Option ℕ) (h : Heap) (n : ℕ)
    → sbrk (int_of (units_of n * unit)) ≡ none
    → morecore fuel sbrk h n ≡ ok (none, h)
unfolding morecore
morecore-none fuel sbrk h n e = rw (e, morecore) refl

morecore-some :
    (fuel : ℕ) (sbrk : ℤ → Option ℕ) (h h1 : Heap) (n p : ℕ)
    → sbrk (int_of (units_of n * unit)) ≡ some p
    → free fuel (with_new h p (units_of n)) p ≡ ok h1
    → morecore fuel sbrk h n ≡ ok (some h1.freep, h1)
unfolding morecore
morecore-some fuel sbrk h h1 n p e e' = rw (e, morecore, e') refl

-- The search in the list that `free` has put the new memory into
from_freed :
    (fuel : ℕ) (sbrk : ℤ → Option ℕ) (base n : ℕ) (h1 : Heap) (blocks : List ℕ) {big : ℕ}
    (available : ℕ → Bool) (out : Outcome (Option ℕ × Heap))
    → IsFreeList h1 base blocks
    → At big base blocks
    → n ≤ h1.size big
    → 0 < n
    → length blocks + length blocks + 2 < fuel
    → ((a : ℕ) → covered h1 blocks a ≡ available a)
    → out ≡ search_from fuel sbrk h1 h1.freep (h1.ptr h1.freep) n
    → Allocated base n available out
from_freed fuel sbrk base n h1 blocks available out l big large pos_n enough same went =
    elim (search_lem fuel sbrk h1 n base blocks l pos_n enough) [
      | found {prevp} {x} pr fits e ↦
          (let b = from_list h1 base n prevp x blocks out l pos_n pr fits (went ∙ e) in
            record {
              q = b.q;
              heap = b.heap;
              blocks = b.blocks;
              result = b.result;
              is_list = b.is_list;
              units = b.units;
              cover = λ a. sym (same a) ∙ b.cover a;
              apart = b.apart;
            })
      | missed k small le e ↦
          absurd (not-Small h1 n big large (omega (arith, l.empty_base, pos_n)) small)
    ]

from_new :
    (fuel : ℕ) (sbrk : ℤ → Option ℕ) (h : Heap) (base n p : ℕ) (xs : List ℕ)
    → IsFreeList h base xs
    → 0 < n
    → length xs + length xs + 5 ≤ fuel
    → sbrk (int_of (units_of n * unit)) ≡ some p
    → IsNew h base xs (units_of n) p
    → Allocated base n (λ a. covered h xs a || in_units p (units_of n) a) (more_at fuel sbrk h n)
from_new fuel sbrk h base n p xs l pos_n enough e (above, clear) =
    let h0 = with_new h p (units_of n) in
    let size_p : h0.size p ≡ units_of n = ground arith in
    let some_size : 0 < h0.size p = ground (arith, size_p, pos_n) in
    let n_apart = Clear-Apart h0 p xs some_size clear in
    let l0 : IsFreeList h0 base xs = record {
      ring = Segs-new h p (units_of n) base xs base (inl above) n_apart l.ring;
      empty_base = ground (arith, above, l.empty_base);
      freep_in = l.freep_in;
    } in
    let r = free_lem fuel h0 base xs p (omega arith) l0 above some_size clear in
    from_freed fuel sbrk base n r.heap r.blocks (λ a. covered h xs a || in_units p (units_of n) a)
      (more_at fuel sbrk h n) r.is_list r.big_in (ground (arith, r.big_size, size_p)) pos_n
      (omega (arith, r.count))
      (λ a.
        r.cover a
        ∙ ap (λ c. c || in_block h0 p a) (covered-new h p (units_of n) a xs n_apart)
        ∙ ap (λ k. covered h xs a || in_units p k a) size_p)
      (ap (λ o. o >>= after_more fuel sbrk n) (morecore-some fuel sbrk h r.heap n p e r.result))

-- The first call makes a list of no blocks.
pub started-IsFreeList : (base : ℕ) (h : Heap) → h.freep ≡ 0 → IsFreeList (started base h) base []
unfolding started
started-IsFreeList base h e =
    rw e record { ring = ground arith; empty_base = ground arith; freep_in = here }

-- `malloc` of `nbytes` with the free blocks `xs`: it takes a block of them that is large enough; if
-- there is none it takes one from new memory, or returns 0 and leaves the heap when there is no
-- memory.
pub data Malloced (sbrk : ℤ → Option ℕ) (base : ℕ) (h : Heap) (xs : List ℕ) (n : ℕ)
    (out : Outcome (Option ℕ × Heap)) : Type 0 where
  reused : Allocated base n (covered h xs) out → Malloced sbrk base h xs n out
  grown :
      (p : ℕ)
      → Small h n xs
      → sbrk (pos (units_of n * unit)) ≡ some p
      → Allocated base n (λ a. covered h xs a || in_units p (units_of n) a) out
      → Malloced sbrk base h xs n out
  failed :
      Small h n xs
      → sbrk (pos (units_of n * unit)) ≡ none
      → out ≡ ok (none, h)
      → Malloced sbrk base h xs n out

int_of-pos : (n : ℕ) → n < 2 ^ 31 → int_of n ≡ pos n
int_of-pos n h =
    let small : n % 2 ^ 32 ≡ n = omega (arith, h) in
    let below : ltb (n % 2 ^ 32) (2 ^ 31) ≡ true = ground (arith, small, h) in
    rw below (ap (λ x. pos x) small)

units_bound : (nbytes : ℕ) → nbytes + 31 < 2 ^ 31 → units_of (nunits_of nbytes) * unit < 2 ^ 31
units_bound nbytes h = ground (arith, h)

-- With a list of free blocks, which the first call makes, and for less than 2 ^ 31 - 31 bytes,
-- `malloc` comes to an end. Where a free block
-- is large enough it gives a block out of the free ones. Where none is, it gives one out of these and
-- the memory that `sbrk` adds, which overlaps no free block, or 0 when `sbrk` fails, and then nothing
-- else has changed. The block has the units that `nbytes` and a header need, none of them stays free,
-- and all else stays free, in such a list.
pub malloc_lem :
    (fuel : ℕ) (sbrk : ℤ → Option ℕ) (base : ℕ) (h : Heap) (xs : List ℕ) (nbytes : ℕ)
    → 4 * length xs + 8 ≤ fuel
    → nbytes + 31 < 2 ^ 31
    → IsFreeList (started base h) base xs
    → ((p : ℕ)
        → sbrk (pos (units_of (nunits_of nbytes) * unit)) ≡ some p
        → IsNew (started base h) base xs (units_of (nunits_of nbytes)) p)
    → Malloced sbrk base (started base h) xs (nunits_of nbytes) (malloc fuel sbrk base h nbytes)
unfolding malloc
malloc_lem fuel sbrk base h0 xs nbytes enough bound l new =
    let h = started base h0 in
    let n = nunits_of nbytes in
    let pos_n : 0 < n = omega arith in
    let asked : int_of (units_of n * unit) ≡ pos (units_of n * unit) =
      int_of-pos _ (units_bound nbytes bound) in
    elim (search_lem fuel sbrk h n base xs l pos_n (omega (arith, enough))) [
      | found pr fits e ↦ reused (from_list h base n _ _ xs _ l pos_n pr fits e)
      | missed k small le e ↦ elim (Option-cases (sbrk (pos (units_of n * unit)))) [
        | inl no_memory ↦ failed small no_memory (
            e
            ∙ ap (λ o. o >>= after_more k sbrk n)
                (morecore-none k sbrk h n (ap sbrk asked ∙ no_memory)))
        | inr (p, got) ↦ grown p small got (
            subst (λ o. Allocated base n (λ a. covered h xs a || in_units p (units_of n) a) o)
              (sym e)
              (from_new k sbrk h base n p xs l pos_n (omega (arith, le, enough))
                (ap sbrk asked ∙ got) (new p got)))
      ]
    ]
