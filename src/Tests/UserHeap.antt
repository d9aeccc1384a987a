-- ===== src/Tests/UserHeap.antt =====
-- user/umalloc.c on a heap of a few blocks.
use os_study.Prelude.{
  some-injective, subst, ℕ, ◌+◌, ◌-◌, ◌*◌, ◌≡◌, refl, Option, none, some, List, [], ◌∷◌, arith,
  Outcome, ok, if◌then◌else◌, ◌==◌, inl, inr,
}
use os_study.Umalloc.{
  Heap, unit, find_place, join_next, join_prev, free, morecore, carve, search_from, started, malloc,
}
use os_study.Umalloc.Ring.{here, there}
use os_study.Umalloc.Malloc.{Malloced, IsNew, started-IsFreeList, malloc_lem}
use os_study.Umalloc.Free.{IsFreeList, Freed, free_lem}

-- Two free blocks, of 4 and 2 units, and a block of 3 units between them that is in use.
abbrev two_free : Heap
two_free = record {
  ptr = λ a. if a == 64 then 1600 else if a == 1600 then 1712 else 64;
  size = λ a. if a == 1600 then 4 else if a == 1712 then 2 else if a == 1664 then 3 else 0;
  freep = 1712;
}

two_free-IsFreeList : IsFreeList two_free 64 (1600 ∷ 1712 ∷ [])
two_free-IsFreeList = record {
  ring = (refl, omega arith, (refl, omega arith, refl));
  empty_base = refl;
  freep_in = there (there here);
}

free_lem_example : Freed two_free 64 (1600 ∷ 1712 ∷ []) 1664 (free 6 two_free 1664)
free_lem_example =
    free_lem 6 two_free 64 (1600 ∷ 1712 ∷ []) 1664 (omega arith) two_free-IsFreeList (omega arith)
      (omega arith) (inr (omega arith, omega arith), (inl (omega arith), tt))

-- The three are one block of 9 units.
abbrev shape : Outcome Heap → List ℕ
shape (ok h) = h.freep ∷ h.ptr 64 ∷ h.size (h.ptr 64) ∷ h.ptr (h.ptr 64) ∷ []
shape other = []

free_joins : shape (free 6 two_free 1664) ≡ 1600 ∷ 1600 ∷ 9 ∷ 64 ∷ []
unfolding free find_place join_next join_prev
free_joins = refl

abbrev empty_heap : Heap
empty_heap = record { ptr = λ a. 0; size = λ a. 0; freep = 0 }

abbrev header_of : Outcome (Option ℕ × Heap) → Option ℕ
header_of (ok (q, h)) = q
header_of other = none

-- The first block comes from the end of 4096 new units.
malloc_first :
    header_of (malloc 9 (λ n. some 8192) 64 empty_heap 100) ≡ some (8192 + (4096 - 8) * unit)
unfolding malloc started search_from carve morecore free find_place join_next join_prev
malloc_first = refl

malloc_no_memory : header_of (malloc 9 (λ n. none) 64 empty_heap 100) ≡ none
unfolding malloc started search_from carve morecore
malloc_no_memory = refl

-- No free block has the 8 units that 100 bytes and a header take.
malloc_lem_example :
    Malloced
      (λ b. some 8192)
      64
      two_free
      (1600 ∷ 1712 ∷ [])
      8
      (malloc 16 (λ b. some 8192) 64 two_free 100)
unfolding started
malloc_lem_example =
    malloc_lem 16 (λ b. some 8192) 64 two_free (1600 ∷ 1712 ∷ []) 100 (omega arith) (omega arith)
      two_free-IsFreeList
      λ p e.
        subst (λ y. IsNew two_free 64 (1600 ∷ 1712 ∷ []) 4096 y) (some-injective 8192 p e)
          (omega arith, (inr (omega arith, omega arith), (inr (omega arith, omega arith), tt)))

empty_heap-IsFreeList : IsFreeList (started 64 empty_heap) 64 []
empty_heap-IsFreeList = started-IsFreeList 64 empty_heap refl

malloc_grows : header_of (malloc 16 (λ b. some 8192) 64 two_free 100) ≡ some (8192 + 4088 * unit)
unfolding malloc started search_from carve morecore free find_place join_next join_prev
malloc_grows = refl

-- The block of 4 units fits 40 bytes and a header.
malloc_fits : header_of (malloc 16 (λ b. none) 64 two_free 40) ≡ some 1600
unfolding malloc started search_from carve morecore
malloc_fits = refl
