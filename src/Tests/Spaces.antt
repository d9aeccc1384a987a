-- ===== src/Tests/Spaces.antt =====
-- Runs of kernel/vm.c.
use os_study.Prelude.{
  ◌-◌, ◌^◌, negsuc, false, ℕ, zero, suc, ◌+◌, ◌<◌, ◌≡◌, ◌≢◌, refl, true, Option, none, some, List,
  [], ◌∷◌, arith, update, pos, ok, panic, blocked, Outcome, true≢false, sym,
}
use os_study.Kalloc.{page_round_up}
use os_study.Syscall.{sys_sbrk, fetchaddr, argint, argraw, syscall}
use os_study.Syscall.Sbrk.{Sized, sys_sbrk_lem}
use os_study.Vm.{Machine, set_entry, pa2pte, mappages}
use os_study.Vm.Space.{uvmdealloc, uvmunmap, uvmalloc, uvmfree, pages_between}
use os_study.Vm.Copy.{Myproc, copyin}
use os_study.Vm.Tree.{Owners, FreePages, leaf_page, pte_of}
use os_study.Vm.Walk.{IsForest}
use os_study.Vm.MapPage.{Mapped}
use os_study.Vm.Map.{Unmapped, mappages_lem}
use os_study.Vm.Unmap.{Kept, uvmunmap_lem}
use os_study.Vm.Undo.{Allocated}
use os_study.Vm.Alloc.{uvmalloc_lem}
use os_study.Vm.Processes.{Grown, growproc, growproc_lem}
use os_study.Vm.UserBytes.{user_frame, UserRange, Apart, taken, copyin_lem}

-- An address space with nothing in it, at page 4096
abbrev empty_space : Machine
empty_space = record { tables = λ p i. 0; bytes = λ a. 7; free = 8192 ∷ 12288 ∷ 16384 ∷ 20480 ∷ [] }

abbrev empty_own : Owners
empty_own = update (λ p. none) 4096 (some (4096, 2, 0))

empty_space-IsForest : IsForest empty_own empty_space
unfolding FreePages
empty_space-IsForest = record {
  tree = λ p r l v i o h valid. absurd (true≢false (sym valid));
  free =
      ((
        refl,
        refl,
        (omega arith, (omega arith, (omega arith, tt))),
        (
          refl,
          refl,
          (omega arith, (omega arith, tt)),
          (refl, refl, (omega arith, tt), (refl, refl, tt, tt)),
        ),
      ));
}

nothing_there : (a k : ℕ) → Unmapped empty_space 4096 a k
unfolding leaf_page
nothing_there a k j lt = refl

mappages_lem_example :
    Mapped empty_own empty_space 4096 4096 65536 6 2 (mappages empty_space 4096 4096 8192 65536 6)
mappages_lem_example =
    mappages_lem empty_own empty_space 4096 4096 8192 65536 6 empty_space-IsForest refl refl refl
      (omega arith) (omega arith) (nothing_there 4096 2)

-- Two pages at address 4096, on the frames at 65536
abbrev mapped_pair :
    Mapped empty_own empty_space 4096 4096 65536 6 2 (mappages empty_space 4096 4096 8192 65536 6)
mapped_pair =
    mappages_lem empty_own empty_space 4096 4096 8192 65536 6 empty_space-IsForest refl refl refl
      (omega arith) (omega arith) (nothing_there 4096 2)

uvmunmap_lem_example :
    Kept mapped_pair.own1 mapped_pair.m1 4096 4096 2 (uvmunmap mapped_pair.m1 4096 4096 2 false)
uvmunmap_lem_example =
    uvmunmap_lem mapped_pair.own1 mapped_pair.m1 4096 4096 2 mapped_pair.forest.tree
      (mapped_pair.keeps 4096 (4096, 2, 0) refl) refl (omega arith)

-- Four free pages are not enough for four pages of user memory and two of page tables.
uvmalloc_lem_example :
    Allocated empty_own empty_space 4096
      (page_round_up 100)
      (pages_between (page_round_up 100) 20000)
      20000
      22
      (uvmalloc empty_space 4096 100 20000 4)
uvmalloc_lem_example =
    uvmalloc_lem empty_own empty_space 4096 100 20000 4 empty_space-IsForest refl (omega arith)
      (omega arith) (nothing_there 4096 4)

abbrev process : Myproc
process = record { sz = 8192; pagetable = 4096 }

-- Two user pages, on frames in the other order
abbrev user_space : Machine
user_space =
    set_entry
      (set_entry (set_entry (set_entry empty_space 4096 0 (pa2pte 8192 1)) 8192 0 (pa2pte 12288 1))
        12288 0 (pa2pte 20480 23))
      12288 1 (pa2pte 16384 23)

across_pages : UserRange user_space.tables 4096 4095 2
unfolding leaf_page
across_pages = record { below = omega arith; mapped = there }
  where
    there : (o : ℕ) → o < 2 → user_frame (pte_of user_space.tables 4096 (4095 + o)) ≢ 0
    there zero h = omega arith
    there (suc zero) h = omega arith
    there (suc (suc o)) h = absurd (omega (arith, h))

across_Apart : Apart user_space.tables 4096 4095 2 60000
unfolding leaf_page
across_Apart zero h = refl
across_Apart (suc zero) h = refl
across_Apart (suc (suc o)) h = absurd (omega (arith, h))

copyin_lem_example :
    (b : ℕ → ℕ) × (copyin user_space process 4096 60000 4095 2
      ≡ ok (true, record user_space { bytes = b }))
    × ((q : ℕ) → b q ≡ taken user_space.tables user_space.bytes 4096 60000 4095 2 q)
copyin_lem_example = copyin_lem user_space process 4096 60000 4095 2 across_pages across_Apart

abbrev returned : Outcome (ℕ × Machine) → Option ℕ
returned (ok (sz, m)) = some sz
returned (panic s) = none
returned blocked = none

uvmalloc_short : returned (uvmalloc empty_space 4096 100 20000 4) ≡ some 0
unfolding uvmalloc mappages uvmdealloc uvmunmap
uvmalloc_short = refl

uvmalloc_room : returned (uvmalloc empty_space 4096 100 8192 4) ≡ some 8192
unfolding uvmalloc mappages
uvmalloc_room = refl

abbrev free_pages : Outcome Machine → List ℕ
free_pages (ok m) = m.free
free_pages (panic s) = []
free_pages blocked = []

-- All of an address space comes back: two frames, two page-table pages and the root.
uvmfree_all :
    free_pages (uvmfree user_space 4096 8192)
    ≡ (4096 ∷ 8192 ∷ 12288 ∷ 16384 ∷ 20480 ∷ empty_space.free)
unfolding uvmfree
uvmfree_all = refl

growproc_lem_example :
    Grown empty_own empty_space 4096 100 5000 (growproc empty_space 4096 100 (pos 5000))
growproc_lem_example =
    growproc_lem empty_own empty_space 4096 100 4999 empty_space-IsForest refl
      (nothing_there (page_round_up 100) 1)

sys_sbrk_lem_example :
    Sized empty_space 100 5000 false (sys_sbrk empty_space 4096 100 (pos 5000) (pos 2))
sys_sbrk_lem_example =
    sys_sbrk_lem empty_own empty_space 4096 100 5000 (pos 2) empty_space-IsForest refl
      (nothing_there (page_round_up 100) 1) (omega arith) (omega arith)

sbrk_lazy : sys_sbrk empty_space 4096 100 (pos 5000) (pos 2) ≡ ok (pos 100, 5100, empty_space)
unfolding sys_sbrk
sbrk_lazy = refl

abbrev top : Myproc
top = record { sz = 5000; pagetable = 4096 }

-- The end of the word would wrap.
fetchaddr_wraps : (fetchaddr empty_space top (2 ^ 64 - 4) 8 ≡ ok (false, empty_space))
unfolding fetchaddr
fetchaddr_wraps = refl

argint_negative : argint (λ k. 2 ^ 64 - 2) 0 ≡ ok (negsuc 1)
unfolding argint argraw
argint_negative = refl

-- Number 13 has no function.
syscall_unknown : syscall (λ n. 7) 13 ≡ 2 ^ 64 - 1
unfolding syscall
syscall_unknown = refl
