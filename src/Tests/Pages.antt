-- ===== src/Tests/Pages.antt =====
-- kernel/kalloc.c on a free list of two pages.
use os_study.Prelude.{ℕ, ◌≡◌, ◌≢◌, refl, [], ◌∷◌, ok, arith, update}
use os_study.Spinlock.{initlock}
use os_study.Kalloc.{Kmem, kfree, kalloc}
use os_study.Kalloc.Frames.{IsPage, Fresh}
use os_study.Kalloc.FreeList.{FreeList, kfree_lem, kalloc_lem}
use os_study.Kalloc.Boot.{boot_cpu}

abbrev end : ℕ
end = 0x80021000

abbrev page : ℕ
page = 0x80022000

abbrev empty : Kmem
empty = record { lock = initlock; freelist = 0; words = λ q. 7 }

abbrev one_free : Kmem
one_free = record { lock = initlock; freelist = page; words = update (λ q. 7) page 0 }

empty-FreeList : FreeList end empty []
empty-FreeList = record { unlocked = refl; chain = refl; pages = tt; distinct = tt }

one_free-FreeList : FreeList end one_free (page ∷ [])
one_free-FreeList = record {
  unlocked = refl;
  chain = (refl, refl);
  pages = (omega arith, tt);
  distinct = (tt, tt);
}

kfree_lem_example :
    (k' : Kmem) × (kfree end boot_cpu one_free 0x80023000
      ≡ ok (record { cpu = boot_cpu; kmem = k' }))
    × FreeList end k' (0x80023000 ∷ page ∷ [])
kfree_lem_example =
    kfree_lem end boot_cpu one_free 0x80023000 (page ∷ []) (λ _. refl) one_free-FreeList
      (omega arith) (omega arith, tt)

kalloc_lem_example :
    (k' : Kmem) × (kalloc boot_cpu one_free
      ≡ ok (record { cpu = boot_cpu; kmem = k'; page = page }))
    × FreeList end k' []
    × IsPage end page
    × Fresh page []
    × (page ≢ 0)
kalloc_lem_example =
    kalloc_lem end boot_cpu one_free page [] (omega arith) (λ _. refl) one_free-FreeList
