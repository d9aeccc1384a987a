-- ===== src/Kalloc/FreeList.antt =====
-- kernel/kalloc.c: `kfree` and `kalloc` on the free list.
use os_study.Prelude.{
  ℕ, ◌<◌, ◌%◌, ◌≡◌, ◌≢◌, refl, false, List, [], ◌∷◌, arith, All, update, ltb, leb, ◌||◌, not,
  if◌then◌else◌, ◌==◌, Bool-cases, inl, inr, update_self, ne→==, ok, panic,
}
use os_study.Spinlock.{Cpu, initlock}
use os_study.Spinlock.Nesting.{IsQuiet, settled}
use os_study.Spinlock.Sections.{acquire-free, release-held}
use os_study.Kalloc.{page_size, phys_stop, fill_page, Kmem, kfree, kalloc}
use os_study.Kalloc.Frames.{
  IsPage, Fresh, Distinct, Chain, Chain-frame, fill_page-Fresh, freed-Fresh,
}

-- The pages `ps` are free: distinct, linked in this order, and nobody is in the allocator.
pub record FreeList (end : ℕ) (k : Kmem) (ps : List ℕ) : Type 0 where
  pub unlocked : k.lock.locked ≡ false
  pub chain : Chain k.words k.freelist ps
  pub pages : All (IsPage end) ps
  pub distinct : Distinct ps

-- Where `kfree` is given what is no page it panics, and takes no lock.
pub kfree-panic :
    (end : ℕ) (c : Cpu) (k : Kmem) (pa : ℕ) → ¬ (IsPage end pa) → kfree end c k pa ≡ panic "kfree"
unfolding kfree
kfree-panic end c k pa bad =
    elim (Bool-cases (not (pa % page_size == 0) || ltb pa end || leb phys_stop pa)) [
      | inl e ↦ rw e
      | inr e ↦
          absurd
            (bad (record { aligned = ground arith; above = ground arith; below = ground arith }))
    ]

abbrev pub after_kfree : Kmem → ℕ → Kmem
after_kfree k pa = record {
  lock = initlock;
  freelist = pa;
  words = update (fill_page k.words pa 1) pa k.freelist;
}

pub kfree-ok :
    (end : ℕ) (c : Cpu) (k : Kmem) (pa : ℕ)
    → IsQuiet c
    → k.lock.locked ≡ false
    → IsPage end pa
    → kfree end c k pa ≡ ok (record { cpu = settled c c.interrupts; kmem = after_kfree k pa })
unfolding kfree
kfree-ok end c k pa quiet l page =
    rw (acquire-free c k.lock l) (rw (release-held c quiet) (ground arith))

pub after_kfree-FreeList :
    (end : ℕ) (k : Kmem) (pa : ℕ) (ps : List ℕ)
    → FreeList end k ps
    → IsPage end pa
    → Fresh pa ps
    → FreeList end (after_kfree k pa) (pa ∷ ps)
after_kfree-FreeList end k pa ps v page new = record {
  unlocked = refl;
  chain = (
    refl,
    rw (update_self (fill_page k.words pa 1) pa k.freelist) (
        Chain-frame k.words _ k.freelist ps
          (freed-Fresh end k.words pa k.freelist ps page new v.pages) v.chain),
  );
  pages = (page, v.pages);
  distinct = (new, v.distinct);
}

-- `kfree` of a page that is not free puts that page at the head of the free list: it panics
-- nowhere, leaves the lock free and gives the CPU back as it was.
pub kfree_lem :
    (end : ℕ) (c : Cpu) (k : Kmem) (pa : ℕ) (ps : List ℕ)
    → IsQuiet c
    → FreeList end k ps
    → IsPage end pa
    → Fresh pa ps
    → (k' : Kmem) × (kfree end c k pa ≡ ok (record { cpu = settled c c.interrupts; kmem = k' }))
      × FreeList end k' (pa ∷ ps)
kfree_lem end c k pa ps quiet v page new = (
  after_kfree k pa,
  kfree-ok end c k pa quiet v.unlocked page,
  after_kfree-FreeList end k pa ps v page new,
)

abbrev pub after_kalloc : Kmem → Kmem
after_kalloc k = record {
  lock = initlock;
  freelist = if k.freelist == 0 then k.freelist else k.words k.freelist;
  words = if k.freelist == 0 then k.words else fill_page k.words k.freelist 5;
}

pub kalloc-ok :
    (c : Cpu) (k : Kmem)
    → IsQuiet c
    → k.lock.locked ≡ false
    → kalloc c k
      ≡ ok (record { cpu = settled c c.interrupts; kmem = after_kalloc k; page = k.freelist })
unfolding kalloc
kalloc-ok c k quiet l = rw (acquire-free c k.lock l) (rw (release-held c quiet) refl)

-- With a free page `kalloc` returns the head of the free list, which is a page, is not null and is
-- no longer free: the rest of the list is what stays free.
pub kalloc_lem :
    (end : ℕ) (c : Cpu) (k : Kmem) (p : ℕ) (ps : List ℕ)
    → 0 < end
    → IsQuiet c
    → FreeList end k (p ∷ ps)
    → (k' : Kmem) × (kalloc c k ≡ ok (record { cpu = settled c c.interrupts; kmem = k'; page = p }))
      × FreeList end k' ps
      × IsPage end p
      × Fresh p ps
      × (p ≢ 0)
kalloc_lem end c k p ps pos_end quiet v = (
  after_kalloc k,
  rw (kalloc-ok c k quiet v.unlocked) (ground (arith, v.chain.0)),
  record {
    unlocked = refl;
    chain =
        rw (v.chain.0, ne→== p 0 nonzero)
          (Chain-frame k.words (fill_page k.words p 5) (k.words p) ps
            (fill_page-Fresh end k.words p 5 ps v.pages.0 v.distinct.0 v.pages.1) v.chain.1);
    pages = v.pages.1;
    distinct = v.distinct.1;
  },
  v.pages.0,
  v.distinct.0,
  nonzero,
)
  where
    nonzero : p ≢ 0
    nonzero = ground (arith, v.pages.0)

-- With no free page `kalloc` returns the null pointer and changes nothing.
pub kalloc-empty :
    (end : ℕ) (c : Cpu) (k : Kmem)
    → IsQuiet c
    → FreeList end k []
    → (k' : Kmem) × (kalloc c k ≡ ok (record { cpu = settled c c.interrupts; kmem = k'; page = 0 }))
      × FreeList end k' []
      × (k'.words ≡ k.words)
kalloc-empty end c k quiet v = (
  after_kalloc k,
  rw (kalloc-ok c k quiet v.unlocked) (ground (arith, v.chain)),
  record { unlocked = refl; chain = ground (arith, v.chain); pages = tt; distinct = tt },
  ground (arith, v.chain),
)
