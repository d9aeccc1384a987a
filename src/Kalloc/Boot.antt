-- ===== src/Kalloc/Boot.antt =====
-- kernel/kalloc.c: `kinit`, and the free list that it builds.
use os_study.Prelude.{
  ℕ, zero, suc, ◌+◌, ◌-◌, ◌*◌, ◌/◌, ◌≤◌, ◌<◌, ◌%◌, ◌≡◌, refl, false, List, [], ◌∷◌, arith, All, ok,
  length,
}
use os_study.Spinlock.{Cpu, initlock}
use os_study.Spinlock.Nesting.{IsQuiet, settled}
use os_study.Kalloc.{page_size, page_round_up, phys_stop, Words, Kmem, free_pages, freerange, kinit}
use os_study.Kalloc.Frames.{IsPage, Fresh}
use os_study.Kalloc.FreeList.{FreeList, kfree-ok, after_kfree, after_kfree-FreeList}

-- The pages from `p` on, `n` of them, freed in this order on top of `ps`.
pub stacked : ℕ → ℕ → List ℕ → List ℕ
stacked p zero ps = ps
stacked p (suc n) ps = stacked (p + page_size) n (p ∷ ps)

-- All of `ps` lie below `p`.
abbrev Below : ℕ → List ℕ → Type 0
Below p ps = All (λ q. q < p) ps

Below-mono : (p q : ℕ) (ps : List ℕ) → p ≤ q → Below p ps → Below q ps
Below-mono p q [] h b = tt
Below-mono p q (x ∷ xs) h b = (omega arith, Below-mono p q xs h b.1)

Below-Fresh : (p : ℕ) (ps : List ℕ) → Below p ps → Fresh p ps
Below-Fresh p [] b = tt
Below-Fresh p (x ∷ xs) b = (omega arith, Below-Fresh p xs b.1)

settled-twice : (c : Cpu) → settled (settled c c.interrupts) c.interrupts ≡ settled c c.interrupts
settled-twice c = ground arith

-- The CPU is already as a section leaves it.
free_pages_lem :
    (n fuel end : ℕ) (c : Cpu) (k : Kmem) (p : ℕ) (ps : List ℕ)
    → IsQuiet c
    → settled c c.interrupts ≡ c
    → FreeList end k ps
    → Below p ps
    → p % page_size ≡ 0
    → end ≤ p
    → p + n * page_size ≤ phys_stop
    → phys_stop < p + suc n * page_size
    → n < fuel
    → (k' : Kmem) × (free_pages end fuel c k p phys_stop ≡ ok (record { cpu = c; kmem = k' }))
      × FreeList end k' (stacked p n ps)
unfolding free_pages stacked
free_pages_lem n zero end c k p ps quiet same v low al ab lo hi h = absurd (omega arith)
free_pages_lem zero (suc fuel) end c k p ps quiet same v low al ab lo hi h = (k, ground arith, v)
free_pages_lem (suc n) (suc fuel) end c k p ps quiet same v low al ab lo hi h =
    let page : IsPage end p = omega arith in
    let fresh = Below-Fresh p ps low in
    let (k', run, list) =
      free_pages_lem n fuel end c (after_kfree k p) (p + page_size) (p ∷ ps) quiet same
        (after_kfree-FreeList end k p ps v page fresh)
        (omega arith, Below-mono p (p + page_size) ps (omega arith) low) (omega arith) (omega arith)
        (omega arith) (omega arith) (omega arith) in
    (k', rw (kfree-ok end c k p quiet v.unlocked page, same) (ground (arith, run)), list)

length-stacked : (p n : ℕ) (ps : List ℕ) → length (stacked p n ps) ≡ n + length ps
unfolding stacked
length-stacked p zero ps = omega arith
length-stacked p (suc n) ps = omega (arith, length-stacked (p + page_size) n (p ∷ ps))

-- The boot CPU: interrupts off, `cpus[]` still zero.
abbrev pub boot_cpu : Cpu
boot_cpu = record { hartid = 0; interrupts = false; noff = 0; intena = false }

abbrev pub first_page : ℕ → ℕ
first_page end = page_round_up end

abbrev pub page_count : ℕ → ℕ
page_count end = (phys_stop - first_page end) / page_size

-- On the boot CPU, with one round of fuel more than there are pages, `kinit` ends without a panic,
-- and the free list then holds each whole page between the end of the kernel and `PHYSTOP`, once.
pub kinit_lem :
    (end fuel : ℕ) (w : Words)
    → end ≤ phys_stop
    → page_count end < fuel
    → (k : Kmem) × (kinit end fuel boot_cpu w ≡ ok (record { cpu = boot_cpu; kmem = k }))
      × FreeList end k (stacked (first_page end) (page_count end) [])
      × (length (stacked (first_page end) (page_count end) []) ≡ page_count end)
unfolding kinit freerange
kinit_lem end fuel w small enough =
    let (k, run, list) =
      free_pages_lem (page_count end) fuel end boot_cpu
        (record { lock = initlock; freelist = 0; words = w }) (first_page end) [] (λ _. refl) refl
        (record { unlocked = refl; chain = refl; pages = tt; distinct = tt }) tt (omega arith)
        (omega arith) (omega arith) (omega arith) enough in
    (k, run, list, omega (arith, length-stacked (first_page end) (page_count end) []))
