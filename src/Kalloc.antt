-- ===== src/Kalloc.antt =====
-- kernel/kalloc.c: the allocator of physical pages. Memory is read here in 64-bit words, by their
-- addresses; `struct run` is the first word of a free page. The message of `kalloc` when memory has
-- run out is left out.
pub mod Frames
pub mod FreeList
pub mod Boot
use os_study.Prelude.{
  ℕ, zero, suc, ◌+◌, ◌-◌, ◌*◌, ◌/◌, ◌%◌, ◌^◌, Bool, not, ◌&&◌, ◌||◌, Outcome, ok, panic, blocked,
  ◌>>=◌, ltb, leb, ◌==◌, if◌then◌else◌, update,
}
use os_study.Spinlock.{Cpu, Spinlock, initlock, Holder, acquire, release}

abbrev pub page_size : ℕ
page_size = 4096

-- `PHYSTOP`, `KERNBASE + 128*1024*1024`
abbrev pub phys_stop : ℕ
phys_stop = 0x88000000

-- `PGROUNDUP`: `& ~(PGSIZE-1)` clears the low twelve bits.
abbrev pub page_round_up : ℕ → ℕ
page_round_up sz = (sz + page_size - 1) / page_size * page_size

abbrev pub Words : Type 0
Words = ℕ → ℕ

-- `memset(pa, c, PGSIZE)`, read in words
abbrev pub fill_page : Words → ℕ → ℕ → Words
fill_page w pa c q = if leb pa q && ltb q (pa + page_size) then c * 0x0101010101010101 else w q

-- `kmem`, with the memory that its list runs through.
pub record Kmem : Type 0 where
  pub lock : Spinlock
  pub freelist : ℕ
  pub words : Words

pub record Freed : Type 0 where
  pub cpu : Cpu
  pub kmem : Kmem

pub record Allocated : Type 0 where
  pub cpu : Cpu
  pub kmem : Kmem
  pub page : ℕ

-- `end` is the first address after the kernel, which the linker chooses.
module _ (end : ℕ) where
  unfoldable pub kfree : Cpu → Kmem → ℕ → Outcome Freed
  kfree c k pa =
      if not (pa % page_size == 0) || ltb pa end || leb phys_stop pa then panic "kfree" else do
        h ← acquire c k.lock
        let w = update (fill_page k.words pa 1) pa k.freelist
        r ← release h.cpu h.lock
        ok (record { cpu = r.cpu; kmem = record { lock = r.lock; freelist = pa; words = w } })

  -- The pages of `freerange` from `p` on, at most `fuel` of them.
  unfoldable pub free_pages : ℕ → Cpu → Kmem → ℕ → ℕ → Outcome Freed
  free_pages zero c k p pa_end = blocked
  free_pages (suc fuel) c k p pa_end =
      let rest = kfree c k p >>= λ f. free_pages fuel f.cpu f.kmem (p + page_size) pa_end in
      if leb (p + page_size) pa_end then rest else ok (record { cpu = c; kmem = k })

  unfoldable pub freerange : ℕ → Cpu → Kmem → ℕ → ℕ → Outcome Freed
  unfolding free_pages
  freerange fuel c k pa_start pa_end = free_pages fuel c k (page_round_up pa_start) pa_end

  -- The globals of a C program start as zero.
  unfoldable pub kinit : ℕ → Cpu → Words → Outcome Freed
  unfolding freerange
  kinit fuel c w =
      freerange fuel c (record { lock = initlock; freelist = 0; words = w }) end phys_stop

unfoldable pub kalloc : Cpu → Kmem → Outcome Allocated
kalloc c k = do
  h ← acquire c k.lock
  let r = k.freelist
  let rest = if r == 0 then r else k.words r
  s ← release h.cpu h.lock
  ok (record {
    cpu = s.cpu;
    kmem = record {
      lock = s.lock;
      freelist = rest;
      words = if r == 0 then k.words else fill_page k.words r 5;
    };
    page = r;
  })
