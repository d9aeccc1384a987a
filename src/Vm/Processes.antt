-- ===== src/Vm/Processes.antt =====
-- kernel/proc.c: the address space of a process. `trampoline` is the address of the code that the
-- linker places.
use os_study.Prelude.{
  ℕ, zero, suc, ◌+◌, ◌-◌, ◌%◌, ◌^◌, ◌≤◌, ◌≡◌, ◌⊎◌, inl, inr, refl, sym, ap, ◌∙◌, ℤ, pos, negsuc,
  Bool, true, false, true≢false, Option, none, some, Outcome, ok, ◌>>=◌, ltb, ◌==◌, if◌then◌else◌,
  arith, Bool-cases, ne→==,
}
use os_study.Kalloc.{page_size, page_round_up}
use os_study.Vm.{Machine, max_va, uvmcreate, mappages}
use os_study.Vm.Space.{uvmunmap, uvmfree, uvmalloc, uvmdealloc, pages_between}
use os_study.Vm.Pages.{in_pages}
use os_study.Vm.Tree.{Owners, IsRoot}
use os_study.Vm.Walk.{IsForest}
use os_study.Vm.Map.{Unmapped}
use os_study.Vm.Undo.{Added, Allocated}
use os_study.Vm.Alloc.{uvmalloc_lem}

-- `TRAMPOLINE` and `TRAPFRAME`
abbrev pub trampoline_va : ℕ
trampoline_va = max_va - page_size

abbrev pub trapframe_va : ℕ
trapframe_va = trampoline_va - page_size

-- The two pages that every process has, with `PTE_R | PTE_X` and `PTE_R | PTE_W`
abbrev pub map_trapframe : ℕ → ℕ → Bool × Machine → Outcome (Option ℕ × Machine)
map_trapframe p trapframe (false, m) = do m1 ← uvmfree m p 0; ok (none, m1)
map_trapframe p trapframe (true, m) = do
  (done, m1) ← mappages m p trapframe_va page_size trapframe 6
  let undo = (do m2 ← uvmunmap m1 p trampoline_va 1 false; m3 ← uvmfree m2 p 0; ok (none, m3))
  if done then ok (some p, m1) else undo

abbrev pub map_pages : ℕ → ℕ → Option ℕ × Machine → Outcome (Option ℕ × Machine)
map_pages trampoline trapframe (none, m) = ok (none, m)
map_pages trampoline trapframe (some p, m) =
    mappages m p trampoline_va page_size trampoline 10 >>= map_trapframe p trapframe

unfoldable pub proc_pagetable : ℕ → Machine → ℕ → Outcome (Option ℕ × Machine)
unfolding uvmcreate mappages uvmunmap uvmfree
proc_pagetable trampoline m trapframe = map_pages trampoline trapframe (uvmcreate m)

unfoldable pub proc_freepagetable : Machine → ℕ → ℕ → Outcome Machine
unfolding uvmunmap uvmfree
proc_freepagetable m p sz = do
  m1 ← uvmunmap m p trampoline_va 1 false
  m2 ← uvmunmap m1 p trapframe_va 1 false
  uvmfree m2 p sz

-- `p->sz` on `uint64` after `sz + n` for `n` below 0
abbrev pub shrunk : ℕ → ℕ → ℕ
shrunk sz k = (sz + (2 ^ 64 - k)) % 2 ^ 64

-- `growproc`: `true` for 0, `false` for -1; then `p->sz`
abbrev pub grown_to : ℕ → ℕ × Machine → Outcome (Bool × ℕ × Machine)
grown_to old (sz, m) = if sz == 0 then ok (false, old, m) else ok (true, sz, m)

unfoldable pub growproc : Machine → ℕ → ℕ → ℤ → Outcome (Bool × ℕ × Machine)
unfolding uvmalloc uvmdealloc
growproc m p sz (pos zero) = ok (true, sz, m)
growproc m p sz (pos (suc n)) =
    let going = uvmalloc m p sz (sz + suc n) 4 >>= grown_to sz in
    if ltb trapframe_va (sz + suc n) then ok (false, sz, m) else going
growproc m p sz (negsuc n) = do
  (sz1, m1) ← uvmdealloc m p sz (shrunk sz (suc n))
  ok (true, sz1, m1)

-- What growing a process by `n` bytes gave
pub record Grown (own : Owners) (m : Machine) (p sz n : ℕ) (out : Outcome (Bool × ℕ × Machine))
    : Type 0 where
  pub done : Bool
  pub sz1 : ℕ
  pub m1 : Machine
  pub added : ℕ
  pub result : out ≡ ok (done, sz1, m1)
  pub size :
      ((done ≡ true) × (sz1 ≡ sz + n) × (added ≡ pages_between (page_round_up sz) (sz + n)))
      ⊎ ((done ≡ false) × (sz1 ≡ sz) × (added ≡ 0))
  pub fits : done ≡ true → sz + n ≤ trapframe_va
  pub maps : Added own m m1 p (page_round_up sz) added 22

none_in : (r a r' va' : ℕ) → in_pages r a 0 r' va' ≡ false
none_in r a r' va' = ground arith

none-Added : (own : Owners) (m : Machine) (r start : ℕ) → Added own m m r start 0 22
none-Added own m r start r' va' root h = rw (none_in r start r' va') refl

grown_size :
    (sz n sz1 : ℕ) (m1 : Machine)
    → sz1 ≡ sz + suc n
    → grown_to sz (sz1, m1) ≡ ok (true, sz + suc n, m1)
grown_size sz n sz1 m1 e = rw (e, ne→== (sz + suc n) 0 (omega arith)) refl

grown_lem :
    (own : Owners) (m : Machine) (p sz n : ℕ) (out : Outcome (ℕ × Machine))
    → Allocated own m p
        (page_round_up sz)
        (pages_between (page_round_up sz) (sz + suc n))
        (sz + suc n)
        22
        out
    → sz + suc n ≤ trapframe_va
    → Grown own m p sz (suc n) (out >>= grown_to sz)
grown_lem own m p sz n out a fits = elim a.size [
  | inl (es, ea) ↦ record {
    done = true;
    sz1 = sz + suc n;
    m1 = a.m1;
    added = a.added;
    result = ap (λ x. x >>= grown_to sz) a.result ∙ grown_size sz n a.sz a.m1 es;
    size = inl (refl, refl, ea);
    fits = λ _. fits;
    maps = a.maps;
  }
  | inr (es, ea) ↦ record {
    done = false;
    sz1 = sz;
    m1 = a.m1;
    added = a.added;
    result = ap (λ x. x >>= grown_to sz) a.result ∙ ap (λ (z : ℕ). grown_to sz (z, a.m1)) es;
    size = inr (refl, refl, ea);
    fits = λ e. absurd (true≢false (sym e));
    maps = a.maps;
  }
]

-- A process that asks for `n` more bytes, where the pages above its memory are unmapped, does not
-- panic. Either it gets them: its size grows by `n`, and each page of the new part is mapped for it
-- to read and write, and stays below the trap frame. Or it keeps its size, and every address of
-- every process is mapped as before.
pub growproc_lem :
    (own : Owners) (m : Machine) (p sz n : ℕ)
    → IsForest own m
    → IsRoot own p
    → Unmapped m p (page_round_up sz) (pages_between (page_round_up sz) (sz + suc n))
    → Grown own m p sz (suc n) (growproc m p sz (pos (suc n)))
unfolding growproc
growproc_lem own m p sz n f root u = elim (Bool-cases (ltb trapframe_va (sz + suc n))) [
  | inl high ↦ rw high (record {
    done = false;
    sz1 = sz;
    m1 = m;
    added = 0;
    result = refl;
    size = inr (refl, refl, refl);
    fits = λ e. absurd (true≢false (sym e));
    maps = none-Added own m p (page_round_up sz);
  })
  | inr low ↦
      (let a =
          uvmalloc_lem own m p sz (sz + suc n) 4 f root (omega arith) (ground (arith, low)) u in
        rw low (grown_lem own m p sz n (uvmalloc m p sz (sz + suc n) 4) a (ground (arith, low))))
]
