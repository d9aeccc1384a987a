-- ===== src/Syscall/Sbrk.antt =====
-- kernel/sysproc.c: the size of a process across `sys_sbrk`, in both modes.
use os_study.Prelude.{
  ℕ, zero, suc, ◌+◌, ◌%◌, ◌^◌, ◌≤◌, ◌<◌, ◌≡◌, ◌⊎◌, inl, inr, refl, ap, ◌∙◌, ℤ, pos, negsuc, Bool,
  true, false, Outcome, ok, ◌>>=◌, ltb, arith, Bool-cases,
}
use os_study.Kalloc.{page_round_up}
use os_study.Vm.{Machine}
use os_study.Vm.Space.{pages_between}
use os_study.Vm.Tree.{Owners, IsRoot}
use os_study.Vm.Walk.{IsForest}
use os_study.Vm.Map.{Unmapped}
use os_study.Vm.Processes.{growproc, trapframe_va, Grown, growproc_lem}
use os_study.Syscall.{sys_sbrk, is_eager, grown_or, lazily}

-- What `sys_sbrk` of `n` bytes gave: the old size, and `n` bytes more, or -1 and the size as it was.
-- Memory that is not wanted at once is refused only where it would reach the trap frame.
pub record Sized (m : Machine) (sz n : ℕ) (eager : Bool) (out : Outcome (ℤ × ℕ × Machine))
    : Type 0 where
  pub r : ℤ
  pub sz1 : ℕ
  pub m1 : Machine
  pub result : out ≡ ok (r, sz1, m1)
  pub fits : sz1 ≤ trapframe_va
  pub size :
      ((r ≡ pos sz) × (sz1 ≡ sz + n))
      ⊎ ((r ≡ negsuc 0) × (sz1 ≡ sz) × ((eager ≡ true) ⊎ (trapframe_va < sz + n)))
  pub lazy_memory : eager ≡ false → m1 ≡ m

lazily_lem :
    (m : Machine) (sz n : ℕ)
    → sz ≤ trapframe_va
    → n < 2 ^ 31
    → Sized m sz n false (lazily m sz (pos n))
lazily_lem m sz n below small = elim (Bool-cases (ltb trapframe_va (sz + n))) [
  | inl high ↦ record {
    r = negsuc 0;
    sz1 = sz;
    m1 = m;
    result = rw (no_wrap, at_least, high) refl;
    fits = below;
    size = inr (refl, refl, inr (ground (arith, high)));
    lazy_memory = λ e. refl;
  }
  | inr low ↦ record {
    r = pos sz;
    sz1 = sz + n;
    m1 = m;
    result = rw (no_wrap, at_least, low) refl;
    fits = ground (arith, low);
    size = inl (refl, refl);
    lazy_memory = λ e. refl;
  }
]
  where
    no_wrap : (sz + n) % 2 ^ 64 ≡ sz + n
    no_wrap = omega arith

    at_least : ltb (sz + n) sz ≡ false
    at_least = ground arith

grown_or_lem :
    (own : Owners) (m : Machine) (p sz n : ℕ) (out : Outcome (Bool × ℕ × Machine))
    → sz ≤ trapframe_va
    → Grown own m p sz n out
    → Sized m sz n true (out >>= grown_or sz)
grown_or_lem own m p sz n out below g = elim g.size [
  | inl (done, es, _) ↦ record {
    r = pos sz;
    sz1 = g.sz1;
    m1 = g.m1;
    result = ap (λ x. x >>= grown_or sz) (g.result ∙ ap (λ b. ok (b, g.sz1, g.m1)) done);
    fits = omega (arith, es, g.fits done);
    size = inl (refl, es);
    lazy_memory = λ e. absurd (cc);
  }
  | inr (failed, es, _) ↦ record {
    r = negsuc 0;
    sz1 = g.sz1;
    m1 = g.m1;
    result = ap (λ x. x >>= grown_or sz) (g.result ∙ ap (λ b. ok (b, g.sz1, g.m1)) failed);
    fits = omega (arith, es, below);
    size = inr (refl, es, inl refl);
    lazy_memory = λ e. absurd (cc);
  }
]

-- A process below the trap frame asks for `n` bytes, in either mode, where the pages above its
-- memory are unmapped. The call does not panic and the process stays below the trap frame: it gets
-- the old size and is `n` bytes larger, or gets -1 and keeps its size. In the lazy mode no memory
-- changes, and -1 means that it would have reached the trap frame.
pub sys_sbrk_lem :
    (own : Owners) (m : Machine) (p sz n : ℕ) (t : ℤ)
    → IsForest own m
    → IsRoot own p
    → Unmapped m p (page_round_up sz) (pages_between (page_round_up sz) (sz + n))
    → sz ≤ trapframe_va
    → n < 2 ^ 31
    → Sized m sz n (is_eager (pos n) t) (sys_sbrk m p sz (pos n) t)
unfolding sys_sbrk
sys_sbrk_lem own m p sz n t f root u below small = elim (Bool-cases (is_eager (pos n) t)) [
  | inl e ↦ rw e (eagerly n u)
  | inr e ↦ rw e (lazily_lem m sz n below small)
]
  where
    eagerly :
        (k : ℕ)
        → Unmapped m p (page_round_up sz) (pages_between (page_round_up sz) (sz + k))
        → Sized m sz k true (growproc m p sz (pos k) >>= grown_or sz)
    eagerly zero u' =
        unfold growproc in
        (record {
          r = pos sz;
          sz1 = sz;
          m1 = m;
          result = refl;
          fits = below;
          size = inl (refl, omega arith);
          lazy_memory = λ e. absurd (cc);
        })
    eagerly (suc k) u' =
        grown_or_lem own m p sz (suc k) (growproc m p sz (pos (suc k))) below
          (growproc_lem own m p sz k f root u')
