-- ===== src/Vm/Copy.antt =====
-- kernel/vm.c: copying between the kernel and user memory, with the pages that sbrk left to be
-- allocated at their first use. `myproc()` is given by its size and its page table. Where C uses a
-- null pointer the kernel faults, which kernel/trap.c turns into a panic.
use os_study.Prelude.{
  ℕ, zero, suc, ◌+◌, ◌-◌, ◌*◌, ◌/◌, ◌%◌, min, Bool, true, false, Option, none, some, Outcome, ok,
  panic, blocked, ◌>>=◌, leb, ◌==◌, if◌then◌else◌, update,
}
use os_study.Kalloc.{page_size}
use os_study.StringOps.{memmove}
use os_study.Vm.{
  Machine, max_va, is_writable, zero_page, kalloc, kfree, walk, walkaddr, ismapped, mappages,
}

pub record Myproc : Type 0 where
  pub sz : ℕ
  pub pagetable : ℕ

-- `PGROUNDDOWN`
abbrev pub page_round_down : ℕ → ℕ
page_round_down a = a / page_size * page_size

abbrev pub mapped_or_back : ℕ → Bool × Machine → Outcome (ℕ × Machine)
mapped_or_back mem (true, m) = ok (mem, m)
mapped_or_back mem (false, m) = ok (0, kfree m mem)

-- The new page of `vmfault`, with `PTE_W|PTE_U|PTE_R`
abbrev pub fault_in : ℕ → ℕ → Option ℕ × Machine → Outcome (ℕ × Machine)
fault_in table va (none, m) = ok (0, m)
fault_in table va (some mem, m) =
    mappages (zero_page m mem) table va page_size mem 22 >>= mapped_or_back mem

unfoldable pub vmfault : Machine → Myproc → ℕ → ℕ → Outcome (ℕ × Machine)
unfolding ismapped
vmfault m pr p va = if leb pr.sz va then ok (0, m) else (do
  there ← ismapped m p (page_round_down va)
  if there then ok (0, m) else fault_in pr.pagetable (page_round_down va) (kalloc m))

-- `walkaddr`, then `vmfault` if it gives 0
unfoldable pub find_page : Machine → Myproc → ℕ → ℕ → Outcome (ℕ × Machine)
unfolding walkaddr vmfault
find_page m pr p va0 = do
  pa0 ← walkaddr m p va0
  if pa0 == 0 then vmfault m pr p va0 else ok (pa0, m)

abbrev pub chunk : ℕ → ℕ → ℕ
chunk va len = min (page_size - va % page_size) len

abbrev pub can_write : Option (ℕ × ℕ) × Machine → Outcome Bool
can_write (none, m) = panic "kerneltrap"
can_write (some (q, i), m) = ok (is_writable (m.tables q i))

-- `copyout`: `true` for 0, `false` for -1
unfoldable pub copyout_from : ℕ → Machine → Myproc → ℕ → ℕ → ℕ → ℕ → Outcome (Bool × Machine)
unfolding find_page
copyout_from zero m pr p dstva src len = if len == 0 then ok (true, m) else blocked
copyout_from (suc fuel) m pr p dstva src len =
    let va0 = page_round_down dstva in
    let n = chunk dstva len in
    let going = (do
      (pa0, m1) ← find_page m pr p va0
      if pa0 == 0 then ok (false, m1) else (do
        writable ← walk m1 p va0 false >>= can_write
        let m2 = record m1 { bytes = memmove m1.bytes (pa0 + (dstva - va0)) src n }
        let rest = copyout_from fuel m2 pr p (va0 + page_size) (src + n) (len - n)
        if writable then rest else ok (false, m1))) in
    if len == 0 then ok (true, m) else if leb max_va va0 then ok (false, m) else going

unfoldable pub copyout : Machine → Myproc → ℕ → ℕ → ℕ → ℕ → Outcome (Bool × Machine)
unfolding copyout_from
copyout m pr p dstva src len = copyout_from len m pr p dstva src len

-- `copyin`: `true` for 0, `false` for -1
unfoldable pub copyin_from : ℕ → Machine → Myproc → ℕ → ℕ → ℕ → ℕ → Outcome (Bool × Machine)
unfolding find_page
copyin_from zero m pr p dst srcva len = if len == 0 then ok (true, m) else blocked
copyin_from (suc fuel) m pr p dst srcva len =
    let va0 = page_round_down srcva in
    let n = chunk srcva len in
    let going = (do
      (pa0, m1) ← find_page m pr p va0
      let m2 = record m1 { bytes = memmove m1.bytes dst (pa0 + (srcva - va0)) n }
      let rest = copyin_from fuel m2 pr p (dst + n) (va0 + page_size) (len - n)
      if pa0 == 0 then ok (false, m1) else rest) in
    if len == 0 then ok (true, m) else going

unfoldable pub copyin : Machine → Myproc → ℕ → ℕ → ℕ → ℕ → Outcome (Bool × Machine)
unfolding copyin_from
copyin m pr p dst srcva len = copyin_from len m pr p dst srcva len

-- The inner loop of `copyinstr`: at most `n` bytes from `from` go to `dst`; says whether it met the
-- nul.
unfoldable pub copy_str : ℕ → (ℕ → ℕ) → ℕ → ℕ → Bool × (ℕ → ℕ)
copy_str zero b dst from = (false, b)
copy_str (suc n) b dst from =
    let rest = copy_str n (update b dst (b from)) (dst + 1) (from + 1) in
    if b from == 0 then (true, update b dst 0) else rest

unfoldable pub copyinstr_from : ℕ → Machine → ℕ → ℕ → ℕ → ℕ → Outcome (Bool × Machine)
unfolding walkaddr copy_str
copyinstr_from zero m p dst srcva max = if max == 0 then ok (false, m) else blocked
copyinstr_from (suc fuel) m p dst srcva max =
    let va0 = page_round_down srcva in
    let n = chunk srcva max in
    let going = (do
      pa0 ← walkaddr m p va0
      let (got_null, b) = copy_str n m.bytes dst (pa0 + (srcva - va0))
      let m1 = record m { bytes = b }
      let rest = copyinstr_from fuel m1 p (dst + n) (va0 + page_size) (max - n)
      if pa0 == 0 then ok (false, m) else if got_null then ok (true, m1) else rest) in
    if max == 0 then ok (false, m) else going

unfoldable pub copyinstr : Machine → ℕ → ℕ → ℕ → ℕ → Outcome (Bool × Machine)
unfolding copyinstr_from
copyinstr m p dst srcva max = copyinstr_from max m p dst srcva max
