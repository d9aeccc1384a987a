-- ===== src/Syscall.antt =====
-- kernel/syscall.c and `sys_sbrk` of kernel/sysproc.c: the arguments of a system call. The registers
-- `a0` to `a5` of the trap frame are given by their number; `buf` and `ip` are kernel addresses.
pub mod Sbrk
use os_study.Prelude.{
  ℕ, zero, suc, ◌+◌, ◌-◌, ◌*◌, ◌%◌, ◌^◌, Bool, true, false, not, ◌&&◌, ◌||◌, Option, none, some,
  Outcome, ok, panic, blocked, ◌>>=◌, ltb, leb, ◌==◌, if◌then◌else◌, ℤ, pos, negsuc,
}
use os_study.StringOps.{strlen}
use os_study.Vm.{Machine}
use os_study.Vm.Copy.{Myproc, copyin, copyinstr}
use os_study.Vm.Processes.{growproc, trapframe_va}

-- `p->sz` is below 2 ^ 64, and `addr + sizeof(uint64)` may wrap.
unfoldable pub fetchaddr : Machine → Myproc → ℕ → ℕ → Outcome (Bool × Machine)
unfolding copyin
fetchaddr m pr addr ip =
    let fetched = copyin m pr pr.pagetable ip addr 8 in
    if leb pr.sz addr || ltb pr.sz ((addr + 8) % 2 ^ 64) then ok (false, m) else fetched

-- `strlen(buf)`, which `copyinstr` has ended within `max` bytes
abbrev pub length_in : ℕ → ℕ → Bool × Machine → Outcome (ℤ × Machine)
length_in buf max (false, m) = ok (negsuc 0, m)
length_in buf max (true, m) = elim (strlen max m.bytes buf) [
  | none ↦ blocked
  | some n ↦ ok (pos n, m)
]

unfoldable pub fetchstr : Machine → Myproc → ℕ → ℕ → ℕ → Outcome (ℤ × Machine)
unfolding copyinstr strlen
fetchstr m pr addr buf max = copyinstr m pr.pagetable buf addr max >>= length_in buf max

unfoldable pub argraw : (ℕ → ℕ) → ℕ → Outcome ℕ
argraw a n = if ltb n 6 then ok (a n) else panic "argraw"

-- The conversion of a `uint64` to `int`
abbrev pub to_int : ℕ → ℤ
to_int x = let w = x % 2 ^ 32 in if ltb w (2 ^ 31) then pos w else negsuc (2 ^ 32 - 1 - w)

unfoldable pub argint : (ℕ → ℕ) → ℕ → Outcome ℤ
unfolding argraw
argint a n = argraw a n >>= λ x. ok (to_int x)

unfoldable pub argaddr : (ℕ → ℕ) → ℕ → Outcome ℕ
unfolding argraw
argaddr a n = argraw a n

unfoldable pub argstr : Machine → Myproc → (ℕ → ℕ) → ℕ → ℕ → ℕ → Outcome (ℤ × Machine)
unfolding argaddr fetchstr
argstr m pr a n buf max = argaddr a n >>= λ addr. fetchstr m pr addr buf max

-- The numbers that the table `syscalls` has: 13 is missing.
abbrev pub has_call : ℕ → Bool
has_call n = ltb 0 n && ltb n 23 && not (n == 13)

-- `syscall`: `calls` are the functions of the table, and the result is the new `a0`.
unfoldable pub syscall : (ℕ → ℕ) → ℕ → ℕ
syscall calls a7 = elim (to_int a7) [
  | negsuc k ↦ 2 ^ 64 - 1
  | pos n ↦ if has_call n then calls n else 2 ^ 64 - 1
]

-- `SBRK_EAGER`
abbrev pub sbrk_eager : ℤ
sbrk_eager = pos 1

abbrev pub is_eager : ℤ → ℤ → Bool
is_eager (negsuc k) t = true
is_eager (pos n) (pos t) = t == 1
is_eager (pos n) (negsuc t) = false

abbrev pub grown_or : ℕ → Bool × ℕ × Machine → Outcome (ℤ × ℕ × Machine)
grown_or addr (false, sz, m) = ok (negsuc 0, sz, m)
grown_or addr (true, sz, m) = ok (pos addr, sz, m)

-- `sys_sbrk` of `n` bytes in the mode `t`, for a process of `sz` bytes with the page table `p`: the
-- result, and the process's new size. Without the eager mode `n` is not negative.
abbrev pub lazily : Machine → ℕ → ℤ → Outcome (ℤ × ℕ × Machine)
lazily m sz (negsuc k) = ok (negsuc 0, sz, m)
lazily m sz (pos n) =
    let addr = (sz + n) % 2 ^ 64 in
    if ltb addr sz
    then ok (negsuc 0, sz, m)
    else if ltb trapframe_va addr
    then ok (negsuc 0, sz, m)
    else ok (pos sz, addr, m)

unfoldable pub sys_sbrk : Machine → ℕ → ℕ → ℤ → ℤ → Outcome (ℤ × ℕ × Machine)
unfolding growproc
sys_sbrk m p sz n t =
    let eager = growproc m p sz n >>= grown_or sz in if is_eager n t then eager else lazily m sz n
