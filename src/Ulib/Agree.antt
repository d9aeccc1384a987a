-- ===== src/Ulib/Agree.antt =====
-- user/ulib.c and kernel/string.c: the functions that both have.
use os_study.Prelude.{
  ℕ, zero, suc, ◌+◌, ◌<◌, ◌≡◌, ◌∙◌, sym, fun_ext, ℤ, pos_part, some, arith, length,
}
use os_study.StringOps as Kernel
use os_study.StringOps.{Memory, strncmp}
use os_study.StringOps.Move.{copied, copy_up_lem, copy_down_lem, memmove_lem}
use os_study.StringOps.Compare.{c_string}
use os_study.Ulib.{memmove, strcmp}

memmove-copied :
    (m : Memory) (dst src : ℕ) (n : ℤ) (q : ℕ)
    → memmove m dst src n q ≡ copied m dst src (pos_part n) q
unfolding memmove
memmove-copied m dst src n q =
    ground (arith, copy_up_lem (pos_part n) m dst src q, copy_down_lem (pos_part n) m dst src q)

-- The `memmove` of the user library and the kernel's leave the same memory, for every overlap of
-- the two ranges; a negative count is a count of 0.
pub memmove_agrees :
    (m : Memory) (dst src : ℕ) (n : ℤ) → memmove m dst src n ≡ Kernel.memmove m dst src (pos_part n)
memmove_agrees m dst src n =
    fun_ext λ q. memmove-copied m dst src n q ∙ sym (memmove_lem m dst src (pos_part n) q)

-- With a NUL among the first `fuel` bytes of `p`, `strcmp` ends, with the result of the kernel's
-- `strncmp` of `fuel` characters.
pub strcmp_agrees :
    (fuel : ℕ) (m : Memory) (p q : ℕ)
    → length (c_string m p fuel) < fuel
    → strcmp fuel m p q ≡ some (strncmp m p q fuel)
unfolding strcmp strncmp c_string
strcmp_agrees zero m p q h = absurd (omega arith)
strcmp_agrees (suc fuel) m p q h = ground (arith, strcmp_agrees fuel m (p + 1) (q + 1))
