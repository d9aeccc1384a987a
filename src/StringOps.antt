-- ===== src/StringOps.antt =====
-- kernel/string.c over byte-addressed memory. A pointer is its address, and no object reaches the
-- end of the address space. `char` is unsigned, as it is on RISC-V. The C functions return `dst`,
-- `os` or `s` unchanged beside what is modelled here: the memory they leave, or their result.
pub mod Move
pub mod Within
pub mod Compare
pub mod Copy
use os_study.Prelude.{
  ℕ, zero, suc, ◌+◌, ◌-◌, ◌%◌, ℤ, pos, negsuc, sub_ℕ, pos_part, Bool, true, false, not, ◌&&◌,
  Option, none, some, ltb, leb, ◌==◌, if◌then◌else◌, update,
}

abbrev pub Memory : Type 0
Memory = ℕ → ℕ

-- `k` rounds are left; round `i` writes `cdst[i]`.
unfoldable pub memset_from : ℕ → Memory → ℕ → ℕ → ℕ → Memory
memset_from zero m dst c i = m
memset_from (suc k) m dst c i = memset_from k (update m (dst + i) (c % 256)) dst c (i + 1)

unfoldable pub memset : Memory → ℕ → ℕ → ℕ → Memory
unfolding memset_from
memset m dst c n = memset_from n m dst c 0

-- `while(n-- > 0)` runs `n` times; `s1` and `s2` go up by one.
unfoldable pub memcmp : Memory → ℕ → ℕ → ℕ → ℤ
memcmp m s1 s2 zero = pos 0
memcmp m s1 s2 (suc n) =
    let rest = memcmp m (s1 + 1) (s2 + 1) n in
    if not (m s1 == m s2) then sub_ℕ (m s1) (m s2) else rest

-- `*d++ = *s++`
unfoldable pub copy_up : ℕ → Memory → ℕ → ℕ → Memory
copy_up zero m d s = m
copy_up (suc n) m d s = copy_up n (update m d (m s)) (d + 1) (s + 1)

-- `*--d = *--s`
unfoldable pub copy_down : ℕ → Memory → ℕ → ℕ → Memory
copy_down zero m d s = m
copy_down (suc n) m d s = copy_down n (update m (d - 1) (m (s - 1))) (d - 1) (s - 1)

unfoldable pub memmove : Memory → ℕ → ℕ → ℕ → Memory
unfolding copy_up copy_down
memmove m dst src n =
    if n == 0
    then m
    else if ltb src dst && ltb dst (src + n)
    then copy_down n m (dst + n) (src + n)
    else copy_up n m dst src

-- `memcpy` is `memmove`.
unfoldable pub memcpy : Memory → ℕ → ℕ → ℕ → Memory
unfolding memmove
memcpy m dst src n = memmove m dst src n

unfoldable pub strncmp : Memory → ℕ → ℕ → ℕ → ℤ
strncmp m p q zero = pos 0
strncmp m p q (suc n) =
    let rest = strncmp m (p + 1) (q + 1) n in
    if not (m p == 0) && (m p == m q) then rest else sub_ℕ (m p) (m q)

-- `while(n-- > 0) *s++ = 0`, with `n` rounds left
unfoldable pub zero_fill : ℕ → Memory → ℕ → Memory
zero_fill zero m s = m
zero_fill (suc n) m s = zero_fill n (update m s 0) (s + 1)

-- The first loop of `strncpy` with `n` rounds left; its end runs the second.
unfoldable pub strncpy_from : ℕ → Memory → ℕ → ℕ → Memory
unfolding zero_fill
strncpy_from zero m s t = m
strncpy_from (suc n) m s t =
    let m' = update m s (m t) in
    let rest = strncpy_from n m' (s + 1) (t + 1) in
    if m t == 0 then zero_fill n m' (s + 1) else rest

unfoldable pub strncpy : Memory → ℕ → ℕ → ℤ → Memory
unfolding strncpy_from
strncpy m s t n = strncpy_from (pos_part n) m s t

-- The loop of `safestrcpy`, with `--n` rounds left, and the final `*s = 0`. When the copied byte is
-- NUL, `s` already points past it.
unfoldable pub safestrcpy_from : ℕ → Memory → ℕ → ℕ → Memory
safestrcpy_from zero m s t = update m s 0
safestrcpy_from (suc n) m s t =
    let m' = update m s (m t) in
    let rest = safestrcpy_from n m' (s + 1) (t + 1) in
    if m t == 0 then update m' (s + 1) 0 else rest

unfoldable pub safestrcpy : Memory → ℕ → ℕ → ℤ → Memory
unfolding safestrcpy_from
safestrcpy m s t n = elim n [
  | pos k ↦ if k == 0 then m else safestrcpy_from (k - 1) m s t
  | negsuc k ↦ m
]

-- `for(n = 0; s[n]; n++)`; `none` when the fuel runs out.
unfoldable pub strlen_from : ℕ → Memory → ℕ → ℕ → Option ℕ
strlen_from zero m s n = none
strlen_from (suc f) m s n =
    let rest = strlen_from f m s (n + 1) in if m (s + n) == 0 then some n else rest

unfoldable pub strlen : ℕ → Memory → ℕ → Option ℕ
unfolding strlen_from
strlen fuel m s = strlen_from fuel m s 0
