-- ===== src/StringOps/Move.antt =====
-- kernel/string.c: what `memset` and `memmove` leave in memory.
use os_study.Prelude.{
  ℕ, zero, suc, ◌+◌, ◌-◌, ◌≤◌, ◌%◌, ◌≡◌, ◌⊎◌, ap, Bool, ◌&&◌, arith, update, ltb, leb,
  if◌then◌else◌,
}
use os_study.StringOps.{Memory, memset_from, memset, copy_up, copy_down, memmove}

-- The address `q` lies in the `n` bytes from `p` on.
abbrev pub within : ℕ → ℕ → ℕ → Bool
within p n q = leb p q && ltb q (p + n)

memset_from_lem :
    (k : ℕ) (m : Memory) (dst c i q : ℕ)
    → memset_from k m dst c i q ≡ (if within (dst + i) k q then c % 256 else m q)
unfolding memset_from
memset_from_lem zero m dst c i q = ground arith
memset_from_lem (suc k) m dst c i q =
    ground (arith, memset_from_lem k (update m (dst + i) (c % 256)) dst c (i + 1) q)

-- `memset` sets each of the `n` bytes from `dst` on to the low byte of `c`, and no other byte.
pub memset_lem :
    (m : Memory) (dst c n q : ℕ) → memset m dst c n q ≡ (if within dst n q then c % 256 else m q)
unfolding memset
memset_lem m dst c n q = ground (arith, memset_from_lem n m dst c 0 q)

-- What a copy of the original `n` bytes leaves at `q`.
abbrev pub copied : Memory → ℕ → ℕ → ℕ → ℕ → ℕ
copied m dst src n q = if within dst n q then m (src + (q - dst)) else m q

cong-add : (m : Memory) (a b : ℕ) → a ≡ b → m a ≡ m b
cong-add m a b e = ap m e

pub copy_up_lem :
    (n : ℕ) (m : Memory) (d s q : ℕ) → (d ≤ s) ⊎ (s + n ≤ d) → copy_up n m d s q ≡ copied m d s n q
unfolding copy_up
copy_up_lem zero m d s q h = ground arith
copy_up_lem (suc n) m d s q h = ground (
  arith,
  copy_up_lem n (update m d (m s)) (d + 1) (s + 1) q,
  cong-add m (s + 1 + (q - (d + 1))) (s + (q - d)),
  cong-add m s (s + (q - d)),
)

pub copy_down_lem :
    (n : ℕ) (m : Memory) (d s q : ℕ) → s ≤ d → copy_down n m (d + n) (s + n) q ≡ copied m d s n q
unfolding copy_down
copy_down_lem zero m d s q h = ground arith
copy_down_lem (suc n) m d s q h =
    let at_d : d + suc n - 1 ≡ d + n = omega arith in
    let at_s : s + suc n - 1 ≡ s + n = omega arith in
    rw (at_d, at_s)
      (ground (
        arith,
        copy_down_lem n (update m (d + n) (m (s + n))) d s q,
        cong-add m (s + n) (s + (q - d)),
      ))

-- `memmove` leaves at the destination the bytes that the source held before the call, also where
-- the two overlap, and changes no other byte.
pub memmove_lem : (m : Memory) (dst src n q : ℕ) → memmove m dst src n q ≡ copied m dst src n q
unfolding memmove
memmove_lem m dst src n q = ground (arith, copy_up_lem n m dst src q, copy_down_lem n m dst src q)
