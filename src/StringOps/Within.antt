-- ===== src/StringOps/Within.antt =====
-- kernel/string.c: ranges of bytes, and what is left of them after a first part.
use os_study.Prelude.{ℕ, ◌+◌, ◌-◌, ◌≤◌, ◌<◌, ◌≡◌, true, false, arith}
use os_study.StringOps.Move.{within}

pub offset : (dst n q : ℕ) → within dst n q ≡ true → q - dst < n
offset dst n q h = ground (arith, h)

pub within_rest :
    (dst n len q : ℕ) → n ≤ len → within (dst + n) (len - n) q ≡ true → within dst len q ≡ true
within_rest dst n len q le h = ground (arith, le, h)

pub within_less : (dst n len q : ℕ) → n ≤ len → within dst len q ≡ false → within dst n q ≡ false
within_less dst n len q le h = ground (arith, le, h)

pub within_first :
    (dst n len q : ℕ)
    → n ≤ len
    → within (dst + n) (len - n) q ≡ false
    → within dst n q ≡ within dst len q
within_first dst n len q le h = ground (arith, le, h)

pub rest_offset :
    (dst n len q : ℕ)
    → n ≤ len
    → within (dst + n) (len - n) q ≡ true
    → (q - (dst + n) < len - n) × (n + (q - (dst + n)) ≡ q - dst) × (q - dst < len)
rest_offset dst n len q le h = (ground (arith, le, h), ground (arith, le, h), ground (arith, le, h))

pub within_tail :
    (dst n len q : ℕ) → n ≤ len → within dst len q ≡ false → within (dst + n) (len - n) q ≡ false
within_tail dst n len q le h = ground (arith, le, h)
