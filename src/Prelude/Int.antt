-- ===== src/Prelude/Int.antt =====
-- C's signed integers, with `negsuc n` for -(n + 1).
use Prim.Native.Nat.{ℕ, ◌-◌}
use os_study.Prelude.Tests.{leb, if◌then◌else◌}

pub data ℤ : Type 0 where
  pos : ℕ → ℤ
  negsuc : ℕ → ℤ

-- What a loop `while (n-- > 0)` makes of its counter: no round for a negative one.
abbrev pub pos_part : ℤ → ℕ
pos_part (pos n) = n
pos_part (negsuc n) = 0

-- a - b, as an integer.
abbrev pub sub_ℕ : ℕ → ℕ → ℤ
sub_ℕ a b = if leb b a then pos (a - b) else negsuc (b - a - 1)
