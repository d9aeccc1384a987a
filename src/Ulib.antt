-- ===== src/Ulib.antt =====
-- user/ulib.c: the user library's memory and string functions, `gets` and `atoi`, over the memory of
-- one process. A string without a NUL makes the loops run on: `none` when the fuel runs out. `char`
-- is unsigned, as it is on RISC-V. A function that returns its first argument is modelled by the
-- memory that it leaves.
pub mod Agree
pub mod Strings
pub mod Lines
use os_study.Prelude.{
  ℕ, zero, suc, ◌+◌, ◌-◌, ◌*◌, ◌^◌, ℤ, pos, negsuc, sub_ℕ, pos_part, Bool, true, false, not, ◌&&◌,
  ◌||◌, Option, none, some, List, [], ◌∷◌, ltb, leb, ◌==◌, if◌then◌else◌, update,
}
use os_study.StringOps.{Memory, copy_up, copy_down}

unfoldable pub strcpy : ℕ → Memory → ℕ → ℕ → Option Memory
strcpy zero m s t = none
strcpy (suc fuel) m s t =
    let m' = update m s (m t) in
    let rest = strcpy fuel m' (s + 1) (t + 1) in if m t == 0 then some m' else rest

unfoldable pub strcmp : ℕ → Memory → ℕ → ℕ → Option ℤ
strcmp zero m p q = none
strcmp (suc fuel) m p q =
    let rest = strcmp fuel m (p + 1) (q + 1) in
    if not (m p == 0) && (m p == m q) then rest else some (sub_ℕ (m p) (m q))

-- The address of the character, or 0.
unfoldable pub strchr : ℕ → Memory → ℕ → ℕ → Option ℕ
strchr zero m s c = none
strchr (suc fuel) m s c =
    let rest = strchr fuel m (s + 1) c in
    if m s == 0 then some 0 else if m s == c then some s else rest

-- The loop of `atoi`; a number that overflows `int` is undefined in C.
unfoldable pub atoi_from : ℕ → Memory → ℕ → ℕ → Option ℕ
atoi_from zero m s n = none
atoi_from (suc fuel) m s n =
    let rest = atoi_from fuel m (s + 1) (n * 10 + m s - 48) in
    if leb 48 (m s) && leb (m s) 57 then rest else some n

unfoldable pub atoi : ℕ → Memory → ℕ → Option ℕ
unfolding atoi_from
atoi fuel m s = atoi_from fuel m s 0

-- With a negative `n` neither loop runs.
unfoldable pub memmove : Memory → ℕ → ℕ → ℤ → Memory
unfolding copy_up copy_down
memmove m dst src n =
    if ltb dst src
    then copy_up (pos_part n) m dst src
    else copy_down (pos_part n) m (dst + pos_part n) (src + pos_part n)

-- A `uint` passed as an `int`
abbrev pub to_int : ℕ → ℤ
to_int n = if ltb n (2 ^ 31) then pos n else negsuc (2 ^ 32 - 1 - n)

unfoldable pub memcpy : Memory → ℕ → ℕ → ℕ → Memory
unfolding memmove
memcpy m dst src n = memmove m dst src (to_int n)

-- The memory and the input that `gets` leaves.
pub record Got : Type 0 where
  pub memory : Memory
  pub input : List ℕ

-- The loop of `gets` with at most `k` rounds left, and the final NUL. `input` is what `read` gives
-- on descriptor 0, a byte at a time; past its end `read` gives less than 1.
unfoldable pub gets_from : ℕ → Memory → ℕ → ℕ → List ℕ → Got
gets_from zero m buf i input = record { memory = update m (buf + i) 0; input = input }
gets_from (suc k) m buf i [] = record { memory = update m (buf + i) 0; input = [] }
gets_from (suc k) m buf i (c ∷ cs) =
    let m' = update m (buf + i) c in
    let rest = gets_from k m' buf (i + 1) cs in
    if (c == 10) || (c == 13)
    then record { memory = update m' (buf + (i + 1)) 0; input = cs }
    else rest

unfoldable pub gets : Memory → ℕ → ℤ → List ℕ → Got
unfolding gets_from
gets m buf max input = gets_from (pos_part max - 1) m buf 0 input
