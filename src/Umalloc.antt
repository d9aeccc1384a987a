-- ===== src/Umalloc.antt =====
-- user/umalloc.c: the allocator of user programs. A pointer is its address in bytes; a header takes
-- 16 bytes, and `size` counts such units. Where C's loops would run on, the fuel runs out. `sbrk` is
-- an argument: the address of the new memory, or `none` for its error. The sizes of blocks stay below
-- 2 ^ 32 units.
pub mod Ring
pub mod Place
pub mod Behind
pub mod Free
pub mod Carve
pub mod Search
pub mod Malloc
use os_study.Prelude.{
  ℤ, pos, negsuc, ◌%◌, ◌^◌, ℕ, zero, suc, ◌+◌, ◌-◌, ◌*◌, ◌/◌, Bool, ◌&&◌, ◌||◌, Option, none, some,
  Outcome, ok, blocked, ◌>>=◌, ltb, leb, ◌==◌, if◌then◌else◌, update,
}

-- `sizeof(Header)`
abbrev pub unit : ℕ
unit = 16

-- The headers in memory, and `freep`, 0 before the first call.
pub record Heap : Type 0 where
  pub ptr : ℕ → ℕ
  pub size : ℕ → ℕ
  pub freep : ℕ

-- Where the block at `a` ends
abbrev pub end_of : Heap → ℕ → ℕ
end_of h a = a + h.size a * unit

-- The loop's condition in `free` lets it go on until `bp` lies between `p` and its successor, or
-- beyond the end of the list.
abbrev pub is_place : Heap → ℕ → ℕ → Bool
is_place h bp p =
    (ltb p bp && ltb bp (h.ptr p)) || (leb (h.ptr p) p && (ltb p bp || ltb bp (h.ptr p)))

unfoldable pub find_place : ℕ → Heap → ℕ → ℕ → Option ℕ
find_place zero h bp p = none
find_place (suc fuel) h bp p =
    let rest = find_place fuel h bp (h.ptr p) in if is_place h bp p then some p else rest

-- `bp` is joined with the block after it, or linked to it.
unfoldable pub join_next : Heap → ℕ → ℕ → Heap
join_next h bp p =
    let next = h.ptr p in
    if end_of h bp == next
    then record h {
      size = update h.size bp (h.size bp + h.size next);
      ptr = update h.ptr bp (h.ptr next);
    }
    else record h { ptr = update h.ptr bp next }

-- `p` is joined with `bp`, or linked to it.
unfoldable pub join_prev : Heap → ℕ → ℕ → Heap
join_prev h bp p =
    if end_of h p == bp
    then record h { size = update h.size p (h.size p + h.size bp); ptr = update h.ptr p (h.ptr bp) }
    else record h { ptr = update h.ptr p bp }

-- `free` of the block with the header `bp`
unfoldable pub free : ℕ → Heap → ℕ → Outcome Heap
unfolding find_place join_next join_prev
free fuel h bp = elim (find_place fuel h bp h.freep) [
  | none ↦ blocked
  | some p ↦ ok (record (join_prev (join_next h bp p) bp p) { freep = p })
]

-- The `int` that a `size_t` is passed as
abbrev pub int_of : ℕ → ℤ
int_of n = if ltb (n % 2 ^ 32) (2 ^ 31) then pos (n % 2 ^ 32) else negsuc (2 ^ 32 - 1 - n % 2 ^ 32)

-- `nu` units at least 4096, put into the list; `none` for 0.
unfoldable pub morecore : ℕ → (ℤ → Option ℕ) → Heap → ℕ → Outcome (Option ℕ × Heap)
unfolding free
morecore fuel sbrk h nu =
    let n = if ltb nu 4096 then 4096 else nu in
    elim (sbrk (int_of (n * unit))) [
      | none ↦ ok (none, h)
      | some p ↦
          free fuel (record h { size = update h.size p n }) p >>= λ h1. ok (some h1.freep, h1)
    ]

-- The block at `p`, which has `nunits` or more, is taken out or gives its end away.
unfoldable pub carve : Heap → ℕ → ℕ → ℕ → ℕ × Heap
carve h prevp p nunits =
    if h.size p == nunits
    then (p, record h { ptr = update h.ptr prevp (h.ptr p); freep = prevp })
    else (let left = h.size p - nunits in
        let q = p + left * unit in
        (q, record h { size = update (update h.size p left) q nunits; freep = prevp }))

abbrev pub nunits_of : ℕ → ℕ
nunits_of nbytes = (nbytes + unit - 1) / unit + 1

-- The loop of `malloc` at `p`, after `prevp`; the result is the header of the block.
unfoldable pub search_from : ℕ → (ℤ → Option ℕ) → Heap → ℕ → ℕ → ℕ → Outcome (Option ℕ × Heap)
unfolding carve morecore
search_from zero sbrk h prevp p nunits = blocked
search_from (suc fuel) sbrk h prevp p nunits =
    let onward = search_from fuel sbrk h p (h.ptr p) nunits in
    let (q, h1) = carve h prevp p nunits in
    let more = morecore fuel sbrk h nunits >>= λ (r, h2). elim r [
      | none ↦ ok (none, h2)
      | some p2 ↦ search_from fuel sbrk h2 p2 (h2.ptr p2) nunits
    ] in
    if leb nunits (h.size p) then ok (some q, h1) else if p == h.freep then more else onward

-- What `malloc` does first: the list of free blocks is the empty header `base` on the first call.
unfoldable pub started : ℕ → Heap → Heap
started base h =
    if h.freep == 0
    then record { ptr = update h.ptr base base; size = update h.size base 0; freep = base }
    else h

-- `malloc`, with the address `base` of the list's first header
unfoldable pub malloc : ℕ → (ℤ → Option ℕ) → ℕ → Heap → ℕ → Outcome (Option ℕ × Heap)
unfolding search_from started
malloc fuel sbrk base h nbytes =
    let h1 = started base h in
    search_from fuel sbrk h1 h1.freep (h1.ptr h1.freep) (nunits_of nbytes)
