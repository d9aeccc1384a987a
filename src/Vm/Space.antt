-- ===== src/Vm/Space.antt =====
-- kernel/vm.c: user address spaces that grow, shrink and are copied. Loops over pages count the
-- rounds: `for(a = va; a < end; a += PGSIZE)` runs `pages_between va end` times.
use os_study.Prelude.{
  ℕ, zero, suc, ◌+◌, ◌-◌, ◌*◌, ◌/◌, ◌%◌, Bool, true, false, not, ◌&&◌, Option, none, some, Outcome,
  ok, panic, blocked, ◌>>=◌, ltb, leb, ◌==◌, if◌then◌else◌,
}
use os_study.Kalloc.{page_size, page_round_up}
use os_study.StringOps.{memmove}
use os_study.Vm.{
  Machine, pte2pa, is_valid, is_leaf, set_entry, zero_page, kalloc, kfree, walk, mappages,
}

abbrev pub pages_between : ℕ → ℕ → ℕ
pages_between va end = (end - va + (page_size - 1)) / page_size

-- One round of `uvmunmap` at the entry that `walk` gave.
abbrev pub unmap_at : Bool → Machine → Option (ℕ × ℕ) → Machine
unmap_at do_free m none = m
unmap_at do_free m (some (q, i)) =
    if not (is_valid (m.tables q i))
    then m
    else set_entry (if do_free then kfree m (pte2pa (m.tables q i)) else m) q i 0

unfoldable pub unmap_page : Machine → ℕ → ℕ → Bool → Outcome Machine
unfolding walk
unmap_page m p a do_free = do (e, m1) ← walk m p a false; ok (unmap_at do_free m1 e)

unfoldable pub unmap_from : ℕ → Machine → ℕ → ℕ → Bool → Outcome Machine
unfolding unmap_page
unmap_from zero m p a do_free = ok m
unmap_from (suc k) m p a do_free = do
  m1 ← unmap_page m p a do_free
  unmap_from k m1 p (a + page_size) do_free

unfoldable pub uvmunmap : Machine → ℕ → ℕ → ℕ → Bool → Outcome Machine
unfolding unmap_from
uvmunmap m p va npages do_free =
    if not (va % page_size == 0)
    then panic "uvmunmap: not aligned"
    else unmap_from npages m p va do_free

unfoldable pub uvmdealloc : Machine → ℕ → ℕ → ℕ → Outcome (ℕ × Machine)
unfolding uvmunmap
uvmdealloc m p oldsz newsz =
    let new_end = page_round_up newsz in
    let old_end = page_round_up oldsz in
    if leb oldsz newsz
    then ok (oldsz, m)
    else if ltb new_end old_end
    then (do m1 ← uvmunmap m p new_end ((old_end - new_end) / page_size) true; ok (newsz, m1))
    else ok (newsz, m)

-- `uvmdealloc(pagetable, a, oldsz); return 0;`
abbrev pub undo_alloc : Machine → ℕ → ℕ → ℕ → Outcome (ℕ × Machine)
undo_alloc m p a oldsz = do (sz, m1) ← uvmdealloc m p a oldsz; ok (0, m1)

-- The page that `uvmalloc` maps at `a`, with `PTE_R|PTE_U|xperm`; `xperm` is made of `PTE_W` and
-- `PTE_X`. The page comes back with `false` when it could not be mapped.
abbrev pub back_on_failure : ℕ → Bool × Machine → Outcome (Bool × Machine)
back_on_failure mem (true, m) = ok (true, m)
back_on_failure mem (false, m) = ok (false, kfree m mem)

abbrev pub map_new : ℕ → ℕ → ℕ → Option ℕ × Machine → Outcome (Bool × Machine)
map_new p a perm (none, m) = ok (false, m)
map_new p a perm (some mem, m) =
    mappages (zero_page m mem) p a page_size mem perm >>= back_on_failure mem

-- The loop of `uvmalloc` from `a` on, `k` pages to go; `oldsz` is rounded up.
unfoldable pub alloc_from : ℕ → Machine → ℕ → ℕ → ℕ → ℕ → ℕ → Outcome (ℕ × Machine)
unfolding uvmdealloc
alloc_from zero m p a oldsz newsz xperm = ok (newsz, m)
alloc_from (suc k) m p a oldsz newsz xperm = do
  (done, m1) ← map_new p a (18 + xperm) (kalloc m)
  let rest = alloc_from k m1 p (a + page_size) oldsz newsz xperm
  if done then rest else undo_alloc m1 p a oldsz

unfoldable pub uvmalloc : Machine → ℕ → ℕ → ℕ → ℕ → Outcome (ℕ × Machine)
unfolding alloc_from
uvmalloc m p oldsz newsz xperm =
    let start = page_round_up oldsz in
    if ltb newsz oldsz
    then ok (oldsz, m)
    else alloc_from (pages_between start newsz) m p start start newsz xperm

-- `freewalk`, with `depth` levels of page tables below; the loop has `k` entries to go.
abbrev pub free_entry : (Machine → ℕ → Outcome Machine) → Machine → ℕ → ℕ → Outcome Machine
free_entry freewalk_child m p i =
    if is_valid (m.tables p i) && not (is_leaf (m.tables p i))
    then (do m1 ← freewalk_child m (pte2pa (m.tables p i)); ok (set_entry m1 p i 0))
    else if is_valid (m.tables p i)
    then panic "freewalk: leaf"
    else ok m

unfoldable pub free_entries :
    (Machine → ℕ → Outcome Machine) → ℕ → Machine → ℕ → ℕ → Outcome Machine
free_entries freewalk_child zero m p i = ok m
free_entries freewalk_child (suc k) m p i = do
  m1 ← free_entry freewalk_child m p i
  free_entries freewalk_child k m1 p (i + 1)

unfoldable pub freewalk : ℕ → Machine → ℕ → Outcome Machine
unfolding free_entries
freewalk zero m p = blocked
freewalk (suc depth) m p = do
  m1 ← free_entries (λ m' child. freewalk depth m' child) 512 m p 0
  ok (kfree m1 p)

unfoldable pub uvmfree : Machine → ℕ → ℕ → Outcome Machine
unfolding uvmunmap freewalk
uvmfree m p sz = do
  m1 ← (if ltb 0 sz then uvmunmap m p 0 (page_round_up sz / page_size) true else ok m)
  freewalk 3 m1 p

-- `memmove` of one page
abbrev pub copy_page : Machine → ℕ → ℕ → Machine
copy_page m mem pa = record m { bytes = memmove m.bytes mem pa page_size }

-- One page of `uvmcopy`: its frame's copy is mapped at `i` in `new`.
abbrev pub map_copy : ℕ → ℕ → ℕ → Option ℕ × Machine → Outcome (Bool × Machine)
map_copy new i pte (none, m) = ok (false, m)
map_copy new i pte (some mem, m) =
    mappages (copy_page m mem (pte2pa pte)) new i page_size mem (pte % 1024) >>= back_on_failure mem

abbrev pub copy_at : ℕ → ℕ → Option (ℕ × ℕ) × Machine → Outcome (Bool × Machine)
copy_at new i (none, m) = ok (true, m)
copy_at new i (some (q, j), m) =
    let copying = map_copy new i (m.tables q j) (kalloc m) in
    if not (is_valid (m.tables q j)) then ok (true, m) else copying

unfoldable pub copy_from : ℕ → Machine → ℕ → ℕ → ℕ → Outcome (Bool × Machine)
unfolding walk uvmunmap
copy_from zero m old new i = ok (true, m)
copy_from (suc k) m old new i = do
  (done, m1) ← walk m old i false >>= copy_at new i
  let rest = copy_from k m1 old new (i + page_size)
  let undone = (do m2 ← uvmunmap m1 new 0 (i / page_size) true; ok (false, m2))
  if done then rest else undone

-- `uvmcopy`: `true` for 0, `false` for -1
unfoldable pub uvmcopy : Machine → ℕ → ℕ → ℕ → Outcome (Bool × Machine)
unfolding copy_from
uvmcopy m old new sz = copy_from (pages_between 0 sz) m old new 0

-- `*pte &= ~PTE_U`
abbrev pub clear_user : Option (ℕ × ℕ) × Machine → Outcome Machine
clear_user (none, m) = panic "uvmclear"
clear_user (some (q, i), m) = ok (set_entry m q i (m.tables q i - m.tables q i / 16 % 2 * 16))

unfoldable pub uvmclear : Machine → ℕ → ℕ → Outcome Machine
unfolding walk
uvmclear m p va = walk m p va false >>= clear_user
