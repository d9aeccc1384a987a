-- ===== src/Vm.antt =====
-- kernel/vm.c: Sv39 page tables. A page-table page is its 512 entries, by the page's address and the
-- index, so that a pointer to an entry is such a pair; a user page is its bytes. `free` is the list
-- of pages that `kalloc` hands out (kernel/kalloc.c), head first: it is empty when memory has run
-- out. The pages that are freed are taken to come from this list, where `kfree` has nothing to panic
-- about. The junk that `kalloc` and `kfree` write is left out, as every page is overwritten before
-- use, and so are the messages. Addresses do not reach 2 ^ 56, so an entry holds them.
pub mod Space
pub mod Copy
pub mod Tree
pub mod Grow
pub mod Walk
pub mod Pages
pub mod MapPage
pub mod Map
pub mod Unmap
pub mod Fresh
pub mod Round
pub mod Undo
pub mod Alloc
pub mod Fault
pub mod UserBytes
pub mod Processes
use os_study.Prelude.{
  ℕ, zero, suc, ◌+◌, ◌-◌, ◌*◌, ◌/◌, ◌%◌, ◌^◌, Bool, true, false, not, ◌&&◌, ◌||◌, Option, none,
  some, List, [], ◌∷◌, Outcome, ok, panic, blocked, ◌>>=◌, ltb, leb, ◌==◌, if◌then◌else◌, update,
}
use os_study.Kalloc.{page_size}

pub record Machine : Type 0 where
  pub tables : ℕ → ℕ → ℕ
  pub bytes : ℕ → ℕ
  pub free : List ℕ

-- `MAXVA`
abbrev pub max_va : ℕ
max_va = 2 ^ 38

-- `PX(level, va)`
abbrev pub px : ℕ → ℕ → ℕ
px zero va = va / 4096 % 512
px (suc zero) va = va / 2097152 % 512
px (suc (suc level)) va = va / 1073741824 % 512

-- `PA2PTE(pa) | flags`, with flags below 1024, and `PTE2PA(pte)`
abbrev pub pa2pte : ℕ → ℕ → ℕ
pa2pte pa flags = pa / 4096 * 1024 + flags

abbrev pub pte2pa : ℕ → ℕ
pte2pa pte = pte / 1024 * 4096

-- `PTE_V`, `PTE_R | PTE_W | PTE_X`, `PTE_W` and `PTE_U` in an entry
abbrev pub is_valid : ℕ → Bool
is_valid pte = pte % 2 == 1

abbrev pub is_leaf : ℕ → Bool
is_leaf pte = not (pte / 2 % 8 == 0)

abbrev pub is_writable : ℕ → Bool
is_writable pte = pte / 4 % 2 == 1

abbrev pub is_user : ℕ → Bool
is_user pte = pte / 16 % 2 == 1

-- `perm | PTE_V`
abbrev pub with_valid : ℕ → ℕ
with_valid perm = perm + (1 - perm % 2)

abbrev pub set_entry : Machine → ℕ → ℕ → ℕ → Machine
set_entry m p i pte = record m { tables = update m.tables p (update (m.tables p) i pte) }

-- `memset(p, 0, PGSIZE)`
abbrev pub zero_page : Machine → ℕ → Machine
zero_page m p = record m {
  tables = update m.tables p (λ i. 0);
  bytes = λ a. if leb p a && ltb a (p + page_size) then 0 else m.bytes a;
}

-- `kalloc` of a page: the page, or none.
abbrev pub kalloc : Machine → Option ℕ × Machine
kalloc m = elim m.free [ [] ↦ (none, m) | p ∷ ps ↦ (some p, record m { free = ps }) ]

abbrev pub kfree : Machine → ℕ → Machine
kfree m p = record m { free = p ∷ m.free }

-- A new page-table page in entry `i` of page `p`.
abbrev pub grow_with : ℕ → ℕ → Option ℕ × Machine → Option ℕ × Machine
grow_with p i (none, m) = (none, m)
grow_with p i (some q, m) = (some q, set_entry (zero_page m q) p i (pa2pte q 1))

-- One round of `walk`: the next page-table page.
unfoldable pub step_down : Machine → ℕ → ℕ → Bool → Option ℕ × Machine
step_down m p i alloc =
    if is_valid (m.tables p i)
    then (some (pte2pa (m.tables p i)), m)
    else if not alloc
    then (none, m)
    else grow_with p i (kalloc m)

abbrev pub then_down : ℕ → Bool → Option ℕ × Machine → Option ℕ × Machine
then_down i alloc (none, m) = (none, m)
then_down i alloc (some p, m) = step_down m p i alloc

abbrev pub entry_at : ℕ → Option ℕ → Option (ℕ × ℕ)
entry_at i none = none
entry_at i (some p) = some (p, i)

-- The rounds of `walk` for levels 2 and 1: the page-table page of level 0.
unfoldable pub descend : Machine → ℕ → ℕ → Bool → Option ℕ × Machine
unfolding step_down
descend m p va alloc = then_down (px 1 va) alloc (step_down m p (px 2 va) alloc)

-- `walk`: a pointer to the entry, or null.
unfoldable pub walk : Machine → ℕ → ℕ → Bool → Outcome (Option (ℕ × ℕ) × Machine)
unfolding descend
walk m p va alloc =
    if leb max_va va
    then panic "walk"
    else (let (q, m1) = descend m p va alloc in ok (entry_at (px 0 va) q, m1))

-- The page's address in an entry that the user may use, or 0.
abbrev pub user_page : Machine → Option (ℕ × ℕ) → ℕ
user_page m none = 0
user_page m (some (q, i)) =
    if not (is_valid (m.tables q i)) || not (is_user (m.tables q i))
    then 0
    else pte2pa (m.tables q i)

unfoldable pub walkaddr : Machine → ℕ → ℕ → Outcome ℕ
unfolding walk
walkaddr m p va = if leb max_va va then ok 0 else do (e, m1) ← walk m p va false; ok (user_page m e)

abbrev pub valid_at : Machine → Option (ℕ × ℕ) → Bool
valid_at m none = false
valid_at m (some (q, i)) = is_valid (m.tables q i)

unfoldable pub ismapped : Machine → ℕ → ℕ → Outcome Bool
unfolding walk
ismapped m p va = do (e, m1) ← walk m p va false; ok (valid_at m e)

-- One round of `mappages` at the entry that `walk` gave: it returns -1 (`false`) without one.
abbrev pub map_at : ℕ → ℕ → Option (ℕ × ℕ) × Machine → Outcome (Bool × Machine)
map_at pa perm (none, m) = ok (false, m)
map_at pa perm (some (q, i), m) =
    if is_valid (m.tables q i)
    then panic "mappages: remap"
    else ok (true, set_entry m q i (pa2pte pa (with_valid perm)))

unfoldable pub map_page : Machine → ℕ → ℕ → ℕ → ℕ → Outcome (Bool × Machine)
unfolding walk
map_page m p a pa perm = walk m p a true >>= map_at pa perm

-- The loop of `mappages`, with `k` pages to go.
unfoldable pub map_from : ℕ → Machine → ℕ → ℕ → ℕ → ℕ → Outcome (Bool × Machine)
unfolding map_page
map_from zero m p a pa perm = ok (true, m)
map_from (suc k) m p a pa perm = do
  (done, m1) ← map_page m p a pa perm
  let rest = map_from k m1 p (a + page_size) (pa + page_size) perm
  if done then rest else ok (false, m1)

-- `mappages`: `true` for 0, `false` for -1
unfoldable pub mappages : Machine → ℕ → ℕ → ℕ → ℕ → ℕ → Outcome (Bool × Machine)
unfolding map_from
mappages m p va size pa perm =
    if not (va % page_size == 0)
    then panic "mappages: va not aligned"
    else if not (size % page_size == 0)
    then panic "mappages: size not aligned"
    else if size == 0
    then panic "mappages: size"
    else map_from (size / page_size) m p va pa perm

unfoldable pub kvmmap : Machine → ℕ → ℕ → ℕ → ℕ → ℕ → Outcome Machine
unfolding mappages
kvmmap m p va pa sz perm = do
  (done, m1) ← mappages m p va sz pa perm
  if done then ok m1 else panic "kvmmap"

-- The page of `uvmcreate`, or none.
unfoldable pub uvmcreate : Machine → Option ℕ × Machine
uvmcreate m =
    let (q, m1) = kalloc m in elim q [ none ↦ (none, m1) | some p ↦ (some p, zero_page m1 p) ]
