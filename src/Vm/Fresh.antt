-- ===== src/Vm/Fresh.antt =====
-- kernel/vm.c: a page that no page table has, cleared and mapped.
use os_study.Prelude.{
  ℕ, suc, ◌<◌, ◌≡◌, refl, ap, ap₂, ◌∙◌, none, some, Option-cases, inl, inr, List, arith,
  if◌then◌else◌, update_ne,
}
use os_study.Kalloc.{page_size}
use os_study.Vm.{Machine, max_va, px, zero_page, mappages}
use os_study.Vm.Pages.{in_pages}
use os_study.Vm.Tree.{
  Owners, IsTree, FreePages, IsRoot, leaf_page, leaf_page-same, leaf_page-own, prefix, pte_in,
  pte_of, mapping,
}
use os_study.Vm.Grow.{unowned_ne}
use os_study.Vm.Walk.{IsForest}
use os_study.Vm.MapPage.{Above-IsTree, Mapped, entry_for}
use os_study.Vm.Map.{Unmapped}

-- What a change of pages that no table owns leaves alone
pub pte_of-elsewhere :
    (own : Owners) (t t' : ℕ → ℕ → ℕ) (r va : ℕ)
    → IsTree t own
    → ((p i : ℕ) (x : ℕ × ℕ × ℕ) → own p ≡ some x → t' p i ≡ t p i)
    → IsRoot own r
    → pte_of t' r va ≡ pte_of t r va
pte_of-elsewhere own t t' r va tree same root =
    ap (pte_in t' va)
      (leaf_page-same t t' own 2 r r 0 va tree (λ p r' l v i. same p i (r', suc l, v)) root)
    ∙ elim (Option-cases (leaf_page t 2 r va)) [
      | inl e ↦ rw e refl
      | inr (q, e) ↦ rw e (
          ap mapping
            (same q (px 0 va) (r, 0, prefix 2 0 va) (leaf_page-own t own 2 r r 0 va q tree root e)))
    ]

pub zero_page_other :
    (own : Owners) (m : Machine) (q p i : ℕ) (x : ℕ × ℕ × ℕ)
    → own q ≡ none
    → own p ≡ some x
    → (zero_page m q).tables p i ≡ m.tables p i
zero_page_other own m q p i x new o =
    ap (λ f. f i) (update_ne m.tables q p (λ j. 0) (unowned_ne own q p x new o))

pub zeroed-IsForest :
    (own : Owners) (m : Machine) (q : ℕ)
    → own q ≡ none
    → IsTree m.tables own
    → FreePages own m.free
    → IsForest own (zero_page m q)
zeroed-IsForest own m q new tree free = record {
  tree =
      Above-IsTree own m.tables (zero_page m q).tables
        (λ p r l v i. zero_page_other own m q p i (r, suc l, v) new) tree;
  free = free;
}

-- What mapping the new page `q` does, with its clearing
pub map_zeroed :
    (own : Owners) (m : Machine) (r a perm q : ℕ) (qs : List ℕ)
    → IsTree m.tables own
    → own q ≡ none
    → (c : Mapped own
        (zero_page (record m { free = qs }) q)
        r
        a
        q
        perm
        1
        (mappages (zero_page (record m { free = qs }) q) r a page_size q perm))
    → (n : ℕ) → c.pages ≡ n
    → (r' va' : ℕ) → IsRoot own r'
    → va' < max_va
    → pte_of c.m1.tables r' va'
      ≡ (if in_pages r a n r' va' then entry_for a q perm va' else pte_of m.tables r' va')
map_zeroed own m r a perm q qs tree new c n en r' va' root' h' =
    c.maps r' va' root' h'
    ∙ ap₂ (λ (n' y : ℕ). if in_pages r a n' r' va' then entry_for a q perm va' else y) en
        (pte_of-elsewhere own m.tables (zero_page m q).tables r' va' tree
          (λ p i x. zero_page_other own m q p i x new) root')

pub one-Unmapped : (m : Machine) (r a : ℕ) → pte_of m.tables r a ≡ 0 → Unmapped m r a 1
one-Unmapped m r a z j lt = ap (pte_of m.tables r) (omega (arith, lt)) ∙ z
