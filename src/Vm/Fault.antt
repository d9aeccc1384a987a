-- ===== src/Vm/Fault.antt =====
-- kernel/vm.c: `vmfault`, for a page that sbrk left to be allocated.
use os_study.Prelude.{
  ℕ, ◌+◌, ◌<◌, ◌≡◌, ◌⊎◌, refl, ap, ◌∙◌, false, Option, none, some, arith, leb, if◌then◌else◌,
  Outcome, ok,
}
use os_study.Vm.{Machine, max_va, px, is_valid, entry_at, valid_at, ismapped}
use os_study.Vm.Pages.{in_pages}
use os_study.Vm.Tree.{Owners, IsTree, IsRoot, leaf_page, pte_in, pte_of}
use os_study.Vm.Walk.{descend-find}
use os_study.Vm.MapPage.{entry_for}

-- `out` is what the fault at `va` gave: a new page of zeroes there, or 0 and no change.
pub record Faulted (own : Owners) (m : Machine) (r va : ℕ) (out : Outcome (ℕ × Machine))
    : Type 0 where
  pub pa : ℕ
  pub m1 : Machine
  pub own1 : Owners
  pub pages : ℕ
  pub result : out ≡ ok (pa, m1)
  pub tree : IsTree m1.tables own1
  pub keeps : (p : ℕ) (x : ℕ × ℕ × ℕ) → own p ≡ some x → own1 p ≡ some x
  pub size : ((pages ≡ 1) × ((o : ℕ) → o < 4096 → m1.bytes (pa + o) ≡ 0)) ⊎ ((pages ≡ 0) × (pa ≡ 0))
  pub maps :
      (r' va' : ℕ)
      → IsRoot own r'
      → va' < max_va
      → pte_of m1.tables r' va'
        ≡ (if in_pages r va pages r' va' then entry_for va pa 22 va' else pte_of m.tables r' va')

valid_at_lem :
    (m : Machine) (va : ℕ) (o : Option ℕ)
    → valid_at m (entry_at (px 0 va) o) ≡ is_valid (pte_in m.tables va o)
valid_at_lem m va none = refl
valid_at_lem m va (some q) = ground arith

pub ismapped_lem :
    (m : Machine) (r va : ℕ) → va < max_va → ismapped m r va ≡ ok (is_valid (pte_of m.tables r va))
unfolding ismapped
ismapped_lem m r va h =
    let low : leb max_va va ≡ false = ground (arith, h) in
    rw low (
      ap (λ d. ok (valid_at m (entry_at (px 0 va) d.0))) (descend-find m r va)
      ∙ ap (λ x. ok x) (valid_at_lem m va (leaf_page m.tables 2 r va)))
