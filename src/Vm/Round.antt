-- ===== src/Vm/Round.antt =====
-- kernel/vm.c: one round of `uvmalloc`.
use os_study.Prelude.{
  ℕ, ◌+◌, ◌%◌, ◌≤◌, ◌<◌, ◌≡◌, refl, sym, ap, subst, ◌∙◌, Bool, true, false, none, some, true≢false,
  Bool-cases, inl, inr, List, [], ◌∷◌, arith, if◌then◌else◌, ok, ◌>>=◌,
}
use os_study.Kalloc.{page_size}
use os_study.Vm.{Machine, max_va, zero_page, kalloc, kfree, mappages}
use os_study.Vm.Space.{back_on_failure, map_new}
use os_study.Vm.Pages.{in_pages, no_pages}
use os_study.Vm.Tree.{Owners, IsTree, FreePages, IsRoot, pte_of}
use os_study.Vm.Walk.{IsForest, kalloc-none, kalloc-some}
use os_study.Vm.MapPage.{Mapped, entry_for}
use os_study.Vm.Map.{mappages_lem}
use os_study.Vm.Fresh.{pte_of-elsewhere, zero_page_other, zeroed-IsForest, map_zeroed, one-Unmapped}

-- After one round of `uvmalloc`, which added `pages` pages at `a`
pub record Round (own : Owners) (m : Machine) (r a perm : ℕ) : Type 0 where
  pub done : Bool
  pub m1 : Machine
  pub own1 : Owners
  pub pages : ℕ
  pub frame : ℕ
  pub result : map_new r a perm (kalloc m) ≡ ok (done, m1)
  pub tree : IsTree m1.tables own1
  pub forest : done ≡ true → IsForest own1 m1
  pub keeps : (p : ℕ) (x : ℕ × ℕ × ℕ) → own p ≡ some x → own1 p ≡ some x
  pub one : done ≡ true → pages ≡ 1
  pub nothing : done ≡ false → pages ≡ 0
  pub maps :
      (r' va' : ℕ)
      → IsRoot own r'
      → va' < max_va
      → pte_of m1.tables r' va'
        ≡ (if in_pages r a pages r' va' then entry_for a frame perm va' else pte_of m.tables r' va')

Round-kept :
    (own : Owners) (m : Machine) (r a perm q : ℕ) (qs : List ℕ)
    → m.free ≡ q ∷ qs
    → IsTree m.tables own
    → own q ≡ none
    → (c : Mapped own
        (zero_page (record m { free = qs }) q)
        r
        a
        q
        perm
        1
        (mappages (zero_page (record m { free = qs }) q) r a page_size q perm))
    → Round own m r a perm
Round-kept own m r a perm q qs e tree new c = elim (Bool-cases c.done) [
  | inl d ↦ record {
    done = true;
    m1 = c.m1;
    own1 = c.own1;
    pages = 1;
    frame = q;
    result =
        rw (kalloc-some m q qs e)
          (ap (λ x. x >>= back_on_failure q) (c.result ∙ ap (λ b. ok (b, c.m1)) d));
    tree = c.forest.tree;
    forest = λ _. c.forest;
    keeps = c.keeps;
    one = λ _. refl;
    nothing = λ f. absurd (true≢false f);
    maps = map_zeroed own m r a perm q qs tree new c 1 (c.all d);
  }
  | inr d ↦ record {
    done = false;
    m1 = kfree c.m1 q;
    own1 = c.own1;
    pages = 0;
    frame = q;
    result =
        rw (kalloc-some m q qs e)
          (ap (λ x. x >>= back_on_failure q) (c.result ∙ ap (λ b. ok (b, c.m1)) d));
    tree = c.forest.tree;
    forest = λ f. absurd (true≢false (sym f));
    keeps = c.keeps;
    one = λ f. absurd (true≢false (sym f));
    nothing = λ _. refl;
    maps = map_zeroed own m r a perm q qs tree new c 0 (omega (arith, c.failed d));
  }
]

pub round_lem :
    (own : Owners) (m : Machine) (r a perm : ℕ) (fs : List ℕ)
    → m.free ≡ fs
    → IsForest own m
    → IsRoot own r
    → a % 4096 ≡ 0
    → a + 4096 ≤ max_va
    → pte_of m.tables r a ≡ 0
    → Round own m r a perm
unfolding FreePages
round_lem own m r a perm [] e f root al h u = record {
  done = false;
  m1 = m;
  own1 = own;
  pages = 0;
  frame = 0;
  result = rw (kalloc-none m e) refl;
  tree = f.tree;
  forest = λ _. f;
  keeps = λ p x o. o;
  one = λ g. absurd (true≢false (sym g));
  nothing = λ _. refl;
  maps = λ r' va' root' h'. no_pages r a r' va' (entry_for a 0 perm va') (pte_of m.tables r' va');
}
round_lem own m r a perm (q ∷ qs) e f root al h u =
    let (new, aligned, fresh, rest) : FreePages own (q ∷ qs) = subst (FreePages own) e f.free in
    let m' = record m { free = qs } in
    Round-kept own m r a perm q qs e f.tree new (
      mappages_lem own (zero_page m' q) r a page_size q perm
        (zeroed-IsForest own m' q new f.tree rest) root al refl (omega arith) h
        (one-Unmapped (zero_page m' q) r a (
          pte_of-elsewhere own m.tables (zero_page m q).tables r a f.tree
            (λ p i x. zero_page_other own m q p i x new) root
          ∙ u)))
