-- ===== src/Vm/MapPage.antt =====
-- kernel/vm.c: one page that `mappages` maps.
use os_study.Prelude.{
  ℕ, suc, ◌+◌, ◌-◌, ◌*◌, ◌/◌, ◌%◌, ◌<◌, ◌≡◌, refl, sym, ap, ◌∙◌, Bool, true, false, Option, none,
  some, [], true≢false, arith, ◌==◌, ◌&&◌, if◌then◌else◌, Outcome, ok,
}
use os_study.Vm.{
  Machine, max_va, px, pa2pte, pte2pa, is_valid, with_valid, set_entry, entry_at, descend, map_at,
  map_page,
}
use os_study.Vm.Pages.{in_pages, no_pages, choose, more}
use os_study.Vm.Tree.{
  Owners, IsTree, Above, IsRoot, leaf_page, pte_in, pte_of, mapping, set_at, set_at-Above,
  leaf_of_root, pte_of-set,
}
use os_study.Vm.Walk.{IsForest, Walked, walk-alloc, walk-descend}

pub Above-IsTree : (own : Owners) (t t' : ℕ → ℕ → ℕ) → Above own t t' → IsTree t own → IsTree t' own
Above-IsTree own t t' same tree p r l v i o h valid =
    let e : t' p i ≡ t p i = same p r l v i o in
    ap (λ x. own (pte2pa x)) e ∙ tree p r l v i o h (sym (ap is_valid e) ∙ valid)

-- The entry of `va'` when the pages from `a` on go to those from `pa` on.
abbrev pub entry_for : ℕ → ℕ → ℕ → ℕ → ℕ
entry_for a pa perm va' = pa2pte (pa + (va' / 4096 - a / 4096) * 4096) (with_valid perm)

-- `out` is what mapping at most `k` pages gave: the first `pages` of them are mapped, and nothing
-- else has changed. It stops early only when no page is free.
pub record Mapped (own : Owners) (m : Machine) (r a pa perm k : ℕ) (out : Outcome (Bool × Machine))
    : Type 0 where
  pub done : Bool
  pub m1 : Machine
  pub own1 : Owners
  pub pages : ℕ
  pub result : out ≡ ok (done, m1)
  pub forest : IsForest own1 m1
  pub keeps : (p : ℕ) (x : ℕ × ℕ × ℕ) → own p ≡ some x → own1 p ≡ some x
  pub zeros : (a : ℕ) → m.bytes a ≡ 0 → m1.bytes a ≡ 0
  pub all : done ≡ true → pages ≡ k
  pub failed : done ≡ false → pages < k
  pub ran_out : done ≡ false → m1.free ≡ []
  pub maps :
      (r' va' : ℕ)
      → IsRoot own r'
      → va' < max_va
      → pte_of m1.tables r' va'
        ≡ (if in_pages r a pages r' va' then entry_for a pa perm va' else pte_of m.tables r' va')

unmapped_invalid : (x : ℕ) → mapping x ≡ 0 → is_valid x ≡ false
unmapped_invalid x e = ground (arith, e)

mapping_new : (pa perm : ℕ) → mapping (pa2pte pa (with_valid perm)) ≡ pa2pte pa (with_valid perm)
mapping_new pa perm = let e : pa2pte pa (with_valid perm) % 2 ≡ 1 = omega arith in ground (arith, e)

one_page :
    (r a pa perm r' va' y y' : ℕ)
    → y ≡ y'
    → (if (r == r') && (a / 4096 == va' / 4096) then mapping (pa2pte pa (with_valid perm)) else y)
      ≡ (if in_pages r a 1 r' va' then entry_for a pa perm va' else y')
one_page r a pa perm r' va' y y' e =
    let same : a / 4096 ≡ va' / 4096 → entry_for a pa perm va' ≡ pa2pte pa (with_valid perm) = λ ep.
      let at : pa + (va' / 4096 - a / 4096) * 4096 ≡ pa = omega (arith, ep) in
      ap (λ x. pa2pte x (with_valid perm)) at in
    rw (mapping_new pa perm) (
      choose (r == r') (a / 4096) (va' / 4096) (pa2pte pa (with_valid perm))
        (entry_for a pa perm va') y y' same e)

pub more_pages :
    (r a pa perm j r' va' y : ℕ)
    → (if in_pages r (a + 4096) j r' va'
        then entry_for (a + 4096) (pa + 4096) perm va'
        else if in_pages r a 1 r' va'
        then entry_for a pa perm va'
        else y)
      ≡ (if in_pages r a (suc j) r' va' then entry_for a pa perm va' else y)
more_pages r a pa perm j r' va' y =
    let same : a / 4096 < va' / 4096
        → entry_for (a + 4096) (pa + 4096) perm va' ≡ entry_for a pa perm va' =
      λ lt.
        let at : pa + 4096 + (va' / 4096 - (a + 4096) / 4096) * 4096
            ≡ pa + (va' / 4096 - a / 4096) * 4096 =
          omega (arith, lt) in
        ap (λ x. pa2pte x (with_valid perm)) at in
    more r a j r' va' (entry_for a pa perm va') (entry_for (a + 4096) (pa + 4096) perm va') y same

module _ (own : Owners) (m : Machine) (r a pa perm : ℕ) (f : IsForest own m) (root : IsRoot own r)
    (h : a < max_va) (unmapped : pte_of m.tables r a ≡ 0) where
  map_at_lem :
      (o : Option ℕ) (m1 : Machine)
      → Walked own m r a o m1
      → Mapped own m r a pa perm 1 (map_at pa perm (entry_at (px 0 a) o, m1))
  map_at_lem none m1 w = record {
    done = false;
    m1 = m1;
    own1 = w.own1;
    pages = 0;
    result = refl;
    forest = w.forest;
    keeps = w.extends.keeps;
    zeros = w.zeros;
    all = λ e. absurd (true≢false (sym e));
    failed = λ e. omega arith;
    ran_out = λ e. w.ran_out refl;
    maps = λ r' va' root' h'.
        w.extends.maps 2 r' r' 0 va' root'
        ∙ no_pages r a r' va' (entry_for a pa perm va') (pte_of m.tables r' va');
  }
  map_at_lem (some q) m1 w =
      let leaf : leaf_page m1.tables 2 r a ≡ some q = w.found q refl in
      let root1 : IsRoot w.own1 r = w.extends.keeps r (r, 2, 0) root in
      let off : is_valid (m1.tables q (px 0 a)) ≡ false =
        unmapped_invalid (m1.tables q (px 0 a))
          (sym (ap (pte_in m1.tables a) leaf) ∙ w.extends.maps 2 r r 0 a root ∙ unmapped) in
      let pte = pa2pte pa (with_valid perm) in
      let oq = leaf_of_root m1.tables w.own1 r a q w.forest.tree root1 h leaf in
      record {
        done = true;
        m1 = set_entry m1 q (px 0 a) pte;
        own1 = w.own1;
        pages = 1;
        result = rw off refl;
        forest = record {
          tree =
              Above-IsTree w.own1 m1.tables (set_at m1.tables q (px 0 a) pte)
                (set_at-Above m1.tables w.own1 q (px 0 a) pte r (a / 2097152) oq) w.forest.tree;
          free = w.forest.free;
        };
        keeps = w.extends.keeps;
        zeros = w.zeros;
        all = λ e. refl;
        failed = λ e. absurd (true≢false e);
        ran_out = λ e. absurd (true≢false e);
        maps = λ r' va' root' h'.
            pte_of-set m1.tables w.own1 r a q pte r' va' w.forest.tree root1
              (w.extends.keeps r' (r', 2, 0) root') h h' leaf
            ∙ one_page r a pa perm r' va' (pte_of m1.tables r' va') (pte_of m.tables r' va')
                (w.extends.maps 2 r' r' 0 va' root');
      }

  pub map_page_lem : Mapped own m r a pa perm 1 (map_page m r a pa perm)
  unfolding map_page
  map_page_lem =
      rw (walk-descend m r a true h)
        (map_at_lem (descend m r a true).0 (descend m r a true).1 (walk-alloc own m r a f root))
