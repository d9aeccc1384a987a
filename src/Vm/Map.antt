-- ===== src/Vm/Map.antt =====
-- kernel/vm.c: what `mappages` does to the mappings of all address spaces.
use os_study.Prelude.{
  ℕ, zero, suc, ◌+◌, ◌*◌, ◌/◌, ◌%◌, ◌≤◌, ◌<◌, ◌≡◌, ◌≢◌, refl, sym, ap, ◌∙◌, Bool, true, false,
  true≢false, Bool-cases, inl, inr, arith, if◌then◌else◌, Outcome, ok, eq→==, ne→==,
}
use os_study.Kalloc.{page_size}
use os_study.Vm.{Machine, max_va, map_page, map_from, mappages}
use os_study.Vm.Pages.{in_pages, no_pages, past_page}
use os_study.Vm.Tree.{Owners, IsRoot, pte_of}
use os_study.Vm.Walk.{IsForest}
use os_study.Vm.MapPage.{Mapped, entry_for, more_pages, map_page_lem}

-- `k` pages from `a` on, none of them mapped in the space of `r`
abbrev pub Unmapped : Machine → ℕ → ℕ → ℕ → Type 0
Unmapped m r a k = (j : ℕ) → j < k → pte_of m.tables r (a + j * 4096) ≡ 0

-- What the rest of the loop gives, after a page that was mapped
map_rest :
    (own : Owners) (m : Machine) (r a pa perm k : ℕ) (first : Outcome (Bool × Machine))
    (p : Mapped own m r a pa perm 1 first)
    → p.done ≡ true
    → (out : Outcome (Bool × Machine)) → Mapped p.own1 p.m1 r (a + 4096) (pa + 4096) perm k out
    → Mapped own m r a pa perm (suc k) out
map_rest own m r a pa perm k first p e out t = record {
  done = t.done;
  m1 = t.m1;
  own1 = t.own1;
  pages = suc t.pages;
  result = t.result;
  forest = t.forest;
  keeps = λ q x o. t.keeps q x (p.keeps q x o);
  zeros = λ b z. t.zeros b (p.zeros b z);
  all = λ d. omega (arith, t.all d);
  failed = λ d. omega (arith, t.failed d);
  ran_out = t.ran_out;
  maps = λ r' va' root' h'.
      t.maps r' va' (p.keeps r' (r', 2, 0) root') h'
      ∙ ap
          (λ y.
            if in_pages r (a + 4096) t.pages r' va'
            then entry_for (a + 4096) (pa + 4096) perm va'
            else y)
          (p.maps r' va' root' h'
            ∙ ap
                (λ n.
                  if in_pages r a n r' va' then entry_for a pa perm va' else pte_of m.tables r' va')
                (p.all e))
      ∙ more_pages r a pa perm t.pages r' va' (pte_of m.tables r' va');
}

map_stop :
    (own : Owners) (m : Machine) (r a pa perm k : ℕ) (first : Outcome (Bool × Machine))
    (p : Mapped own m r a pa perm 1 first)
    → p.done ≡ false
    → Mapped own m r a pa perm (suc k) (ok (false, p.m1))
map_stop own m r a pa perm k first p e = record {
  done = false;
  m1 = p.m1;
  own1 = p.own1;
  pages = p.pages;
  result = refl;
  forest = p.forest;
  keeps = p.keeps;
  zeros = p.zeros;
  all = λ d. absurd (true≢false (sym d));
  failed = λ d. omega (arith, p.failed e);
  ran_out = λ d. p.ran_out e;
  maps = p.maps;
}

at_first : (a : ℕ) → a ≡ a + 0 * 4096
at_first a = omega arith

Unmapped-rest :
    (own : Owners) (m : Machine) (r a pa perm k : ℕ) (first : Outcome (Bool × Machine))
    (p : Mapped own m r a pa perm 1 first)
    → p.done ≡ true
    → IsRoot own r
    → a + suc k * 4096 ≤ max_va
    → Unmapped m r a (suc k)
    → Unmapped p.m1 r (a + 4096) k
Unmapped-rest own m r a pa perm k first p e root h u j lt =
    let va : a + 4096 + j * 4096 ≡ a + suc j * 4096 = omega arith in
    let off : in_pages r a p.pages r (a + 4096 + j * 4096) ≡ false =
      past_page r a j p.pages (p.all e) in
    p.maps r (a + 4096 + j * 4096) root (omega (arith, h, lt))
    ∙ rw off (ap (pte_of m.tables r) va ∙ u (suc j) (omega (arith, lt)))

pub map_from_lem :
    (k : ℕ) (own : Owners) (m : Machine) (r a pa perm : ℕ)
    → IsForest own m
    → IsRoot own r
    → a + k * 4096 ≤ max_va
    → Unmapped m r a k
    → Mapped own m r a pa perm k (map_from k m r a pa perm)
unfolding map_from
map_from_lem zero own m r a pa perm f root h u = record {
  done = true;
  m1 = m;
  own1 = own;
  pages = 0;
  result = refl;
  forest = f;
  keeps = λ q x o. o;
  zeros = λ b z. z;
  all = λ e. refl;
  failed = λ e. absurd (true≢false e);
  ran_out = λ e. absurd (true≢false e);
  maps = λ r' va' root' h'. no_pages r a r' va' (entry_for a pa perm va') (pte_of m.tables r' va');
}
map_from_lem (suc k) own m r a pa perm f root h u =
    let here : pte_of m.tables r a ≡ 0 = ap (pte_of m.tables r) (at_first a) ∙ u 0 (omega arith) in
    let p = map_page_lem own m r a pa perm f root (omega (arith, h)) here in
    rw (p.result) (elim (Bool-cases p.done) [
      | inl e ↦ rw e (
          map_rest own m r a pa perm k (map_page m r a pa perm) p e
            (map_from k p.m1 r (a + 4096) (pa + 4096) perm)
            (map_from_lem k p.own1 p.m1 r (a + 4096) (pa + 4096) perm p.forest
              (p.keeps r (r, 2, 0) root) (omega (arith, h))
              (Unmapped-rest own m r a pa perm k (map_page m r a pa perm) p e root h u)))
      | inr e ↦ rw e (map_stop own m r a pa perm k (map_page m r a pa perm) p e)
    ])

-- Where the range is aligned, not empty, below `MAXVA` and without a mapped page, `mappages` does
-- not panic. It maps the pages of the range, in order, to those from `pa` on with `perm`, and
-- returns 0; it returns -1 only when no page is left for a page table, and has then mapped only the
-- first of them. No other address of this or another address space changes its mapping, and the page tables
-- stay trees on pages of their own, apart from the free pages.
pub mappages_lem :
    (own : Owners) (m : Machine) (r va size pa perm : ℕ)
    → IsForest own m
    → IsRoot own r
    → va % page_size ≡ 0
    → size % page_size ≡ 0
    → size ≢ 0
    → va + size ≤ max_va
    → Unmapped m r va (size / page_size)
    → Mapped own m r va pa perm (size / page_size) (mappages m r va size pa perm)
unfolding mappages
mappages_lem own m r va size pa perm f root a b n h u =
    rw (eq→== (va % page_size) 0 a, eq→== (size % page_size) 0 b, ne→== size 0 n)
      (map_from_lem (size / page_size) own m r va pa perm f root (omega (arith, h, b)) u)
