-- ===== src/Vm/Alloc.antt =====
-- kernel/vm.c: the two outcomes of `uvmalloc`.
use os_study.Prelude.{
  ℕ, zero, suc, ◌+◌, ◌*◌, ◌/◌, ◌%◌, ◌≤◌, ◌<◌, ◌≡◌, refl, sym, ap, subst, ◌∙◌, false, some,
  Bool-cases, inl, inr, arith, ltb, if◌then◌else◌,
}
use os_study.Kalloc.{page_size, page_round_up}
use os_study.Vm.{Machine, max_va}
use os_study.Vm.Space.{alloc_from, uvmalloc, pages_between}
use os_study.Vm.Pages.{in_pages, no_pages}
use os_study.Vm.Tree.{Owners, IsRoot, pte_of}
use os_study.Vm.Walk.{IsForest}
use os_study.Vm.MapPage.{entry_for}
use os_study.Vm.Map.{Unmapped}
use os_study.Vm.Round.{round_lem}
use os_study.Vm.Undo.{Entry, Added, Allocated, add_page, none-Added, undo_lem}

before : (r start i : ℕ) → in_pages r start i r (start + i * 4096) ≡ false
before r start i =
    let k : (start + i * 4096) / 4096 ≡ start / 4096 + i = omega arith in ground (arith, k)

module _ (own0 : Owners) (m0 : Machine) (r start k : ℕ) (root : IsRoot own0 r)
    (aligned : start % 4096 ≡ 0) (h : start + k * 4096 ≤ max_va) (u : Unmapped m0 r start k) where
  fresh_page :
      (own : Owners) (m : Machine) (i perm : ℕ)
      → i < k
      → Added own0 m0 m r start i perm
      → pte_of m.tables r (start + i * 4096) ≡ 0
  fresh_page own m i perm lt a =
      let out : in_pages r start i r (start + i * 4096) ≡ false = before r start i in
      subst
        (λ b.
          Entry b perm (pte_of m0.tables r (start + i * 4096))
            (pte_of m.tables r (start + i * 4096)))
        out (a r (start + i * 4096) root (omega (arith, lt, h)))
      ∙ u i lt

  same-Added :
      (m m1 : Machine) (i perm : ℕ)
      → Added own0 m0 m r start i perm
      → ((r' va' : ℕ)
          → IsRoot own0 r'
          → va' < max_va
          → pte_of m1.tables r' va' ≡ pte_of m.tables r' va')
      → Added own0 m0 m1 r start i perm
  same-Added m m1 i perm a f r' va' root' h' =
      subst (λ y. Entry (in_pages r start i r' va') perm (pte_of m0.tables r' va') y)
        (sym (f r' va' root' h')) (a r' va' root' h')

  alloc_from_lem :
      (j i : ℕ) (own : Owners) (m : Machine) (newsz xperm : ℕ)
      → i + j ≡ k
      → IsForest own m
      → ((p : ℕ) (x : ℕ × ℕ × ℕ) → own0 p ≡ some x → own p ≡ some x)
      → Added own0 m0 m r start i (18 + xperm)
      → Allocated own0 m0 r start k newsz
          (18 + xperm)
          (alloc_from j m r (start + i * 4096) start newsz xperm)
  unfolding alloc_from
  alloc_from_lem zero i own m newsz xperm e f keeps a = record {
    sz = newsz;
    m1 = m;
    own1 = own;
    added = i;
    result = refl;
    tree = f.tree;
    keeps = keeps;
    size = inl (refl, omega (arith, e));
    maps = a;
  }
  alloc_from_lem (suc j) i own m newsz xperm e f keeps a =
      let p =
        round_lem own m r (start + i * 4096) (18 + xperm) m.free refl f (keeps r (r, 2, 0) root)
          (omega (arith, aligned)) (omega (arith, h, e))
          (fresh_page own m i (18 + xperm) (omega (arith, e)) a) in
      rw (p.result) (elim (Bool-cases p.done) [
        | inl d ↦ rw (d) (
            let next : start + suc i * 4096 ≡ start + i * 4096 + page_size = omega arith in
            subst
              (λ a'.
                Allocated own0 m0 r start k newsz (18 + xperm)
                  (alloc_from j p.m1 r a' start newsz xperm))
              next
              (alloc_from_lem j (suc i) p.own1 p.m1 newsz xperm (omega (arith, e)) (p.forest d)
                (λ q x o. p.keeps q x (keeps q x o))
                (add_page own0 m0 r start k root aligned h u m p.m1 (18 + xperm) i p.frame a
                  (λ r' va' root' h'.
                    p.maps r' va' (keeps r' (r', 2, 0) root') h'
                    ∙ ap
                        (λ (n : ℕ).
                          if in_pages r (start + i * 4096) n r' va'
                          then entry_for (start + i * 4096) p.frame (18 + xperm) va'
                          else pte_of m.tables r' va')
                        (p.one d)))))
        | inr d ↦ rw (d) (
            undo_lem own0 m0 r start k root aligned h u p.own1 p.m1 i newsz (18 + xperm) p.tree
              (λ q x o. p.keeps q x (keeps q x o)) (omega (arith, e))
              (same-Added m p.m1 i (18 + xperm) a (λ r' va' root' h'.
                p.maps r' va' (keeps r' (r', 2, 0) root') h'
                ∙ ap
                    (λ (n : ℕ).
                      if in_pages r (start + i * 4096) n r' va'
                      then entry_for (start + i * 4096) p.frame (18 + xperm) va'
                      else pte_of m.tables r' va')
                    (p.nothing d)
                ∙ sym (
                    no_pages r (start + i * 4096) r' va'
                      (entry_for (start + i * 4096) p.frame (18 + xperm) va')
                      (pte_of m.tables r' va')))))
      ])

-- Where `oldsz` is at most `newsz`, `newsz` is at most `MAXVA` and no page from the rounded-up
-- `oldsz` to `newsz` is mapped, `uvmalloc` does not panic. Either it returns `newsz` and has
-- mapped each of these pages for the user, with `xperm`, or it returns 0 and every address of
-- every address space is mapped as before. In both cases no other mapping changes.
pub uvmalloc_lem :
    (own : Owners) (m : Machine) (r oldsz newsz xperm : ℕ)
    → IsForest own m
    → IsRoot own r
    → oldsz ≤ newsz
    → newsz ≤ max_va
    → Unmapped m r (page_round_up oldsz) (pages_between (page_round_up oldsz) newsz)
    → Allocated own m r
        (page_round_up oldsz)
        (pages_between (page_round_up oldsz) newsz)
        newsz
        (18 + xperm)
        (uvmalloc m r oldsz newsz xperm)
unfolding uvmalloc
uvmalloc_lem own m r oldsz newsz xperm f root le h u =
    let up : ltb newsz oldsz ≡ false = ground (arith, le) in
    let start = page_round_up oldsz in
    let k = pages_between start newsz in
    let at : start ≡ start + 0 * 4096 = omega arith in
    rw up (
      subst
        (λ a. Allocated own m r start k newsz (18 + xperm) (alloc_from k m r a start newsz xperm))
        (sym at)
        (alloc_from_lem own m r start k root (omega arith) (omega (arith, h, le)) u k 0 own m newsz
          xperm (omega arith) f (λ p x o. o)
          (none-Added own m r start k root (omega arith) (omega (arith, h, le)) u m (18 + xperm)
            (λ r' va' root' h'. refl))))
