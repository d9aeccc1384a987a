-- ===== src/Vm/Undo.antt =====
-- kernel/vm.c: what `uvmalloc` does when memory has run out.
use os_study.Prelude.{
  ℕ, zero, suc, ◌+◌, ◌-◌, ◌*◌, ◌/◌, ◌%◌, ◌≤◌, ◌<◌, ◌≡◌, ◌⊎◌, refl, sym, ap, subst, ◌∙◌, Bool, true,
  false, some, Bool-cases, inl, inr, arith, leb, ltb, if◌then◌else◌, Outcome, ok, ◌>>=◌,
}
use os_study.Kalloc.{page_round_up}
use os_study.Vm.{Machine, max_va, pa2pte, with_valid}
use os_study.Vm.Space.{uvmunmap, uvmdealloc, undo_alloc}
use os_study.Vm.Pages.{in_pages, no_pages, last_page, page_of}
use os_study.Vm.Tree.{Owners, IsTree, IsRoot, pte_of, pte_of_page}
use os_study.Vm.MapPage.{entry_for}
use os_study.Vm.Map.{Unmapped}
use os_study.Vm.Unmap.{unmapped_lem}

-- The entry of an address, by whether its page was added with `perm`
abbrev pub Entry : Bool → ℕ → ℕ → ℕ → Type 0
Entry true perm old new = (frame : ℕ) × (new ≡ pa2pte frame (with_valid perm))
Entry false perm old new = new ≡ old

-- Between `m0` and `t` the `n` pages from `start` on were added to the space of `r`.
abbrev pub Added : Owners → Machine → Machine → ℕ → ℕ → ℕ → ℕ → Type 0
Added own m0 m1 r start n perm =
    (r' va' : ℕ)
    → IsRoot own r'
    → va' < max_va
    → Entry (in_pages r start n r' va') perm (pte_of m0.tables r' va') (pte_of m1.tables r' va')

pub record Allocated (own : Owners) (m0 : Machine) (r start k newsz perm : ℕ)
    (out : Outcome (ℕ × Machine)) : Type 0 where
  pub sz : ℕ
  pub m1 : Machine
  pub own1 : Owners
  pub added : ℕ
  pub result : out ≡ ok (sz, m1)
  pub tree : IsTree m1.tables own1
  pub keeps : (p : ℕ) (x : ℕ × ℕ × ℕ) → own p ≡ some x → own1 p ≡ some x
  pub size : ((sz ≡ newsz) × (added ≡ k)) ⊎ ((sz ≡ 0) × (added ≡ 0))
  pub maps : Added own m0 m1 r start added perm

dealloc_none :
    (m : Machine) (p oldsz newsz : ℕ) → oldsz ≤ newsz → uvmdealloc m p oldsz newsz ≡ ok (oldsz, m)
unfolding uvmdealloc
dealloc_none m p oldsz newsz h = let e : leb oldsz newsz ≡ true = ground (arith, h) in rw e refl

dealloc_pages :
    (m : Machine) (p start i : ℕ)
    → start % 4096 ≡ 0
    → uvmdealloc m p (start + suc i * 4096) start
      ≡ (uvmunmap m p start (suc i) true >>= λ m1. ok (start, m1))
unfolding uvmdealloc
dealloc_pages m p start i a =
    let e : leb (start + suc i * 4096) start ≡ false = ground arith in
    let s : page_round_up start ≡ start = omega (arith, a) in
    let t : page_round_up (start + suc i * 4096) ≡ start + suc i * 4096 = omega (arith, a) in
    let lt : ltb start (start + suc i * 4096) ≡ true = ground arith in
    let n : (start + suc i * 4096 - start) / 4096 ≡ suc i = omega arith in rw (e, s, t, lt, n) refl

module _ (own0 : Owners) (m0 : Machine) (r start k : ℕ) (root : IsRoot own0 r)
    (aligned : start % 4096 ≡ 0) (h : start + k * 4096 ≤ max_va) (u : Unmapped m0 r start k) where
  pub add_page :
      (m m1 : Machine) (perm i pa : ℕ)
      → Added own0 m0 m r start i perm
      → ((r' va' : ℕ)
          → IsRoot own0 r'
          → va' < max_va
          → pte_of m1.tables r' va' ≡ (
              if in_pages r (start + i * 4096) 1 r' va'
              then entry_for (start + i * 4096) pa perm va'
              else pte_of m.tables r' va'))
      → Added own0 m0 m1 r start (suc i) perm
  add_page m m1 perm i pa a f r' va' root' h' =
      subst (λ b. Entry b perm (pte_of m0.tables r' va') (pte_of m1.tables r' va'))
        (sym (last_page r start i r' va'))
        (elim (Bool-cases (in_pages r (start + i * 4096) 1 r' va')) [
          | inl hit ↦ rw hit (
            pa + (va' / 4096 - (start + i * 4096) / 4096) * 4096,
            f r' va' root' h' ∙ rw hit refl,
          )
          | inr miss ↦ rw miss (
              subst (λ y. Entry (in_pages r start i r' va') perm (pte_of m0.tables r' va') y)
                (sym (f r' va' root' h' ∙ rw miss refl)) (a r' va' root' h'))
        ])

  pub none-Added :
      (m1 : Machine) (perm : ℕ)
      → ((r' va' : ℕ)
          → IsRoot own0 r'
          → va' < max_va
          → pte_of m1.tables r' va' ≡ pte_of m0.tables r' va')
      → Added own0 m0 m1 r start 0 perm
  none-Added m1 perm f r' va' root' h' =
      let none_in : in_pages r start 0 r' va' ≡ false = ground arith in
      rw none_in (f r' va' root' h')

  was_unmapped :
      (i r' va' : ℕ) → i ≤ k → in_pages r start i r' va' ≡ true → pte_of m0.tables r' va' ≡ 0
  was_unmapped i r' va' le hit =
      let (er, j, lt, ej) = page_of r start i r' va' aligned hit in
      ap (λ p. pte_of m0.tables p va') (sym er)
      ∙ sym (pte_of_page m0.tables r (start + j * 4096) va' ej)
      ∙ u j (omega (arith, lt, le))

  restored :
      (own : Owners) (m : Machine) (i perm : ℕ)
      → ((p : ℕ) (x : ℕ × ℕ × ℕ) → own0 p ≡ some x → own p ≡ some x)
      → i ≤ k
      → Added own0 m0 m r start i perm
      → (m1 : Machine)
      → ((r' va' : ℕ)
          → IsRoot own r'
          → va' < max_va
          → pte_of m1.tables r' va'
            ≡ (if in_pages r start i r' va' then 0 else pte_of m.tables r' va'))
      → Added own0 m0 m1 r start 0 perm
  restored own m i perm keeps le a m1 f = none-Added m1 perm same
    where
      same :
          (r' va' : ℕ)
          → IsRoot own0 r'
          → va' < max_va
          → pte_of m1.tables r' va' ≡ pte_of m0.tables r' va'
      same r' va' root' h' =
          f r' va' (keeps r' (r', 2, 0) root') h' ∙ elim (Bool-cases (in_pages r start i r' va')) [
            | inl hit ↦ rw hit (sym (was_unmapped i r' va' le hit))
            | inr miss ↦ rw miss (
                subst (λ b. Entry b perm (pte_of m0.tables r' va') (pte_of m.tables r' va')) miss
                  (a r' va' root' h'))
          ]

  -- `uvmdealloc` of the `i` pages that were added restores the mappings.
  pub undo_lem :
      (own : Owners) (m : Machine) (i newsz perm : ℕ)
      → IsTree m.tables own
      → ((p : ℕ) (x : ℕ × ℕ × ℕ) → own0 p ≡ some x → own p ≡ some x)
      → i ≤ k
      → Added own0 m0 m r start i perm
      → Allocated own0 m0 r start k newsz perm (undo_alloc m r (start + i * 4096) start)
  undo_lem own m zero newsz perm tree keeps le a = record {
    sz = 0;
    m1 = m;
    own1 = own;
    added = 0;
    result = rw (dealloc_none m r (start + 0 * 4096) start (omega arith)) refl;
    tree = tree;
    keeps = keeps;
    size = inr (refl, refl);
    maps =
        restored own m 0 perm keeps le a m
          (λ r' va' root' h'. no_pages r start r' va' 0 (pte_of m.tables r' va'));
  }
  undo_lem own m (suc i) newsz perm tree keeps le a =
      let c =
        unmapped_lem own m r start (suc i) true tree (keeps r (r, 2, 0) root) aligned
          (omega (arith, h, le)) in
      record {
        sz = 0;
        m1 = c.m1;
        own1 = own;
        added = 0;
        result = rw (dealloc_pages m r start i aligned, c.result) refl;
        tree = c.tree;
        keeps = keeps;
        size = inr (refl, refl);
        maps = restored own m (suc i) perm keeps le a c.m1 c.maps;
      }
