-- ===== src/Vm/Unmap.antt =====
-- kernel/vm.c: what `uvmunmap` does to the mappings of all address spaces, and to the free pages.
use os_study.Prelude.{
  ℕ, zero, suc, ◌+◌, ◌*◌, ◌/◌, ◌%◌, ◌≤◌, ◌<◌, ◌≡◌, refl, sym, ap, ◌∙◌, Bool, true, false, Option,
  none, some, Bool-cases, inl, inr, List, ◌∷◌, arith, ◌==◌, ◌&&◌, if◌then◌else◌, Outcome, ok, eq→==,
}
use os_study.Kalloc.{page_size}
use os_study.Vm.{Machine, max_va, px, pte2pa, is_valid, set_entry, entry_at, kfree}
use os_study.Vm.Space.{unmap_at, unmap_page, unmap_from, uvmunmap}
use os_study.Vm.Pages.{in_pages, no_pages, choose, more, in_one_page, past_page}
use os_study.Vm.Tree.{
  Owners, IsTree, IsRoot, leaf_page, pte_in, pte_of, set_at, set_at-Above, leaf_of_root, pte_of-set,
  pte_of_page,
}
use os_study.Vm.Walk.{walk-find}
use os_study.Vm.MapPage.{Above-IsTree}

-- The frames of the `k` pages from `a` on, put before `free`.
abbrev frame_of : ℕ → Bool → List ℕ → List ℕ
frame_of pte do_free free = if do_free && is_valid pte then pte2pa pte ∷ free else free

unfoldable pub frames : (ℕ → ℕ) → ℕ → ℕ → Bool → List ℕ → List ℕ
frames pte_at zero a do_free free = free
frames pte_at (suc k) a do_free free =
    frames pte_at k (a + 4096) do_free (frame_of (pte_at a) do_free free)

-- `out` is what is left after the `k` pages from `a` on were unmapped.
pub record Cleared (own : Owners) (m : Machine) (r a k : ℕ) (do_free : Bool) (out : Outcome Machine)
    : Type 0 where
  pub m1 : Machine
  pub result : out ≡ ok m1
  pub tree : IsTree m1.tables own
  pub free : m1.free ≡ frames (pte_of m.tables r) k a do_free m.free
  pub bytes : m1.bytes ≡ m.bytes
  pub maps :
      (r' va' : ℕ)
      → IsRoot own r'
      → va' < max_va
      → pte_of m1.tables r' va' ≡ (if in_pages r a k r' va' then 0 else pte_of m.tables r' va')

absent :
    (t : ℕ → ℕ → ℕ) (r a r' va' : ℕ)
    → pte_of t r a ≡ 0
    → pte_of t r' va' ≡ (if in_pages r a 1 r' va' then 0 else pte_of t r' va')
absent t r a r' va' e = elim (Bool-cases (in_pages r a 1 r' va')) [
  | inl hit ↦
      (let (er, ep) = in_one_page r a r' va' hit in
        rw hit (ap (λ p. pte_of t p va') (sym er) ∙ sym (pte_of_page t r a va' ep) ∙ e))
  | inr miss ↦ rw miss refl
]

no_frame : (do_free : Bool) (free : List ℕ) → frame_of 0 do_free free ≡ free
no_frame true free = refl
no_frame false free = refl

module _ (own : Owners) (m : Machine) (r a : ℕ) (tree : IsTree m.tables own) (root : IsRoot own r)
    (h : a < max_va) where
  unchanged : (do_free : Bool) → pte_of m.tables r a ≡ 0 → Cleared own m r a 1 do_free (ok m)
  unfolding frames
  unchanged do_free e = record {
    m1 = m;
    result = refl;
    tree = tree;
    bytes = refl;
    free = sym (ap (λ x. frame_of x do_free m.free) e ∙ no_frame do_free m.free);
    maps = λ r' va' root' h'. absent m.tables r a r' va' e;
  }

  module _ (q : ℕ) (e : leaf_page m.tables 2 r a ≡ some q)
      (valid : is_valid (m.tables q (px 0 a)) ≡ true) where
    oq : own q ≡ some (r, 0, a / 2097152)
    oq = leaf_of_root m.tables own r a q tree root h e

    entry : pte_of m.tables r a ≡ m.tables q (px 0 a)
    entry = ap (pte_in m.tables a) e ∙ rw valid refl

    cleared-IsTree : IsTree (set_at m.tables q (px 0 a) 0) own
    cleared-IsTree =
        Above-IsTree own m.tables (set_at m.tables q (px 0 a) 0)
          (set_at-Above m.tables own q (px 0 a) 0 r (a / 2097152) oq) tree

    cleared-maps :
        (r' va' : ℕ)
        → IsRoot own r'
        → va' < max_va
        → pte_of (set_at m.tables q (px 0 a) 0) r' va'
          ≡ (if in_pages r a 1 r' va' then 0 else pte_of m.tables r' va')
    cleared-maps r' va' root' h' =
        pte_of-set m.tables own r a q 0 r' va' tree root root' h h' e
        ∙ choose (r == r') (a / 4096) (va' / 4096) 0 0 (pte_of m.tables r' va')
            (pte_of m.tables r' va') (λ _. refl) refl

    cleared :
        (do_free : Bool)
        → Cleared own m r a 1 do_free (
            ok (
              set_entry
                (if do_free then kfree m (pte2pa (m.tables q (px 0 a))) else m)
                q
                (px 0 a)
                0))
    unfolding frames
    cleared true = record {
      m1 = set_entry (kfree m (pte2pa (m.tables q (px 0 a)))) q (px 0 a) 0;
      result = refl;
      tree = cleared-IsTree;
      bytes = refl;
      free = sym (ap (λ x. frame_of x true m.free) entry ∙ rw valid refl);
      maps = cleared-maps;
    }
    cleared false = record {
      m1 = set_entry m q (px 0 a) 0;
      result = refl;
      tree = cleared-IsTree;
      bytes = refl;
      free = refl;
      maps = cleared-maps;
    }

  unmap_at_lem :
      (do_free : Bool) (o : Option ℕ)
      → leaf_page m.tables 2 r a ≡ o
      → Cleared own m r a 1 do_free (ok (unmap_at do_free m (entry_at (px 0 a) o)))
  unmap_at_lem do_free none e = unchanged do_free (ap (pte_in m.tables a) e)
  unmap_at_lem do_free (some q) e = elim (Bool-cases (is_valid (m.tables q (px 0 a)))) [
    | inl valid ↦ rw valid (cleared q e valid do_free)
    | inr off ↦ rw off (unchanged do_free (ap (pte_in m.tables a) e ∙ rw off refl))
  ]

  pub unmap_page_lem : (do_free : Bool) → Cleared own m r a 1 do_free (unmap_page m r a do_free)
  unfolding unmap_page
  unmap_page_lem do_free =
      rw (walk-find m r a h) (unmap_at_lem do_free (leaf_page m.tables 2 r a) refl)

-- Frames depend only on the entries of the pages.
frames-same :
    (f g : ℕ → ℕ) (k a : ℕ) (do_free : Bool) (free : List ℕ)
    → ((j : ℕ) → j < k → f (a + j * 4096) ≡ g (a + j * 4096))
    → frames f k a do_free free ≡ frames g k a do_free free
unfolding frames
frames-same f g zero a do_free free same = refl
frames-same f g (suc k) a do_free free same =
    ap (λ x. frames f k (a + 4096) do_free (frame_of x do_free free))
      (first f ∙ same 0 (omega arith) ∙ sym (first g))
    ∙ frames-same f g k (a + 4096) do_free (frame_of (g a) do_free free) rest
  where
    first : (f' : ℕ → ℕ) → f' a ≡ f' (a + 0 * 4096)
    first f' = ap f' (omega arith)

    rest : (j : ℕ) → j < k → f (a + 4096 + j * 4096) ≡ g (a + 4096 + j * 4096)
    rest j lt =
        let e : a + 4096 + j * 4096 ≡ a + suc j * 4096 = omega arith in
        ap f e ∙ same (suc j) (omega (arith, lt)) ∙ sym (ap g e)

clear_rest :
    (own : Owners) (m : Machine) (r a k : ℕ) (do_free : Bool) (first : Outcome Machine)
    (p : Cleared own m r a 1 do_free first) (out : Outcome Machine)
    → IsRoot own r
    → a + suc k * 4096 ≤ max_va
    → Cleared own p.m1 r (a + 4096) k do_free out
    → Cleared own m r a (suc k) do_free out
unfolding frames
clear_rest own m r a k do_free first p out root h t = record {
  m1 = t.m1;
  result = t.result;
  tree = t.tree;
  bytes = t.bytes ∙ p.bytes;
  free =
      t.free
      ∙ frames-same (pte_of p.m1.tables r) (pte_of m.tables r) k (a + 4096) do_free p.m1.free
          (λ j lt.
            p.maps r (a + 4096 + j * 4096) root (omega (arith, h, lt))
            ∙ rw (past_page r a j 1 refl) refl)
      ∙ ap (frames (pte_of m.tables r) k (a + 4096) do_free) p.free;
  maps = λ r' va' root' h'.
      t.maps r' va' root' h'
      ∙ ap (λ y. if in_pages r (a + 4096) k r' va' then 0 else y) (p.maps r' va' root' h')
      ∙ more r a k r' va' 0 0 (pte_of m.tables r' va') (λ _. refl);
}

pub unmap_from_lem :
    (k : ℕ) (own : Owners) (m : Machine) (r a : ℕ) (do_free : Bool)
    → IsTree m.tables own
    → IsRoot own r
    → a + k * 4096 ≤ max_va
    → Cleared own m r a k do_free (unmap_from k m r a do_free)
unfolding unmap_from frames
unmap_from_lem zero own m r a do_free tree root h = record {
  m1 = m;
  result = refl;
  tree = tree;
  bytes = refl;
  free = refl;
  maps = λ r' va' root' h'. no_pages r a r' va' 0 (pte_of m.tables r' va');
}
unmap_from_lem (suc k) own m r a do_free tree root h =
    let p = unmap_page_lem own m r a tree root (omega (arith, h)) do_free in
    rw (p.result) (
      clear_rest own m r a k do_free (unmap_page m r a do_free) p
        (unmap_from k p.m1 r (a + 4096) do_free) root h
        (unmap_from_lem k own p.m1 r (a + 4096) do_free p.tree root (omega (arith, h))))

pub unmapped_lem :
    (own : Owners) (m : Machine) (r va npages : ℕ) (do_free : Bool)
    → IsTree m.tables own
    → IsRoot own r
    → va % page_size ≡ 0
    → va + npages * page_size ≤ max_va
    → Cleared own m r va npages do_free (uvmunmap m r va npages do_free)
unfolding uvmunmap
unmapped_lem own m r va npages do_free tree root a h =
    rw (eq→== (va % page_size) 0 a) (unmap_from_lem npages own m r va do_free tree root h)

no_frames : (pte_at : ℕ → ℕ) (k a : ℕ) (free : List ℕ) → frames pte_at k a false free ≡ free
unfolding frames
no_frames pte_at zero a free = refl
no_frames pte_at (suc k) a free = no_frames pte_at k (a + 4096) free

-- What is left after the `k` pages from `a` on were unmapped and their frames kept.
pub record Kept (own : Owners) (m : Machine) (r a k : ℕ) (out : Outcome Machine) : Type 0 where
  pub m1 : Machine
  pub result : out ≡ ok m1
  pub tree : IsTree m1.tables own
  pub free : m1.free ≡ m.free
  pub bytes : m1.bytes ≡ m.bytes
  pub maps :
      (r' va' : ℕ)
      → IsRoot own r'
      → va' < max_va
      → pte_of m1.tables r' va' ≡ (if in_pages r a k r' va' then 0 else pte_of m.tables r' va')

-- Without `do_free`, `uvmunmap` of an aligned range below `MAXVA` ends without panic, whether its
-- pages are mapped or not: each page of the range is unmapped, no other mapping of any address space
-- changes, the page tables stay trees on pages of their own, and the free pages and the contents of
-- all pages are as before.
pub uvmunmap_lem :
    (own : Owners) (m : Machine) (r va npages : ℕ)
    → IsTree m.tables own
    → IsRoot own r
    → va % page_size ≡ 0
    → va + npages * page_size ≤ max_va
    → Kept own m r va npages (uvmunmap m r va npages false)
uvmunmap_lem own m r va npages tree root a h =
    let c = unmapped_lem own m r va npages false tree root a h in
    record {
      m1 = c.m1;
      result = c.result;
      tree = c.tree;
      free = c.free ∙ no_frames (pte_of m.tables r) npages va m.free;
      bytes = c.bytes;
      maps = c.maps;
    }
