-- ===== src/Vm/Tree.antt =====
-- kernel/vm.c: the pages that make up page tables. `own p` says of which table (its root page) the
-- page is a part, at which level, and for which addresses: for `va / 4096 / 512 ^ (level + 1)`.
use os_study.Prelude.{
  ℕ, zero, suc, ◌+◌, ◌*◌, ◌/◌, ◌%◌, ◌<◌, ◌≡◌, ◌≢◌, refl, sym, ap, ◌∙◌, true, false, ◌^◌, Option,
  none, some, none-ne-some, some-injective, Bool-cases, Option-cases, inl, inr, List, [], ◌∷◌,
  arith, ◌==◌, ◌&&◌, if◌then◌else◌, update,
}
use os_study.Kalloc.Frames.{Fresh}
use os_study.Vm.{max_va, px, pte2pa, is_valid}

abbrev pub Owners : Type 0
Owners = ℕ → Option (ℕ × ℕ × ℕ)

-- Each valid entry above level 0 points to the page for its addresses.
abbrev pub IsTree : (ℕ → ℕ → ℕ) → Owners → Type 0
IsTree t own =
    (p r l v i : ℕ)
    → own p ≡ some (r, suc l, v)
    → i < 512
    → is_valid (t p i) ≡ true
    → own (pte2pa (t p i)) ≡ some (r, l, v * 512 + i)

-- The pages of a free list are distinct, aligned, and part of no page table.
unfoldable pub FreePages : Owners → List ℕ → Type 0
FreePages own [] = Unit {0}
FreePages own (q ∷ qs) = (own q ≡ none) × (q % 4096 ≡ 0) × Fresh q qs × FreePages own qs

abbrev pub IsRoot : Owners → ℕ → Type 0
IsRoot own r = own r ≡ some (r, 2, 0)

-- The page of level 0 on the way to `va`, from page `p` of level `l` on.
unfoldable pub leaf_page : (ℕ → ℕ → ℕ) → ℕ → ℕ → ℕ → Option ℕ
leaf_page t zero p va = some p
leaf_page t (suc l) p va =
    let rest = leaf_page t l (pte2pa (t p (px (suc l) va))) va in
    if is_valid (t p (px (suc l) va)) then rest else none

-- An entry as a mapping: 0 unless it is valid.
abbrev pub mapping : ℕ → ℕ
mapping pte = if is_valid pte then pte else 0

abbrev pub pte_in : (ℕ → ℕ → ℕ) → ℕ → Option ℕ → ℕ
pte_in t va none = 0
pte_in t va (some q) = mapping (t q (px 0 va))

-- What the page table with root `r` maps `va` to.
abbrev pub pte_of : (ℕ → ℕ → ℕ) → ℕ → ℕ → ℕ
pte_of t r va = pte_in t va (leaf_page t 2 r va)

pub px_lt : (l va : ℕ) → px l va < 512
px_lt zero va = omega arith
px_lt (suc zero) va = omega arith
px_lt (suc (suc l)) va = omega arith

pub leaf_page-valid :
    (t : ℕ → ℕ → ℕ) (l p va : ℕ)
    → is_valid (t p (px (suc l) va)) ≡ true
    → leaf_page t (suc l) p va ≡ leaf_page t l (pte2pa (t p (px (suc l) va))) va
unfolding leaf_page
leaf_page-valid t l p va h = rw h refl

pub leaf_page_here : (t : ℕ → ℕ → ℕ) (p va : ℕ) → leaf_page t 0 p va ≡ some p
unfolding leaf_page
leaf_page_here t p va = refl

pub leaf_page-invalid :
    (t : ℕ → ℕ → ℕ) (l p va : ℕ)
    → is_valid (t p (px (suc l) va)) ≡ false
    → leaf_page t (suc l) p va ≡ none
unfolding leaf_page
leaf_page-invalid t l p va h = rw h refl

abbrev pub prefix : ℕ → ℕ → ℕ → ℕ
prefix zero v va = v
prefix (suc l) v va = prefix l (v * 512 + px (suc l) va) va

pub leaf_page-own :
    (t : ℕ → ℕ → ℕ) (own : Owners) (l p r v va q : ℕ)
    → IsTree t own
    → own p ≡ some (r, l, v)
    → leaf_page t l p va ≡ some q
    → own q ≡ some (r, 0, prefix l v va)
unfolding leaf_page
leaf_page-own t own zero p r v va q tree o e = ground (arith, o, e)
leaf_page-own t own (suc l) p r v va q tree o e =
    elim (Bool-cases (is_valid (t p (px (suc l) va)))) [
      | inl valid ↦
          leaf_page-own t own l (pte2pa (t p (px (suc l) va))) r (v * 512 + px (suc l) va) va q tree
            (tree p r l v (px (suc l) va) o (px_lt (suc l) va) valid)
            (sym (leaf_page-valid t l p va valid) ∙ e)
      | inr invalid ↦ absurd (none-ne-some q (sym (leaf_page-invalid t l p va invalid) ∙ e))
    ]

-- Changing entries of pages that are not on the way leaves the way alone.
abbrev pub Above : Owners → (ℕ → ℕ → ℕ) → (ℕ → ℕ → ℕ) → Type 0
Above own t t' = (p r l v i : ℕ) → own p ≡ some (r, suc l, v) → t' p i ≡ t p i

pub leaf_page-same :
    (t t' : ℕ → ℕ → ℕ) (own : Owners) (l p r v va : ℕ)
    → IsTree t own
    → Above own t t'
    → own p ≡ some (r, l, v)
    → leaf_page t' l p va ≡ leaf_page t l p va
unfolding leaf_page
leaf_page-same t t' own zero p r v va tree same o = refl
leaf_page-same t t' own (suc l) p r v va tree same o =
    rw (same p r l v (px (suc l) va) o) (elim (Bool-cases (is_valid (t p (px (suc l) va)))) [
      | inl valid ↦ rw valid (
          leaf_page-same t t' own l (pte2pa (t p (px (suc l) va))) r (v * 512 + px (suc l) va) va
            tree same (tree p r l v (px (suc l) va) o (px_lt (suc l) va) valid))
      | inr invalid ↦ rw invalid refl
    ])

-- A page-table page of level 0 holds the entries of one region.
prefix_of : (va : ℕ) → va < 2 ^ 38 → prefix 2 0 va ≡ va / 2097152
prefix_of va h = omega arith

px_page : (l va va' : ℕ) → va / 4096 ≡ va' / 4096 → px l va ≡ px l va'
px_page zero va va' e = omega arith
px_page (suc zero) va va' e = omega arith
px_page (suc (suc l)) va va' e = omega arith

leaf_page_page :
    (t : ℕ → ℕ → ℕ) (l p va va' : ℕ)
    → va / 4096 ≡ va' / 4096
    → leaf_page t l p va ≡ leaf_page t l p va'
unfolding leaf_page
leaf_page_page t zero p va va' e = refl
leaf_page_page t (suc l) p va va' e =
    rw (px_page (suc l) va va' e, leaf_page_page t l (pte2pa (t p (px (suc l) va'))) va va' e) refl

abbrev pub set_at : (ℕ → ℕ → ℕ) → ℕ → ℕ → ℕ → ℕ → ℕ → ℕ
set_at t q i pte = update t q (update (t q) i pte)

pub set_at_hit : (t : ℕ → ℕ → ℕ) (q i pte j : ℕ) → i ≡ j → set_at t q i pte q j ≡ pte
set_at_hit t q i pte j e = ground (arith, e)

pub set_at_miss :
    (t : ℕ → ℕ → ℕ) (q i pte q' j : ℕ) → (q ≡ q' → i ≢ j) → set_at t q i pte q' j ≡ t q' j
set_at_miss t q i pte q' j h = ground (arith, h)

-- A page of level 0 is none of a level above it.
pub set_at-Above :
    (t : ℕ → ℕ → ℕ) (own : Owners) (q i pte r v : ℕ)
    → own q ≡ some (r, 0, v)
    → Above own t (set_at t q i pte)
set_at-Above t own q i pte r v o p r' l v' j o' =
    set_at_miss t q i pte p j (λ e. absurd (cc (o, o', e)))

pub leaf_of_root :
    (t : ℕ → ℕ → ℕ) (own : Owners) (r va q : ℕ)
    → IsTree t own
    → IsRoot own r
    → va < max_va
    → leaf_page t 2 r va ≡ some q
    → own q ≡ some (r, 0, va / 2097152)
leaf_of_root t own r va q tree root h e =
    leaf_page-own t own 2 r r 0 va q tree root e ∙ ap (λ v. some (r, 0, v)) (prefix_of va h)

same_region :
    (own : Owners) (q r v r' v' : ℕ)
    → own q ≡ some (r, 0, v)
    → own q ≡ some (r', 0, v')
    → (r ≡ r') × (v ≡ v')
same_region own q r v r' v' e e' =
    let w : some (r, 0, v) ≡ some (r', 0, v') = sym e ∙ e' in
    let s = some-injective (r, 0, v) (r', 0, v') w in (ap (λ x. x.0) s, ap (λ x. x.2) s)

same_page : (r r' a b : ℕ) → ((r == r') && (a == b)) ≡ true → (r ≡ r') × (a ≡ b)
same_page r r' a b h = ground (arith, h)

not_same_page :
    (r r' va va' : ℕ)
    → ((r == r') && (va / 4096 == va' / 4096)) ≡ false
    → r ≡ r'
    → va / 2097152 ≡ va' / 2097152
    → px 0 va ≢ px 0 va'
not_same_page r r' va va' h e e' j =
    let a : va / 4096 ≡ va' / 4096 = omega (arith, e', j) in ground (arith, h, e, a)

-- Lemma: an entry of a page of level 0 changes what one page of one address space maps to.
pub pte_of-set :
    (t : ℕ → ℕ → ℕ) (own : Owners) (r va q pte r' va' : ℕ)
    → IsTree t own
    → IsRoot own r
    → IsRoot own r'
    → va < max_va
    → va' < max_va
    → leaf_page t 2 r va ≡ some q
    → pte_of (set_at t q (px 0 va) pte) r' va'
      ≡ (if (r == r') && (va / 4096 == va' / 4096) then mapping pte else pte_of t r' va')
pte_of-set t own r va q pte r' va' tree root root' h h' e =
    let oq = leaf_of_root t own r va q tree root h e in
    rw
      (leaf_page-same t (set_at t q (px 0 va) pte) own 2 r' r' 0 va' tree
        (set_at-Above t own q (px 0 va) pte r (va / 2097152) oq) root')
      (elim (Bool-cases ((r == r') && (va / 4096 == va' / 4096))) [
        | inl hit ↦
            (let (er, ep) = same_page r r' (va / 4096) (va' / 4096) hit in
              let there : leaf_page t 2 r' va' ≡ some q =
                ap (λ p. leaf_page t 2 p va') (sym er) ∙ sym (leaf_page_page t 2 r va va' ep) ∙ e in
              rw (hit, there)
                (ap mapping (set_at_hit t q (px 0 va) pte (px 0 va') (px_page 0 va va' ep))))
        | inr miss ↦ elim (Option-cases (leaf_page t 2 r' va')) [
          | inl none_there ↦ rw (miss, none_there) refl
          | inr (q', e') ↦
              (let oq' = leaf_of_root t own r' va' q' tree root' h' e' in
                let apart : q ≡ q' → px 0 va ≢ px 0 va' = λ eq.
                  let o' : own q ≡ some (r', 0, va' / 2097152) = ap own eq ∙ oq' in
                  let (er, ev) = same_region own q r (va / 2097152) r' (va' / 2097152) oq o' in
                  not_same_page r r' va va' miss er ev in
                rw (miss, e') (ap mapping (set_at_miss t q (px 0 va) pte q' (px 0 va') apart)))
        ]
      ])

-- The addresses of a page have one entry.
pub pte_of_page :
    (t : ℕ → ℕ → ℕ) (r va va' : ℕ) → va / 4096 ≡ va' / 4096 → pte_of t r va ≡ pte_of t r va'
pte_of_page t r va va' e =
    ap (pte_in t va) (leaf_page_page t 2 r va va' e) ∙ in_page (leaf_page t 2 r va')
  where
    in_page : (o : Option ℕ) → pte_in t va o ≡ pte_in t va' o
    in_page none = refl
    in_page (some q) = ap (λ i. mapping (t q i)) (px_page 0 va va' e)
