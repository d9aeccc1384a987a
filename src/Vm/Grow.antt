-- ===== src/Vm/Grow.antt =====
-- kernel/vm.c: a new page-table page, of zeroes.
use os_study.Prelude.{
  ℕ, zero, suc, ◌+◌, ◌*◌, ◌%◌, ◌≡◌, ◌≢◌, refl, sym, ap, ap₂, ◌∙◌, true, false, true≢false, Option,
  none, some, none-ne-some, some-injective, Bool-cases, inl, inr, arith, ◌==◌, ◌&&◌, update,
  update_self, update_ne, ==→eq, ==→ne,
}
use os_study.Vm.{px, pa2pte, pte2pa, is_valid}
use os_study.Vm.Tree.{Owners, IsTree, leaf_page, pte_in, px_lt, set_at}

-- The tables after a page `q` of zeroes was put below entry `i` of page `p`.
unfoldable pub grown : (ℕ → ℕ → ℕ) → ℕ → ℕ → ℕ → ℕ → ℕ → ℕ
grown t q p i = set_at (update t q (λ j. 0)) p i (pa2pte q 1)

grown_new : (t : ℕ → ℕ → ℕ) (q p i j : ℕ) → q ≢ p → grown t q p i q j ≡ 0
unfolding grown
grown_new t q p i j h = ground (arith, h)

pub grown_other :
    (t : ℕ → ℕ → ℕ) (q p i p' j : ℕ) → q ≢ p' → (p ≡ p' → i ≢ j) → grown t q p i p' j ≡ t p' j
unfolding grown
grown_other t q p i p' j h k = ground (arith, h, k)

pub grown_at : (t : ℕ → ℕ → ℕ) (q p i : ℕ) → grown t q p i p i ≡ pa2pte q 1
unfolding grown
grown_at t q p i = ground arith

pub new_entry : (q : ℕ) → q % 4096 ≡ 0 → (is_valid (pa2pte q 1) ≡ true) × (pte2pa (pa2pte q 1) ≡ q)
new_entry q h = let e : pa2pte q 1 % 2 ≡ 1 = omega arith in (ground (arith, e), omega arith)

abbrev part_of : ℕ → ℕ → ℕ → Option (ℕ × ℕ × ℕ)
part_of r l v = some (r, l, v)

same_entry :
    (r l v r' l' v' i j : ℕ)
    → part_of r (suc l) v ≡ part_of r' (suc l') v'
    → i ≡ j
    → part_of r l (v * 512 + i) ≡ part_of r' l' (v' * 512 + j)
same_entry r l v r' l' v' i j e ei =
    let s = some-injective (r, suc l, v) (r', suc l', v') e in
    let er : r ≡ r' = ap (λ x. x.0) s in
    let el : l ≡ l' = omega (arith, ap (λ x. x.1) s) in
    let ev : v * 512 + i ≡ v' * 512 + j = omega (arith, ap (λ x. x.2) s, ei) in rw (er, el, ev) refl

level_ne :
    (own : Owners) (p p' r l v r' v' : ℕ)
    → own p ≡ some (r, suc l, v)
    → own p' ≡ some (r', 0, v')
    → p ≢ p'
level_ne own p p' r l v r' v' o o' e =
    let s : part_of r (suc l) v ≡ part_of r' 0 v' = sym o ∙ ap own e ∙ o' in
    let el : suc l ≡ 0 = ap (λ x. x.1) (some-injective (r, suc l, v) (r', 0, v') s) in
    omega (arith, el)

both : (a b i j : ℕ) → ((a == b) && (i == j)) ≡ true → (a ≡ b) × (i ≡ j)
both a b i j h = ground (arith, h)

not_both : (a b i j : ℕ) → ((a == b) && (i == j)) ≡ false → a ≡ b → i ≢ j
not_both a b i j h e e' = ground (arith, h, e, e')

pub unowned_ne : (own : Owners) (q p : ℕ) (x : ℕ × ℕ × ℕ) → own q ≡ none → own p ≡ some x → q ≢ p
unowned_ne own q p x e o h = none-ne-some x (sym e ∙ ap own h ∙ o)

invalid_zero : is_valid 0 ≡ false
invalid_zero = refl

module _ (t : ℕ → ℕ → ℕ) (own : Owners) (q p i r l v : ℕ) (tree : IsTree t own)
    (there : own p ≡ some (r, suc l, v)) (new : own q ≡ none) (aligned : q % 4096 ≡ 0)
    (invalid : is_valid (t p i) ≡ false) where
  abbrev pub own_new : Owners
  own_new = update own q (some (r, l, v * 512 + i))

  q_ne_p : q ≢ p
  q_ne_p = unowned_ne own q p (r, suc l, v) new there

  pub grown-IsTree : IsTree (grown t q p i) own_new
  grown-IsTree p' r' l' v' j o h valid = elim (Bool-cases (q == p')) [
    | inl e ↦
        (let z : grown t q p i p' j ≡ 0 =
            ap (λ x. grown t q p i x j) (sym (==→eq q p' e)) ∙ grown_new t q p i j q_ne_p in
          absurd (true≢false (sym valid ∙ ap is_valid z)))
    | inr e ↦
        (let q_ne : q ≢ p' = ==→ne q p' e in
          let o' : own p' ≡ some (r', suc l', v') =
            sym (update_ne own q p' (some (r, l, v * 512 + i)) q_ne) ∙ o in
          elim (Bool-cases ((p == p') && (i == j))) [
            | inl hit ↦
                (let (ep, ei) = both p p' i j hit in
                  let z : grown t q p i p' j ≡ pa2pte q 1 =
                    ap₂ (λ a b. grown t q p i a b) (sym ep) (sym ei) ∙ grown_at t q p i in
                  ap own_new (ap pte2pa z ∙ (new_entry q aligned).1)
                  ∙ update_self own q (some (r, l, v * 512 + i))
                  ∙ same_entry r l v r' l' v' i j (sym there ∙ ap own ep ∙ o') ei)
            | inr miss ↦
                (let z : grown t q p i p' j ≡ t p' j =
                    grown_other t q p i p' j q_ne (not_both p p' i j miss) in
                  let o2 = tree p' r' l' v' j o' h (sym (ap is_valid z) ∙ valid) in
                  ap (λ x. own_new (pte2pa x)) z
                  ∙ update_ne own q (pte2pa (t p' j)) (some (r, l, v * 512 + i))
                      (unowned_ne own q (pte2pa (t p' j)) (r', l', v' * 512 + j) new o2)
                  ∙ o2)
          ])
  ]

  zeroed-maps : (l' va : ℕ) → pte_in (grown t q p i) va (leaf_page (grown t q p i) l' q va) ≡ 0
  unfolding leaf_page
  zeroed-maps zero va = rw (grown_new t q p i (px 0 va) q_ne_p) refl
  zeroed-maps (suc l') va = rw (grown_new t q p i (px (suc l') va) q_ne_p) refl

  pub grown-maps :
      (l' p' r' v' va : ℕ)
      → own p' ≡ some (r', l', v')
      → pte_in (grown t q p i) va (leaf_page (grown t q p i) l' p' va)
        ≡ pte_in t va (leaf_page t l' p' va)
  unfolding leaf_page
  grown-maps zero p' r' v' va o =
      let q_ne = unowned_ne own q p' (r', 0, v') new o in
      let other : p ≡ p' → i ≢ px 0 va = λ e. absurd (level_ne own p p' r l v r' v' there o e) in
      rw (grown_other t q p i p' (px 0 va) q_ne other) refl
  grown-maps (suc l') p' r' v' va o =
      let q_ne = unowned_ne own q p' (r', suc l', v') new o in
      elim (Bool-cases ((p == p') && (i == px (suc l') va))) [
        | inl hit ↦
            (let (ep, ei) = both p p' i (px (suc l') va) hit in
              let z : grown t q p i p' (px (suc l') va) ≡ pa2pte q 1 =
                ap₂ (λ a b. grown t q p i a b) (sym ep) (sym ei) ∙ grown_at t q p i in
              let off : is_valid (t p' (px (suc l') va)) ≡ false =
                ap₂ (λ a b. is_valid (t a b)) (sym ep) (sym ei) ∙ invalid in
              rw (z, (new_entry q aligned).0, (new_entry q aligned).1, off) (zeroed-maps l' va))
        | inr miss ↦
            rw
              (grown_other t q p i p' (px (suc l') va) q_ne (not_both p p' i (px (suc l') va) miss))
              (elim (Bool-cases (is_valid (t p' (px (suc l') va)))) [
                | inl valid ↦ rw valid (
                    grown-maps l' (pte2pa (t p' (px (suc l') va))) r' (v' * 512 + px (suc l') va) va
                      (tree p' r' l' v' (px (suc l') va) o (px_lt (suc l') va) valid))
                | inr off ↦ rw off refl
              ])
      ]
