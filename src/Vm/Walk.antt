-- ===== src/Vm/Walk.antt =====
-- kernel/vm.c: `walk`, with the page-table pages that it adds.
use os_study.Prelude.{
  ℕ, suc, ◌+◌, ◌*◌, ◌<◌, ◌≡◌, ◌≢◌, refl, sym, ap, ap₂, subst, ◌∙◌, Bool, true, false, Option, none,
  some, none-ne-some, some-injective, true≢false, Bool-cases, inl, inr, List, [], ◌∷◌, arith, leb,
  if◌then◌else◌, update, update_ne, ok,
}
use os_study.Kalloc.Frames.{Fresh}
use os_study.Vm.{
  Machine, max_va, px, pa2pte, pte2pa, is_valid, zero_page, kalloc, grow_with, step_down, then_down,
  entry_at, descend, walk,
}
use os_study.Vm.Tree.{
  Owners, IsTree, FreePages, IsRoot, leaf_page, leaf_page-valid, leaf_page_here, pte_in, px_lt,
}
use os_study.Vm.Grow.{
  grown, grown_at, grown_other, new_entry, unowned_ne, own_new, grown-IsTree, grown-maps,
}

-- The pages of page tables have owners, and the free pages are none of them.
pub record IsForest (own : Owners) (m : Machine) : Type 0 where
  pub tree : IsTree m.tables own
  pub free : FreePages own m.free

-- More page-table pages, with the entries and the mappings of the old ones.
pub record Extends (own : Owners) (t : ℕ → ℕ → ℕ) (own1 : Owners) (t1 : ℕ → ℕ → ℕ) : Type 0 where
  pub keeps : (p : ℕ) (x : ℕ × ℕ × ℕ) → own p ≡ some x → own1 p ≡ some x
  pub entries :
      (p i : ℕ) (x : ℕ × ℕ × ℕ) → own p ≡ some x → is_valid (t p i) ≡ true → t1 p i ≡ t p i
  pub maps :
      (l p r v va : ℕ)
      → own p ≡ some (r, l, v)
      → pte_in t1 va (leaf_page t1 l p va) ≡ pte_in t va (leaf_page t l p va)

pub Extends-refl : (own : Owners) (t : ℕ → ℕ → ℕ) → Extends own t own t
Extends-refl own t = record {
  keeps = λ p x o. o;
  entries = λ p i x o v. refl;
  maps = λ l p r v va o. refl;
}

pub Extends-trans :
    (own : Owners) (t : ℕ → ℕ → ℕ) (own1 : Owners) (t1 : ℕ → ℕ → ℕ) (own2 : Owners) (t2 : ℕ → ℕ → ℕ)
    → Extends own t own1 t1
    → Extends own1 t1 own2 t2
    → Extends own t own2 t2
Extends-trans own t own1 t1 own2 t2 e f = record {
  keeps = λ p x o. f.keeps p x (e.keeps p x o);
  entries = λ p i x o v.
      f.entries p i x (e.keeps p x o) (ap is_valid (e.entries p i x o v) ∙ v) ∙ e.entries p i x o v;
  maps = λ l p r v va o. f.maps l p r v va (e.keeps p (r, l, v) o) ∙ e.maps l p r v va o;
}

pub FreePages-own :
    (own : Owners) (q : ℕ) (x : Option (ℕ × ℕ × ℕ)) (qs : List ℕ)
    → Fresh q qs
    → FreePages own qs
    → FreePages (update own q x) qs
unfolding FreePages
FreePages-own own q x [] new f = tt
FreePages-own own q x (p ∷ qs) new (o, a, d, f) =
    (update_ne own q p x new.0 ∙ o, a, d, FreePages-own own q x qs new.1 f)

-- After one round of `walk` at entry `i` of page `p`
pub record Stepped (own : Owners) (m : Machine) (p i : ℕ) (o : Option ℕ) (m1 : Machine)
    : Type 0 where
  pub own1 : Owners
  pub forest : IsForest own1 m1
  pub extends : Extends own m.tables own1 m1.tables
  pub zeros : (a : ℕ) → m.bytes a ≡ 0 → m1.bytes a ≡ 0
  pub ran_out : o ≡ none → m1.free ≡ []
  pub found :
      (q : ℕ) → o ≡ some q → (is_valid (m1.tables p i) ≡ true) × (pte2pa (m1.tables p i) ≡ q)

pub zero_page-zeros : (m : Machine) (q a : ℕ) → m.bytes a ≡ 0 → (zero_page m q).bytes a ≡ 0
zero_page-zeros m q a z = ground (arith, z)

same_machine :
    (own : Owners) (m : Machine) (p i : ℕ) (o : Option ℕ)
    → IsForest own m
    → ((q : ℕ) → o ≡ some q → (is_valid (m.tables p i) ≡ true) × (pte2pa (m.tables p i) ≡ q))
    → (o ≡ none → m.free ≡ [])
    → Stepped own m p i o m
same_machine own m p i o f found ran_out = record {
  ran_out = ran_out;
  own1 = own;
  forest = f;
  extends = Extends-refl own m.tables;
  zeros = λ a z. z;
  found = found;
}

pub kalloc-none : (m : Machine) → m.free ≡ [] → kalloc m ≡ (none, m)
kalloc-none m e = rw e refl

pub kalloc-some :
    (m : Machine) (q : ℕ) (qs : List ℕ)
    → m.free ≡ q ∷ qs
    → kalloc m ≡ (some q, record m { free = qs })
kalloc-some m q qs e = rw e refl

grow_lem :
    (own : Owners) (m : Machine) (p r l v i : ℕ) (fs : List ℕ)
    → m.free ≡ fs
    → IsForest own m
    → own p ≡ some (r, suc l, v)
    → i < 512
    → is_valid (m.tables p i) ≡ false
    → Stepped own m p i (grow_with p i (kalloc m)).0 (grow_with p i (kalloc m)).1
unfolding FreePages grown
grow_lem own m p r l v i [] e f o h off =
    subst (λ k. Stepped own m p i (grow_with p i k).0 (grow_with p i k).1) (sym (kalloc-none m e))
      (same_machine own m p i none f (λ q z. absurd (none-ne-some q z)) (λ _. e))
grow_lem own m p r l v i (q ∷ qs) e f o h off =
    let (new, aligned, fresh, rest) : FreePages own (q ∷ qs) = subst (FreePages own) e f.free in
    let q_ne : q ≢ p = unowned_ne own q p (r, suc l, v) new o in
    let at : grown m.tables q p i p i ≡ pa2pte q 1 = grown_at m.tables q p i in
    subst (λ k. Stepped own m p i (grow_with p i k).0 (grow_with p i k).1)
      (sym (kalloc-some m q qs e))
      (record {
        own1 = own_new m.tables own q p i r l v f.tree o new aligned off;
        forest = record {
          tree = grown-IsTree m.tables own q p i r l v f.tree o new aligned off;
          free = FreePages-own own q (some (r, l, v * 512 + i)) qs fresh rest;
        };
        extends = record {
          keeps = λ p' x o'.
              update_ne own q p' (some (r, l, v * 512 + i)) (unowned_ne own q p' x new o') ∙ o';
          entries = λ p' j x o' valid.
              grown_other m.tables q p i p' j (unowned_ne own q p' x new o') (λ ep ei.
                true≢false
                  (sym valid ∙ ap₂ (λ a b. is_valid (m.tables a b)) (sym ep) (sym ei) ∙ off));
          maps = λ l' p' r' v' va.
              grown-maps m.tables own q p i r l v f.tree o new aligned off l' p' r' v' va;
        };
        zeros = λ a z. zero_page-zeros m q a z;
        ran_out = λ z. absurd (none-ne-some q (sym z));
        found = λ q' z.
            let eq : q ≡ q' = some-injective q q' z in
            let (valid, back) = new_entry q aligned in
            (ap is_valid at ∙ valid, ap pte2pa at ∙ back ∙ eq);
      })

step_down_lem :
    (own : Owners) (m : Machine) (p r l v i : ℕ)
    → IsForest own m
    → own p ≡ some (r, suc l, v)
    → i < 512
    → Stepped own m p i (step_down m p i true).0 (step_down m p i true).1
unfolding step_down
step_down_lem own m p r l v i f o h = elim (Bool-cases (is_valid (m.tables p i))) [
  | inl valid ↦ rw valid (
      same_machine own m p i (some (pte2pa (m.tables p i))) f
        (λ q z. (valid, some-injective (pte2pa (m.tables p i)) q z))
        (λ z. absurd (none-ne-some (pte2pa (m.tables p i)) (sym z))))
  | inr off ↦ rw off (grow_lem own m p r l v i m.free refl f o h off)
]

-- After `walk` with `alloc`, which found the page `o` of level 0 for `va`
pub record Walked (own : Owners) (m : Machine) (r va : ℕ) (o : Option ℕ) (m1 : Machine)
    : Type 0 where
  pub own1 : Owners
  pub forest : IsForest own1 m1
  pub extends : Extends own m.tables own1 m1.tables
  pub zeros : (a : ℕ) → m.bytes a ≡ 0 → m1.bytes a ≡ 0
  pub ran_out : o ≡ none → m1.free ≡ []
  pub found : (q : ℕ) → o ≡ some q → leaf_page m1.tables 2 r va ≡ some q

second_step :
    (own : Owners) (m : Machine) (r va : ℕ) (o : Option ℕ) (m1 : Machine)
    → IsRoot own r
    → Stepped own m r (px 2 va) o m1
    → Walked own m r va (then_down (px 1 va) true (o, m1)).0 (then_down (px 1 va) true (o, m1)).1
second_step own m r va none m1 root s = record {
  own1 = s.own1;
  forest = s.forest;
  extends = s.extends;
  zeros = s.zeros;
  ran_out = s.ran_out;
  found = λ q z. absurd (none-ne-some q z);
}
second_step own m r va (some p) m1 root s =
    let (valid, back) = s.found p refl in
    let root1 : IsRoot s.own1 r = s.extends.keeps r (r, 2, 0) root in
    let op : s.own1 p ≡ some (r, 1, 0 * 512 + px 2 va) =
      ap s.own1 (sym back) ∙ s.forest.tree r r 1 0 (px 2 va) root1 (px_lt 2 va) valid in
    let t = step_down_lem s.own1 m1 p r 0 (0 * 512 + px 2 va) (px 1 va) s.forest op (px_lt 1 va) in
    let m2 = (step_down m1 p (px 1 va) true).1 in
    let same : m2.tables r (px 2 va) ≡ m1.tables r (px 2 va) =
      t.extends.entries r (px 2 va) (r, 2, 0) root1 valid in
    record {
      own1 = t.own1;
      forest = t.forest;
      extends = Extends-trans own m.tables s.own1 m1.tables t.own1 m2.tables s.extends t.extends;
      zeros = λ a z. t.zeros a (s.zeros a z);
      ran_out = t.ran_out;
      found = λ q z.
          let (valid2, back2) = t.found q z in
          leaf_page-valid m2.tables 1 r va (ap is_valid same ∙ valid)
          ∙ ap (λ a. leaf_page m2.tables 1 a va) (ap pte2pa same ∙ back)
          ∙ leaf_page-valid m2.tables 0 p va valid2
          ∙ leaf_page_here m2.tables (pte2pa (m2.tables p (px 1 va))) va
          ∙ ap (λ x. some x) back2;
    }

pub walk-alloc :
    (own : Owners) (m : Machine) (r va : ℕ)
    → IsForest own m
    → IsRoot own r
    → Walked own m r va (descend m r va true).0 (descend m r va true).1
unfolding descend
walk-alloc own m r va f root =
    let s = step_down_lem own m r r 1 0 (px 2 va) f root (px_lt 2 va) in
    second_step own m r va (step_down m r (px 2 va) true).0 (step_down m r (px 2 va) true).1 root s

pub walk-descend :
    (m : Machine) (r va : ℕ) (alloc : Bool)
    → va < max_va
    → walk m r va alloc ≡ ok (entry_at (px 0 va) (descend m r va alloc).0, (descend m r va alloc).1)
unfolding walk
walk-descend m r va alloc h = let e : leb max_va va ≡ false = ground (arith, h) in rw e refl

-- Without `alloc` a walk changes nothing.
step_down-find :
    (m : Machine) (p i : ℕ)
    → step_down m p i false
      ≡ ((if is_valid (m.tables p i) then some (pte2pa (m.tables p i)) else none), m)
unfolding step_down
step_down-find m p i = elim (Bool-cases (is_valid (m.tables p i))) [
  | inl valid ↦ rw valid refl
  | inr off ↦ rw off refl
]

pub descend-find : (m : Machine) (r va : ℕ) → descend m r va false ≡ (leaf_page m.tables 2 r va, m)
unfolding descend leaf_page
descend-find m r va =
    ap (then_down (px 1 va) false) (step_down-find m r (px 2 va))
    ∙ elim (Bool-cases (is_valid (m.tables r (px 2 va)))) [
      | inl valid ↦ rw valid (step_down-find m (pte2pa (m.tables r (px 2 va))) (px 1 va))
      | inr off ↦ rw off refl
    ]

pub walk-find :
    (m : Machine) (r va : ℕ)
    → va < max_va
    → walk m r va false ≡ ok (entry_at (px 0 va) (leaf_page m.tables 2 r va), m)
walk-find m r va h =
    walk-descend m r va false h ∙ ap (λ x. ok (entry_at (px 0 va) x.0, x.1)) (descend-find m r va)
