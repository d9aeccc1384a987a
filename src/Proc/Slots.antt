-- ===== src/Proc/Slots.antt =====
-- kernel/proc.c: loops over the process table, and one slot changed.
use os_study.Prelude.{
  ℕ, zero, suc, ◌+◌, ◌-◌, ◌≤◌, ◌≡◌, refl, ap, Bool, Bool-cases, inl, inr, true, false, none, some,
  List, [], ◌∷◌, arith, get_elem?, length,
}
use mathlib.Core.Option
use os_study.Proc.{Proc, find_from, each_from}

pub get_elem?-each_from :
    (f : ℕ → Proc → Proc) (ps : List Proc) (i j : ℕ)
    → get_elem? (each_from f i ps) j ≡ Option.map (f (i + j)) (get_elem? ps j)
unfolding each_from
get_elem?-each_from f [] i j = refl
get_elem?-each_from f (p ∷ ps) i zero = let e : i + 0 ≡ i = omega arith in rw e
get_elem?-each_from f (p ∷ ps) i (suc j) =
    let e : i + suc j ≡ i + 1 + j = omega arith in rw e (get_elem?-each_from f ps (i + 1) j)

pub length-each_from :
    (f : ℕ → Proc → Proc) (ps : List Proc) (i : ℕ) → length (each_from f i ps) ≡ length ps
unfolding each_from
length-each_from f [] i = refl
length-each_from f (p ∷ ps) i = ap suc (length-each_from f ps (i + 1))

-- What `find_from` gives: a slot, from `i` on, that passes the test.
pub record Found (test : ℕ → Proc → Bool) (i : ℕ) (ps : List Proc) (j : ℕ) (p : Proc) : Type 0 where
  pub above : i ≤ j
  pub here : get_elem? ps (j - i) ≡ some p
  pub passes : test j p ≡ true

Found-here :
    (test : ℕ → Proc → Bool) (q : Proc) (ps : List Proc) (i : ℕ)
    → test i q ≡ true
    → Found test i (q ∷ ps) i q
Found-here test q ps i h =
    let e : i - i ≡ 0 = omega arith in record { above = omega arith; here = rw e; passes = h }

Found-there :
    (test : ℕ → Proc → Bool) (q : Proc) (ps : List Proc) (i j : ℕ) {p : Proc}
    → Found test (i + 1) ps j p
    → Found test i (q ∷ ps) j p
Found-there test q ps i j f =
    let e : j - i ≡ suc (j - (i + 1)) = omega (arith, f.above) in
    record { above = omega (arith, f.above); here = rw e f.here; passes = f.passes }

pub find_from-Found :
    (test : ℕ → Proc → Bool) (ps : List Proc) (i j : ℕ) {p : Proc}
    → find_from test i ps ≡ some (j, p)
    → Found test i ps j p
unfolding find_from
find_from-Found test [] i j e = absurd (cc)
find_from-Found test (q ∷ ps) i j {p} e = elim (Bool-cases (test i q)) [
  | inl h ↦
      (let found : (j ≡ i) × (p ≡ q) = ground arith in
        rw found.0 (rw found.1 (Found-here test q ps i h)))
  | inr h ↦ Found-there test q ps i j (find_from-Found test ps (i + 1) j (ground arith))
]

-- Where `find_from` gives none, no slot passes the test.
pub find_from-none :
    (test : ℕ → Proc → Bool) (ps : List Proc) (i j : ℕ) {p : Proc}
    → find_from test i ps ≡ none
    → get_elem? ps j ≡ some p
    → test (i + j) p ≡ false
unfolding find_from
find_from-none test [] i j n e = cc
find_from-none test (q ∷ ps) i zero n e =
    let same : i + 0 ≡ i = omega arith in rw same (ground arith)
find_from-none test (q ∷ ps) i (suc j) n e =
    let next : i + suc j ≡ i + 1 + j = omega arith in
    let rest : find_from test (i + 1) ps ≡ none = ground arith in
    rw next (find_from-none test ps (i + 1) j rest e)
