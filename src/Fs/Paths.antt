-- ===== src/Fs/Paths.antt =====
-- kernel/fs.c: `skipelem` and the elements of a path.
use os_study.Prelude.{
  ℕ, ◌≤◌, ◌<◌, ◌≡◌, ◌⊎◌, ◌↔◌, refl, sym, ap, subst, ◌∙◌, true, false, Bool-cases, inl, inr, List,
  [], ◌∷◌, none, some, arith, ◌==◌, if◌then◌else◌, length,
}
use os_study.Fs.Names.{dirsiz, skip_slashes, before, split_elem, take, elem_of, skipelem}

-- The pieces of a path between slashes, the first one apart; empty ones are left out of the rest.
abbrev pub add_piece : List ℕ → List (List ℕ) → List (List ℕ)
add_piece [] es = es
add_piece (c ∷ cs) es = (c ∷ cs) ∷ es

unfoldable pub first_piece : List ℕ → List ℕ
first_piece [] = []
first_piece (c ∷ cs) = let rest = first_piece cs in if c == 47 then [] else c ∷ rest

unfoldable pub later_pieces : List ℕ → List (List ℕ)
unfolding first_piece
later_pieces [] = []
later_pieces (c ∷ cs) =
    let rest = later_pieces cs in if c == 47 then add_piece (first_piece cs) rest else rest

-- The elements of a path
unfoldable pub elements : List ℕ → List (List ℕ)
unfolding first_piece later_pieces
elements path = add_piece (first_piece path) (later_pieces path)

elements-slash : (c : ℕ) (cs : List ℕ) → (c == 47) ≡ true → elements (c ∷ cs) ≡ elements cs
unfolding elements first_piece later_pieces
elements-slash c cs h = rw h refl

elements-other :
    (c : ℕ) (cs : List ℕ)
    → (c == 47) ≡ false
    → elements (c ∷ cs) ≡ (c ∷ first_piece cs) ∷ later_pieces cs
unfolding elements first_piece later_pieces
elements-other c cs h = rw h refl

skip-slash : (c : ℕ) (cs : List ℕ) → (c == 47) ≡ true → skip_slashes (c ∷ cs) ≡ skip_slashes cs
unfolding skip_slashes
skip-slash c cs h = rw h refl

skip-other : (c : ℕ) (cs : List ℕ) → (c == 47) ≡ false → skip_slashes (c ∷ cs) ≡ c ∷ cs
unfolding skip_slashes
skip-other c cs h = rw h refl

elements-skip_slashes : (path : List ℕ) → elements (skip_slashes path) ≡ elements path
unfolding skip_slashes
elements-skip_slashes [] = refl
elements-skip_slashes (c ∷ cs) = elim (Bool-cases (c == 47)) [
  | inl slash ↦
      ap elements (skip-slash c cs slash)
      ∙ elements-skip_slashes cs
      ∙ sym (elements-slash c cs slash)
  | inr other ↦ ap elements (skip-other c cs other)
]

length-skip_slashes : (path : List ℕ) → length (skip_slashes path) ≤ length path
unfolding skip_slashes
length-skip_slashes [] = omega arith
length-skip_slashes (c ∷ cs) = ground (arith, length-skip_slashes cs)

split_elem-pieces :
    (path : List ℕ)
    → ((split_elem path).0 ≡ first_piece path)
      × (elements (split_elem path).1 ≡ later_pieces path)
      × (length (split_elem path).1 ≤ length path)
unfolding split_elem elements first_piece later_pieces
split_elem-pieces [] = (refl, refl, omega arith)
split_elem-pieces (c ∷ cs) =
    let (e, es, le) = split_elem-pieces cs in
    elim (Bool-cases (c == 47)) [
      | inl slash ↦ rw slash (refl, elements-slash c cs slash, omega arith)
      | inr other ↦ rw other (ap (λ (x : List ℕ). c ∷ x) e, es, omega (arith, le))
    ]

-- What no slash comes before
abbrev NoSlash : List ℕ → Type 0
NoSlash [] = Unit {0}
NoSlash (c ∷ cs) = (c == 47) ≡ false

skip_slashes-NoSlash : (path : List ℕ) → NoSlash (skip_slashes path)
unfolding skip_slashes
skip_slashes-NoSlash [] = tt
skip_slashes-NoSlash (c ∷ cs) = elim (Bool-cases (c == 47)) [
  | inl slash ↦ rw slash (skip_slashes-NoSlash cs)
  | inr other ↦ rw other other
]

-- `skipelem` of a path
pub record Skipped (path : List ℕ) : Type 0 where
  pub elem : List ℕ
  pub rest : List ℕ
  pub later : List (List ℕ)
  pub found : skipelem path ≡ some (take dirsiz elem, rest)
  pub elements_path : elements path ≡ elem ∷ later
  pub elements_rest : elements rest ≡ later
  pub last : (rest ≡ []) ↔ (later ≡ [])
  pub shorter : length rest < length path

nothing : elements [] ≡ []
unfolding elements first_piece later_pieces
nothing = refl

empty_elements : (path : List ℕ) → NoSlash path → elements path ≡ [] → path ≡ []
empty_elements [] n e = refl
empty_elements (c ∷ cs) n e =
    let no : (c ∷ first_piece cs) ∷ later_pieces cs ≡ [] = sym (elements-other c cs n) ∙ e in
    absurd (cc)

split-other :
    (c : ℕ) (cs : List ℕ) → (c == 47) ≡ false → split_elem (c ∷ cs) ≡ before c (split_elem cs)
unfolding split_elem
split-other c cs h = rw h refl

from_elem :
    (c : ℕ) (cs path : List ℕ) → skip_slashes path ≡ c ∷ cs → (c == 47) ≡ false → Skipped path
unfolding skipelem
from_elem c cs path e other =
    let (e0, e1, le) = split_elem-pieces cs in
    let rest = skip_slashes (split_elem cs).1 in
    let same : elements rest ≡ later_pieces cs = elements-skip_slashes (split_elem cs).1 ∙ e1 in
    record {
      elem = c ∷ first_piece cs;
      rest = rest;
      later = later_pieces cs;
      found =
          ap elem_of e
          ∙ ap (λ (s : List ℕ × List ℕ). some (take dirsiz s.0, skip_slashes s.1))
              (split-other c cs other)
          ∙ ap (λ (x : List ℕ). some (take dirsiz (c ∷ x), rest)) e0;
      elements_path = sym (elements-skip_slashes path) ∙ ap elements e ∙ elements-other c cs other;
      elements_rest = same;
      last = (
        (λ z. sym same ∙ ap elements z ∙ nothing),
        (λ z. empty_elements rest (skip_slashes-NoSlash (split_elem cs).1) (same ∙ z)),
      );
      shorter =
          let all : length (c ∷ cs) ≤ length path =
            subst (λ s. length s ≤ length path) e (length-skip_slashes path) in
          omega (arith, le, length-skip_slashes (split_elem cs).1, all);
    }

-- `skipelem` finds no element in a path exactly when the path has none between its slashes. Else it
-- gives the first 14 characters of the first one, and a shorter path that has the other elements
-- and is empty just when there are none.
pub skipelem_lem : (path : List ℕ) → ((skipelem path ≡ none) × (elements path ≡ [])) ⊎ Skipped path
unfolding skipelem
skipelem_lem path = go (skip_slashes path) refl
  where
    go :
        (s : List ℕ)
        → skip_slashes path ≡ s
        → ((skipelem path ≡ none) × (elements path ≡ [])) ⊎ Skipped path
    go [] e = inl (rw e refl, sym (elements-skip_slashes path) ∙ ap elements e ∙ nothing)
    go (c ∷ cs) e = inr (from_elem c cs path e (subst NoSlash e (skip_slashes-NoSlash path)))
