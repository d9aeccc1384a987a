-- ===== src/File/Refs.antt =====
-- kernel/file.c: reference counts, with every reference that the kernel holds.
use os_study.Prelude.{
  ℕ, zero, suc, ◌+◌, ◌-◌, ◌≤◌, ◌<◌, ◌≡◌, refl, ◌∙◌, sym, subst, ap, Option, Option-cases, none,
  some, List, [], ◌∷◌, arith, if◌then◌else◌, ◌==◌, ltb, All, ok, inl, inr, Bool-cases, get_elem?,
  set, get_elem?-set, lt-length,
}
use os_study.File.{
  File, fd_none, with_ref, filealloc_from, filealloc, filedup, fileclose, Closing, nothing, closing,
}

-- The table, and the slots of the references that are held, one entry for each.
pub record Held : Type 0 where
  pub files : List File
  pub refs : List ℕ

abbrev pub count : ℕ → List ℕ → ℕ
count i [] = 0
count i (x ∷ xs) = (if x == i then 1 else 0) + count i xs

-- One of the references to slot `i` is given up.
pub data Drop (i : ℕ) : List ℕ → List ℕ → Type 0 where
  here : {xs : List ℕ} → Drop i (i ∷ xs) xs
  there : {x : ℕ} {xs ys : List ℕ} → Drop i xs ys → Drop i (x ∷ xs) (x ∷ ys)

pub data Step (s : Held) : Held → Type 0 where
  alloc :
      {i : ℕ} {fs : List File}
      → filealloc s.files ≡ some (i, fs)
      → Step s (record { files = fs; refs = i ∷ s.refs })
  dup :
      {fs : List File} (i : ℕ) (f : File)
      → get_elem? s.files i ≡ some f
      → filedup s.files i f ≡ ok fs
      → Step s (record { files = fs; refs = i ∷ s.refs })
  close :
      {fs : List File} {rs : List ℕ} {k : Closing} (i : ℕ) (f : File)
      → get_elem? s.files i ≡ some f
      → Drop i s.refs rs
      → fileclose s.files i f ≡ ok (k, fs)
      → Step s (record { files = fs; refs = rs })

-- Reachable from a table of closed files.
pub data Reach : Held → Type 0 where
  start : {fs : List File} → All (λ f. f.ref ≡ 0) fs → Reach (record { files = fs; refs = [] })
  next : {s t : Held} → Reach s → Step s t → Reach t

abbrev pub ref_of : Option File → ℕ
ref_of none = 0
ref_of (some f) = f.ref

abbrev pub ref_at : List File → ℕ → ℕ
ref_at fs i = ref_of (get_elem? fs i)

unfoldable Inv : Held → Type 0
Inv s = (i : ℕ) → ref_at s.files i ≡ count i s.refs

pub ref_at-set :
    (fs : List File) (i k : ℕ) (f v : File)
    → get_elem? fs i ≡ some f
    → ref_at (set fs i v) k ≡ (if i == k then v.ref else ref_at fs k)
ref_at-set fs i k f v e = ap ref_of (get_elem?-set fs i k v (lt-length fs i e)) ∙ ground arith

count-Drop :
    {i : ℕ} {xs ys : List ℕ} (k : ℕ)
    → Drop i xs ys
    → count k xs ≡ (if i == k then 1 else 0) + count k ys
count-Drop k here = refl
count-Drop k (there d) = omega (arith, count-Drop k d)

-- Slot `j`, counted from 0, is taken: it had no reference.
pub record Taken (fs gs : List File) (j : ℕ) : Type 0 where
  pub free : ref_at fs j ≡ 0
  pub rest : (k : ℕ) → ref_at gs k ≡ (if j == k then 1 else ref_at fs k)

Taken-here : (f : File) (fs : List File) → f.ref ≡ 0 → Taken (f ∷ fs) (with_ref f 1 ∷ fs) 0
Taken-here f fs h = record { free = h; rest = rest }
  where
    rest : (k : ℕ) → ref_at (with_ref f 1 ∷ fs) k ≡ (if 0 == k then 1 else ref_at (f ∷ fs) k)
    rest zero = refl
    rest (suc k) = ground arith

Taken-there :
    (f : File) (fs gs : List File) (j : ℕ) → Taken fs gs j → Taken (f ∷ fs) (f ∷ gs) (suc j)
Taken-there f fs gs j t = record { free = t.free; rest = rest }
  where
    rest : (k : ℕ) → ref_at (f ∷ gs) k ≡ (if suc j == k then 1 else ref_at (f ∷ fs) k)
    rest zero = ground arith
    rest (suc k) = ground (arith, t.rest k)

filealloc_from-Taken :
    (i j : ℕ) (fs gs : List File)
    → filealloc_from i fs ≡ some (j, gs)
    → (i ≤ j) × Taken fs gs (j - i)
unfolding filealloc_from
filealloc_from-Taken i j [] gs e = absurd (cc)
filealloc_from-Taken i j (f ∷ fs) gs e = elim (Bool-cases (f.ref == 0)) [
  | inl h ↦
      (let found : (i ≡ j) × (with_ref f 1 ∷ fs ≡ gs) = ground arith in
        let first : j - i ≡ 0 = omega (arith, found) in
        (
          omega (arith, found),
          rw first (subst (λ x. Taken (f ∷ fs) x 0) found.1 (Taken-here f fs (ground arith))),
        ))
  | inr h ↦ elim (Option-cases (filealloc_from (i + 1) fs)) [
    | inl n ↦ absurd (ground arith)
    | inr ((j', gs'), n) ↦
        let found : (j' ≡ j) × (f ∷ gs' ≡ gs) = ground arith in
        let (above, t) = filealloc_from-Taken (i + 1) j' fs gs' n in
        let next : j - i ≡ suc (j' - (i + 1)) = omega (arith, above, found) in
        (
          omega (arith, above, found),
          rw next (
              subst (λ x. Taken (f ∷ fs) x (suc (j' - (i + 1)))) found.1
                (Taken-there f fs gs' (j' - (i + 1)) t)),
        )
  ]
]

pub filealloc-Taken : (fs gs : List File) (j : ℕ) → filealloc fs ≡ some (j, gs) → Taken fs gs j
unfolding filealloc
filealloc-Taken fs gs j e =
    let same : j - 0 ≡ j = omega arith in rw same at ((filealloc_from-Taken 0 j fs gs e).1)

pub filedup-ref :
    (fs gs : List File) (i k : ℕ) (f : File)
    → get_elem? fs i ≡ some f
    → filedup fs i f ≡ ok gs
    → ref_at gs k ≡ (if i == k then f.ref + 1 else ref_at fs k)
unfolding filedup
filedup-ref fs gs i k f h e =
    let result : set fs i (with_ref f (f.ref + 1)) ≡ gs = ground arith in
    ap (λ x. ref_at x k) (sym result) ∙ ref_at-set fs i k f (with_ref f (f.ref + 1)) h

pub fileclose-ref :
    (fs gs : List File) (i k : ℕ) (f : File) (c : Closing)
    → get_elem? fs i ≡ some f
    → fileclose fs i f ≡ ok (c, gs)
    → ref_at gs k ≡ (if i == k then f.ref - 1 else ref_at fs k)
unfolding fileclose
fileclose-ref fs gs i k f c h e = elim (Bool-cases (ltb 0 (f.ref - 1))) [
  | inl more ↦
      let result : set fs i (with_ref f (f.ref - 1)) ≡ gs = ground arith in
      ap (λ x. ref_at x k) (sym result) ∙ ref_at-set fs i k f (with_ref f (f.ref - 1)) h
  | inr last ↦
      let result : set fs i (record f { ref = 0; type = fd_none }) ≡ gs = ground arith in
      ap (λ x. ref_at x k) (sym result)
      ∙ ref_at-set fs i k f (record f { ref = 0; type = fd_none }) h
      ∙ ground arith
]

start-Inv : (fs : List File) → All (λ f. f.ref ≡ 0) fs → (i : ℕ) → ref_at fs i ≡ 0
start-Inv [] a i = refl
start-Inv (f ∷ fs) a zero = a.0
start-Inv (f ∷ fs) a (suc i) = start-Inv fs a.1 i

Step-Inv : {s t : Held} → Step s t → Inv s → Inv t
unfolding Inv
Step-Inv {s} (alloc {i} {fs} e) v =
    λ k. let t = filealloc-Taken s.files fs i e in ground (arith, t.rest k, t.free, v k, v i)
Step-Inv {s} (dup {fs} i f h e) v =
    λ k. ground (arith, filedup-ref s.files fs i k f h e, v k, v i, h)
Step-Inv {s} (close {fs} {rs} {k = c} i f h d e) v =
    λ k. ground (arith, fileclose-ref s.files fs i k f c h e, v k, count-Drop k d)

Reach-Inv : {s : Held} → Reach s → Inv s
Reach-Inv (start {fs} a) = unfold Inv in (start-Inv fs a)
Reach-Inv (next r st) = Step-Inv st (Reach-Inv r)

-- The count in a slot is the number of references to it.
pub ref_count : {s : Held} (i : ℕ) → Reach s → ref_of (get_elem? s.files i) ≡ count i s.refs
unfolding Inv
ref_count i r = Reach-Inv r i

-- A slot with a reference can be given another and can give one up: `filedup` and `fileclose` do
-- not panic, and `fileclose` hands the pipe or the inode over exactly with the last reference.
pub held_file :
    {s : Held} (i : ℕ) {f : File}
    → Reach s
    → get_elem? s.files i ≡ some f
    → 0 < count i s.refs
    → ((fs : List File) × (filedup s.files i f ≡ ok fs))
      × ((fs : List File) × (fileclose s.files i f
            ≡ ok ((if count i s.refs == 1 then closing f else nothing), fs)))
unfolding filedup fileclose
held_file {s} i {f} r h some_held =
    let n : f.ref ≡ count i s.refs = sym (ap ref_of h) ∙ ref_count i r in
    (
      (set s.files i (with_ref f (f.ref + 1)), ground (arith, n)),
      elim (Bool-cases (ltb 0 (f.ref - 1))) [
        | inl more ↦ (set s.files i (with_ref f (f.ref - 1)), ground (arith, n, more))
        | inr last ↦ (set s.files i (record f { ref = 0; type = fd_none }), ground (arith, n, last))
      ],
    )

-- `filealloc` takes a slot to which no reference is held.
pub filealloc_fresh :
    {s : Held} (i : ℕ) {fs : List File}
    → Reach s
    → filealloc s.files ≡ some (i, fs)
    → count i s.refs ≡ 0
filealloc_fresh {s} i {fs} r e =
    let t = filealloc-Taken s.files fs i e in sym (ref_count i r) ∙ t.free
