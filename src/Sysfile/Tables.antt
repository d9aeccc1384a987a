-- ===== src/Sysfile/Tables.antt =====
-- kernel/sysfile.c: reference counts and descriptors, one file at a time.
use os_study.Prelude.{
  ℕ, zero, suc, ◌+◌, ◌-◌, ◌≤◌, ◌<◌, ◌≡◌, refl, sym, ap, subst, ◌∙◌, ℤ, pos, negsuc, Bool, true,
  false, Option, Option-cases, none, some, List, [], ◌∷◌, ◌++◌, arith, ◌==◌, ltb, leb, get_elem?,
  set, ok, inl, inr, Bool-cases,
}
use os_study.File.{
  File, with_ref, filealloc, filedup, fileclose, Closing, closing, nothing, fd_none,
}
use os_study.File.Refs.{ref_of, ref_at, ref_at-set, filealloc-Taken, filedup-ref, fileclose-ref}
use os_study.Sysfile.{
  State, OpenFiles, nofile, entry, argfd, fdalloc_from, fdalloc, dup_file, close_file, set_file,
}

-- The count in each slot is the number of its owners.
pub record Counted (files : List File) (owners : ℕ → ℕ) : Type 0 where
  pub each : (i : ℕ) → ref_at files i ≡ owners i

abbrev pub one : Bool → ℕ
one true = 1
one false = 0

-- How many descriptors have the file `i`.
abbrev pub held_by : ℕ → Option ℕ → ℕ
held_by i none = 0
held_by i (some f) = one (f == i)

abbrev pub fd_count : ℕ → OpenFiles → ℕ
fd_count i [] = 0
fd_count i (f ∷ ofile) = held_by i f + fd_count i ofile

pub fd_count-set :
    (i fd : ℕ) (ofile : OpenFiles) (old new : Option ℕ)
    → get_elem? ofile fd ≡ some old
    → fd_count i (set ofile fd new) + held_by i old ≡ fd_count i ofile + held_by i new
fd_count-set i fd [] old new e = absurd (cc)
fd_count-set i zero (f ∷ ofile) old new e =
    let same : f ≡ old = cc in
    subst
      (λ x.
        held_by i new + fd_count i ofile + held_by i x
        ≡ held_by i f + fd_count i ofile + held_by i new)
      same (omega arith)
fd_count-set i (suc fd) (f ∷ ofile) old new e = omega (arith, fd_count-set i fd ofile old new e)

pub Counted-ap :
    {files : List File} {m n : ℕ → ℕ} → ((k : ℕ) → m k ≡ n k) → Counted files m → Counted files n
Counted-ap e c = record { each = λ k. c.each k ∙ e k }

pub slot_of_ref :
    (fs : List File) (i : ℕ) → 0 < ref_at fs i → (f : File) × (get_elem? fs i ≡ some f)
slot_of_ref fs i h = elim (Option-cases (get_elem? fs i)) [
  | inl e ↦ absurd (ground (arith, e, h))
  | inr (f, e) ↦ (f, e)
]

pub dup_file_lem :
    (i : ℕ) (s : State) {owners : ℕ → ℕ}
    → Counted s.files owners
    → 0 < owners i
    → (s' : State) × (dup_file i s ≡ ok s')
      × Counted s'.files (λ k. one (i == k) + owners k)
      × (s'.ofile ≡ s.ofile)
      × (s'.closed ≡ s.closed)
unfolding dup_file filedup
dup_file_lem i s {owners} c h =
    let (f, e) = slot_of_ref s.files i (omega (arith, c.each i)) in
    let counted : f.ref ≡ owners i = sym (ap ref_of e) ∙ c.each i in
    let fs = set s.files i (with_ref f (f.ref + 1)) in
    let done : filedup s.files i f ≡ ok fs = unfold filedup in (ground (arith, counted)) in
    (
      record s { files = fs },
      rw e (ground (arith, counted)),
      record {
        each = λ k. filedup-ref s.files fs i k f e done ∙ ground (arith, c.each k, counted);
      },
      refl,
      refl,
    )

close_at :
    (i : ℕ) (s : State) (f : File) (k : Closing) (fs : List File)
    → get_elem? s.files i ≡ some f
    → fileclose s.files i f ≡ ok (k, fs)
    → close_file i s ≡ ok (record s { files = fs; closed = s.closed ++ k ∷ [] })
unfolding close_file
close_at i s f k fs e done = rw (e, done)

pub close_file_lem :
    (i : ℕ) (s : State) {owners : ℕ → ℕ}
    → Counted s.files (λ k. one (i == k) + owners k)
    → (s' : State) × (close_file i s ≡ ok s') × Counted s'.files owners × (s'.ofile ≡ s.ofile)
close_file_lem i s {owners} c =
    let (f, e) = slot_of_ref s.files i (ground (arith, c.each i)) in
    let counted : f.ref ≡ one (i == i) + owners i = sym (ap ref_of e) ∙ c.each i in
    let (k, fs, done) = closes f counted in
    (
      record s { files = fs; closed = s.closed ++ k ∷ [] },
      close_at i s f k fs e done,
      record {
        each = λ j. fileclose-ref s.files fs i j f k e done ∙ ground (arith, c.each j, counted);
      },
      refl,
    )
  where
    closes :
        (f : File)
        → f.ref ≡ one (i == i) + owners i
        → (k : Closing) × (fs : List File) × (fileclose s.files i f ≡ ok (k, fs))
    closes f counted = elim (Bool-cases (ltb 0 (f.ref - 1))) [
      | inl more ↦ (
        nothing,
        set s.files i (with_ref f (f.ref - 1)),
        unfold fileclose in (ground (arith, counted, more)),
      )
      | inr last ↦ (
        closing f,
        set s.files i (record f { ref = 0; type = fd_none }),
        unfold fileclose in (ground (arith, counted, last)),
      )
    ]

pub filealloc_lem :
    (files fs : List File) (i : ℕ) {owners : ℕ → ℕ}
    → Counted files owners
    → filealloc files ≡ some (i, fs)
    → (owners i ≡ 0) × Counted fs (λ k. one (i == k) + owners k)
filealloc_lem files fs i {owners} c e =
    let t = filealloc-Taken files fs i e in
    let none_yet : owners i ≡ 0 = sym (c.each i) ∙ t.free in
    (none_yet, record { each = λ k. t.rest k ∙ ground (arith, c.each k, none_yet) })

pub set_file-Counted :
    (i : ℕ) (change : File → File) (fs : List File) {owners : ℕ → ℕ}
    → ((f : File) → (change f).ref ≡ f.ref)
    → Counted fs owners
    → Counted (set_file i change fs) owners
unfolding set_file
set_file-Counted i change fs {owners} same c = elim (Option-cases (get_elem? fs i)) [
  | inl e ↦ rw (e, set_file) c
  | inr (f, e) ↦
      rw (e, set_file)
        (record {
          each = λ k. ref_at-set fs i k f (change f) e ∙ ground (arith, c.each k, same f, e);
        })
]

pub argfd_lem :
    (ofile : OpenFiles) (n : ℤ) (fd f : ℕ)
    → argfd ofile n ≡ some (fd, f)
    → get_elem? ofile fd ≡ some (some f)
unfolding argfd
argfd_lem ofile (negsuc n) fd f e = absurd (cc)
argfd_lem ofile (pos n) fd f e = elim (Bool-cases (leb nofile n)) [
  | inl out ↦ absurd (ground (arith, out))
  | inr h ↦ found (get_elem? ofile n) refl (ground (arith, h))
]
  where
    found :
        (o : Option (Option ℕ))
        → get_elem? ofile n ≡ o
        → entry n o ≡ some (fd, f)
        → get_elem? ofile fd ≡ some (some f)
    found none q h = absurd (cc)
    found (some none) q h = absurd (cc)
    found (some (some g)) q h =
        let same : (n ≡ fd) × (g ≡ f) = ground arith in
        subst (λ x. get_elem? ofile x ≡ some (some f)) same.0 (q ∙ ap (λ x. some (some x)) same.1)

fdalloc_from_lem :
    (k : ℕ) (ofile ofile' : OpenFiles) (f fd : ℕ)
    → fdalloc_from k ofile f ≡ some (fd, ofile')
    → (k ≤ fd) × (get_elem? ofile (fd - k) ≡ some none) × (ofile' ≡ set ofile (fd - k) (some f))
unfolding fdalloc_from
fdalloc_from_lem k [] ofile' f fd e = absurd (cc)
fdalloc_from_lem k (none ∷ ofile) ofile' f fd e =
    let same : (k ≡ fd) × (some f ∷ ofile ≡ ofile') = ground arith in
    let zero_off : fd - k ≡ 0 = omega (arith, same.0) in
    (omega (arith, same.0), rw zero_off refl, rw zero_off (sym same.1))
fdalloc_from_lem k (some g ∷ ofile) ofile' f fd e =
    elim (Option-cases (fdalloc_from (k + 1) ofile f)) [
      | inl h ↦ absurd (ground arith)
      | inr ((i, rest), h) ↦
          let same : (i ≡ fd) × (some g ∷ rest ≡ ofile') = ground arith in
          let (above, free, is) = fdalloc_from_lem (k + 1) ofile rest f i h in
          let off : fd - k ≡ suc (i - (k + 1)) = omega (arith, same.0, above) in
          (omega (arith, same.0, above), rw off free, rw off (sym same.1 ∙ ap (λ x. some g ∷ x) is))
    ]

-- `fdalloc` takes a free descriptor, and changes no other.
pub fdalloc_lem :
    (ofile ofile' : OpenFiles) (f fd : ℕ)
    → fdalloc ofile f ≡ some (fd, ofile')
    → (get_elem? ofile fd ≡ some none) × (ofile' ≡ set ofile fd (some f))
unfolding fdalloc
fdalloc_lem ofile ofile' f fd e =
    let (_, free, is) = fdalloc_from_lem 0 ofile ofile' f fd e in
    let same : fd - 0 ≡ fd = omega arith in (rw same at free, rw same at is)
