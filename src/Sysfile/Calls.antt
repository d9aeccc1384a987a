-- ===== src/Sysfile/Calls.antt =====
-- kernel/sysfile.c: `dup`, `close` and `pipe`, and the open files of `kfork` and `kexit`.
use os_study.Prelude.{
  Bool, not, ==→ne, get_elem?-set, lt-length, ℕ, zero, suc, ◌+◌, ◌<◌, ◌≡◌, ◌≢◌, refl, sym, ap,
  subst, ◌∙◌, ℤ, pos, negsuc, true, false, Option, Option-cases, none, some, List, [], ◌∷◌, arith,
  ◌==◌, get_elem?, set, ok, ◌>>=◌, inl, inr, Bool-cases,
}
use os_study.File.{File, fd_pipe, filealloc}
use os_study.Sysfile.{
  State, OpenFiles, argfd, fdalloc, set_file, sys_dup, sys_close, pipe_end, pipealloc, close_both,
}
use os_study.Sysfile.Tables.{
  Counted, one, slot_of_ref, held_by, fd_count, fd_count-set, Counted-ap, dup_file_lem,
  close_file_lem, filealloc_lem, set_file-Counted, argfd_lem, fdalloc_lem,
}

-- The counts of the files are right, where `others` are the references of other processes.
abbrev pub Sound : (ℕ → ℕ) → State → Type 0
Sound others s = Counted s.files (λ k. fd_count k s.ofile + others k)

-- A descriptor changed, and the counts with it.
pub move :
    (files : List File) (ofile : OpenFiles) (fd : ℕ) (old new : Option ℕ) (more others : ℕ → ℕ)
    → get_elem? ofile fd ≡ some old
    → ((k : ℕ) → held_by k new + more k ≡ held_by k old + others k)
    → Counted files (λ k. fd_count k ofile + others k)
    → Counted files (λ k. fd_count k (set ofile fd new) + more k)
move files ofile fd old new more others e h c =
    Counted-ap (λ k. omega (arith, fd_count-set k fd ofile old new e, h k)) c

pub fd_count-pos :
    (ofile : OpenFiles) (fd f : ℕ) → get_elem? ofile fd ≡ some (some f) → 0 < fd_count f ofile
fd_count-pos [] fd f e = absurd (cc)
fd_count-pos (g ∷ ofile) zero f e =
    let same : g ≡ some f = cc in
    subst (λ x. 0 < held_by f x + fd_count f ofile) (sym same) (ground arith)
fd_count-pos (g ∷ ofile) (suc fd) f e = omega (arith, fd_count-pos ofile fd f e)

-- `sys_dup` keeps the counts, and does not panic.
pub sys_dup-Sound :
    (n : ℤ) (s : State) (others : ℕ → ℕ)
    → Sound others s
    → (r : ℤ) × (s' : State) × (sys_dup n s ≡ ok (r, s')) × Sound others s'
unfolding sys_dup
sys_dup-Sound n s others c = elim (Option-cases (argfd s.ofile n)) [
  | inl e ↦ (negsuc 0, s, rw (e, sys_dup) refl, c)
  | inr ((old, f), e) ↦ elim (Option-cases (fdalloc s.ofile f)) [
    | inl e' ↦ (negsuc 0, s, rw (e, sys_dup, e') refl, c)
    | inr ((fd, ofile), e') ↦
        let (free, is) = fdalloc_lem s.ofile ofile f fd e' in
        let used = fd_count-pos s.ofile old f (argfd_lem s.ofile n old f e) in
        let (s', done, c', same, _) =
          dup_file_lem f (record s { ofile = ofile }) {owners = λ k. fd_count k s.ofile + others k}
            c (omega (arith, used)) in
        (
          pos fd,
          s',
          rw (e, sys_dup, e', done) refl,
          subst (λ x. Counted s'.files (λ k. fd_count k x + others k)) (sym (same ∙ is))
              (move s'.files s.ofile fd none (some f) others (λ k. one (f == k) + others k) free
                (λ k. omega arith) (Counted-ap (λ k. omega arith) c')),
        )
  ]
]

-- `sys_close` keeps the counts, and does not panic.
pub sys_close-Sound :
    (n : ℤ) (s : State) (others : ℕ → ℕ)
    → Sound others s
    → (r : ℤ) × (s' : State) × (sys_close n s ≡ ok (r, s')) × Sound others s'
unfolding sys_close
sys_close-Sound n s others c = elim (Option-cases (argfd s.ofile n)) [
  | inl e ↦ (negsuc 0, s, rw (e, sys_close) refl, c)
  | inr ((fd, f), e) ↦
      let held = argfd_lem s.ofile n fd f e in
      let without : Counted s.files
          (λ k. one (f == k) + (fd_count k (set s.ofile fd none) + others k)) =
        Counted-ap (λ k. omega (arith, fd_count-set k fd s.ofile (some f) none held)) c in
      let (s', done, c', same) =
        close_file_lem f (record s { ofile = set s.ofile fd none })
          {owners = λ k. fd_count k (set s.ofile fd none) + others k} without in
      (
        pos 0,
        s',
        rw (e, sys_close, done) refl,
        subst (λ x. Counted s'.files (λ k. fd_count k x + others k)) (sym same) c',
      )
]

-- Slot `k` is the read or the write end of the pipe at `page`.
abbrev pub EndOf : Bool → ℕ → ℕ → List File → Type 0
EndOf write page k files =
    (f : File) × (get_elem? files k ≡ some f)
    × (f.type ≡ fd_pipe)
    × (f.readable ≡ not write)
    × (f.writable ≡ write)
    × (f.pipe ≡ page)

get_elem?-set_file :
    (i : ℕ) (change : File → File) (fs : List File) (f : File)
    → get_elem? fs i ≡ some f
    → get_elem? (set_file i change fs) i ≡ some (change f)
unfolding set_file
get_elem?-set_file i change fs f e =
    rw (set_file, e) (get_elem?-set fs i i (change f) (lt-length fs i e) ∙ ground arith)

get_elem?-set_file_other :
    (i j : ℕ) (change : File → File) (fs : List File) (f : File)
    → get_elem? fs i ≡ some f
    → i ≢ j
    → get_elem? (set_file i change fs) j ≡ get_elem? fs j
unfolding set_file
get_elem?-set_file_other i j change fs f e away =
    rw (set_file, e) (get_elem?-set fs i j (change f) (lt-length fs i e) ∙ ground (arith, away))

both_ends :
    (page f0 f1 : ℕ) (fs : List File) (owners : ℕ → ℕ)
    → Counted fs (λ k. one (f1 == k) + (one (f0 == k) + owners k))
    → f0 ≢ f1
    → let files = set_file f1 (pipe_end true page) (set_file f0 (pipe_end false page) fs) in
      EndOf false page f0 files × EndOf true page f1 files
both_ends page f0 f1 fs owners c away =
    let (a, at_a) = slot_of_ref fs f0 (ground (arith, c.each f0)) in
    let (b, at_b) = slot_of_ref fs f1 (ground (arith, c.each f1)) in
    let fs0 = set_file f0 (pipe_end false page) fs in
    let at_b0 = get_elem?-set_file_other f0 f1 (pipe_end false page) fs a at_a away ∙ at_b in
    (
      (
        pipe_end false page a,
        get_elem?-set_file_other f1 f0 (pipe_end true page) fs0 b at_b0 (λ e. away (sym e))
            ∙ get_elem?-set_file f0 (pipe_end false page) fs a at_a,
        refl,
        refl,
        refl,
        refl,
      ),
      (
        pipe_end true page b,
        get_elem?-set_file f1 (pipe_end true page) fs0 b at_b0,
        refl,
        refl,
        refl,
        refl,
      ),
    )

-- What `pipealloc` leaves: the ends of a pipe in two slots that had no reference, or the same counts
-- as before.
abbrev pub Piped : ℕ → (ℕ → ℕ) → State → Option (ℕ × ℕ) → State → Type 0
Piped page owners s none s' = Counted s'.files owners × (s'.ofile ≡ s.ofile)
Piped page owners s (some (rf, wf)) s' =
    Counted s'.files (λ k. one (rf == k) + (one (wf == k) + owners k))
    × (s'.ofile ≡ s.ofile)
    × (rf ≢ wf)
    × (page ≢ 0)
    × EndOf false page rf s'.files
    × EndOf true page wf s'.files

pub pipealloc_lem :
    (page : ℕ) (s : State) {owners : ℕ → ℕ}
    → Counted s.files owners
    → (r : Option (ℕ × ℕ)) × (s' : State) × (pipealloc page s ≡ ok (r, s'))
      × Piped page owners s r s'
unfolding pipealloc
pipealloc_lem page s {owners} c = elim (Option-cases (filealloc s.files)) [
  | inl e ↦ (none, s, rw (e, pipealloc) refl, (c, refl))
  | inr ((f0, fs), e) ↦
      let (_, c0) = filealloc_lem s.files fs f0 c e in
      elim (Option-cases (filealloc fs)) [
        | inl e' ↦
            (let (s1, done, c', same) =
                close_file_lem f0 (record s { files = fs }) {owners = owners} c0 in
              (none, s1, rw (e, pipealloc, e', done) refl, (c', same)))
        | inr ((f1, fs1), e') ↦
            let (fresh, c1) = filealloc_lem fs fs1 f1 c0 e' in
            let apart : f0 ≢ f1 = λ same. absurd (ground (arith, fresh, same)) in
            let ends = both_ends page f0 f1 fs1 owners c1 apart in
            elim (Bool-cases (page == 0)) [
              | inl no_page ↦
                  (let (s1, done1, c2, same1) =
                      close_file_lem f0 (record s { files = fs1 })
                        {owners = λ k. one (f1 == k) + owners k}
                        (Counted-ap (λ k. omega arith) c1) in
                    let (s2, done2, c3, same2) = close_file_lem f1 s1 {owners = owners} c2 in
                    (
                      none,
                      s2,
                      rw (e, pipealloc, e', no_page, done1, ◌>>=◌, done2) refl,
                      (c3, same2 ∙ same1),
                    ))
              | inr page_got ↦ (
                some (f0, f1),
                record s {
                  files = set_file f1 (pipe_end true page) (set_file f0 (pipe_end false page) fs1);
                },
                rw (e, pipealloc, e', page_got) refl,
                (
                  set_file-Counted f1 (pipe_end true page) _ (λ f. refl)
                      (set_file-Counted f0 (pipe_end false page) fs1 (λ f. refl)
                        (Counted-ap (λ k. omega arith) c1)),
                  refl,
                  apart,
                  ==→ne page 0 page_got,
                  ends.0,
                  ends.1,
                ),
              )
            ]
      ]
]

pub close_both_lem :
    (rf wf : ℕ) (s : State) {owners : ℕ → ℕ}
    → Counted s.files (λ k. one (rf == k) + (one (wf == k) + owners k))
    → (s' : State) × (close_both rf wf s ≡ ok (negsuc 0, s'))
      × Counted s'.files owners
      × (s'.ofile ≡ s.ofile)
unfolding close_both
close_both_lem rf wf s {owners} c =
    let (s1, done1, c1, same1) = close_file_lem rf s {owners = λ k. one (wf == k) + owners k} c in
    let (s2, done2, c2, same2) = close_file_lem wf s1 {owners = owners} c1 in
    (s2, rw (done1, ◌>>=◌, done2) refl, c2, same2 ∙ same1)

pub set_back :
    (ofile : OpenFiles) (fd : ℕ) (old new : Option ℕ)
    → get_elem? ofile fd ≡ some old
    → set (set ofile fd new) fd old ≡ ofile
set_back [] fd old new e = absurd (cc)
set_back (f ∷ ofile) zero old new e = ap (λ x. x ∷ ofile) (ground arith)
set_back (f ∷ ofile) (suc fd) old new e = ap (λ x. f ∷ x) (set_back ofile fd old new e)
