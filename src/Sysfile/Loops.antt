-- ===== src/Sysfile/Loops.antt =====
-- kernel/sysfile.c and kernel/proc.c: the loops over the open files of a process, and the file that
-- `sys_open` takes.
use os_study.Prelude.{
  ℕ, ◌+◌, ◌∙◌, ◌≤◌, ◌≡◌, refl, sym, subst, Option, Option-cases, none, some, [], ◌∷◌, arith, ◌==◌,
  ok, inl, inr, map, ℤ, pos, negsuc, ◌&&◌, if◌then◌else◌, ok_of_bind, ok-injective, List, ◌>>=◌,
}
use os_study.File.{File, filealloc}
use os_study.Fs.{Fs, Dinode, itrunc}
use os_study.Fs.Inodes.{iunlock, iunlockput}
use os_study.Sysfile.Creation.{t_file, o_trunc, opened, open_inode, open_with, open_found, sys_open}
use os_study.Sysfile.{
  State, OpenFiles, fdalloc, open_slot, dup_all, close_all, close_files, set_file,
}
use os_study.Sysfile.Tables.{
  Counted, one, fd_count, Counted-ap, dup_file_lem, close_file_lem, filealloc_lem, fdalloc_lem,
  set_file-Counted,
}
use os_study.Sysfile.Calls.{Sound, move}

pub dup_all_lem :
    (ofile : OpenFiles) (s : State) (owners : ℕ → ℕ)
    → Counted s.files owners
    → ((k : ℕ) → fd_count k ofile ≤ owners k)
    → (s' : State) × (dup_all ofile s ≡ ok s') × Counted s'.files (λ k. fd_count k ofile + owners k)
unfolding dup_all
dup_all_lem [] s owners c h = (s, refl, Counted-ap (λ k. omega arith) c)
dup_all_lem (none ∷ ofile) s owners c h =
    let (s', e, c') = dup_all_lem ofile s owners c (λ k. omega (arith, h k)) in
    (s', e, Counted-ap (λ k. omega arith) c')
dup_all_lem (some f ∷ ofile) s owners c h =
    let (s1, e1, c1, _, _) = dup_file_lem f s {owners = owners} c (ground (arith, h f)) in
    let (s', e, c') =
      dup_all_lem ofile s1 (λ k. one (f == k) + owners k) c1 (λ k. omega (arith, h k)) in
    (s', rw e1 e, Counted-ap (λ k. omega arith) c')

close_all_lem :
    (ofile : OpenFiles) (s : State) (owners : ℕ → ℕ)
    → Counted s.files (λ k. fd_count k ofile + owners k)
    → (s' : State) × (close_all ofile s ≡ ok s') × Counted s'.files owners
unfolding close_all
close_all_lem [] s owners c = (s, refl, Counted-ap (λ k. omega arith) c)
close_all_lem (none ∷ ofile) s owners c =
    close_all_lem ofile s owners (Counted-ap (λ k. omega arith) c)
close_all_lem (some f ∷ ofile) s owners c =
    let (s1, e1, c1, _) =
      close_file_lem f s {owners = λ k. fd_count k ofile + owners k}
        (Counted-ap (λ k. omega arith) c) in
    let (s', e, c') = close_all_lem ofile s1 owners c1 in (s', rw e1 e, c')

no_files : (k : ℕ) (ofile : OpenFiles) → fd_count k (map (λ f. none) ofile) ≡ 0
no_files k [] = refl
no_files k (f ∷ ofile) = omega (arith, no_files k ofile)

pub close_files_lem :
    (s : State) (others : ℕ → ℕ)
    → Sound others s
    → (s' : State) × (close_files s ≡ ok s') × Sound others s'
unfolding close_files
close_files_lem s others c =
    let (s1, e, c1) = close_all_lem s.ofile s others c in
    (
      record s1 { ofile = map (λ f. none) s.ofile },
      rw e refl,
      Counted-ap (λ k. omega (arith, no_files k s.ofile)) c1,
    )

open_slot_lem :
    (s : State) (others : ℕ → ℕ)
    → Sound others s
    → (r : Option (ℕ × ℕ)) × (s' : State) × (open_slot s ≡ ok (r, s')) × Sound others s'
unfolding open_slot
open_slot_lem s others c = elim (Option-cases (filealloc s.files)) [
  | inl e ↦ (none, s, rw (e, open_slot) refl, c)
  | inr ((f, fs), e) ↦
      let (_, c1) = filealloc_lem s.files fs f {owners = λ k. fd_count k s.ofile + others k} c e in
      elim (Option-cases (fdalloc s.ofile f)) [
        | inl e' ↦
            (let (s1, done, c', same) =
                close_file_lem f (record s { files = fs })
                  {owners = λ k. fd_count k s.ofile + others k} c1 in
              (
                none,
                s1,
                rw (e, open_slot, e', done) refl,
                subst (λ x. Counted s1.files (λ k. fd_count k x + others k)) (sym same) c',
              ))
        | inr ((fd, ofile), e') ↦
            let (free, is) = fdalloc_lem s.ofile ofile f fd e' in
            (
              some (f, fd),
              record s { files = fs; ofile = ofile },
              rw (e, open_slot, e') refl,
              subst (λ x. Counted fs (λ k. fd_count k x + others k)) (sym is)
                  (move fs s.ofile fd none (some f) others (λ k. one (f == k) + others k) free
                    (λ k. omega arith) (Counted-ap (λ k. omega arith) c1)),
            )
      ]
]

opened-ref : (d : Dinode) (ip mode : ℕ) (g : File) → (opened d ip mode g).ref ≡ g.ref
opened-ref d ip mode g = ground arith

-- Once it has looked for its inode, `sys_open` keeps the counts.
open_with-Sound :
    (mode ip : ℕ) (f f' : Fs) (slot : Option (ℕ × ℕ)) (s s' : State) (r : ℤ) (others : ℕ → ℕ)
    → open_with mode ip f (slot, s) ≡ ok (r, s', f')
    → Sound others s
    → Sound others s'
unfolding open_with
open_with-Sound mode ip f f' none s s' r others h c =
    let (f1, last, _) = ok_of_bind (iunlockput f ip) (λ x. ok (negsuc 0, s, x)) h in
    let same : s ≡ s' = cc in subst (λ x. Sound others x) same c
open_with-Sound mode ip f f' (some (i, fd)) s s' r others h c =
    let d = (f.inode ip).info in
    let change : State = record s { files = set_file i (opened d ip mode) s.files } in
    let (f1, h1, _) =
      ok_of_bind (if o_trunc mode && (d.kind == t_file) then itrunc f ip else ok f)
        (λ x. iunlock x ip >>= λ y. ok (pos fd, change, y)) h in
    let (f2, last, _) = ok_of_bind (iunlock f1 ip) (λ y. ok (pos fd, change, y)) h1 in
    let same : change ≡ s' = cc in
    subst (λ x. Sound others x) same
      (set_file-Counted i (opened d ip mode) s.files (opened-ref d ip mode) c)

open_found-Sound :
    (mode : ℕ) (s s' : State) (o : Option ℕ) (f f' : Fs) (r : ℤ) (others : ℕ → ℕ)
    → open_found mode s (o, f) ≡ ok (r, s', f')
    → Sound others s
    → Sound others s'
unfolding open_found
open_found-Sound mode s s' none f f' r others e c =
    let same : s ≡ s' = cc in subst (λ x. Sound others x) same c
open_found-Sound mode s s' (some ip) f f' r others e c =
    let ((slot, s1), rest, e1) = ok_of_bind (open_slot s) (open_with mode ip f) e in
    let (slot', s2, e2, c2) = open_slot_lem s others c in
    let same : (slot', s2) ≡ (slot, s1) = ok-injective (sym e2 ∙ e1) in
    open_with-Sound mode ip f f' slot s1 s' r others rest (subst (λ x. Sound others x.1) same c2)

-- `sys_open` keeps the counts, whatever it finds on the disk.
pub sys_open-Sound :
    (f f' : Fs) (cwd mode : ℕ) (path : Option (List ℕ)) (s s' : State) (r : ℤ) (others : ℕ → ℕ)
    → sys_open f cwd path mode s ≡ ok (r, s', f')
    → Sound others s
    → Sound others s'
unfolding sys_open
sys_open-Sound f f' cwd mode none s s' r others e c =
    let same : s ≡ s' = cc in subst (λ x. Sound others x) same c
sys_open-Sound f f' cwd mode (some path) s s' r others e c =
    let ((o, f1), rest, _) = ok_of_bind (open_inode f cwd path mode) (open_found mode s) e in
    open_found-Sound mode s s' o f1 f' r others rest c
