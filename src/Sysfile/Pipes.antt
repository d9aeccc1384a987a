-- ===== src/Sysfile/Pipes.antt =====
-- kernel/sysfile.c: `sys_pipe`, and what it gives back when it fails.
use os_study.Prelude.{
  ℕ, zero, suc, ◌+◌, ◌≡◌, ◌≢◌, refl, sym, ap, subst, ◌∙◌, ℤ, pos, negsuc, Bool, true, false, ◌&&◌,
  Option, Option-cases, none, some, [], ◌∷◌, arith, ◌==◌, if◌then◌else◌, get_elem?, set, Outcome,
  ok, inl, inr,
}
use os_study.Sysfile.{State, OpenFiles, fdalloc, pipealloc, close_both, sys_pipe}
use os_study.Sysfile.Tables.{Counted, one, fd_count, Counted-ap, fdalloc_lem}
use os_study.Sysfile.Calls.{Sound, EndOf, move, Piped, pipealloc_lem, close_both_lem, set_back}

get_elem?-set_self :
    (ofile : OpenFiles) (fd : ℕ) (old new : Option ℕ)
    → get_elem? ofile fd ≡ some old
    → get_elem? (set ofile fd new) fd ≡ some new
get_elem?-set_self [] fd old new e = absurd (cc)
get_elem?-set_self (f ∷ ofile) zero old new e = refl
get_elem?-set_self (f ∷ ofile) (suc fd) old new e = get_elem?-set_self ofile fd old new e

get_elem?-set_other :
    (ofile : OpenFiles) (i j : ℕ) (new : Option ℕ)
    → i ≢ j
    → get_elem? (set ofile i new) j ≡ get_elem? ofile j
get_elem?-set_other [] i j new h = refl
get_elem?-set_other (f ∷ ofile) zero zero new h = absurd (h refl)
get_elem?-set_other (f ∷ ofile) zero (suc j) new h = refl
get_elem?-set_other (f ∷ ofile) (suc i) zero new h = refl
get_elem?-set_other (f ∷ ofile) (suc i) (suc j) new h =
    get_elem?-set_other ofile i j new (λ e. h (ap suc e))

set_comm :
    (ofile : OpenFiles) (i j : ℕ) (a b : Option ℕ)
    → i ≢ j
    → set (set ofile i a) j b ≡ set (set ofile j b) i a
set_comm [] i j a b h = refl
set_comm (f ∷ ofile) zero zero a b h = absurd (h refl)
set_comm (f ∷ ofile) zero (suc j) a b h = refl
set_comm (f ∷ ofile) (suc i) zero a b h = refl
set_comm (f ∷ ofile) (suc i) (suc j) a b h =
    ap (λ x. f ∷ x) (set_comm ofile i j a b (λ e. h (ap suc e)))

-- The two descriptors that `sys_pipe` takes, the second after the first.
record Taken (ofile : OpenFiles) (rf wf fd0 fd1 : ℕ) : Type 0 where
  first : get_elem? ofile fd0 ≡ some none
  second : get_elem? (set ofile fd0 (some rf)) fd1 ≡ some none

differ : (ofile : OpenFiles) (rf wf fd0 fd1 : ℕ) → Taken ofile rf wf fd0 fd1 → fd0 ≢ fd1
differ ofile rf wf fd0 fd1 t e =
    let full = get_elem?-set_self ofile fd0 none (some rf) t.first in
    let free = subst (λ x. get_elem? (set ofile fd0 (some rf)) x ≡ some none) (sym e) t.second in cc

-- Both are given back.
undo :
    (ofile : OpenFiles) (rf wf fd0 fd1 : ℕ)
    → Taken ofile rf wf fd0 fd1
    → set (set (set (set ofile fd0 (some rf)) fd1 (some wf)) fd0 none) fd1 none ≡ ofile
undo ofile rf wf fd0 fd1 t =
    let apart = differ ofile rf wf fd0 fd1 t in
    let free : get_elem? ofile fd1 ≡ some none =
      sym (get_elem?-set_other ofile fd0 fd1 (some rf) apart) ∙ t.second in
    ap (λ x. set x fd1 none)
      (set_comm (set ofile fd0 (some rf)) fd1 fd0 (some wf) none (λ e. apart (sym e))
        ∙ ap (λ x. set x fd1 (some wf)) (set_back ofile fd0 none (some rf) t.first))
    ∙ set_back ofile fd1 none (some wf) free

-- Two new descriptors for the ends of the new pipe at `page`, or -1 and the descriptors as they were.
pub data Made (page : ℕ) (s : State) : ℤ → State → Type 0 where
  failed : {s' : State} → s'.ofile ≡ s.ofile → Made page s (negsuc 0) s'
  made :
      {s' : State} (rf wf fd0 fd1 : ℕ)
      → rf ≢ wf
      → get_elem? s.ofile fd0 ≡ some none
      → get_elem? s.ofile fd1 ≡ some none
      → fd0 ≢ fd1
      → s'.ofile ≡ set (set s.ofile fd0 (some rf)) fd1 (some wf)
      → page ≢ 0
      → EndOf false page rf s'.files
      → EndOf true page wf s'.files
      → Made page s (pos 0) s'

-- `Sound` after `close_both` has undone `pipealloc`.
abbrev Ended : ℕ → (ℕ → ℕ) → State → Outcome (ℤ × State) → Type 0
Ended page others s o =
    (r : ℤ) × (s' : State) × (o ≡ ok (r, s')) × Sound others s' × Made page s r s'

ends_closed :
    (page rf wf : ℕ) (s s1 : State) (others : ℕ → ℕ) (ofile : OpenFiles)
    → Counted s1.files (λ k. one (rf == k) + (one (wf == k) + (fd_count k s.ofile + others k)))
    → ofile ≡ s.ofile
    → Ended page others s (close_both rf wf (record s1 { ofile = ofile }))
ends_closed page rf wf s s1 others ofile c e =
    let (s', done, c', same) =
      close_both_lem rf wf (record s1 { ofile = ofile })
        {owners = λ k. fd_count k s.ofile + others k} c in
    (
      negsuc 0,
      s',
      done,
      subst (λ x. Counted s'.files (λ k. fd_count k x + others k)) (sym (same ∙ e)) c',
      failed (same ∙ e),
    )

-- `sys_pipe` after `pipealloc` has given the slots `rf` and `wf`.
with_ends :
    (page : ℕ) (copied : Bool) (rf wf : ℕ) (s s1 : State) (others : ℕ → ℕ)
    → Counted s1.files (λ k. one (rf == k) + (one (wf == k) + (fd_count k s.ofile + others k)))
    → s1.ofile ≡ s.ofile
    → rf ≢ wf
    → page ≢ 0
    → EndOf false page rf s1.files
    → EndOf true page wf s1.files
    → Ended page others s (elim (fdalloc s.ofile rf) [
      | none ↦ close_both rf wf s1
      | some (fd0, ofile0) ↦ elim (fdalloc ofile0 wf) [
        | none ↦ close_both rf wf (record s1 { ofile = set ofile0 fd0 none })
        | some (fd1, ofile1) ↦
            if copied
            then ok (pos 0, record s1 { ofile = ofile1 })
            else close_both rf wf (record s1 { ofile = set (set ofile1 fd0 none) fd1 none })
      ]
    ])
with_ends page copied rf wf s s1 others c same apart got read_end write_end =
    elim (Option-cases (fdalloc s.ofile rf)) [
      | inl e ↦ rw e (ends_closed page rf wf s s1 others s1.ofile c same)
      | inr ((fd0, ofile0), e) ↦
          let (free0, is0) = fdalloc_lem s.ofile ofile0 rf fd0 e in
          elim (Option-cases (fdalloc ofile0 wf)) [
            | inl e' ↦
                rw (e, e')
                  (ends_closed page rf wf s s1 others (set ofile0 fd0 none) c
                    (ap (λ x. set x fd0 none) is0 ∙ set_back s.ofile fd0 none (some rf) free0))
            | inr ((fd1, ofile1), e') ↦
                let (free1, is1) = fdalloc_lem ofile0 ofile1 wf fd1 e' in
                let t : Taken s.ofile rf wf fd0 fd1 = record {
                  first = free0;
                  second = subst (λ x. get_elem? x fd1 ≡ some none) is0 free1;
                } in
                let both : ofile1 ≡ set (set s.ofile fd0 (some rf)) fd1 (some wf) =
                  is1 ∙ ap (λ x. set x fd1 (some wf)) is0 in
                rw (e, e') (last fd0 fd1 ofile1 t both copied)
          ]
    ]
  where
    last :
        (fd0 fd1 : ℕ) (ofile1 : OpenFiles)
        → Taken s.ofile rf wf fd0 fd1
        → ofile1 ≡ set (set s.ofile fd0 (some rf)) fd1 (some wf)
        → (b : Bool)
        → Ended page others s (
            if b
            then ok (pos 0, record s1 { ofile = ofile1 })
            else close_both rf wf (record s1 { ofile = set (set ofile1 fd0 none) fd1 none }))
    last fd0 fd1 ofile1 t both true = (
      pos 0,
      record s1 { ofile = ofile1 },
      refl,
      subst (λ x. Counted s1.files (λ k. fd_count k x + others k)) (sym both)
          (move s1.files (set s.ofile fd0 (some rf)) fd1 none (some wf) others
            (λ k. one (wf == k) + others k) t.second (λ k. omega arith)
            (move s1.files s.ofile fd0 none (some rf) (λ k. one (wf == k) + others k)
              (λ k. one (rf == k) + (one (wf == k) + others k)) t.first (λ k. omega arith)
              (Counted-ap (λ k. omega arith) c))),
      made rf wf fd0 fd1 apart t.first
          (sym (get_elem?-set_other s.ofile fd0 fd1 (some rf) (differ s.ofile rf wf fd0 fd1 t))
            ∙ t.second)
          (differ s.ofile rf wf fd0 fd1 t) both got read_end write_end,
    )
    last fd0 fd1 ofile1 t both false =
        ends_closed page rf wf s s1 others (set (set ofile1 fd0 none) fd1 none) c
          (ap (λ x. set (set x fd0 none) fd1 none) both ∙ undo s.ofile rf wf fd0 fd1 t)

-- Where every count is the number of references, `sys_pipe` does not panic and leaves it so: two
-- descriptors that were free have the read end and the write end of a pipe at the page that `kalloc`
-- gave, or the result is -1, the descriptors are as before and, with them, the count of every file.
pub sys_pipe_lem :
    (page : ℕ) (copied0 copied1 : Bool) (s : State) (others : ℕ → ℕ)
    → Sound others s
    → (r : ℤ) × (s' : State) × (sys_pipe page copied0 copied1 s ≡ ok (r, s'))
      × Sound others s'
      × Made page s r s'
unfolding sys_pipe
sys_pipe_lem page copied0 copied1 s others c =
    let (ends, s1, e, p) = pipealloc_lem page s {owners = λ k. fd_count k s.ofile + others k} c in
    by_ends ends s1 e p
  where
    by_ends :
        (ends : Option (ℕ × ℕ)) (s1 : State)
        → pipealloc page s ≡ ok (ends, s1)
        → Piped page (λ k. fd_count k s.ofile + others k) s ends s1
        → Ended page others s (sys_pipe page copied0 copied1 s)
    by_ends none s1 e (c', same) = (
      negsuc 0,
      s1,
      rw (e, sys_pipe) refl,
      subst (λ x. Counted s1.files (λ k. fd_count k x + others k)) (sym same) c',
      failed same,
    )
    by_ends (some (rf, wf)) s1 e (c', same, apart, got, read_end, write_end) =
        rw (e, sys_pipe)
          (with_ends page (copied0 && copied1) rf wf s s1 others c' same apart got read_end
            write_end)
