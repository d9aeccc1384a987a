-- ===== src/Sysfile/Family.antt =====
-- kernel/sysfile.c: the open files of all processes, across `dup`, `close`, `pipe`, `open`, `fork` and
-- `exit` in any order.
use os_study.Prelude.{ℕ, ◌+◌, ◌≡◌, refl, subst, ℤ, Bool, Option, List, [], ◌∷◌, arith, Outcome, ok}
use os_study.File.{File}
use os_study.File.Refs.{ref_at}
use os_study.Sysfile.{State, OpenFiles, sys_dup, sys_close, sys_pipe, dup_all, close_files}
use os_study.Sysfile.Tables.{Counted, fd_count, Counted-ap}
use os_study.Sysfile.Calls.{Sound, sys_dup-Sound, sys_close-Sound}
use os_study.Sysfile.Pipes.{sys_pipe_lem}
use os_study.Fs.{Fs}
use os_study.Sysfile.Creation.{sys_open}
use os_study.Sysfile.Loops.{dup_all_lem, close_files_lem, sys_open-Sound}

-- The table of open files, and the descriptors of each process.
pub record Family : Type 0 where
  pub files : List File
  pub tables : List OpenFiles

-- The descriptors of one process change from `a` to `b`.
pub data Update (a b : OpenFiles) : List OpenFiles → List OpenFiles → Type 0 where
  here : {ts : List OpenFiles} → Update a b (a ∷ ts) (b ∷ ts)
  there : {t : OpenFiles} {ts us : List OpenFiles} → Update a b ts us → Update a b (t ∷ ts) (t ∷ us)

abbrev pub total : ℕ → List OpenFiles → ℕ
total k [] = 0
total k (t ∷ ts) = fd_count k t + total k ts

-- What a process with the descriptors `a` works on.
abbrev pub state_of : Family → OpenFiles → State
state_of s a = record { files = s.files; ofile = a; closed = [] }

-- A call of one process. A system call may end with an error, and is then a step too.
pub data Step (s : Family) : Family → Type 0 where
  dups :
      {a : OpenFiles} {r : ℤ} {s' : State} {ts : List OpenFiles} (n : ℤ)
      → sys_dup n (state_of s a) ≡ ok (r, s')
      → Update a s'.ofile s.tables ts
      → Step s (record { files = s'.files; tables = ts })
  closes :
      {a : OpenFiles} {r : ℤ} {s' : State} {ts : List OpenFiles} (n : ℤ)
      → sys_close n (state_of s a) ≡ ok (r, s')
      → Update a s'.ofile s.tables ts
      → Step s (record { files = s'.files; tables = ts })
  pipes :
      {a : OpenFiles} {r : ℤ} {s' : State} {ts : List OpenFiles} (page : ℕ) (c0 c1 : Bool)
      → sys_pipe page c0 c1 (state_of s a) ≡ ok (r, s')
      → Update a s'.ofile s.tables ts
      → Step s (record { files = s'.files; tables = ts })
  opens :
      {a : OpenFiles} {r : ℤ} {s' : State} {ts : List OpenFiles} (f : Fs) {f' : Fs} (cwd mode : ℕ)
      (path : Option (List ℕ))
      → sys_open f cwd path mode (state_of s a) ≡ ok (r, s', f')
      → Update a s'.ofile s.tables ts
      → Step s (record { files = s'.files; tables = ts })
  forks :
      {a : OpenFiles} {s' : State}
      → dup_all a (state_of s a) ≡ ok s'
      → Update a a s.tables s.tables
      → Step s (record { files = s'.files; tables = a ∷ s.tables })
  exits :
      {a : OpenFiles} {s' : State} {ts : List OpenFiles}
      → close_files (state_of s a) ≡ ok s'
      → Update a s'.ofile s.tables ts
      → Step s (record { files = s'.files; tables = ts })

-- Reachable from a first process without open files.
pub data Reach : Family → Type 0 where
  start :
      {fs : List File} {t : OpenFiles}
      → ((i : ℕ) → ref_at fs i ≡ 0)
      → ((k : ℕ) → fd_count k t ≡ 0)
      → Reach (record { files = fs; tables = t ∷ [] })
  next : {s t : Family} → Reach s → Step s t → Reach t

-- The references of the other processes.
abbrev rest_of : {a b : OpenFiles} {ts us : List OpenFiles} → Update a b ts us → ℕ → ℕ
rest_of (here {ts}) k = total k ts
rest_of (there {t} u) k = fd_count k t + rest_of u k

rest_before :
    {a b : OpenFiles} {ts us : List OpenFiles} (u : Update a b ts us) (k : ℕ)
    → total k ts ≡ fd_count k a + rest_of u k
rest_before here k = refl
rest_before (there u) k = omega (arith, rest_before u k)

rest_after :
    {a b : OpenFiles} {ts us : List OpenFiles} (u : Update a b ts us) (k : ℕ)
    → fd_count k b + rest_of u k ≡ total k us
rest_after here k = refl
rest_after (there u) k = omega (arith, rest_after u k)

Inv : Family → Type 0
Inv s = Counted s.files (λ k. total k s.tables)

-- A process works on its own descriptors, and the others' counts stay.
enter :
    {s : Family} {a b : OpenFiles} {ts : List OpenFiles}
    → Inv s
    → (u : Update a b s.tables ts) → Sound (rest_of u) (state_of s a)
unfolding Inv
enter v u = Counted-ap (λ k. rest_before u k) v

leave :
    (s : Family) {a : OpenFiles} (s' : State) {ts : List OpenFiles}
    (u : Update a s'.ofile s.tables ts)
    → Sound (rest_of u) s'
    → Inv (record { files = s'.files; tables = ts })
unfolding Inv
leave s s' u c = Counted-ap (λ k. rest_after u k) c

-- A call that is known to end well ends as it did.
same_end :
    {A : Type 0} {r r' : A} {x x' : State} (others : ℕ → ℕ) {o : Outcome (A × State)}
    → o ≡ ok (r, x)
    → o ≡ ok (r', x')
    → Sound others x
    → Sound others x'
same_end {x} {x'} others e e' c = let same : x ≡ x' = cc in subst (λ s. Sound others s) same c

Step-Inv : {s t : Family} → Step s t → Inv s → Inv t
Step-Inv {s} (dups {a} {s'} n e u) v =
    let (_, _, e', c) = sys_dup-Sound n (state_of s a) (rest_of u) (enter v u) in
    leave s s' u (same_end (rest_of u) e' e c)
Step-Inv {s} (closes {a} {s'} n e u) v =
    let (_, _, e', c) = sys_close-Sound n (state_of s a) (rest_of u) (enter v u) in
    leave s s' u (same_end (rest_of u) e' e c)
Step-Inv {s} (pipes {a} {s'} page c0 c1 e u) v =
    let (_, _, e', c, _) = sys_pipe_lem page c0 c1 (state_of s a) (rest_of u) (enter v u) in
    leave s s' u (same_end (rest_of u) e' e c)
Step-Inv {s} (opens {a} {r} {s'} f {f'} cwd mode path e u) v =
    leave s s' u (sys_open-Sound f f' cwd mode path (state_of s a) s' r (rest_of u) e (enter v u))
Step-Inv {s} (forks {a} {s'} e u) v =
    let (s1, e', c) =
      dup_all_lem a (state_of s a) (λ k. total k s.tables) (unfold Inv in v)
        (λ k. omega (arith, rest_before u k)) in
    let same : s1 ≡ s' = cc in
    unfold Inv in (subst (λ x. Counted x.files (λ k. fd_count k a + total k s.tables)) same c)
Step-Inv {s} (exits {a} {s'} e u) v =
    let (s1, e', c) = close_files_lem (state_of s a) (rest_of u) (enter v u) in
    let same : s1 ≡ s' = cc in leave s s' u (subst (λ x. Sound (rest_of u) x) same c)

Reach-Inv : {s : Family} → Reach s → Inv s
Reach-Inv (start h none_open) =
    unfold Inv in (record { each = λ i. omega (arith, h i, none_open i) })
Reach-Inv (next r st) = Step-Inv st (Reach-Inv r)

-- However the processes have opened, duplicated, closed and piped files, forked and exited, the
-- count of each file is the number of descriptors that have it, over all processes.
pub ref_descriptors : {s : Family} (i : ℕ) → Reach s → ref_at s.files i ≡ total i s.tables
unfolding Inv
ref_descriptors i r = (Reach-Inv r).each i

-- However the processes have got there, none of these calls of a process panics.
pub calls_return :
    {s : Family} {a : OpenFiles}
    → Reach s
    → Update a a s.tables s.tables
    → ((n : ℤ) → (r : ℤ) × (s' : State) × (sys_dup n (state_of s a) ≡ ok (r, s')))
      × ((n : ℤ) → (r : ℤ) × (s' : State) × (sys_close n (state_of s a) ≡ ok (r, s')))
      × ((s' : State) × (dup_all a (state_of s a) ≡ ok s'))
      × ((s' : State) × (close_files (state_of s a) ≡ ok s'))
calls_return {s} {a} r u =
    let v = Reach-Inv r in
    let c = enter v u in
    let (forked, e, _) =
      dup_all_lem a (state_of s a) (λ k. total k s.tables) (unfold Inv in v)
        (λ k. omega (arith, rest_before u k)) in
    let (exited, e', _) = close_files_lem (state_of s a) (rest_of u) c in
    (
      (λ n. let (r1, s1, e1, _) = sys_dup-Sound n (state_of s a) (rest_of u) c in (r1, s1, e1)),
      (λ n. let (r1, s1, e1, _) = sys_close-Sound n (state_of s a) (rest_of u) c in (r1, s1, e1)),
      (forked, e),
      (exited, e'),
    )
