-- ===== src/Sysfile.antt =====
-- kernel/sysfile.c: file descriptors, with `pipealloc` of kernel/pipe.c and the loops over open files
-- of `kfork` and `kexit` of kernel/proc.c. A `struct file` is its slot in the table of kernel/file.c,
-- and `ofile` is the list of the process's `NOFILE` entries. What `fileclose` hands on to pipes and
-- inodes is collected in `closed`. Arguments of system calls are given as the numbers that `argint`
-- and `argaddr` fetch. `kalloc` and `copyout` are arguments: a page or 0, and whether it succeeds.
pub mod Tables
pub mod Calls
pub mod Pipes
pub mod Family
pub mod Links
pub mod Creation
pub mod Loops
use os_study.Prelude.{
  ℕ, zero, suc, ◌+◌, ◌≡◌, ℤ, pos, negsuc, Bool, true, false, not, ◌&&◌, map, Option, none, some,
  List, [], ◌∷◌, ◌++◌, ◌==◌, leb, if◌then◌else◌, get_elem?, set, Outcome, ok, panic, blocked, ◌>>=◌,
}
use os_study.File.{File, fd_pipe, filealloc, filealloc_from, filedup, fileclose, Closing}

-- `NOFILE`
abbrev pub nofile : ℕ
nofile = 16

abbrev pub OpenFiles : Type 0
OpenFiles = List (Option ℕ)

-- The table of open files, the descriptors of the current process, and what was closed.
pub record State : Type 0 where
  pub files : List File
  pub ofile : OpenFiles
  pub closed : List Closing

abbrev pub entry : ℕ → Option (Option ℕ) → Option (ℕ × ℕ)
entry fd none = none
entry fd (some none) = none
entry fd (some (some f)) = some (fd, f)

-- The descriptor and its file; `none` for -1.
unfoldable pub argfd : OpenFiles → ℤ → Option (ℕ × ℕ)
argfd ofile (negsuc n) = none
argfd ofile (pos fd) = if leb nofile fd then none else entry fd (get_elem? ofile fd)

-- The loop of `fdalloc` from the descriptor `fd` on.
unfoldable pub fdalloc_from : ℕ → OpenFiles → ℕ → Option (ℕ × OpenFiles)
fdalloc_from fd [] f = none
fdalloc_from fd (none ∷ ofile) f = some (fd, some f ∷ ofile)
fdalloc_from fd (some g ∷ ofile) f = elim (fdalloc_from (fd + 1) ofile f) [
  | none ↦ none
  | some (i, rest) ↦ some (i, some g ∷ rest)
]

unfoldable pub fdalloc : OpenFiles → ℕ → Option (ℕ × OpenFiles)
unfolding fdalloc_from
fdalloc ofile f = fdalloc_from 0 ofile f

-- A pointer to no slot of the table does not occur.
abbrev pub with_slot : {A : Type 0} → Option File → (File → Outcome A) → Outcome A
with_slot none go = blocked
with_slot (some f) go = go f

-- `filedup(f)` and `fileclose(f)` for the file in slot `i`.
unfoldable pub dup_file : ℕ → State → Outcome State
dup_file i s =
    with_slot (get_elem? s.files i) λ f. filedup s.files i f >>= λ fs. ok (record s { files = fs })

unfoldable pub close_file : ℕ → State → Outcome State
close_file i s =
    with_slot (get_elem? s.files i) λ f.
      fileclose s.files i f >>= λ r. ok (record s { files = r.1; closed = s.closed ++ r.0 ∷ [] })

abbrev pub with_ret : ℤ → State → Outcome (ℤ × State)
with_ret r s = ok (r, s)

unfoldable pub sys_dup : ℤ → State → Outcome (ℤ × State)
unfolding argfd fdalloc dup_file
sys_dup n s = elim (argfd s.ofile n) [
  | none ↦ ok (negsuc 0, s)
  | some (_, f) ↦ elim (fdalloc s.ofile f) [
    | none ↦ ok (negsuc 0, s)
    | some (fd, ofile) ↦ dup_file f (record s { ofile = ofile }) >>= with_ret (pos fd)
  ]
]

unfoldable pub sys_close : ℤ → State → Outcome (ℤ × State)
unfolding argfd close_file
sys_close n s = elim (argfd s.ofile n) [
  | none ↦ ok (negsuc 0, s)
  | some (fd, f) ↦ close_file f (record s { ofile = set s.ofile fd none }) >>= with_ret (pos 0)
]

-- How `sys_open` takes a file and a descriptor for it; `none` for its error path.
unfoldable pub open_slot : State → Outcome (Option (ℕ × ℕ) × State)
unfolding fdalloc close_file
open_slot s = elim (filealloc s.files) [
  | none ↦ ok (none, s)
  | some (f, fs) ↦ elim (fdalloc s.ofile f) [
    | none ↦ close_file f (record s { files = fs }) >>= λ s1. ok (none, s1)
    | some (fd, ofile) ↦ ok (some (f, fd), record s { files = fs; ofile = ofile })
  ]
]

-- The two ends of the pipe at `pi`.
abbrev pub pipe_end : Bool → ℕ → File → File
pipe_end write pi f = record f { type = fd_pipe; readable = not write; writable = write; pipe = pi }

unfoldable pub set_file : ℕ → (File → File) → List File → List File
set_file i change fs = elim (get_elem? fs i) [ none ↦ fs | some f ↦ set fs i (change f) ]

-- `page` is what `kalloc` returns. The result are the slots of the two files, or `none` for -1.
unfoldable pub pipealloc : ℕ → State → Outcome (Option (ℕ × ℕ) × State)
unfolding set_file close_file
pipealloc page s = elim (filealloc s.files) [
  | none ↦ ok (none, s)
  | some (f0, fs) ↦ elim (filealloc fs) [
    | none ↦ close_file f0 (record s { files = fs }) >>= λ s1. ok (none, s1)
    | some (f1, fs1) ↦
        if page == 0
        then (close_file f0 (record s { files = fs1 }) >>= close_file f1 >>= λ s2. ok (none, s2))
        else ok (
          some (f0, f1),
          record s {
            files = set_file f1 (pipe_end true page) (set_file f0 (pipe_end false page) fs1);
          },
        )
  ]
]

-- `fileclose(rf); fileclose(wf); return -1;`
unfoldable pub close_both : ℕ → ℕ → State → Outcome (ℤ × State)
unfolding close_file
close_both rf wf s = close_file rf s >>= λ s1. close_file wf s1 >>= with_ret (negsuc 0)

-- `copied0` and `copied1` say whether `copyout` of the two descriptors succeeds.
unfoldable pub sys_pipe : ℕ → Bool → Bool → State → Outcome (ℤ × State)
unfolding pipealloc fdalloc close_both
sys_pipe page copied0 copied1 s = pipealloc page s >>= λ r. elim r.0 [
  | none ↦ ok (negsuc 0, r.1)
  | some (rf, wf) ↦ elim (fdalloc s.ofile rf) [
    | none ↦ close_both rf wf r.1
    | some (fd0, ofile0) ↦ elim (fdalloc ofile0 wf) [
      | none ↦ close_both rf wf (record r.1 { ofile = set ofile0 fd0 none })
      | some (fd1, ofile1) ↦
          if copied0 && copied1
          then ok (pos 0, record r.1 { ofile = ofile1 })
          else close_both rf wf (record r.1 { ofile = set (set ofile1 fd0 none) fd1 none })
    ]
  ]
]

-- The loop of `kfork`: every open file has one more reference.
unfoldable pub dup_all : OpenFiles → State → Outcome State
unfolding dup_file
dup_all [] s = ok s
dup_all (none ∷ rest) s = dup_all rest s
dup_all (some f ∷ rest) s = dup_file f s >>= dup_all rest

-- The loop of `kexit`, from some descriptor on.
unfoldable pub close_all : OpenFiles → State → Outcome State
unfolding close_file
close_all [] s = ok s
close_all (none ∷ rest) s = close_all rest s
close_all (some f ∷ rest) s = close_file f s >>= close_all rest

-- What `kexit` does to the open files of the process.
unfoldable pub close_files : State → Outcome State
unfolding close_all
close_files s = close_all s.ofile s >>= λ s'. ok (record s' { ofile = map (λ f. none) s.ofile })
