-- ===== src/Tests/Descriptors.antt =====
-- Runs of kernel/sysfile.c on descriptors.
use os_study.Prelude.{
  ℕ, zero, suc, ◌≡◌, refl, ℤ, pos, negsuc, Bool, true, false, none, some, [], ◌∷◌, ok,
}
use os_study.File.{
  File, fd_none, filealloc, filealloc_from, filedup, fileclose, with_ref, closes_pipe,
}
use os_study.File.Refs.{ref_at}
use os_study.Sysfile.{
  State, argfd, fdalloc, fdalloc_from, dup_file, close_file, set_file, sys_dup, sys_close,
  pipealloc, pipe_end, close_both, sys_pipe,
}
use os_study.Sysfile.Calls.{Sound}
use os_study.Sysfile.Pipes.{Made, sys_pipe_lem}
use os_study.Sysfile.Family.{Reach, start, next, pipes, here, total, ref_descriptors}

abbrev shut : File
shut = record {
  type = fd_none;
  ref = 0;
  readable = false;
  writable = false;
  pipe = 0;
  ip = 0;
  off = 0;
  major = pos 0;
}

abbrev fresh : State
fresh = record { files = shut ∷ shut ∷ []; ofile = none ∷ none ∷ none ∷ []; closed = [] }

abbrev end_of : Bool → File
end_of w = pipe_end w 0x87000000 (with_ref shut 1)

abbrev piped : State
piped = record fresh {
  files = end_of false ∷ end_of true ∷ [];
  ofile = some 0 ∷ some 1 ∷ none ∷ [];
}

pipe_made : sys_pipe 0x87000000 true true fresh ≡ ok (pos 0, piped)
unfolding sys_pipe pipealloc filealloc filealloc_from set_file fdalloc fdalloc_from
pipe_made = refl

-- `copyout` fails: both ends are closed again.
pipe_undone :
    sys_pipe 0x87000000 true false fresh
    ≡ ok (
      negsuc 0,
      record fresh {
        files =
            record (end_of false) { ref = 0; type = fd_none }
            ∷ record (end_of true) { ref = 0; type = fd_none }
            ∷ [];
        closed = closes_pipe 0x87000000 false ∷ closes_pipe 0x87000000 true ∷ [];
      },
    )
unfolding sys_pipe pipealloc filealloc filealloc_from set_file fdalloc fdalloc_from close_both
    close_file fileclose
pipe_undone = refl

piped_dup :
    sys_dup (pos 0) piped
    ≡ ok (
      pos 2,
      record piped {
        files = with_ref (end_of false) 2 ∷ end_of true ∷ [];
        ofile = some 0 ∷ some 1 ∷ some 0 ∷ [];
      },
    )
unfolding sys_dup argfd fdalloc fdalloc_from dup_file filedup
piped_dup = refl

piped_bad : sys_close (pos 16) piped ≡ ok (negsuc 0, piped)
unfolding sys_close argfd
piped_bad = refl

no_refs : (i : ℕ) → ref_at fresh.files i ≡ 0
no_refs zero = refl
no_refs (suc zero) = refl
no_refs (suc (suc i)) = refl

sys_pipe_lem_example :
    (r : ℤ) × (s' : State) × (sys_pipe 0x87000000 true false fresh ≡ ok (r, s'))
    × Sound (λ k. 0) s'
    × Made 0x87000000 fresh r s'
sys_pipe_lem_example = sys_pipe_lem 0x87000000 true false fresh (λ k. 0) (record { each = no_refs })

first-Reach : Reach (record { files = fresh.files; tables = fresh.ofile ∷ [] })
first-Reach = start no_refs (λ k. refl)

piped-Reach : Reach (record { files = piped.files; tables = piped.ofile ∷ [] })
piped-Reach = next first-Reach (pipes 0x87000000 true true pipe_made here)

ref_descriptors_example : ref_at piped.files 1 ≡ total 1 (piped.ofile ∷ [])
ref_descriptors_example = ref_descriptors 1 piped-Reach
