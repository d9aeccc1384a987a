-- ===== src/Tests/Trees.antt =====
-- Runs of kernel/sysfile.c on the file system.
use os_study.Prelude.{
  ℕ, ◌≡◌, refl, false, none, some, List, [], ◌∷◌, pos, negsuc, ok, Outcome, ◌>>=◌, if◌then◌else◌,
  ltb, ◌==◌, ℤ,
}
use os_study.Fs.{Fs, Dinode}
use os_study.Sysfile.{State}
use os_study.Sysfile.Links.{sys_link, sys_unlink}
use os_study.Sysfile.Creation.{sys_mkdir, sys_open, sys_chdir}
use os_study.File.{fd_none, filealloc}

abbrev no_dinode : Dinode
no_dinode = record { kind = 0; major = 0; minor = 0; nlink = 0; size = 0; addrs = λ n. 0 }

-- A disk of 40 blocks of which the first 24 are in use, with an empty root directory in slot 0.
abbrev root_only : Fs
root_only = record {
  size = 40;
  ninodes = 10;
  inodestart = 4;
  bmapstart = 20;
  bytes = λ b i. if b == 20 then (if ltb i 3 then 255 else 0) else 0;
  words = λ b i. 0;
  dinode = λ i. if i == 1 then record no_dinode { kind = 1; nlink = 1 } else no_dinode;
  logged = [];
  inode = λ i. record {
    dev = 1;
    inum = 1;
    ref = if i == 0 then 1 else 0;
    locked = false;
    valid = false;
    info = no_dinode;
  };
}

-- "/d", "/d/f" and "/g"
abbrev d : List ℕ
d = 47 ∷ 100 ∷ []

abbrev d_f : List ℕ
d_f = 47 ∷ 100 ∷ 47 ∷ 102 ∷ []

abbrev g : List ℕ
g = 47 ∷ 103 ∷ []

abbrev no_files : State
no_files = record {
  files =
      record {
        type = fd_none;
        ref = 0;
        readable = false;
        writable = false;
        pipe = 0;
        ip = 0;
        off = 0;
        major = pos 0;
      }
      ∷ [];
  ofile = none ∷ none ∷ [];
  closed = [];
}

-- The results of calls in a row, the last first.
unfoldable results : Outcome (List ℤ)
unfolding sys_mkdir sys_open sys_link sys_unlink sys_chdir
results = do
  (a, f1) ← sys_mkdir root_only 0 (some d)
  (b, s1, f2) ← sys_open f1 0 (some d_f) 0x202 no_files
  (c, f3) ← sys_link f2 0 (some d_f) (some g)
  (e, f4) ← sys_unlink f3 0 (some d)
  (h, f5) ← sys_unlink f4 0 (some d_f)
  (i, f6) ← sys_unlink f5 0 (some d)
  (j, f7) ← sys_unlink f6 0 (some d_f)
  (k, f8) ← sys_link f7 0 (some g) (some d)
  ok (k ∷ j ∷ i ∷ h ∷ e ∷ c ∷ b ∷ a ∷ [])

-- A directory that is not empty is kept; a file that was unlinked is there under its other name.
results_lem :
    results ≡ ok (pos 0 ∷ negsuc 0 ∷ pos 0 ∷ pos 0 ∷ negsuc 0 ∷ pos 0 ∷ pos 0 ∷ pos 0 ∷ [])
unfolding results filealloc
results_lem = refl
