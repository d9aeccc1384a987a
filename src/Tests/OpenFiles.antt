-- ===== src/Tests/OpenFiles.antt =====
-- kernel/file.c on a table of two files.
use os_study.Prelude.{
  ◌++◌, ℕ, ◌≡◌, refl, true, none, some, List, [], ◌∷◌, pos, negsuc, ok, arith, if◌then◌else◌, ◌==◌,
}
use os_study.File.{
  File, FileType, fd_none, fd_inode, Written, Calls, filealloc, filedup, fileclose, nothing,
  write_chunks, filewrite, transaction,
}
use os_study.File.Refs.{Held, Reach, start, next, alloc, held_file}
use os_study.File.Chunks.{Done, filewrite_lem}

abbrev file : FileType → ℕ → File
file type ref = record {
  type = type;
  ref = ref;
  readable = true;
  writable = true;
  pipe = 0;
  ip = 7;
  off = 10;
  major = pos 0;
}

abbrev closed_files : List File
closed_files = file fd_none 0 ∷ file fd_none 0 ∷ []

first_taken : filealloc closed_files ≡ some (0, file fd_none 1 ∷ file fd_none 0 ∷ [])
unfolding filealloc
first_taken = refl

abbrev one_held : Held
one_held = record { files = file fd_none 1 ∷ file fd_none 0 ∷ []; refs = 0 ∷ [] }

one_held-Reach : Reach one_held
one_held-Reach = next (start (refl, (refl, tt))) (alloc first_taken)

held_file_example :
    ((fs : List File) × (filedup one_held.files 0 (file fd_none 1) ≡ ok fs))
    × ((fs : List File) × (fileclose one_held.files 0 (file fd_none 1) ≡ ok (nothing, fs)))
held_file_example = held_file 0 one_held-Reach refl (omega arith)

second_taken : filealloc one_held.files ≡ some (1, file fd_none 1 ∷ file fd_none 1 ∷ [])
unfolding filealloc
second_taken = refl

-- A disk that is full once 4096 bytes are written.
abbrev calls : Calls
calls = record {
  pipe = λ p. pos 0;
  device = λ k. none;
  inode = λ c. if c.off == 10 then pos c.count else pos 1024;
}

filewrite_lem_example :
    (w : Written) × (filewrite 5001 calls (file fd_inode 1) 100 5000 ≡ ok w)
    × Done calls.inode 100 (file fd_inode 1).off 0 5000 w
filewrite_lem_example = filewrite_lem 5001 calls (file fd_inode 1) 100 5000 refl refl (omega arith)

-- The second chunk is cut short, so the call fails, with the offset past what was written.
filewrite_runs :
    write_chunks 5 calls.inode 100 10 0 5000
    ≡ some (record {
      ret = negsuc 0;
      off = 4106;
      chunks =
          record { addr = 100; off = 10; count = 3072 }
          ∷ record { addr = 3172; off = 3082; count = 1928 }
          ∷ [];
      events =
          transaction (record { addr = 100; off = 10; count = 3072 })
          ++ transaction (record { addr = 3172; off = 3082; count = 1928 });
    })
unfolding write_chunks
filewrite_runs = refl
