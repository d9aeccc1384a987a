-- ===== src/File.antt =====
-- kernel/file.c: the table of open files, and reading and writing through one. The sections under
-- `ftable.lock` are single steps. Pipes, inodes and devices are other parts of the kernel: their
-- functions are arguments here. `filestat` is left out.
pub mod Refs
pub mod Chunks
use os_study.Prelude.{
  ℕ, zero, suc, ◌+◌, ◌-◌, ◌*◌, ◌/◌, ◌%◌, ◌^◌, ℤ, pos, negsuc, pos_part, Bool, true, false, not,
  ◌&&◌, ◌||◌, Option, none, some, List, [], ◌∷◌, ◌++◌, Outcome, ok, panic, blocked, ltb, leb, ◌==◌,
  if◌then◌else◌, get_elem?, set,
}
use os_study.Log.{max_op_blocks}

pub data FileType : Type 0 where
  fd_none fd_pipe fd_inode fd_device : FileType

-- `pipe` and `ip` are addresses. A reference count is not negative and does not overflow.
pub record File : Type 0 where
  pub type : FileType
  pub ref : ℕ
  pub readable : Bool
  pub writable : Bool
  pub pipe : ℕ
  pub ip : ℕ
  pub off : ℕ
  pub major : ℤ

abbrev pub with_ref : File → ℕ → File
with_ref f n = record f { ref = n }

-- The loop of `filealloc`, from slot `i` on.
unfoldable pub filealloc_from : ℕ → List File → Option (ℕ × List File)
filealloc_from i [] = none
filealloc_from i (f ∷ fs) =
    let rest = filealloc_from (i + 1) fs in
    if f.ref == 0
    then some (i, with_ref f 1 ∷ fs)
    else (elim rest [ none ↦ none | some (j, gs) ↦ some (j, f ∷ gs) ])

unfoldable pub filealloc : List File → Option (ℕ × List File)
unfolding filealloc_from
filealloc fs = filealloc_from 0 fs

-- `filedup` and `fileclose` of slot `i`, which holds `f`.
unfoldable pub filedup : List File → ℕ → File → Outcome (List File)
filedup fs i f = if ltb f.ref 1 then panic "filedup" else ok (set fs i (with_ref f (f.ref + 1)))

-- What is left to close once the last reference is gone.
pub data Closing : Type 0 where
  nothing : Closing
  closes_pipe : ℕ → Bool → Closing
  puts_inode : ℕ → Closing

abbrev pub closing : File → Closing
closing f = elim f.type [
  | fd_none ↦ nothing
  | fd_pipe ↦ closes_pipe f.pipe f.writable
  | fd_inode ↦ puts_inode f.ip
  | fd_device ↦ puts_inode f.ip
]

unfoldable pub fileclose : List File → ℕ → File → Outcome (Closing × List File)
fileclose fs i f =
    if ltb f.ref 1
    then panic "fileclose"
    else if ltb 0 (f.ref - 1)
    then ok (nothing, set fs i (with_ref f (f.ref - 1)))
    else ok (closing f, set fs i (record f { ref = 0; type = fd_none }))

-- `((MAXOPBLOCKS-1-1-2) / 2) * BSIZE`
abbrev pub max_chunk : ℕ
max_chunk = (max_op_blocks - 1 - 1 - 2) / 2 * 1024

-- A call of `writei`: the address, the offset and the count.
pub record Chunk : Type 0 where
  pub addr : ℕ
  pub off : ℕ
  pub count : ℕ

-- What a call does to the log and to the inode's lock, in order
pub data Event : Type 0 where
  begins_op : Event
  locks_inode : Event
  writes : Chunk → Event
  reads : Chunk → Event
  unlocks_inode : Event
  ends_op : Event

pub record Written : Type 0 where
  pub ret : ℤ
  pub off : ℕ
  pub chunks : List Chunk
  pub events : List Event

-- One round of `filewrite`: its call of `writei` in a transaction of its own
abbrev pub transaction : Chunk → List Event
transaction c = begins_op ∷ locks_inode ∷ writes c ∷ unlocks_inode ∷ ends_op ∷ []

abbrev pub then_chunk : Chunk → Written → Written
then_chunk c w = record w { chunks = c ∷ w.chunks; events = transaction c ++ w.events }

abbrev pub is_count : ℤ → ℕ → Bool
is_count (pos k) m = k == m
is_count (negsuc k) m = false

-- `f->off += r` for a positive `r`
abbrev pub moved : ℕ → ℤ → ℕ
moved off r = (off + pos_part r) % 2 ^ 32

-- The call of `writei` in a round of `filewrite`: `i` of `n` bytes are written.
abbrev pub next_chunk : ℕ → ℕ → ℕ → ℕ → Chunk
next_chunk addr off i n = record {
  addr = addr + i;
  off = off;
  count = if ltb max_chunk (n - i) then max_chunk else n - i;
}

abbrev pub then_all : Chunk → Option Written → Option Written
then_all c none = none
then_all c (some w) = some (then_chunk c w)

-- The loop of `filewrite` on an inode. `writei` gives what that function returns; `none` when the
-- fuel runs out.
unfoldable pub write_chunks : ℕ → (Chunk → ℤ) → ℕ → ℕ → ℕ → ℕ → Option Written
write_chunks zero writei addr off i n = none
write_chunks (suc fuel) writei addr off i n =
    let c = next_chunk addr off i n in
    let off' = moved off (writei c) in
    let rest = then_all c (write_chunks fuel writei addr off' (i + c.count) n) in
    if not (ltb i n)
    then some
        (record { ret = if i == n then pos n else negsuc 0; off = off; chunks = []; events = [] })
    else if not (is_count (writei c) c.count)
    then some (record { ret = negsuc 0; off = off'; chunks = c ∷ []; events = transaction c })
    else rest

-- What the other parts do for one call: the pipe's function, the device's if it has one, and
-- `readi` or `writei`.
pub record Calls : Type 0 where
  pub pipe : ℕ → ℤ
  pub device : ℕ → Option ℤ
  pub inode : Chunk → ℤ

-- `NDEV`
abbrev pub ndev : ℕ
ndev = 10

abbrev pub on_device : Calls → ℤ → ℤ
on_device calls (negsuc k) = negsuc 0
on_device calls (pos k) =
    if leb ndev k then negsuc 0 else (elim (calls.device k) [ none ↦ negsuc 0 | some r ↦ r ])

abbrev pub only : ℤ → ℕ → Written
only r off = record { ret = r; off = off; chunks = []; events = [] }

unfoldable pub fileread : Calls → File → ℕ → ℕ → Outcome Written
fileread calls f addr n = if not f.readable then ok (only (negsuc 0) f.off) else (elim f.type [
  | fd_none ↦ panic "fileread"
  | fd_pipe ↦ ok (only (calls.pipe f.pipe) f.off)
  | fd_device ↦ ok (only (on_device calls f.major) f.off)
  | fd_inode ↦
      let c : Chunk = record { addr = addr; off = f.off; count = n } in
      ok (record {
        ret = calls.inode c;
        off = moved f.off (calls.inode c);
        chunks = c ∷ [];
        events = locks_inode ∷ reads c ∷ unlocks_inode ∷ [];
      })
])

-- `filewrite` of a count that is not negative
unfoldable pub filewrite : ℕ → Calls → File → ℕ → ℕ → Outcome Written
unfolding write_chunks
filewrite fuel calls f addr n =
    if not f.writable then ok (only (negsuc 0) f.off) else (elim f.type [
      | fd_none ↦ panic "filewrite"
      | fd_pipe ↦ ok (only (calls.pipe f.pipe) f.off)
      | fd_device ↦ ok (only (on_device calls f.major) f.off)
      | fd_inode ↦ (elim (write_chunks fuel calls.inode addr f.off 0 n) [
        | none ↦ blocked
        | some w ↦ ok w
      ])
    ])
