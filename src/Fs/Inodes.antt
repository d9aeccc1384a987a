-- ===== src/Fs/Inodes.antt =====
-- kernel/fs.c: the table of inodes in memory. An inode is its slot in `itable`. `itable.lock` makes
-- each function one step, as `iput` cannot be overtaken where it gives the lock up: its reference is
-- the last. The sleep lock of an inode is `locked`: another process's hold is `blocked`.
use os_study.Prelude.{
  ℕ, zero, suc, ◌+◌, ◌-◌, Bool, true, false, not, ◌&&◌, Option, none, some, Outcome, ok, panic,
  blocked, ◌>>=◌, ltb, ◌==◌, if◌then◌else◌, update,
}
use os_study.Fs.{Dinode, Inode, Fs, log_write, inode_block, set_info, iupdate, itrunc}

abbrev pub set_inode : Fs → ℕ → Inode → Fs
set_inode f i ip = record f { inode = update f.inode i ip }

-- `NINODE`
abbrev pub ninode : ℕ
ninode = 50

-- `iget` looks at slot `i`, with `k` slots to go; `empty` is the slot that it remembers.
abbrev pub remember : Fs → ℕ → Option ℕ → Option ℕ
remember f i (some e) = some e
remember f i none = if (f.inode i).ref == 0 then some i else none

abbrev pub is_for : Inode → ℕ → ℕ → Bool
is_for ip dev inum = ltb 0 ip.ref && (ip.dev == dev) && (ip.inum == inum)

abbrev pub recycle_slot : Fs → ℕ → ℕ → ℕ → Fs
recycle_slot f e dev inum =
    set_inode f e (record (f.inode e) { dev = dev; inum = inum; ref = 1; valid = false })

unfoldable pub iget_from : ℕ → Fs → ℕ → ℕ → ℕ → Option ℕ → Outcome (ℕ × Fs)
iget_from zero f dev inum i none = panic "iget: no inodes"
iget_from zero f dev inum i (some e) = ok (e, recycle_slot f e dev inum)
iget_from (suc k) f dev inum i empty =
    let ip = f.inode i in
    let rest = iget_from k f dev inum (i + 1) (remember f i empty) in
    if is_for ip dev inum then ok (i, set_inode f i (record ip { ref = ip.ref + 1 })) else rest

unfoldable pub iget : Fs → ℕ → ℕ → Outcome (ℕ × Fs)
unfolding iget_from
iget f dev inum = iget_from ninode f dev inum 0 none

abbrev pub idup : Fs → ℕ → Fs
idup f i = set_inode f i (record (f.inode i) { ref = (f.inode i).ref + 1 })

-- The free inodes that `ialloc` looks for, from `inum` on, with `k` to go
unfoldable pub ialloc_from : ℕ → Fs → ℕ → ℕ → ℕ → Outcome (Option ℕ × Fs)
unfolding iget
ialloc_from zero f dev kind inum = ok (none, f)
ialloc_from (suc k) f dev kind inum =
    let rest = ialloc_from k f dev kind (inum + 1) in
    let d : Dinode = record {
      kind = kind;
      major = 0;
      minor = 0;
      nlink = 0;
      size = 0;
      addrs = λ n. 0;
    } in
    let marked = log_write (record f { dinode = update f.dinode inum d }) (inode_block f inum) in
    if (f.dinode inum).kind == 0 then (do (i, f1) ← iget marked dev inum; ok (some i, f1)) else rest

unfoldable pub ialloc : Fs → ℕ → ℕ → Outcome (Option ℕ × Fs)
unfolding ialloc_from
ialloc f dev kind = ialloc_from (f.ninodes - 1) f dev kind 1

abbrev pub acquiresleep : Fs → ℕ → Outcome Fs
acquiresleep f i =
    if (f.inode i).locked
    then blocked
    else ok (set_inode f i (record (f.inode i) { locked = true }))

abbrev pub releasesleep : Fs → ℕ → Fs
releasesleep f i = set_inode f i (record (f.inode i) { locked = false })

-- The inode is read from the disk unless it is valid.
abbrev pub fill_inode : Fs → ℕ → Outcome Fs
fill_inode f i =
    let ip = f.inode i in
    let d = f.dinode ip.inum in
    if ip.valid
    then ok f
    else if d.kind == 0
    then panic "ilock: no type"
    else ok (set_inode f i (record ip { info = d; valid = true }))

unfoldable pub ilock : Fs → ℕ → Outcome Fs
ilock f i =
    if ltb (f.inode i).ref 1 then panic "ilock" else acquiresleep f i >>= λ f1. fill_inode f1 i

unfoldable pub iunlock : Fs → ℕ → Outcome Fs
iunlock f i =
    if not (f.inode i).locked
    then panic "iunlock"
    else if ltb (f.inode i).ref 1
    then panic "iunlock"
    else ok (releasesleep f i)

-- The inode without links is freed on the disk.
unfoldable pub free_inode : Fs → ℕ → Outcome Fs
unfolding itrunc iupdate
free_inode f i = do
  f1 ← acquiresleep f i
  f2 ← itrunc f1 i
  let f3 = iupdate (set_info f2 i (record ((f2.inode i).info) { kind = 0 })) i
  let f4 = set_inode f3 i (record (f3.inode i) { valid = false })
  ok (releasesleep f4 i)

abbrev pub drop_ref : Fs → ℕ → Fs
drop_ref f i = set_inode f i (record (f.inode i) { ref = (f.inode i).ref - 1 })

unfoldable pub iput : Fs → ℕ → Outcome Fs
unfolding free_inode
iput f i =
    let ip = f.inode i in
    let freeing = (do f1 ← free_inode f i; ok (drop_ref f1 i)) in
    if (ip.ref == 1) && ip.valid && (ip.info.nlink == 0) then freeing else ok (drop_ref f i)

unfoldable pub iunlockput : Fs → ℕ → Outcome Fs
unfolding iunlock iput
iunlockput f i = iunlock f i >>= λ f1. iput f1 i

-- The loop of `ireclaim`, with `k` inodes to go
unfoldable pub reclaim_one : Fs → ℕ → ℕ → Outcome Fs
unfolding iget ilock iunlock iput
reclaim_one f dev inum = do (i, f1) ← iget f dev inum; f2 ← ilock f1 i; f3 ← iunlock f2 i; iput f3 i

unfoldable pub ireclaim_from : ℕ → Fs → ℕ → ℕ → Outcome Fs
unfolding reclaim_one
ireclaim_from zero f dev inum = ok f
ireclaim_from (suc k) f dev inum = do
  let d = f.dinode inum
  f1 ← (if not (d.kind == 0) && (d.nlink == 0) then reclaim_one f dev inum else ok f)
  ireclaim_from k f1 dev (inum + 1)

unfoldable pub ireclaim : Fs → ℕ → Outcome Fs
unfolding ireclaim_from
ireclaim f dev = ireclaim_from (f.ninodes - 1) f dev 1
