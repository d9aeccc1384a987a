-- ===== src/Fs.antt =====
-- kernel/fs.c: the blocks and inodes of the file system. `Fs` is the disk as the buffer cache shows
-- it inside a transaction: `bread` and `brelse` around a block leave no trace, and `logged` has the
-- blocks that `log_write` was called for. A block is read in one way only: as bytes, as 32-bit words
-- (an indirect block) or as inodes, `dinode`, by their numbers. There is one disk.
pub mod Inodes
pub mod Content
pub mod Names
pub mod Paths
pub mod Slots
pub mod Bits
pub mod Blocks
pub mod Balloc
pub mod Bmap
pub mod Indirect
pub mod Readi
use os_study.Prelude.{
  ℕ, zero, suc, ◌+◌, ◌-◌, ◌*◌, ◌/◌, ◌%◌, ◌^◌, Bool, not, List, ◌∷◌, Option, none, some, Outcome, ok,
  panic, blocked, ◌>>=◌, ltb, ◌==◌, if◌then◌else◌, update,
}

-- `struct dinode`; `kind` is its type, 0 when the inode is free.
pub record Dinode : Type 0 where
  pub kind : ℕ
  pub major : ℕ
  pub minor : ℕ
  pub nlink : ℕ
  pub size : ℕ
  pub addrs : ℕ → ℕ

-- `struct inode`; `info` has the copy of the disk inode, and `locked` says that its sleep lock is held.
pub record Inode : Type 0 where
  pub dev : ℕ
  pub inum : ℕ
  pub ref : ℕ
  pub locked : Bool
  pub valid : Bool
  pub info : Dinode

-- The super block's fields, the disk, and `itable`
pub record Fs : Type 0 where
  pub size : ℕ
  pub ninodes : ℕ
  pub inodestart : ℕ
  pub bmapstart : ℕ
  pub bytes : ℕ → ℕ → ℕ
  pub words : ℕ → ℕ → ℕ
  pub dinode : ℕ → Dinode
  pub logged : List ℕ
  pub inode : ℕ → Inode

-- `BSIZE`, `BPB`, `NDIRECT`, `NINDIRECT` and `IPB`
abbrev pub block_size : ℕ
block_size = 1024

abbrev pub bits_per_block : ℕ
bits_per_block = 8192

abbrev pub ndirect : ℕ
ndirect = 12

abbrev pub nindirect : ℕ
nindirect = 256

-- `BBLOCK(b, sb)` and `IBLOCK(i, sb)`: an inode takes 64 bytes.
abbrev pub bitmap_block : Fs → ℕ → ℕ
bitmap_block f b = b / bits_per_block + f.bmapstart

abbrev pub inode_block : Fs → ℕ → ℕ
inode_block f i = i / 16 + f.inodestart

abbrev pub log_write : Fs → ℕ → Fs
log_write f b = record f { logged = b ∷ f.logged }

unfoldable pub bzero : Fs → ℕ → Fs
bzero f b =
    log_write (record f { bytes = update f.bytes b (λ i. 0); words = update f.words b (λ i. 0) }) b

-- Bit `bi` of a bitmap block: `data[bi/8] & (1 << (bi % 8))`
abbrev pub bit : (ℕ → ℕ) → ℕ → Bool
bit data_of bi = data_of (bi / 8) / 2 ^ (bi % 8) % 2 == 1

-- `|= m` for a bit that is 0, `&= ~m` for one that is 1
abbrev pub set_bit : (ℕ → ℕ) → ℕ → ℕ → ℕ
set_bit data_of bi = update data_of (bi / 8) (data_of (bi / 8) + 2 ^ (bi % 8))

abbrev pub clear_bit : (ℕ → ℕ) → ℕ → ℕ → ℕ
clear_bit data_of bi = update data_of (bi / 8) (data_of (bi / 8) - 2 ^ (bi % 8))

-- The inner loop of `balloc` from `bi` on, with `k` bits to go
unfoldable pub find_bit : ℕ → (ℕ → ℕ) → ℕ → ℕ → ℕ → Option ℕ
find_bit zero data_of b bi size = none
find_bit (suc k) data_of b bi size =
    let rest = find_bit k data_of b (bi + 1) size in
    if not (ltb (b + bi) size) then none else if not (bit data_of bi) then some bi else rest

-- Block `b + bi` is marked in use, and cleared.
abbrev pub take_block : Fs → ℕ → ℕ → Fs
take_block f b bi =
    let bb = bitmap_block f b in
    bzero (log_write (record f { bytes = update f.bytes bb (set_bit (f.bytes bb) bi) }) bb) (b + bi)

abbrev pub taken_or : Fs → ℕ → Option ℕ → ℕ × Fs → ℕ × Fs
taken_or f b none rest = rest
taken_or f b (some bi) rest = (b + bi, take_block f b bi)

-- The outer loop of `balloc` from `b` on, with `k` bitmap blocks to go
unfoldable pub balloc_from : ℕ → Fs → ℕ → ℕ × Fs
unfolding find_bit bzero
balloc_from zero f b = (0, f)
balloc_from (suc k) f b =
    let rest = balloc_from k f (b + bits_per_block) in
    taken_or f b (find_bit bits_per_block (f.bytes (bitmap_block f b)) b 0 f.size) rest

-- `for(b = 0; b < sb.size; b += BPB)`
unfoldable pub balloc : Fs → ℕ × Fs
unfolding balloc_from
balloc f = balloc_from ((f.size + (bits_per_block - 1)) / bits_per_block) f 0

unfoldable pub bfree : Fs → ℕ → Outcome Fs
bfree f b =
    let bb = bitmap_block f b in
    let bi = b % bits_per_block in
    if not (bit (f.bytes bb) bi)
    then panic "freeing free block"
    else ok (log_write (record f { bytes = update f.bytes bb (clear_bit (f.bytes bb) bi) }) bb)

-- Inode `i` of the table with its copy of the disk inode changed
abbrev pub set_info : Fs → ℕ → Dinode → Fs
set_info f i d = record f { inode = update f.inode i (record (f.inode i) { info = d }) }

abbrev pub set_addr : Fs → ℕ → ℕ → ℕ → Fs
set_addr f i n addr =
    let d = (f.inode i).info in set_info f i (record d { addrs = update d.addrs n addr })

unfoldable pub iupdate : Fs → ℕ → Fs
iupdate f i =
    let ip = f.inode i in
    log_write (record f { dinode = update f.dinode ip.inum ip.info }) (inode_block f ip.inum)

-- `ip->addrs[n]`, or a new block for it; 0 if there is none.
abbrev pub keep_addr : ℕ → ℕ → ℕ × Fs → ℕ × Fs
keep_addr i n (addr, f) = if addr == 0 then (0, f) else (addr, set_addr f i n addr)

unfoldable pub addr_or_new : Fs → ℕ → ℕ → ℕ × Fs
unfolding balloc
addr_or_new f i n =
    let addr = (f.inode i).info.addrs n in if addr == 0 then keep_addr i n (balloc f) else (addr, f)

-- `a[bn]` of indirect block `ind`, or a new block for it.
abbrev pub keep_word : ℕ → ℕ → ℕ × Fs → ℕ × Fs
keep_word ind bn (addr, f) = if addr == 0 then (0, f) else (
  addr,
  log_write (record f { words = update f.words ind (update (f.words ind) bn addr) }) ind,
)

unfoldable pub word_or_new : ℕ → ℕ × Fs → ℕ × Fs
unfolding balloc
word_or_new bn (ind, f) =
    if ind == 0
    then (0, f)
    else if f.words ind bn == 0
    then keep_word ind bn (balloc f)
    else (f.words ind bn, f)

unfoldable pub bmap : Fs → ℕ → ℕ → Outcome (ℕ × Fs)
unfolding addr_or_new word_or_new
bmap f i bn =
    if ltb bn ndirect
    then ok (addr_or_new f i bn)
    else if ltb (bn - ndirect) nindirect
    then ok (word_or_new (bn - ndirect) (addr_or_new f i ndirect))
    else panic "bmap: out of range"

-- The loops of `itrunc`, with `k` rounds to go
unfoldable pub free_direct : ℕ → Fs → ℕ → ℕ → Outcome Fs
unfolding bfree
free_direct zero f i n = ok f
free_direct (suc k) f i n = do
  let addr = (f.inode i).info.addrs n
  f1 ← (if addr == 0 then ok f else do f2 ← bfree f addr; ok (set_addr f2 i n 0))
  free_direct k f1 i (n + 1)

unfoldable pub free_words : ℕ → Fs → ℕ → ℕ → Outcome Fs
unfolding bfree
free_words zero f ind j = ok f
free_words (suc k) f ind j = do
  f1 ← (if f.words ind j == 0 then ok f else bfree f (f.words ind j))
  free_words k f1 ind (j + 1)

unfoldable pub free_indirect : Fs → ℕ → Outcome Fs
unfolding free_words
free_indirect f i =
    let ind = (f.inode i).info.addrs ndirect in
    if ind == 0
    then ok f
    else (do f1 ← free_words nindirect f ind 0; f2 ← bfree f1 ind; ok (set_addr f2 i ndirect 0))

unfoldable pub itrunc : Fs → ℕ → Outcome Fs
unfolding free_direct free_indirect iupdate
itrunc f i = do
  f1 ← free_direct ndirect f i 0
  f2 ← free_indirect f1 i
  ok (iupdate (set_info f2 i (record ((f2.inode i).info) { size = 0 })) i)
