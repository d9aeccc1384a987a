-- ===== src/Log.antt =====
-- kernel/log.c: the write-ahead log. The buffer cache and the disk under it are `Io`: a buffer that
-- is cached stands in `cache`, `bread` returns it or else the block on disk, `bwrite` puts a buffer
-- on disk. `writes` lists the disk writes in order; a crash keeps a first part of them. A block is
-- its 32-bit words, a `struct logheader` its first ones. The lock sections are single steps; where
-- the code sleeps the result is `blocked`, and it tries again once woken.
pub mod Disk
pub mod Head
pub mod Budget
pub mod Space
pub mod Commit
pub mod Replay
pub mod Crash
pub mod Atomic
pub mod Again
use os_study.Log.Disk.{Block, Io, view, bwrite, bpin, bunpin}
use os_study.Prelude.{
  ℕ, zero, suc, ◌+◌, ◌-◌, ◌*◌, Bool, true, false, ◌||◌, List, [], ◌∷◌, ◌++◌, ℤ, pos, negsuc,
  Outcome, ok, panic, blocked, ltb, leb, ◌==◌, if◌then◌else◌, update, length,
}

-- `MAXOPBLOCKS` and `LOGBLOCKS`
abbrev pub max_op_blocks : ℕ
max_op_blocks = 10

abbrev pub log_blocks : ℕ
log_blocks = max_op_blocks * 3

-- `lh` is `lh.block[0..lh.n)`.
pub record Log : Type 0 where
  pub start : ℕ
  pub outstanding : ℤ
  pub committing : Bool
  pub lh : List ℕ
  pub io : Io

-- `hb->block[i] = ...` for the words from `i` on
unfoldable pub put_words : Block → ℕ → List ℕ → Block
put_words blk i [] = blk
put_words blk i (x ∷ xs) = put_words (update blk i x) (i + 1) xs

-- The `n` words from `i` on.
unfoldable pub get_words : Block → ℕ → ℕ → List ℕ
get_words blk i zero = []
get_words blk i (suc n) = blk i ∷ get_words blk (i + 1) n

-- `lh->n` and `lh->block[0..n)` in the header block
unfoldable pub head_block : Block → List ℕ → Block
unfolding put_words
head_block blk lh = put_words (update blk 0 (length lh)) 1 lh

unfoldable pub read_head : Log → Log
unfolding get_words
read_head l = let b = view l.io l.start in record l { lh = get_words b 1 (b 0) }

unfoldable pub write_head : Log → Log
unfolding head_block
write_head l = record l { io = bwrite l.io l.start (head_block (view l.io l.start) l.lh) }

-- `write_log`, from block `tail` of the header on
unfoldable pub write_log_from : Io → ℕ → ℕ → List ℕ → Io
write_log_from io start tail [] = io
write_log_from io start tail (b ∷ bs) =
    write_log_from (bwrite io (start + tail + 1) (view io b)) start (tail + 1) bs

unfoldable pub write_log : Log → Log
unfolding write_log_from
write_log l = record l { io = write_log_from l.io l.start 0 l.lh }

-- `install_trans`, from block `tail` of the header on; its messages are left out.
unfoldable pub install_from : Bool → Io → ℕ → ℕ → List ℕ → Io
install_from recovering io start tail [] = io
install_from recovering io start tail (b ∷ bs) =
    let io' = bwrite io b (view io (start + tail + 1)) in
    install_from recovering (if recovering then io' else bunpin io' b) start (tail + 1) bs

unfoldable pub install_trans : Bool → Log → Log
unfolding install_from
install_trans recovering l = record l { io = install_from recovering l.io l.start 0 l.lh }

unfoldable pub recover_from_log : Log → Log
unfolding read_head install_trans write_head
recover_from_log l = write_head (record (install_trans true (read_head l)) { lh = [] })

-- What `initlog` sets; `log` is zero before. Its size check is a constant: 124 < 1024.
unfoldable pub initlog : ℕ → Io → Log
unfolding recover_from_log
initlog logstart io =
    recover_from_log
      (record { start = logstart; outstanding = pos 0; committing = false; lh = []; io = io })

unfoldable pub commit : Log → Log
unfolding write_log write_head install_trans
commit l =
    if ltb 0 (length l.lh)
    then write_head (record (install_trans false (write_head (write_log l))) { lh = [] })
    else l

-- `n + (outstanding+1)*MAXOPBLOCKS > LOGBLOCKS`
unfoldable pub exceeds : ℕ → ℤ → Bool
exceeds n (pos k) = ltb log_blocks (n + (k + 1) * max_op_blocks)
exceeds n (negsuc k) = ltb (log_blocks + k * max_op_blocks) n

abbrev pub inc : ℤ → ℤ
inc (pos n) = pos (suc n)
inc (negsuc zero) = pos 0
inc (negsuc (suc n)) = negsuc n

abbrev pub dec : ℤ → ℤ
dec (pos zero) = negsuc 0
dec (pos (suc n)) = pos n
dec (negsuc n) = negsuc (suc n)

abbrev pub is_zero : ℤ → Bool
is_zero (pos n) = n == 0
is_zero (negsuc n) = false

abbrev pub below_one : ℤ → Bool
below_one (pos n) = n == 0
below_one (negsuc n) = true

unfoldable pub begin_op : Log → Outcome Log
unfolding exceeds
begin_op l =
    if l.committing
    then blocked
    else if exceeds (length l.lh) l.outstanding
    then blocked
    else ok (record l { outstanding = inc l.outstanding })

unfoldable pub end_op : Log → Outcome Log
end_op l =
    if l.committing
    then panic "log.committing"
    else if is_zero (dec l.outstanding)
    then ok (record (commit (record l { outstanding = dec l.outstanding; committing = true })) {
      committing = false;
    })
    else ok (record l { outstanding = dec l.outstanding })

-- The search of `log_write` for `blockno` among the logged blocks.
abbrev pub logged : ℕ → List ℕ → Bool
logged b [] = false
logged b (x ∷ xs) = (x == b) || logged b xs

-- `b` is a locked buffer of block `blockno`. Where it is found, `block[i] = blockno` changes nothing.
unfoldable pub log_write : Log → ℕ → Outcome Log
log_write l blockno =
    if leb log_blocks (length l.lh)
    then panic "too big a transaction"
    else if below_one l.outstanding
    then panic "log_write outside of trans"
    else if logged blockno l.lh
    then ok l
    else ok (record l { lh = l.lh ++ (blockno ∷ []); io = bpin l.io blockno })
