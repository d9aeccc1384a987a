-- ===== src/Bio.antt =====
-- kernel/bio.c: the ring of buffers, most recently used first, and their reference counts. Buffers
-- are numbered from 1, `bcache.head` is 0, and `next` and `prev` are the pointers of each. The
-- sections under `bcache.lock` are single steps; the buffers' sleep locks and their data are left
-- out.
pub mod Ring
pub mod Release
pub mod Lookup
use os_study.Prelude.{
  ℕ, zero, suc, ◌+◌, ◌-◌, ◌%◌, ◌^◌, Bool, true, false, ◌&&◌, Option, none, some, Outcome, ok, panic,
  blocked, ◌==◌, if◌then◌else◌, update,
}

pub record Buf : Type 0 where
  pub valid : Bool
  pub dev : ℕ
  pub blockno : ℕ
  pub refcnt : ℕ

pub record Bcache : Type 0 where
  pub buf : ℕ → Buf
  pub next : ℕ → ℕ
  pub prev : ℕ → ℕ

-- The four writes that put `b` after the head.
unfoldable pub insert_front : Bcache → ℕ → Bcache
insert_front c b =
    let next1 = update c.next b (c.next 0) in
    let prev1 = update c.prev b 0 in
    record c { next = update next1 0 b; prev = update prev1 (next1 0) b }

-- `b->next->prev = b->prev; b->prev->next = b->next`
unfoldable pub unlink : Bcache → ℕ → Bcache
unlink c b =
    let prev1 = update c.prev (c.next b) (c.prev b) in
    record c { prev = prev1; next = update c.next (prev1 b) (c.next b) }

-- `binit`, with `k` buffers to go from `b` on
unfoldable pub binit_from : ℕ → ℕ → Bcache → Bcache
unfolding insert_front
binit_from zero b c = c
binit_from (suc k) b c = binit_from k (b + 1) (insert_front c b)

-- `NBUF` buffers
unfoldable pub binit : (ℕ → Buf) → Bcache
unfolding binit_from
binit bufs = binit_from 30 1 (record { buf = bufs; next = λ b. 0; prev = λ b. 0 })

-- A walk along `step` from `b` to the first buffer that passes the test, or to the head; `none` when
-- the fuel runs out.
unfoldable pub walk : ℕ → (ℕ → ℕ) → (ℕ → Bool) → ℕ → Option ℕ
walk zero step test b = none
walk (suc fuel) step test b =
    let rest = walk fuel step test (step b) in
    if b == 0 then some 0 else if test b then some b else rest

abbrev pub set_buf : Bcache → ℕ → Buf → Bcache
set_buf c b x = record c { buf = update c.buf b x }

abbrev pub caches : Bcache → ℕ → ℕ → ℕ → Bool
caches c dev blockno b = ((c.buf b).dev == dev) && ((c.buf b).blockno == blockno)

-- A buffer found in the cache, and one that is recycled.
abbrev pub take_cached : Bcache → ℕ → Bcache
take_cached c b = let x = c.buf b in set_buf c b (record x { refcnt = (x.refcnt + 1) % 2 ^ 32 })

abbrev pub recycle : Bcache → ℕ → ℕ → ℕ → Bcache
recycle c dev blockno b =
    set_buf c b (record { valid = false; dev = dev; blockno = blockno; refcnt = 1 })

-- The two loops of `bget` by what they find: the first goes on to the second at the head.
abbrev pub bget_from : Bcache → ℕ → ℕ → Option ℕ → Option ℕ → Outcome (ℕ × Bcache)
bget_from c dev blockno none o = blocked
bget_from c dev blockno (some (suc b)) o = ok (suc b, take_cached c (suc b))
bget_from c dev blockno (some zero) none = blocked
bget_from c dev blockno (some zero) (some zero) = panic "bget: no buffers"
bget_from c dev blockno (some zero) (some (suc b)) = ok (suc b, recycle c dev blockno (suc b))

-- `bget`, up to its `acquiresleep` of the buffer
unfoldable pub bget : ℕ → Bcache → ℕ → ℕ → Outcome (ℕ × Bcache)
unfolding walk
bget fuel c dev blockno =
    bget_from c dev blockno (walk fuel c.next (caches c dev blockno) (c.next 0))
      (walk fuel c.prev (λ b. (c.buf b).refcnt == 0) (c.prev 0))

-- `brelse` of a buffer whose sleep lock the caller holds
unfoldable pub brelse : Bcache → ℕ → Bcache
unfolding insert_front unlink
brelse c b =
    let x = c.buf b in
    let n = (x.refcnt + 2 ^ 32 - 1) % 2 ^ 32 in
    let c1 = set_buf c b (record x { refcnt = n }) in
    if n == 0 then insert_front (unlink c1 b) b else c1
