-- ===== src/Pipe.antt =====
-- kernel/pipe.c: a pipe's ring of bytes. A call runs up to the point where it returns or sleeps;
-- what lies between is one critical section of `pi->lock`. A call that sleeps goes on later, from
-- the round it had reached, with whatever pipe it then finds. The user's memory is a parameter:
-- `copyin` and `copyout` of kernel/vm.c, a byte at a time, and the process's `killed` flag, which
-- other processes set. `pipealloc` sets the fields of two open files too; here it is the pipe.
pub mod Ring
pub mod Write
pub mod Read
pub mod Fifo
use os_study.Prelude.{
  ℕ, zero, suc, ◌+◌, ◌%◌, ◌^◌, ℤ, pos, negsuc, pos_part, Bool, true, false, not, ◌&&◌, ◌||◌, Option,
  none, some, List, [], ◌∷◌, ◌==◌, if◌then◌else◌, update,
}

abbrev pub pipe_size : ℕ
pipe_size = 512

-- `uint` arithmetic
abbrev pub uint_mod : ℕ
uint_mod = 2 ^ 32

pub record Pipe : Type 0 where
  pub bytes : ℕ → ℕ
  pub nread : ℕ
  pub nwrite : ℕ
  pub readopen : Bool
  pub writeopen : Bool

-- `&pi->nread` and `&pi->nwrite`, on which readers and writers sleep.
pub data Channel : Type 0 where
  readers writers : Channel

pub data Progress : Type 0 where
  returns : ℤ → Progress
  sleeps : Channel → ℕ → Progress

-- `moved` are the bytes that crossed the pipe's end, in order; `woken` the channels of `wakeup`.
pub record Run : Type 0 where
  pub pipe : Pipe
  pub progress : Progress
  pub woken : List Channel
  pub moved : List ℕ

-- `killed` is asked in each round of `pipewrite`, and once by `piperead`.
pub record Caller : Type 0 where
  pub killed : ℕ → Bool
  pub copyin : ℕ → Option ℕ
  pub copyout : ℕ → Bool

-- `pipealloc`, from the page of `kalloc` with its old bytes.
unfoldable pub pipe_init : (ℕ → ℕ) → Pipe
pipe_init bytes = record { bytes = bytes; nread = 0; nwrite = 0; readopen = true; writeopen = true }

pub record Closed : Type 0 where
  pub pipe : Pipe
  pub woken : Channel
  pub freed : Bool

unfoldable pub pipeclose : Pipe → Bool → Closed
pipeclose p writable =
    let p' = if writable then record p { writeopen = false } else record p { readopen = false } in
    record {
      pipe = p';
      woken = if writable then readers else writers;
      freed = not p'.readopen && not p'.writeopen;
    }

abbrev pub is_full : Pipe → Bool
is_full p = p.nwrite == (p.nread + pipe_size) % uint_mod

abbrev pub is_empty : Pipe → Bool
is_empty p = p.nread == p.nwrite

-- `pi->data[pi->nwrite++ % PIPESIZE] = ch`
unfoldable pub put : Pipe → ℕ → Pipe
put p ch = record p {
  bytes = update p.bytes (p.nwrite % pipe_size) ch;
  nwrite = (p.nwrite + 1) % uint_mod;
}

-- `ch = pi->data[pi->nread % PIPESIZE]` and `pi->nread++`
unfoldable pub front : Pipe → ℕ
front p = p.bytes (p.nread % pipe_size)

unfoldable pub advance : Pipe → Pipe
advance p = record p { nread = (p.nread + 1) % uint_mod }

abbrev pub stop : Pipe → ℤ → List Channel → Run
stop p r woken = record { pipe = p; progress = returns r; woken = woken; moved = [] }

abbrev pub cons_moved : ℕ → Run → Run
cons_moved ch r = record r { moved = ch ∷ r.moved }

-- The loop of `pipewrite`, with `n - i` rounds left.
unfoldable pub write_from : ℕ → Caller → Pipe → ℕ → ℕ → Run
write_from zero c p addr i = stop p (pos i) (readers ∷ [])
write_from (suc k) c p addr i =
    if not p.readopen || c.killed i
    then stop p (negsuc 0) []
    else if is_full p
    then record { pipe = p; progress = sleeps writers i; woken = readers ∷ []; moved = [] }
    else (elim (c.copyin (addr + i)) [
      | none ↦ stop p (pos i) (readers ∷ [])
      | some ch ↦ cons_moved ch (write_from k c (put p ch) addr (i + 1))
    ])

unfoldable pub pipewrite : Caller → Pipe → ℕ → ℤ → Run
unfolding write_from
pipewrite c p addr n = write_from (pos_part n) c p addr 0

-- The copying loop of `piperead`, with `n - i` rounds left.
unfoldable pub read_from : ℕ → Caller → Pipe → ℕ → ℕ → Run
read_from zero c p addr i = stop p (pos i) (writers ∷ [])
read_from (suc k) c p addr i =
    let rest = cons_moved (front p) (read_from k c (advance p) addr (i + 1)) in
    if is_empty p
    then stop p (pos i) (writers ∷ [])
    else if not (c.copyout (addr + i))
    then stop p (if i == 0 then negsuc 0 else pos i) (writers ∷ [])
    else rest

unfoldable pub piperead : Caller → Pipe → ℕ → ℤ → Run
unfolding read_from
piperead c p addr n =
    if is_empty p && p.writeopen
    then if c.killed 0
      then stop p (negsuc 0) []
      else record { pipe = p; progress = sleeps readers 0; woken = []; moved = [] }
    else read_from (pos_part n) c p addr 0
