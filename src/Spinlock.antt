-- ===== src/Spinlock.antt =====
-- kernel/spinlock.c and `struct spinlock`: the lock itself, and the nesting of interrupt disabling.
-- A function takes the CPU that it runs on and returns what it leaves there. `lk->name`, which
-- only labels the lock, is left out.
pub mod Nesting
pub mod Sections
pub mod Race
use os_study.Prelude.{
  ℕ, ◌+◌, ◌-◌, ◌<◌, Bool, true, false, not, ◌&&◌, Option, none, some, Outcome, ok, panic, blocked,
  ◌>>=◌, if◌then◌else◌, ltb, ◌==◌,
}

-- `struct cpu`, with the hart's number and its `sstatus` interrupt bit, which `intr_get` reads.
pub record Cpu : Type 0 where
  pub hartid : ℕ
  pub interrupts : Bool
  pub noff : ℕ
  pub intena : Bool

-- `cpu` is the holder's hart number, and `none` stands for the null pointer.
pub record Spinlock : Type 0 where
  pub locked : Bool
  pub cpu : Option ℕ

abbrev pub initlock : Spinlock
initlock = record { locked = false; cpu = none }

unfoldable pub push_off : Cpu → Cpu
push_off c = record c {
  interrupts = false;
  intena = if c.noff == 0 then c.interrupts else c.intena;
  noff = c.noff + 1;
}

unfoldable pub pop_off : Cpu → Outcome Cpu
pop_off c =
    if c.interrupts
    then panic "pop_off - interruptible"
    else if ltb c.noff 1
    then panic "pop_off"
    else ok (record c {
      noff = c.noff - 1;
      interrupts = if (c.noff - 1 == 0) && c.intena then true else c.interrupts;
    })

abbrev pub same_hart : Option ℕ → ℕ → Bool
same_hart none h = false
same_hart (some g) h = g == h

unfoldable pub holding : Cpu → Spinlock → Bool
holding c lk = lk.locked && same_hart lk.cpu c.hartid

-- What `acquire` and `release` change.
pub record Holder : Type 0 where
  pub cpu : Cpu
  pub lock : Spinlock

-- The swap loop ends at once on a free lock. On a lock of another CPU it spins: `blocked`.
unfoldable pub acquire : Cpu → Spinlock → Outcome Holder
acquire c lk =
    let c' = push_off c in
    if holding c' lk
    then panic "acquire"
    else if lk.locked
    then blocked
    else ok (record { cpu = c'; lock = record { locked = true; cpu = some c'.hartid } })

unfoldable pub release : Cpu → Spinlock → Outcome Holder
release c lk =
    if not (holding c lk)
    then panic "release"
    else (pop_off c >>= λ c'.
        ok (record { cpu = c'; lock = record { locked = false; cpu = none } }))
