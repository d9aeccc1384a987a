-- ===== src/Spinlock/Sections.antt =====
-- kernel/spinlock.c: what one CPU sees of `acquire` and `release`.
use os_study.Prelude.{true, some, ◌≡◌, false, Outcome, ok, panic, ◌>>=◌, arith}
use os_study.Spinlock.{
  Cpu, Spinlock, initlock, Holder, push_off, pop_off, holding, acquire, release,
}
use os_study.Spinlock.Nesting.{IsQuiet, settled}

-- A critical section: `acquire(lk); ...; release(lk)`.
pub section : Cpu → Spinlock → Outcome Holder
section c lk = acquire c lk >>= λ h. release h.cpu h.lock

-- A critical section on a free lock panics nowhere, frees the lock, and gives the CPU back its
-- nesting depth and interrupt bit.
pub section-free :
    (c : Cpu) (lk : Spinlock)
    → IsQuiet c
    → lk.locked ≡ false
    → section c lk ≡ ok (record { cpu = settled c c.interrupts; lock = initlock })
unfolding section acquire release holding push_off pop_off
section-free c lk quiet l = ground arith

-- Taking a lock twice on one CPU panics, whatever locks are held in between: no `acquire` of a lock
-- that the same CPU acquired before and has not released returns.
pub acquire-twice :
    (c d : Cpu) (lk : Spinlock) {h : Holder}
    → acquire c lk ≡ ok h
    → d.hartid ≡ c.hartid
    → acquire d h.lock ≡ panic "acquire"
unfolding acquire holding push_off
acquire-twice c d lk e same = ground arith

abbrev pub held : Cpu → Spinlock
held c = record { locked = true; cpu = some c.hartid }

-- The two halves of a section, for the functions that work between them.
pub acquire-free :
    (c : Cpu) (lk : Spinlock)
    → lk.locked ≡ false
    → acquire c lk ≡ ok (record { cpu = push_off c; lock = held c })
unfolding acquire holding push_off
acquire-free c lk l = ground arith

pub release-held :
    (c : Cpu)
    → IsQuiet c
    → release (push_off c) (held c) ≡ ok (record { cpu = settled c c.interrupts; lock = initlock })
unfolding release holding push_off pop_off
release-held c quiet = ground arith
