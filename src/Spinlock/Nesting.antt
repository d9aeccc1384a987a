-- ===== src/Spinlock/Nesting.antt =====
-- kernel/spinlock.c: nests of `push_off` and `pop_off`.
use os_study.Prelude.{
  ℕ, zero, suc, ◌<◌, ◌≡◌, refl, ap, fun_ext, Bool, false, Outcome, ok, panic, blocked, ◌>>=◌, arith,
  if◌then◌else◌, ◌==◌,
}
use os_study.Spinlock.{Cpu, push_off, pop_off}

-- While a CPU has pushed, its interrupts are off.
abbrev pub IsQuiet : Cpu → Type 0
IsQuiet c = 0 < c.noff → c.interrupts ≡ false

pub push_times : ℕ → Cpu → Cpu
push_times zero c = c
push_times (suc n) c = push_times n (push_off c)

pub pop_times : ℕ → Cpu → Outcome Cpu
pop_times zero c = ok c
pop_times (suc n) c = pop_off c >>= pop_times n

-- `intena` is only read while `noff` is above zero, so its last value may stay behind.
abbrev pub settled : Cpu → Bool → Cpu
settled c b = record c { intena = if c.noff == 0 then b else c.intena }

pub push_off-IsQuiet : (c : Cpu) → IsQuiet (push_off c)
unfolding push_off
push_off-IsQuiet c h = refl

pub pop-push : (c : Cpu) → IsQuiet c → pop_off (push_off c) ≡ ok (settled c c.interrupts)
unfolding pop_off push_off
pop-push c quiet = ground arith

>>=-assoc : (o : Outcome Cpu) (f g : Cpu → Outcome Cpu) → ((o >>= f) >>= g) ≡ (o >>= λ c. f c >>= g)
>>=-assoc (ok c) f g = refl
>>=-assoc (panic s) f g = refl
>>=-assoc blocked f g = refl

pop_times-suc : (n : ℕ) (c : Cpu) → pop_times (suc n) c ≡ (pop_times n c >>= pop_off)
unfolding pop_times
pop_times-suc zero c = ground arith
pop_times-suc (suc n) c =
    rw (>>=-assoc (pop_off c) (pop_times n) pop_off)
      (ap (λ f. pop_off c >>= f) (fun_ext (pop_times-suc n)))

-- Inside a section already entered the CPU comes back exactly as it was.
pop-push_inside : (c : Cpu) → IsQuiet c → 0 < c.noff → pop_off (push_off c) ≡ ok c
unfolding push_off pop_off
pop-push_inside c quiet h = ground arith

pop_times_inside : (n : ℕ) (c : Cpu) → IsQuiet c → 0 < c.noff → pop_times n (push_times n c) ≡ ok c
unfolding push_times
pop_times_inside zero c quiet h = unfold pop_times in refl
pop_times_inside (suc n) c quiet h =
    rw
      (
        pop_times-suc n (push_times n (push_off c)),
        pop_times_inside n (push_off c) (push_off-IsQuiet c) (unfold push_off in (omega arith)),
      )
      (pop-push_inside c quiet h)

-- After one or more `push_off`s the same number of `pop_off`s panics nowhere and gives back the
-- nesting depth and the interrupt bit that the CPU had. `intena` keeps its value too, unless the
-- depth is zero: then it holds the interrupt bit.
pub pop_times-push_times :
    (n : ℕ) (c : Cpu)
    → IsQuiet c
    → pop_times (suc n) (push_times (suc n) c) ≡ ok (settled c c.interrupts)
unfolding push_times
pop_times-push_times n c quiet =
    rw
      (
        pop_times-suc n (push_times n (push_off c)),
        pop_times_inside n (push_off c) (push_off-IsQuiet c) (unfold push_off in (omega arith)),
      )
      (pop-push c quiet)
