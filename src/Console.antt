-- ===== src/Console.antt =====
-- kernel/console.c: output to the console under `cons_lock`. `uartputc` waits for the UART and
-- writes a character to it; `out` is what the UART was given, in order. A string is the list of its
-- characters.
pub mod Digits
pub mod Output
use os_study.Prelude.{
  ℕ, zero, suc, ◌+◌, ◌-◌, ◌/◌, ◌%◌, ℤ, pos, negsuc, pos_part, Bool, Option, none, some, List, [],
  ◌∷◌, ◌++◌, Outcome, ok, panic, blocked, ◌>>=◌, ◌==◌, if◌then◌else◌,
}
use os_study.Spinlock.{Cpu, Spinlock, Holder, acquire, release}

-- The CPU that runs, `cons_lock`, and the UART's output.
pub record Console : Type 0 where
  pub cpu : Cpu
  pub lock : Spinlock
  pub out : List ℕ

abbrev pub locked : Console → Outcome Console
locked s = do h ← acquire s.cpu s.lock; ok (record s { cpu = h.cpu; lock = h.lock })

abbrev pub unlocked : Console → Outcome Console
unlocked s = do h ← release s.cpu s.lock; ok (record s { cpu = h.cpu; lock = h.lock })

unfoldable pub uartputc : ℕ → Console → Console
uartputc c s = record s { out = s.out ++ (c ∷ []) }

unfoldable pub consoleputc : ℕ → Console → Outcome Console
unfolding uartputc
consoleputc c s = do s1 ← locked s; unlocked (uartputc c s1)

unfoldable pub consoleputs : List ℕ → Console → Outcome Console
unfolding consoleputc
consoleputs [] s = ok s
consoleputs (c ∷ cs) s = consoleputc c s >>= consoleputs cs

-- The loop that fills `buf`, last digit first, with what `buf` has so far behind it: it pushes each
-- digit in front, as the second loop takes them from the end.
unfoldable pub digits_from : ℕ → ℕ → List ℕ → List ℕ
digits_from zero n buf = buf
digits_from (suc fuel) n buf =
    let rest = digits_from fuel (n / 10) ((n % 10 + 48) ∷ buf) in if n == 0 then buf else rest

-- `buf` has room for 10 digits.
unfoldable pub consoleputuint : ℕ → Console → Outcome Console
unfolding consoleputc consoleputs digits_from
consoleputuint n s = if n == 0 then consoleputc 48 s else consoleputs (digits_from 10 n []) s

-- `\033[2J\033[3J\033[H`
abbrev pub clear_codes : List ℕ
clear_codes = 27 ∷ 91 ∷ 50 ∷ 74 ∷ 27 ∷ 91 ∷ 51 ∷ 74 ∷ 27 ∷ 91 ∷ 72 ∷ []

unfoldable pub clear_screen : Console → Outcome Console
unfolding consoleputs
clear_screen s = do s1 ← locked s; s2 ← consoleputs clear_codes s1; unlocked s2

-- The arguments are printed as `uint`.
unfoldable pub goto_xy : ℕ → ℕ → Console → Outcome Console
unfolding consoleputs consoleputc consoleputuint
goto_xy x y s = do
  s1 ← locked s
  s2 ← consoleputs (27 ∷ 91 ∷ []) s1
  s3 ← consoleputuint y s2
  s4 ← consoleputc 59 s3
  s5 ← consoleputuint x s4
  s6 ← consoleputc 72 s5
  unlocked s6

unfoldable pub clear_line : Console → Outcome Console
unfolding consoleputs
clear_line s = do s1 ← locked s; s2 ← consoleputs (27 ∷ 91 ∷ 50 ∷ 75 ∷ []) s1; unlocked s2

-- What `consolewrite` returns, with the console it leaves.
pub record Wrote : Type 0 where
  pub console : Console
  pub count : ℕ

-- The loop of `consolewrite` with `n - i` rounds left; `copyin` is `either_copyin` of a byte.
unfoldable pub write_from : ℕ → (ℕ → Option ℕ) → ℕ → ℕ → Console → Wrote
unfolding uartputc
write_from zero copyin src i s = record { console = s; count = i }
write_from (suc k) copyin src i s = elim (copyin (src + i)) [
  | none ↦ record { console = s; count = i }
  | some c ↦ write_from k copyin src (i + 1) (uartputc c s)
]

unfoldable pub consolewrite : (ℕ → Option ℕ) → ℕ → ℤ → Console → Outcome Wrote
unfolding write_from
consolewrite copyin src n s = do
  s1 ← locked s
  let w = write_from (pos_part n) copyin src 0 s1
  s2 ← unlocked w.console
  ok (record { console = s2; count = w.count })
