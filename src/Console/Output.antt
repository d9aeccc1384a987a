-- ===== src/Console/Output.antt =====
-- kernel/console.c: what reaches the UART, and the functions that take `cons_lock` twice.
use os_study.Prelude.{
  ℕ, zero, suc, ◌+◌, ◌^◌, ◌≤◌, ◌<◌, ◌≡◌, refl, ap, sym, subst, Option-cases, ◌∙◌, Bool-cases, inl,
  inr, true, false, List, [], ◌∷◌, ◌++◌, arith, ◌==◌, All, length, Option, none, some, ℤ, pos_part,
  Outcome, ok, panic, ◌>>=◌,
}
use mathlib.Core.List.{append_assoc, append-nil}
use os_study.Spinlock.{acquire, holding, initlock, push_off}
use os_study.Spinlock.Nesting.{IsQuiet, settled}
use os_study.Spinlock.Sections.{acquire-free, release-held, held}
use os_study.Console.{
  Console, Wrote, write_from, consolewrite, uartputc, consoleputc, consoleputs, consoleputuint,
  digits_from, clear_screen, goto_xy, clear_line,
}
use os_study.Console.Digits.{
  number, is_digit, number-digits_from, digits_from-All, length-digits_from,
}

-- The CPU may take `cons_lock`.
pub record Ready (s : Console) : Type 0 where
  pub quiet : IsQuiet s.cpu
  pub free : s.lock.locked ≡ false

-- The console after the characters `cs`, with the lock free again.
pub record Put (s : Console) (cs : List ℕ) (o : Outcome Console) : Type 0 where
  pub final : Console
  pub returns : o ≡ ok final
  pub out : final.out ≡ s.out ++ cs
  pub ready : Ready final
  pub depth : final.cpu.noff ≡ s.cpu.noff
  pub interrupts : final.cpu.interrupts ≡ s.cpu.interrupts

consoleputc_lem : (c : ℕ) (s : Console) → Ready s → Put s (c ∷ []) (consoleputc c s)
unfolding consoleputc uartputc
consoleputc_lem c s r = record {
  final = record { cpu = settled s.cpu s.cpu.interrupts; lock = initlock; out = s.out ++ (c ∷ []) };
  returns = rw (acquire-free s.cpu s.lock r.free) (rw (release-held s.cpu r.quiet) refl);
  out = refl;
  ready = record { quiet = r.quiet; free = refl };
  depth = refl;
  interrupts = refl;
}

consoleputs_lem : (cs : List ℕ) (s : Console) → Ready s → Put s cs (consoleputs cs s)
unfolding consoleputs
consoleputs_lem [] s r = record {
  final = s;
  returns = refl;
  out = sym (append-nil s.out);
  ready = r;
  depth = refl;
  interrupts = refl;
}
consoleputs_lem (c ∷ cs) s r =
    let one = consoleputc_lem c s r in
    let rest = consoleputs_lem cs one.final one.ready in
    record {
      final = rest.final;
      returns = ap (λ o. o >>= consoleputs cs) one.returns ∙ rest.returns;
      out = rest.out ∙ ap (λ l. l ++ cs) one.out ∙ append_assoc s.out (c ∷ []) cs;
      ready = rest.ready;
      depth = rest.depth ∙ one.depth;
      interrupts = rest.interrupts ∙ one.interrupts;
    }

consoleputuint-digits :
    (n : ℕ) (s : Console)
    → (n == 0) ≡ false
    → consoleputuint n s ≡ consoleputs (digits_from 10 n []) s
unfolding consoleputuint
consoleputuint-digits n s z = rw z refl

-- `consoleputuint` of a `uint` panics nowhere and prints at most 10 characters, all of them digits,
-- which are the number in decimal.
pub consoleputuint_lem :
    (n : ℕ) (s : Console)
    → n < 2 ^ 32
    → Ready s
    → (ds : List ℕ) × Put s ds (consoleputuint n s)
      × (number ds 0 ≡ n)
      × (length ds ≤ 10)
      × All (λ c. is_digit c ≡ true) ds
unfolding consoleputuint
consoleputuint_lem n s small r = elim (Bool-cases (n == 0)) [
  | inl z ↦ (
    48 ∷ [],
    rw (consoleputuint, z) (consoleputc_lem 48 s r),
    unfold number in ground arith,
    omega arith,
    (refl, tt),
  )
  | inr z ↦ (
    digits_from 10 n [],
    subst (Put s (digits_from 10 n [])) (sym (consoleputuint-digits n s z))
        (consoleputs_lem (digits_from 10 n []) s r),
    number-digits_from 10 n [] (omega arith) ∙ unfold number in refl,
    length-digits_from 10 n [],
    digits_from-All 10 n [] tt,
  )
]

-- The bytes that `copyin` gives from address `a` on, up to the first that it does not.
unfoldable pub fetched : ℕ → (ℕ → Option ℕ) → ℕ → List ℕ
fetched zero copyin a = []
fetched (suc k) copyin a = elim (copyin a) [ none ↦ [] | some c ↦ c ∷ fetched k copyin (a + 1) ]

write_from_lem :
    (k : ℕ) (copyin : ℕ → Option ℕ) (src i : ℕ) (s : Console)
    → write_from k copyin src i s ≡ record {
      console = record s { out = s.out ++ fetched k copyin (src + i) };
      count = i + length (fetched k copyin (src + i));
    }
unfolding write_from fetched uartputc
write_from_lem zero copyin src i s =
    let same : i + 0 ≡ i = omega arith in rw (append-nil s.out) (rw same refl)
write_from_lem (suc k) copyin src i s = elim (Option-cases (copyin (src + i))) [
  | inl e ↦
      let same : i + 0 ≡ i = omega arith in
      rw (write_from, fetched, e) (rw (append-nil s.out, same) refl)
  | inr (c, e) ↦
      let next : src + (i + 1) ≡ src + i + 1 = omega arith in
      let bytes = fetched k copyin (src + i + 1) in
      let count : i + 1 + length bytes ≡ i + suc (length bytes) = omega arith in
      rw (write_from, fetched, e)
        (write_from_lem k copyin src (i + 1) (uartputc c s)
          ∙ rw (next, append_assoc s.out (c ∷ []) bytes, count) refl)
]

-- Inside a section of `cons_lock`.
abbrev inside : Console → Console
inside s = record s { cpu = push_off s.cpu; lock = held s.cpu }

-- `consolewrite` panics nowhere, prints the bytes that it could copy in, in order, and returns
-- their number: all `n`, or those before the first that could not be copied.
pub consolewrite_lem :
    (copyin : ℕ → Option ℕ) (src : ℕ) (n : ℤ) (s : Console)
    → Ready s
    → let bytes = fetched (pos_part n) copyin src in
      (w : Wrote) × (consolewrite copyin src n s ≡ ok w)
      × (w.count ≡ length bytes)
      × (w.console.out ≡ s.out ++ bytes)
      × Ready w.console
unfolding consolewrite
consolewrite_lem copyin src n s r = (
  record {
    console = record {
      cpu = settled s.cpu s.cpu.interrupts;
      lock = initlock;
      out = s.out ++ fetched (pos_part n) copyin src;
    };
    count = length (fetched (pos_part n) copyin src);
  },
  rw (acquire-free s.cpu s.lock r.free) (
      rw (write_from_lem (pos_part n) copyin src 0 (inside s))
        (rw (release-held s.cpu r.quiet) (rw same (rw count refl)))),
  refl,
  refl,
  record { quiet = r.quiet; free = refl },
)
  where
    same : src + 0 ≡ src
    same = omega arith

    count : 0 + length (fetched (pos_part n) copyin src) ≡ length (fetched (pos_part n) copyin src)
    count = omega arith

consoleputc-inside : (c : ℕ) (s : Console) → consoleputc c (inside s) ≡ panic "acquire"
unfolding consoleputc acquire holding push_off
consoleputc-inside c s = ground arith

-- `clear_screen`, `goto_xy` and `clear_line` take `cons_lock` and then call functions that take it
-- again: with the lock free, each of them panics.
pub relocking :
    (x y : ℕ) (s : Console)
    → s.lock.locked ≡ false
    → (clear_screen s ≡ panic "acquire")
      × (goto_xy x y s ≡ panic "acquire")
      × (clear_line s ≡ panic "acquire")
unfolding clear_screen goto_xy clear_line consoleputs
relocking x y s free = (
  rw (acquire-free s.cpu s.lock free) (rw (consoleputc-inside 27 s) refl),
  rw (acquire-free s.cpu s.lock free) (rw (consoleputc-inside 27 s) refl),
  rw (acquire-free s.cpu s.lock free) (rw (consoleputc-inside 27 s) refl),
)
