-- ===== src/Tests/Screen.antt =====
-- kernel/console.c: numbers and bytes printed.
use os_study.Prelude.{
  ℕ, ◌≡◌, refl, true, false, Option, none, some, [], ◌∷◌, panic, arith, if◌then◌else◌, ◌==◌,
}
use os_study.Spinlock.{initlock}
use os_study.Console.{Console, clear_screen, goto_xy, clear_line, digits_from}
use os_study.Console.Output.{Ready, fetched, relocking}

abbrev screen : Console
screen = record {
  cpu = record { hartid = 0; interrupts = true; noff = 0; intena = false };
  lock = initlock;
  out = 62 ∷ [];
}

screen-Ready : Ready screen
screen-Ready = record { quiet = λ h. absurd (omega arith); free = refl }

digits_of_2025 : digits_from 10 2025 [] ≡ 50 ∷ 48 ∷ 50 ∷ 53 ∷ []
unfolding digits_from
digits_of_2025 = refl

-- Two bytes can be read, and the third cannot.
abbrev user : ℕ → Option ℕ
user a = if a == 100 then some 104 else if a == 101 then some 105 else none

two_fetched : fetched 5 user 100 ≡ 104 ∷ 105 ∷ []
unfolding fetched
two_fetched = refl

relocking_example :
    (clear_screen screen ≡ panic "acquire")
    × (goto_xy 3 4 screen ≡ panic "acquire")
    × (clear_line screen ≡ panic "acquire")
relocking_example = relocking 3 4 screen refl
