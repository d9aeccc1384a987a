-- ===== src/Console/Digits.antt =====
-- kernel/console.c: the digits that `consoleputuint` makes.
use os_study.Prelude.{
  ℕ, zero, suc, ◌+◌, ◌-◌, ◌*◌, ◌/◌, ◌%◌, ◌≤◌, ◌<◌, ◌≡◌, refl, ◌∙◌, Bool-cases, inl, inr, true, List,
  [], ◌∷◌, arith, ltb, leb, ◌==◌, ◌&&◌, Bool, All, length,
}
use os_study.Console.{digits_from}

-- The number that decimal digits stand for, after the number `a`.
unfoldable pub number : List ℕ → ℕ → ℕ
number [] a = a
number (c ∷ cs) a = number cs (a * 10 + (c - 48))

abbrev pub is_digit : ℕ → Bool
is_digit c = leb 48 c && ltb c 58

abbrev pub power : ℕ → ℕ
power zero = 1
power (suc k) = 10 * power k

pub number-digits_from :
    (fuel n : ℕ) (buf : List ℕ) → n < power fuel → number (digits_from fuel n buf) 0 ≡ number buf n
unfolding digits_from
number-digits_from zero n buf h = let none_left : n ≡ 0 = omega arith in rw none_left refl
number-digits_from (suc fuel) n buf h = elim (Bool-cases (n == 0)) [
  | inl z ↦ let none_left : n ≡ 0 = ground arith in rw none_left refl
  | inr z ↦
      let split : n / 10 * 10 + (n % 10 + 48 - 48) ≡ n = omega arith in
      rw z (
        number-digits_from fuel (n / 10) ((n % 10 + 48) ∷ buf) (omega arith)
        ∙ unfold number in (rw split refl))
]

pub digits_from-All :
    (fuel n : ℕ) (buf : List ℕ)
    → All (λ c. is_digit c ≡ true) buf
    → All (λ c. is_digit c ≡ true) (digits_from fuel n buf)
unfolding digits_from
digits_from-All zero n buf h = h
digits_from-All (suc fuel) n buf h = elim (Bool-cases (n == 0)) [
  | inl z ↦ rw z h
  | inr z ↦ rw z (digits_from-All fuel (n / 10) ((n % 10 + 48) ∷ buf) (ground arith, h))
]

pub length-digits_from :
    (fuel n : ℕ) (buf : List ℕ) → length (digits_from fuel n buf) ≤ fuel + length buf
unfolding digits_from
length-digits_from zero n buf = omega arith
length-digits_from (suc fuel) n buf =
    ground (arith, length-digits_from fuel (n / 10) ((n % 10 + 48) ∷ buf))
