-- ===== src/Ulib/Strings.antt =====
-- user/ulib.c: `strcpy`, `strchr` and `atoi`.
use os_study.Prelude.{
  ℕ, zero, suc, ◌+◌, ◌-◌, ◌*◌, ◌<◌, ◌^◌, ◌≡◌, ◌≢◌, ◌⊎◌, refl, ◌∙◌, ap, Option, none, some, true,
  false, List, [], ◌∷◌, All, arith, length, if◌then◌else◌, ◌==◌, update,
}
use os_study.StringOps.{Memory}
use os_study.StringOps.Move.{copied}
use os_study.StringOps.Compare.{c_string}
use os_study.StringOps.Copy.{Apart}
use os_study.Console.{digits_from}
use os_study.Console.Digits.{
  number, is_digit, number-digits_from, digits_from-All, length-digits_from,
}
use os_study.Ulib.{strcpy, strchr, atoi_from, atoi}

-- The place of a character in a list.
unfoldable pub index_of : ℕ → List ℕ → Option ℕ
index_of c [] = none
index_of c (x ∷ xs) =
    let rest = index_of c xs in
    if x == c then some 0 else (elim rest [ none ↦ none | some i ↦ some (suc i) ])

-- The address of a place found in the string at `s`, or null.
abbrev pub address : ℕ → Option ℕ → ℕ
address s none = 0
address s (some i) = s + i

address-suc :
    (s : ℕ) (o : Option ℕ)
    → address s (elim o [ none ↦ none | some i ↦ some (suc i) ]) ≡ address (s + 1) o
address-suc s none = refl
address-suc s (some i) = omega arith

-- With a NUL among the first `fuel` bytes, `strchr` ends: it returns the address of the first place
-- of the character in the string, or null when the string does not have it.
pub strchr_lem :
    (fuel : ℕ) (m : Memory) (s c : ℕ)
    → length (c_string m s fuel) < fuel
    → strchr fuel m s c ≡ some (address s (index_of c (c_string m s fuel)))
unfolding strchr c_string index_of
strchr_lem zero m s c h = absurd (omega arith)
strchr_lem (suc fuel) m s c h =
    ground
      (arith, strchr_lem fuel m (s + 1) c, address-suc s (index_of c (c_string m (s + 1) fuel)))

-- The bytes from `s` on start with `cs` and then something that is no digit.
unfoldable pub Spells : Memory → ℕ → List ℕ → Type 0
Spells m s [] = is_digit (m s) ≡ false
Spells m s (c ∷ cs) = (m s ≡ c) × Spells m (s + 1) cs

atoi_from_lem :
    (fuel : ℕ) (m : Memory) (s n : ℕ) (ds : List ℕ)
    → length ds < fuel
    → All (λ c. is_digit c ≡ true) ds
    → Spells m s ds
    → atoi_from fuel m s n ≡ some (number ds n)
unfolding atoi_from number Spells
atoi_from_lem zero m s n ds h d e = absurd (omega arith)
atoi_from_lem (suc fuel) m s n [] h d e = ground (arith, e)
atoi_from_lem (suc fuel) m s n (c ∷ ds) h d e =
    let step : n * 10 + m s - 48 ≡ n * 10 + (c - 48) = ground (arith, e, d) in
    ground (arith, e, d, step, atoi_from_lem fuel m (s + 1) (n * 10 + (c - 48)) ds)

-- `atoi` ends and reads back the number whose digits `consoleputuint` makes, when the number fits an
-- `int` and something other than a digit follows.
pub atoi-digits_from :
    (fuel : ℕ) (m : Memory) (s n : ℕ)
    → 10 < fuel
    → n < 2 ^ 31
    → Spells m s (digits_from 10 n [])
    → atoi fuel m s ≡ some n
unfolding atoi
atoi-digits_from fuel m s n enough small e =
    atoi_from_lem fuel m s 0 (digits_from 10 n []) (omega (arith, length-digits_from 10 n []))
      (digits_from-All 10 n [] tt) e
    ∙ ap some (number-digits_from 10 n [] (omega arith) ∙ unfold number in refl)

-- The C string at `t` is `cs`.
unfoldable pub IsString : Memory → ℕ → List ℕ → Type 0
IsString m t [] = m t ≡ 0
IsString m t (c ∷ cs) = (m t ≡ c) × (c ≢ 0) × IsString m (t + 1) cs

IsString-update :
    (m : Memory) (p v t : ℕ) (cs : List ℕ)
    → (p < t) ⊎ (t + length cs < p)
    → IsString m t cs
    → IsString (update m p v) t cs
unfolding IsString
IsString-update m p v t [] h e = ground (arith, e)
IsString-update m p v t (c ∷ cs) h (e, ne, es) =
    (ground (arith, e), ne, IsString-update m p v (t + 1) cs (omega (arith, h)) es)

same_at : (m : Memory) (a b : ℕ) → a ≡ b → m a ≡ m b
same_at m a b e = ap m e

-- `strcpy` of the string `cs` ends, and leaves at `s` the string with its NUL as it was at `t`, and
-- every other byte as it was, when the two ranges do not overlap.
pub strcpy_lem :
    (fuel : ℕ) (m : Memory) (s t : ℕ) (cs : List ℕ)
    → length cs < fuel
    → Apart s t (suc (length cs))
    → IsString m t cs
    → (m' : Memory) × (strcpy fuel m s t ≡ some m')
      × ((q : ℕ) → m' q ≡ copied m s t (suc (length cs)) q)
unfolding strcpy IsString
strcpy_lem zero m s t cs h a e = absurd (omega arith)
strcpy_lem (suc fuel) m s t [] h a e =
    (update m s (m t), ground (arith, e), λ q. ground (arith, same_at m t (t + (q - s))))
strcpy_lem (suc fuel) m s t (c ∷ cs) h a (e, ne, es) =
    let m1 = update m s (m t) in
    let (m', run, at) =
      strcpy_lem fuel m1 (s + 1) (t + 1) cs (omega arith) (ground (arith, a))
        (IsString-update m s (m t) (t + 1) cs (ground (arith, a)) es) in
    (
      m',
      ground (arith, run, e, ne),
      λ q. ground (
        arith,
        at q,
        a,
        same_at m t (t + (q - s)),
        same_at m (t + 1 + (q - (s + 1))) (t + (q - s)),
      ),
    )
