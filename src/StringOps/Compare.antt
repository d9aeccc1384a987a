-- ===== src/StringOps/Compare.antt =====
-- kernel/string.c: what the results of `memcmp`, `strncmp` and `strlen` say.
use os_study.Prelude.{
  ℕ, zero, suc, ◌+◌, ◌<◌, ◌≡◌, ◌↔◌, refl, ap, ◌∙◌, pos, some, List, [], ◌∷◌, arith, if◌then◌else◌,
  ◌==◌, length,
}
use os_study.StringOps.{Memory, memcmp, strncmp, strlen_from, strlen}

-- The `n` bytes from `p` on.
unfoldable pub bytes : Memory → ℕ → ℕ → List ℕ
bytes m p zero = []
bytes m p (suc n) = m p ∷ bytes m (p + 1) n

-- The C string at `p`, at most `n` characters of it, without its NUL.
unfoldable pub c_string : Memory → ℕ → ℕ → List ℕ
c_string m p zero = []
c_string m p (suc n) = let rest = c_string m (p + 1) n in if m p == 0 then [] else m p ∷ rest

-- `memcmp` returns 0 exactly when the two ranges hold the same bytes.
pub memcmp_lem :
    (m : Memory) (s1 s2 n : ℕ) → (memcmp m s1 s2 n ≡ pos 0) ↔ (bytes m s1 n ≡ bytes m s2 n)
unfolding memcmp bytes
memcmp_lem m s1 s2 zero = (λ e. refl, λ e. refl)
memcmp_lem m s1 s2 (suc n) =
    let ih = memcmp_lem m (s1 + 1) (s2 + 1) n in
    (λ e. ground (arith, ih.0), λ e. ground (arith, ih.1))

-- `strncmp` returns 0 exactly when the two C strings agree, both cut off after `n` characters.
pub strncmp_lem :
    (m : Memory) (p q n : ℕ) → (strncmp m p q n ≡ pos 0) ↔ (c_string m p n ≡ c_string m q n)
unfolding strncmp c_string
strncmp_lem m p q zero = (λ e. refl, λ e. refl)
strncmp_lem m p q (suc n) =
    let ih = strncmp_lem m (p + 1) (q + 1) n in
    (λ e. ground (arith, ih.0), λ e. ground (arith, ih.1))

strlen_from_lem :
    (f : ℕ) (m : Memory) (s n : ℕ)
    → length (c_string m (s + n) f) < f
    → strlen_from f m s n ≡ some (n + length (c_string m (s + n) f))
unfolding strlen_from c_string
strlen_from_lem zero m s n h = absurd (omega arith)
strlen_from_lem (suc f) m s n h =
    let step : s + n + 1 ≡ s + (n + 1) = omega arith in
    ground (arith, step, strlen_from_lem f m s (n + 1))

-- When a NUL stands among the first `fuel` bytes, `strlen` ends and returns the length of the C
-- string.
pub strlen_lem :
    (fuel : ℕ) (m : Memory) (s : ℕ)
    → length (c_string m s fuel) < fuel
    → strlen fuel m s ≡ some (length (c_string m s fuel))
unfolding strlen
strlen_lem fuel m s h =
    let at : s + 0 ≡ s = omega arith in
    rw at at (strlen_from_lem fuel m s 0 (rw at h)) ∙ ap some (omega arith)
