-- ===== src/StringOps/Copy.antt =====
-- kernel/string.c: what `strncpy` and `safestrcpy` leave in memory.
use os_study.Prelude.{
  ne→==, ℕ, zero, suc, ◌+◌, ◌-◌, ◌≤◌, ◌<◌, ◌≡◌, ◌≢◌, ◌⊎◌, ◌∙◌, inl, inr, refl, pos, subst, sym,
  length, Bool-cases, false, arith, update, if◌then◌else◌, ◌==◌,
}
use os_study.StringOps.{
  Memory, zero_fill, strncpy_from, strncpy, safestrcpy_from, safestrcpy, strncmp,
}
use os_study.StringOps.Move.{within}
use os_study.StringOps.Compare.{c_string, strncmp_lem}

-- Character `i` of the C string at `t`, and 0 past its end.
unfoldable pub padded : Memory → ℕ → ℕ → ℕ
padded m t zero = m t
padded m t (suc i) = let rest = padded m (t + 1) i in if m t == 0 then 0 else rest

padded-pred :
    (m : Memory) (t i : ℕ)
    → i ≢ 0
    → padded m t i ≡ (if m t == 0 then 0 else padded m (t + 1) (i - 1))
unfolding padded
padded-pred m t zero h = absurd (h refl)
padded-pred m t (suc i) h = let e : suc i - 1 ≡ i = omega arith in rw e

padded-update :
    (m : Memory) (p v t i : ℕ) → (p < t) ⊎ (t + i < p) → padded (update m p v) t i ≡ padded m t i
unfolding padded
padded-update m p v t zero h = ground arith
padded-update m p v t (suc i) h = ground (arith, padded-update m p v (t + 1) i)

padded_at : (m : Memory) (t i : ℕ) → i ≡ 0 → padded m t i ≡ m t
unfolding padded
padded_at m t zero h = refl
padded_at m t (suc i) h = absurd (omega arith)

-- The `n` bytes from `s` and from `t` do not overlap.
abbrev pub Apart : ℕ → ℕ → ℕ → Type 0
Apart s t n = (s + n ≤ t) ⊎ (t + n ≤ s)

zero_fill_lem :
    (n : ℕ) (m : Memory) (s q : ℕ) → zero_fill n m s q ≡ (if within s n q then 0 else m q)
unfolding zero_fill
zero_fill_lem zero m s q = ground arith
zero_fill_lem (suc n) m s q = ground (arith, zero_fill_lem n (update m s 0) (s + 1) q)

strncpy_from_lem :
    (n : ℕ) (m : Memory) (s t q : ℕ)
    → Apart s t n
    → strncpy_from n m s t q ≡ (if within s n q then padded m t (q - s) else m q)
unfolding strncpy_from
strncpy_from_lem zero m s t q h = ground arith
strncpy_from_lem (suc n) m s t q h = ground (
  arith,
  strncpy_from_lem n (update m s (m t)) (s + 1) (t + 1) q,
  zero_fill_lem n (update m s (m t)) (s + 1) q,
  padded-pred m t (q - s),
  padded-update m s (m t) (t + 1) (q - (s + 1)),
  padded_at m t (q - s),
)

-- `strncpy` writes exactly the `n` bytes from `s` on: the C string at `t`, cut off after `n`
-- characters, and zeros after it. No other byte changes. The two ranges must not overlap.
pub strncpy_lem :
    (m : Memory) (s t n q : ℕ)
    → Apart s t n
    → strncpy m s t (pos n) q ≡ (if within s n q then padded m t (q - s) else m q)
unfolding strncpy
strncpy_lem m s t n q h = strncpy_from_lem n m s t q h

pub c_string-ext :
    (n : ℕ) (m' m : Memory) (s : ℕ)
    → ((i : ℕ) → i < n → m' (s + i) ≡ m (s + i))
    → c_string m' s n ≡ c_string m s n
unfolding c_string
c_string-ext zero m' m s h = refl
c_string-ext (suc n) m' m s h = ground (arith, first, c_string-ext n m' m (s + 1) shifted)
  where
    first : m' s ≡ m s
    first = let e : s + 0 ≡ s = omega arith in subst (λ a. m' a ≡ m a) e (h 0 (omega arith))

    shifted : (i : ℕ) → i < n → m' (s + 1 + i) ≡ m (s + 1 + i)
    shifted i lt =
        let e : s + (i + 1) ≡ s + 1 + i = omega arith in
        subst (λ a. m' a ≡ m a) e (h (i + 1) (omega arith))

c_string-padded :
    (n : ℕ) (m' m : Memory) (s t : ℕ)
    → ((i : ℕ) → i < n → m' (s + i) ≡ padded m t i)
    → c_string m' s n ≡ c_string m t n
unfolding c_string
c_string-padded zero m' m s t h = refl
c_string-padded (suc n) m' m s t h = elim (Bool-cases (m t == 0)) [
  | inl z ↦ ground (arith, first)
  | inr nz ↦ ground (arith, first, c_string-padded n m' m (s + 1) (t + 1) (shifted nz))
]
  where
    first : m' s ≡ m t
    first =
        let e : s + 0 ≡ s = omega arith in
        subst (λ a. m' a ≡ m t) e (h 0 (omega arith) ∙ padded_at m t 0 refl)

    shifted : (m t == 0) ≡ false → (i : ℕ) → i < n → m' (s + 1 + i) ≡ padded m (t + 1) i
    shifted nz i lt =
        let e : s + suc i ≡ s + 1 + i = omega arith in
        subst (λ a. m' a ≡ padded m (t + 1) i) e
          (h (suc i) (omega arith) ∙ unfold padded in (rw nz))

-- A name stored by `strncpy` compares equal, by `strncmp`, to the name that it was copied from,
-- whether or not there was room for its NUL. The two ranges must not overlap.
pub strncmp-strncpy :
    (m : Memory) (s t n : ℕ) → Apart s t n → strncmp (strncpy m s t (pos n)) s t n ≡ pos 0
strncmp-strncpy m s t n h = (strncmp_lem m' s t n).1 (stored ∙ sym kept)
  where
    m' : Memory
    m' = strncpy m s t (pos n)

    stored : c_string m' s n ≡ c_string m t n
    stored = c_string-padded n m' m s t λ i lt. strncpy_lem m s t n (s + i) h ∙ inside i lt
      where
        inside :
            (i : ℕ)
            → i < n
            → (if within s n (s + i) then padded m t (s + i - s) else m (s + i)) ≡ padded m t i
        inside i lt = let e : s + i - s ≡ i = omega arith in rw e (ground arith)

    kept : c_string m' t n ≡ c_string m t n
    kept = c_string-ext n m' m t λ i lt. strncpy_lem m s t n (t + i) h ∙ outside i lt
      where
        outside :
            (i : ℕ)
            → i < n
            → (if within s n (t + i) then padded m t (t + i - s) else m (t + i)) ≡ m (t + i)
        outside i lt = ground arith

safestrcpy_from_frame :
    (k : ℕ) (m : Memory) (s t q : ℕ) → within s (suc k) q ≡ false → safestrcpy_from k m s t q ≡ m q
unfolding safestrcpy_from
safestrcpy_from_frame zero m s t q h = ground arith
safestrcpy_from_frame (suc k) m s t q h =
    ground (arith, safestrcpy_from_frame k (update m s (m t)) (s + 1) (t + 1) q)

safestrcpy_from_lem :
    (k : ℕ) (m : Memory) (s t : ℕ)
    → Apart s t (suc k)
    → c_string (safestrcpy_from k m s t) s (suc k) ≡ c_string m t k
unfolding safestrcpy_from c_string
safestrcpy_from_lem zero m s t h = ground arith
safestrcpy_from_lem (suc k) m s t h = ground (
  arith,
  safestrcpy_from_lem k (update m s (m t)) (s + 1) (t + 1),
  safestrcpy_from_frame k (update m s (m t)) (s + 1) (t + 1) s,
  c_string-ext k (update m s (m t)) m (t + 1) (λ i lt. ground arith),
)

length-c_string : (m : Memory) (p k : ℕ) → length (c_string m p k) ≤ k
unfolding c_string
length-c_string m p zero = omega arith
length-c_string m p (suc k) = ground (arith, length-c_string m (p + 1) k)

safestrcpy-suc : (m : Memory) (s t k : ℕ) → safestrcpy m s t (pos (suc k)) ≡ safestrcpy_from k m s t
unfolding safestrcpy
safestrcpy-suc m s t k =
    let e : suc k - 1 ≡ k = omega arith in rw (ne→== (suc k) 0 (omega arith), e)

-- `safestrcpy` with room for `n` characters, `n` positive, leaves at `s` a C string that ends
-- within those `n`: the string at `t`, cut off after `n - 1` characters. No byte outside the `n`
-- changes. The two ranges must not overlap.
pub safestrcpy_lem :
    (m : Memory) (s t k q : ℕ)
    → Apart s t (suc k)
    → let m' = safestrcpy m s t (pos (suc k)) in
      (c_string m' s (suc k) ≡ c_string m t k)
      × (length (c_string m' s (suc k)) < suc k)
      × (m' q ≡ (if within s (suc k) q then m' q else m q))
unfolding safestrcpy
safestrcpy_lem m s t k q h = rw (safestrcpy-suc m s t k) (
  safestrcpy_from_lem k m s t h,
  rw (safestrcpy_from_lem k m s t h) (omega (arith, length-c_string m t k)),
  ground (arith, safestrcpy_from_frame k m s t q),
)
