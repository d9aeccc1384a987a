-- ===== src/Fs/Bits.antt =====
-- kernel/fs.c: bits of the free map.
use os_study.Prelude.{
  ℕ, zero, suc, ◌+◌, ◌-◌, ◌*◌, ◌/◌, ◌%◌, ◌^◌, ◌≤◌, ◌<◌, ◌≡◌, refl, sym, ap, ap₂, ◌∙◌, Bool, true,
  false, Bool-cases, inl, inr, arith, ◌==◌, if◌then◌else◌, update, update_self, update_ne, ==→eq,
  ==→ne, ne→==,
}
use native.Mathlib.Nat.{div-div-eq-div-mul, pow-succ'}
use os_study.Fs.{bit, set_bit, clear_bit}

-- Bit `k` of a number
unfoldable bit_of : ℕ → ℕ → ℕ
bit_of zero x = x % 2
bit_of (suc k) x = bit_of k (x / 2)

power : (k : ℕ) → 2 ^ suc k ≡ 2 * 2 ^ k
power k = pow-succ' 2 k

bit_of_lem : (k x : ℕ) → x / 2 ^ k % 2 ≡ bit_of k x
unfolding bit_of
bit_of_lem zero x = omega arith
bit_of_lem (suc k) x =
    ap (λ y. x / y % 2) (power k)
    ∙ ap (λ y. y % 2) (sym (div-div-eq-div-mul x 2 (2 ^ k)))
    ∙ bit_of_lem k (x / 2)

suc-== : (k j : ℕ) → (suc k == suc j) ≡ (k == j)
suc-== k j = ground arith

bit_of-added :
    (k j x : ℕ) → bit_of k x ≡ 0 → bit_of j (x + 2 ^ k) ≡ (if k == j then 1 else bit_of j x)
unfolding bit_of
bit_of-added zero zero x h = omega (arith, h)
bit_of-added zero (suc j) x h =
    rw (ne→== 0 (suc j) (omega arith)) (ap (bit_of j) (omega (arith, h)))
bit_of-added (suc k) zero x h = rw (ne→== (suc k) 0 (omega arith)) (omega (arith, power k))
bit_of-added (suc k) (suc j) x h =
    let half : (x + 2 ^ suc k) / 2 ≡ x / 2 + 2 ^ k = omega (arith, power k) in
    ap (bit_of j) half
    ∙ bit_of-added k j (x / 2) h
    ∙ ap (λ b. if b then 1 else bit_of j (x / 2)) (sym (suc-== k j))

bit_of_le : (k x : ℕ) → bit_of k x ≡ 1 → 2 ^ k ≤ x
unfolding bit_of
bit_of_le zero x h = omega (arith, h)
bit_of_le (suc k) x h = omega (arith, power k, bit_of_le k (x / 2) h)

bit_of-removed :
    (k j x : ℕ) → bit_of k x ≡ 1 → bit_of j (x - 2 ^ k) ≡ (if k == j then 0 else bit_of j x)
unfolding bit_of
bit_of-removed zero zero x h = omega (arith, h)
bit_of-removed zero (suc j) x h =
    rw (ne→== 0 (suc j) (omega arith)) (ap (bit_of j) (omega (arith, h)))
bit_of-removed (suc k) zero x h =
    rw (ne→== (suc k) 0 (omega arith)) (omega (arith, power k, bit_of_le k (x / 2) h))
bit_of-removed (suc k) (suc j) x h =
    let half : (x - 2 ^ suc k) / 2 ≡ x / 2 - 2 ^ k = omega (arith, power k) in
    ap (bit_of j) half
    ∙ bit_of-removed k j (x / 2) h
    ∙ ap (λ b. if b then 0 else bit_of j (x / 2)) (sym (suc-== k j))

same_bit : (bi bj : ℕ) → bi / 8 ≡ bj / 8 → (bi % 8 == bj % 8) ≡ (bi == bj)
same_bit bi bj e = ground (arith, e)

bit-bit_of : (d : ℕ → ℕ) (bj : ℕ) → bit d bj ≡ (bit_of (bj % 8) (d (bj / 8)) == 1)
bit-bit_of d bj = ap (λ y. y == 1) (bit_of_lem (bj % 8) (d (bj / 8)))

bit_of_lt : (k x : ℕ) → bit_of k x < 2
unfolding bit_of
bit_of_lt zero x = omega arith
bit_of_lt (suc k) x = bit_of_lt k (x / 2)

-- A byte that changes in one bit
changed :
    (d : ℕ → ℕ) (bi bj w : ℕ) (r : Bool)
    → ((j : ℕ) → (bit_of j w == 1) ≡ (if bi % 8 == j then r else (bit_of j (d (bi / 8)) == 1)))
    → bit (update d (bi / 8) w) bj ≡ (if bi == bj then r else bit d bj)
changed d bi bj w r f = bit-bit_of (update d (bi / 8) w) bj ∙ elim (Bool-cases (bi / 8 == bj / 8)) [
  | inl same ↦
      (let e = ==→eq (bi / 8) (bj / 8) same in
        ap (λ y. bit_of (bj % 8) y == 1)
          (ap (update d (bi / 8) w) (sym e) ∙ update_self d (bi / 8) w)
        ∙ f (bj % 8)
        ∙ ap₂ (λ b x. if b then r else x) (same_bit bi bj e)
            (ap (λ y. bit_of (bj % 8) (d y) == 1) e ∙ sym (bit-bit_of d bj)))
  | inr other ↦
      (let ne = ==→ne (bi / 8) (bj / 8) other in
        ap (λ y. bit_of (bj % 8) y == 1) (update_ne d (bi / 8) (bj / 8) w ne)
        ∙ sym (bit-bit_of d bj)
        ∙ rw (ne→== bi bj (λ e. ne (ap (λ x. x / 8) e))) refl)
]

choose_one : (b : Bool) (x y : ℕ) → ((if b then x else y) == 1) ≡ (if b then x == 1 else y == 1)
choose_one true x y = refl
choose_one false x y = refl

-- Setting a bit, or clearing it, changes no other one.
pub bit-set_bit :
    (d : ℕ → ℕ) (bi bj : ℕ)
    → bit d bi ≡ false
    → bit (set_bit d bi) bj ≡ (if bi == bj then true else bit d bj)
bit-set_bit d bi bj h =
    let w = d (bi / 8) in
    let z : bit_of (bi % 8) w ≡ 0 =
      omega
        (arith, bit_of_lt (bi % 8) w, ==→ne (bit_of (bi % 8) w) 1 (sym (bit-bit_of d bi) ∙ h)) in
    changed d bi bj (w + 2 ^ (bi % 8)) true (λ j.
      ap (λ y. y == 1) (bit_of-added (bi % 8) j w z) ∙ choose_one (bi % 8 == j) 1 (bit_of j w))

pub bit-clear_bit :
    (d : ℕ → ℕ) (bi bj : ℕ)
    → bit d bi ≡ true
    → bit (clear_bit d bi) bj ≡ (if bi == bj then false else bit d bj)
bit-clear_bit d bi bj h =
    let w = d (bi / 8) in
    let z : bit_of (bi % 8) w ≡ 1 = ==→eq (bit_of (bi % 8) w) 1 (sym (bit-bit_of d bi) ∙ h) in
    changed d bi bj (w - 2 ^ (bi % 8)) false (λ j.
      ap (λ y. y == 1) (bit_of-removed (bi % 8) j w z) ∙ choose_one (bi % 8 == j) 0 (bit_of j w))
