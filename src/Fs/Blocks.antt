-- ===== src/Fs/Blocks.antt =====
-- kernel/fs.c: which blocks `balloc` and `bfree` take and give back.
use os_study.Prelude.{
  ℕ, zero, suc, ◌+◌, ◌/◌, ◌%◌, ◌≤◌, ◌<◌, ◌≡◌, ◌⊎◌, refl, sym, ap, ap₂, ◌∙◌, Bool, true, false,
  Bool-cases, inl, inr, Option, none, some, arith, ◌==◌, ltb, if◌then◌else◌, update, update_self,
  update_ne, ==→eq, ==→ne, ne→==, ok, panic, ◌∷◌,
}
use os_study.Fs.{Fs, bits_per_block, bitmap_block, bit, clear_bit, find_bit, bfree}
use os_study.Fs.Bits.{bit-clear_bit}

-- The free map says that block `b` is in use.
abbrev pub in_use : Fs → ℕ → Bool
in_use f b = bit (f.bytes (bitmap_block f b)) (b % bits_per_block)

same_block : (b c : ℕ) → b / 8192 ≡ c / 8192 → (b % 8192 == c % 8192) ≡ (b == c)
same_block b c e = ground (arith, e)

-- The free map after one of its blocks changed in the bit of `b`
pub map_changed :
    (f : Fs) (b c : ℕ) (d : ℕ → ℕ) (r : Bool)
    → ((bj : ℕ) → bit d bj ≡ (if b % 8192 == bj then r else bit (f.bytes (bitmap_block f b)) bj))
    → bit (update f.bytes (bitmap_block f b) d (bitmap_block f c)) (c % 8192)
      ≡ (if b == c then r else in_use f c)
map_changed f b c d r h = elim (Bool-cases (b / 8192 == c / 8192)) [
  | inl same ↦
      (let e = ==→eq (b / 8192) (c / 8192) same in
        let eb : bitmap_block f b ≡ bitmap_block f c = ap (λ x. x + f.bmapstart) e in
        ap (λ x. bit x (c % 8192))
          (ap (update f.bytes (bitmap_block f b) d) (sym eb)
            ∙ update_self f.bytes (bitmap_block f b) d)
        ∙ h (c % 8192)
        ∙ ap₂ (λ t x. if t then r else bit (f.bytes x) (c % 8192)) (same_block b c e) eb)
  | inr other ↦
      (let ne = ==→ne (b / 8192) (c / 8192) other in
        ap (λ x. bit x (c % 8192))
          (update_ne f.bytes (bitmap_block f b) (bitmap_block f c) d (λ z. ne (omega (arith, z))))
        ∙ rw (ne→== b c (λ e. ne (ap (λ x. x / 8192) e))) refl)
]

-- What `bfree` leaves: only the bit of `b` has changed, and the map's block is logged.
pub bfree_lem :
    (f : Fs) (b : ℕ)
    → in_use f b ≡ true
    → (f1 : Fs) × (bfree f b ≡ ok f1)
      × ((c : ℕ) → in_use f1 c ≡ (if b == c then false else in_use f c))
unfolding bfree
bfree_lem f b h =
    let bb = bitmap_block f b in
    let bi = b % 8192 in
    (
      record f { bytes = update f.bytes bb (clear_bit (f.bytes bb) bi); logged = bb ∷ f.logged },
      rw h refl,
      λ c.
          map_changed f b c (clear_bit (f.bytes bb) bi) false
            (λ bj. bit-clear_bit (f.bytes bb) bi bj h),
    )

pub bfree-panic : (f : Fs) (b : ℕ) → in_use f b ≡ false → bfree f b ≡ panic "freeing free block"
unfolding bfree
bfree-panic f b h = rw h refl

-- The first bit that is 0, from `bi` on
abbrev pub FoundBit : ℕ → (ℕ → ℕ) → ℕ → ℕ → ℕ → Option ℕ → Type 0
FoundBit k d b bi size o =
    (x : ℕ) × (o ≡ some x)
    × (bi ≤ x)
    × (x < bi + k)
    × (b + x < size)
    × (bit d x ≡ false)
    × ((y : ℕ) → bi ≤ y → y < x → bit d y ≡ true)

abbrev pub NoBit : ℕ → (ℕ → ℕ) → ℕ → ℕ → ℕ → Option ℕ → Type 0
NoBit k d b bi size o = (o ≡ none) × ((y : ℕ) → bi ≤ y → y < bi + k → b + y < size → bit d y ≡ true)

from_here :
    (d : ℕ → ℕ) (bi : ℕ)
    → bit d bi ≡ true
    → (y : ℕ) → bi ≤ y
    → (bi + 1 ≤ y → bit d y ≡ true)
    → bit d y ≡ true
from_here d bi e y le f = elim (Bool-cases (bi == y)) [
  | inl same ↦ ap (bit d) (sym (==→eq bi y same)) ∙ e
  | inr other ↦ f (ground (arith, le, other))
]

pub find_bit_lem :
    (k : ℕ) (d : ℕ → ℕ) (b bi size : ℕ)
    → FoundBit k d b bi size (find_bit k d b bi size) ⊎ NoBit k d b bi size (find_bit k d b bi size)
unfolding find_bit
find_bit_lem zero d b bi size = inr (refl, λ y le lt h. absurd (omega (arith, le, lt)))
find_bit_lem (suc k) d b bi size = elim (Bool-cases (ltb (b + bi) size)) [
  | inr past ↦ rw past (inr (refl, λ y le lt h. absurd (ground (arith, past, le, h))))
  | inl room ↦ elim (Bool-cases (bit d bi)) [
    | inr free ↦
        rw (room, free)
          (inl (
            bi,
            refl,
            omega arith,
            omega arith,
            ground (arith, room),
            free,
            λ y le lt. absurd (omega (arith, le, lt)),
          ))
    | inl used ↦
        rw (room, used)
          (elim (find_bit_lem k d b (bi + 1) size) [
            | inl (x, e, le, lt, h, free, first) ↦ inl (
              x,
              e,
              omega (arith, le),
              omega (arith, lt),
              h,
              free,
              λ y le2 lt2. from_here d bi used y le2 (λ z. first y z lt2),
            )
            | inr (e, all) ↦
                inr (e, λ y le lt h. from_here d bi used y le (λ z. all y z (omega (arith, lt)) h))
          ])
  ]
]
