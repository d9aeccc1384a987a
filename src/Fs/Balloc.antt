-- ===== src/Fs/Balloc.antt =====
-- kernel/fs.c: the block that `balloc` takes.
use os_study.Prelude.{
  ℕ, zero, suc, ◌+◌, ◌-◌, ◌*◌, ◌/◌, ◌%◌, ◌≤◌, ◌<◌, ◌≡◌, ◌≢◌, ◌⊎◌, refl, sym, ap, ap₂, subst, ◌∙◌,
  Bool, true, false, Bool-cases, inl, inr, Option, arith, ◌==◌, ltb, if◌then◌else◌, update,
  update_self, update_ne, ==→eq, ok, eq→==,
}
use os_study.Fs.{
  Fs, bitmap_block, bit, set_bit, bzero, find_bit, take_block, taken_or, balloc_from, balloc, bfree,
}
use os_study.Fs.Bits.{bit-set_bit}
use os_study.Fs.Blocks.{in_use, map_changed, bfree_lem, FoundBit, NoBit, find_bit_lem}

-- No free block is a block of the free map itself.
abbrev pub MapInUse : Fs → Type 0
MapInUse f = (b c : ℕ) → b < f.size → in_use f b ≡ false → c < f.size → b ≢ bitmap_block f c

-- `balloc` took block `b`, the first free one, and cleared it.
pub record Taken (f : Fs) (out : ℕ × Fs) : Type 0 where
  pub b : ℕ
  pub f1 : Fs
  pub result : out ≡ (b, f1)
  pub inside : b < f.size
  pub was_free : in_use f b ≡ false
  pub first : (c : ℕ) → c < b → in_use f c ≡ true
  pub marked : (c : ℕ) → c < f.size → in_use f1 c ≡ (if b == c then true else in_use f c)
  pub cleared : (i : ℕ) → f1.bytes b i ≡ 0
  pub others : (c : ℕ) → c ≢ b → c ≢ bitmap_block f b → f1.bytes c ≡ f.bytes c
  pub words : f1.words ≡ update f.words b (λ i. 0)
  pub inodes : f1.inode ≡ f.inode
  pub sizes : (f1.size ≡ f.size) × (f1.bmapstart ≡ f.bmapstart)

abbrev pub Exhausted : Fs → ℕ × Fs → Type 0
Exhausted f out = (out ≡ (0, f)) × ((c : ℕ) → c < f.size → in_use f c ≡ true)

-- In bitmap block `base / 8192`, `base + y` has bit `y`.
in_use-bit :
    (f : Fs) (base y : ℕ)
    → base % 8192 ≡ 0
    → y < 8192
    → in_use f (base + y) ≡ bit (f.bytes (bitmap_block f base)) y
in_use-bit f base y a h =
    let bb : bitmap_block f (base + y) ≡ bitmap_block f base = omega (arith, a, h) in
    let bi : (base + y) % 8192 ≡ y = omega (arith, a, h) in ap₂ (λ p q. bit (f.bytes p) q) bb bi

take_block_lem :
    (f : Fs) (base x : ℕ)
    → MapInUse f
    → base % 8192 ≡ 0
    → x < 8192
    → base + x < f.size
    → in_use f (base + x) ≡ false
    → ((c : ℕ) → c < base + x → in_use f c ≡ true)
    → Taken f (base + x, take_block f base x)
unfolding bzero
take_block_lem f base x apart a h size free first =
    let b = base + x in
    let bb : bitmap_block f b ≡ bitmap_block f base = omega (arith, a, h) in
    let bi : b % 8192 ≡ x = omega (arith, a, h) in
    let d = set_bit (f.bytes (bitmap_block f base)) x in
    let free_bit : bit (f.bytes (bitmap_block f base)) x ≡ false =
      sym (in_use-bit f base x a h) ∙ free in
    let change : (bj : ℕ)
        → bit d bj ≡ (if b % 8192 == bj then true else bit (f.bytes (bitmap_block f b)) bj) =
      λ bj.
        bit-set_bit (f.bytes (bitmap_block f base)) x bj free_bit
        ∙ ap₂ (λ (p q : ℕ). if q == bj then true else bit (f.bytes p) bj) (sym bb) (sym bi) in
    let g = update f.bytes (bitmap_block f base) d in
    record {
      b = b;
      f1 = take_block f base x;
      result = refl;
      inside = size;
      was_free = free;
      first = first;
      marked = λ c hc.
          ap (λ p. bit p (c % 8192))
            (update_ne g b (bitmap_block f c) (λ i. 0) (apart b c size free hc))
          ∙ ap (λ p. bit (update f.bytes p d (bitmap_block f c)) (c % 8192)) (sym bb)
          ∙ map_changed f b c d true change;
      cleared = λ i. ap (λ p. p i) (update_self g b (λ i'. 0));
      words = refl;
      inodes = refl;
      sizes = (refl, refl);
      others = λ c nb nm.
          update_ne g b c (λ i. 0) (λ e. nb (sym e))
          ∙ update_ne f.bytes (bitmap_block f base) c d (λ e. nm (sym e ∙ sym bb));
    }

all_below :
    (f : Fs) (base : ℕ)
    → base % 8192 ≡ 0
    → (n : ℕ) → n ≤ 8192
    → ((c : ℕ) → c < base → c < f.size → in_use f c ≡ true)
    → ((y : ℕ) → y < n → base + y < f.size → bit (f.bytes (bitmap_block f base)) y ≡ true)
    → (c : ℕ) → c < base + n
    → c < f.size
    → in_use f c ≡ true
all_below f base a n le below here c lt size = elim (Bool-cases (ltb c base)) [
  | inl old ↦ below c (ground (arith, old)) size
  | inr new ↦
      (let eq : c ≡ base + (c - base) = ground (arith, new) in
        let y_lt : c - base < n = ground (arith, new, lt) in
        ap (in_use f) eq
        ∙ in_use-bit f base (c - base) a (omega (arith, y_lt, le))
        ∙ here (c - base) y_lt (omega (arith, eq, size)))
]

-- One round, by what the inner loop found
round_lem :
    (f : Fs) (base : ℕ) (o : Option ℕ) (rest : ℕ × Fs)
    → MapInUse f
    → base % 8192 ≡ 0
    → ((c : ℕ) → c < base → c < f.size → in_use f c ≡ true)
    → FoundBit 8192 (f.bytes (bitmap_block f base)) base 0 f.size o
      ⊎ NoBit 8192 (f.bytes (bitmap_block f base)) base 0 f.size o
    → (((c : ℕ) → c < base + 8192 → c < f.size → in_use f c ≡ true)
        → Taken f rest ⊎ Exhausted f rest)
    → Taken f (taken_or f base o rest) ⊎ Exhausted f (taken_or f base o rest)
round_lem f base o rest apart a below found next = elim found [
  | inl (x, e, _, lt, size, free, before) ↦
      subst
        (λ (o' : Option ℕ).
          Taken f (taken_or f base o' rest) ⊎ Exhausted f (taken_or f base o' rest))
        (sym e)
        (inl (
          take_block_lem f base x apart a lt size (in_use-bit f base x a lt ∙ free) (λ c c_lt.
            all_below f base a x (omega (arith, lt)) below (λ y y_lt _. before y (omega arith) y_lt)
              c c_lt (omega (arith, c_lt, size)))))
  | inr (e, all) ↦
      subst
        (λ (o' : Option ℕ).
          Taken f (taken_or f base o' rest) ⊎ Exhausted f (taken_or f base o' rest))
        (sym e)
        (next
          (all_below f base a 8192 (omega arith) below (λ y y_lt h. all y (omega arith) y_lt h)))
]

balloc_from-zero : (base : ℕ) (f : Fs) → balloc_from 0 f base ≡ (0, f)
unfolding balloc_from
balloc_from-zero base f = refl

balloc_from-suc :
    (k base : ℕ) (f : Fs)
    → balloc_from (suc k) f base
      ≡ taken_or f base
          (find_bit 8192 (f.bytes (bitmap_block f base)) base 0 f.size)
          (balloc_from k f (base + 8192))
unfolding balloc_from
balloc_from-suc k base f = refl

balloc_from_lem :
    (k base : ℕ) (f : Fs)
    → MapInUse f
    → base % 8192 ≡ 0
    → f.size ≤ base + k * 8192
    → ((c : ℕ) → c < base → c < f.size → in_use f c ≡ true)
    → Taken f (balloc_from k f base) ⊎ Exhausted f (balloc_from k f base)
balloc_from_lem zero base f apart a h below =
    inr (balloc_from-zero base f, λ c lt. below c (omega (arith, lt, h)) lt)
balloc_from_lem (suc k) base f apart a h below =
    subst (λ o. Taken f o ⊎ Exhausted f o) (sym (balloc_from-suc k base f))
      (round_lem f base (find_bit 8192 (f.bytes (bitmap_block f base)) base 0 f.size)
        (balloc_from k f (base + 8192)) apart a below
        (find_bit_lem 8192 (f.bytes (bitmap_block f base)) base 0 f.size)
        (λ all. balloc_from_lem k (base + 8192) f apart (omega (arith, a)) (omega (arith, h)) all))

-- Where no free block belongs to the free map itself, `balloc` ends in one of two ways. Either it
-- takes the first free block of the disk: it marks this block and no other one, fills it with
-- zeroes, and changes no third block but that of the map. Or it returns 0 and changes nothing, and
-- every block of the disk is in use.
pub balloc_lem : (f : Fs) → MapInUse f → Taken f (balloc f) ⊎ Exhausted f (balloc f)
unfolding balloc
balloc_lem f apart =
    balloc_from_lem ((f.size + 8191) / 8192) 0 f apart refl (omega arith)
      (λ c lt. absurd (omega (arith, lt)))

choose_twice :
    (b x : Bool) → (b ≡ true → x ≡ false) → (if b then false else if b then true else x) ≡ x
choose_twice true x h = sym (h refl)
choose_twice false x h = refl

bfree-taken :
    (f : Fs)
    → (t : Taken f (balloc f))
    → (f2 : Fs) × (bfree t.f1 t.b ≡ ok f2) × ((c : ℕ) → c < f.size → in_use f2 c ≡ in_use f c)
bfree-taken f t =
    let used : in_use t.f1 t.b ≡ true = t.marked t.b t.inside ∙ rw (eq→== t.b t.b refl) refl in
    let (f2, e, g) = bfree_lem t.f1 t.b used in
    (
      f2,
      e,
      λ c lt.
          g c
          ∙ ap (λ x. if t.b == c then false else x) (t.marked c lt)
          ∙ choose_twice (t.b == c) (in_use f c)
              (λ same. ap (in_use f) (sym (==→eq t.b c same)) ∙ t.was_free),
    )

-- Where no free block belongs to the free map itself and `balloc` returns a block, `bfree` of this
-- block does not panic, and the free map says of every block of the disk what it said before both.
pub bfree-balloc :
    (f : Fs)
    → MapInUse f
    → (balloc f).0 ≢ 0
    → (f2 : Fs) × (bfree (balloc f).1 (balloc f).0 ≡ ok f2)
      × ((c : ℕ) → c < f.size → in_use f2 c ≡ in_use f c)
bfree-balloc f apart got = elim (balloc_lem f apart) [
  | inl t ↦
      subst
        (λ (o : ℕ × Fs).
          (f2 : Fs) × (bfree o.1 o.0 ≡ ok f2) × ((c : ℕ) → c < f.size → in_use f2 c ≡ in_use f c))
        (sym t.result) (bfree-taken f t)
  | inr (e, _) ↦ absurd (got (ap (λ o. o.0) e))
]
