-- ===== src/Vm/Pages.antt =====
-- kernel/vm.c: ranges of pages in address spaces.
use os_study.Prelude.{
  ℕ, suc, ◌+◌, ◌-◌, ◌*◌, ◌%◌, ◌/◌, ◌<◌, ◌≡◌, ap, ◌∙◌, Bool, true, false, arith, leb, ltb, ◌==◌,
  ◌&&◌, if◌then◌else◌,
}

-- The address `va'` of space `r'` lies in the `j` pages from `a` on of space `r`.
abbrev pub in_pages : ℕ → ℕ → ℕ → ℕ → ℕ → Bool
in_pages r a j r' va' =
    (r == r') && (leb (a / 4096) (va' / 4096) && ltb (va' / 4096) (a / 4096 + j))

pub no_pages : (r a r' va' x y : ℕ) → y ≡ (if in_pages r a 0 r' va' then x else y)
no_pages r a r' va' x y = ground arith

pub choose :
    (b : Bool) (k x u v y y' : ℕ)
    → (k ≡ x → v ≡ u)
    → y ≡ y'
    → (if b && (k == x) then u else y) ≡ (if b && (leb k x && ltb x (k + 1)) then v else y')
choose b k x u v y y' h e = ground (arith, h, e)

pub choose_more :
    (b : Bool) (k x j u v y : ℕ)
    → (k < x → v ≡ u)
    → (if b && (leb (k + 1) x && ltb x (k + 1 + j))
        then v
        else if b && (leb k x && ltb x (k + 1))
        then u
        else y)
      ≡ (if b && (leb k x && ltb x (k + suc j)) then u else y)
choose_more b k x j u v y h = ground (arith, h)

pub past_page : (r a j n : ℕ) → n ≡ 1 → in_pages r a n r (a + 4096 + j * 4096) ≡ false
past_page r a j n e =
    let k : (a + 4096 + j * 4096) / 4096 ≡ a / 4096 + 1 + j = omega arith in ground (arith, k, e)

pub more :
    (r a j r' va' u v y : ℕ)
    → (a / 4096 < va' / 4096 → v ≡ u)
    → (if in_pages r (a + 4096) j r' va' then v else if in_pages r a 1 r' va' then u else y)
      ≡ (if in_pages r a (suc j) r' va' then u else y)
more r a j r' va' u v y same =
    let k : (a + 4096) / 4096 ≡ a / 4096 + 1 = omega arith in
    ap
      (λ (n : ℕ).
        if (r == r') && (leb n (va' / 4096) && ltb (va' / 4096) (n + j))
        then v
        else if in_pages r a 1 r' va'
        then u
        else y)
      k
    ∙ choose_more (r == r') (a / 4096) (va' / 4096) j u v y same

pub in_one_page :
    (r a r' va' : ℕ) → in_pages r a 1 r' va' ≡ true → (r ≡ r') × (a / 4096 ≡ va' / 4096)
in_one_page r a r' va' h = ground (arith, h)

-- The last of `i + 1` pages, and those before it
pub last_page :
    (r start i r' va' : ℕ)
    → in_pages r start (suc i) r' va'
      ≡ (if in_pages r (start + i * 4096) 1 r' va' then true else in_pages r start i r' va')
last_page r start i r' va' =
    let k : (start + i * 4096) / 4096 ≡ start / 4096 + i = omega arith in ground (arith, k)

-- An address among the pages lies in one of them.
pub page_of :
    (r start i r' va' : ℕ)
    → start % 4096 ≡ 0
    → in_pages r start i r' va' ≡ true
    → (r ≡ r') × (j : ℕ) × (j < i) × ((start + j * 4096) / 4096 ≡ va' / 4096)
page_of r start i r' va' a h =
    (ground (arith, h), va' / 4096 - start / 4096, ground (arith, h), ground (arith, h, a))
