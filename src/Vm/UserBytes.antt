-- ===== src/Vm/UserBytes.antt =====
-- kernel/vm.c: the bytes that `copyin` and `copyout` move, for user memory that is mapped.
use os_study.Prelude.{
  ℕ, zero, suc, ◌+◌, ◌-◌, ◌%◌, ◌≤◌, ◌<◌, ◌≡◌, ◌≢◌, refl, sym, ap, ap₂, ◌∙◌, true, false, Option,
  none, some, Bool-cases, inl, inr, arith, leb, ◌==◌, if◌then◌else◌, ok, ne→==,
}
use os_study.Kalloc.{page_size}
use os_study.StringOps.{memmove}
use os_study.StringOps.Within.{
  offset, within_rest, within_less, within_first, rest_offset, within_tail,
}
use os_study.StringOps.Move.{within, memmove_lem}
use os_study.Vm.{Machine, max_va, px, pte2pa, is_user, entry_at, user_page, walkaddr}
use os_study.Vm.Copy.{Myproc, page_round_down, chunk, find_page, copyin_from, copyin}
use os_study.Vm.Tree.{leaf_page, pte_in, pte_of, pte_of_page}
use os_study.Vm.Walk.{descend-find}

-- The frame of an entry that the user may use, or 0.
abbrev pub user_frame : ℕ → ℕ
user_frame pte = if is_user pte then pte2pa pte else 0

-- The physical address of `va` in the space of `r`
abbrev pub physical : (ℕ → ℕ → ℕ) → ℕ → ℕ → ℕ
physical t r va = user_frame (pte_of t r va) + va % 4096

user_page_lem :
    (m : Machine) (va : ℕ) (o : Option ℕ)
    → user_page m (entry_at (px 0 va) o) ≡ user_frame (pte_in m.tables va o)
user_page_lem m va none = refl
user_page_lem m va (some q) = ground arith

-- `walkaddr` gives the frame of a mapped user page, else 0.
pub walkaddr_lem :
    (m : Machine) (r va : ℕ)
    → va < max_va
    → walkaddr m r va ≡ ok (user_frame (pte_of m.tables r va))
unfolding walkaddr
walkaddr_lem m r va h =
    let low : leb max_va va ≡ false = ground (arith, h) in
    rw low (
      ap (λ d. ok (user_page m (entry_at (px 0 va) d.0))) (descend-find m r va)
      ∙ ap (λ x. ok x) (user_page_lem m va (leaf_page m.tables 2 r va)))

-- The `len` bytes from `va` on are user memory, below `MAXVA`.
pub record UserRange (t : ℕ → ℕ → ℕ) (r va len : ℕ) : Type 0 where
  pub below : va + len ≤ max_va
  pub mapped : (o : ℕ) → o < len → user_frame (pte_of t r (va + o)) ≢ 0

frame_there :
    (t : ℕ → ℕ → ℕ) (r va len : ℕ)
    → UserRange t r va (suc len)
    → (user_frame (pte_of t r va) == 0) ≡ false
frame_there t r va len u =
    ne→== (user_frame (pte_of t r va)) 0
      (λ z. u.mapped 0 (omega arith) (ap (λ x. user_frame (pte_of t r x)) (omega arith) ∙ z))

found_page :
    (m : Machine) (pr : Myproc) (r va len : ℕ)
    → UserRange m.tables r va (suc len)
    → find_page m pr r (page_round_down va) ≡ ok (user_frame (pte_of m.tables r va), m)
unfolding find_page
found_page m pr r va len u =
    let same : pte_of m.tables r (page_round_down va) ≡ pte_of m.tables r va =
      pte_of_page m.tables r (page_round_down va) va (omega arith) in
    rw
      (
        walkaddr_lem m r (page_round_down va) (omega (arith, u.below)),
        same,
        frame_there m.tables r va len u,
      )
      refl

reassoc : (a b c : ℕ) → a + (b + c) ≡ a + b + c
reassoc a b c = omega arith

-- In one page addresses are translated alike.
physical-chunk :
    (t : ℕ → ℕ → ℕ) (r va len o : ℕ)
    → o < chunk va len
    → physical t r (va + o) ≡ user_frame (pte_of t r va) + (va - page_round_down va) + o
physical-chunk t r va len o h =
    let same : pte_of t r (va + o) ≡ pte_of t r va =
      pte_of_page t r (va + o) va (omega (arith, h)) in
    let off : (va + o) % 4096 ≡ va - page_round_down va + o = omega (arith, h) in
    ap₂ (λ x y. user_frame x + y) same off
    ∙ reassoc (user_frame (pte_of t r va)) (va - page_round_down va) o

-- The next page's bytes of a range
rest_range :
    (t : ℕ → ℕ → ℕ) (r va len : ℕ)
    → UserRange t r va (suc len)
    → UserRange t r (page_round_down va + page_size) (suc len - chunk va (suc len))
rest_range t r va len u = record {
  below = omega (arith, u.below);
  mapped = λ o h z.
      u.mapped (chunk va (suc len) + o) (omega (arith, h))
        (ap (λ x. user_frame (pte_of t r x)) (omega (arith, h)) ∙ z);
}

-- Translations of the rest of a range, from the next page on
physical-rest :
    (t : ℕ → ℕ → ℕ) (r va len o : ℕ)
    → o < len - chunk va len
    → physical t r (page_round_down va + page_size + o) ≡ physical t r (va + (chunk va len + o))
physical-rest t r va len o h = ap (physical t r) (omega (arith, h))

-- Where the kernel's bytes are not user bytes of the range
abbrev pub Apart : (ℕ → ℕ → ℕ) → ℕ → ℕ → ℕ → ℕ → Type 0
Apart t r va len dst = (o : ℕ) → o < len → within dst len (physical t r (va + o)) ≡ false

-- The bytes after `len` bytes went from user memory at `va` to `dst`
abbrev pub taken : (ℕ → ℕ → ℕ) → (ℕ → ℕ) → ℕ → ℕ → ℕ → ℕ → ℕ → ℕ
taken t b r dst va len q = if within dst len q then b (physical t r (va + (q - dst))) else b q

first_chunk :
    (t : ℕ → ℕ → ℕ) (b : ℕ → ℕ) (r dst va len q : ℕ)
    → memmove b dst (user_frame (pte_of t r va) + (va - page_round_down va)) (chunk va len) q
      ≡ taken t b r dst va (chunk va len) q
first_chunk t b r dst va len q =
    memmove_lem b dst (user_frame (pte_of t r va) + (va - page_round_down va)) (chunk va len) q
    ∙ elim (Bool-cases (within dst (chunk va len) q)) [
      | inl hit ↦
          rw hit
            (ap b (sym (physical-chunk t r va len (q - dst) (offset dst (chunk va len) q hit))))
      | inr miss ↦ rw miss refl
    ]

join_chunks :
    (t : ℕ → ℕ → ℕ) (b b1 : ℕ → ℕ) (r dst va len q : ℕ)
    → Apart t r va len dst
    → ((q' : ℕ) → b1 q' ≡ taken t b r dst va (chunk va len) q')
    → taken t b1 r (dst + chunk va len) (page_round_down va + page_size) (len - chunk va len) q
      ≡ taken t b r dst va len q
join_chunks t b b1 r dst va len q apart f =
    let n = chunk va len in
    let le : n ≤ len = omega arith in
    elim (Bool-cases (within (dst + n) (len - n) q)) [
      | inl hit ↦
          (let (lt, eq, lt2) = rest_offset dst n len q le hit in
            let to : physical t r (page_round_down va + page_size + (q - (dst + n)))
                ≡ physical t r (va + (q - dst)) =
              physical-rest t r va len (q - (dst + n)) lt
              ∙ ap (λ (x : ℕ). physical t r (va + x)) eq in
            let out =
              within_less dst n len (physical t r (va + (q - dst))) le (apart (q - dst) lt2) in
            rw (hit, within_rest dst n len q le hit)
              (ap b1 to ∙ f (physical t r (va + (q - dst))) ∙ rw out refl))
      | inr miss ↦ rw miss (
          f q
          ∙ ap (λ w. if w then b (physical t r (va + (q - dst))) else b q)
              (within_first dst n len q le miss))
    ]

Apart-rest :
    (t : ℕ → ℕ → ℕ) (r va len dst : ℕ)
    → Apart t r va len dst
    → Apart t r (page_round_down va + page_size) (len - chunk va len) (dst + chunk va len)
Apart-rest t r va len dst apart o h =
    ap (within (dst + chunk va len) (len - chunk va len)) (physical-rest t r va len o h)
    ∙ within_tail dst (chunk va len) len (physical t r (va + (chunk va len + o))) (omega arith)
        (apart (chunk va len + o) (omega (arith, h)))

-- Enough rounds of `copyin` for a mapped range
copyin_from_lem :
    (fuel : ℕ) (m : Machine) (pr : Myproc) (r dst va len : ℕ)
    → len ≤ fuel
    → UserRange m.tables r va len
    → Apart m.tables r va len dst
    → (b : ℕ → ℕ) × (copyin_from fuel m pr r dst va len ≡ ok (true, record m { bytes = b }))
      × ((q : ℕ) → b q ≡ taken m.tables m.bytes r dst va len q)
unfolding copyin_from
copyin_from_lem zero m pr r dst va len le u apart =
    (m.bytes, ground (arith, le), λ q. ground (arith, le))
copyin_from_lem (suc fuel) m pr r dst va zero le u apart = (m.bytes, refl, λ q. ground arith)
copyin_from_lem (suc fuel) m pr r dst va (suc len) le u apart =
    let n = chunk va (suc len) in
    let frame = user_frame (pte_of m.tables r va) in
    let b1 = memmove m.bytes dst (frame + (va - page_round_down va)) n in
    let m1 = record m { bytes = b1 } in
    let (b, e, f) =
      copyin_from_lem fuel m1 pr r (dst + n) (page_round_down va + page_size) (suc len - n)
        (omega (arith, le)) (rest_range m.tables r va len u)
        (Apart-rest m.tables r va (suc len) dst apart) in
    (
      b,
      rw
          (
            ne→== (suc len) 0 (omega arith),
            found_page m pr r va len u,
            frame_there m.tables r va len u,
            e,
          )
          refl,
      λ q.
          f q
          ∙ join_chunks m.tables m.bytes b1 r dst va (suc len) q apart
              (λ q'. first_chunk m.tables m.bytes r dst va (suc len) q'),
    )

-- For a range of mapped user pages below `MAXVA`, and a destination that has none of the range's
-- bytes, `copyin` returns 0: it has put at `dst` the bytes at the physical addresses of the range,
-- also where these lie on different pages, and has changed no other byte and no mapping.
pub copyin_lem :
    (m : Machine) (pr : Myproc) (r dst srcva len : ℕ)
    → UserRange m.tables r srcva len
    → Apart m.tables r srcva len dst
    → (b : ℕ → ℕ) × (copyin m pr r dst srcva len ≡ ok (true, record m { bytes = b }))
      × ((q : ℕ) → b q ≡ taken m.tables m.bytes r dst srcva len q)
unfolding copyin
copyin_lem m pr r dst srcva len u apart =
    copyin_from_lem len m pr r dst srcva len (omega arith) u apart
