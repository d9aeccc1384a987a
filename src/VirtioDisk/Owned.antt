-- ===== src/VirtioDisk/Owned.antt =====
-- kernel/virtio_disk.c: who owns each descriptor.
use os_study.Prelude.{
  ℕ, zero, suc, ◌+◌, ◌≤◌, ◌<◌, ◌≡◌, refl, sym, ap, subst, ◌∙◌, Bool, true, false, Option,
  Option-cases, none, some, List, [], ◌∷◌, ◌++◌, arith, ◌==◌, ltb, if◌then◌else◌, lt→ltb, update,
  ok, inl, inr, Bool-cases, length, length-append,
}
use os_study.VirtioDisk.{
  Disk, num, find_free, alloc_desc, free_desc, empty_desc, free_all, alloc_more,
}

abbrev pub one : Bool → ℕ
one true = 1
one false = 0

-- How often `k` stands in a list of descriptors.
abbrev pub count : ℕ → List ℕ → ℕ
count k [] = 0
count k (i ∷ is) = one (i == k) + count k is

-- Each of the `num` descriptors is free, or has one owner; `owners` counts them.
pub record Owned (free : ℕ → Bool) (owners : ℕ → ℕ) : Type 0 where
  pub each : (k : ℕ) → (if ltb k num then one (free k) else 0) + owners k ≡ one (ltb k num)

pub Owned-ap : {free : ℕ → Bool} {m n : ℕ → ℕ} → ((k : ℕ) → m k ≡ n k) → Owned free m → Owned free n
Owned-ap e o = record { each = λ k. omega (arith, e k, o.each k) }

find_free_lem :
    (n i j : ℕ) (free : ℕ → Bool) → find_free n i free ≡ some j → (j < i + n) × (free j ≡ true)
unfolding find_free
find_free_lem zero i j free e = absurd (cc)
find_free_lem (suc n) i j free e = elim (Bool-cases (free i)) [
  | inl h ↦
      (let same : i ≡ j = ground arith in (omega (arith, same), subst (λ x. free x ≡ true) same h))
  | inr h ↦
      let later = find_free_lem n (i + 1) j free (ground arith) in (omega (arith, later.0), later.1)
]

total : ℕ → (ℕ → ℕ) → ℕ
total zero f = 0
total (suc n) f = f n + total n f

-- How many descriptors are free.
unfoldable pub free_count : (ℕ → Bool) → ℕ
unfolding total
free_count free = total num (λ k. one (free k))

total-update :
    (n i : ℕ) (free : ℕ → Bool)
    → free i ≡ true
    → total n (λ k. one (free k))
      ≡ (if ltb i n then 1 else 0) + total n (λ k. one (update free i false k))
unfolding total
total-update zero i free h = ground arith
total-update (suc n) i free h = ground (arith, total-update n i free h)

free_count-taken :
    (i : ℕ) (free : ℕ → Bool)
    → i < num
    → free i ≡ true
    → free_count free ≡ 1 + free_count (update free i false)
unfolding free_count total
free_count-taken i free h is_free =
    total-update num i free is_free ∙ ap (λ c. c + rest) (rw (lt→ltb i num h))
  where
    rest : ℕ
    rest = total num (λ k. one (update free i false k))

-- `alloc_desc` takes a free descriptor for a new owner.
pub alloc_desc_lem :
    (d : Disk) (i : ℕ) {d' : Disk} {owners : ℕ → ℕ}
    → Owned d.free owners
    → alloc_desc d ≡ some (i, d')
    → (i < num)
      × (d'.desc ≡ d.desc)
      × (free_count d.free ≡ 1 + free_count d'.free)
      × Owned d'.free (λ k. one (i == k) + owners k)
unfolding alloc_desc
alloc_desc_lem d i {d'} {owners} o e = elim (Option-cases (find_free num 0 d.free)) [
  | inl h ↦ absurd (ground arith)
  | inr (j, h) ↦
      let same : (j ≡ i) × (record d { free = update d.free j false } ≡ d') = ground arith in
      let (below, is_free) = find_free_lem num 0 j d.free h in
      let free' : d'.free ≡ update d.free j false = ap (λ (x : Disk). x.free) (sym same.1) in
      let taken : free_count d.free ≡ 1 + free_count (update d.free j false) =
        free_count-taken j d.free (omega arith) is_free in
      (
        omega (arith, same.0, below),
        ap (λ (x : Disk). x.desc) (sym same.1),
        taken ∙ ap (λ f. 1 + free_count f) (sym free'),
        record { each = λ k. rw free' (ground (arith, o.each k)) },
      )
]

-- `free_desc` of an owned descriptor does not panic.
pub free_desc_lem :
    (d : Disk) (i : ℕ) {owners : ℕ → ℕ}
    → Owned d.free (λ k. one (i == k) + owners k)
    → (d' : Disk) × (free_desc i d ≡ ok d')
      × Owned d'.free owners
      × (d'.desc ≡ update d.desc i empty_desc)
      × (d'.busy ≡ d.busy)
unfolding free_desc
free_desc_lem d i {owners} o = (
  record d { desc = update d.desc i empty_desc; free = update d.free i true },
  ground (arith, o.each i),
  record { each = λ k. ground (arith, o.each k, o.each i) },
  refl,
  refl,
)

pub free_all_lem :
    (is : List ℕ) (d : Disk) {owners : ℕ → ℕ}
    → Owned d.free (λ k. count k is + owners k)
    → (d' : Disk) × (free_all is d ≡ ok d')
      × Owned d'.free owners
      × ((k : ℕ) → 0 < owners k → d'.desc k ≡ d.desc k)
unfolding free_all
free_all_lem [] d o = (d, refl, Owned-ap (λ k. omega arith) o, λ k h. refl)
free_all_lem (i ∷ is) d {owners} o =
    let (d1, e1, o1, desc1, _) =
      free_desc_lem d i
        (Owned-ap {n = λ k. one (i == k) + (count k is + owners k)} (λ k. omega arith) o) in
    let (d', e, o', same) = free_all_lem is d1 o1 in
    (d', rw e1 e, o', λ k h. same k h ∙ ap (λ f. f k) desc1 ∙ ground (arith, o.each k, o.each i))

find_free-none :
    (n i : ℕ) (free : ℕ → Bool)
    → find_free n i free ≡ none
    → (k : ℕ) → i ≤ k
    → k < i + n
    → free k ≡ false
unfolding find_free
find_free-none zero i free e k a b = absurd (omega arith)
find_free-none (suc n) i free e k a b = elim (Bool-cases (i == k)) [
  | inl h ↦ ground arith
  | inr h ↦ find_free-none n (i + 1) free (ground arith) k (ground arith) (omega arith)
]

total-zero : (n : ℕ) (f : ℕ → ℕ) → ((k : ℕ) → k < n → f k ≡ 0) → total n f ≡ 0
unfolding total
total-zero zero f h = refl
total-zero (suc n) f h =
    omega (arith, h n (omega arith), total-zero n f (λ k lt. h k (omega arith)))

pub alloc_desc-none : (d : Disk) → alloc_desc d ≡ none → free_count d.free ≡ 0
unfolding alloc_desc free_count
alloc_desc-none d e =
    let none_free = find_free-none num 0 d.free (ground arith) in
    total-zero num (λ k. one (d.free k)) λ k lt. ap one (none_free k (omega arith) (omega arith))

-- `alloc_more` with `n` rounds left, where `owners` have other descriptors and the result is `m`
-- descriptors: it succeeds exactly when `n` are free, and on failure gives back what it took.
abbrev pub Allocated : (ℕ → ℕ) → ℕ → ℕ → Disk → Option (List ℕ) → Disk → Type 0
Allocated owners n m d none d' =
    (free_count d.free < n) × Owned d'.free owners × ((k : ℕ) → 0 < owners k → d'.desc k ≡ d.desc k)
Allocated owners n m d (some is) d' =
    (n ≤ free_count d.free)
    × (length is ≡ m)
    × Owned d'.free (λ k. count k is + owners k)
    × ((k : ℕ) → 0 < owners k → d'.desc k ≡ d.desc k)

count-snoc : (k i : ℕ) (is : List ℕ) → count k (is ++ i ∷ []) ≡ one (i == k) + count k is
count-snoc k i [] = refl
count-snoc k i (x ∷ is) = omega (arith, count-snoc k i is)

-- One round more in front.
Allocated-suc :
    (owners : ℕ → ℕ) (n m : ℕ) {m' : ℕ} (d d1 d' : Disk) (r : Option (List ℕ))
    → m ≡ m'
    → d1.desc ≡ d.desc
    → free_count d.free ≡ 1 + free_count d1.free
    → Allocated owners n m d1 r d'
    → Allocated owners (suc n) m' d r d'
Allocated-suc owners n m d d1 d' none e same f a =
    (omega (arith, f, a.0), a.1, λ k h. a.2 k h ∙ ap (λ g. g k) same)
Allocated-suc owners n m d d1 d' (some is) e same f a =
    (omega (arith, f, a.0), a.1 ∙ e, a.2, λ k h. a.3 k h ∙ ap (λ g. g k) same)

pub alloc_more_lem :
    (n : ℕ) (idx : List ℕ) (d : Disk) {owners : ℕ → ℕ}
    → Owned d.free (λ k. count k idx + owners k)
    → (r : Option (List ℕ)) × (d' : Disk) × (alloc_more n idx d ≡ ok (r, d'))
      × Allocated owners n (n + length idx) d r d'
unfolding alloc_more
alloc_more_lem zero idx d o = (some idx, d, refl, (omega arith, omega arith, o, λ k h. refl))
alloc_more_lem (suc n) idx d {owners} o = elim (Option-cases (alloc_desc d)) [
  | inl e ↦
      (let (d', done, o', same) = free_all_lem idx d o in
        (none, d', rw (e, alloc_more, done), (omega (arith, alloc_desc-none d e), o', same)))
  | inr ((i, d1), e) ↦
      let (below, same, fewer, o1) = alloc_desc_lem d i o e in
      let (r, d', done, a) = alloc_more_lem n (idx ++ i ∷ []) d1 (
        Owned-ap {n = λ k. count k (idx ++ i ∷ []) + owners k}
          (λ k. omega (arith, count-snoc k i idx)) o1) in
      (
        r,
        d',
        rw (e, alloc_more) done,
        Allocated-suc owners n (n + length (idx ++ i ∷ [])) d d1 d' r
            (omega (arith, length-append idx (i ∷ []))) same fewer a,
      )
]
