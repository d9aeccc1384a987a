-- ===== src/VirtioDisk/Chains.antt =====
-- kernel/virtio_disk.c: requests in flight, in any order of submissions, interrupts and completions.
use os_study.Prelude.{
  ℕ, suc, ◌+◌, ◌%◌, ◌<◌, ◌≡◌, refl, ap, ◌∙◌, Bool, true, none, some, List, [], ◌∷◌, arith, ok, All,
}
use os_study.VirtioDisk.{
  Disk, Desc, Request, free_desc, free_chain, submit, finish, Device, virtio_disk_intr,
}
use os_study.VirtioDisk.Owned.{Owned, count}

abbrev pub three : Request → List ℕ
three r = r.first ∷ r.second ∷ r.third ∷ []

-- How many of the requests have the descriptor `k`.
abbrev pub owners : List Request → ℕ → ℕ
owners [] k = 0
owners (r ∷ rs) k = count k (three r) + owners rs k

-- The descriptors of `r` lead from one to the next.
pub record Linked (desc : ℕ → Desc) (r : Request) : Type 0 where
  pub first_flag : (desc r.first).flags % 2 ≡ 1
  pub first_next : (desc r.first).next ≡ r.second
  pub second_flag : (desc r.second).flags % 2 ≡ 1
  pub second_next : (desc r.second).next ≡ r.third
  pub third_flag : (desc r.third).flags % 2 ≡ 0

-- The disk, and the requests that wait for it or have not freed their descriptors.
pub record Driver : Type 0 where
  pub disk : Disk
  pub requests : List Request

-- One of the requests is taken out.
pub data Pick (r : Request) : List Request → List Request → Type 0 where
  here : {rs : List Request} → Pick r (r ∷ rs) rs
  there : {q : Request} {rs qs : List Request} → Pick r rs qs → Pick r (q ∷ rs) (q ∷ qs)

pub data Step (s : Driver) : Driver → Type 0 where
  submits :
      {r : Request} {d : Disk} (buf blockno : ℕ) (write : Bool)
      → submit buf blockno write s.disk ≡ ok (some r, d)
      → Step s (record { disk = d; requests = r ∷ s.requests })
  sleeps :
      {d : Disk} (buf blockno : ℕ) (write : Bool)
      → submit buf blockno write s.disk ≡ ok (none, d)
      → Step s (record { disk = d; requests = s.requests })
  interrupt :
      {d : Disk} (v : Device)
      → virtio_disk_intr v s.disk ≡ ok d
      → Step s (record { disk = d; requests = s.requests })
  finishes :
      {d : Disk} {r : Request} {rs : List Request}
      → Pick r s.requests rs
      → finish r s.disk ≡ ok d
      → Step s (record { disk = d; requests = rs })

-- Reachable from the disk that `virtio_disk_init` leaves: every descriptor is free.
pub data Reach : Driver → Type 0 where
  start : {d : Disk} → ((k : ℕ) → d.free k ≡ true) → Reach (record { disk = d; requests = [] })
  next : {s t : Driver} → Reach s → Step s t → Reach t

pub record Inv (s : Driver) : Type 0 where
  pub owned : Owned s.disk.free (owners s.requests)
  pub linked : All (Linked s.disk.desc) s.requests

pub Pick-owners :
    {r : Request} {rs qs : List Request} (k : ℕ)
    → Pick r rs qs
    → owners rs k ≡ count k (three r) + owners qs k
Pick-owners k here = refl
Pick-owners k (there p) = omega (arith, Pick-owners k p)

pub Pick-Linked :
    {f : ℕ → Desc} {r : Request} {rs qs : List Request}
    → Pick r rs qs
    → All (Linked f) rs
    → Linked f r × All (Linked f) qs
Pick-Linked here a = a
Pick-Linked (there p) a = let (l, rest) = Pick-Linked p a.1 in (l, (a.0, rest))

-- Descriptors that no request has may change.
pub Linked-keep :
    (f g : ℕ → Desc) (rs : List Request)
    → ((k : ℕ) → 0 < owners rs k → g k ≡ f k)
    → All (Linked f) rs
    → All (Linked g) rs
Linked-keep f g [] same a = tt
Linked-keep f g (r ∷ rs) same (l, a) = (
  (let i = same r.first (ground arith) in
      let j = same r.second (ground arith) in
      let k = same r.third (ground arith) in
      record {
        first_flag = ap (λ (x : Desc). x.flags % 2) i ∙ l.first_flag;
        first_next = ap (λ (x : Desc). x.next) i ∙ l.first_next;
        second_flag = ap (λ (x : Desc). x.flags % 2) j ∙ l.second_flag;
        second_next = ap (λ (x : Desc). x.next) j ∙ l.second_next;
        third_flag = ap (λ (x : Desc). x.flags % 2) k ∙ l.third_flag;
      }),
  Linked-keep f g rs (λ k h. same k (omega (arith, h))) a,
)

pub free_chain-next :
    (fuel i : ℕ) (d d' : Disk)
    → (d.desc i).flags % 2 ≡ 1
    → free_desc i d ≡ ok d'
    → free_chain (suc fuel) i d ≡ free_chain fuel (d.desc i).next d'
unfolding free_chain
free_chain-next fuel i d d' h e = rw (h, e)

pub free_chain-last :
    (fuel i : ℕ) (d : Disk) → (d.desc i).flags % 2 ≡ 0 → free_chain (suc fuel) i d ≡ free_desc i d
unfolding free_chain
free_chain-last fuel i d h = rw h
