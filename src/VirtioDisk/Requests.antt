-- ===== src/VirtioDisk/Requests.antt =====
-- kernel/virtio_disk.c: what submitting and finishing a request do to the descriptors.
use os_study.Prelude.{
  ℕ, zero, suc, ◌+◌, ◌%◌, ◌^◌, ◌≤◌, ◌<◌, ◌≡◌, refl, ap, subst, ◌∙◌, Bool, false, Option, none, some,
  List, [], ◌∷◌, arith, update, ok, Bool-cases, inl, inr,
}
use os_study.VirtioDisk.{
  Disk, Desc, Request, num, free_chain, alloc3_desc, with_three, format, submit, finish, Device,
  intr_from,
}
use os_study.VirtioDisk.Owned.{
  Owned, Owned-ap, count, free_count, free_desc_lem, Allocated, alloc_more_lem,
}
use os_study.VirtioDisk.Chains.{
  three, owners, Linked, Driver, Pick, Inv, Pick-owners, Pick-Linked, Linked-keep, free_chain-next,
  free_chain-last,
}

-- A linked chain is freed whole.
free_chain_lem :
    (r : Request) (d : Disk) {others : ℕ → ℕ}
    → Owned d.free (λ k. count k (three r) + others k)
    → Linked d.desc r
    → (d' : Disk) × (free_chain num r.first d ≡ ok d')
      × Owned d'.free others
      × ((k : ℕ) → 0 < others k → d'.desc k ≡ d.desc k)
free_chain_lem r d {others} o l =
    let (d1, e1, o1, desc1, _) =
      free_desc_lem d r.first {owners = λ k. count k (r.second ∷ r.third ∷ []) + others k}
        (Owned-ap (λ k. omega arith) o) in
    let (d2, e2, o2, desc2, _) =
      free_desc_lem d1 r.second {owners = λ k. count k (r.third ∷ []) + others k}
        (Owned-ap (λ k. omega arith) o1) in
    let (d3, e3, o3, desc3, _) =
      free_desc_lem d2 r.third {owners = others} (Owned-ap (λ k. omega arith) o2) in
    let second : d1.desc r.second ≡ d.desc r.second =
      ap (λ f. f r.second) desc1 ∙ ground (arith, o.each r.second) in
    let third : d2.desc r.third ≡ d.desc r.third =
      ap (λ f. f r.third) desc2
      ∙ ground (arith, o1.each r.third)
      ∙ ap (λ f. f r.third) desc1
      ∙ ground (arith, o.each r.third) in
    (
      d3,
      free_chain-next 7 r.first d d1 l.first_flag e1
          ∙ ap (λ i. free_chain 7 i d1) l.first_next
          ∙ free_chain-next 6 r.second d1 d2 (ap (λ (x : Desc). x.flags % 2) second ∙ l.second_flag)
              e2
          ∙ ap (λ i. free_chain 6 i d2) (ap (λ (x : Desc). x.next) second ∙ l.second_next)
          ∙ free_chain-last 5 r.third d2 (ap (λ (x : Desc). x.flags % 2) third ∙ l.third_flag)
          ∙ e3,
      o3,
      λ k h.
          ap (λ f. f k) desc3
          ∙ ground (arith, o2.each k, h)
          ∙ ap (λ f. f k) desc2
          ∙ ground (arith, o1.each k, h)
          ∙ ap (λ f. f k) desc1
          ∙ ground (arith, o.each k, h),
    )

pub finish_chain :
    (r : Request) (d : Disk) {others : ℕ → ℕ}
    → Owned d.free (λ k. count k (three r) + others k)
    → Linked d.desc r
    → d.busy r.buf ≡ false
    → (d' : Disk) × (finish r d ≡ ok d')
      × Owned d'.free others
      × ((k : ℕ) → 0 < others k → d'.desc k ≡ d.desc k)
unfolding finish
finish_chain r d {others} o l done =
    let without : Disk = record d {
      info = update d.info r.first (record { b = 0; status = (d.info r.first).status });
    } in
    let (d', e, o', same) = free_chain_lem r without {others = others} o l in
    (d', rw done e, o', same)

pub finish-Inv :
    {s : Driver} {r : Request} {rs : List Request} {d : Disk}
    → Pick r s.requests rs
    → finish r s.disk ≡ ok d
    → Inv s
    → Inv (record { disk = d; requests = rs })
unfolding finish
finish-Inv {s} {r} {rs} {d} p e v = elim (Bool-cases (s.disk.busy r.buf)) [
  | inl busy ↦ absurd (ground arith)
  | inr done ↦
      let (l, ls) = Pick-Linked p v.linked in
      let o = Owned-ap {n = λ k. count k (three r) + owners rs k} (λ k. Pick-owners k p) v.owned in
      let (d', e', o', same) = finish_chain r s.disk {others = owners rs} o l done in
      let is : d' ≡ d = cc in
      subst (λ x. Inv (record { disk = x; requests = rs })) is
        (record { owned = o'; linked = Linked-keep s.disk.desc d'.desc rs same ls })
]

-- What `submit` leaves, where `others` have the descriptors of other requests: a new chain exactly
-- when three descriptors are free, and else the same descriptors free as before.
abbrev pub Submitted : (ℕ → ℕ) → Disk → Option Request → Disk → Type 0
Submitted others d none d' =
    (free_count d.free < 3) × Owned d'.free others × ((k : ℕ) → 0 < others k → d'.desc k ≡ d.desc k)
Submitted others d (some r) d' =
    (3 ≤ free_count d.free)
    × Owned d'.free (λ k. count k (three r) + others k)
    × ((k : ℕ) → 0 < others k → d'.desc k ≡ d.desc k)
    × Linked d'.desc r

format-Linked :
    (r : Request) (blockno : ℕ) (write : Bool) (d : Disk) (others : ℕ → ℕ)
    → Owned d.free (λ k. count k (three r) + others k)
    → Linked (format r blockno write d).desc r
unfolding format
format-Linked r blockno write d others o = record {
  first_flag = ground (arith, o.each r.first);
  first_next = ground (arith, o.each r.first);
  second_flag = ground (arith, o.each r.second);
  second_next = ground (arith, o.each r.second);
  third_flag = ground arith;
}

format-others :
    (r : Request) (blockno : ℕ) (write : Bool) (d : Disk) (others : ℕ → ℕ) (k : ℕ)
    → Owned d.free (λ k. count k (three r) + others k)
    → 0 < others k
    → (format r blockno write d).desc k ≡ d.desc k
unfolding format
format-others r blockno write d others k o h = ground (arith, o.each k)

with_three_lem :
    (buf blockno : ℕ) (write : Bool) (d d' : Disk) (others : ℕ → ℕ) (is : Option (List ℕ))
    → Allocated others 3 3 d is d'
    → (r : Option Request) × (d2 : Disk) × (with_three buf blockno write (is, d') ≡ ok (r, d2))
      × Submitted others d r d2
unfolding with_three
with_three_lem buf blockno write d d' others none a = (none, d', refl, a)
with_three_lem buf blockno write d d' others (some []) a = absurd (omega (arith, a.1))
with_three_lem buf blockno write d d' others (some (i ∷ [])) a = absurd (omega (arith, a.1))
with_three_lem buf blockno write d d' others (some (i ∷ j ∷ [])) a = absurd (omega (arith, a.1))
with_three_lem buf blockno write d d' others (some (i ∷ j ∷ k ∷ [])) (enough, _, o, same) =
    let r : Request = record { first = i; second = j; third = k; buf = buf } in
    (
      some r,
      format r blockno write d',
      refl,
      (
        enough,
        o,
        (λ n h. format-others r blockno write d' others n o h ∙ same n h),
        format-Linked r blockno write d' others o,
      ),
    )
with_three_lem buf blockno write d d' others (some (i ∷ j ∷ k ∷ l ∷ is)) a =
    absurd (omega (arith, a.1))

pub submit_chain :
    (buf blockno : ℕ) (write : Bool) (d : Disk) (others : ℕ → ℕ)
    → Owned d.free others
    → (r : Option Request) × (d' : Disk) × (submit buf blockno write d ≡ ok (r, d'))
      × Submitted others d r d'
unfolding submit alloc3_desc
submit_chain buf blockno write d others o =
    let (is, d1, e, a) = alloc_more_lem 3 [] d {owners = others} (Owned-ap (λ k. omega arith) o) in
    let (r, d', e', result) = with_three_lem buf blockno write d d1 others is a in
    (r, d', rw e e', result)

pub intr_from-same :
    (fuel : ℕ) (v : Device) (d d' : Disk)
    → intr_from fuel v d ≡ ok d'
    → (d'.desc ≡ d.desc) × (d'.free ≡ d.free)
unfolding intr_from
intr_from-same zero v d d' e = absurd (cc)
intr_from-same (suc fuel) v d d' e = ground (
  arith,
  intr_from-same fuel v
      (record d {
        busy = update d.busy (d.info (v.ring (d.used_idx % num))).b false;
        used_idx = (d.used_idx + 1) % 2 ^ 16;
      })
      d',
)
