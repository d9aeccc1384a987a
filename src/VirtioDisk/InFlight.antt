-- ===== src/VirtioDisk/InFlight.antt =====
-- kernel/virtio_disk.c: the driver after any requests, interrupts and completions.
use os_study.Prelude.{
  ℕ, ◌+◌, ◌^◌, ◌≤◌, ◌<◌, ◌≡◌, refl, sym, subst, Bool, true, false, Option, none, some, List, arith,
  ◌==◌, if◌then◌else◌, ok, All, ◌||◌, ltb,
}
use os_study.VirtioDisk.{Disk, Request, num, submit, finish, virtio_disk_intr}
use os_study.VirtioDisk.Owned.{Owned, Owned-ap, one, count, free_count}
use os_study.VirtioDisk.Chains.{
  three, owners, Linked, Driver, Pick, Step, submits, sleeps, interrupt, finishes, Reach, start,
  next, Inv, Pick-owners, Pick-Linked, Linked-keep,
}
use os_study.VirtioDisk.Requests.{Submitted, finish_chain, finish-Inv, submit_chain, intr_from-same}

submit-Inv :
    {s : Driver} {d : Disk} (buf blockno : ℕ) (write : Bool) (r : Option Request)
    → submit buf blockno write s.disk ≡ ok (r, d)
    → Inv s
    → Submitted (owners s.requests) s.disk r d
submit-Inv {s} {d} buf blockno write r e v =
    let (r', d', e', result) = submit_chain buf blockno write s.disk (owners s.requests) v.owned in
    let same : (r' ≡ r) × (d' ≡ d) = ground arith in
    subst (λ x. Submitted (owners s.requests) s.disk r x) same.1
      (subst (λ x. Submitted (owners s.requests) s.disk x d') same.0 result)

Step-Inv : {s t : Driver} → Step s t → Inv s → Inv t
Step-Inv {s} (submits {r} {d} buf blockno write e) v =
    let (_, o, same, l) = submit-Inv buf blockno write (some r) e v in
    record { owned = o; linked = (l, Linked-keep s.disk.desc d.desc s.requests same v.linked) }
Step-Inv {s} (sleeps {d} buf blockno write e) v =
    let (_, o, same) = submit-Inv buf blockno write none e v in
    record { owned = o; linked = Linked-keep s.disk.desc d.desc s.requests same v.linked }
Step-Inv {s} (interrupt {d} device e) v =
    let (descs, frees) = intr_from-same (2 ^ 16) device s.disk d (unfold virtio_disk_intr in e) in
    record {
      owned = subst (λ f. Owned f (owners s.requests)) (sym frees) v.owned;
      linked = subst (λ f. All (Linked f) s.requests) (sym descs) v.linked;
    }
Step-Inv (finishes p e) v = finish-Inv p e v

Reach-Inv : {s : Driver} → Reach s → Inv s
Reach-Inv (start h) = record { owned = record { each = λ k. ground (arith, h k) }; linked = tt }
Reach-Inv (next r st) = Step-Inv st (Reach-Inv r)

-- Whatever requests, interrupts and completions came before, each of the eight descriptors is
-- free or belongs to exactly one request.
pub one_owner :
    {s : Driver} (k : ℕ) → Reach s → k < num → one (s.disk.free k) + owners s.requests k ≡ 1
one_owner k r h = let v = Reach-Inv r in ground (arith, v.owned.each k)

abbrev pub has : Request → ℕ → Bool
has r k = (r.first == k) || (r.second == k) || (r.third == k)

-- Whatever came before, a request whose buffer the device is done with finishes: freeing its chain
-- does not panic and comes to an end, and it frees the three descriptors of the request and no other.
pub finish_lem :
    {s : Driver} {r : Request} {rs : List Request}
    → Reach s
    → Pick r s.requests rs
    → s.disk.busy r.buf ≡ false
    → (d : Disk) × (finish r s.disk ≡ ok d)
      × ((k : ℕ) → k < num → d.free k ≡ (if has r k then true else s.disk.free k))
finish_lem {s} {r} {rs} reached p done =
    let v = Reach-Inv reached in
    let o = Owned-ap {n = λ k. count k (three r) + owners rs k} (λ k. Pick-owners k p) v.owned in
    let (l, _) = Pick-Linked p v.linked in
    let (d, e, o', _) = finish_chain r s.disk {others = owners rs} o l done in
    (d, e, λ k h. freed k (d.free k) (s.disk.free k) (owners rs k) h (o.each k) (o'.each k))
  where
    freed :
        (k : ℕ) (new old : Bool) (n : ℕ)
        → k < num
        → (if ltb k num then one old else 0) + (count k (three r) + n) ≡ one (ltb k num)
        → (if ltb k num then one new else 0) + n ≡ one (ltb k num)
        → new ≡ (if has r k then true else old)
    freed k true true n h a b = ground arith
    freed k true false n h a b = ground arith
    freed k false true n h a b = ground arith
    freed k false false n h a b = ground arith

-- What a request to the disk does to the descriptors, by what `submit` gives.
abbrev pub Outcomes : Disk → Option Request → Disk → Type 0
Outcomes d none d' = (free_count d.free < 3) × ((k : ℕ) → k < num → d'.free k ≡ d.free k)
Outcomes d (some r) d' =
    (3 ≤ free_count d.free)
    × ((k : ℕ) → has r k ≡ true → (k < num) × (d.free k ≡ true))
    × ((k : ℕ) → k < num → d'.free k ≡ (if has r k then false else d.free k))

-- Whatever came before, `submit` does not panic. With three descriptors free it takes three that
-- are free, and no other; with fewer it leaves the same descriptors free.
pub submit_lem :
    {s : Driver} (buf blockno : ℕ) (write : Bool)
    → Reach s
    → (r : Option Request) × (d : Disk) × (submit buf blockno write s.disk ≡ ok (r, d))
      × Outcomes s.disk r d
submit_lem {s} buf blockno write reached =
    let v = Reach-Inv reached in
    let (r, d, e, result) = submit_chain buf blockno write s.disk (owners s.requests) v.owned in
    (r, d, e, outcomes r d v.owned result)
  where
    outcomes :
        (r : Option Request) (d : Disk)
        → Owned s.disk.free (owners s.requests)
        → Submitted (owners s.requests) s.disk r d
        → Outcomes s.disk r d
    outcomes none d o (few, o', _) = (
      few,
      λ k h. same k (d.free k) (s.disk.free k) (owners s.requests k) h (o.each k) (o'.each k),
    )
      where
        same :
            (k : ℕ) (new old : Bool) (n : ℕ)
            → k < num
            → (if ltb k num then one old else 0) + n ≡ one (ltb k num)
            → (if ltb k num then one new else 0) + n ≡ one (ltb k num)
            → new ≡ old
        same k true true n h a b = refl
        same k true false n h a b = ground arith
        same k false true n h a b = ground arith
        same k false false n h a b = refl
    outcomes (some r) d o (enough, o', _, _) = (
      enough,
      (λ k h. ground (arith, o.each k, o'.each k)),
      (λ k h. ground (arith, o.each k, o'.each k)),
    )
