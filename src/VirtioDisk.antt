-- ===== src/VirtioDisk.antt =====
-- kernel/virtio_disk.c: descriptors and requests of the driver. The device is given by what it has
-- written, the used ring and the status bytes, when an interrupt comes. `virtio_disk_rw` is cut where
-- it sleeps: `submit` up to the wait for the device, `finish` from there on. The sections are under
-- `vdisk_lock`; the wakeups of `free_desc` and the device's registers are left out.
pub mod Owned
pub mod Chains
pub mod Requests
pub mod InFlight
use os_study.Prelude.{
  ℕ, zero, suc, ◌+◌, ◌*◌, ◌%◌, ◌^◌, ◌≡◌, Bool, true, false, Option, none, some, List, [], ◌∷◌, ◌++◌,
  ◌==◌, leb, if◌then◌else◌, update, Outcome, ok, panic, blocked, ◌>>=◌,
}

-- `NUM`
abbrev pub num : ℕ
num = 8

-- What a descriptor points to: `ops[i]`, the data of the buffer `b`, or `info[i].status`.
pub data Addr : Type 0 where
  null : Addr
  op_at : ℕ → Addr
  data_of : ℕ → Addr
  status_at : ℕ → Addr

-- In `flags`, 1 is `VRING_DESC_F_NEXT` and 2 is `VRING_DESC_F_WRITE`.
pub record Desc : Type 0 where
  pub addr : Addr
  pub len : ℕ
  pub flags : ℕ
  pub next : ℕ

pub record Op : Type 0 where
  pub type : ℕ
  pub sector : ℕ

pub record Info : Type 0 where
  pub b : ℕ
  pub status : ℕ

-- `busy b` is `b->disk` of the buffer `b`; `avail` and `avail_idx` are the available ring.
pub record Disk : Type 0 where
  pub desc : ℕ → Desc
  pub free : ℕ → Bool
  pub avail : ℕ → ℕ
  pub avail_idx : ℕ
  pub used_idx : ℕ
  pub info : ℕ → Info
  pub ops : ℕ → Op
  pub busy : ℕ → Bool

unfoldable pub find_free : ℕ → ℕ → (ℕ → Bool) → Option ℕ
find_free zero i free = none
find_free (suc n) i free = let rest = find_free n (i + 1) free in if free i then some i else rest

unfoldable pub alloc_desc : Disk → Option (ℕ × Disk)
alloc_desc d = elim (find_free num 0 d.free) [
  | none ↦ none
  | some i ↦ some (i, record d { free = update d.free i false })
]

abbrev pub empty_desc : Desc
empty_desc = record { addr = null; len = 0; flags = 0; next = 0 }

unfoldable pub free_desc : ℕ → Disk → Outcome Disk
free_desc i d =
    if leb num i
    then panic "free_desc 1"
    else if d.free i
    then panic "free_desc 2"
    else ok (record d { desc = update d.desc i empty_desc; free = update d.free i true })

-- `blocked` when the fuel runs out: a chain that comes back to itself has no end.
unfoldable pub free_chain : ℕ → ℕ → Disk → Outcome Disk
free_chain zero i d = blocked
free_chain (suc fuel) i d =
    let rest = free_desc i d >>= λ d'. free_chain fuel (d.desc i).next d' in
    if (d.desc i).flags % 2 == 1 then rest else free_desc i d

unfoldable pub free_all : List ℕ → Disk → Outcome Disk
free_all [] d = ok d
free_all (i ∷ idx) d = free_desc i d >>= λ d'. free_all idx d'

-- The loop of `alloc3_desc` with `n` rounds left, where `idx` has been taken.
unfoldable pub alloc_more : ℕ → List ℕ → Disk → Outcome (Option (List ℕ) × Disk)
alloc_more zero idx d = ok (some idx, d)
alloc_more (suc n) idx d = elim (alloc_desc d) [
  | none ↦ free_all idx d >>= λ d'. ok (none, d')
  | some (i, d') ↦ alloc_more n (idx ++ i ∷ []) d'
]

-- `none` for -1.
unfoldable pub alloc3_desc : Disk → Outcome (Option (List ℕ) × Disk)
unfolding alloc_more
alloc3_desc d = alloc_more 3 [] d

-- The descriptors of a request, and its buffer.
pub record Request : Type 0 where
  pub first : ℕ
  pub second : ℕ
  pub third : ℕ
  pub buf : ℕ

-- The three descriptors, the command and the entry in the available ring, for `virtio_disk_rw` of
-- the buffer `r.buf` that holds `blockno`. A block has two sectors.
unfoldable pub format : Request → ℕ → Bool → Disk → Disk
format r blockno write d = record d {
  ops =
      update d.ops r.first
        (record { type = if write then 1 else 0; sector = blockno * 2 % 2 ^ 32 });
  desc =
      update
        (update
          (update d.desc r.first
            (record { addr = op_at r.first; len = 16; flags = 1; next = r.second }))
          r.second
          (record {
            addr = data_of r.buf;
            len = 1024;
            flags = if write then 1 else 3;
            next = r.third;
          }))
        r.third (record { addr = status_at r.first; len = 1; flags = 2; next = 0 });
  info = update d.info r.first (record { b = r.buf; status = 0xff });
  busy = update d.busy r.buf true;
  avail = update d.avail (d.avail_idx % num) r.first;
  avail_idx = (d.avail_idx + 1) % 2 ^ 16;
}

-- What `virtio_disk_rw` does with the descriptors that `alloc3_desc` gives.
unfoldable pub with_three : ℕ → ℕ → Bool → Option (List ℕ) × Disk → Outcome (Option Request × Disk)
unfolding format
with_three buf blockno write (some (i ∷ j ∷ k ∷ []), d) =
    let r : Request = record { first = i; second = j; third = k; buf = buf } in
    ok (some r, format r blockno write d)
with_three buf blockno write (other, d) = ok (none, d)

-- `virtio_disk_rw` up to its wait for the device; `none` where it sleeps for descriptors.
unfoldable pub submit : ℕ → ℕ → Bool → Disk → Outcome (Option Request × Disk)
unfolding alloc3_desc with_three
submit buf blockno write d = alloc3_desc d >>= with_three buf blockno write

-- The rest of `virtio_disk_rw`, which waits while `b->disk` is set.
unfoldable pub finish : Request → Disk → Outcome Disk
unfolding free_chain
finish r d =
    if d.busy r.buf
    then blocked
    else free_chain num r.first (record d {
      info = update d.info r.first (record { b = 0; status = (d.info r.first).status });
    })

-- What the device has written: the used ring, and the status bytes.
pub record Device : Type 0 where
  pub idx : ℕ
  pub ring : ℕ → ℕ
  pub status : ℕ → ℕ

-- The rounds of `virtio_disk_intr`: each entry's buffer is done.
unfoldable pub intr_from : ℕ → Device → Disk → Outcome Disk
intr_from zero v d = blocked
intr_from (suc fuel) v d =
    let id = v.ring (d.used_idx % num) in
    let rest = intr_from fuel v (record d {
      busy = update d.busy (d.info id).b false;
      used_idx = (d.used_idx + 1) % 2 ^ 16;
    }) in
    if d.used_idx == v.idx
    then ok d
    else if v.status id == 0
    then rest
    else panic "virtio_disk_intr status"

unfoldable pub virtio_disk_intr : Device → Disk → Outcome Disk
unfolding intr_from
virtio_disk_intr v d = intr_from (2 ^ 16) v d
