-- ===== src/Tests/DiskRequests.antt =====
-- Runs of kernel/virtio_disk.c.
use os_study.Prelude.{
  ℕ, ◌<◌, ◌≡◌, refl, true, false, Option, some, [], ◌∷◌, if◌then◌else◌, Outcome, ok, ◌>>=◌, update,
}
use os_study.VirtioDisk.{
  Disk, Request, num, empty_desc, alloc_desc, find_free, alloc_more, alloc3_desc, with_three,
  format, submit, finish, free_chain, free_desc, intr_from, virtio_disk_intr, Device,
}
use os_study.VirtioDisk.Owned.{free_count}
use os_study.VirtioDisk.Chains.{Driver, Reach, start, next, submits, interrupt, here}
use os_study.VirtioDisk.InFlight.{has, Outcomes, submit_lem, finish_lem}

abbrev idle : Disk
idle = record {
  desc = λ k. empty_desc;
  free = λ k. true;
  avail = λ k. 0;
  avail_idx = 0;
  used_idx = 0;
  info = λ k. record { b = 0; status = 0 };
  ops = λ k. record { type = 0; sector = 0 };
  busy = λ k. false;
}

abbrev read_seven : Request
read_seven = record { first = 0; second = 1; third = 2; buf = 7 }

abbrev asked : Disk
asked =
    format read_seven 5 false
      (record idle { free = update (update (update idle.free 0 false) 1 false) 2 false })

idle_asked : submit 7 5 false idle ≡ ok (some read_seven, asked)
unfolding submit alloc3_desc alloc_more alloc_desc find_free with_three format
idle_asked = refl

abbrev used_zero : Device
used_zero = record { idx = 1; ring = λ k. 0; status = λ k. 0 }

-- A request that the device does, and all descriptors are free again.
abbrev free_after : Outcome Disk → ℕ
free_after (ok d) = free_count d.free
free_after other = 0

asked_done : free_after (virtio_disk_intr used_zero asked >>= finish read_seven) ≡ num
unfolding virtio_disk_intr intr_from finish free_chain free_desc format free_count
asked_done = refl

abbrev driver : Driver
driver = record { disk = asked; requests = read_seven ∷ [] }

driver-Reach : Reach driver
driver-Reach = next (start (λ k. refl)) (submits 7 5 false idle_asked)

submit_lem_example :
    (r : Option Request) × (d : Disk) × (submit 8 6 true asked ≡ ok (r, d)) × Outcomes asked r d
submit_lem_example = submit_lem 8 6 true driver-Reach

-- The device has read the block, and the interrupt came.
abbrev completed : Disk
completed = record asked { busy = update asked.busy 7 false; used_idx = 1 }

asked-completed : virtio_disk_intr used_zero asked ≡ ok completed
unfolding virtio_disk_intr intr_from format
asked-completed = refl

finish_lem_example :
    (d : Disk) × (finish read_seven completed ≡ ok d)
    × ((k : ℕ) → k < num → d.free k ≡ (if has read_seven k then true else completed.free k))
finish_lem_example = finish_lem (next driver-Reach (interrupt used_zero asked-completed)) here refl
