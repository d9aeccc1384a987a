-- ===== src/Tests/Buffers.antt =====
-- kernel/bio.c on a ring of two buffers.
use os_study.Prelude.{◌≡◌, refl, [], ◌∷◌, arith, if◌then◌else◌, ◌==◌, true, ok}
use os_study.Bio.{Bcache, binit_from, bget, brelse, caches, recycle, insert_front}
use os_study.Bio.Ring.{Seg, Distinct, IsRing}
use os_study.Bio.Release.{stacked, binit_from-IsRing, brelse_lem}
use os_study.Bio.Lookup.{find, backwards, chosen, bget_lem}

-- Buffer 1 is in use for block 40, buffer 2 is free.
abbrev blank : Bcache
blank = record {
  buf = λ b. record { valid = true; dev = 1; blockno = 40; refcnt = if b == 1 then 1 else 0 };
  next = λ b. 0;
  prev = λ b. 0;
}

blank-IsRing : IsRing blank []
blank-IsRing = record {
  links = unfold Seg in (refl, refl);
  buffers = tt;
  distinct = unfold Distinct in tt;
}

abbrev pair : Bcache
pair = binit_from 2 1 blank

pair-IsRing : IsRing pair (2 ∷ 1 ∷ [])
unfolding stacked
pair-IsRing = binit_from-IsRing 2 1 blank [] (omega arith) tt blank-IsRing

brelse_lem_example : IsRing (brelse pair 1) (1 ∷ 2 ∷ [])
unfolding binit_from insert_front
brelse_lem_example = brelse_lem pair 1 (2 ∷ []) [] pair-IsRing (omega arith) (omega arith)

-- Block 7 is not cached.
bget_lem_example :
    bget 3 pair 1 7
    ≡ chosen pair 1 7
        (find (caches pair 1 7) (2 ∷ 1 ∷ []))
        (find (λ b. (pair.buf b).refcnt == 0) (backwards (2 ∷ 1 ∷ [])))
bget_lem_example = bget_lem 3 pair (2 ∷ 1 ∷ []) 1 7 pair-IsRing (omega arith)

bget_recycles : bget 3 pair 1 7 ≡ ok (2, recycle pair 1 7 2)
unfolding bget binit_from insert_front
bget_recycles = refl
