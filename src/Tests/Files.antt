-- ===== src/Tests/Files.antt =====
-- Runs of kernel/fs.c.
use os_study.Prelude.{
  ℕ, zero, suc, ◌+◌, ◌<◌, ◌≡◌, ◌⊎◌, inl, inr, ◌>>=◌, refl, sym, ap, ◌∙◌, true, false, true≢false,
  none, some, List, [], ◌∷◌, arith, pos, ok, panic, blocked, Outcome, if◌then◌else◌, ltb, ◌==◌,
}
use os_study.Fs.{Fs, Dinode, balloc, bmap, bfree}
use os_study.Fs.Inodes.{iget, ilock, iunlock, is_for}
use os_study.Fs.Names.{to_kernel, skipelem, dirlink, namex, char_at}
use os_study.Fs.Blocks.{in_use}
use os_study.Fs.Balloc.{MapInUse, Taken, Exhausted, balloc_lem, bfree-balloc}
use os_study.Fs.Slots.{Unique, NoSlot, iget-Unique}
use os_study.Fs.Content.{readi}
use os_study.Fs.Bmap.{AddrInUse, Numbered}
use os_study.Fs.Readi.{Readable, got, readi_lem}
use os_study.Fs.Indirect.{bmap_lem}
use os_study.Fs.Paths.{Skipped, elements, skipelem_lem}

abbrev no_dinode : Dinode
no_dinode = record { kind = 0; major = 0; minor = 0; nlink = 0; size = 0; addrs = λ n. 0 }

-- A disk of 30 blocks: the free map is block 20, and blocks 0 to 23 are in use. Inode 1 is the root
-- directory, in slot 0 with one reference.
abbrev root_dinode : Dinode
root_dinode = record no_dinode { kind = 1; nlink = 1 }

abbrev small : Fs
small = record {
  size = 30;
  ninodes = 10;
  inodestart = 4;
  bmapstart = 20;
  bytes = λ b i. if b == 20 then (if ltb i 3 then 255 else 0) else 9;
  words = λ b i. 0;
  dinode = λ i. if i == 1 then root_dinode else no_dinode;
  logged = [];
  inode = λ i. record {
    dev = 1;
    inum = 1;
    ref = if i == 0 then 1 else 0;
    locked = false;
    valid = false;
    info = no_dinode;
  };
}

small-MapInUse : MapInUse small
small-MapInUse b c inside free lt e =
    let at : b ≡ 20 = omega (arith, lt, e) in true≢false (ap (in_use small) (sym at) ∙ free)

balloc_lem_example : Taken small (balloc small) ⊎ Exhausted small (balloc small)
balloc_lem_example = balloc_lem small small-MapInUse

balloc_first : (balloc small).0 ≡ 24
unfolding balloc
balloc_first = refl

iget-Unique_example :
    NoSlot small 1 2 (iget small 1 2)
    ⊎ ((i : ℕ) × (f1 : Fs) × (iget small 1 2 ≡ ok (i, f1))
        × (is_for (f1.inode i) 1 2 ≡ true)
        × ((f1.inode i).ref ≡ (small.inode i).ref + 1)
        × Unique f1)
iget-Unique_example = iget-Unique small 1 2 small-Unique
  where
    small-Unique : Unique small
    small-Unique dev inum zero zero la lb ha hb = refl
    small-Unique dev inum zero (suc j) la lb ha hb = absurd (ground (arith, hb))
    small-Unique dev inum (suc i) j la lb ha hb = absurd (ground (arith, ha))

-- "/a//bb"
abbrev path : List ℕ
path = 47 ∷ 97 ∷ 47 ∷ 47 ∷ 98 ∷ 98 ∷ []

skipelem_lem_example : ((skipelem path ≡ none) × (elements path ≡ [])) ⊎ Skipped path
skipelem_lem_example = skipelem_lem path

skipelem_first : skipelem path ≡ some (97 ∷ [], 98 ∷ 98 ∷ [])
unfolding skipelem
skipelem_first = refl

-- The name "a" is linked to inode 3 in the root directory, and "/a" is looked up.
unfoldable link_and_find : Outcome ℕ
unfolding ilock dirlink iunlock namex
link_and_find = do
  f1 ← ilock small 0
  (done, f2) ← dirlink f1 0 (char_at (97 ∷ [])) 3
  f3 ← iunlock f2 0
  (found, f4) ← namex f3 0 false (47 ∷ 97 ∷ [])
  elim found [ none ↦ ok 0 | some (ip, name) ↦ ok (f4.inode ip).inum ]

link_and_find_result : link_and_find ≡ ok 3
unfolding link_and_find
link_and_find_result = refl

abbrev taken_block : Taken small (balloc small)
taken_block = elim (balloc_lem small small-MapInUse) [
  | inl t ↦ t
  | inr (e, all) ↦ absurd (true≢false (sym (all 24 (omega arith))))
]

bfree-balloc_example :
    (f2 : Fs) × (bfree (balloc small).1 (balloc small).0 ≡ ok f2)
    × ((c : ℕ) → c < small.size → in_use f2 c ≡ in_use small c)
bfree-balloc_example = bfree-balloc small small-MapInUse λ e.
    let first : taken_block.b ≡ 0 = sym (ap (λ o. o.0) taken_block.result) ∙ e in
    true≢false (sym (ap (in_use small) first) ∙ taken_block.was_free)

-- Block 12 of inode 0 needs an indirect block and a block: blocks 24 and 25.
bmap_lem_example : Numbered small 0 12 (bmap small 0 12)
bmap_lem_example =
    bmap_lem small 0 12 small-MapInUse refl (λ n nz. absurd (nz refl)) (omega arith) (omega arith)

abbrev block_found : Outcome (ℕ × Fs) → ℕ
block_found (ok (b, f)) = b
block_found (panic s) = 0
block_found blocked = 0

bmap_indirect : block_found (bmap small 0 12) ≡ 25
unfolding bmap
bmap_indirect = refl

-- Inode 0 has two blocks.
abbrev two_blocks : Fs
two_blocks = record small {
  inode = λ i. record (small.inode i) {
    info = record no_dinode {
      kind = 2;
      size = 2048;
      addrs = λ n. if n == 0 then 5 else if n == 1 then 6 else 0;
    };
  };
}

two_blocks-AddrInUse : (n : ℕ) → AddrInUse two_blocks 0 n
two_blocks-AddrInUse zero nz = refl
two_blocks-AddrInUse (suc zero) nz = refl
two_blocks-AddrInUse (suc (suc n)) nz = absurd (nz (ground arith))

across_blocks : Readable two_blocks 0 1020 10
across_blocks = record {
  map = small-MapInUse;
  boot = refl;
  addrs = two_blocks-AddrInUse;
  some_size = omega arith;
  below = omega arith;
  there = λ q lo hi. ground (arith, lo, hi);
}

readi_lem_example :
    (t : ℕ → ℕ) × (readi to_kernel two_blocks 0 (λ q. 0) 500 1020 10 ≡ ok (pos 10, t, two_blocks))
    × ((q : ℕ) → t q ≡ got two_blocks 0 (λ q'. 0) 500 1020 10 q)
readi_lem_example = readi_lem two_blocks 0 (λ q. 0) 500 1020 10 across_blocks (omega arith)
