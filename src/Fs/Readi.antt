-- ===== src/Fs/Readi.antt =====
-- kernel/fs.c: what `readi` reads.
use os_study.Prelude.{
  ℕ, zero, suc, ◌+◌, ◌-◌, ◌/◌, ◌%◌, ◌≤◌, ◌<◌, ◌≡◌, ◌≢◌, refl, ap, ap₂, ◌∙◌, false, Bool-cases, inl,
  inr, arith, ltb, if◌then◌else◌, ne→==, ok, pos,
}
use os_study.StringOps.Move.{within}
use os_study.StringOps.Within.{offset, within_rest, within_first, rest_offset}
use os_study.Fs.{Fs, bmap}
use os_study.Fs.Content.{piece, wraps, read_from, readi}
use os_study.Fs.Names.{to_kernel}
use os_study.Fs.Balloc.{MapInUse}
use os_study.Fs.Bmap.{BootInUse, AddrInUse, block_at}
use os_study.Fs.Indirect.{bmap_lem}

-- Byte `q` of the content of inode `i`
abbrev pub content : Fs → ℕ → ℕ → ℕ
content f i q = f.bytes (block_at f i (q / 1024)) (q % 1024)

-- What is in use on the disk, and which bytes of the inode have a block
pub record Readable (f : Fs) (i off n : ℕ) : Type 0 where
  pub map : MapInUse f
  pub boot : BootInUse f
  pub addrs : (m : ℕ) → AddrInUse f i m
  pub some_size : 0 < f.size
  pub below : off + n ≤ 274432
  pub there : (q : ℕ) → off ≤ q → q < off + n → block_at f i (q / 1024) ≢ 0

found_block :
    (f : Fs) (i off n : ℕ)
    → Readable f i off (suc n)
    → bmap f i (off / 1024) ≡ ok (block_at f i (off / 1024), f)
found_block f i off n r =
    let b = bmap_lem f i (off / 1024) r.map r.boot r.addrs r.some_size (omega (arith, r.below)) in
    let t = r.there off (omega arith) (omega arith) in
    b.result ∙ ap₂ (λ (a : ℕ) (g : Fs). ok (a, g)) (b.old t) (b.keeps t)

-- The kernel memory after `n` bytes from `off` on went to `dst`
abbrev pub got : Fs → ℕ → (ℕ → ℕ) → ℕ → ℕ → ℕ → ℕ → ℕ
got f i t dst off n q = if within dst n q then content f i (off + (q - dst)) else t q

first_piece :
    (f : Fs) (i : ℕ) (t : ℕ → ℕ) (dst off n q : ℕ)
    → (if within dst (piece off n) q
        then f.bytes (block_at f i (off / 1024)) (off % 1024 + (q - dst))
        else t q)
      ≡ got f i t dst off (piece off n) q
first_piece f i t dst off n q = elim (Bool-cases (within dst (piece off n) q)) [
  | inl hit ↦ rw hit (
      let lt = offset dst (piece off n) q hit in
      let eb : off / 1024 ≡ (off + (q - dst)) / 1024 = omega (arith, lt) in
      let ek : off % 1024 + (q - dst) ≡ (off + (q - dst)) % 1024 = omega (arith, lt) in
      ap₂ (λ (b k : ℕ). f.bytes (block_at f i b) k) eb ek)
  | inr miss ↦ rw miss refl
]

join_pieces :
    (f : Fs) (i : ℕ) (t t1 : ℕ → ℕ) (dst off n q : ℕ)
    → ((q' : ℕ) → t1 q' ≡ got f i t dst off (piece off n) q')
    → got f i t1 (dst + piece off n) (off + piece off n) (n - piece off n) q ≡ got f i t dst off n q
join_pieces f i t t1 dst off n q e =
    let m = piece off n in
    let le : m ≤ n = omega arith in
    elim (Bool-cases (within (dst + m) (n - m) q)) [
      | inl hit ↦
          (let (lt, eq, lt2) = rest_offset dst m n q le hit in
            let at : off + m + (q - (dst + m)) ≡ off + (q - dst) = omega (arith, eq) in
            rw (hit, within_rest dst m n q le hit) (ap (content f i) at))
      | inr miss ↦ rw miss (
          e q
          ∙ ap (λ w. if w then content f i (off + (q - dst)) else t q)
              (within_first dst m n q le miss))
    ]

-- What is left after the first piece
Readable-rest :
    (f : Fs) (i off n : ℕ) → Readable f i off n → Readable f i (off + piece off n) (n - piece off n)
Readable-rest f i off n r = record {
  map = r.map;
  boot = r.boot;
  addrs = r.addrs;
  some_size = r.some_size;
  below = omega (arith, r.below);
  there = λ q lo hi. r.there q (omega (arith, lo)) (omega (arith, hi));
}

read_from_lem :
    (fuel : ℕ) (f : Fs) (i : ℕ) (t : ℕ → ℕ) (dst off tot n : ℕ)
    → n ≤ fuel
    → Readable f i off n
    → (t1 : ℕ → ℕ) × (read_from to_kernel fuel f i t dst off tot n ≡ ok (pos (tot + n), t1, f))
      × ((q : ℕ) → t1 q ≡ got f i t dst off n q)
unfolding read_from
read_from_lem zero f i t dst off tot zero le r =
    (t, ap (λ (x : ℕ). ok (pos x, t, f)) (omega arith), λ q. ground arith)
read_from_lem zero f i t dst off tot (suc n) le r = absurd (omega (arith, le))
read_from_lem (suc fuel) f i t dst off tot zero le r =
    (t, ap (λ (x : ℕ). ok (pos x, t, f)) (omega arith), λ q. ground arith)
read_from_lem (suc fuel) f i t dst off tot (suc n) le r =
    let m = piece off (suc n) in
    let addr = block_at f i (off / 1024) in
    let t1 : ℕ → ℕ = λ q. if within dst m q then f.bytes addr (off % 1024 + (q - dst)) else t q in
    let (t2, e, g) =
      read_from_lem fuel f i t1 (dst + m) (off + m) (tot + m) (suc n - m) (omega (arith, le))
        (Readable-rest f i off (suc n) r) in
    let total : tot + m + (suc n - m) ≡ tot + suc n = omega arith in
    (
      t2,
      rw
          (
            ne→== (suc n) 0 (omega arith),
            found_block f i off n r,
            ne→== addr 0 (r.there off (omega arith) (omega arith)),
          )
          (e ∙ ap (λ (x : ℕ). ok (pos x, t2, f)) total),
      λ q. g q ∙ join_pieces f i t t1 dst off (suc n) q (first_piece f i t dst off (suc n)),
    )

no_wrap : (off n : ℕ) → off + n ≤ 274432 → wraps off n ≡ false
no_wrap off n h = let e : (off + n) % 4294967296 ≡ off + n = omega (arith, h) in ground (arith, e)

-- For an address in the kernel (`user_dst` 0), within the size of an inode and the largest file,
-- where the bytes there have blocks, and where the disk's free map, block 0 and the blocks of the
-- inode are in use, `readi` gives all `n` bytes: it puts the inode's content from `off` on at `dst`,
-- across blocks, changes no other byte and nothing on the disk.
pub readi_lem :
    (f : Fs) (i : ℕ) (t : ℕ → ℕ) (dst off n : ℕ)
    → Readable f i off n
    → off + n ≤ (f.inode i).info.size
    → (t1 : ℕ → ℕ) × (readi to_kernel f i t dst off n ≡ ok (pos n, t1, f))
      × ((q : ℕ) → t1 q ≡ got f i t dst off n q)
unfolding readi
readi_lem f i t dst off n r h =
    let past : ltb (f.inode i).info.size (off + n) ≡ false = ground (arith, h) in
    let inside : ltb (f.inode i).info.size off ≡ false = ground (arith, h) in
    let (t1, e, g) = read_from_lem n f i t dst off 0 n (omega arith) r in
    rw (inside, no_wrap off n r.below, past)
      (t1, e ∙ ap (λ (x : ℕ). ok (pos x, t1, f)) (omega arith), g)
