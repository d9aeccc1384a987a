-- ===== src/File/Chunks.antt =====
-- kernel/file.c: the chunks that `filewrite` cuts a write into.
use os_study.Prelude.{
  ◌%◌, ◌^◌, ◌++◌, subst, ==→eq, pos_part, ℕ, zero, suc, ◌+◌, ◌-◌, ◌≤◌, ◌<◌, ◌≡◌, refl, ap, ℤ, pos,
  negsuc, Bool, ◌&&◌, true, false, some, List, [], ◌∷◌, arith, if◌then◌else◌, ltb, All, ok, inl,
  inr, Bool-cases,
}
use os_study.File.{
  Event, begins_op, locks_inode, writes, unlocks_inode, ends_op, transaction, then_chunk, File,
  fd_inode, Chunk, Written, Calls, max_chunk, is_count, next_chunk, then_all, write_chunks,
  filewrite, moved,
}

-- Every chunk was written whole.
unfoldable pub all_whole : (Chunk → ℤ) → List Chunk → Bool
all_whole writei [] = true
all_whole writei (c ∷ cs) = is_count (writei c) c.count && all_whole writei cs

-- Every chunk but the last was written whole.
unfoldable pub whole_before : (Chunk → ℤ) → List Chunk → Bool
whole_before writei [] = true
whole_before writei (c ∷ []) = true
whole_before writei (c ∷ d ∷ cs) = is_count (writei c) c.count && whole_before writei (d ∷ cs)

-- The chunks lie one behind the other, from address `a` to address `b`, and in the file from the
-- offset `o` on.
unfoldable pub Contiguous : ℕ → ℕ → ℕ → List Chunk → Type 0
Contiguous a b o [] = a ≡ b
Contiguous a b o (c ∷ cs) =
    (c.addr ≡ a) × (c.off ≡ o) × Contiguous (a + c.count) b ((o + c.count) % 2 ^ 32) cs

-- The file's offset after the chunks: what `writei` wrote of each, if it is positive, is added.
unfoldable pub off_after : (Chunk → ℤ) → ℕ → List Chunk → ℕ
off_after writei o [] = o
off_after writei o (c ∷ cs) = off_after writei ((o + pos_part (writei c)) % 2 ^ 32) cs

-- Each chunk has its own transaction, in which the inode is locked.
unfoldable pub events_of : List Chunk → List Event
events_of [] = []
events_of (c ∷ cs) = begins_op ∷ locks_inode ∷ writes c ∷ unlocks_inode ∷ ends_op ∷ events_of cs

-- What the loop has done, up to the address `stop`.
pub record Done (writei : Chunk → ℤ) (addr off i n : ℕ) (w : Written) : Type 0 where
  pub stop : ℕ
  pub small : All (λ c. c.count ≤ max_chunk) w.chunks
  pub contiguous : Contiguous (addr + i) (addr + stop) off w.chunks
  pub first_short : whole_before writei w.chunks ≡ true
  pub offset : w.off ≡ off_after writei off w.chunks
  pub transactions : w.events ≡ events_of w.chunks
  pub returned : w.ret ≡ (if all_whole writei w.chunks then pos n else negsuc 0)
  pub whole : (if all_whole writei w.chunks then stop else n) ≡ n

count-moved : (off m : ℕ) (r : ℤ) → is_count r m ≡ true → moved off r ≡ (off + m) % 2 ^ 32
count-moved off m (pos k) e = ap (λ x. (off + x) % 2 ^ 32) (==→eq k m e)
count-moved off m (negsuc k) e = absurd (cc)

whole_before-cons :
    (writei : Chunk → ℤ) (c : Chunk) (cs : List Chunk)
    → is_count (writei c) c.count ≡ true
    → whole_before writei cs ≡ true
    → whole_before writei (c ∷ cs) ≡ true
unfolding whole_before
whole_before-cons writei c [] e h = refl
whole_before-cons writei c (d ∷ cs) e h = rw e h

next_chunk-count :
    (addr off i n : ℕ)
    → i < n
    → let c = next_chunk addr off i n in (0 < c.count) × (c.count ≤ max_chunk) × (i + c.count ≤ n)
next_chunk-count addr off i n h = ground arith

Done-stopped :
    (writei : Chunk → ℤ) (addr i n off : ℕ) (c : Chunk)
    → c.addr ≡ addr + i
    → c.count ≤ max_chunk
    → c.off ≡ off
    → is_count (writei c) c.count ≡ false
    → Done writei addr off i n (record {
      ret = negsuc 0;
      off = moved off (writei c);
      chunks = c ∷ [];
      events = transaction c;
    })
Done-stopped writei addr i n off c here small there e = record {
  stop = i + c.count;
  small = (small, tt);
  contiguous = unfold Contiguous in (here, there, omega arith);
  first_short = unfold whole_before in refl;
  offset = unfold off_after in refl;
  transactions = unfold events_of in refl;
  returned = unfold all_whole in (rw e refl);
  whole = unfold all_whole in (rw e refl);
}

Done-cons :
    (writei : Chunk → ℤ) (addr off i n : ℕ) (c : Chunk) (w : Written)
    → c.addr ≡ addr + i
    → c.count ≤ max_chunk
    → c.off ≡ off
    → is_count (writei c) c.count ≡ true
    → Done writei addr (moved off (writei c)) (i + c.count) n w
    → Done writei addr off i n (then_chunk c w)
Done-cons writei addr off i n c w here small there e d =
    let next : addr + (i + c.count) ≡ addr + i + c.count = omega arith in
    record {
      stop = d.stop;
      small = (small, d.small);
      contiguous =
          unfold Contiguous in
          (
            here,
            there,
            subst (λ o. Contiguous (addr + i + c.count) (addr + d.stop) o w.chunks)
                (count-moved off c.count (writei c) e) (rw next at d.contiguous),
          );
      first_short = whole_before-cons writei c w.chunks e d.first_short;
      offset = unfold off_after in d.offset;
      transactions = unfold events_of in (ap (λ es. transaction c ++ es) d.transactions);
      returned = unfold all_whole in (rw e d.returned);
      whole = unfold all_whole in (rw e d.whole);
    }

write_chunks-Done :
    (fuel : ℕ) (writei : Chunk → ℤ) (addr off i n : ℕ)
    → n - i < fuel
    → i ≤ n
    → (w : Written) × (write_chunks fuel writei addr off i n ≡ some w) × Done writei addr off i n w
unfolding write_chunks
write_chunks-Done zero writei addr off i n h k = absurd (omega arith)
write_chunks-Done (suc fuel) writei addr off i n h k = elim (Bool-cases (ltb i n)) [
  | inr e ↦ (
    record { ret = pos n; off = off; chunks = []; events = [] },
    ground arith,
    record {
      stop = i;
      small = tt;
      contiguous = unfold Contiguous in refl;
      first_short = unfold whole_before in refl;
      offset = unfold off_after in refl;
      transactions = unfold events_of in refl;
      returned = unfold all_whole in refl;
      whole = unfold all_whole in ground arith;
    },
  )
  | inl e ↦
      (let c = next_chunk addr off i n in
        let (some_left, small, fits) = next_chunk-count addr off i n (ground arith) in
        elim (Bool-cases (is_count (writei c) c.count)) [
          | inr f ↦ (
            record {
              ret = negsuc 0;
              off = moved off (writei c);
              chunks = c ∷ [];
              events = transaction c;
            },
            rw (e, f) refl,
            Done-stopped writei addr i n off c refl small refl f,
          )
          | inl f ↦
              let (w, run, d) =
                write_chunks-Done fuel writei addr (moved off (writei c)) (i + c.count) n
                  (omega (arith, some_left, fits)) (omega (arith, fits)) in
              (
                then_chunk c w,
                rw (e, f) (ap (then_all c) run),
                Done-cons writei addr off i n c w refl small refl f d,
              )
        ])
]

-- A write to an open inode ends, in chunks of at most `max_chunk` bytes: they lie one behind the
-- other from `addr` on and, in the file, from its offset on, up to the end of the `n` bytes or to
-- the first chunk that `writei` did not write whole, which is the last. Each is written in a
-- transaction of its own with the inode locked, and the file's offset grows by what was written.
-- The result is `n` if all chunks were written whole, and otherwise -1.
pub filewrite_lem :
    (fuel : ℕ) (calls : Calls) (f : File) (addr n : ℕ)
    → f.writable ≡ true
    → f.type ≡ fd_inode
    → n < fuel
    → (w : Written) × (filewrite fuel calls f addr n ≡ ok w) × Done calls.inode addr f.off 0 n w
unfolding filewrite
filewrite_lem fuel calls f addr n allowed inode enough =
    let (w, run, d) =
      write_chunks-Done fuel calls.inode addr f.off 0 n (omega arith) (omega arith) in
    (w, rw (filewrite, allowed, inode, run) refl, d)
