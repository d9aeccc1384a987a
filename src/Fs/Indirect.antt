-- ===== src/Fs/Indirect.antt =====
-- kernel/fs.c: the blocks that `bmap` finds through the indirect block.
use os_study.Prelude.{
  ℕ, ◌-◌, ◌≤◌, ◌<◌, ◌≡◌, ◌≢◌, refl, sym, ap, ap₂, subst, ◌∙◌, false, Bool-cases, inl, inr, arith,
  ◌==◌, ltb, update, update_self, update_ne, ==→eq, ==→ne, ne→==, true≢false, ok, lt→ltb, le→ltb,
}
use os_study.Fs.{Fs, Inode, log_write, balloc, addr_or_new, keep_word, word_or_new, bmap}
use os_study.Fs.Blocks.{in_use}
use os_study.Fs.Balloc.{MapInUse, Taken, balloc_lem}
use os_study.Fs.Bmap.{
  addr_of, Slotted, BootInUse, AddrInUse, nonzero, addr_or_new_lem, word_at, block_at, Numbered,
  direct_lem,
}

block_at-indirect :
    (f : Fs) (i bn : ℕ) → 12 ≤ bn → block_at f i bn ≡ word_at f (addr_of f i 12) (bn - 12)
block_at-indirect f i bn h = rw (le→ltb 12 bn h) refl

word_at-there : (f : Fs) (ind j : ℕ) → ind ≢ 0 → word_at f ind j ≡ f.words ind j
word_at-there f ind j h = rw (ne→== ind 0 h) refl

module _ (f : Fs) (i bn : ℕ) (boot : BootInUse f) (high : 12 ≤ bn)
    (s : Slotted f i 12 (addr_or_new f i 12)) where
  no_indirect : s.addr ≡ 0 → addr_of f i 12 ≡ 0
  no_indirect z = elim (Bool-cases (addr_of f i 12 == 0)) [
    | inl absent ↦ ==→eq (addr_of f i 12) 0 absent
    | inr there ↦ sym (s.old (==→ne (addr_of f i 12) 0 there)).0 ∙ z
  ]

  -- The words that the indirect block has before the call
  words_before : s.addr ≢ 0 → (j : ℕ) → s.f1.words s.addr j ≡ word_at f (addr_of f i 12) j
  words_before nz j = elim (Bool-cases (addr_of f i 12 == 0)) [
    | inl absent ↦
        (let (free, w) = s.new (==→eq (addr_of f i 12) 0 absent) nz in
          rw absent (
            ap (λ (g : ℕ → ℕ → ℕ). g s.addr j) w
            ∙ ap (λ (g : ℕ → ℕ). g j) (update_self f.words s.addr (λ j'. 0))))
    | inr there ↦
        (let (ea, ef) = s.old (==→ne (addr_of f i 12) 0 there) in
          rw there (ap₂ (λ (g : Fs) (a : ℕ). g.words a j) ef ea))
  ]

  others_kept :
      (f2 : Fs)
      → s.addr ≢ 0
      → f2.inode ≡ s.f1.inode
      → ((j : ℕ) → j ≢ bn - 12 → f2.words s.addr j ≡ s.f1.words s.addr j)
      → (bn' : ℕ) → bn' ≢ bn
      → block_at f2 i bn' ≡ block_at f i bn'
  others_kept f2 nz same w bn' ne = elim (Bool-cases (ltb bn' 12)) [
    | inl low ↦
        rw low
          (ap (λ (g : ℕ → Inode). (g i).info.addrs bn') same ∙ s.others bn' (ground (arith, low)))
    | inr up ↦
        (let h : 12 ≤ bn' = ground (arith, up) in
          rw up (
            ap (λ x. word_at f2 x (bn' - 12))
              (ap (λ (g : ℕ → Inode). (g i).info.addrs 12) same ∙ s.here)
            ∙ word_at-there f2 s.addr (bn' - 12) nz
            ∙ w (bn' - 12) (omega (arith, high, h, ne))
            ∙ words_before nz (bn' - 12)))
  ]

  found_at :
      (f2 : Fs) → s.addr ≢ 0 → f2.inode ≡ s.f1.inode → block_at f2 i bn ≡ f2.words s.addr (bn - 12)
  found_at f2 nz same =
      block_at-indirect f2 i bn high
      ∙ ap (λ x. word_at f2 x (bn - 12)) (ap (λ (g : ℕ → Inode). (g i).info.addrs 12) same ∙ s.here)
      ∙ word_at-there f2 s.addr (bn - 12) nz

  was_at : s.addr ≢ 0 → block_at f i bn ≡ s.f1.words s.addr (bn - 12)
  was_at nz = block_at-indirect f i bn high ∙ sym (words_before nz (bn - 12))

  none_there : addr_of f i 12 ≡ 0 → block_at f i bn ≡ 0
  none_there z = block_at-indirect f i bn high ∙ ap (λ x. word_at f x (bn - 12)) z

  word_taken :
      (t : Taken s.f1 (balloc s.f1))
      → s.addr ≢ 0
      → s.f1.words s.addr (bn - 12) ≡ 0
      → BootInUse s.f1
      → in_use f t.b ≡ false
      → Numbered f i bn (ok (keep_word s.addr (bn - 12) (balloc s.f1)))
  word_taken t nz z boot1 was_free =
      let b_nz = nonzero s.f1 t.b boot1 t.was_free in
      let ne : t.b ≢ s.addr =
        λ e. true≢false (sym (s.used nz) ∙ ap (in_use s.f1) (sym e) ∙ t.was_free) in
      let row = update (t.f1.words s.addr) (bn - 12) t.b in
      let f2 = log_write (record t.f1 { words = update t.f1.words s.addr row }) s.addr in
      let at : f2.words s.addr ≡ row = update_self t.f1.words s.addr row in
      subst (λ o. Numbered f i bn (ok (keep_word s.addr (bn - 12) o))) (sym t.result)
        (rw (ne→== t.b 0 b_nz) (record {
          addr = t.b;
          f1 = f2;
          result = refl;
          here = λ _.
              found_at f2 nz t.inodes
              ∙ ap (λ (g : ℕ → ℕ). g (bn - 12)) at
              ∙ update_self (t.f1.words s.addr) (bn - 12) t.b;
          old = λ there. absurd (there (was_at nz ∙ z));
          keeps = λ there. absurd (there (was_at nz ∙ z));
          new = λ _ _. was_free;
          others = others_kept f2 nz t.inodes (λ j j_ne.
              ap (λ (g : ℕ → ℕ). g j) at
              ∙ update_ne (t.f1.words s.addr) (bn - 12) j t.b (λ e. j_ne (sym e))
              ∙ ap (λ (g : ℕ → ℕ → ℕ). g s.addr j) t.words
              ∙ ap (λ (g : ℕ → ℕ). g j) (update_ne s.f1.words t.b s.addr (λ j'. 0) ne));
        }))

  word_same :
      (out : ℕ × Fs)
      → s.addr ≢ 0
      → out ≡ (s.f1.words s.addr (bn - 12), s.f1)
      → Numbered f i bn (ok out)
  word_same out nz e = record {
    addr = s.f1.words s.addr (bn - 12);
    f1 = s.f1;
    result = ap (λ (x : ℕ × Fs). ok x) e;
    here = λ _. found_at s.f1 nz refl;
    old = λ _. sym (was_at nz);
    keeps = λ there. (s.old (λ z. there (none_there z))).1;
    new = λ z there. absurd (there (sym (was_at nz) ∙ z));
    others = others_kept s.f1 nz refl (λ j j_ne. refl);
  }

  no_block : s.addr ≡ 0 → (out : ℕ × Fs) → out ≡ (0, s.f1) → Numbered f i bn (ok out)
  no_block z out e = record {
    addr = 0;
    f1 = s.f1;
    result = ap (λ (x : ℕ × Fs). ok x) e;
    here = λ nz. absurd (nz refl);
    old = λ there. absurd (there (none_there (no_indirect z)));
    keeps = λ there. absurd (there (none_there (no_indirect z)));
    new = λ _ nz. absurd (nz refl);
    others = λ bn' ne. ap (λ (g : Fs). block_at g i bn') (s.failed z);
  }

  free_before : (b : ℕ) → b < f.size → in_use s.f1 b ≡ false → in_use f b ≡ false
  free_before b lt free = elim (Bool-cases (in_use f b)) [
    | inl used ↦ absurd (true≢false (sym (s.in_use_after b lt used) ∙ free))
    | inr unused ↦ unused
  ]

  word_lem : 0 < f.size → Numbered f i bn (ok (word_or_new (bn - 12) (s.addr, s.f1)))
  unfolding word_or_new
  word_lem some_size = elim (Bool-cases (s.addr == 0)) [
    | inl z ↦ no_block (==→eq s.addr 0 z) (word_or_new (bn - 12) (s.addr, s.f1)) (rw z refl)
    | inr nz ↦ rw nz (elim (Bool-cases (s.f1.words s.addr (bn - 12) == 0)) [
      | inr there ↦
          rw there (word_same (s.f1.words s.addr (bn - 12), s.f1) (==→ne s.addr 0 nz) refl)
      | inl absent ↦ rw absent (elim (balloc_lem s.f1 s.map_in_use) [
        | inl t ↦
            word_taken t (==→ne s.addr 0 nz) (==→eq (s.f1.words s.addr (bn - 12)) 0 absent)
              (s.in_use_after 0 some_size boot)
              (free_before t.b (omega (arith, t.inside, s.size)) t.was_free)
        | inr (e, full) ↦ word_same (keep_word s.addr (bn - 12) (balloc s.f1)) (==→ne s.addr 0 nz) (
            ap (keep_word s.addr (bn - 12)) e
            ∙ ap (λ (a : ℕ). (a, s.f1)) (sym (==→eq (s.f1.words s.addr (bn - 12)) 0 absent)))
      ])
    ])
  ]

-- Where block 0, the free map and the blocks of inode `i` are in use, and `bn` is below `MAXFILE`,
-- `bmap` does not panic. For a block that the inode has it gives that block. Else it gives 0 or a
-- block that was free, which is then block `bn` of the inode. No other block number of the inode
-- changes its block.
pub bmap_lem :
    (f : Fs) (i bn : ℕ)
    → MapInUse f
    → BootInUse f
    → ((n : ℕ) → AddrInUse f i n)
    → 0 < f.size
    → bn < 268
    → Numbered f i bn (bmap f i bn)
unfolding bmap
bmap_lem f i bn apart boot used size h = elim (Bool-cases (ltb bn 12)) [
  | inl low ↦ rw low (direct_lem f i bn apart boot (used bn) (used 12) (ground (arith, low)))
  | inr up ↦
      (let high : 12 ≤ bn = ground (arith, up) in
        let s = addr_or_new_lem f i 12 apart boot (used 12) in
        rw (up, lt→ltb (bn - 12) 256 (omega (arith, h, high)))
          (subst (λ o. Numbered f i bn (ok (word_or_new (bn - 12) o))) (sym s.result)
            (word_lem f i bn boot high s size)))
]
