-- ===== src/Fs/Bmap.antt =====
-- kernel/fs.c: `bmap` numbers the blocks of an inode.
use os_study.Prelude.{
  ℕ, ◌+◌, ◌-◌, ◌/◌, ◌<◌, ◌≡◌, ◌≢◌, refl, sym, ap, subst, ◌∙◌, Bool, true, false, Bool-cases, inl,
  inr, arith, ◌==◌, ltb, if◌then◌else◌, update, update_self, update_ne, ==→eq, ==→ne, ne→==, eq→==,
  true≢false, Outcome, ok, lt→ltb,
}
use os_study.Fs.{Fs, Inode, set_addr, balloc, keep_addr, addr_or_new}
use os_study.Fs.Blocks.{in_use}
use os_study.Fs.Balloc.{MapInUse, Taken, balloc_lem}

-- Address `n` of inode `i`, as the table has it
abbrev pub addr_of : Fs → ℕ → ℕ → ℕ
addr_of f i n = (f.inode i).info.addrs n

-- Slot `n` of the inode after `addr_or_new`
pub record Slotted (f : Fs) (i n : ℕ) (out : ℕ × Fs) : Type 0 where
  pub addr : ℕ
  pub f1 : Fs
  pub result : out ≡ (addr, f1)
  pub here : addr_of f1 i n ≡ addr
  pub others : (n' : ℕ) → n' ≢ n → addr_of f1 i n' ≡ addr_of f i n'
  pub old : addr_of f i n ≢ 0 → (addr ≡ addr_of f i n) × (f1 ≡ f)
  pub new :
      addr_of f i n ≡ 0
      → addr ≢ 0
      → (in_use f addr ≡ false) × (f1.words ≡ update f.words addr (λ j. 0))
  pub failed : addr ≡ 0 → f1 ≡ f
  pub used : addr ≢ 0 → in_use f1 addr ≡ true
  pub map_in_use : MapInUse f1
  pub in_use_after : (c : ℕ) → c < f.size → in_use f c ≡ true → in_use f1 c ≡ true
  pub size : f1.size ≡ f.size

-- Inode `i` after `set_addr`
abbrev with_addr : Fs → ℕ → ℕ → ℕ → Inode
with_addr f i n addr =
    let d = (f.inode i).info in
    record (f.inode i) { info = record d { addrs = update d.addrs n addr } }

set_addr_here : (f : Fs) (i n addr : ℕ) → addr_of (set_addr f i n addr) i n ≡ addr
set_addr_here f i n addr =
    ap (λ (x : Inode). x.info.addrs n) (update_self f.inode i (with_addr f i n addr))
    ∙ update_self (f.inode i).info.addrs n addr

set_addr_other :
    (f : Fs) (i n addr n' : ℕ) → n' ≢ n → addr_of (set_addr f i n addr) i n' ≡ addr_of f i n'
set_addr_other f i n addr n' ne =
    ap (λ (x : Inode). x.info.addrs n') (update_self f.inode i (with_addr f i n addr))
    ∙ update_ne (f.inode i).info.addrs n n' addr (λ e. ne (sym e))

if_false : (b x : Bool) → (if b then true else x) ≡ false → x ≡ false
if_false true x h = absurd (true≢false h)
if_false false x h = h

if_true : (b x : Bool) → x ≡ true → (if b then true else x) ≡ true
if_true true x h = refl
if_true false x h = h

Taken-MapInUse : (f : Fs) (out : ℕ × Fs) (t : Taken f out) → MapInUse f → MapInUse t.f1
Taken-MapInUse f out t apart b c inside free lt e =
    apart b c (omega (arith, inside, t.sizes.0))
      (if_false (t.b == b) (in_use f b)
        (sym (t.marked b (omega (arith, inside, t.sizes.0))) ∙ free))
      (omega (arith, lt, t.sizes.0)) (e ∙ ap (λ s. c / 8192 + s) t.sizes.1)

-- The boot block is in use.
abbrev pub BootInUse : Fs → Type 0
BootInUse f = in_use f 0 ≡ true

-- A block that the inode has is in use.
abbrev pub AddrInUse : Fs → ℕ → ℕ → Type 0
AddrInUse f i n = addr_of f i n ≢ 0 → in_use f (addr_of f i n) ≡ true

pub nonzero : (f : Fs) (b : ℕ) → BootInUse f → in_use f b ≡ false → b ≢ 0
nonzero f b boot free e = true≢false (sym boot ∙ ap (in_use f) (sym e) ∙ free)

slot_taken :
    (f : Fs) (i n : ℕ) (t : Taken f (balloc f))
    → MapInUse f
    → BootInUse f
    → addr_of f i n ≡ 0
    → Slotted f i n (keep_addr i n (balloc f))
slot_taken f i n t apart boot absent =
    let nz = nonzero f t.b boot t.was_free in
    subst (λ o. Slotted f i n (keep_addr i n o)) (sym t.result)
      (rw (ne→== t.b 0 nz) (record {
        addr = t.b;
        f1 = set_addr t.f1 i n t.b;
        result = refl;
        here = set_addr_here t.f1 i n t.b;
        others = λ n' ne.
            set_addr_other t.f1 i n t.b n' ne
            ∙ ap (λ (g : ℕ → Inode). (g i).info.addrs n') t.inodes;
        old = λ ne. absurd (ne absent);
        new = λ _ _. (t.was_free, t.words);
        failed = λ z. absurd (nz z);
        used = λ _. t.marked t.b t.inside ∙ rw (eq→== t.b t.b refl) refl;
        map_in_use = Taken-MapInUse f (balloc f) t apart;
        in_use_after = λ c lt h. t.marked c lt ∙ if_true (t.b == c) (in_use f c) h;
        size = t.sizes.0;
      }))

slot_same :
    (f : Fs) (i n : ℕ) (out : ℕ × Fs)
    → MapInUse f
    → AddrInUse f i n
    → out ≡ (addr_of f i n, f)
    → Slotted f i n out
slot_same f i n out apart used e = record {
  addr = addr_of f i n;
  f1 = f;
  result = e;
  here = refl;
  others = λ n' ne. refl;
  old = λ ne. (refl, refl);
  new = λ z nz. absurd (nz z);
  failed = λ z. refl;
  used = used;
  map_in_use = apart;
  in_use_after = λ c lt h. h;
  size = refl;
}

pub addr_or_new_lem :
    (f : Fs) (i n : ℕ)
    → MapInUse f
    → BootInUse f
    → AddrInUse f i n
    → Slotted f i n (addr_or_new f i n)
unfolding addr_or_new
addr_or_new_lem f i n apart boot used = elim (Bool-cases (addr_of f i n == 0)) [
  | inr there ↦ rw there (slot_same f i n (addr_of f i n, f) apart used refl)
  | inl absent ↦ rw absent (elim (balloc_lem f apart) [
    | inl t ↦ slot_taken f i n t apart boot (==→eq (addr_of f i n) 0 absent)
    | inr (e, full) ↦
        slot_same f i n (keep_addr i n (balloc f)) apart used
          (ap (keep_addr i n) e ∙ ap (λ (a : ℕ). (a, f)) (sym (==→eq (addr_of f i n) 0 absent)))
  ])
]

-- The words of a block in use are kept.
pub Slotted-words :
    (f : Fs) (i n : ℕ) (out : ℕ × Fs) (s : Slotted f i n out) (b : ℕ)
    → in_use f b ≡ true
    → s.f1.words b ≡ f.words b
Slotted-words f i n out s b h = elim (Bool-cases (addr_of f i n == 0)) [
  | inr there ↦ ap (λ (g : Fs). g.words b) (s.old (==→ne (addr_of f i n) 0 there)).1
  | inl absent ↦ elim (Bool-cases (s.addr == 0)) [
    | inl z ↦ ap (λ (g : Fs). g.words b) (s.failed (==→eq s.addr 0 z))
    | inr nz ↦
        (let (free, w) = s.new (==→eq (addr_of f i n) 0 absent) (==→ne s.addr 0 nz) in
          ap (λ (g : ℕ → ℕ → ℕ). g b) w
          ∙ update_ne f.words s.addr b (λ j. 0)
              (λ e. true≢false (sym h ∙ ap (in_use f) (sym e) ∙ free)))
  ]
]

-- Word `j` of the indirect block of inode `i`, and block `bn` of the inode; 0 if there is none
abbrev pub word_at : Fs → ℕ → ℕ → ℕ
word_at f ind j = if ind == 0 then 0 else f.words ind j

abbrev pub block_at : Fs → ℕ → ℕ → ℕ
block_at f i bn = if ltb bn 12 then addr_of f i bn else word_at f (addr_of f i 12) (bn - 12)

-- Block `bn` of the inode after `bmap`
pub record Numbered (f : Fs) (i bn : ℕ) (out : Outcome (ℕ × Fs)) : Type 0 where
  pub addr : ℕ
  pub f1 : Fs
  pub result : out ≡ ok (addr, f1)
  pub here : addr ≢ 0 → block_at f1 i bn ≡ addr
  pub old : block_at f i bn ≢ 0 → addr ≡ block_at f i bn
  pub keeps : block_at f i bn ≢ 0 → f1 ≡ f
  pub new : block_at f i bn ≡ 0 → addr ≢ 0 → in_use f addr ≡ false
  pub others : (bn' : ℕ) → bn' ≢ bn → block_at f1 i bn' ≡ block_at f i bn'

block_at-direct : (f : Fs) (i bn : ℕ) → bn < 12 → block_at f i bn ≡ addr_of f i bn
block_at-direct f i bn h = rw (lt→ltb bn 12 h) refl

pub direct_lem :
    (f : Fs) (i bn : ℕ)
    → MapInUse f
    → BootInUse f
    → AddrInUse f i bn
    → AddrInUse f i 12
    → bn < 12
    → Numbered f i bn (ok (addr_or_new f i bn))
direct_lem f i bn apart boot used ind_used h =
    let s = addr_or_new_lem f i bn apart boot used in
    let at = block_at-direct f i bn h in
    record {
      addr = s.addr;
      f1 = s.f1;
      result = ap (λ (x : ℕ × Fs). ok x) s.result;
      here = λ _. block_at-direct s.f1 i bn h ∙ s.here;
      old = λ ne. (s.old (λ z. ne (at ∙ z))).0 ∙ sym at;
      keeps = λ ne. (s.old (λ z. ne (at ∙ z))).1;
      new = λ z nz. (s.new (sym at ∙ z) nz).0;
      others = λ bn' ne. elim (Bool-cases (ltb bn' 12)) [
        | inl low ↦ rw low (s.others bn' ne)
        | inr high ↦ rw high (
            let same : addr_of s.f1 i 12 ≡ addr_of f i 12 = s.others 12 (omega (arith, h)) in
            ap (λ x. word_at s.f1 x (bn' - 12)) same ∙ elim (Bool-cases (addr_of f i 12 == 0)) [
              | inl z ↦ rw z refl
              | inr nz ↦ rw nz (
                  ap (λ (g : ℕ → ℕ). g (bn' - 12))
                    (Slotted-words f i bn (addr_or_new f i bn) s (addr_of f i 12)
                      (ind_used (==→ne (addr_of f i 12) 0 nz))))
            ])
      ];
    }
