-- ===== src/Fs/Slots.antt =====
-- kernel/fs.c: which slot of the inode table `iget` takes.
use os_study.Prelude.{
  ℕ, zero, suc, ◌+◌, ◌<◌, ◌≡◌, ◌≢◌, ◌⊎◌, refl, sym, ap, ap₂, ◌∙◌, true, false, true≢false,
  Bool-cases, inl, inr, Option, none, some, arith, ◌==◌, update, update_self, update_ne, Outcome,
  ok, panic, ==→eq, ==→ne,
}
use os_study.Fs.{Fs, Inode}
use os_study.Fs.Inodes.{ninode, set_inode, remember, is_for, recycle_slot, iget_from, iget}

-- `iget` finds the inode in slot `i`.
abbrev pub Cached : Fs → ℕ → ℕ → Outcome (ℕ × Fs) → Type 0
Cached f dev inum out =
    (i : ℕ) × (i < ninode)
    × (is_for (f.inode i) dev inum ≡ true)
    × (out ≡ ok (i, set_inode f i (record (f.inode i) { ref = (f.inode i).ref + 1 })))

-- No slot below `n` has the inode.
abbrev pub Missing : Fs → ℕ → ℕ → ℕ → Type 0
Missing f dev inum n = (j : ℕ) → j < n → is_for (f.inode j) dev inum ≡ false

-- It takes the unused slot `i` for the inode, which no slot has.
abbrev pub Recycled : Fs → ℕ → ℕ → Outcome (ℕ × Fs) → Type 0
Recycled f dev inum out =
    (i : ℕ) × (i < ninode)
    × ((f.inode i).ref ≡ 0)
    × Missing f dev inum ninode
    × (out ≡ ok (i, recycle_slot f i dev inum))

-- Every slot below `n` is in use.
abbrev pub Full : Fs → ℕ → Type 0
Full f n = (j : ℕ) → j < n → (f.inode j).ref ≢ 0

abbrev pub NoSlot : Fs → ℕ → ℕ → Outcome (ℕ × Fs) → Type 0
NoSlot f dev inum out = Missing f dev inum ninode × Full f ninode × (out ≡ panic "iget: no inodes")

-- What `empty` says after the slots below `i`
abbrev Remembers : Fs → ℕ → Option ℕ → Type 0
Remembers f i none = Full f i
Remembers f i (some e) = (e < i) × ((f.inode e).ref ≡ 0)

remember-Remembers :
    (f : Fs) (i : ℕ) (empty : Option ℕ)
    → Remembers f i empty
    → Remembers f (i + 1) (remember f i empty)
remember-Remembers f i (some e) (lt, z) = (omega (arith, lt), z)
remember-Remembers f i none full = elim (Bool-cases ((f.inode i).ref == 0)) [
  | inl free ↦ rw free (omega arith, ==→eq (f.inode i).ref 0 free)
  | inr used ↦ rw used (λ j lt z. elim (Bool-cases (j == i)) [
    | inl same ↦ ==→ne (f.inode i).ref 0 used (ap (λ x. (f.inode x).ref) (sym (==→eq j i same)) ∙ z)
    | inr other ↦ full j (ground (arith, lt, other)) z
  ])
]

Missing-next :
    (f : Fs) (dev inum i : ℕ)
    → Missing f dev inum i
    → is_for (f.inode i) dev inum ≡ false
    → Missing f dev inum (i + 1)
Missing-next f dev inum i missing e j lt = elim (Bool-cases (j == i)) [
  | inl same ↦ ap (λ x. is_for (f.inode x) dev inum) (==→eq j i same) ∙ e
  | inr other ↦ missing j (ground (arith, lt, other))
]

iget_from_lem :
    (k : ℕ) (f : Fs) (dev inum i : ℕ) (empty : Option ℕ)
    → i + k ≡ ninode
    → Missing f dev inum i
    → Remembers f i empty
    → Cached f dev inum (iget_from k f dev inum i empty)
      ⊎ (Recycled f dev inum (iget_from k f dev inum i empty)
          ⊎ NoSlot f dev inum (iget_from k f dev inum i empty))
unfolding iget_from
iget_from_lem zero f dev inum i none e missing full = inr (
    inr ((λ j lt. missing j (omega (arith, e, lt))), (λ j lt. full j (omega (arith, e, lt))), refl))
iget_from_lem zero f dev inum i (some s) e missing (lt, z) =
    inr (inl (s, omega (arith, e, lt), z, (λ j lt2. missing j (omega (arith, e, lt2))), refl))
iget_from_lem (suc k) f dev inum i empty e missing r =
    elim (Bool-cases (is_for (f.inode i) dev inum)) [
      | inl hit ↦ inl (i, omega (arith, e), hit, rw hit refl)
      | inr miss ↦ rw miss (
          iget_from_lem k f dev inum (i + 1) (remember f i empty) (omega (arith, e))
            (Missing-next f dev inum i missing miss) (remember-Remembers f i empty r))
    ]

pub iget_lem :
    (f : Fs) (dev inum : ℕ)
    → Cached f dev inum (iget f dev inum)
      ⊎ (Recycled f dev inum (iget f dev inum) ⊎ NoSlot f dev inum (iget f dev inum))
unfolding iget
iget_lem f dev inum =
    iget_from_lem ninode f dev inum 0 none refl (λ j lt. absurd (omega (arith, lt)))
      (λ j lt. absurd (omega (arith, lt)))

-- No inode has two slots.
abbrev pub Unique : Fs → Type 0
Unique f =
    (dev inum i j : ℕ)
    → i < ninode
    → j < ninode
    → is_for (f.inode i) dev inum ≡ true
    → is_for (f.inode j) dev inum ≡ true
    → i ≡ j

set-same :
    (f : Fs) (i : ℕ) (ip : Inode) (dev inum j : ℕ)
    → i ≡ j
    → is_for ((set_inode f i ip).inode j) dev inum ≡ true
    → is_for ip dev inum ≡ true
set-same f i ip dev inum j e h =
    sym (ap (λ x. is_for x dev inum) (ap (update f.inode i ip) (sym e) ∙ update_self f.inode i ip))
    ∙ h

set-other :
    (f : Fs) (i : ℕ) (ip : Inode) (dev inum j : ℕ)
    → i ≢ j
    → is_for ((set_inode f i ip).inode j) dev inum ≡ true
    → is_for (f.inode j) dev inum ≡ true
set-other f i ip dev inum j ne h =
    sym (ap (λ x. is_for x dev inum) (update_ne f.inode i j ip ne)) ∙ h

is_for-parts :
    (ip : Inode) (dev inum : ℕ)
    → is_for ip dev inum ≡ true
    → (0 < ip.ref) × (ip.dev ≡ dev) × (ip.inum ≡ inum)
is_for-parts ip dev inum h = (ground (arith, h), ground (arith, h), ground (arith, h))

is_for-of :
    (ip : Inode) (dev inum : ℕ)
    → 0 < ip.ref
    → ip.dev ≡ dev
    → ip.inum ≡ inum
    → is_for ip dev inum ≡ true
is_for-of ip dev inum a b c = ground (arith, a, b, c)

Unique-set :
    (f : Fs) (i : ℕ) (ip : Inode)
    → Unique f
    → ((dev inum j : ℕ)
        → is_for ip dev inum ≡ true
        → j < ninode
        → j ≢ i
        → is_for (f.inode j) dev inum ≡ false)
    → Unique (set_inode f i ip)
Unique-set f i ip u alone dev inum a b la lb ha hb = elim (Bool-cases (i == a)) [
  | inl ea ↦ elim (Bool-cases (i == b)) [
    | inl eb ↦ sym (==→eq i a ea) ∙ ==→eq i b eb
    | inr nb ↦ absurd (
        true≢false (
          sym (set-other f i ip dev inum b (==→ne i b nb) hb)
          ∙ alone dev inum b (set-same f i ip dev inum a (==→eq i a ea) ha) lb
              (λ e. ==→ne i b nb (sym e))))
  ]
  | inr na ↦ elim (Bool-cases (i == b)) [
    | inl eb ↦ absurd (
        true≢false (
          sym (set-other f i ip dev inum a (==→ne i a na) ha)
          ∙ alone dev inum a (set-same f i ip dev inum b (==→eq i b eb) hb) la
              (λ e. ==→ne i a na (sym e))))
    | inr nb ↦
        u dev inum a b la lb (set-other f i ip dev inum a (==→ne i a na) ha)
          (set-other f i ip dev inum b (==→ne i b nb) hb)
  ]
]

-- In a table where no inode has two slots `iget` panics only if every slot is in use, by other
-- inodes. Otherwise it gives a slot that has the inode, with one more reference than before, and
-- still no inode has two slots.
pub iget-Unique :
    (f : Fs) (dev inum : ℕ)
    → Unique f
    → NoSlot f dev inum (iget f dev inum)
      ⊎ ((i : ℕ) × (f1 : Fs) × (iget f dev inum ≡ ok (i, f1))
          × (is_for (f1.inode i) dev inum ≡ true)
          × ((f1.inode i).ref ≡ (f.inode i).ref + 1)
          × Unique f1)
iget-Unique f dev inum u = elim (iget_lem f dev inum) [
  | inl (i, lt, hit, e) ↦
      (let ip : Inode = record (f.inode i) { ref = (f.inode i).ref + 1 } in
        let (used, ed, en) = is_for-parts (f.inode i) dev inum hit in
        let at = update_self f.inode i ip in
        inr (
          i,
          set_inode f i ip,
          e,
          ap (λ x. is_for x dev inum) at ∙ is_for-of ip dev inum (omega arith) ed en,
          ap (λ (x : Inode). x.ref) at,
          Unique-set f i ip u (λ dev' inum' j h lj ne.
              let (_, ed', en') = is_for-parts ip dev' inum' h in
              elim (Bool-cases (is_for (f.inode j) dev' inum')) [
                | inl t ↦
                    absurd (
                      ne (u dev' inum' j i lj lt t (is_for-of (f.inode i) dev' inum' used ed' en')))
                | inr off ↦ off
              ]),
        ))
  | inr (inl (i, lt, z, missing, e)) ↦
      (let ip : Inode = record (f.inode i) { dev = dev; inum = inum; ref = 1; valid = false } in
        let at = update_self f.inode i ip in
        inr (
          i,
          set_inode f i ip,
          e,
          ap (λ x. is_for x dev inum) at ∙ is_for-of ip dev inum (omega arith) refl refl,
          ap (λ (x : Inode). x.ref) at ∙ omega (arith, z),
          Unique-set f i ip u (λ dev' inum' j h lj ne.
              let (_, ed', en') = is_for-parts ip dev' inum' h in
              ap₂ (λ d n. is_for (f.inode j) d n) (sym ed') (sym en') ∙ missing j lj),
        ))
  | inr (inr full) ↦ inl full
]
