-- ===== src/Ulib/Lines.antt =====
-- user/ulib.c: `gets`.
use os_study.Prelude.{
  ℕ, zero, suc, ◌+◌, ◌-◌, ◌≤◌, ◌≡◌, refl, ◌∙◌, ap, ℤ, pos_part, ◌||◌, List, [], ◌∷◌, ◌++◌, arith,
  length, if◌then◌else◌, ◌==◌, inl, inr, Bool-cases, update,
}
use os_study.StringOps.{Memory}
use os_study.StringOps.Move.{within}
use os_study.Ulib.{gets_from, gets}

-- The first line of the input, with its end, and at most `k` characters of it.
unfoldable pub line : ℕ → List ℕ → List ℕ
line zero cs = []
line (suc k) [] = []
line (suc k) (c ∷ cs) = let rest = line k cs in if (c == 10) || (c == 13) then c ∷ [] else c ∷ rest

-- Character `i` of the list, and 0 past its end.
unfoldable pub char_at : List ℕ → ℕ → ℕ
char_at [] i = 0
char_at (c ∷ cs) zero = c
char_at (c ∷ cs) (suc i) = char_at cs i

char_at-pred :
    (c : ℕ) (cs : List ℕ) (i : ℕ) → char_at (c ∷ cs) i ≡ (if i == 0 then c else char_at cs (i - 1))
unfolding char_at
char_at-pred c cs zero = refl
char_at-pred c cs (suc i) = let same : suc i - 1 ≡ i = omega arith in rw same (ground arith)

-- What a string stored at `buf` with its NUL leaves at `q`.
abbrev pub stored : Memory → ℕ → List ℕ → ℕ → ℕ
stored m buf cs q = if within buf (suc (length cs)) q then char_at cs (q - buf) else m q

same_char : (cs : List ℕ) (a b : ℕ) → a ≡ b → char_at cs a ≡ char_at cs b
same_char cs a b e = ap (char_at cs) e

stored-nil : (m : Memory) (b q : ℕ) → update m b 0 q ≡ stored m b [] q
unfolding char_at
stored-nil m b q = ground arith

stored-cons :
    (m : Memory) (b c : ℕ) (cs : List ℕ) (q : ℕ)
    → stored (update m b c) (b + 1) cs q ≡ stored m b (c ∷ cs) q
stored-cons m b c cs q =
    ground (arith, char_at-pred c cs (q - b), same_char cs (q - b - 1) (q - (b + 1)))

gets_from-memory :
    (k : ℕ) (m : Memory) (buf i : ℕ) (cs : List ℕ) (q : ℕ)
    → (gets_from k m buf i cs).memory q ≡ stored m (buf + i) (line k cs) q
unfolding gets_from line
gets_from-memory zero m buf i cs q = stored-nil m (buf + i) q
gets_from-memory (suc k) m buf i [] q = stored-nil m (buf + i) q
gets_from-memory (suc k) m buf i (c ∷ cs) q =
    let next : buf + (i + 1) ≡ buf + i + 1 = omega arith in
    let m' = update m (buf + i) c in
    elim (Bool-cases ((c == 10) || (c == 13))) [
      | inl e ↦ rw (e, next) (stored-nil m' (buf + i + 1) q ∙ stored-cons m (buf + i) c [] q)
      | inr e ↦ rw e (
          gets_from-memory k m' buf (i + 1) cs q
          ∙ rw next (stored-cons m (buf + i) c (line k cs) q))
    ]

gets_from-input :
    (k : ℕ) (m : Memory) (buf i : ℕ) (cs : List ℕ)
    → cs ≡ line k cs ++ (gets_from k m buf i cs).input
unfolding gets_from line
gets_from-input zero m buf i cs = refl
gets_from-input (suc k) m buf i [] = refl
gets_from-input (suc k) m buf i (c ∷ cs) =
    ground (arith, gets_from-input k (update m (buf + i) c) buf (i + 1) cs)

length-line : (k : ℕ) (cs : List ℕ) → length (line k cs) ≤ k
unfolding line
length-line zero cs = omega arith
length-line (suc k) [] = omega arith
length-line (suc k) (c ∷ cs) = ground (arith, length-line k cs)

-- `gets` with room for `max` characters takes the first line off the input, at most `max - 1`
-- characters of it, stores it at `buf` with a NUL after it, and writes nothing else.
pub gets_lem :
    (m : Memory) (buf : ℕ) (max : ℤ) (input : List ℕ) (q : ℕ)
    → let l = line (pos_part max - 1) input in
      let g = gets m buf max input in
      (g.memory q ≡ stored m buf l q) × (input ≡ l ++ g.input) × (length l ≤ pos_part max - 1)
unfolding gets
gets_lem m buf max input q =
    let at : buf + 0 ≡ buf = omega arith in
    (
      gets_from-memory (pos_part max - 1) m buf 0 input q ∙ rw at refl,
      gets_from-input (pos_part max - 1) m buf 0 input,
      length-line (pos_part max - 1) input,
    )
