-- ===== src/Log/Budget.antt =====
-- kernel/log.c: the operations in progress on a log, with what each may still log.
use os_study.Prelude.{
  ℕ, suc, ◌+◌, ◌*◌, ◌≤◌, ◌≡◌, true, false, List, [], ◌∷◌, arith, length, All, pos, ok,
}
use os_study.Log.{Log, log_blocks, max_op_blocks, begin_op, end_op, log_write, logged}

-- A running log with what each operation in progress may still log.
pub record Running : Type 0 where
  pub log : Log
  pub budgets : List ℕ

abbrev pub sum : List ℕ → ℕ
sum [] = 0
sum (x ∷ xs) = x + sum xs

-- One operation logs one more block.
pub data Spend : List ℕ → List ℕ → Type 0 where
  here : {m : ℕ} {xs : List ℕ} → Spend (suc m ∷ xs) (m ∷ xs)
  there : {m : ℕ} {xs ys : List ℕ} → Spend xs ys → Spend (m ∷ xs) (m ∷ ys)

-- One operation ends.
pub data Drop : List ℕ → List ℕ → Type 0 where
  here : {m : ℕ} {xs : List ℕ} → Drop (m ∷ xs) xs
  there : {m : ℕ} {xs ys : List ℕ} → Drop xs ys → Drop (m ∷ xs) (m ∷ ys)

pub data Step (s : Running) : Running → Type 0 where
  begin :
      {l : Log}
      → begin_op s.log ≡ ok l
      → Step s (record { log = l; budgets = max_op_blocks ∷ s.budgets })
  write :
      {l : Log} {bs : List ℕ} (b : ℕ)
      → Spend s.budgets bs
      → log_write s.log b ≡ ok l
      → Step s (record { log = l; budgets = bs })
  rewrite :
      {l : Log} (b : ℕ)
      → logged b s.log.lh ≡ true
      → log_write s.log b ≡ ok l
      → Step s (record { log = l; budgets = s.budgets })
  finish :
      {l : Log} {bs : List ℕ}
      → Drop s.budgets bs
      → end_op s.log ≡ ok l
      → Step s (record { log = l; budgets = bs })

-- Reachable from an empty log with no operation in progress.
pub data Reach : Running → Type 0 where
  start :
      {l : Log}
      → l.lh ≡ []
      → l.outstanding ≡ pos 0
      → l.committing ≡ false
      → Reach (record { log = l; budgets = [] })
  next : {s t : Running} → Reach s → Step s t → Reach t

pub Spend-sum : {xs ys : List ℕ} → Spend xs ys → (sum xs ≡ suc (sum ys)) × (length xs ≡ length ys)
Spend-sum here = omega arith
Spend-sum (there s) = omega (arith, Spend-sum s)

pub Drop-sum : {xs ys : List ℕ} → Drop xs ys → (sum ys ≤ sum xs) × (length xs ≡ suc (length ys))
Drop-sum here = omega arith
Drop-sum (there d) = omega (arith, Drop-sum d)

pub Spend-le :
    {xs ys : List ℕ}
    → Spend xs ys
    → All (λ b. b ≤ max_op_blocks) xs
    → All (λ b. b ≤ max_op_blocks) ys
Spend-le here h = (omega (arith, h.0), h.1)
Spend-le (there s) h = (h.0, Spend-le s h.1)

pub Drop-le :
    {xs ys : List ℕ}
    → Drop xs ys
    → All (λ b. b ≤ max_op_blocks) xs
    → All (λ b. b ≤ max_op_blocks) ys
Drop-le here h = h.1
Drop-le (there s) h = (h.0, Drop-le s h.1)

pub sum-le : (xs : List ℕ) → All (λ b. b ≤ max_op_blocks) xs → sum xs ≤ length xs * max_op_blocks
sum-le [] h = omega arith
sum-le (x ∷ xs) h = omega (arith, sum-le xs h.1, h.0)

pub record Inv (s : Running) : Type 0 where
  pub counted : s.log.outstanding ≡ pos (length s.budgets)
  pub idle : s.log.committing ≡ false
  pub small : All (λ b. b ≤ max_op_blocks) s.budgets
  pub room : length s.log.lh + sum s.budgets ≤ log_blocks
