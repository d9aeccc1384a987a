-- ===== src/Log/Atomic.antt =====
-- kernel/log.c: transactions and crashes taken together.
use os_study.Prelude.{
  ℕ, suc, ◌+◌, ◌-◌, ◌≤◌, ◌<◌, ◌≡◌, ◌≢◌, refl, ap, ap₂, sym, ◌∙◌, List, [], ◌∷◌, ◌++◌, arith, update,
  update_ne, update_self, length, All, if◌then◌else◌, ltb, take, le→ltb, lt→ltb, length-append,
}
use mathlib.Core.List.{append-nil}
use native.Mathlib.Decide.{dec_le}
use os_study.Log.{Log, logged, log_blocks, commit}
use os_study.Log.Disk.{Block, Io, view, replay, replay-append, replay-one}
use os_study.Log.Replay.{take-append, take-all, take-none, pairs, length-pairs, replay-pairs}
use os_study.Log.Head.{head_block_count}
use os_study.Log.Commit.{Outside, IsLog, commit_writes, commit-Did}
use os_study.Log.Crash.{
  recovered, c, ws, h1, is, h2, base, length-ws, is-pairs, base-frame, before, during, after,
}

module _ (io : Io) (start : ℕ) (bs : List ℕ) (few : length bs ≤ log_blocks)
    (homes : All (Outside start log_blocks) bs) where
  abbrev rest : List (ℕ × Block)
  rest = is io start bs few homes ++ ((start, h2 io start bs few homes) ∷ [])

  abbrev all : List (ℕ × Block)
  all = ws io start bs few homes ++ (((start, h1 io start bs few homes) ∷ []) ++ rest)

  pub all_lem : commit_writes (view io) start bs ≡ all
  unfolding commit_writes ws h1 is h2 c
  all_lem = refl

  prefix-before : (j : ℕ) → j ≤ length bs → take j all ≡ take j (ws io start bs few homes)
  prefix-before j h =
      take-append j (ws io start bs few homes) _
      ∙ ap (λ l. take j (ws io start bs few homes) ++ l)
          (take-none (j - length (ws io start bs few homes)) _
            (omega (arith, length-ws io start bs few homes)))
      ∙ append-nil (take j (ws io start bs few homes))

  disk-after :
      (j k : ℕ)
      → j ≡ length bs + suc k
      → replay io.disk (take j all) ≡ replay (base io start bs few homes) (take k rest)
  unfolding base
  disk-after j k e =
      ap (replay io.disk) (
        take-append j W _
        ∙ ap₂ ◌++◌ (take-all j W (omega (arith, length-ws io start bs few homes)))
            (ap (λ i. take i (((start, h1 io start bs few homes) ∷ []) ++ rest)) shift))
      ∙ replay-append io.disk W ((start, h1 io start bs few homes) ∷ take k rest)
      ∙ unfold replay in refl
    where
      W : List (ℕ × Block)
      W = ws io start bs few homes

      shift : j - length W ≡ suc k
      shift = omega (arith, length-ws io start bs few homes)

  abbrev P : List (ℕ × Block)
  P = pairs (c io start bs few homes) bs

  abbrev last : List (ℕ × Block)
  last = (start, h2 io start bs few homes) ∷ []

  rest-pairs : rest ≡ P ++ last
  rest-pairs = ap (λ l. l ++ last) (is-pairs io start bs few homes)

  length-P : length P ≡ length bs
  length-P = length-pairs (c io start bs few homes) bs

  rest-during : (k : ℕ) → k ≤ length bs → take k rest ≡ take k P
  rest-during k h =
      ap (take k) rest-pairs
      ∙ take-append k P last
      ∙ ap (λ l. take k P ++ l) (take-none (k - length P) last (omega (arith, length-P)))
      ∙ append-nil (take k P)

  rest-after : (k : ℕ) → length bs < k → take k rest ≡ P ++ last
  rest-after k h =
      ap (take k) rest-pairs
      ∙ take-all k (P ++ last) (omega (arith, length-append P last, length-P))

  abbrev New : ℕ → Block
  New b = if logged b bs then view io b else io.disk b

  after-header :
      (j k b : ℕ)
      → j ≡ length bs + suc k
      → Outside start log_blocks b
      → recovered start (replay io.disk (take j all)) b ≡ New b
  after-header j k b e o = elim (dec_le k (length bs)) [
    | yes h ↦
        ap (λ d. recovered start d b)
          (disk-after j k e ∙ ap (replay (base io start bs few homes)) (rest-during k h))
        ∙ during io start bs few homes k b o
        ∙ unfold c in refl
    | no h ↦
        ap (λ d. recovered start d b)
          (disk-after j k e
            ∙ ap (replay (base io start bs few homes)) (rest-after k (omega arith))
            ∙ replay-append (base io start bs few homes) P last
            ∙ replay-one (replay (base io start bs few homes) P) start (h2 io start bs few homes))
        ∙ after io start bs few homes b o
        ∙ unfold c in refl
  ]

  pub crash_lem :
      (j b : ℕ)
      → io.disk start 0 ≡ 0
      → Outside start log_blocks b
      → recovered start (replay io.disk (take j all)) b
        ≡ (if ltb (length bs) j then New b else io.disk b)
  crash_lem j b e o = elim (dec_le j (length bs)) [
    | yes h ↦
        ap (λ ws. recovered start (replay io.disk ws) b) (prefix-before j h)
        ∙ before io start bs few homes j b e o
        ∙ sym (early h)
    | no h ↦ after-header j (j - length bs - 1) b (omega arith) o ∙ sym (late h)
  ]
    where
      early : j ≤ length bs → (if ltb (length bs) j then New b else io.disk b) ≡ io.disk b
      early h = rw (le→ltb j (length bs) h)

      late : ¬ (j ≤ length bs) → (if ltb (length bs) j then New b else io.disk b) ≡ New b
      late h = rw (lt→ltb (length bs) j (omega arith))

  disk-final :
      replay io.disk all
      ≡ update (replay (base io start bs few homes) P) start (h2 io start bs few homes)
  unfolding base
  disk-final =
      replay-append io.disk (ws io start bs few homes) ((start, h1 io start bs few homes) ∷ rest)
      ∙ unfold replay in
        refl
        ∙ ap (replay (base io start bs few homes)) rest-pairs
        ∙ replay-append (base io start bs few homes) P last
        ∙ replay-one (replay (base io start bs few homes) P) start (h2 io start bs few homes)

  pub installed : (b : ℕ) → Outside start log_blocks b → replay io.disk all b ≡ New b
  installed b o =
      ap (λ d. d b) disk-final
      ∙ update_ne (replay (base io start bs few homes) P) start b (h2 io start bs few homes) (ne o)
      ∙ replay-pairs bs (c io start bs few homes) (base io start bs few homes) b
      ∙ ap (λ x. if logged b bs then c io start bs few homes b else x)
          (base-frame io start bs few homes b o)
      ∙ unfold c in refl
    where
      ne : Outside start log_blocks b → start ≢ b
      ne o = omega arith

  pub erased : replay io.disk all start 0 ≡ 0
  erased =
      ap (λ d. d start 0) disk-final
      ∙ ap (λ x. x 0)
          (update_self (replay (base io start bs few homes) P) start (h2 io start bs few homes))
      ∙ unfold h2 in (head_block_count _ [])

-- The disk after the first `j` of the disk writes that `commit` makes.
abbrev pub crashed : Log → ℕ → ℕ → Block
crashed l j = replay l.io.disk (take j (commit l).io.writes)

-- Whenever the machine stops during `commit`, the next boot's recovery gives every block outside
-- the log its value from before the transaction, if fewer writes were done than the transaction has
-- blocks plus one, and otherwise its value from after it: a logged block the contents of its
-- buffer, any other the old contents. The log is well formed and not empty, its header on disk is
-- empty, and `writes` starts with `commit`.
pub crash_atomic :
    (l : Log) (j b : ℕ)
    → IsLog l
    → 0 < length l.lh
    → l.io.disk l.start 0 ≡ 0
    → l.io.writes ≡ []
    → Outside l.start log_blocks b
    → recovered l.start (crashed l j) b ≡ (
        if ltb (length l.lh) j
        then (if logged b l.lh then view l.io b else l.io.disk b)
        else l.io.disk b)
crash_atomic l j b v some_left e new o =
    ap (λ ws. recovered l.start (replay l.io.disk (take j ws)) b) trace
    ∙ crash_lem l.io l.start l.lh v.few v.homes j b e o
  where
    trace : (commit l).io.writes ≡ all l.io l.start l.lh v.few v.homes
    trace =
        (commit-Did l v some_left).writes
        ∙ ap (λ ws. ws ++ commit_writes (view l.io) l.start l.lh) new
        ∙ all_lem l.io l.start l.lh v.few v.homes

-- `commit` leaves each logged block on disk as its buffer has it, every other block outside the
-- log as it was, and the header on disk empty.
pub commit-installs :
    (l : Log) (b : ℕ)
    → IsLog l
    → 0 < length l.lh
    → Outside l.start log_blocks b
    → ((commit l).io.disk b ≡ (if logged b l.lh then view l.io b else l.io.disk b))
      × ((commit l).io.disk l.start 0 ≡ 0)
      × ((commit l).lh ≡ [])
commit-installs l b v some_left o = (
  ap (λ d. d b) whole ∙ installed l.io l.start l.lh v.few v.homes b o,
  ap (λ d. d l.start 0) whole ∙ erased l.io l.start l.lh v.few v.homes,
  unfold commit in (rw (lt→ltb 0 (length l.lh) some_left)),
)
  where
    whole : (commit l).io.disk ≡ replay l.io.disk (all l.io l.start l.lh v.few v.homes)
    whole =
        (commit-Did l v some_left).disk
        ∙ ap (replay l.io.disk) (all_lem l.io l.start l.lh v.few v.homes)
