-- ===== src/Log/Crash.antt =====
-- kernel/log.c: a crash between any two disk writes of `commit`, and the recovery at the next boot.
use os_study.Prelude.{
  ℕ, ◌+◌, ◌≤◌, ◌<◌, ◌≡◌, ◌≢◌, ◌⊎◌, inl, inr, refl, ap, sym, ◌∙◌, Bool-cases, true, List, [], map,
  arith, update, length, All, if◌then◌else◌, update_ne, update_self, none, take, length-map,
}
use os_study.Log.{
  head_block, get_words, install_from, recover_from_log, initlog, logged, log_blocks,
}
use os_study.Log.Disk.{Block, Io, view, bwrite, replay}
use os_study.Log.Head.{head_block_count, get_words-head_block}
use os_study.Log.Replay.{
  length-slots, slots-frame, slots-frame_all, pairs, installs-slots, installs-header,
  installs-pairs, pairs-header, pairs-frame, replay-pairs,
}
use os_study.Log.Commit.{Outside, slots, installs, install_from-Did}

-- The state at boot: nothing cached.
abbrev pub booted : (ℕ → Block) → Io
booted d = record { disk = d; cache = λ b. none; pins = λ b. 0; writes = [] }

-- The disk after `initlog` has run on the disk `d`.
pub recovered : ℕ → (ℕ → Block) → ℕ → Block
recovered start d = (initlog start (booted d)).io.disk

-- The blocks that the header of disk `d` lists.
abbrev pub header_of : (ℕ → Block) → ℕ → List ℕ
header_of d start = get_words (d start) 1 (d start 0)

pub recovered_lem :
    (start : ℕ) (d : ℕ → Block) (b : ℕ)
    → length (header_of d start) ≤ log_blocks
    → All (Outside start log_blocks) (header_of d start)
    → b ≢ start
    → recovered start d b ≡ replay d (installs d start 0 (header_of d start)) b
unfolding recovered initlog recover_from_log view bwrite
recovered_lem start d b few homes ne =
    let io = install_from true (booted d) start 0 (header_of d start) in
    let did =
      install_from-Did (header_of d start) true (booted d) start log_blocks 0 (omega arith) homes in
    update_ne io.disk start b _ (λ e. ne (sym e)) ∙ ap (λ f. f b) did.disk

-- With an empty header recovery changes no block but the header.
pub recovered-empty :
    (start : ℕ) (d : ℕ → Block) (b : ℕ) → d start 0 ≡ 0 → b ≢ start → recovered start d b ≡ d b
recovered-empty start d b e ne =
    recovered_lem start d b (rw none_listed (omega arith)) (rw none_listed tt) ne
    ∙ ap (λ bs. replay d (installs d start 0 bs) b) none_listed
    ∙ unfold installs replay in refl
  where
    none_listed : header_of d start ≡ []
    none_listed = ap (get_words (d start) 1) e ∙ unfold get_words in refl

-- With a full header recovery installs the blocks that it lists.
recovered-full :
    (start : ℕ) (d c : ℕ → Block) (bs : List ℕ) (b : ℕ)
    → length bs ≤ log_blocks
    → All (Outside start log_blocks) bs
    → header_of d start ≡ bs
    → installs d start 0 bs ≡ pairs c bs
    → b ≢ start
    → recovered start d b ≡ (if logged b bs then c b else d b)
recovered-full start d c bs b few homes listed slots_full ne =
    recovered_lem start d b (rw listed few) (rw listed homes) ne
    ∙ ap (λ l. replay d (installs d start 0 l) b) listed
    ∙ ap (λ ws. replay d ws b) slots_full
    ∙ replay-pairs bs c d b

module _ (io : Io) (start : ℕ) (bs : List ℕ) (few : length bs ≤ log_blocks)
    (homes : All (Outside start log_blocks) bs) where
  unfoldable pub c : ℕ → Block
  c = view io

  unfoldable pub ws : List (ℕ × Block)
  ws = slots start 0 (map c bs)

  unfoldable pub h1 : Block
  h1 = head_block (replay c ws start) bs

  unfoldable pub is : List (ℕ × Block)
  is = installs (update (replay c ws) start h1) start 0 bs

  unfoldable pub h2 : Block
  h2 = head_block (replay (update (replay c ws) start h1) is start) []

  pub length-ws : length ws ≡ length bs
  unfolding ws
  length-ws = length-slots start 0 (map c bs) ∙ length-map bs c

  pub is-pairs : is ≡ pairs c bs
  unfolding is ws
  is-pairs =
      installs-header bs (replay c (slots start 0 (map c bs))) start 0 h1
      ∙ installs-slots bs c c start 0

  -- The disk once the header has been written.
  unfoldable pub base : ℕ → Block
  base = update (replay io.disk ws) start h1

  pub base-frame : (b : ℕ) → Outside start log_blocks b → base b ≡ io.disk b
  unfolding base ws
  base-frame b o =
      update_ne (replay io.disk (slots start 0 (map c bs))) start b h1 (ne o)
      ∙ slots-frame_all (map c bs) io.disk start 0 b (far o)
    where
      ne : Outside start log_blocks b → start ≢ b
      ne o = omega arith

      far : Outside start log_blocks b → (b ≤ start + 0) ⊎ (start + 0 + length (map c bs) < b)
      far o = omega (arith, length-map bs c)

  -- A crash before the header is written.
  pub before :
      (j b : ℕ)
      → io.disk start 0 ≡ 0
      → Outside start log_blocks b
      → recovered start (replay io.disk (take j ws)) b ≡ io.disk b
  unfolding ws
  before j b e o =
      recovered-empty start (replay io.disk (take j ws)) b
        (ap (λ x. x 0) (slots-frame (map c bs) j io.disk start 0 start (inl (omega arith))) ∙ e)
        (ne o)
      ∙ slots-frame (map c bs) j io.disk start 0 b (far o)
    where
      ne : Outside start log_blocks b → b ≢ start
      ne o = omega arith

      far : Outside start log_blocks b → (b ≤ start + 0) ⊎ (start + 0 + length (map c bs) < b)
      far o = omega (arith, length-map bs c)

  -- A crash after the header is written, with `k` blocks installed.
  pub during :
      (k b : ℕ)
      → Outside start log_blocks b
      → recovered start (replay base (take k (pairs c bs))) b
        ≡ (if logged b bs then c b else io.disk b)
  during k b o = recovered-full start d c bs b few homes listed filled (ne o) ∙ ends
    where
      d : ℕ → Block
      d = replay base (take k (pairs c bs))

      ne : Outside start log_blocks b → b ≢ start
      ne o = omega arith

      head : d start ≡ h1
      head =
          pairs-header bs k c base start log_blocks homes
          ∙ unfold base in (update_self (replay io.disk ws) start h1)

      listed : header_of d start ≡ bs
      listed =
          ap (λ x. get_words x 1 (x 0)) head
          ∙ unfold h1 in (get_words-head_block (replay c ws start) bs)

      filled : installs d start 0 bs ≡ pairs c bs
      filled =
          installs-pairs bs k c base bs start log_blocks few homes
          ∙ unfold base in
            (installs-header bs (replay io.disk ws) start 0 h1)
            ∙ unfold ws in (installs-slots bs c io.disk start 0)

      ends : (if logged b bs then c b else d b) ≡ (if logged b bs then c b else io.disk b)
      ends = elim (Bool-cases (logged b bs)) [
        | inl in_log ↦ rw in_log
        | inr out ↦ rw out (pairs-frame bs k c base b out ∙ base-frame b o)
      ]

  -- A crash after the whole of `commit`.
  pub after :
      (b : ℕ)
      → Outside start log_blocks b
      → recovered start (update (replay base (pairs c bs)) start h2) b
        ≡ (if logged b bs then c b else io.disk b)
  after b o =
      recovered-empty start (update D start h2) b
        (ap (λ x. x 0) (update_self D start h2) ∙ unfold h2 in (head_block_count _ [])) (ne o)
      ∙ update_ne D start b h2 (λ e. ne o (sym e))
      ∙ replay-pairs bs c base b
      ∙ ap (λ x. if logged b bs then c b else x) (base-frame b o)
    where
      D : ℕ → Block
      D = replay base (pairs c bs)

      ne : Outside start log_blocks b → b ≢ start
      ne o = omega arith
