-- ===== src/Log/Commit.antt =====
-- kernel/log.c: the disk writes of `write_log`, `write_head`, `install_trans` and `commit`.
use os_study.Prelude.{
  ℕ, suc, ◌+◌, ◌≤◌, ◌<◌, ◌≡◌, ◌≢◌, ◌⊎◌, refl, ap, ap₂, subst, ◌∙◌, Bool, true, false, List, [], ◌∷◌,
  ◌++◌, map, arith, update, length, All, update_ne, lt→ltb,
}
use os_study.Log.{Log, head_block, write_head, write_log_from, install_from, commit, log_blocks}
use os_study.Log.Disk.{
  Block, Io, view, bwrite, bunpin, replay, replay-one, Did, Did-none, Did-one, Did-append,
  Did-bunpin, view-bwrite,
}

-- Block `b` lies outside the log's `size` data blocks and its header.
abbrev pub Outside : ℕ → ℕ → ℕ → Type 0
Outside start size b = (b < start) ⊎ (start + size < b)

-- The writes of `write_log`: the contents `xs`, from data block `tail` on.
unfoldable pub slots : ℕ → ℕ → List Block → List (ℕ × Block)
slots start tail [] = []
slots start tail (x ∷ xs) = (start + tail + 1, x) ∷ slots start (tail + 1) xs

-- The writes of `install_trans`, from what the data blocks hold.
unfoldable pub installs : (ℕ → Block) → ℕ → ℕ → List ℕ → List (ℕ × Block)
installs f start tail [] = []
installs f start tail (b ∷ bs) = (b, f (start + tail + 1)) ∷ installs f start (tail + 1) bs

map-update :
    (f : ℕ → Block) (b : ℕ) (x : Block) (bs : List ℕ)
    → All (λ c. b ≢ c) bs
    → map (update f b x) bs ≡ map f bs
map-update f b x [] h = refl
map-update f b x (c ∷ bs) h = ap₂ ◌∷◌ (update_ne f b c x h.0) (map-update f b x bs h.1)

Outside-ne :
    (start size tail : ℕ) (bs : List ℕ)
    → tail < size
    → All (Outside start size) bs
    → All (λ c. start + tail + 1 ≢ c) bs
Outside-ne start size tail [] h o = tt
Outside-ne start size tail (b ∷ bs) h o = (apart o.0, Outside-ne start size tail bs h o.1)
  where
    apart : Outside start size b → start + tail + 1 ≢ b
    apart o = omega arith

pub write_log_from-Did :
    (bs : List ℕ) (io : Io) (start size tail : ℕ)
    → tail + length bs ≤ size
    → All (Outside start size) bs
    → Did io (slots start tail (map (view io) bs)) (write_log_from io start tail bs)
unfolding write_log_from slots
write_log_from-Did [] io start size tail h o = Did-none io
write_log_from-Did (b ∷ bs) io start size tail h o =
    let io' = bwrite io (start + tail + 1) (view io b) in
    let same : map (view io') bs ≡ map (view io) bs =
      ap (λ f. map f bs) (view-bwrite io (start + tail + 1) (view io b))
      ∙ map-update (view io) (start + tail + 1) (view io b) bs
          (Outside-ne start size tail bs (omega arith) o.1) in
    let rest = write_log_from-Did bs io' start size (tail + 1) (omega arith) o.1 in
    Did-append io io' (write_log_from io' start (tail + 1) bs) ((start + tail + 1, view io b) ∷ [])
      (slots start (tail + 1) (map (view io) bs)) (Did-one io (start + tail + 1) (view io b))
      (subst (λ xs. Did io' (slots start (tail + 1) xs) (write_log_from io' start (tail + 1) bs))
        same rest)

pub installs-update :
    (bs : List ℕ) (f : ℕ → Block) (start size tail b : ℕ) (x : Block)
    → tail + length bs ≤ size
    → Outside start size b
    → installs (update f b x) start tail bs ≡ installs f start tail bs
unfolding installs
installs-update [] f start size tail b x h o = refl
installs-update (c ∷ bs) f start size tail b x h o =
    ap₂ ◌∷◌ (ap (λ y. (c, y)) (update_ne f b (start + tail + 1) x (apart o)))
      (installs-update bs f start size (tail + 1) b x (omega arith) o)
  where
    apart : Outside start size b → b ≢ start + tail + 1
    apart o = omega arith

-- One round of `install_trans`, which writes `b` and leaves `io'`, and the rounds after it.
install_step :
    (bs : List ℕ) (io io' last : Io) (start size tail b : ℕ)
    → tail + suc (length bs) ≤ size
    → Outside start size b
    → Did io ((b, view io (start + tail + 1)) ∷ []) io'
    → Did io' (installs (view io') start (tail + 1) bs) last
    → Did io ((b, view io (start + tail + 1)) ∷ installs (view io) start (tail + 1) bs) last
install_step bs io io' last start size tail b h o one rest =
    Did-append io io' last ((b, x) ∷ []) (installs (view io) start (tail + 1) bs) one
      (subst (λ ws. Did io' ws last) same rest)
  where
    x : Block
    x = view io (start + tail + 1)

    same : installs (view io') start (tail + 1) bs ≡ installs (view io) start (tail + 1) bs
    same =
        ap (λ f. installs f start (tail + 1) bs) (one.seen ∙ replay-one (view io) b x)
        ∙ installs-update bs (view io) start size (tail + 1) b x (omega arith) o

pub install_from-Did :
    (bs : List ℕ) (r : Bool) (io : Io) (start size tail : ℕ)
    → tail + length bs ≤ size
    → All (Outside start size) bs
    → Did io (installs (view io) start tail bs) (install_from r io start tail bs)
unfolding install_from installs
install_from-Did [] r io start size tail h o = Did-none io
install_from-Did (b ∷ bs) true io start size tail h o =
    let x = view io (start + tail + 1) in
    let io' = bwrite io b x in
    install_step bs io io' (install_from true io' start (tail + 1) bs) start size tail b
      (omega arith) o.0 (Did-one io b x)
      (install_from-Did bs true io' start size (tail + 1) (omega arith) o.1)
install_from-Did (b ∷ bs) false io start size tail h o =
    let x = view io (start + tail + 1) in
    let io' = bunpin (bwrite io b x) b in
    install_step bs io io' (install_from false io' start (tail + 1) bs) start size tail b
      (omega arith) o.0 (Did-bunpin io (bwrite io b x) b ((b, x) ∷ []) (Did-one io b x))
      (install_from-Did bs false io' start size (tail + 1) (omega arith) o.1)

pub write_head-Did :
    (l : Log) → Did l.io ((l.start, head_block (view l.io l.start) l.lh) ∷ []) (write_head l).io
unfolding write_head
write_head-Did l = Did-one l.io l.start (head_block (view l.io l.start) l.lh)

-- The log is well formed: its blocks are few, and none lies in the log itself.
pub record IsLog (l : Log) : Type 0 where
  pub few : length l.lh ≤ log_blocks
  pub homes : All (Outside l.start log_blocks) l.lh

-- What `commit` writes, for the contents `f` of the buffers: the blocks, the header that commits
-- them, the blocks again in their places, and the empty header.
unfoldable pub commit_writes : (ℕ → Block) → ℕ → List ℕ → List (ℕ × Block)
commit_writes f start bs =
    let ws = slots start 0 (map f bs) in
    let f1 = replay f ws in
    let h1 = head_block (f1 start) bs in
    let f2 = update f1 start h1 in
    let is = installs f2 start 0 bs in
    let h2 = head_block (replay f2 is start) [] in
    ws ++ (((start, h1) ∷ []) ++ (is ++ ((start, h2) ∷ [])))

abbrev head_io : Io → ℕ → List ℕ → Io
head_io io start lh = bwrite io start (head_block (view io start) lh)

abbrev log_io : Io → ℕ → List ℕ → Io
log_io io start lh = write_log_from io start 0 lh

commit-io :
    (l : Log)
    → 0 < length l.lh
    → (commit l).io
      ≡ head_io
          (install_from false (head_io (log_io l.io l.start l.lh) l.start l.lh) l.start 0 l.lh)
          l.start
          []
unfolding commit
commit-io l some_left = rw (lt→ltb 0 (length l.lh) some_left)

module _ (io : Io) (start : ℕ) (bs : List ℕ) where
  abbrev ws : List (ℕ × Block)
  ws = slots start 0 (map (view io) bs)

  abbrev f1 : ℕ → Block
  f1 = replay (view io) ws

  abbrev h1 : Block
  h1 = head_block (f1 start) bs

  abbrev f2 : ℕ → Block
  f2 = update f1 start h1

  abbrev is : List (ℕ × Block)
  is = installs f2 start 0 bs

  abbrev h2 : Block
  h2 = head_block (replay f2 is start) []

  abbrev io2 : Io
  io2 = head_io (log_io io start bs) start bs

  abbrev io3 : Io
  io3 = install_from false io2 start 0 bs

  commit_io-Did :
      length bs ≤ log_blocks
      → All (Outside start log_blocks) bs
      → Did io (ws ++ (((start, h1) ∷ []) ++ (is ++ ((start, h2) ∷ [])))) (head_io io3 start [])
  commit_io-Did few homes =
      Did-append io io1 (head_io io3 start []) ws (((start, h1) ∷ []) ++ (is ++ ((start, h2) ∷ [])))
        d1
        (Did-append io1 io2 (head_io io3 start []) ((start, h1) ∷ []) (is ++ ((start, h2) ∷ [])) d2
          (Did-append io2 io3 (head_io io3 start []) is ((start, h2) ∷ []) d3 d4))
    where
      io1 : Io
      io1 = log_io io start bs

      d1 : Did io ws io1
      d1 = write_log_from-Did bs io start log_blocks 0 (omega arith) homes

      d2 : Did io1 ((start, h1) ∷ []) io2
      d2 =
          subst (λ f. Did io1 ((start, head_block (f start) bs) ∷ []) io2) d1.seen
            (Did-one io1 start (head_block (view io1 start) bs))

      e2 : view io2 ≡ f2
      e2 = d2.seen ∙ replay-one (view io1) start h1 ∙ ap (λ f. update f start h1) d1.seen

      d3 : Did io2 is io3
      d3 =
          subst (λ f. Did io2 (installs f start 0 bs) io3) e2
            (install_from-Did bs false io2 start log_blocks 0 (omega arith) homes)

      d4 : Did io3 ((start, h2) ∷ []) (head_io io3 start [])
      d4 =
          subst (λ f. Did io3 ((start, head_block (f start) []) ∷ []) (head_io io3 start []))
            (d3.seen ∙ ap (λ f. replay f is) e2)
            (Did-one io3 start (head_block (view io3 start) []))

pub commit-Did :
    (l : Log)
    → IsLog l
    → 0 < length l.lh
    → Did l.io (commit_writes (view l.io) l.start l.lh) (commit l).io
unfolding commit_writes
commit-Did l v some_left =
    rw (commit-io l some_left) (commit_io-Did l.io l.start l.lh v.few v.homes)
