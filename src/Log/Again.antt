-- ===== src/Log/Again.antt =====
-- kernel/log.c: a crash during recovery itself.
use os_study.Prelude.{
  ℕ, zero, suc, ◌+◌, ◌-◌, ◌≤◌, ◌≡◌, ◌≢◌, inl, inr, refl, ap, sym, ◌∙◌, Bool, Bool-cases, true,
  false, List, [], ◌∷◌, ◌++◌, arith, update, update_ne, update_self, length, All, ◌==◌, ◌||◌, take,
  length-append,
}
use native.Mathlib.Decide.{dec_le}
use mathlib.Core.List.{append-nil}
use os_study.Log.{head_block, get_words, log_blocks, install_from, initlog, recover_from_log}
use os_study.Log.Disk.{Block, view, bwrite, replay, replay-one, replay-append}
use os_study.Log.Head.{head_block_count}
use os_study.Log.Replay.{take-append, take-all, take-none}
use os_study.Log.Commit.{Outside, installs, installs-update, install_from-Did}
use os_study.Log.Crash.{booted, recovered, header_of, recovered_lem, recovered-empty}

-- Some write of `ws` goes to block `b`.
abbrev hits : ℕ → List (ℕ × Block) → Bool
hits b [] = false
hits b ((a, x) ∷ ws) = (a == b) || hits b ws

replay-miss :
    (ws : List (ℕ × Block)) (f : ℕ → Block) (b : ℕ) → hits b ws ≡ false → replay f ws b ≡ f b
unfolding replay
replay-miss [] f b h = refl
replay-miss ((a, x) ∷ ws) f b h = ground (arith, replay-miss ws (update f a x) b)

replay-hit :
    (ws : List (ℕ × Block)) (f g : ℕ → Block) (b : ℕ)
    → hits b ws ≡ true
    → replay f ws b ≡ replay g ws b
unfolding replay
replay-hit [] f g b h = cc
replay-hit ((a, x) ∷ ws) f g b h = ground (
  arith,
  replay-hit ws (update f a x) (update g a x) b,
  replay-miss ws (update f a x) b,
  replay-miss ws (update g a x) b,
)

hits-take : (k : ℕ) (ws : List (ℕ × Block)) (b : ℕ) → hits b ws ≡ false → hits b (take k ws) ≡ false
hits-take zero ws b h = refl
hits-take (suc k) [] b h = refl
hits-take (suc k) ((a, x) ∷ ws) b h = ground (arith, hits-take k ws b)

-- To do the first writes, and then all of them, is to do all of them.
replay-again :
    (k : ℕ) (ws : List (ℕ × Block)) (f : ℕ → Block) (b : ℕ)
    → replay (replay f (take k ws)) ws b ≡ replay f ws b
replay-again k ws f b = elim (Bool-cases (hits b ws)) [
  | inl h ↦ replay-hit ws (replay f (take k ws)) f b h
  | inr h ↦
      replay-miss ws (replay f (take k ws)) b h
      ∙ replay-miss (take k ws) f b (hits-take k ws b h)
      ∙ sym (replay-miss ws f b h)
]

-- Installing some blocks leaves the header and the log's data blocks as they are.
installs-Outside :
    (cs : List ℕ) (k : ℕ) (g f : ℕ → Block) (start size tail : ℕ) (bs : List ℕ)
    → length bs ≤ size
    → All (Outside start size) cs
    → (installs (replay f (take k (installs g start tail cs))) start 0 bs ≡ installs f start 0 bs)
      × (replay f (take k (installs g start tail cs)) start ≡ f start)
unfolding installs replay
installs-Outside [] zero g f start size tail bs h o = (refl, refl)
installs-Outside [] (suc k) g f start size tail bs h o = (refl, refl)
installs-Outside (x ∷ cs) zero g f start size tail bs h o = (refl, refl)
installs-Outside (x ∷ cs) (suc k) g f start size tail bs h o =
    let y = g (start + tail + 1) in
    let ih = installs-Outside cs k g (update f x y) start size (tail + 1) bs h o.1 in
    (
      ih.0 ∙ installs-update bs f start size 0 x y (omega arith) o.0,
      ih.1 ∙ update_ne f x start y (apart o.0),
    )
  where
    apart : Outside start size x → x ≢ start
    apart o = omega arith

length-installs :
    (f : ℕ → Block) (start tail : ℕ) (bs : List ℕ) → length (installs f start tail bs) ≡ length bs
unfolding installs
length-installs f start tail [] = refl
length-installs f start tail (b ∷ bs) = ap suc (length-installs f start (tail + 1) bs)

-- What recovery writes: the logged blocks in their places, and the empty header.
recovery-writes :
    (start : ℕ) (d : ℕ → Block)
    → length (header_of d start) ≤ log_blocks
    → All (Outside start log_blocks) (header_of d start)
    → (h : Block) × ((initlog start (booted d)).io.writes
        ≡ installs d start 0 (header_of d start) ++ ((start, h) ∷ []))
      × (h 0 ≡ 0)
unfolding initlog recover_from_log view
recovery-writes start d few homes =
    let bs = header_of d start in
    let io = install_from true (booted d) start 0 bs in
    let did = install_from-Did bs true (booted d) start log_blocks 0 (omega arith) homes in
    let h = head_block (view io start) [] in
    (
      h,
      unfold bwrite in (ap (λ ws. ws ++ ((start, h) ∷ [])) did.writes),
      head_block_count (view io start) [],
    )

-- Recovery that is itself cut off after any number of its disk writes, and run again at the next
-- boot, gives every block outside the log what an uninterrupted recovery gives it. The header on
-- disk lists few blocks, none of them in the log.
pub recovery_again :
    (start : ℕ) (d : ℕ → Block) (j b : ℕ)
    → length (header_of d start) ≤ log_blocks
    → All (Outside start log_blocks) (header_of d start)
    → Outside start log_blocks b
    → recovered start (replay d (take j (initlog start (booted d)).io.writes)) b
      ≡ recovered start d b
recovery_again start d j b few homes o =
    ap (λ ws. recovered start (replay d (take j ws)) b) w.1 ∙ elim (dec_le j (length bs)) [
      | yes h ↦ ap (λ ws. recovered start (replay d ws) b) (early h) ∙ partly
      | no h ↦ ap (λ e. recovered start e b) (late h) ∙ wholly
    ]
  where
    bs : List ℕ
    bs = header_of d start

    w :
        (h : Block) × ((initlog start (booted d)).io.writes
          ≡ installs d start 0 (header_of d start) ++ ((start, h) ∷ []))
        × (h 0 ≡ 0)
    w = recovery-writes start d few homes

    is : List (ℕ × Block)
    is = installs d start 0 bs

    ne : Outside start log_blocks b → b ≢ start
    ne o = omega arith

    early : j ≤ length bs → take j (is ++ ((start, w.0) ∷ [])) ≡ take j is
    early h =
        take-append j is ((start, w.0) ∷ [])
        ∙ ap (λ l. take j is ++ l)
            (take-none (j - length is) _ (omega (arith, length-installs d start 0 bs)))
        ∙ append-nil (take j is)

    late :
        ¬ (j ≤ length bs)
        → replay d (take j (is ++ ((start, w.0) ∷ []))) ≡ update (replay d is) start w.0
    late h =
        ap (replay d) (
          take-all j (is ++ ((start, w.0) ∷ []))
            (omega (arith, length-append is ((start, w.0) ∷ []), length-installs d start 0 bs)))
        ∙ replay-append d is ((start, w.0) ∷ [])
        ∙ replay-one (replay d is) start w.0

    e : ℕ → Block
    e = replay d (take j is)

    kept : (installs e start 0 bs ≡ is) × (e start ≡ d start)
    kept = installs-Outside bs j d d start log_blocks 0 bs few homes

    listed : header_of e start ≡ bs
    listed = ap (λ x. get_words x 1 (x 0)) kept.1

    partly : recovered start e b ≡ recovered start d b
    partly =
        recovered_lem start e b (rw listed few) (rw listed homes) (ne o)
        ∙ ap (λ l. replay e (installs e start 0 l) b) listed
        ∙ ap (λ ws. replay e ws b) kept.0
        ∙ replay-again j is d b
        ∙ sym (recovered_lem start d b few homes (ne o))

    wholly : recovered start (update (replay d is) start w.0) b ≡ recovered start d b
    wholly =
        recovered-empty start (update (replay d is) start w.0) b
          (ap (λ x. x 0) (update_self (replay d is) start w.0) ∙ w.2) (ne o)
        ∙ update_ne (replay d is) start b w.0 (λ q. ne o (sym q))
        ∙ sym (recovered_lem start d b few homes (ne o))
