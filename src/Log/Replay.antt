-- ===== src/Log/Replay.antt =====
-- kernel/log.c: what first parts of the writes of `commit` leave on the disk.
use os_study.Prelude.{
  ℕ, zero, suc, ◌+◌, ◌-◌, ◌≤◌, ◌<◌, ◌≡◌, ◌≢◌, ◌⊎◌, inl, refl, ap, ap₂, sym, ◌∙◌, false, List, [],
  ◌∷◌, ◌++◌, map, arith, update, length, All, if◌then◌else◌, update_ne, update_self, take,
}
use os_study.Log.{logged}
use os_study.Log.Disk.{Block, replay}
use os_study.Log.Commit.{Outside, slots, installs, installs-update}

module _ {ℓ} {A : Type ℓ} where
  pub take-append :
      (j : ℕ) (xs ys : List A) → take j (xs ++ ys) ≡ take j xs ++ take (j - length xs) ys
  take-append zero xs ys = let e : 0 - length xs ≡ 0 = omega arith in rw e
  take-append (suc j) [] ys = let e : suc j - 0 ≡ suc j = omega arith in rw e
  take-append (suc j) (x ∷ xs) ys =
      let e : suc j - suc (length xs) ≡ j - length xs = omega arith in
      rw e (ap (λ l. x ∷ l) (take-append j xs ys))

  pub take-all : (j : ℕ) (xs : List A) → length xs ≤ j → take j xs ≡ xs
  take-all zero [] h = refl
  take-all zero (x ∷ xs) h = absurd (omega arith)
  take-all (suc j) [] h = refl
  take-all (suc j) (x ∷ xs) h = ap (λ l. x ∷ l) (take-all j xs (omega arith))

  pub take-none : (j : ℕ) (xs : List A) → j ≡ 0 → take j xs ≡ []
  take-none zero xs h = refl
  take-none (suc j) xs h = absurd (omega arith)

pub length-slots : (start tail : ℕ) (xs : List Block) → length (slots start tail xs) ≡ length xs
unfolding slots
length-slots start tail [] = refl
length-slots start tail (x ∷ xs) = ap suc (length-slots start (tail + 1) xs)

-- Writes to data blocks from `tail` on leave every block alone that is none of them.
pub slots-frame :
    (xs : List Block) (j : ℕ) (f : ℕ → Block) (start tail b : ℕ)
    → (b ≤ start + tail) ⊎ (start + tail + length xs < b)
    → replay f (take j (slots start tail xs)) b ≡ f b
unfolding slots replay
slots-frame [] zero f start tail b o = refl
slots-frame [] (suc j) f start tail b o = refl
slots-frame (x ∷ xs) zero f start tail b o = refl
slots-frame (x ∷ xs) (suc j) f start tail b o =
    slots-frame xs j (update f (start + tail + 1) x) start (tail + 1) b (grind arith)
    ∙ update_ne f (start + tail + 1) b x (apart o)
  where
    apart : (b ≤ start + tail) ⊎ (start + tail + suc (length xs) < b) → start + tail + 1 ≢ b
    apart o = omega arith

pub slots-frame_all :
    (xs : List Block) (f : ℕ → Block) (start tail b : ℕ)
    → (b ≤ start + tail) ⊎ (start + tail + length xs < b)
    → replay f (slots start tail xs) b ≡ f b
slots-frame_all xs f start tail b o =
    ap (λ ws. replay f ws b)
      (sym (take-all (length xs) (slots start tail xs) (omega (arith, length-slots start tail xs))))
    ∙ slots-frame xs (length xs) f start tail b o

-- Each block with its new contents.
pub pairs : (ℕ → Block) → List ℕ → List (ℕ × Block)
pairs c [] = []
pairs c (b ∷ bs) = (b, c b) ∷ pairs c bs

pub length-pairs : (c : ℕ → Block) (bs : List ℕ) → length (pairs c bs) ≡ length bs
unfolding pairs
length-pairs c [] = refl
length-pairs c (b ∷ bs) = ap suc (length-pairs c bs)

-- What `write_log` put into the data blocks is what `install_trans` takes from them.
pub installs-slots :
    (bs : List ℕ) (c g : ℕ → Block) (start tail : ℕ)
    → installs (replay g (slots start tail (map c bs))) start tail bs ≡ pairs c bs
unfolding installs slots replay pairs
installs-slots [] c g start tail = refl
installs-slots (b ∷ bs) c g start tail =
    ap₂ ◌∷◌
      (ap (λ x. (b, x))
        (slots-frame_all (map c bs) (update g (start + tail + 1) (c b)) start (tail + 1)
            (start + tail + 1) (inl (omega arith))
          ∙ update_self g (start + tail + 1) (c b)))
      (installs-slots bs c (update g (start + tail + 1) (c b)) start (tail + 1))

pub installs-header :
    (bs : List ℕ) (f : ℕ → Block) (start tail : ℕ) (x : Block)
    → installs (update f start x) start tail bs ≡ installs f start tail bs
unfolding installs
installs-header [] f start tail x = refl
installs-header (b ∷ bs) f start tail x =
    ap₂ ◌∷◌ (ap (λ y. (b, y)) (update_ne f start (start + tail + 1) x (omega arith)))
      (installs-header bs f start (tail + 1) x)

-- Installing some of the blocks leaves the log's data blocks as they are.
pub installs-pairs :
    (cs : List ℕ) (k : ℕ) (c f : ℕ → Block) (bs : List ℕ) (start size : ℕ)
    → length bs ≤ size
    → All (Outside start size) cs
    → installs (replay f (take k (pairs c cs))) start 0 bs ≡ installs f start 0 bs
unfolding pairs replay
installs-pairs [] zero c f bs start size h o = refl
installs-pairs [] (suc k) c f bs start size h o = refl
installs-pairs (x ∷ cs) zero c f bs start size h o = refl
installs-pairs (x ∷ cs) (suc k) c f bs start size h o =
    installs-pairs cs k c (update f x (c x)) bs start size h o.1
    ∙ installs-update bs f start size 0 x (c x) (omega arith) o.0

pub pairs-header :
    (cs : List ℕ) (k : ℕ) (c f : ℕ → Block) (start size : ℕ)
    → All (Outside start size) cs
    → replay f (take k (pairs c cs)) start ≡ f start
unfolding pairs replay
pairs-header [] zero c f start size o = refl
pairs-header [] (suc k) c f start size o = refl
pairs-header (x ∷ cs) zero c f start size o = refl
pairs-header (x ∷ cs) (suc k) c f start size o =
    pairs-header cs k c (update f x (c x)) start size o.1 ∙ update_ne f x start (c x) (apart o.0)
  where
    apart : Outside start size x → x ≢ start
    apart o = omega arith

pub pairs-frame :
    (cs : List ℕ) (k : ℕ) (c f : ℕ → Block) (b : ℕ)
    → logged b cs ≡ false
    → replay f (take k (pairs c cs)) b ≡ f b
unfolding pairs replay
pairs-frame [] zero c f b o = refl
pairs-frame [] (suc k) c f b o = refl
pairs-frame (x ∷ cs) zero c f b o = refl
pairs-frame (x ∷ cs) (suc k) c f b o = ground (arith, pairs-frame cs k c (update f x (c x)) b)

-- All blocks installed: the new contents where a block is logged, the old elsewhere.
pub replay-pairs :
    (cs : List ℕ) (c f : ℕ → Block) (b : ℕ)
    → replay f (pairs c cs) b ≡ (if logged b cs then c b else f b)
unfolding pairs replay
replay-pairs [] c f b = refl
replay-pairs (x ∷ cs) c f b = ground (arith, replay-pairs cs c (update f x (c x)) b)
