-- ===== src/Pipe/Ring.antt =====
-- kernel/pipe.c: the ring as a queue, with 32-bit counters that wrap.
use os_study.Prelude.{
  ℕ, zero, suc, ◌+◌, ◌-◌, ◌≤◌, ◌<◌, ◌%◌, ◌≡◌, ◌≢◌, refl, ap, false, List, [], ◌∷◌, ◌++◌, arith,
  ◌==◌, update, length, update_ne,
}
use os_study.Pipe.{Pipe, pipe_size, uint_mod, put, front, advance, is_full, is_empty}

-- The number of bytes held: `nwrite - nread` as C computes it.
abbrev pub count : Pipe → ℕ
count p = (p.nwrite + uint_mod - p.nread) % uint_mod

pub record IsValid (p : Pipe) : Type 0 where
  pub read_small : p.nread < uint_mod
  pub write_small : p.nwrite < uint_mod
  pub fits : count p ≤ pipe_size

-- The `n` bytes that readers will see from counter value `r` on.
unfoldable pub window : (ℕ → ℕ) → ℕ → ℕ → List ℕ
window b r zero = []
window b r (suc n) = b (r % pipe_size) ∷ window b ((r + 1) % uint_mod) n

abbrev pub contents : Pipe → List ℕ
contents p = window p.bytes p.nread (count p)

pub length-window : (b : ℕ → ℕ) (r n : ℕ) → length (window b r n) ≡ n
unfolding window
length-window b r zero = refl
length-window b r (suc n) = ap suc (length-window b ((r + 1) % uint_mod) n)

window-update :
    (b : ℕ → ℕ) (r n i v : ℕ)
    → r < uint_mod
    → n < pipe_size
    → i ≡ (r + n) % pipe_size
    → window (update b i v) r (suc n) ≡ window b r n ++ (v ∷ [])
unfolding window
window-update b r zero i v hr hn e = ground arith
window-update b r (suc n) i v hr hn e = ground (
  arith,
  window-update b ((r + 1) % uint_mod) n i v,
  update_ne b i (r % pipe_size) v (omega arith),
)

window-pred :
    (b : ℕ → ℕ) (r n : ℕ)
    → n ≢ 0
    → window b r n ≡ b (r % pipe_size) ∷ window b ((r + 1) % uint_mod) (n - 1)
unfolding window
window-pred b r zero h = absurd (h refl)
window-pred b r (suc n) h =
    ap (λ k. b (r % pipe_size) ∷ window b ((r + 1) % uint_mod) k) (omega arith)

pub is_full_iff : (p : Pipe) → IsValid p → is_full p ≡ (count p == pipe_size)
is_full_iff p v = ground arith

pub is_empty_iff : (p : Pipe) → IsValid p → is_empty p ≡ (count p == 0)
is_empty_iff p v = ground arith

pub put-IsValid : (p : Pipe) (ch : ℕ) → IsValid p → is_full p ≡ false → IsValid (put p ch)
unfolding put
put-IsValid p ch v h = ground arith

pub contents-put :
    (p : Pipe) (ch : ℕ)
    → IsValid p
    → is_full p ≡ false
    → contents (put p ch) ≡ contents p ++ (ch ∷ [])
unfolding put
contents-put p ch v h =
    let n : count (put p ch) ≡ suc (count p) = ground arith in
    rw n (
      window-update p.bytes p.nread (count p) (p.nwrite % pipe_size) ch v.read_small (ground arith)
        (omega arith))

pub advance-IsValid : (p : Pipe) → IsValid p → is_empty p ≡ false → IsValid (advance p)
unfolding advance
advance-IsValid p v h = ground arith

pub contents-advance :
    (p : Pipe) → IsValid p → is_empty p ≡ false → contents p ≡ front p ∷ contents (advance p)
unfolding advance front
contents-advance p v h =
    let n : count (advance p) ≡ count p - 1 = ground arith in
    rw n (window-pred p.bytes p.nread (count p) (ground arith))
