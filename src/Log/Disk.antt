-- ===== src/Log/Disk.antt =====
-- The disk and its buffer cache (kernel/bio.c and kernel/virtio_disk.c), as kernel/log.c uses them.
use os_study.Prelude.{
  ℕ, ◌+◌, ◌-◌, ◌%◌, ◌^◌, ◌≡◌, refl, ap, sym, ◌∙◌, fun_ext, Option, none, some, List, [], ◌∷◌, ◌++◌,
  arith, update,
}
use mathlib.Core.List.{append_assoc, append-nil}

abbrev pub Block : Type 0
Block = ℕ → ℕ

-- `pins` counts the references of `bpin`, as a `uint`.
pub record Io : Type 0 where
  pub disk : ℕ → Block
  pub cache : ℕ → Option Block
  pub pins : ℕ → ℕ
  pub writes : List (ℕ × Block)

abbrev pub cached_or : Option Block → Block → Block
cached_or none d = d
cached_or (some c) d = c

-- What `bread` returns.
unfoldable pub view : Io → ℕ → Block
view io b = cached_or (io.cache b) (io.disk b)

-- `bwrite` of a buffer that was read and given the contents `x`.
unfoldable pub bwrite : Io → ℕ → Block → Io
bwrite io b x = record io {
  disk = update io.disk b x;
  cache = update io.cache b (some x);
  writes = io.writes ++ ((b, x) ∷ []);
}

unfoldable pub bpin : Io → ℕ → Io
bpin io b = record io { pins = update io.pins b ((io.pins b + 1) % 2 ^ 32) }

unfoldable pub bunpin : Io → ℕ → Io
bunpin io b = record io { pins = update io.pins b ((io.pins b + 2 ^ 32 - 1) % 2 ^ 32) }

-- The writes `ws`, in order, over the blocks `f`.
unfoldable pub replay : (ℕ → Block) → List (ℕ × Block) → ℕ → Block
replay f [] = f
replay f ((b, x) ∷ ws) = replay (update f b x) ws

-- `io'` is `io` after the disk writes `ws`.
pub record Did (io : Io) (ws : List (ℕ × Block)) (io' : Io) : Type 0 where
  pub disk : io'.disk ≡ replay io.disk ws
  pub seen : view io' ≡ replay (view io) ws
  pub writes : io'.writes ≡ io.writes ++ ws

pub replay-append :
    (f : ℕ → Block) (ws vs : List (ℕ × Block)) → replay f (ws ++ vs) ≡ replay (replay f ws) vs
unfolding replay
replay-append f [] vs = refl
replay-append f ((b, x) ∷ ws) vs = replay-append (update f b x) ws vs

pub replay-one : (f : ℕ → Block) (b : ℕ) (x : Block) → replay f ((b, x) ∷ []) ≡ update f b x
unfolding replay
replay-one f b x = refl

pub view-bwrite : (io : Io) (b : ℕ) (x : Block) → view (bwrite io b x) ≡ update (view io) b x
unfolding view bwrite
view-bwrite io b x = fun_ext λ q. ground arith

pub view-bunpin : (io : Io) (b : ℕ) → view (bunpin io b) ≡ view io
unfolding view bunpin
view-bunpin io b = refl

pub Did-none : (io : Io) → Did io [] io
unfolding replay
Did-none io = record { disk = refl; seen = refl; writes = sym (append-nil io.writes) }

pub Did-one : (io : Io) (b : ℕ) (x : Block) → Did io ((b, x) ∷ []) (bwrite io b x)
unfolding replay
Did-one io b x = record {
  disk = unfold bwrite in refl;
  seen = view-bwrite io b x;
  writes = unfold bwrite in refl;
}

pub Did-append :
    (io io' io'' : Io) (ws vs : List (ℕ × Block))
    → Did io ws io'
    → Did io' vs io''
    → Did io (ws ++ vs) io''
Did-append io io' io'' ws vs d e = record {
  disk = e.disk ∙ ap (λ f. replay f vs) d.disk ∙ sym (replay-append io.disk ws vs);
  seen = e.seen ∙ ap (λ f. replay f vs) d.seen ∙ sym (replay-append (view io) ws vs);
  writes = e.writes ∙ ap (λ l. l ++ vs) d.writes ∙ append_assoc io.writes ws vs;
}

-- Pins are no matter.
pub Did-bunpin :
    (io io' : Io) (b : ℕ) (ws : List (ℕ × Block)) → Did io ws io' → Did io ws (bunpin io' b)
Did-bunpin io io' b ws d = record {
  disk = unfold bunpin in d.disk;
  seen = view-bunpin io' b ∙ d.seen;
  writes = unfold bunpin in d.writes;
}
