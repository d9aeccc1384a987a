-- ===== src/Prelude/Results.antt =====
-- What a kernel function can do: return, panic, or wait for another CPU or process.
use Prim.Native.String.{String}
use mathlib.Core.Path.{◌≡◌, refl}

pub data Outcome {ℓ} (A : Type ℓ) : Type ℓ where
  ok : A → Outcome A
  panic : String → Outcome A
  blocked : Outcome A

infixl 5 ◌>>=◌
abbrev pub ◌>>=◌ {ℓ κ} : {A : Type ℓ} {B : Type κ} → Outcome A → (A → Outcome B) → Outcome B
ok a >>= f = f a
panic s >>= f = panic s
blocked >>= f = blocked

-- When a sequence returns, its first part has returned too.
pub ok_of_bind {ℓ κ} :
    {B : Type κ} {y : B} {A : Type ℓ} (out : Outcome A) (go : A → Outcome B)
    → (out >>= go) ≡ ok y
    → (x : A) × (go x ≡ ok y) × (out ≡ ok x)
ok_of_bind blocked go e = absurd (cc)
ok_of_bind (panic why) go e = absurd (cc)
ok_of_bind (ok x) go e = (x, e, refl)

pub ok-injective {ℓ} : {A : Type ℓ} {a b : A} → ok a ≡ ok b → a ≡ b
ok-injective h = cc
