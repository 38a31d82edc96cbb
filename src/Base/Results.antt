-- ===== src/Base/Results.antt =====
-- The results of Go calls. `Except E A` is a pair (A, error) of which one part is read. `Outcome`
-- adds the panic that a nil dereference or a second close of a channel raises.
use mathlib.Core.Option.{Option, none, some}

pub data Except {ℓ} (E A : Type ℓ) : Type ℓ where
  ok : A → Except E A
  err : E → Except E A

pub data Outcome {ℓ} (E A : Type ℓ) : Type ℓ where
  done : A → Outcome E A
  fail : E → Outcome E A
  panic : Outcome E A

-- For `Option`, where `none` is a nil dereference.
infixl 5 ◌>>=◌
abbrev pub ◌>>=◌ {ℓ κ} : {A : Type ℓ} {B : Type κ} → Option A → (A → Option B) → Option B
none >>= f = none
some a >>= f = f a
