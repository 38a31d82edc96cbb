-- ===== src/Base/Chain.antt =====
-- The chain of calls that return (value, error): the first error is returned.
use architect_networking.Base.Results.{Except, ok, err}

infixl 5 ◌>>=◌
abbrev pub ◌>>=◌ {ℓ} : {E A B : Type ℓ} → Except E A → (A → Except E B) → Except E B
err e >>= f = err e
ok a >>= f = f a
