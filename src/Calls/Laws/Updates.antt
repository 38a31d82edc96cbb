-- ===== src/Calls/Laws/Updates.antt =====
-- Reading a map after one write to it.
use architect_networking.Base.{ℕ, ◌==◌, ◌≡◌, ◌≢◌, refl, sym, subst, inl, inr, arith, Bool-cases}
use architect_networking.Calls.{set_at}

module _ {ℓ} {A : Type ℓ} (f : ℕ → A) (k : ℕ) (a : A) where
  pub set_at_here : set_at f k a k ≡ a
  set_at_here = elim (Bool-cases (k == k)) [ inl e ↦ rw e refl | inr e ↦ absurd (ground arith) ]

  pub set_at_there : (j : ℕ) → j ≢ k → set_at f k a j ≡ f j
  set_at_there j n = elim (Bool-cases (j == k)) [
    | inl e ↦ absurd (n (ground arith))
    | inr e ↦ rw e refl
  ]

  -- What holds of the value written and of every value before holds of every value after.
  pub set_at_all {κ} :
      (P : ℕ → A → Type κ) → P k a → ((j : ℕ) → j ≢ k → P j (f j)) → (j : ℕ) → P j (set_at f k a j)
  set_at_all P h rest j = elim (Bool-cases (j == k)) [
    | inl e ↦ let j≡k : j ≡ k = ground arith in rw e (subst (λ i. P i a) (sym j≡k) h)
    | inr e ↦ rw e (rest j (λ q. ground arith))
  ]
