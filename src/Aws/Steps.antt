-- ===== src/Aws/Steps.antt =====
-- Reasoning about a chain of calls.
use architect_networking.Base.{◌≡◌, ◌⊎◌, inl, inr, refl, List, Outcome, done, fail, panic}
use architect_networking.Aws.{Call, AwsError, Aws, ◌>>=◌}

-- A chain that returns has a first step that returns.
pub bind_step :
    {A B : Type 0} (f : A → Aws B) (b : B) (r : Outcome AwsError A) (k : List Call)
    → (((λ (_ : List Call). (r, k)) >>= f) k).0 ≡ done b
    → (a : A) × (r ≡ done a) × ((f a k).0 ≡ done b)
bind_step f b (done a) k d = (a, refl, d)
bind_step f b (fail e) k d = absurd (cc)
bind_step f b panic k d = absurd (cc)

-- A chain that fails has a first step that fails so, or one that returns before the failure.
pub bind_fails :
    {A B : Type 0} (f : A → Aws B) (e : AwsError) (r : Outcome AwsError A) (k j : List Call)
    → ((λ (_ : List Call). (r, k)) >>= f) k ≡ (fail e, j)
    → ((r ≡ fail e) × (k ≡ j)) ⊎ ((a : A) × (r ≡ done a) × (f a k ≡ (fail e, j)))
bind_fails f e (done a) k j d = inr (a, refl, d)
bind_fails f e (fail x) k j d = inl (cc, cc)
bind_fails f e panic k j d = absurd (cc)
