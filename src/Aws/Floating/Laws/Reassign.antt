-- ===== src/Aws/Floating/Laws/Reassign.antt =====
-- A fan-out makes each of its calls, and gathers the errors of those that fail.
use architect_networking.Base.{
  ℕ, zero, suc, Permᴰ, Outcome, ◌≡◌, refl, String, List, [], ◌∷◌, ◌++◌, arith, Option, none, some,
  done,
}
use architect_networking.Aws.{
  Ec2, Call, unassign, assign, AwsError, unassign_failed, assign_failed, tell,
}
use architect_networking.Aws.Floating.{each, arrange, insert_at, reassign_floating_ips}
use architect_networking.Aws.TakeOver.{unassign_ip, assign_ip}

-- The calls for a list, on top of the earlier ones.
abbrev pub pushed : (String → Call) → List String → List Call → List Call
pushed call [] h = h
pushed call (x ∷ xs) h = pushed call xs (call x ∷ h)

-- The errors of the calls for a list.
abbrev pub refused :
    (String → Call)
    → (List Call → String → Option String)
    → (String → String → AwsError)
    → List String
    → List Call
    → List AwsError
refused call reply wrap [] h = []
refused call reply wrap (x ∷ xs) h =
    let rest = refused call reply wrap xs (call x ∷ h) in
    elim (reply h x) [ none ↦ rest | some e ↦ wrap x e ∷ rest ]

pub each_lem :
    (call : String → Call) (reply : List Call → String → Option String)
    (wrap : String → String → AwsError) (xs : List String) (h : List Call)
    → each (λ x. tell (call x) (λ k. reply k x) (wrap x)) xs h
      ≡ (done (refused call reply wrap xs h), pushed call xs h)
unfolding each
each_lem call reply wrap [] h = refl
each_lem call reply wrap (x ∷ xs) h = ground (arith, each_lem call reply wrap xs (call x ∷ h))

same-Perm : (xs : List String) → Permᴰ xs xs
same-Perm [] = Permᴰ.nil
same-Perm (x ∷ xs) = Permᴰ.cons refl (same-Perm xs)

insert-Perm : (n : ℕ) (x : String) (ys : List String) → Permᴰ (x ∷ ys) (insert_at n x ys)
unfolding insert_at
insert-Perm zero x ys = same-Perm (x ∷ ys)
insert-Perm (suc n) x [] = same-Perm (x ∷ [])
insert-Perm (suc n) x (y ∷ ys) =
    Permᴰ.trans (Permᴰ.swap refl refl) (Permᴰ.cons refl (insert-Perm n x ys))

-- Whatever the scheduler chooses, each goroutine runs once.
pub arrange-Perm : (ps : List ℕ) (xs : List String) → Permᴰ xs (arrange ps xs)
unfolding arrange
arrange-Perm [] xs = same-Perm xs
arrange-Perm (p ∷ ps) [] = same-Perm []
arrange-Perm (p ∷ ps) (x ∷ xs) =
    Permᴰ.trans (Permᴰ.cons refl (arrange-Perm ps xs)) (insert-Perm p x (arrange ps xs))

-- Every IP is unassigned once and then every IP is assigned once; the errors are those of the
-- refused calls.
abbrev pub Reassigned :
    Ec2
    → String
    → String
    → List String
    → List Call
    → Outcome AwsError (List AwsError) × List Call
    → Type 0
Reassigned E source dest ips h o =
    (first second : List String) × Permᴰ ips first
    × Permᴰ ips second
    × (o ≡ (
      done (
          refused (unassign source) (λ k x. E.unassigned k source x) (λ x. unassign_failed x source)
            first h
          ++ refused (assign dest) (λ k x. E.assigned k dest x) (λ x. assign_failed x dest) second
              (pushed (unassign source) first h)),
      pushed (assign dest) second (pushed (unassign source) first h),
    ))

-- In whatever order the goroutines run, `ReassignFloatingIPs` unassigns each of the IPs from the
-- source exactly once and only then assigns each of them to the destination exactly once, whether
-- or not some were refused; its errors are those of the refused calls, and it neither stops early
-- nor panics.
pub reassign_floating_ips_lem :
    (E : Ec2) (p q : List ℕ) (source dest : String) (ips : List String) (h : List Call)
    → Reassigned E source dest ips h (reassign_floating_ips E p q source dest ips h)
unfolding reassign_floating_ips unassign_ip assign_ip
reassign_floating_ips_lem E p q source dest [] h = ([], [], Permᴰ.nil, Permᴰ.nil, refl)
reassign_floating_ips_lem E p q source dest (ip ∷ ips) h =
    let first = arrange p (ip ∷ ips) in
    let second = arrange q (ip ∷ ips) in
    let mid = pushed (unassign source) first h in
    let a =
      each_lem (unassign source) (λ k x. E.unassigned k source x) (λ x. unassign_failed x source)
        first h in
    let b =
      each_lem (assign dest) (λ k x. E.assigned k dest x) (λ x. assign_failed x dest) second mid in
    (first, second, arrange-Perm p (ip ∷ ips), arrange-Perm q (ip ∷ ips), ground (arith, a, b))
