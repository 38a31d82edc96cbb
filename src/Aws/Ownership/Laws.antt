-- ===== src/Aws/Ownership/Laws.antt =====
-- How the ownership queries agree with each other.
use architect_networking.Base.{
  ℕ, zero, suc, ◌≡◌, refl, String, Bool, true, false, List, [], ◌∷◌, arith, some, is_some, All, ok,
  Outcome, done, fail, panic, eq_iff, Option-cases, Bool-cases, Except, err, ◌<◌, ◌∙◌, ap, sym, ap₂,
  inl, inr, ◌⊎◌,
}
use architect_networking.Aws.{Nic, Ec2, by_address, describe_nics, Call, AwsError}
use architect_networking.Aws.Ownership.{
  attached_instance, attached_to, any_attached, first_attached, nics_by_ip, check_eni_ownership,
  get_eni_owner, owner_or_error, wait_for_eni_ownership,
}

first-any :
    (i : String) (nics : List Nic) (h : List Call)
    → All (λ (nic : Nic). is_some nic.network_interface_id ≡ true) nics
    → first_attached nics ≡ some i
    → any_attached i nics h ≡ (done true, h)
unfolding first_attached any_attached attached_to
first-any i [] h ids f = absurd (cc)
first-any i (nic ∷ nics) h ids f = elim (Option-cases (attached_instance nic)) [
  | inl e ↦ ground (arith, first-any i nics h)
  | inr (j, e) ↦ ground (arith, eq_iff j i)
]

-- The instance that `GetENIOwner` names is one that `CheckENIOwnership` calls an owner, if EC2 answers
-- both the same and every ENI in the answer has an id.
pub get_eni_owner_lem :
    (E : Ec2) (parse_ip : String → Bool) (ip i : String) (h k : List Call) (nics : List Nic)
    → E.nics h (by_address ip) ≡ ok nics
    → E.nics k (by_address ip) ≡ ok nics
    → All (λ (nic : Nic). is_some nic.network_interface_id ≡ true) nics
    → (get_eni_owner E parse_ip ip h).0 ≡ done i
    → (check_eni_ownership E parse_ip i ip k).0 ≡ done true
unfolding get_eni_owner check_eni_ownership nics_by_ip owner_or_error
get_eni_owner_lem E parse_ip ip i h k nics a b ids o =
    let f = first-any i nics (describe_nics (by_address ip) ∷ k) ids in
    elim (Option-cases (first_attached nics)) [
      | inl e ↦ absurd (ground arith)
      | inr (j, e) ↦ ground (arith, f)
    ]

check_cases :
    (r : Outcome AwsError Bool)
    → (r ≡ done true) ⊎ ((r ≡ done false) ⊎ (((e : AwsError) × (r ≡ fail e)) ⊎ (r ≡ panic)))
check_cases (done true) = inl refl
check_cases (done false) = inr (inl refl)
check_cases (fail e) = inr (inr (inl (e, refl)))
check_cases panic = inr (inr (inr refl))

answer_cases : {E A : Type 0} (r : Except E A) → ((a : A) × (r ≡ ok a)) ⊎ ((e : E) × (r ≡ err e))
answer_cases (ok a) = inl (a, refl)
answer_cases (err e) = inr (e, refl)

-- `WaitForENIOwnership` returns without an error only after a check that said yes.
pub wait_for_eni_ownership_lem :
    (E : Ec2) (parse_ip : String → Bool) (rounds : ℕ) (i ip : String) (h : List Call)
    → (wait_for_eni_ownership E parse_ip rounds i ip h).0 ≡ done tt
    → (k : List Call) × ((check_eni_ownership E parse_ip i ip k).0 ≡ done true)
unfolding wait_for_eni_ownership
wait_for_eni_ownership_lem E parse_ip zero i ip h d = absurd (cc)
wait_for_eni_ownership_lem E parse_ip (suc n) i ip h d =
    let (r, h') = check_eni_ownership E parse_ip i ip h in
    elim (check_cases r) [
      | inl e ↦ (h, e)
      | inr (inl e) ↦ wait_for_eni_ownership_lem E parse_ip n i ip h' (ground arith)
      | inr (inr (inl (x, e))) ↦ absurd (ground arith)
      | inr (inr (inr e)) ↦ absurd (ground arith)
    ]

any_attached-calls : (i : String) (nics : List Nic) (h : List Call) → (any_attached i nics h).1 ≡ h
unfolding any_attached
any_attached-calls i [] h = refl
any_attached-calls i (nic ∷ nics) h = elim (Option-cases nic.network_interface_id) [
  | inl e ↦ ground arith
  | inr (x, e) ↦ elim (Bool-cases (attached_to i nic)) [
    | inl a ↦ ground arith
    | inr a ↦ ground (arith, any_attached-calls i nics h)
  ]
]

-- The calls after some polls.
abbrev pub polled : ℕ → String → List Call → List Call
polled zero ip h = h
polled (suc j) ip h = polled j ip (describe_nics (by_address ip) ∷ h)

module _ (E : Ec2) (parse_ip : String → Bool) (i ip : String) where
  -- A check that has an answer has made one call.
  check_call :
      (h : List Call) (owns : Bool)
      → (check_eni_ownership E parse_ip i ip h).0 ≡ done owns
      → check_eni_ownership E parse_ip i ip h ≡ (done owns, describe_nics (by_address ip) ∷ h)
  unfolding check_eni_ownership nics_by_ip
  check_call h owns d = elim (Bool-cases (parse_ip ip)) [
    | inl e ↦ elim (answer_cases (E.nics h (by_address ip))) [
      | inl (nics, a) ↦
          let h' = describe_nics (by_address ip) ∷ h in
          let s : check_eni_ownership E parse_ip i ip h ≡ any_attached i nics h' = ground arith in
          s ∙ ap₂ (λ x y. (x, y)) (sym (ap (λ r. r.0) s) ∙ d) (any_attached-calls i nics h')
      | inr (x, a) ↦ absurd (ground arith)
    ]
    | inr e ↦ absurd (ground arith)
  ]

  -- If the checks of the first polls say no and the next one says yes, `WaitForENIOwnership` returns
  -- without an error after that one, provided the context lasts for as many polls.
  pub wait_for_eni_ownership-polled :
      (m rounds : ℕ) (h : List Call)
      → m < rounds
      → ((j : ℕ) → j < m → (check_eni_ownership E parse_ip i ip (polled j ip h)).0 ≡ done false)
      → (check_eni_ownership E parse_ip i ip (polled m ip h)).0 ≡ done true
      → wait_for_eni_ownership E parse_ip rounds i ip h ≡ (done tt, polled (suc m) ip h)
  unfolding wait_for_eni_ownership
  wait_for_eni_ownership-polled m zero h u noes owned = absurd (omega arith)
  wait_for_eni_ownership-polled zero (suc rounds) h u noes owned =
      ground (arith, check_call h true owned)
  wait_for_eni_ownership-polled (suc m) (suc rounds) h u noes owned =
      let later =
        wait_for_eni_ownership-polled m rounds (describe_nics (by_address ip) ∷ h) (omega arith)
          (λ j v. noes (suc j) (omega arith)) owned in
      ground (arith, check_call h false (noes 0 (omega arith)), later)
