-- ===== src/Aws/Ownership.antt =====
-- pkg/failover/aws.go: `CheckENIOwnership`, `GetENIOwner`, `WaitForENIOwnership`, `GetENIByIP`.
-- `net.ParseIP` is the parameter `parse_ip`.
pub mod Laws
use architect_networking.Base.{
  ℕ, zero, suc, String, Bool, true, false, Option, none, some, List, [], ◌∷◌, Except, ok, err,
  Outcome, done, fail, panic, str_eq, if◌then◌else◌,
}
use architect_networking.Aws.{
  Nic, Ec2, by_address, Call, describe_nics, AwsError, invalid_ip, describe_failed, no_owner,
  no_eni_with_ip, context_done, Aws, ◌>>=◌, ◌>>◌, return, throw, deref, ask,
}

-- `nic.Attachment != nil && nic.Attachment.InstanceId != nil`, and then the instance.
unfoldable pub attached_instance : Nic → Option String
attached_instance nic = elim nic.attachment [ none ↦ none | some i ↦ i ]

unfoldable pub attached_to : String → Nic → Bool
unfolding attached_instance
attached_to instance_id nic = elim (attached_instance nic) [
  | none ↦ false
  | some i ↦ str_eq i instance_id
]

-- Each round logs `*nic.NetworkInterfaceId`.
unfoldable pub any_attached : String → List Nic → Aws Bool
any_attached instance_id [] h = (done false, h)
any_attached instance_id (nic ∷ nics) h = elim nic.network_interface_id [
  | none ↦ (panic, h)
  | some _ ↦ elim (attached_to instance_id nic) [
    | true ↦ (done true, h)
    | false ↦ any_attached instance_id nics h
  ]
]

unfoldable pub first_attached : List Nic → Option String
first_attached [] = none
first_attached (nic ∷ nics) =
    let rest = first_attached nics in elim (attached_instance nic) [ none ↦ rest | some i ↦ some i ]

unfoldable pub first_id : String → List Nic → Aws String
first_id ip [] = throw (no_eni_with_ip ip)
first_id ip (nic ∷ _) = deref nic.network_interface_id

module _ (E : Ec2) where
  unfoldable pub nics_by_ip : String → Aws (List Nic)
  nics_by_ip ip =
      ask (describe_nics (by_address ip)) (λ h. E.nics h (by_address ip)) describe_failed

  unfoldable pub get_eni_by_ip : String → Aws String
  unfolding nics_by_ip first_id
  get_eni_by_ip ip = do nics ← nics_by_ip ip; first_id ip nics

  module _ (parse_ip : String → Bool) where
    unfoldable pub check_eni_ownership : String → String → Aws Bool
    unfolding nics_by_ip
    check_eni_ownership instance_id ip =
        if parse_ip ip then nics_by_ip ip >>= any_attached instance_id else throw (invalid_ip ip)

    owner_or_error : String → List Nic → Aws String
    owner_or_error ip nics = elim (first_attached nics) [
      | none ↦ throw (no_owner ip)
      | some i ↦ return i
    ]

    unfoldable pub get_eni_owner : String → Aws String
    unfolding nics_by_ip owner_or_error
    get_eni_owner ip =
        if parse_ip ip then nics_by_ip ip >>= owner_or_error ip else throw (invalid_ip ip)

    -- The context is done after `rounds` polls.
    unfoldable pub wait_for_eni_ownership : ℕ → String → String → Aws (Unit {0})
    wait_for_eni_ownership zero instance_id ip h = (fail context_done, h)
    wait_for_eni_ownership (suc rounds) instance_id ip h =
        let (r, h') = check_eni_ownership instance_id ip h in
        elim r [
          | fail e ↦ (fail e, h')
          | panic ↦ (panic, h')
          | done owns ↦ elim owns [
            | true ↦ (done tt, h')
            | false ↦ wait_for_eni_ownership rounds instance_id ip h'
          ]
        ]
