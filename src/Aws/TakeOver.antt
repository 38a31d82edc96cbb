-- ===== src/Aws/TakeOver.antt =====
-- pkg/failover/aws.go: `MoveEIPToENI` and `TakeOverENI`.
pub mod Laws
use architect_networking.Base.{
  String, Bool, Option, none, some, List, [], ◌∷◌, Except, ok, err, Outcome, done, fail, panic,
  str_eq, if◌then◌else◌,
}
use architect_networking.Aws.{
  Nic, Address, Ec2, by_instance, Call, describe_nics, unassign, assign, describe_addresses,
  disassociate, associate, AwsError, describe_failed, no_eni_for_instance, unassign_failed,
  assign_failed, verification_failed, eip_lookup_failed, disassociate_failed, associate_failed, Aws,
  ◌>>=◌, ◌>>◌, return, throw, deref, attempt, ask, tell,
}
use architect_networking.Aws.Ownership.{get_eni_by_ip}

module _ (E : Ec2) where
  disassociate_from : String → Option String → Aws (Unit {0})
  disassociate_from allocation none = return tt
  disassociate_from allocation (some association) =
      tell (disassociate association) (λ h. E.disassociated h association)
        (disassociate_failed allocation)

  -- The first address found; its allocation and public IP are dereferenced.
  move_address : String → String → List Address → Aws (Unit {0})
  unfolding disassociate_from
  move_address ip new_eni [] = return tt
  move_address ip new_eni (a ∷ _) = do
    allocation ← deref a.allocation_id
    _ ← deref a.public_ip
    disassociate_from allocation a.association_id
    tell (associate allocation new_eni ip) (λ h. E.associated h allocation new_eni ip)
        (associate_failed allocation new_eni)

  unfoldable pub move_eip_to_eni : String → String → Aws (Unit {0})
  unfolding move_address
  move_eip_to_eni ip new_eni = do
    addresses ← ask (describe_addresses ip) (λ h. E.addresses h ip) (eip_lookup_failed ip)
    move_address ip new_eni addresses

  -- The first ENI attached to this instance.
  pub my_eni_of : String → List Nic → Aws String
  my_eni_of instance_id [] = throw (no_eni_for_instance instance_id)
  my_eni_of instance_id (nic ∷ _) = deref nic.network_interface_id

  unfoldable pub get_my_eni : String → Aws String
  unfolding my_eni_of
  get_my_eni instance_id = do
    nics ←
        ask (describe_nics (by_instance instance_id)) (λ h. E.nics h (by_instance instance_id))
          describe_failed
    my_eni_of instance_id nics

  -- The error of the EIP move is logged.
  unfoldable pub finish_move : String → String → String → Aws (Unit {0})
  finish_move ip my_eni actual =
      if str_eq actual my_eni
      then (attempt (move_eip_to_eni ip my_eni) >>= λ _. return tt)
      else throw (verification_failed my_eni ip actual)

  unfoldable pub unassign_ip : String → String → Aws (Unit {0})
  unassign_ip eni ip = tell (unassign eni ip) (λ h. E.unassigned h eni ip) (unassign_failed ip eni)

  unfoldable pub assign_ip : String → String → Aws (Unit {0})
  assign_ip eni ip = tell (assign eni ip) (λ h. E.assigned h eni ip) (assign_failed ip eni)

  unfoldable pub move_ip : String → String → String → Aws (Unit {0})
  unfolding finish_move
  move_ip ip current my_eni = do
    unassign_ip current ip
    assign_ip my_eni ip
    actual ← get_eni_by_ip E ip
    finish_move ip my_eni actual

  unfoldable pub take_over_eni : String → String → Aws (Unit {0})
  unfolding move_ip
  take_over_eni instance_id ip = do
    current ← get_eni_by_ip E ip
    my_eni ← get_my_eni instance_id
    if str_eq current my_eni then return tt else move_ip ip current my_eni
