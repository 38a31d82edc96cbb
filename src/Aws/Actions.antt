-- ===== src/Aws/Actions.antt =====
-- pkg/failover/leader.go: `executeFailoverActions`. Its two goroutines run one after the other, in
-- the order the scheduler picks; the calls of one are not mixed with those of the other.
pub mod Laws
use architect_networking.Base.{
  ℕ, String, Bool, true, false, Option, none, some, List, [], ◌∷◌, ◌++◌, Except, ok, err, Outcome,
  done, fail, panic, str_eq, if◌then◌else◌,
}
use architect_networking.Aws.{
  Nic, Ec2, unfiltered, Call, describe_nics, AwsError, describe_failed, Aws, ◌>>=◌, ◌>>◌, return,
  attempt, ask,
}
use architect_networking.Aws.Ownership.{get_eni_by_ip}
use architect_networking.Aws.TakeOver.{take_over_eni}
use architect_networking.Aws.Floating.{
  filter_floating_ips, get_eni_floating_ips, reassign_floating_ips,
}
use architect_networking.Aws.Routes.{update_route_tables}

-- The orders of the goroutines, each as `arrange` takes it: of the route tables, of the IPs that are unassigned and of those
-- that are assigned, and whether the route tables come before the IPs.
pub record Schedule : Type 0 where
  pub tables : List ℕ
  pub first : List ℕ
  pub second : List ℕ
  pub routes_first : Bool

-- One error for each goroutine that fails, which joins the texts of its errors.
errors_of : Except AwsError (List AwsError) → List AwsError
errors_of (ok es) = es
errors_of (err e) = e ∷ []

unfoldable pub kept_ips : String → Except AwsError (List String) → List String
kept_ips eni_ip (err _) = []
kept_ips eni_ip (ok ips) = filter_floating_ips ips eni_ip

unfoldable pub answered : Except AwsError (List Nic) → List Nic
answered (err _) = []
answered (ok nics) = nics

module _ (E : Ec2) where
  -- One ENI: its floating IPs, or the search goes on.
  unfoldable pub old_eni_or :
      Aws (Option (String × List String))
      → String
      → List String
      → Aws (Option (String × List String))
  old_eni_or rest id [] = rest
  old_eni_or rest id (ip ∷ kept) = return (some (id, ip ∷ kept))

  unfoldable pub try_eni :
      Aws (Option (String × List String))
      → String
      → String
      → String
      → Aws (Option (String × List String))
  unfolding old_eni_or kept_ips
  try_eni rest eni_ip new_eni id =
      if str_eq id new_eni
      then rest
      else (attempt (get_eni_floating_ips E id) >>= λ r. old_eni_or rest id (kept_ips eni_ip r))

  -- The loop over the ENIs: the first other one that has floating IPs of the network.
  unfoldable pub find_old_eni : String → String → List Nic → Aws (Option (String × List String))
  unfolding try_eni
  find_old_eni eni_ip new_eni [] = return none
  find_old_eni eni_ip new_eni (nic ∷ nics) =
      let rest = find_old_eni eni_ip new_eni nics in
      elim nic.network_interface_id [ none ↦ rest | some id ↦ try_eni rest eni_ip new_eni id ]

  unfoldable pub update_routes : Schedule → String → String → Aws (List AwsError)
  unfolding errors_of
  update_routes s cidr new_eni =
      if str_eq cidr ""
      then return []
      else (do r ← attempt (update_route_tables E s.tables cidr new_eni); return (errors_of r))

  unfoldable pub move_ips : Schedule → String → Option (String × List String) → Aws (List AwsError)
  unfolding errors_of
  move_ips s new_eni none = return []
  move_ips s new_eni (some (old_eni, ips)) = if str_eq old_eni "" then return [] else (do
    r ← attempt (reassign_floating_ips E s.first s.second old_eni new_eni ips)
    return (errors_of r))

  unfoldable pub both : Schedule → Aws (List AwsError) → Aws (List AwsError) → Aws (List AwsError)
  both s routes ips =
      if s.routes_first
      then (do a ← routes; b ← ips; return (a ++ b))
      else (do b ← ips; a ← routes; return (b ++ a))

  -- `currentENI` is set to the ENI that is returned.
  unfoldable pub outcome : String → List AwsError → Except (List AwsError) String
  outcome new_eni [] = ok new_eni
  outcome new_eni (e ∷ es) = err (e ∷ es)

  unfoldable pub finish_actions :
      Schedule → String → String → String → Aws (Except (List AwsError) String)
  unfolding answered update_routes move_ips both outcome
  finish_actions s eni_ip cidr new_eni = do
    nics ← attempt (ask (describe_nics unfiltered) (λ h. E.nics h unfiltered) describe_failed)
    old ← find_old_eni eni_ip new_eni (answered nics)
    errors ← both s (update_routes s cidr new_eni) (move_ips s new_eni old)
    return (outcome new_eni errors)

  unfoldable pub execute_failover_actions :
      Schedule → String → String → String → Aws (Except (List AwsError) String)
  unfolding finish_actions
  execute_failover_actions s instance_id eni_ip cidr = do
    take_over_eni E instance_id eni_ip
    new_eni ← get_eni_by_ip E eni_ip
    finish_actions s eni_ip cidr new_eni
