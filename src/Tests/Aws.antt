-- ===== src/Tests/Aws.antt =====
-- EC2 with two ENIs, one of which has the IP of the primary.
use architect_networking.Base.{
  subst, Except, ok, false, ℕ, ◌≤◌, ◌<◌, ◌≡◌, ◌≢◌, ◌↔◌, refl, String, true, All, Memᴰ, none, some,
  List, [], ◌∷◌, arith, done, fail, codes, show_ℕ, str_eq, if◌then◌else◌,
}
use architect_networking.Aws.{
  NicFilter, Nic, Ec2, by_address, by_instance, by_id, unfiltered, Call, describe_nics, unassign,
  assign, assign_failed,
}
use architect_networking.Aws.Ownership.{
  get_eni_by_ip, get_eni_owner, check_eni_ownership, wait_for_eni_ownership, first_attached,
  attached_instance, attached_to, any_attached,
}
use architect_networking.Aws.Ownership.Laws.{polled, wait_for_eni_ownership-polled}
use architect_networking.Aws.TakeOver.{
  get_my_eni, take_over_eni, move_ip, finish_move, unassign_ip, assign_ip, move_eip_to_eni,
}
use architect_networking.Aws.TakeOver.Laws.{Orphaned, take_over_eni_seen, take_over_eni_orphan}
use architect_networking.Aws.Floating.{
  filter_floating_ips, reassign_floating_ips, get_eni_floating_ips, each, arrange, secondary_ips,
  split, same_text, matching, matches, high_octet, scan_int, read_digits,
}
use architect_networking.Aws.Floating.Laws.{
  dotted, NoDot, filter_floating_ips_lem, reassign_floating_ips_lem, Reassigned,
}
use architect_networking.Aws.Routes.{update_route_tables, table_ids}
use architect_networking.Aws.Actions.{Schedule, find_old_eni, move_ips, execute_failover_actions}
use architect_networking.Aws.Actions.Laws.{find_old_eni_lem}
use architect_networking.Tests.Data.{parse_ip}

abbrev mine : Nic
mine = record {
  network_interface_id = some "eni-1";
  attachment = some (some "i-1");
  private_ips = [];
}

abbrev other : Nic
other = record {
  network_interface_id = some "eni-2";
  attachment = some (some "i-2");
  private_ips =
      record { primary = some true; address = some "10.0.1.7" }
      ∷ record { primary = some false; address = some "10.0.1.20" }
      ∷ record { primary = none; address = some "10.0.1.19" }
      ∷ [];
}

-- The IP is with this instance once it was assigned.
abbrev holder : List Call → Nic
holder [] = other
holder (assign _ _ ∷ _) = mine
holder (_ ∷ h) = holder h

abbrev listed : List Call → NicFilter → Except String (List Nic)
listed h (by_address _) = ok (holder h ∷ [])
listed h (by_instance _) = ok (mine ∷ [])
listed h (by_id _) = ok (other ∷ [])
listed h unfiltered = ok (mine ∷ other ∷ [])

abbrev ec2 : Ec2
ec2 = record {
  nics = listed;
  unassigned = λ h eni ip. none;
  assigned = λ h eni ip. none;
  addresses = λ h ip. ok [];
  disassociated = λ h association. none;
  associated = λ h allocation eni ip. none;
  route_tables = λ h cidr. ok (some "rtb-1" ∷ some "rtb-2" ∷ []);
  replaced = λ h table cidr eni. if str_eq table "rtb-2" then some "denied" else none;
}

-- The same, but nothing can be assigned.
abbrev full : Ec2
full = record ec2 { assigned = λ h eni ip. some "limit exceeded" }

taken : (take_over_eni ec2 "i-1" "10.0.1.5" []).0 ≡ done tt
unfolding take_over_eni move_ip finish_move unassign_ip assign_ip get_eni_by_ip get_my_eni
    move_eip_to_eni
taken = refl

take_over_eni_seen_example :
    (my : String) × (j : List Call) × (k : List Call) × ((get_my_eni ec2 "i-1" j).0 ≡ done my)
    × ((get_eni_by_ip ec2 "10.0.1.5" k).0 ≡ done my)
take_over_eni_seen_example = take_over_eni_seen ec2 "i-1" "10.0.1.5" [] taken

abbrev found_calls : List Call
found_calls = describe_nics (by_address "10.0.1.5") ∷ []

abbrev my_calls : List Call
my_calls = describe_nics (by_instance "i-1") ∷ found_calls

abbrev last_calls : List Call
last_calls = assign "eni-1" "10.0.1.5" ∷ unassign "eni-2" "10.0.1.5" ∷ my_calls

refused_run :
    take_over_eni full "i-1" "10.0.1.5" []
    ≡ (fail (assign_failed "10.0.1.5" "eni-1" "limit exceeded"), last_calls)
unfolding take_over_eni move_ip get_eni_by_ip get_my_eni unassign_ip assign_ip
refused_run = refl

take_over_eni_orphan_example :
    (take_over_eni full "i-1" "10.0.1.5" []
      ≡ (fail (assign_failed "10.0.1.5" "eni-1" "limit exceeded"), last_calls))
    ↔ Orphaned full "i-1" "10.0.1.5" "eni-1" "limit exceeded" [] last_calls
take_over_eni_orphan_example =
    take_over_eni_orphan full "i-1" "10.0.1.5" "eni-1" "limit exceeded" [] last_calls

owner : (get_eni_owner ec2 parse_ip "10.0.1.5" []).0 ≡ done "i-2"
unfolding get_eni_owner first_attached attached_instance
owner = refl

-- Nothing has the IP at the first call.
abbrev late_nics : List Call → NicFilter → Except String (List Nic)
late_nics [] f = ok []
late_nics (c ∷ h) f = ec2.nics (assign "eni-1" "10.0.1.5" ∷ []) f

abbrev late_ec2 : Ec2
late_ec2 = record ec2 { nics = late_nics }

only_zero : (j : ℕ) → j < 1 → 0 ≡ j
only_zero j u = omega arith

first_poll :
    (j : ℕ)
    → j < 1
    → (check_eni_ownership late_ec2 parse_ip "i-1" "10.0.1.5" (polled j "10.0.1.5" [])).0
      ≡ done false
unfolding check_eni_ownership any_attached
first_poll j u =
    subst
      (λ k.
        (check_eni_ownership late_ec2 parse_ip "i-1" "10.0.1.5" (polled k "10.0.1.5" [])).0
        ≡ done false)
      (only_zero j u) refl

wait_for_eni_ownership-polled_example :
    wait_for_eni_ownership late_ec2 parse_ip 2 "i-1" "10.0.1.5" []
    ≡ (done tt, polled 2 "10.0.1.5" [])
unfolding check_eni_ownership any_attached attached_to
wait_for_eni_ownership-polled_example =
    wait_for_eni_ownership-polled late_ec2 parse_ip "i-1" "10.0.1.5" 1 2 [] (omega arith) first_poll
      refl

abbrev ten : List ℕ
ten = codes "10"

abbrev nought : List ℕ
nought = codes "0"

abbrev one : List ℕ
one = codes "1"

abbrev five : List ℕ
five = codes "5"

abbrev ips : List String
ips = "10.0.1.20" ∷ "10.0.1.19" ∷ []

no_dots : All NoDot (ten ∷ nought ∷ one ∷ five ∷ ten ∷ nought ∷ one ∷ [])
no_dots = ground arith

base_codes : codes "10.0.1.5" ≡ dotted ten nought one five
base_codes = refl

ip_codes : codes "10.0.1.20" ≡ dotted ten nought one (codes (show_ℕ 20))
unfolding show_ℕ
ip_codes = refl

filter_floating_ips_lem_example :
    Memᴰ "10.0.1.20" (filter_floating_ips ips "10.0.1.5")
    ↔ (Memᴰ "10.0.1.20" ips × (ten ≡ ten) × (nought ≡ nought) × (one ≡ one) × (20 ≤ 20))
filter_floating_ips_lem_example =
    filter_floating_ips_lem ten nought one five ten nought one 20 ips "10.0.1.5" "10.0.1.20" no_dots
      base_codes ip_codes (omega arith)

reassign_floating_ips_lem_example :
    Reassigned full "eni-2" "eni-1" ips []
      (reassign_floating_ips full (1 ∷ []) [] "eni-2" "eni-1" ips [])
reassign_floating_ips_lem_example =
    reassign_floating_ips_lem full (1 ∷ []) [] "eni-2" "eni-1" ips []

-- The second goroutine unassigns first.
other_order : (reassign_floating_ips full (1 ∷ []) [] "eni-2" "eni-1" ips []).1 ≡ (
    assign "eni-1" "10.0.1.19"
    ∷ assign "eni-1" "10.0.1.20"
    ∷ unassign "eni-2" "10.0.1.20"
    ∷ unassign "eni-2" "10.0.1.19"
    ∷ [])
unfolding reassign_floating_ips each arrange unassign_ip assign_ip
other_order = refl

abbrev schedule : Schedule
schedule = record { tables = 1 ∷ []; first = []; second = []; routes_first = true }

abbrev eni_2 : String
eni_2 = "eni-2"

abbrev high_ips : List String
high_ips = "10.0.1.20" ∷ []

searched :
    (find_old_eni ec2 "10.0.1.5" "eni-1" (mine ∷ other ∷ []) []).0
    ≡ done (some ("eni-2", "10.0.1.20" ∷ []))
unfolding find_old_eni get_eni_floating_ips filter_floating_ips split matching secondary_ips matches
    same_text high_octet scan_int read_digits
searched = refl

find_old_eni_lem_example :
    (eni_2 ≢ "eni-1")
    × (high_ips ≢ [])
    × ((k : List Call) × (all : List String) × ((get_eni_floating_ips ec2 eni_2 k).0 ≡ done all)
        × (high_ips ≡ filter_floating_ips all "10.0.1.5"))
    × Reassigned ec2 eni_2 "eni-1" high_ips []
        (move_ips ec2 schedule "eni-1" (some (eni_2, high_ips)) [])
find_old_eni_lem_example =
    find_old_eni_lem ec2 schedule "10.0.1.5" "eni-1" eni_2 high_ips (mine ∷ other ∷ []) [] []
      searched refl

-- The same as the first, but every route can be replaced.
abbrev ready : Ec2
ready = record ec2 { replaced = λ h table cidr eni. none }

acted :
    (execute_failover_actions ready schedule "i-1" "10.0.1.5" "10.9.0.0/16" []).0
    ≡ done (ok "eni-1")
unfolding execute_failover_actions take_over_eni get_eni_by_ip get_my_eni move_eip_to_eni
    unassign_ip assign_ip find_old_eni get_eni_floating_ips filter_floating_ips split matching
    secondary_ips matches same_text high_octet scan_int read_digits update_route_tables
    reassign_floating_ips each table_ids arrange
acted = refl
