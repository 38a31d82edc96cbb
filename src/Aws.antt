-- ===== src/Aws.antt =====
-- pkg/failover/aws.go over an unknown EC2. The SDK is the parameter `Ec2`: what it answers to a call
-- may depend on all the calls made before, newest first. A pointer in its answers is an `Option`.
-- Logging is left out, and so is the second search of `UpdateRouteTables`, whose result is logged
-- alone; its call is made.
pub mod Ownership
pub mod Floating
pub mod Routes
pub mod TakeOver
pub mod Actions
pub mod Steps
use architect_networking.Base.{
  String, Bool, Option, none, some, List, [], ◌∷◌, Except, ok, err, Outcome, done, fail, panic,
}

pub record PrivateIp : Type 0 where
  pub primary : Option Bool
  pub address : Option String

-- An attachment may lack its instance.
pub record Nic : Type 0 where
  pub network_interface_id : Option String
  pub attachment : Option (Option String)
  pub private_ips : List PrivateIp

pub record Address : Type 0 where
  pub allocation_id : Option String
  pub association_id : Option String
  pub public_ip : Option String

-- The filters of the DescribeNetworkInterfaces calls.
pub data NicFilter : Type 0 where
  by_address : String → NicFilter
  by_instance : String → NicFilter
  by_id : String → NicFilter
  unfiltered : NicFilter

pub data Call : Type 0 where
  describe_nics : NicFilter → Call
  unassign : String → String → Call
  assign : String → String → Call
  describe_addresses : String → Call
  disassociate : String → Call
  associate : String → String → String → Call
  describe_route_tables : Option String → Call
  replace_route : String → String → String → Call

-- A route table is its id.
pub record Ec2 : Type 0 where
  pub nics : List Call → NicFilter → Except String (List Nic)
  pub unassigned : List Call → String → String → Option String
  pub assigned : List Call → String → String → Option String
  pub addresses : List Call → String → Except String (List Address)
  pub disassociated : List Call → String → Option String
  pub associated : List Call → String → String → String → Option String
  pub route_tables : List Call → Option String → Except String (List (Option String))
  pub replaced : List Call → String → String → String → Option String

pub data AwsError : Type 0 where
  invalid_ip : String → AwsError
  describe_failed : String → AwsError
  no_owner : String → AwsError
  nic_not_found : String → AwsError
  no_eni_with_ip : String → AwsError
  no_eni_for_instance : String → AwsError
  unassign_failed : String → String → String → AwsError
  assign_failed : String → String → String → AwsError
  verification_failed : String → String → String → AwsError
  eip_lookup_failed : String → String → AwsError
  disassociate_failed : String → String → AwsError
  associate_failed : String → String → String → AwsError
  no_route_tables : String → AwsError
  replace_failed : String → String → AwsError
  context_done : AwsError

-- A computation that makes calls.
abbrev pub Aws : Type 0 → Type 0
Aws A = List Call → Outcome AwsError A × List Call

infixl 5 ◌>>=◌ ◌>>◌
abbrev pub ◌>>=◌ : {A B : Type 0} → Aws A → (A → Aws B) → Aws B
◌>>=◌ m f h =
    let (r, h') = m h in elim r [ done a ↦ f a h' | fail e ↦ (fail e, h') | panic ↦ (panic, h') ]

abbrev pub ◌>>◌ : {B : Type 0} → Aws (Unit {0}) → Aws B → Aws B
m >> k = m >>= λ _. k

abbrev pub return : {A : Type 0} → A → Aws A
return a h = (done a, h)

abbrev pub throw : {A : Type 0} → AwsError → Aws A
throw e h = (fail e, h)

-- `*p`
abbrev pub deref : {A : Type 0} → Option A → Aws A
deref none h = (panic, h)
deref (some a) h = (done a, h)

-- A value and an error, as the caller looks at both.
abbrev pub attempt : {A : Type 0} → Aws A → Aws (Except AwsError A)
attempt m h =
    let (r, h') = m h in
    elim r [ done a ↦ (done (ok a), h') | fail e ↦ (done (err e), h') | panic ↦ (panic, h') ]

-- One call that answers a list, and one that answers nothing.
abbrev pub ask : {A : Type 0} → Call → (List Call → Except String A) → (String → AwsError) → Aws A
ask c reply wrap h = elim (reply h) [ ok a ↦ (done a, c ∷ h) | err e ↦ (fail (wrap e), c ∷ h) ]

abbrev pub tell : Call → (List Call → Option String) → (String → AwsError) → Aws (Unit {0})
tell c reply wrap h = elim (reply h) [ none ↦ (done tt, c ∷ h) | some e ↦ (fail (wrap e), c ∷ h) ]
