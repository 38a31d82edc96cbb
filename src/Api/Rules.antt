-- ===== src/Api/Rules.antt =====
-- pkg/client/client.go: how the firewall rules become JSON and are read from it. encoding/json and
-- runtime.JSONMerge are the parameter `RawJson`. On an error the receiver may be half-written; the
-- error is what is modelled.
pub mod Fields
pub mod Union
pub mod Laws
use architect_networking.Base.{
  ℕ, String, ◌<>◌, Bool, Option, none, some, List, [], ◌∷◌, Except, ok, err, str_eq, if◌then◌else◌,
}
use architect_networking.Base.Chain.{◌>>=◌}
use architect_networking.Api.{IcmpFirewallRule, TcpFirewallRule, UdpFirewallRule}

-- `map[string]json.RawMessage`, the last write first.
abbrev pub Object : Type 0
Object = List (String × String)

unfoldable pub find_key : String → Object → Option String
find_key k [] = none
find_key k ((n, raw) ∷ o) = let rest = find_key k o in if str_eq n k then some raw else rest

-- `json.Marshal` and `json.Unmarshal` of such a map, of a text and of a uint16, the latter two into
-- a pointer, which null leaves nil, and of any value; `json.Marshal` has no bytes with its error.
-- `merge` gives bytes and an error.
pub record RawJson : Type 1 where
  pub Any : Type 0
  pub marshal_object : Object → Except String String
  pub unmarshal_object : String → Except String Object
  pub marshal_text : String → Except String String
  pub unmarshal_text : String → Except String (Option String)
  pub marshal_port : ℕ → Except String String
  pub unmarshal_port : String → Except String (Option ℕ)
  pub marshal_any : Any → Except String String
  pub unmarshal_any : Option String → Except String Any
  pub merge : Option String → String → Option String × Option String

-- A field's name, and what its value gives when it is marshalled; a nil pointer has none.
abbrev pub Field : Type 0
Field = String × Option (Except String String)

abbrev pub marshalled :
    {A : Type 0} → (A → Except String String) → Option A → Option (Except String String)
marshalled m none = none
marshalled m (some a) = some (m a)

put_field : Field → Object → Except String Object
put_field (name, none) o = ok o
put_field (name, some (ok raw)) o = ok ((name, raw) ∷ o)
put_field (name, some (err e)) o = err ("error marshaling '" <> (name <> ("': " <> e)))

unfoldable pub put_fields : List Field → Object → Except String Object
unfolding put_field
put_fields [] o = ok o
put_fields (f ∷ fs) o = put_field f o >>= (λ o'. put_fields fs o')

reading : {A : Type 0} → String → Except String A → Except String A
reading name (ok a) = ok a
reading name (err e) = err ("error reading '" <> (name <> ("': " <> e)))

-- A field that is not there keeps its value.
unfoldable pub read_field :
    {A : Type 0}
    → (String → Except String (Option A))
    → String
    → Object
    → Option A
    → Except String (Option A)
unfolding reading
read_field unmarshal name o old = elim (find_key name o) [
  | none ↦ ok old
  | some raw ↦ reading name (unmarshal raw)
]

module _ (J : RawJson) where
  -- The union's keys come first, and the fields overwrite them.
  unfoldable pub marshal_rule : Option String → List Field → Except String String
  unfolding put_fields
  marshal_rule none fields = put_fields fields [] >>= J.marshal_object
  marshal_rule (some b) fields = do
    object ← J.unmarshal_object b
    object' ← put_fields fields object
    J.marshal_object object'

  unfoldable pub icmp_fields : IcmpFirewallRule → List Field
  icmp_fields t =
      ("destination", marshalled J.marshal_text t.destination)
      ∷ ("source", marshalled J.marshal_text t.source)
      ∷ []

  unfoldable pub marshal_icmp_firewall_rule : IcmpFirewallRule → Except String String
  unfolding marshal_rule icmp_fields
  marshal_icmp_firewall_rule t = marshal_rule t.union (icmp_fields t)

  unfoldable pub unmarshal_icmp_firewall_rule :
      IcmpFirewallRule → String → Except String IcmpFirewallRule
  unfolding read_field
  unmarshal_icmp_firewall_rule t b = do
    object ← J.unmarshal_object b
    destination ← read_field J.unmarshal_text "destination" object t.destination
    source ← read_field J.unmarshal_text "source" object t.source
    ok (record { destination = destination; source = source; union = some b })

  unfoldable pub tcp_fields : TcpFirewallRule → List Field
  tcp_fields t =
      ("destination", marshalled J.marshal_text t.destination)
      ∷ ("destinationPortHigh", marshalled J.marshal_port t.destination_port_high)
      ∷ ("destinationPortLow", marshalled J.marshal_port t.destination_port_low)
      ∷ ("source", marshalled J.marshal_text t.source)
      ∷ ("sourcePortHigh", marshalled J.marshal_port t.source_port_high)
      ∷ ("sourcePortLow", marshalled J.marshal_port t.source_port_low)
      ∷ []

  unfoldable pub marshal_tcp_firewall_rule : TcpFirewallRule → Except String String
  unfolding marshal_rule tcp_fields
  marshal_tcp_firewall_rule t = marshal_rule t.union (tcp_fields t)

  unfoldable pub unmarshal_tcp_firewall_rule :
      TcpFirewallRule → String → Except String TcpFirewallRule
  unfolding read_field
  unmarshal_tcp_firewall_rule t b = do
    object ← J.unmarshal_object b
    destination ← read_field J.unmarshal_text "destination" object t.destination
    destination_port_high ←
        read_field J.unmarshal_port "destinationPortHigh" object t.destination_port_high
    destination_port_low ←
        read_field J.unmarshal_port "destinationPortLow" object t.destination_port_low
    source ← read_field J.unmarshal_text "source" object t.source
    source_port_high ← read_field J.unmarshal_port "sourcePortHigh" object t.source_port_high
    source_port_low ← read_field J.unmarshal_port "sourcePortLow" object t.source_port_low
    ok (record {
      destination = destination;
      destination_port_high = destination_port_high;
      destination_port_low = destination_port_low;
      source = source;
      source_port_high = source_port_high;
      source_port_low = source_port_low;
      union = some b;
    })

  unfoldable pub udp_fields : UdpFirewallRule → List Field
  udp_fields t =
      ("destination", marshalled J.marshal_text t.destination)
      ∷ ("destinationPortHigh", marshalled J.marshal_port t.destination_port_high)
      ∷ ("destinationPortLow", marshalled J.marshal_port t.destination_port_low)
      ∷ ("source", marshalled J.marshal_text t.source)
      ∷ ("sourcePortHigh", marshalled J.marshal_port t.source_port_high)
      ∷ ("sourcePortLow", marshalled J.marshal_port t.source_port_low)
      ∷ []

  unfoldable pub marshal_udp_firewall_rule : UdpFirewallRule → Except String String
  unfolding marshal_rule udp_fields
  marshal_udp_firewall_rule t = marshal_rule t.union (udp_fields t)

  unfoldable pub unmarshal_udp_firewall_rule :
      UdpFirewallRule → String → Except String UdpFirewallRule
  unfolding read_field
  unmarshal_udp_firewall_rule t b = do
    object ← J.unmarshal_object b
    destination ← read_field J.unmarshal_text "destination" object t.destination
    destination_port_high ←
        read_field J.unmarshal_port "destinationPortHigh" object t.destination_port_high
    destination_port_low ←
        read_field J.unmarshal_port "destinationPortLow" object t.destination_port_low
    source ← read_field J.unmarshal_text "source" object t.source
    source_port_high ← read_field J.unmarshal_port "sourcePortHigh" object t.source_port_high
    source_port_low ← read_field J.unmarshal_port "sourcePortLow" object t.source_port_low
    ok (record {
      destination = destination;
      destination_port_high = destination_port_high;
      destination_port_low = destination_port_low;
      source = source;
      source_port_high = source_port_high;
      source_port_low = source_port_low;
      union = some b;
    })
