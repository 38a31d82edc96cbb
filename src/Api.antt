-- ===== src/Api.antt =====
-- pkg/client/client.go: the data of the conduit's HTTP API beside the NAT state of Message.antt. A
-- pointer is an `Option`; uint8 to uint64 are numbers, whose range the JSON codec enforces. A raw
-- JSON text is a `String`.
pub mod Rules
use architect_networking.Base.{ℕ, String, Bool, Option, List, Except}
use architect_networking.Message.{NatState}

pub record DdosConfig : Type 0 where
  pub enabled : Bool

pub record DdosStatus : Type 0 where
  pub blocked_ip_count : ℕ
  pub enabled : Bool
  pub max_blocked_ips : ℕ

pub record FirewallConfig : Type 0 where
  pub enabled : Bool

pub record IcmpFirewallStatus : Type 0 where
  pub enabled : Bool
  pub max_rules : ℕ
  pub rule_count : ℕ

pub record TcpFirewallStatus : Type 0 where
  pub enabled : Bool
  pub max_rules : ℕ
  pub rule_count : ℕ

pub record UdpFirewallStatus : Type 0 where
  pub enabled : Bool
  pub max_rules : ℕ
  pub rule_count : ℕ

pub record FirewallStatus : Type 0 where
  pub icmp : IcmpFirewallStatus
  pub tcp : TcpFirewallStatus
  pub udp : UdpFirewallStatus

-- `union` is nil for a rule that was built from its fields.
pub record IcmpFirewallRule : Type 0 where
  pub destination : Option String
  pub source : Option String
  pub union : Option String

pub record TcpFirewallRule : Type 0 where
  pub destination : Option String
  pub destination_port_high : Option ℕ
  pub destination_port_low : Option ℕ
  pub source : Option String
  pub source_port_high : Option ℕ
  pub source_port_low : Option ℕ
  pub union : Option String

pub record UdpFirewallRule : Type 0 where
  pub destination : Option String
  pub destination_port_high : Option ℕ
  pub destination_port_low : Option ℕ
  pub source : Option String
  pub source_port_high : Option ℕ
  pub source_port_low : Option ℕ
  pub union : Option String

pub record IcmpFirewallRuleResponse : Type 0 where
  pub rule_id : ℕ
  pub status : IcmpFirewallStatus

pub record TcpFirewallRuleResponse : Type 0 where
  pub rule_id : ℕ
  pub status : TcpFirewallStatus

pub record UdpFirewallRuleResponse : Type 0 where
  pub rule_id : ℕ
  pub status : UdpFirewallStatus

pub record RouterStatus : Type 0 where
  pub enabled : Bool
  pub inbound_nat_enabled : Bool
  pub interfaces_enabled : Bool
  pub nat_ips : List String
  pub outbound_nat_enabled : Bool

pub record AddDdosIpParams : Type 0 where
  pub ip : String

pub record DeleteIpParams : Type 0 where
  pub ip : String

pub record CreateIpParams : Type 0 where
  pub ip : String

pub record SetRouterInterfacesJsonBody : Type 0 where
  pub enabled : Bool

pub record SetInboundNatJsonBody : Type 0 where
  pub enabled : Bool

pub record SetOutboundNatJsonBody : Type 0 where
  pub enabled : Bool

-- The unnamed struct of the answers that have the new state alone.
pub record EnabledState : Type 0 where
  pub enabled : Option Bool

-- `json.Marshal` and `json.Unmarshal` at one type, into a variable that is zero.
pub record Codec (A : Type 0) : Type 0 where
  pub marshal : A → Except String String
  pub unmarshal : String → Except String A

pub record Codecs : Type 0 where
  pub ddos_config : Codec DdosConfig
  pub ddos_status : Codec DdosStatus
  pub firewall_config : Codec FirewallConfig
  pub firewall_status : Codec FirewallStatus
  pub icmp_firewall_status : Codec IcmpFirewallStatus
  pub tcp_firewall_status : Codec TcpFirewallStatus
  pub udp_firewall_status : Codec UdpFirewallStatus
  pub icmp_firewall_rule : Codec IcmpFirewallRule
  pub tcp_firewall_rule : Codec TcpFirewallRule
  pub udp_firewall_rule : Codec UdpFirewallRule
  pub icmp_firewall_rule_response : Codec IcmpFirewallRuleResponse
  pub tcp_firewall_rule_response : Codec TcpFirewallRuleResponse
  pub udp_firewall_rule_response : Codec UdpFirewallRuleResponse
  pub router_status : Codec RouterStatus
  pub router_interfaces : Codec SetRouterInterfacesJsonBody
  pub inbound_nat : Codec SetInboundNatJsonBody
  pub outbound_nat : Codec SetOutboundNatJsonBody
  pub enabled_state : Codec EnabledState
  pub texts : Codec (List String)
  pub nat_state : Codec NatState
