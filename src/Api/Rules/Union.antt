-- ===== src/Api/Rules/Union.antt =====
-- pkg/client/client.go: the untyped variants of a firewall rule, which its `union` holds.
use architect_networking.Base.{String, Option, none, some, Except, ok, err}
use architect_networking.Api.{IcmpFirewallRule, TcpFirewallRule, UdpFirewallRule}
use architect_networking.Api.Rules.{RawJson}

module _ (J : RawJson) where
  -- The error, and the union that is left.
  unfoldable pub from_value : J.Any → Option String × Option String
  from_value v = elim (J.marshal_any v) [ err e ↦ (some e, none) | ok b ↦ (none, some b) ]

  unfoldable pub merge_value : Option String → J.Any → Option String × Option String
  merge_value union v = elim (J.marshal_any v) [
    | err e ↦ (some e, union)
    | ok b ↦ let (merged, e) = J.merge union b in (e, merged)
  ]

  unfoldable pub as_icmp_firewall_rule0 : IcmpFirewallRule → Except String J.Any
  as_icmp_firewall_rule0 t = J.unmarshal_any t.union

  unfoldable pub from_icmp_firewall_rule0 :
      J.Any → IcmpFirewallRule → Option String × IcmpFirewallRule
  unfolding from_value
  from_icmp_firewall_rule0 v t = let (e, union) = from_value v in (e, record t { union = union })

  unfoldable pub merge_icmp_firewall_rule0 :
      J.Any → IcmpFirewallRule → Option String × IcmpFirewallRule
  unfolding merge_value
  merge_icmp_firewall_rule0 v t =
      let (e, union) = merge_value t.union v in (e, record t { union = union })

  unfoldable pub as_icmp_firewall_rule1 : IcmpFirewallRule → Except String J.Any
  as_icmp_firewall_rule1 t = J.unmarshal_any t.union

  unfoldable pub from_icmp_firewall_rule1 :
      J.Any → IcmpFirewallRule → Option String × IcmpFirewallRule
  unfolding from_value
  from_icmp_firewall_rule1 v t = let (e, union) = from_value v in (e, record t { union = union })

  unfoldable pub merge_icmp_firewall_rule1 :
      J.Any → IcmpFirewallRule → Option String × IcmpFirewallRule
  unfolding merge_value
  merge_icmp_firewall_rule1 v t =
      let (e, union) = merge_value t.union v in (e, record t { union = union })

  unfoldable pub as_tcp_firewall_rule0 : TcpFirewallRule → Except String J.Any
  as_tcp_firewall_rule0 t = J.unmarshal_any t.union

  unfoldable pub from_tcp_firewall_rule0 : J.Any → TcpFirewallRule → Option String × TcpFirewallRule
  unfolding from_value
  from_tcp_firewall_rule0 v t = let (e, union) = from_value v in (e, record t { union = union })

  unfoldable pub merge_tcp_firewall_rule0 :
      J.Any → TcpFirewallRule → Option String × TcpFirewallRule
  unfolding merge_value
  merge_tcp_firewall_rule0 v t =
      let (e, union) = merge_value t.union v in (e, record t { union = union })

  unfoldable pub as_tcp_firewall_rule1 : TcpFirewallRule → Except String J.Any
  as_tcp_firewall_rule1 t = J.unmarshal_any t.union

  unfoldable pub from_tcp_firewall_rule1 : J.Any → TcpFirewallRule → Option String × TcpFirewallRule
  unfolding from_value
  from_tcp_firewall_rule1 v t = let (e, union) = from_value v in (e, record t { union = union })

  unfoldable pub merge_tcp_firewall_rule1 :
      J.Any → TcpFirewallRule → Option String × TcpFirewallRule
  unfolding merge_value
  merge_tcp_firewall_rule1 v t =
      let (e, union) = merge_value t.union v in (e, record t { union = union })

  unfoldable pub as_udp_firewall_rule0 : UdpFirewallRule → Except String J.Any
  as_udp_firewall_rule0 t = J.unmarshal_any t.union

  unfoldable pub from_udp_firewall_rule0 : J.Any → UdpFirewallRule → Option String × UdpFirewallRule
  unfolding from_value
  from_udp_firewall_rule0 v t = let (e, union) = from_value v in (e, record t { union = union })

  unfoldable pub merge_udp_firewall_rule0 :
      J.Any → UdpFirewallRule → Option String × UdpFirewallRule
  unfolding merge_value
  merge_udp_firewall_rule0 v t =
      let (e, union) = merge_value t.union v in (e, record t { union = union })

  unfoldable pub as_udp_firewall_rule1 : UdpFirewallRule → Except String J.Any
  as_udp_firewall_rule1 t = J.unmarshal_any t.union

  unfoldable pub from_udp_firewall_rule1 : J.Any → UdpFirewallRule → Option String × UdpFirewallRule
  unfolding from_value
  from_udp_firewall_rule1 v t = let (e, union) = from_value v in (e, record t { union = union })

  unfoldable pub merge_udp_firewall_rule1 :
      J.Any → UdpFirewallRule → Option String × UdpFirewallRule
  unfolding merge_value
  merge_udp_firewall_rule1 v t =
      let (e, union) = merge_value t.union v in (e, record t { union = union })
