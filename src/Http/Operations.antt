-- ===== src/Http/Operations.antt =====
-- The operations of the conduit's API that pkg/client/client.go has a request for.
use architect_networking.Base.{ℕ, String, Option, Except}
use architect_networking.Message.{NatState}
use architect_networking.Api.{
  AddDdosIpParams, CreateIpParams, DdosConfig, DeleteIpParams, FirewallConfig, IcmpFirewallRule,
  SetInboundNatJsonBody, SetOutboundNatJsonBody, SetRouterInterfacesJsonBody, TcpFirewallRule,
  UdpFirewallRule,
}
use architect_networking.Http.{Web}
use architect_networking.Http.Requests.{
  new_add_ddos_ip_request, new_add_icmp_firewall_rule_request, new_add_tcp_firewall_rule_request,
  new_add_udp_firewall_rule_request, new_create_ip_request, new_delete_ip_request,
  new_get_ddos_status_request, new_get_firewall_status_request,
  new_get_icmp_firewall_status_request, new_get_router_status_request, new_get_state_request,
  new_get_tcp_firewall_status_request, new_get_udp_firewall_status_request, new_list_ips_request,
  new_remove_icmp_firewall_rule_request, new_remove_tcp_firewall_rule_request,
  new_remove_udp_firewall_rule_request, new_reset_ddos_request, new_reset_firewall_request,
  new_reset_icmp_firewall_request, new_reset_tcp_firewall_request, new_reset_udp_firewall_request,
  new_set_ddos_enabled_request, new_set_firewall_enabled_request,
  new_set_icmp_firewall_enabled_request, new_set_inbound_nat_request, new_set_outbound_nat_request,
  new_set_router_interfaces_request, new_set_state_request, new_set_tcp_firewall_enabled_request,
  new_set_udp_firewall_enabled_request,
}

pub data Operation : Type 0 where
  reset_ddos : Operation
  get_ddos_status : Operation
  set_ddos_enabled : DdosConfig → Operation
  add_ddos_ip : Option AddDdosIpParams → Operation
  reset_firewall : Operation
  get_firewall_status : Operation
  set_firewall_enabled : FirewallConfig → Operation
  reset_icmp_firewall : Operation
  get_icmp_firewall_status : Operation
  set_icmp_firewall_enabled : FirewallConfig → Operation
  add_icmp_firewall_rule : IcmpFirewallRule → Operation
  remove_icmp_firewall_rule : ℕ → Operation
  reset_tcp_firewall : Operation
  get_tcp_firewall_status : Operation
  set_tcp_firewall_enabled : FirewallConfig → Operation
  add_tcp_firewall_rule : TcpFirewallRule → Operation
  remove_tcp_firewall_rule : ℕ → Operation
  reset_udp_firewall : Operation
  get_udp_firewall_status : Operation
  set_udp_firewall_enabled : FirewallConfig → Operation
  add_udp_firewall_rule : UdpFirewallRule → Operation
  remove_udp_firewall_rule : ℕ → Operation
  delete_ip : Option DeleteIpParams → Operation
  list_ips : Operation
  create_ip : Option CreateIpParams → Operation
  set_router_interfaces : SetRouterInterfacesJsonBody → Operation
  set_inbound_nat : SetInboundNatJsonBody → Operation
  set_outbound_nat : SetOutboundNatJsonBody → Operation
  get_router_status : Operation
  get_state : Operation
  set_state : NatState → Operation

module _ (W : Web) where
  unfoldable pub build : Operation → String → Except String W.Request
  build reset_ddos server = new_reset_ddos_request W server
  build get_ddos_status server = new_get_ddos_status_request W server
  build (set_ddos_enabled body) server = new_set_ddos_enabled_request W server body
  build (add_ddos_ip params) server = new_add_ddos_ip_request W server params
  build reset_firewall server = new_reset_firewall_request W server
  build get_firewall_status server = new_get_firewall_status_request W server
  build (set_firewall_enabled body) server = new_set_firewall_enabled_request W server body
  build reset_icmp_firewall server = new_reset_icmp_firewall_request W server
  build get_icmp_firewall_status server = new_get_icmp_firewall_status_request W server
  build (set_icmp_firewall_enabled body) server =
      new_set_icmp_firewall_enabled_request W server body
  build (add_icmp_firewall_rule body) server = new_add_icmp_firewall_rule_request W server body
  build (remove_icmp_firewall_rule rule_id) server =
      new_remove_icmp_firewall_rule_request W server rule_id
  build reset_tcp_firewall server = new_reset_tcp_firewall_request W server
  build get_tcp_firewall_status server = new_get_tcp_firewall_status_request W server
  build (set_tcp_firewall_enabled body) server = new_set_tcp_firewall_enabled_request W server body
  build (add_tcp_firewall_rule body) server = new_add_tcp_firewall_rule_request W server body
  build (remove_tcp_firewall_rule rule_id) server =
      new_remove_tcp_firewall_rule_request W server rule_id
  build reset_udp_firewall server = new_reset_udp_firewall_request W server
  build get_udp_firewall_status server = new_get_udp_firewall_status_request W server
  build (set_udp_firewall_enabled body) server = new_set_udp_firewall_enabled_request W server body
  build (add_udp_firewall_rule body) server = new_add_udp_firewall_rule_request W server body
  build (remove_udp_firewall_rule rule_id) server =
      new_remove_udp_firewall_rule_request W server rule_id
  build (delete_ip params) server = new_delete_ip_request W server params
  build list_ips server = new_list_ips_request W server
  build (create_ip params) server = new_create_ip_request W server params
  build (set_router_interfaces body) server = new_set_router_interfaces_request W server body
  build (set_inbound_nat body) server = new_set_inbound_nat_request W server body
  build (set_outbound_nat body) server = new_set_outbound_nat_request W server body
  build get_router_status server = new_get_router_status_request W server
  build get_state server = new_get_state_request W server
  build (set_state body) server = new_set_state_request W server body
