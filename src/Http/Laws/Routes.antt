-- ===== src/Http/Laws/Routes.antt =====
-- Which request each operation sends.
use architect_networking.Base.{◌≡◌, refl, not, none, some}
use architect_networking.Http.Build.{
  plain_request, body_request, json_request, ip_request, rule_request,
}
use architect_networking.Http.Requests.{
  new_add_ddos_ip_request, new_add_icmp_firewall_rule_request, new_add_tcp_firewall_rule_request,
  new_add_udp_firewall_rule_request, new_create_ip_request, new_delete_ip_request,
  new_get_ddos_status_request, new_get_firewall_status_request,
  new_get_icmp_firewall_status_request, new_get_router_status_request, new_get_state_request,
  new_get_tcp_firewall_status_request, new_get_udp_firewall_status_request, new_list_ips_request,
  new_remove_icmp_firewall_rule_request, new_remove_tcp_firewall_rule_request,
  new_remove_udp_firewall_rule_request, new_reset_ddos_request, new_reset_firewall_request,
  new_reset_icmp_firewall_request, new_reset_tcp_firewall_request, new_reset_udp_firewall_request,
  new_set_ddos_enabled_request, new_set_firewall_enabled_request,
  new_set_icmp_firewall_enabled_request, new_set_inbound_nat_request, new_set_outbound_nat_request,
  new_set_router_interfaces_request, new_set_state_request, new_set_tcp_firewall_enabled_request,
  new_set_udp_firewall_enabled_request, new_set_ddos_enabled_request_with_body,
  new_set_firewall_enabled_request_with_body, new_set_icmp_firewall_enabled_request_with_body,
  new_add_icmp_firewall_rule_request_with_body, new_set_tcp_firewall_enabled_request_with_body,
  new_add_tcp_firewall_rule_request_with_body, new_set_udp_firewall_enabled_request_with_body,
  new_add_udp_firewall_rule_request_with_body, new_set_router_interfaces_request_with_body,
  new_set_inbound_nat_request_with_body, new_set_outbound_nat_request_with_body,
  new_set_state_request_with_body,
}
use architect_networking.Http.Operations.{
  Operation, reset_ddos, get_ddos_status, set_ddos_enabled, add_ddos_ip, reset_firewall,
  get_firewall_status, set_firewall_enabled, reset_icmp_firewall, get_icmp_firewall_status,
  set_icmp_firewall_enabled, add_icmp_firewall_rule, remove_icmp_firewall_rule, reset_tcp_firewall,
  get_tcp_firewall_status, set_tcp_firewall_enabled, add_tcp_firewall_rule,
  remove_tcp_firewall_rule, reset_udp_firewall, get_udp_firewall_status, set_udp_firewall_enabled,
  add_udp_firewall_rule, remove_udp_firewall_rule, delete_ip, list_ips, create_ip,
  set_router_interfaces, set_inbound_nat, set_outbound_nat, get_router_status, get_state, set_state,
  build,
}
use architect_networking.Http.Recording.{requested, is_listed, documented, is_undocumented}

-- On a web that records requests, the method and path of an operation's request are in the
-- document's list exactly if the operation is none of the eight that reset or switch the firewalls,
-- or switch the router.
pub is_listed-requested :
    (o : Operation) → is_listed documented (requested o) ≡ not (is_undocumented o)
unfolding build is_listed is_undocumented plain_request body_request json_request ip_request
    rule_request new_add_ddos_ip_request new_add_icmp_firewall_rule_request
    new_add_tcp_firewall_rule_request new_add_udp_firewall_rule_request new_create_ip_request
    new_delete_ip_request new_get_ddos_status_request new_get_firewall_status_request
    new_get_icmp_firewall_status_request new_get_router_status_request new_get_state_request
    new_get_tcp_firewall_status_request new_get_udp_firewall_status_request new_list_ips_request
    new_remove_icmp_firewall_rule_request new_remove_tcp_firewall_rule_request
    new_remove_udp_firewall_rule_request new_reset_ddos_request new_reset_firewall_request
    new_reset_icmp_firewall_request new_reset_tcp_firewall_request new_reset_udp_firewall_request
    new_set_ddos_enabled_request new_set_firewall_enabled_request
    new_set_icmp_firewall_enabled_request new_set_inbound_nat_request new_set_outbound_nat_request
    new_set_router_interfaces_request new_set_state_request new_set_tcp_firewall_enabled_request
    new_set_udp_firewall_enabled_request new_set_ddos_enabled_request_with_body
    new_set_firewall_enabled_request_with_body new_set_icmp_firewall_enabled_request_with_body
    new_add_icmp_firewall_rule_request_with_body new_set_tcp_firewall_enabled_request_with_body
    new_add_tcp_firewall_rule_request_with_body new_set_udp_firewall_enabled_request_with_body
    new_add_udp_firewall_rule_request_with_body new_set_router_interfaces_request_with_body
    new_set_inbound_nat_request_with_body new_set_outbound_nat_request_with_body
    new_set_state_request_with_body
is_listed-requested reset_ddos = refl
is_listed-requested get_ddos_status = refl
is_listed-requested (set_ddos_enabled body) = refl
is_listed-requested (add_ddos_ip none) = refl
is_listed-requested (add_ddos_ip (some params)) = refl
is_listed-requested reset_firewall = refl
is_listed-requested get_firewall_status = refl
is_listed-requested (set_firewall_enabled body) = refl
is_listed-requested reset_icmp_firewall = refl
is_listed-requested get_icmp_firewall_status = refl
is_listed-requested (set_icmp_firewall_enabled body) = refl
is_listed-requested (add_icmp_firewall_rule body) = refl
is_listed-requested (remove_icmp_firewall_rule rule_id) = refl
is_listed-requested reset_tcp_firewall = refl
is_listed-requested get_tcp_firewall_status = refl
is_listed-requested (set_tcp_firewall_enabled body) = refl
is_listed-requested (add_tcp_firewall_rule body) = refl
is_listed-requested (remove_tcp_firewall_rule rule_id) = refl
is_listed-requested reset_udp_firewall = refl
is_listed-requested get_udp_firewall_status = refl
is_listed-requested (set_udp_firewall_enabled body) = refl
is_listed-requested (add_udp_firewall_rule body) = refl
is_listed-requested (remove_udp_firewall_rule rule_id) = refl
is_listed-requested (delete_ip none) = refl
is_listed-requested (delete_ip (some params)) = refl
is_listed-requested list_ips = refl
is_listed-requested (create_ip none) = refl
is_listed-requested (create_ip (some params)) = refl
is_listed-requested (set_router_interfaces body) = refl
is_listed-requested (set_inbound_nat body) = refl
is_listed-requested (set_outbound_nat body) = refl
is_listed-requested get_router_status = refl
is_listed-requested get_state = refl
is_listed-requested (set_state body) = refl
