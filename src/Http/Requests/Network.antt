-- ===== src/Http/Requests/Network.antt =====
-- pkg/client/client.go: the requests about DDoS protection, IPs, the router and the NAT state.
use architect_networking.Base.{String, Option, Except}
use architect_networking.Message.{NatState}
use architect_networking.Api.{
  AddDdosIpParams, CreateIpParams, DdosConfig, DeleteIpParams, SetInboundNatJsonBody,
  SetOutboundNatJsonBody, SetRouterInterfacesJsonBody,
}
use architect_networking.Http.{Web}
use architect_networking.Http.Build.{
  plain_request, body_request, json_request, ip_request, option_map,
}

module _ (W : Web) where
  unfoldable pub new_reset_ddos_request : String → Except String W.Request
  new_reset_ddos_request = plain_request W "DELETE" "/transit/ddos"

  unfoldable pub new_get_ddos_status_request : String → Except String W.Request
  new_get_ddos_status_request = plain_request W "GET" "/transit/ddos"

  unfoldable pub new_set_ddos_enabled_request_with_body :
      String → String → String → Except String W.Request
  new_set_ddos_enabled_request_with_body server content_type body =
      body_request W "PUT" "/transit/ddos" server content_type body

  unfoldable pub new_set_ddos_enabled_request : String → DdosConfig → Except String W.Request
  unfolding new_set_ddos_enabled_request_with_body
  new_set_ddos_enabled_request =
      json_request W W.json.ddos_config new_set_ddos_enabled_request_with_body

  unfoldable pub new_add_ddos_ip_request : String → Option AddDdosIpParams → Except String W.Request
  new_add_ddos_ip_request server params =
      ip_request W "POST" "/transit/ddos/ips" server
        (option_map (λ (p : AddDdosIpParams). p.ip) params)

  unfoldable pub new_delete_ip_request : String → Option DeleteIpParams → Except String W.Request
  new_delete_ip_request server params =
      ip_request W "DELETE" "/transit/ips" server (option_map (λ (p : DeleteIpParams). p.ip) params)

  unfoldable pub new_list_ips_request : String → Except String W.Request
  new_list_ips_request = plain_request W "GET" "/transit/ips"

  unfoldable pub new_create_ip_request : String → Option CreateIpParams → Except String W.Request
  new_create_ip_request server params =
      ip_request W "POST" "/transit/ips" server (option_map (λ (p : CreateIpParams). p.ip) params)

  unfoldable pub new_set_router_interfaces_request_with_body :
      String → String → String → Except String W.Request
  new_set_router_interfaces_request_with_body server content_type body =
      body_request W "POST" "/transit/router/interfaces" server content_type body

  unfoldable pub new_set_router_interfaces_request :
      String → SetRouterInterfacesJsonBody → Except String W.Request
  unfolding new_set_router_interfaces_request_with_body
  new_set_router_interfaces_request =
      json_request W W.json.router_interfaces new_set_router_interfaces_request_with_body

  unfoldable pub new_set_inbound_nat_request_with_body :
      String → String → String → Except String W.Request
  new_set_inbound_nat_request_with_body server content_type body =
      body_request W "POST" "/transit/router/nat/inbound" server content_type body

  unfoldable pub new_set_inbound_nat_request :
      String → SetInboundNatJsonBody → Except String W.Request
  unfolding new_set_inbound_nat_request_with_body
  new_set_inbound_nat_request =
      json_request W W.json.inbound_nat new_set_inbound_nat_request_with_body

  unfoldable pub new_set_outbound_nat_request_with_body :
      String → String → String → Except String W.Request
  new_set_outbound_nat_request_with_body server content_type body =
      body_request W "POST" "/transit/router/nat/outbound" server content_type body

  unfoldable pub new_set_outbound_nat_request :
      String → SetOutboundNatJsonBody → Except String W.Request
  unfolding new_set_outbound_nat_request_with_body
  new_set_outbound_nat_request =
      json_request W W.json.outbound_nat new_set_outbound_nat_request_with_body

  unfoldable pub new_get_router_status_request : String → Except String W.Request
  new_get_router_status_request = plain_request W "GET" "/transit/router/status"

  unfoldable pub new_get_state_request : String → Except String W.Request
  new_get_state_request = plain_request W "GET" "/transit/state"

  unfoldable pub new_set_state_request_with_body :
      String → String → String → Except String W.Request
  new_set_state_request_with_body server content_type body =
      body_request W "PUT" "/transit/state" server content_type body

  unfoldable pub new_set_state_request : String → NatState → Except String W.Request
  unfolding new_set_state_request_with_body
  new_set_state_request = json_request W W.json.nat_state new_set_state_request_with_body
