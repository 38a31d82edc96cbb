-- ===== src/Http/Responses/Network.antt =====
-- pkg/client/client.go: the parsed answers about DDoS protection, IPs, the router and the NAT state.
use architect_networking.Base.{String, Option, List, Except}
use architect_networking.Message.{NatState}
use architect_networking.Api.{
  AddDdosIpParams, CreateIpParams, DdosConfig, DeleteIpParams, SetInboundNatJsonBody,
  SetOutboundNatJsonBody, SetRouterInterfacesJsonBody,
}
use architect_networking.Http.{Web, Response, Client, RequestEditor}
use architect_networking.Http.Calls.{
  reset_ddos, get_ddos_status, set_ddos_enabled_with_body, set_ddos_enabled, add_ddos_ip, delete_ip,
  list_ips, create_ip, set_router_interfaces_with_body, set_router_interfaces,
  set_inbound_nat_with_body, set_inbound_nat, set_outbound_nat_with_body, set_outbound_nat,
  get_router_status, get_state, set_state_with_body, set_state,
}
use architect_networking.Http.Answers.{
  parse_json, parsed, parse_plain, AddDdosIpResponse, CreateIpResponse, DeleteIpResponse,
  GetDdosStatusResponse, GetRouterStatusResponse, GetStateResponse, ListIpsResponse,
  ResetDdosResponse, SetDdosEnabledResponse, SetInboundNatResponse, SetOutboundNatResponse,
  SetRouterInterfacesResponse, SetStateResponse,
}

module _ (W : Web) where
  unfoldable pub parse_reset_ddos_response : Response → Except String ResetDdosResponse
  parse_reset_ddos_response = parse_json W.json.ddos_status 200

  unfoldable pub reset_ddos_with_response :
      Client W → List (RequestEditor W) → W.State → Except String ResetDdosResponse × W.State
  unfolding parse_reset_ddos_response
  reset_ddos_with_response c editors s = parsed parse_reset_ddos_response (reset_ddos W c editors s)

  unfoldable pub parse_get_ddos_status_response : Response → Except String GetDdosStatusResponse
  parse_get_ddos_status_response = parse_json W.json.ddos_status 200

  unfoldable pub get_ddos_status_with_response :
      Client W → List (RequestEditor W) → W.State → Except String GetDdosStatusResponse × W.State
  unfolding parse_get_ddos_status_response
  get_ddos_status_with_response c editors s =
      parsed parse_get_ddos_status_response (get_ddos_status W c editors s)

  unfoldable pub parse_set_ddos_enabled_response : Response → Except String SetDdosEnabledResponse
  parse_set_ddos_enabled_response = parse_json W.json.ddos_status 200

  unfoldable pub set_ddos_enabled_with_body_with_response :
      Client W
      → String
      → String
      → List (RequestEditor W)
      → W.State
      → Except String SetDdosEnabledResponse × W.State
  unfolding parse_set_ddos_enabled_response
  set_ddos_enabled_with_body_with_response c content_type body editors s =
      parsed parse_set_ddos_enabled_response
        (set_ddos_enabled_with_body W c content_type body editors s)

  unfoldable pub set_ddos_enabled_with_response :
      Client W
      → DdosConfig
      → List (RequestEditor W)
      → W.State
      → Except String SetDdosEnabledResponse × W.State
  unfolding parse_set_ddos_enabled_response
  set_ddos_enabled_with_response c body editors s =
      parsed parse_set_ddos_enabled_response (set_ddos_enabled W c body editors s)

  unfoldable pub parse_add_ddos_ip_response : Response → Except String AddDdosIpResponse
  parse_add_ddos_ip_response = parse_json W.json.ddos_status 201

  unfoldable pub add_ddos_ip_with_response :
      Client W
      → Option AddDdosIpParams
      → List (RequestEditor W)
      → W.State
      → Except String AddDdosIpResponse × W.State
  unfolding parse_add_ddos_ip_response
  add_ddos_ip_with_response c params editors s =
      parsed parse_add_ddos_ip_response (add_ddos_ip W c params editors s)

  unfoldable pub parse_delete_ip_response : Response → Except String DeleteIpResponse
  parse_delete_ip_response = parse_json W.json.texts 200

  unfoldable pub delete_ip_with_response :
      Client W
      → Option DeleteIpParams
      → List (RequestEditor W)
      → W.State
      → Except String DeleteIpResponse × W.State
  unfolding parse_delete_ip_response
  delete_ip_with_response c params editors s =
      parsed parse_delete_ip_response (delete_ip W c params editors s)

  unfoldable pub parse_list_ips_response : Response → Except String ListIpsResponse
  parse_list_ips_response = parse_json W.json.texts 200

  unfoldable pub list_ips_with_response :
      Client W → List (RequestEditor W) → W.State → Except String ListIpsResponse × W.State
  unfolding parse_list_ips_response
  list_ips_with_response c editors s = parsed parse_list_ips_response (list_ips W c editors s)

  unfoldable pub parse_create_ip_response : Response → Except String CreateIpResponse
  parse_create_ip_response = parse_json W.json.texts 201

  unfoldable pub create_ip_with_response :
      Client W
      → Option CreateIpParams
      → List (RequestEditor W)
      → W.State
      → Except String CreateIpResponse × W.State
  unfolding parse_create_ip_response
  create_ip_with_response c params editors s =
      parsed parse_create_ip_response (create_ip W c params editors s)

  unfoldable pub parse_set_router_interfaces_response :
      Response → Except String SetRouterInterfacesResponse
  parse_set_router_interfaces_response = parse_json W.json.enabled_state 200

  unfoldable pub set_router_interfaces_with_body_with_response :
      Client W
      → String
      → String
      → List (RequestEditor W)
      → W.State
      → Except String SetRouterInterfacesResponse × W.State
  unfolding parse_set_router_interfaces_response
  set_router_interfaces_with_body_with_response c content_type body editors s =
      parsed parse_set_router_interfaces_response
        (set_router_interfaces_with_body W c content_type body editors s)

  unfoldable pub set_router_interfaces_with_response :
      Client W
      → SetRouterInterfacesJsonBody
      → List (RequestEditor W)
      → W.State
      → Except String SetRouterInterfacesResponse × W.State
  unfolding parse_set_router_interfaces_response
  set_router_interfaces_with_response c body editors s =
      parsed parse_set_router_interfaces_response (set_router_interfaces W c body editors s)

  unfoldable pub parse_set_inbound_nat_response : Response → Except String SetInboundNatResponse
  parse_set_inbound_nat_response = parse_json W.json.enabled_state 200

  unfoldable pub set_inbound_nat_with_body_with_response :
      Client W
      → String
      → String
      → List (RequestEditor W)
      → W.State
      → Except String SetInboundNatResponse × W.State
  unfolding parse_set_inbound_nat_response
  set_inbound_nat_with_body_with_response c content_type body editors s =
      parsed parse_set_inbound_nat_response
        (set_inbound_nat_with_body W c content_type body editors s)

  unfoldable pub set_inbound_nat_with_response :
      Client W
      → SetInboundNatJsonBody
      → List (RequestEditor W)
      → W.State
      → Except String SetInboundNatResponse × W.State
  unfolding parse_set_inbound_nat_response
  set_inbound_nat_with_response c body editors s =
      parsed parse_set_inbound_nat_response (set_inbound_nat W c body editors s)

  unfoldable pub parse_set_outbound_nat_response : Response → Except String SetOutboundNatResponse
  parse_set_outbound_nat_response = parse_json W.json.enabled_state 200

  unfoldable pub set_outbound_nat_with_body_with_response :
      Client W
      → String
      → String
      → List (RequestEditor W)
      → W.State
      → Except String SetOutboundNatResponse × W.State
  unfolding parse_set_outbound_nat_response
  set_outbound_nat_with_body_with_response c content_type body editors s =
      parsed parse_set_outbound_nat_response
        (set_outbound_nat_with_body W c content_type body editors s)

  unfoldable pub set_outbound_nat_with_response :
      Client W
      → SetOutboundNatJsonBody
      → List (RequestEditor W)
      → W.State
      → Except String SetOutboundNatResponse × W.State
  unfolding parse_set_outbound_nat_response
  set_outbound_nat_with_response c body editors s =
      parsed parse_set_outbound_nat_response (set_outbound_nat W c body editors s)

  unfoldable pub parse_get_router_status_response : Response → Except String GetRouterStatusResponse
  parse_get_router_status_response = parse_json W.json.router_status 200

  unfoldable pub get_router_status_with_response :
      Client W → List (RequestEditor W) → W.State → Except String GetRouterStatusResponse × W.State
  unfolding parse_get_router_status_response
  get_router_status_with_response c editors s =
      parsed parse_get_router_status_response (get_router_status W c editors s)

  unfoldable pub parse_get_state_response : Response → Except String GetStateResponse
  parse_get_state_response = parse_json W.json.nat_state 200

  unfoldable pub get_state_with_response :
      Client W → List (RequestEditor W) → W.State → Except String GetStateResponse × W.State
  unfolding parse_get_state_response
  get_state_with_response c editors s = parsed parse_get_state_response (get_state W c editors s)

  unfoldable pub parse_set_state_response : Response → Except String SetStateResponse
  parse_set_state_response = parse_plain

  unfoldable pub set_state_with_body_with_response :
      Client W
      → String
      → String
      → List (RequestEditor W)
      → W.State
      → Except String SetStateResponse × W.State
  unfolding parse_set_state_response
  set_state_with_body_with_response c content_type body editors s =
      parsed parse_set_state_response (set_state_with_body W c content_type body editors s)

  unfoldable pub set_state_with_response :
      Client W
      → NatState
      → List (RequestEditor W)
      → W.State
      → Except String SetStateResponse × W.State
  unfolding parse_set_state_response
  set_state_with_response c body editors s =
      parsed parse_set_state_response (set_state W c body editors s)
