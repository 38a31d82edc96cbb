-- ===== src/Http/Calls/Network.antt =====
-- pkg/client/client.go: the methods of `Client` about DDoS protection, IPs, the router and the NAT state.
use architect_networking.Base.{String, Option, List, Except}
use architect_networking.Message.{NatState}
use architect_networking.Api.{
  AddDdosIpParams, CreateIpParams, DdosConfig, DeleteIpParams, SetInboundNatJsonBody,
  SetOutboundNatJsonBody, SetRouterInterfacesJsonBody,
}
use architect_networking.Http.{Web, Response, Client, RequestEditor, perform}
use architect_networking.Http.Requests.{
  new_add_ddos_ip_request, new_create_ip_request, new_delete_ip_request,
  new_get_ddos_status_request, new_get_router_status_request, new_get_state_request,
  new_list_ips_request, new_reset_ddos_request, new_set_ddos_enabled_request,
  new_set_ddos_enabled_request_with_body, new_set_inbound_nat_request,
  new_set_inbound_nat_request_with_body, new_set_outbound_nat_request,
  new_set_outbound_nat_request_with_body, new_set_router_interfaces_request,
  new_set_router_interfaces_request_with_body, new_set_state_request,
  new_set_state_request_with_body,
}

module _ (W : Web) where
  unfoldable pub reset_ddos :
      Client W → List (RequestEditor W) → W.State → Except String Response × W.State
  reset_ddos c editors = perform W c editors (new_reset_ddos_request W c.server)

  unfoldable pub get_ddos_status :
      Client W → List (RequestEditor W) → W.State → Except String Response × W.State
  get_ddos_status c editors = perform W c editors (new_get_ddos_status_request W c.server)

  unfoldable pub set_ddos_enabled_with_body :
      Client W
      → String
      → String
      → List (RequestEditor W)
      → W.State
      → Except String Response × W.State
  set_ddos_enabled_with_body c content_type body editors =
      perform W c editors (new_set_ddos_enabled_request_with_body W c.server content_type body)

  unfoldable pub set_ddos_enabled :
      Client W → DdosConfig → List (RequestEditor W) → W.State → Except String Response × W.State
  set_ddos_enabled c body editors =
      perform W c editors (new_set_ddos_enabled_request W c.server body)

  unfoldable pub add_ddos_ip :
      Client W
      → Option AddDdosIpParams
      → List (RequestEditor W)
      → W.State
      → Except String Response × W.State
  add_ddos_ip c params editors = perform W c editors (new_add_ddos_ip_request W c.server params)

  unfoldable pub delete_ip :
      Client W
      → Option DeleteIpParams
      → List (RequestEditor W)
      → W.State
      → Except String Response × W.State
  delete_ip c params editors = perform W c editors (new_delete_ip_request W c.server params)

  unfoldable pub list_ips :
      Client W → List (RequestEditor W) → W.State → Except String Response × W.State
  list_ips c editors = perform W c editors (new_list_ips_request W c.server)

  unfoldable pub create_ip :
      Client W
      → Option CreateIpParams
      → List (RequestEditor W)
      → W.State
      → Except String Response × W.State
  create_ip c params editors = perform W c editors (new_create_ip_request W c.server params)

  unfoldable pub set_router_interfaces_with_body :
      Client W
      → String
      → String
      → List (RequestEditor W)
      → W.State
      → Except String Response × W.State
  set_router_interfaces_with_body c content_type body editors =
      perform W c editors (new_set_router_interfaces_request_with_body W c.server content_type body)

  unfoldable pub set_router_interfaces :
      Client W
      → SetRouterInterfacesJsonBody
      → List (RequestEditor W)
      → W.State
      → Except String Response × W.State
  set_router_interfaces c body editors =
      perform W c editors (new_set_router_interfaces_request W c.server body)

  unfoldable pub set_inbound_nat_with_body :
      Client W
      → String
      → String
      → List (RequestEditor W)
      → W.State
      → Except String Response × W.State
  set_inbound_nat_with_body c content_type body editors =
      perform W c editors (new_set_inbound_nat_request_with_body W c.server content_type body)

  unfoldable pub set_inbound_nat :
      Client W
      → SetInboundNatJsonBody
      → List (RequestEditor W)
      → W.State
      → Except String Response × W.State
  set_inbound_nat c body editors = perform W c editors (new_set_inbound_nat_request W c.server body)

  unfoldable pub set_outbound_nat_with_body :
      Client W
      → String
      → String
      → List (RequestEditor W)
      → W.State
      → Except String Response × W.State
  set_outbound_nat_with_body c content_type body editors =
      perform W c editors (new_set_outbound_nat_request_with_body W c.server content_type body)

  unfoldable pub set_outbound_nat :
      Client W
      → SetOutboundNatJsonBody
      → List (RequestEditor W)
      → W.State
      → Except String Response × W.State
  set_outbound_nat c body editors =
      perform W c editors (new_set_outbound_nat_request W c.server body)

  unfoldable pub get_router_status :
      Client W → List (RequestEditor W) → W.State → Except String Response × W.State
  get_router_status c editors = perform W c editors (new_get_router_status_request W c.server)

  unfoldable pub get_state :
      Client W → List (RequestEditor W) → W.State → Except String Response × W.State
  get_state c editors = perform W c editors (new_get_state_request W c.server)

  unfoldable pub set_state_with_body :
      Client W
      → String
      → String
      → List (RequestEditor W)
      → W.State
      → Except String Response × W.State
  set_state_with_body c content_type body editors =
      perform W c editors (new_set_state_request_with_body W c.server content_type body)

  unfoldable pub set_state :
      Client W → NatState → List (RequestEditor W) → W.State → Except String Response × W.State
  set_state c body editors = perform W c editors (new_set_state_request W c.server body)
