-- ===== src/Http/Answers.antt =====
-- pkg/client/client.go: the responses as the client returns them, and how they are parsed.
use architect_networking.Base.{
  ℕ, String, ◌&&◌, Option, none, some, List, Except, ok, ◌==◌, if◌then◌else◌,
}
use architect_networking.Message.{NatState}
use architect_networking.Api.{
  DdosStatus, EnabledState, FirewallStatus, IcmpFirewallRuleResponse, IcmpFirewallStatus,
  RouterStatus, TcpFirewallRuleResponse, TcpFirewallStatus, UdpFirewallRuleResponse,
  UdpFirewallStatus, Codec,
}
use architect_networking.Http.{Response, contains_json}
use architect_networking.Base.Chain.{◌>>=◌}

-- `Body`, `HTTPResponse`, and the field `JSON200` or `JSON201`, if the response has one.
pub record ApiResponse (A : Type 0) : Type 0 where
  pub body : String
  pub http_response : Option Response
  pub json : Option A

unfoldable pub status_code : {A : Type 0} → ApiResponse A → ℕ
status_code r = elim r.http_response [ none ↦ 0 | some rsp ↦ rsp.status_code ]

unfoldable pub parse_json : {A : Type 0} → Codec A → ℕ → Response → Except String (ApiResponse A)
parse_json j status rsp = do
  body_bytes ← rsp.body
  if contains_json rsp.content_type && (rsp.status_code == status)
      then (do
        dest ← j.unmarshal body_bytes
        ok (record { body = body_bytes; http_response = some rsp; json = some dest }))
      else ok (record { body = body_bytes; http_response = some rsp; json = none })

unfoldable pub parse_plain : Response → Except String (ApiResponse (Unit {0}))
parse_plain rsp = do
  body_bytes ← rsp.body
  ok (record { body = body_bytes; http_response = some rsp; json = none })

-- A method with a response parses what the method returns, unless that is an error.
unfoldable pub parsed :
    {A S : Type 0} → (Response → Except String A) → Except String Response × S → Except String A × S
parsed parse (r, s) = (r >>= parse, s)

abbrev pub ResetDdosResponse : Type 0
ResetDdosResponse = ApiResponse DdosStatus

abbrev pub GetDdosStatusResponse : Type 0
GetDdosStatusResponse = ApiResponse DdosStatus

abbrev pub SetDdosEnabledResponse : Type 0
SetDdosEnabledResponse = ApiResponse DdosStatus

abbrev pub AddDdosIpResponse : Type 0
AddDdosIpResponse = ApiResponse DdosStatus

abbrev pub ResetFirewallResponse : Type 0
ResetFirewallResponse = ApiResponse FirewallStatus

abbrev pub GetFirewallStatusResponse : Type 0
GetFirewallStatusResponse = ApiResponse FirewallStatus

abbrev pub SetFirewallEnabledResponse : Type 0
SetFirewallEnabledResponse = ApiResponse FirewallStatus

abbrev pub ResetIcmpFirewallResponse : Type 0
ResetIcmpFirewallResponse = ApiResponse IcmpFirewallStatus

abbrev pub GetIcmpFirewallStatusResponse : Type 0
GetIcmpFirewallStatusResponse = ApiResponse IcmpFirewallStatus

abbrev pub SetIcmpFirewallEnabledResponse : Type 0
SetIcmpFirewallEnabledResponse = ApiResponse IcmpFirewallStatus

abbrev pub AddIcmpFirewallRuleResponse : Type 0
AddIcmpFirewallRuleResponse = ApiResponse IcmpFirewallRuleResponse

abbrev pub RemoveIcmpFirewallRuleResponse : Type 0
RemoveIcmpFirewallRuleResponse = ApiResponse IcmpFirewallStatus

abbrev pub ResetTcpFirewallResponse : Type 0
ResetTcpFirewallResponse = ApiResponse TcpFirewallStatus

abbrev pub GetTcpFirewallStatusResponse : Type 0
GetTcpFirewallStatusResponse = ApiResponse TcpFirewallStatus

abbrev pub SetTcpFirewallEnabledResponse : Type 0
SetTcpFirewallEnabledResponse = ApiResponse TcpFirewallStatus

abbrev pub AddTcpFirewallRuleResponse : Type 0
AddTcpFirewallRuleResponse = ApiResponse TcpFirewallRuleResponse

abbrev pub RemoveTcpFirewallRuleResponse : Type 0
RemoveTcpFirewallRuleResponse = ApiResponse TcpFirewallStatus

abbrev pub ResetUdpFirewallResponse : Type 0
ResetUdpFirewallResponse = ApiResponse UdpFirewallStatus

abbrev pub GetUdpFirewallStatusResponse : Type 0
GetUdpFirewallStatusResponse = ApiResponse UdpFirewallStatus

abbrev pub SetUdpFirewallEnabledResponse : Type 0
SetUdpFirewallEnabledResponse = ApiResponse UdpFirewallStatus

abbrev pub AddUdpFirewallRuleResponse : Type 0
AddUdpFirewallRuleResponse = ApiResponse UdpFirewallRuleResponse

abbrev pub RemoveUdpFirewallRuleResponse : Type 0
RemoveUdpFirewallRuleResponse = ApiResponse UdpFirewallStatus

abbrev pub DeleteIpResponse : Type 0
DeleteIpResponse = ApiResponse (List String)

abbrev pub ListIpsResponse : Type 0
ListIpsResponse = ApiResponse (List String)

abbrev pub CreateIpResponse : Type 0
CreateIpResponse = ApiResponse (List String)

abbrev pub SetRouterInterfacesResponse : Type 0
SetRouterInterfacesResponse = ApiResponse EnabledState

abbrev pub SetInboundNatResponse : Type 0
SetInboundNatResponse = ApiResponse EnabledState

abbrev pub SetOutboundNatResponse : Type 0
SetOutboundNatResponse = ApiResponse EnabledState

abbrev pub GetRouterStatusResponse : Type 0
GetRouterStatusResponse = ApiResponse RouterStatus

abbrev pub GetStateResponse : Type 0
GetStateResponse = ApiResponse NatState

abbrev pub SetStateResponse : Type 0
SetStateResponse = ApiResponse (Unit {0})
