-- ===== src/Http/Responses/Ports.antt =====
-- pkg/client/client.go: the parsed answers about the TCP and UDP rules of the firewall.
use architect_networking.Base.{ℕ, String, List, Except}
use architect_networking.Api.{FirewallConfig, TcpFirewallRule, UdpFirewallRule}
use architect_networking.Http.{Web, Response, Client, RequestEditor}
use architect_networking.Http.Calls.{
  reset_tcp_firewall, get_tcp_firewall_status, set_tcp_firewall_enabled_with_body,
  set_tcp_firewall_enabled, add_tcp_firewall_rule_with_body, add_tcp_firewall_rule,
  remove_tcp_firewall_rule, reset_udp_firewall, get_udp_firewall_status,
  set_udp_firewall_enabled_with_body, set_udp_firewall_enabled, add_udp_firewall_rule_with_body,
  add_udp_firewall_rule, remove_udp_firewall_rule,
}
use architect_networking.Http.Answers.{
  parse_json, parsed, AddTcpFirewallRuleResponse, AddUdpFirewallRuleResponse,
  GetTcpFirewallStatusResponse, GetUdpFirewallStatusResponse, RemoveTcpFirewallRuleResponse,
  RemoveUdpFirewallRuleResponse, ResetTcpFirewallResponse, ResetUdpFirewallResponse,
  SetTcpFirewallEnabledResponse, SetUdpFirewallEnabledResponse,
}

module _ (W : Web) where
  unfoldable pub parse_reset_tcp_firewall_response :
      Response → Except String ResetTcpFirewallResponse
  parse_reset_tcp_firewall_response = parse_json W.json.tcp_firewall_status 200

  unfoldable pub reset_tcp_firewall_with_response :
      Client W → List (RequestEditor W) → W.State → Except String ResetTcpFirewallResponse × W.State
  unfolding parse_reset_tcp_firewall_response
  reset_tcp_firewall_with_response c editors s =
      parsed parse_reset_tcp_firewall_response (reset_tcp_firewall W c editors s)

  unfoldable pub parse_get_tcp_firewall_status_response :
      Response → Except String GetTcpFirewallStatusResponse
  parse_get_tcp_firewall_status_response = parse_json W.json.tcp_firewall_status 200

  unfoldable pub get_tcp_firewall_status_with_response :
      Client W
      → List (RequestEditor W)
      → W.State
      → Except String GetTcpFirewallStatusResponse × W.State
  unfolding parse_get_tcp_firewall_status_response
  get_tcp_firewall_status_with_response c editors s =
      parsed parse_get_tcp_firewall_status_response (get_tcp_firewall_status W c editors s)

  unfoldable pub parse_set_tcp_firewall_enabled_response :
      Response → Except String SetTcpFirewallEnabledResponse
  parse_set_tcp_firewall_enabled_response = parse_json W.json.tcp_firewall_status 200

  unfoldable pub set_tcp_firewall_enabled_with_body_with_response :
      Client W
      → String
      → String
      → List (RequestEditor W)
      → W.State
      → Except String SetTcpFirewallEnabledResponse × W.State
  unfolding parse_set_tcp_firewall_enabled_response
  set_tcp_firewall_enabled_with_body_with_response c content_type body editors s =
      parsed parse_set_tcp_firewall_enabled_response
        (set_tcp_firewall_enabled_with_body W c content_type body editors s)

  unfoldable pub set_tcp_firewall_enabled_with_response :
      Client W
      → FirewallConfig
      → List (RequestEditor W)
      → W.State
      → Except String SetTcpFirewallEnabledResponse × W.State
  unfolding parse_set_tcp_firewall_enabled_response
  set_tcp_firewall_enabled_with_response c body editors s =
      parsed parse_set_tcp_firewall_enabled_response (set_tcp_firewall_enabled W c body editors s)

  unfoldable pub parse_add_tcp_firewall_rule_response :
      Response → Except String AddTcpFirewallRuleResponse
  parse_add_tcp_firewall_rule_response = parse_json W.json.tcp_firewall_rule_response 201

  unfoldable pub add_tcp_firewall_rule_with_body_with_response :
      Client W
      → String
      → String
      → List (RequestEditor W)
      → W.State
      → Except String AddTcpFirewallRuleResponse × W.State
  unfolding parse_add_tcp_firewall_rule_response
  add_tcp_firewall_rule_with_body_with_response c content_type body editors s =
      parsed parse_add_tcp_firewall_rule_response
        (add_tcp_firewall_rule_with_body W c content_type body editors s)

  unfoldable pub add_tcp_firewall_rule_with_response :
      Client W
      → TcpFirewallRule
      → List (RequestEditor W)
      → W.State
      → Except String AddTcpFirewallRuleResponse × W.State
  unfolding parse_add_tcp_firewall_rule_response
  add_tcp_firewall_rule_with_response c body editors s =
      parsed parse_add_tcp_firewall_rule_response (add_tcp_firewall_rule W c body editors s)

  unfoldable pub parse_remove_tcp_firewall_rule_response :
      Response → Except String RemoveTcpFirewallRuleResponse
  parse_remove_tcp_firewall_rule_response = parse_json W.json.tcp_firewall_status 200

  unfoldable pub remove_tcp_firewall_rule_with_response :
      Client W
      → ℕ
      → List (RequestEditor W)
      → W.State
      → Except String RemoveTcpFirewallRuleResponse × W.State
  unfolding parse_remove_tcp_firewall_rule_response
  remove_tcp_firewall_rule_with_response c rule_id editors s =
      parsed parse_remove_tcp_firewall_rule_response
        (remove_tcp_firewall_rule W c rule_id editors s)

  unfoldable pub parse_reset_udp_firewall_response :
      Response → Except String ResetUdpFirewallResponse
  parse_reset_udp_firewall_response = parse_json W.json.udp_firewall_status 200

  unfoldable pub reset_udp_firewall_with_response :
      Client W → List (RequestEditor W) → W.State → Except String ResetUdpFirewallResponse × W.State
  unfolding parse_reset_udp_firewall_response
  reset_udp_firewall_with_response c editors s =
      parsed parse_reset_udp_firewall_response (reset_udp_firewall W c editors s)

  unfoldable pub parse_get_udp_firewall_status_response :
      Response → Except String GetUdpFirewallStatusResponse
  parse_get_udp_firewall_status_response = parse_json W.json.udp_firewall_status 200

  unfoldable pub get_udp_firewall_status_with_response :
      Client W
      → List (RequestEditor W)
      → W.State
      → Except String GetUdpFirewallStatusResponse × W.State
  unfolding parse_get_udp_firewall_status_response
  get_udp_firewall_status_with_response c editors s =
      parsed parse_get_udp_firewall_status_response (get_udp_firewall_status W c editors s)

  unfoldable pub parse_set_udp_firewall_enabled_response :
      Response → Except String SetUdpFirewallEnabledResponse
  parse_set_udp_firewall_enabled_response = parse_json W.json.udp_firewall_status 200

  unfoldable pub set_udp_firewall_enabled_with_body_with_response :
      Client W
      → String
      → String
      → List (RequestEditor W)
      → W.State
      → Except String SetUdpFirewallEnabledResponse × W.State
  unfolding parse_set_udp_firewall_enabled_response
  set_udp_firewall_enabled_with_body_with_response c content_type body editors s =
      parsed parse_set_udp_firewall_enabled_response
        (set_udp_firewall_enabled_with_body W c content_type body editors s)

  unfoldable pub set_udp_firewall_enabled_with_response :
      Client W
      → FirewallConfig
      → List (RequestEditor W)
      → W.State
      → Except String SetUdpFirewallEnabledResponse × W.State
  unfolding parse_set_udp_firewall_enabled_response
  set_udp_firewall_enabled_with_response c body editors s =
      parsed parse_set_udp_firewall_enabled_response (set_udp_firewall_enabled W c body editors s)

  unfoldable pub parse_add_udp_firewall_rule_response :
      Response → Except String AddUdpFirewallRuleResponse
  parse_add_udp_firewall_rule_response = parse_json W.json.udp_firewall_rule_response 201

  unfoldable pub add_udp_firewall_rule_with_body_with_response :
      Client W
      → String
      → String
      → List (RequestEditor W)
      → W.State
      → Except String AddUdpFirewallRuleResponse × W.State
  unfolding parse_add_udp_firewall_rule_response
  add_udp_firewall_rule_with_body_with_response c content_type body editors s =
      parsed parse_add_udp_firewall_rule_response
        (add_udp_firewall_rule_with_body W c content_type body editors s)

  unfoldable pub add_udp_firewall_rule_with_response :
      Client W
      → UdpFirewallRule
      → List (RequestEditor W)
      → W.State
      → Except String AddUdpFirewallRuleResponse × W.State
  unfolding parse_add_udp_firewall_rule_response
  add_udp_firewall_rule_with_response c body editors s =
      parsed parse_add_udp_firewall_rule_response (add_udp_firewall_rule W c body editors s)

  unfoldable pub parse_remove_udp_firewall_rule_response :
      Response → Except String RemoveUdpFirewallRuleResponse
  parse_remove_udp_firewall_rule_response = parse_json W.json.udp_firewall_status 200

  unfoldable pub remove_udp_firewall_rule_with_response :
      Client W
      → ℕ
      → List (RequestEditor W)
      → W.State
      → Except String RemoveUdpFirewallRuleResponse × W.State
  unfolding parse_remove_udp_firewall_rule_response
  remove_udp_firewall_rule_with_response c rule_id editors s =
      parsed parse_remove_udp_firewall_rule_response
        (remove_udp_firewall_rule W c rule_id editors s)
