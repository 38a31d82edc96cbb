-- ===== src/Http/Responses/Firewall.antt =====
-- pkg/client/client.go: the parsed answers about the firewall and its ICMP rules.
use architect_networking.Base.{ℕ, String, List, Except}
use architect_networking.Api.{FirewallConfig, IcmpFirewallRule}
use architect_networking.Http.{Web, Response, Client, RequestEditor}
use architect_networking.Http.Calls.{
  reset_firewall, get_firewall_status, set_firewall_enabled_with_body, set_firewall_enabled,
  reset_icmp_firewall, get_icmp_firewall_status, set_icmp_firewall_enabled_with_body,
  set_icmp_firewall_enabled, add_icmp_firewall_rule_with_body, add_icmp_firewall_rule,
  remove_icmp_firewall_rule,
}
use architect_networking.Http.Answers.{
  parse_json, parsed, AddIcmpFirewallRuleResponse, GetFirewallStatusResponse,
  GetIcmpFirewallStatusResponse, RemoveIcmpFirewallRuleResponse, ResetFirewallResponse,
  ResetIcmpFirewallResponse, SetFirewallEnabledResponse, SetIcmpFirewallEnabledResponse,
}

module _ (W : Web) where
  unfoldable pub parse_reset_firewall_response : Response → Except String ResetFirewallResponse
  parse_reset_firewall_response = parse_json W.json.firewall_status 200

  unfoldable pub reset_firewall_with_response :
      Client W → List (RequestEditor W) → W.State → Except String ResetFirewallResponse × W.State
  unfolding parse_reset_firewall_response
  reset_firewall_with_response c editors s =
      parsed parse_reset_firewall_response (reset_firewall W c editors s)

  unfoldable pub parse_get_firewall_status_response :
      Response → Except String GetFirewallStatusResponse
  parse_get_firewall_status_response = parse_json W.json.firewall_status 200

  unfoldable pub get_firewall_status_with_response :
      Client W
      → List (RequestEditor W)
      → W.State
      → Except String GetFirewallStatusResponse × W.State
  unfolding parse_get_firewall_status_response
  get_firewall_status_with_response c editors s =
      parsed parse_get_firewall_status_response (get_firewall_status W c editors s)

  unfoldable pub parse_set_firewall_enabled_response :
      Response → Except String SetFirewallEnabledResponse
  parse_set_firewall_enabled_response = parse_json W.json.firewall_status 200

  unfoldable pub set_firewall_enabled_with_body_with_response :
      Client W
      → String
      → String
      → List (RequestEditor W)
      → W.State
      → Except String SetFirewallEnabledResponse × W.State
  unfolding parse_set_firewall_enabled_response
  set_firewall_enabled_with_body_with_response c content_type body editors s =
      parsed parse_set_firewall_enabled_response
        (set_firewall_enabled_with_body W c content_type body editors s)

  unfoldable pub set_firewall_enabled_with_response :
      Client W
      → FirewallConfig
      → List (RequestEditor W)
      → W.State
      → Except String SetFirewallEnabledResponse × W.State
  unfolding parse_set_firewall_enabled_response
  set_firewall_enabled_with_response c body editors s =
      parsed parse_set_firewall_enabled_response (set_firewall_enabled W c body editors s)

  unfoldable pub parse_reset_icmp_firewall_response :
      Response → Except String ResetIcmpFirewallResponse
  parse_reset_icmp_firewall_response = parse_json W.json.icmp_firewall_status 200

  unfoldable pub reset_icmp_firewall_with_response :
      Client W
      → List (RequestEditor W)
      → W.State
      → Except String ResetIcmpFirewallResponse × W.State
  unfolding parse_reset_icmp_firewall_response
  reset_icmp_firewall_with_response c editors s =
      parsed parse_reset_icmp_firewall_response (reset_icmp_firewall W c editors s)

  unfoldable pub parse_get_icmp_firewall_status_response :
      Response → Except String GetIcmpFirewallStatusResponse
  parse_get_icmp_firewall_status_response = parse_json W.json.icmp_firewall_status 200

  unfoldable pub get_icmp_firewall_status_with_response :
      Client W
      → List (RequestEditor W)
      → W.State
      → Except String GetIcmpFirewallStatusResponse × W.State
  unfolding parse_get_icmp_firewall_status_response
  get_icmp_firewall_status_with_response c editors s =
      parsed parse_get_icmp_firewall_status_response (get_icmp_firewall_status W c editors s)

  unfoldable pub parse_set_icmp_firewall_enabled_response :
      Response → Except String SetIcmpFirewallEnabledResponse
  parse_set_icmp_firewall_enabled_response = parse_json W.json.icmp_firewall_status 200

  unfoldable pub set_icmp_firewall_enabled_with_body_with_response :
      Client W
      → String
      → String
      → List (RequestEditor W)
      → W.State
      → Except String SetIcmpFirewallEnabledResponse × W.State
  unfolding parse_set_icmp_firewall_enabled_response
  set_icmp_firewall_enabled_with_body_with_response c content_type body editors s =
      parsed parse_set_icmp_firewall_enabled_response
        (set_icmp_firewall_enabled_with_body W c content_type body editors s)

  unfoldable pub set_icmp_firewall_enabled_with_response :
      Client W
      → FirewallConfig
      → List (RequestEditor W)
      → W.State
      → Except String SetIcmpFirewallEnabledResponse × W.State
  unfolding parse_set_icmp_firewall_enabled_response
  set_icmp_firewall_enabled_with_response c body editors s =
      parsed parse_set_icmp_firewall_enabled_response (set_icmp_firewall_enabled W c body editors s)

  unfoldable pub parse_add_icmp_firewall_rule_response :
      Response → Except String AddIcmpFirewallRuleResponse
  parse_add_icmp_firewall_rule_response = parse_json W.json.icmp_firewall_rule_response 201

  unfoldable pub add_icmp_firewall_rule_with_body_with_response :
      Client W
      → String
      → String
      → List (RequestEditor W)
      → W.State
      → Except String AddIcmpFirewallRuleResponse × W.State
  unfolding parse_add_icmp_firewall_rule_response
  add_icmp_firewall_rule_with_body_with_response c content_type body editors s =
      parsed parse_add_icmp_firewall_rule_response
        (add_icmp_firewall_rule_with_body W c content_type body editors s)

  unfoldable pub add_icmp_firewall_rule_with_response :
      Client W
      → IcmpFirewallRule
      → List (RequestEditor W)
      → W.State
      → Except String AddIcmpFirewallRuleResponse × W.State
  unfolding parse_add_icmp_firewall_rule_response
  add_icmp_firewall_rule_with_response c body editors s =
      parsed parse_add_icmp_firewall_rule_response (add_icmp_firewall_rule W c body editors s)

  unfoldable pub parse_remove_icmp_firewall_rule_response :
      Response → Except String RemoveIcmpFirewallRuleResponse
  parse_remove_icmp_firewall_rule_response = parse_json W.json.icmp_firewall_status 200

  unfoldable pub remove_icmp_firewall_rule_with_response :
      Client W
      → ℕ
      → List (RequestEditor W)
      → W.State
      → Except String RemoveIcmpFirewallRuleResponse × W.State
  unfolding parse_remove_icmp_firewall_rule_response
  remove_icmp_firewall_rule_with_response c rule_id editors s =
      parsed parse_remove_icmp_firewall_rule_response
        (remove_icmp_firewall_rule W c rule_id editors s)
