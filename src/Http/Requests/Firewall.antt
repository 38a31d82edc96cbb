-- ===== src/Http/Requests/Firewall.antt =====
-- pkg/client/client.go: the requests about the firewall and its ICMP rules.
use architect_networking.Base.{ℕ, String, Except}
use architect_networking.Api.{FirewallConfig, IcmpFirewallRule}
use architect_networking.Http.{Web}
use architect_networking.Http.Build.{plain_request, body_request, json_request, rule_request}

module _ (W : Web) where
  unfoldable pub new_reset_firewall_request : String → Except String W.Request
  new_reset_firewall_request = plain_request W "DELETE" "/transit/firewall"

  unfoldable pub new_get_firewall_status_request : String → Except String W.Request
  new_get_firewall_status_request = plain_request W "GET" "/transit/firewall"

  unfoldable pub new_set_firewall_enabled_request_with_body :
      String → String → String → Except String W.Request
  new_set_firewall_enabled_request_with_body server content_type body =
      body_request W "PUT" "/transit/firewall" server content_type body

  unfoldable pub new_set_firewall_enabled_request :
      String → FirewallConfig → Except String W.Request
  unfolding new_set_firewall_enabled_request_with_body
  new_set_firewall_enabled_request =
      json_request W W.json.firewall_config new_set_firewall_enabled_request_with_body

  unfoldable pub new_reset_icmp_firewall_request : String → Except String W.Request
  new_reset_icmp_firewall_request = plain_request W "DELETE" "/transit/firewall/icmp"

  unfoldable pub new_get_icmp_firewall_status_request : String → Except String W.Request
  new_get_icmp_firewall_status_request = plain_request W "GET" "/transit/firewall/icmp"

  unfoldable pub new_set_icmp_firewall_enabled_request_with_body :
      String → String → String → Except String W.Request
  new_set_icmp_firewall_enabled_request_with_body server content_type body =
      body_request W "PUT" "/transit/firewall/icmp" server content_type body

  unfoldable pub new_set_icmp_firewall_enabled_request :
      String → FirewallConfig → Except String W.Request
  unfolding new_set_icmp_firewall_enabled_request_with_body
  new_set_icmp_firewall_enabled_request =
      json_request W W.json.firewall_config new_set_icmp_firewall_enabled_request_with_body

  unfoldable pub new_add_icmp_firewall_rule_request_with_body :
      String → String → String → Except String W.Request
  new_add_icmp_firewall_rule_request_with_body server content_type body =
      body_request W "POST" "/transit/firewall/icmp/rules" server content_type body

  unfoldable pub new_add_icmp_firewall_rule_request :
      String → IcmpFirewallRule → Except String W.Request
  unfolding new_add_icmp_firewall_rule_request_with_body
  new_add_icmp_firewall_rule_request =
      json_request W W.json.icmp_firewall_rule new_add_icmp_firewall_rule_request_with_body

  unfoldable pub new_remove_icmp_firewall_rule_request : String → ℕ → Except String W.Request
  new_remove_icmp_firewall_rule_request = rule_request W "DELETE" "/transit/firewall/icmp/rules/"
