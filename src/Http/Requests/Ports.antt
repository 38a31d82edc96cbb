-- ===== src/Http/Requests/Ports.antt =====
-- pkg/client/client.go: the requests about the TCP and UDP rules of the firewall.
use architect_networking.Base.{ℕ, String, Except}
use architect_networking.Api.{FirewallConfig, TcpFirewallRule, UdpFirewallRule}
use architect_networking.Http.{Web}
use architect_networking.Http.Build.{plain_request, body_request, json_request, rule_request}

module _ (W : Web) where
  unfoldable pub new_reset_tcp_firewall_request : String → Except String W.Request
  new_reset_tcp_firewall_request = plain_request W "DELETE" "/transit/firewall/tcp"

  unfoldable pub new_get_tcp_firewall_status_request : String → Except String W.Request
  new_get_tcp_firewall_status_request = plain_request W "GET" "/transit/firewall/tcp"

  unfoldable pub new_set_tcp_firewall_enabled_request_with_body :
      String → String → String → Except String W.Request
  new_set_tcp_firewall_enabled_request_with_body server content_type body =
      body_request W "PUT" "/transit/firewall/tcp" server content_type body

  unfoldable pub new_set_tcp_firewall_enabled_request :
      String → FirewallConfig → Except String W.Request
  unfolding new_set_tcp_firewall_enabled_request_with_body
  new_set_tcp_firewall_enabled_request =
      json_request W W.json.firewall_config new_set_tcp_firewall_enabled_request_with_body

  unfoldable pub new_add_tcp_firewall_rule_request_with_body :
      String → String → String → Except String W.Request
  new_add_tcp_firewall_rule_request_with_body server content_type body =
      body_request W "POST" "/transit/firewall/tcp/rules" server content_type body

  unfoldable pub new_add_tcp_firewall_rule_request :
      String → TcpFirewallRule → Except String W.Request
  unfolding new_add_tcp_firewall_rule_request_with_body
  new_add_tcp_firewall_rule_request =
      json_request W W.json.tcp_firewall_rule new_add_tcp_firewall_rule_request_with_body

  unfoldable pub new_remove_tcp_firewall_rule_request : String → ℕ → Except String W.Request
  new_remove_tcp_firewall_rule_request = rule_request W "DELETE" "/transit/firewall/tcp/rules/"

  unfoldable pub new_reset_udp_firewall_request : String → Except String W.Request
  new_reset_udp_firewall_request = plain_request W "DELETE" "/transit/firewall/udp"

  unfoldable pub new_get_udp_firewall_status_request : String → Except String W.Request
  new_get_udp_firewall_status_request = plain_request W "GET" "/transit/firewall/udp"

  unfoldable pub new_set_udp_firewall_enabled_request_with_body :
      String → String → String → Except String W.Request
  new_set_udp_firewall_enabled_request_with_body server content_type body =
      body_request W "PUT" "/transit/firewall/udp" server content_type body

  unfoldable pub new_set_udp_firewall_enabled_request :
      String → FirewallConfig → Except String W.Request
  unfolding new_set_udp_firewall_enabled_request_with_body
  new_set_udp_firewall_enabled_request =
      json_request W W.json.firewall_config new_set_udp_firewall_enabled_request_with_body

  unfoldable pub new_add_udp_firewall_rule_request_with_body :
      String → String → String → Except String W.Request
  new_add_udp_firewall_rule_request_with_body server content_type body =
      body_request W "POST" "/transit/firewall/udp/rules" server content_type body

  unfoldable pub new_add_udp_firewall_rule_request :
      String → UdpFirewallRule → Except String W.Request
  unfolding new_add_udp_firewall_rule_request_with_body
  new_add_udp_firewall_rule_request =
      json_request W W.json.udp_firewall_rule new_add_udp_firewall_rule_request_with_body

  unfoldable pub new_remove_udp_firewall_rule_request : String → ℕ → Except String W.Request
  new_remove_udp_firewall_rule_request = rule_request W "DELETE" "/transit/firewall/udp/rules/"
