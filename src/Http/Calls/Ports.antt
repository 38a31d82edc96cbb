-- ===== src/Http/Calls/Ports.antt =====
-- pkg/client/client.go: the methods of `Client` about the TCP and UDP rules of the firewall.
use architect_networking.Base.{ℕ, String, List, Except}
use architect_networking.Api.{FirewallConfig, TcpFirewallRule, UdpFirewallRule}
use architect_networking.Http.{Web, Response, Client, RequestEditor, perform}
use architect_networking.Http.Requests.{
  new_add_tcp_firewall_rule_request, new_add_tcp_firewall_rule_request_with_body,
  new_add_udp_firewall_rule_request, new_add_udp_firewall_rule_request_with_body,
  new_get_tcp_firewall_status_request, new_get_udp_firewall_status_request,
  new_remove_tcp_firewall_rule_request, new_remove_udp_firewall_rule_request,
  new_reset_tcp_firewall_request, new_reset_udp_firewall_request,
  new_set_tcp_firewall_enabled_request, new_set_tcp_firewall_enabled_request_with_body,
  new_set_udp_firewall_enabled_request, new_set_udp_firewall_enabled_request_with_body,
}

module _ (W : Web) where
  unfoldable pub reset_tcp_firewall :
      Client W → List (RequestEditor W) → W.State → Except String Response × W.State
  reset_tcp_firewall c editors = perform W c editors (new_reset_tcp_firewall_request W c.server)

  unfoldable pub get_tcp_firewall_status :
      Client W → List (RequestEditor W) → W.State → Except String Response × W.State
  get_tcp_firewall_status c editors =
      perform W c editors (new_get_tcp_firewall_status_request W c.server)

  unfoldable pub set_tcp_firewall_enabled_with_body :
      Client W
      → String
      → String
      → List (RequestEditor W)
      → W.State
      → Except String Response × W.State
  set_tcp_firewall_enabled_with_body c content_type body editors =
      perform W c editors
        (new_set_tcp_firewall_enabled_request_with_body W c.server content_type body)

  unfoldable pub set_tcp_firewall_enabled :
      Client W
      → FirewallConfig
      → List (RequestEditor W)
      → W.State
      → Except String Response × W.State
  set_tcp_firewall_enabled c body editors =
      perform W c editors (new_set_tcp_firewall_enabled_request W c.server body)

  unfoldable pub add_tcp_firewall_rule_with_body :
      Client W
      → String
      → String
      → List (RequestEditor W)
      → W.State
      → Except String Response × W.State
  add_tcp_firewall_rule_with_body c content_type body editors =
      perform W c editors (new_add_tcp_firewall_rule_request_with_body W c.server content_type body)

  unfoldable pub add_tcp_firewall_rule :
      Client W
      → TcpFirewallRule
      → List (RequestEditor W)
      → W.State
      → Except String Response × W.State
  add_tcp_firewall_rule c body editors =
      perform W c editors (new_add_tcp_firewall_rule_request W c.server body)

  unfoldable pub remove_tcp_firewall_rule :
      Client W → ℕ → List (RequestEditor W) → W.State → Except String Response × W.State
  remove_tcp_firewall_rule c rule_id editors =
      perform W c editors (new_remove_tcp_firewall_rule_request W c.server rule_id)

  unfoldable pub reset_udp_firewall :
      Client W → List (RequestEditor W) → W.State → Except String Response × W.State
  reset_udp_firewall c editors = perform W c editors (new_reset_udp_firewall_request W c.server)

  unfoldable pub get_udp_firewall_status :
      Client W → List (RequestEditor W) → W.State → Except String Response × W.State
  get_udp_firewall_status c editors =
      perform W c editors (new_get_udp_firewall_status_request W c.server)

  unfoldable pub set_udp_firewall_enabled_with_body :
      Client W
      → String
      → String
      → List (RequestEditor W)
      → W.State
      → Except String Response × W.State
  set_udp_firewall_enabled_with_body c content_type body editors =
      perform W c editors
        (new_set_udp_firewall_enabled_request_with_body W c.server content_type body)

  unfoldable pub set_udp_firewall_enabled :
      Client W
      → FirewallConfig
      → List (RequestEditor W)
      → W.State
      → Except String Response × W.State
  set_udp_firewall_enabled c body editors =
      perform W c editors (new_set_udp_firewall_enabled_request W c.server body)

  unfoldable pub add_udp_firewall_rule_with_body :
      Client W
      → String
      → String
      → List (RequestEditor W)
      → W.State
      → Except String Response × W.State
  add_udp_firewall_rule_with_body c content_type body editors =
      perform W c editors (new_add_udp_firewall_rule_request_with_body W c.server content_type body)

  unfoldable pub add_udp_firewall_rule :
      Client W
      → UdpFirewallRule
      → List (RequestEditor W)
      → W.State
      → Except String Response × W.State
  add_udp_firewall_rule c body editors =
      perform W c editors (new_add_udp_firewall_rule_request W c.server body)

  unfoldable pub remove_udp_firewall_rule :
      Client W → ℕ → List (RequestEditor W) → W.State → Except String Response × W.State
  remove_udp_firewall_rule c rule_id editors =
      perform W c editors (new_remove_udp_firewall_rule_request W c.server rule_id)
