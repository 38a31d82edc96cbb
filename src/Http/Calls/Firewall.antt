-- ===== src/Http/Calls/Firewall.antt =====
-- pkg/client/client.go: the methods of `Client` about the firewall and its ICMP rules.
use architect_networking.Base.{ℕ, String, List, Except}
use architect_networking.Api.{FirewallConfig, IcmpFirewallRule}
use architect_networking.Http.{Web, Response, Client, RequestEditor, perform}
use architect_networking.Http.Requests.{
  new_add_icmp_firewall_rule_request, new_add_icmp_firewall_rule_request_with_body,
  new_get_firewall_status_request, new_get_icmp_firewall_status_request,
  new_remove_icmp_firewall_rule_request, new_reset_firewall_request,
  new_reset_icmp_firewall_request, new_set_firewall_enabled_request,
  new_set_firewall_enabled_request_with_body, new_set_icmp_firewall_enabled_request,
  new_set_icmp_firewall_enabled_request_with_body,
}

module _ (W : Web) where
  unfoldable pub reset_firewall :
      Client W → List (RequestEditor W) → W.State → Except String Response × W.State
  reset_firewall c editors = perform W c editors (new_reset_firewall_request W c.server)

  unfoldable pub get_firewall_status :
      Client W → List (RequestEditor W) → W.State → Except String Response × W.State
  get_firewall_status c editors = perform W c editors (new_get_firewall_status_request W c.server)

  unfoldable pub set_firewall_enabled_with_body :
      Client W
      → String
      → String
      → List (RequestEditor W)
      → W.State
      → Except String Response × W.State
  set_firewall_enabled_with_body c content_type body editors =
      perform W c editors (new_set_firewall_enabled_request_with_body W c.server content_type body)

  unfoldable pub set_firewall_enabled :
      Client W
      → FirewallConfig
      → List (RequestEditor W)
      → W.State
      → Except String Response × W.State
  set_firewall_enabled c body editors =
      perform W c editors (new_set_firewall_enabled_request W c.server body)

  unfoldable pub reset_icmp_firewall :
      Client W → List (RequestEditor W) → W.State → Except String Response × W.State
  reset_icmp_firewall c editors = perform W c editors (new_reset_icmp_firewall_request W c.server)

  unfoldable pub get_icmp_firewall_status :
      Client W → List (RequestEditor W) → W.State → Except String Response × W.State
  get_icmp_firewall_status c editors =
      perform W c editors (new_get_icmp_firewall_status_request W c.server)

  unfoldable pub set_icmp_firewall_enabled_with_body :
      Client W
      → String
      → String
      → List (RequestEditor W)
      → W.State
      → Except String Response × W.State
  set_icmp_firewall_enabled_with_body c content_type body editors =
      perform W c editors
        (new_set_icmp_firewall_enabled_request_with_body W c.server content_type body)

  unfoldable pub set_icmp_firewall_enabled :
      Client W
      → FirewallConfig
      → List (RequestEditor W)
      → W.State
      → Except String Response × W.State
  set_icmp_firewall_enabled c body editors =
      perform W c editors (new_set_icmp_firewall_enabled_request W c.server body)

  unfoldable pub add_icmp_firewall_rule_with_body :
      Client W
      → String
      → String
      → List (RequestEditor W)
      → W.State
      → Except String Response × W.State
  add_icmp_firewall_rule_with_body c content_type body editors =
      perform W c editors
        (new_add_icmp_firewall_rule_request_with_body W c.server content_type body)

  unfoldable pub add_icmp_firewall_rule :
      Client W
      → IcmpFirewallRule
      → List (RequestEditor W)
      → W.State
      → Except String Response × W.State
  add_icmp_firewall_rule c body editors =
      perform W c editors (new_add_icmp_firewall_rule_request W c.server body)

  unfoldable pub remove_icmp_firewall_rule :
      Client W → ℕ → List (RequestEditor W) → W.State → Except String Response × W.State
  remove_icmp_firewall_rule c rule_id editors =
      perform W c editors (new_remove_icmp_firewall_rule_request W c.server rule_id)
