-- ===== src/Http/Recording.antt =====
-- What the requests of pkg/client/client.go ask for, on a web that records it. `documented` is the
-- list of doc/conduit/http-api.md.
use architect_networking.Base.{
  String, Bool, true, false, ◌&&◌, ◌||◌, List, [], ◌∷◌, Except, ok, err, str_eq,
}
use architect_networking.Api.{Codec}
use architect_networking.Http.{Web}
use architect_networking.Http.Operations.{
  Operation, build, reset_firewall, set_firewall_enabled, reset_icmp_firewall, reset_tcp_firewall,
  reset_udp_firewall, set_router_interfaces, set_inbound_nat, set_outbound_nat,
}

abbrev pub silent : {A : Type 0} → Codec A
silent = record { marshal = λ _. ok ""; unmarshal = λ _. err "" }

-- A web that keeps a request's method and path, and takes every text for itself.
abbrev pub recording : Web
recording = record {
  Url = String;
  Values = Unit {0};
  Request = String × String;
  Doer = Unit {0};
  State = Unit {0};
  parse_url = λ _. ok "";
  resolve = λ _ path. ok path;
  url_text = λ u. u;
  url_values = λ _. tt;
  add_value = λ _ _ v. v;
  encode_values = λ _. "";
  set_raw_query = λ _ u. u;
  parse_query = λ _. ok [];
  style_query = λ _ t. ok t;
  style_path = λ _ _. ok "{ruleId}";
  new_request = λ method url _. ok (method, url);
  add_header = λ _ _ r. r;
  default_doer = tt;
  do_request = λ _ _ s. (err "", s);
  json = record {
    ddos_config = silent;
    ddos_status = silent;
    firewall_config = silent;
    firewall_status = silent;
    icmp_firewall_status = silent;
    tcp_firewall_status = silent;
    udp_firewall_status = silent;
    icmp_firewall_rule = silent;
    tcp_firewall_rule = silent;
    udp_firewall_rule = silent;
    icmp_firewall_rule_response = silent;
    tcp_firewall_rule_response = silent;
    udp_firewall_rule_response = silent;
    router_status = silent;
    router_interfaces = silent;
    inbound_nat = silent;
    outbound_nat = silent;
    enabled_state = silent;
    texts = silent;
    nat_state = silent;
  };
}

-- The method and the path relative to the server.
abbrev pub requested : Operation → Except String (String × String)
requested o = build recording o "http://localhost/"

unfoldable pub is_listed : List (String × String) → Except String (String × String) → Bool
is_listed rows (err _) = false
is_listed [] (ok _) = false
is_listed ((m, p) ∷ rows) (ok (method, path)) =
    let rest = is_listed rows (ok (method, path)) in (str_eq m method && str_eq p path) || rest

abbrev pub documented : List (String × String)
documented =
    ("GET", "./transit/ips")
    ∷ ("POST", "./transit/ips")
    ∷ ("DELETE", "./transit/ips")
    ∷ ("GET", "./transit/ddos")
    ∷ ("PUT", "./transit/ddos")
    ∷ ("DELETE", "./transit/ddos")
    ∷ ("POST", "./transit/ddos/ips")
    ∷ ("GET", "./transit/firewall")
    ∷ ("GET", "./transit/firewall/icmp")
    ∷ ("PUT", "./transit/firewall/icmp")
    ∷ ("GET", "./transit/firewall/icmp/rules")
    ∷ ("POST", "./transit/firewall/icmp/rules")
    ∷ ("DELETE", "./transit/firewall/icmp/rules/{ruleId}")
    ∷ ("GET", "./transit/firewall/tcp")
    ∷ ("PUT", "./transit/firewall/tcp")
    ∷ ("GET", "./transit/firewall/tcp/rules")
    ∷ ("POST", "./transit/firewall/tcp/rules")
    ∷ ("DELETE", "./transit/firewall/tcp/rules/{ruleId}")
    ∷ ("GET", "./transit/firewall/udp")
    ∷ ("PUT", "./transit/firewall/udp")
    ∷ ("GET", "./transit/firewall/udp/rules")
    ∷ ("POST", "./transit/firewall/udp/rules")
    ∷ ("DELETE", "./transit/firewall/udp/rules/{ruleId}")
    ∷ ("GET", "./transit/state")
    ∷ ("PUT", "./transit/state")
    ∷ ("GET", "./transit/router/nat/outbound")
    ∷ ("PUT", "./transit/router/nat/outbound")
    ∷ ("GET", "./transit/router/nat/inbound")
    ∷ ("PUT", "./transit/router/nat/inbound")
    ∷ ("GET", "./transit/router/interfaces")
    ∷ ("PUT", "./transit/router/interfaces")
    ∷ ("GET", "./transit/router/status")
    ∷ []

-- Operations for which the document has another method, or none.
unfoldable pub is_undocumented : Operation → Bool
is_undocumented reset_firewall = true
is_undocumented (set_firewall_enabled _) = true
is_undocumented reset_icmp_firewall = true
is_undocumented reset_tcp_firewall = true
is_undocumented reset_udp_firewall = true
is_undocumented (set_router_interfaces _) = true
is_undocumented (set_inbound_nat _) = true
is_undocumented (set_outbound_nat _) = true
is_undocumented _ = false
