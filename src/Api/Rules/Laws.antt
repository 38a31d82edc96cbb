-- ===== src/Api/Rules/Laws.antt =====
-- A rule that was built from its fields comes back from its JSON.
use architect_networking.Base.{
  ℕ, String, false, Option, none, some, List, [], ◌∷◌, ok, All, ◌≡◌, ◌≤◌, ◌⊎◌, inl, inr, refl,
}
use architect_networking.Api.{IcmpFirewallRule, TcpFirewallRule, UdpFirewallRule}
use architect_networking.Api.Rules.{
  Object, RawJson, Field, find_key, marshalled, put_fields, read_field, marshal_rule,
  marshal_icmp_firewall_rule, unmarshal_icmp_firewall_rule, icmp_fields, marshal_tcp_firewall_rule,
  unmarshal_tcp_firewall_rule, tcp_fields, marshal_udp_firewall_rule, unmarshal_udp_firewall_rule,
  udp_fields,
}
use architect_networking.Api.Rules.Fields.{
  Kept, AreDistinct, bind_ok, GivesOnly, put_all-GivesOnly, put_all-Kept, same-Kept, read-Kept,
}

-- The zero values.
abbrev pub blank_icmp : IcmpFirewallRule
blank_icmp = record { destination = none; source = none; union = none }

abbrev pub blank_tcp : TcpFirewallRule
blank_tcp = record {
  destination = none;
  destination_port_high = none;
  destination_port_low = none;
  source = none;
  source_port_high = none;
  source_port_low = none;
  union = none;
}

abbrev pub blank_udp : UdpFirewallRule
blank_udp = record {
  destination = none;
  destination_port_high = none;
  destination_port_low = none;
  source = none;
  source_port_high = none;
  source_port_low = none;
  union = none;
}

-- A raw text that is the marshalled form of a text or of a uint16.
abbrev pub IsMarshalled : RawJson → String → Type 0
IsMarshalled J raw =
    ((t : String) × (J.marshal_text t ≡ ok raw)) ⊎ ((p : ℕ) × (J.marshal_port p ≡ ok raw))

abbrev pub max_port : ℕ
max_port = 65535

abbrev pub PortFits : Option ℕ → Type 0
PortFits v = (p : ℕ) → v ≡ some p → p ≤ max_port

-- What encoding/json promises of values that it has marshalled: an object of such values comes back
-- with the same ones under the same keys, and a text and a uint16 as a pointer to it.
pub record IsJson (J : RawJson) : Type 0 where
  pub objects :
      (o : Object) (b : String)
      → All (λ (kv : String × String). IsMarshalled J kv.1) o
      → J.marshal_object o ≡ ok b
      → (o' : Object) × (J.unmarshal_object b ≡ ok o')
        × ((k : String) → find_key k o' ≡ find_key k o)
  pub texts : (t raw : String) → J.marshal_text t ≡ ok raw → J.unmarshal_text raw ≡ ok (some t)
  pub ports :
      (p : ℕ) (raw : String)
      → p ≤ max_port
      → J.marshal_port p ≡ ok raw
      → J.unmarshal_port raw ≡ ok (some p)

module _ (J : RawJson) (h : IsJson J) where
  -- What is read of the fields that were marshalled.
  comes_back :
      (fs : List Field) (union : Option String) (b : String)
      → union ≡ none
      → AreDistinct fs
      → All (GivesOnly (IsMarshalled J)) fs
      → All (λ (f : Field). find_key f.0 [] ≡ none) fs
      → marshal_rule J union fs ≡ ok b
      → (o : Object) × (J.unmarshal_object b ≡ ok o)
        × All (λ (f : Field). Kept f.1 (find_key f.0 o)) fs
  unfolding marshal_rule
  comes_back fs none b u d g a m =
      let (o, e1, e2) = bind_ok (put_fields fs []) J.marshal_object b m in
      let (o', e3, same) = h.objects o b (put_all-GivesOnly (IsMarshalled J) fs [] o g tt e1) e2 in
      (o', e3, same-Kept fs o o' same (put_all-Kept fs [] o d a e1))
  comes_back fs (some x) b u d g a m = absurd cc

  absent_empty : (fs : List Field) → All (λ (f : Field). find_key f.0 [] ≡ none) fs
  unfolding find_key
  absent_empty [] = tt
  absent_empty (f ∷ fs) = (refl, absent_empty fs)

  text_returns :
      (v : Option String) (name : String) (o : Object)
      → Kept (marshalled J.marshal_text v) (find_key name o)
      → read_field J.unmarshal_text name o none ≡ ok v
  text_returns v name o k =
      read-Kept J.marshal_text J.unmarshal_text name v o (λ a raw _ e. h.texts a raw e) k

  port_returns :
      (v : Option ℕ) (name : String) (o : Object)
      → PortFits v
      → Kept (marshalled J.marshal_port v) (find_key name o)
      → read_field J.unmarshal_port name o none ≡ ok v
  port_returns v name o fits k =
      read-Kept J.marshal_port J.unmarshal_port name v o (λ p raw q e. h.ports p raw (fits p q) e) k

  gives_text :
      (v : Option String) (name : String)
      → GivesOnly (IsMarshalled J) (name, marshalled J.marshal_text v)
  gives_text none name raw q = absurd cc
  gives_text (some t) name raw q = inl (t, cc)

  gives_port :
      (v : Option ℕ) (name : String)
      → GivesOnly (IsMarshalled J) (name, marshalled J.marshal_port v)
  gives_port none name raw q = absurd cc
  gives_port (some p) name raw q = inr (p, cc)

  icmp_gives : (t : IcmpFirewallRule) → All (GivesOnly (IsMarshalled J)) (icmp_fields J t)
  unfolding icmp_fields
  icmp_gives t = (gives_text t.destination "destination", (gives_text t.source "source", tt))

  icmp_distinct : (t : IcmpFirewallRule) → AreDistinct (icmp_fields J t)
  unfolding icmp_fields
  icmp_distinct t =
      let apart : (false ≡ false) × (false ≡ false) = (refl, refl) in ((apart, tt), (tt, tt))

  -- An ICMP rule that was built from its fields is read back from its JSON, with the JSON as its
  -- union.
  pub icmp_rule_returns :
      (t : IcmpFirewallRule) (b : String)
      → t.union ≡ none
      → marshal_icmp_firewall_rule J t ≡ ok b
      → unmarshal_icmp_firewall_rule J blank_icmp b ≡ ok (record t { union = some b })
  unfolding marshal_icmp_firewall_rule unmarshal_icmp_firewall_rule icmp_fields
  icmp_rule_returns t b u m =
      let (o, e, (k1, (k2, _))) =
        comes_back (icmp_fields J t) t.union b u (icmp_distinct t) (icmp_gives t)
          (absent_empty (icmp_fields J t)) m in
      let r1 = text_returns t.destination "destination" o k1 in
      let r2 = text_returns t.source "source" o k2 in rw (e, r1, r2) refl

  tcp_gives : (t : TcpFirewallRule) → All (GivesOnly (IsMarshalled J)) (tcp_fields J t)
  unfolding tcp_fields
  tcp_gives t =
      let g1 = gives_text t.destination "destination" in
      let g2 = gives_port t.destination_port_high "destinationPortHigh" in
      let g3 = gives_port t.destination_port_low "destinationPortLow" in
      let g4 = gives_text t.source "source" in
      let g5 = gives_port t.source_port_high "sourcePortHigh" in
      let g6 = gives_port t.source_port_low "sourcePortLow" in
      (g1, (g2, (g3, (g4, (g5, (g6, tt))))))

  tcp_distinct : (t : TcpFirewallRule) → AreDistinct (tcp_fields J t)
  unfolding tcp_fields
  tcp_distinct t =
      let apart : (false ≡ false) × (false ≡ false) = (refl, refl) in
      (
        (apart, (apart, (apart, (apart, (apart, tt))))),
        (
          (apart, (apart, (apart, (apart, tt)))),
          ((apart, (apart, (apart, tt))), ((apart, (apart, tt)), ((apart, tt), (tt, tt)))),
        ),
      )

  -- A TCP rule that was built from its fields, with ports that fit uint16, is read back from its
  -- JSON, with the JSON as its union.
  pub tcp_rule_returns :
      (t : TcpFirewallRule) (b : String)
      → t.union ≡ none
      → PortFits t.destination_port_high
      → PortFits t.destination_port_low
      → PortFits t.source_port_high
      → PortFits t.source_port_low
      → marshal_tcp_firewall_rule J t ≡ ok b
      → unmarshal_tcp_firewall_rule J blank_tcp b ≡ ok (record t { union = some b })
  unfolding marshal_tcp_firewall_rule unmarshal_tcp_firewall_rule tcp_fields
  tcp_rule_returns t b u f1 f2 f3 f4 m =
      let (o, e, (k1, (k2, (k3, (k4, (k5, (k6, _))))))) =
        comes_back (tcp_fields J t) t.union b u (tcp_distinct t) (tcp_gives t)
          (absent_empty (tcp_fields J t)) m in
      let r1 = text_returns t.destination "destination" o k1 in
      let r2 = port_returns t.destination_port_high "destinationPortHigh" o f1 k2 in
      let r3 = port_returns t.destination_port_low "destinationPortLow" o f2 k3 in
      let r4 = text_returns t.source "source" o k4 in
      let r5 = port_returns t.source_port_high "sourcePortHigh" o f3 k5 in
      let r6 = port_returns t.source_port_low "sourcePortLow" o f4 k6 in
      rw (e, r1, r2, r3, r4, r5, r6) refl

  udp_gives : (t : UdpFirewallRule) → All (GivesOnly (IsMarshalled J)) (udp_fields J t)
  unfolding udp_fields
  udp_gives t =
      let g1 = gives_text t.destination "destination" in
      let g2 = gives_port t.destination_port_high "destinationPortHigh" in
      let g3 = gives_port t.destination_port_low "destinationPortLow" in
      let g4 = gives_text t.source "source" in
      let g5 = gives_port t.source_port_high "sourcePortHigh" in
      let g6 = gives_port t.source_port_low "sourcePortLow" in
      (g1, (g2, (g3, (g4, (g5, (g6, tt))))))

  udp_distinct : (t : UdpFirewallRule) → AreDistinct (udp_fields J t)
  unfolding udp_fields
  udp_distinct t =
      let apart : (false ≡ false) × (false ≡ false) = (refl, refl) in
      (
        (apart, (apart, (apart, (apart, (apart, tt))))),
        (
          (apart, (apart, (apart, (apart, tt)))),
          ((apart, (apart, (apart, tt))), ((apart, (apart, tt)), ((apart, tt), (tt, tt)))),
        ),
      )

  -- A UDP rule that was built from its fields, with ports that fit uint16, is read back from its
  -- JSON, with the JSON as its union.
  pub udp_rule_returns :
      (t : UdpFirewallRule) (b : String)
      → t.union ≡ none
      → PortFits t.destination_port_high
      → PortFits t.destination_port_low
      → PortFits t.source_port_high
      → PortFits t.source_port_low
      → marshal_udp_firewall_rule J t ≡ ok b
      → unmarshal_udp_firewall_rule J blank_udp b ≡ ok (record t { union = some b })
  unfolding marshal_udp_firewall_rule unmarshal_udp_firewall_rule udp_fields
  udp_rule_returns t b u f1 f2 f3 f4 m =
      let (o, e, (k1, (k2, (k3, (k4, (k5, (k6, _))))))) =
        comes_back (udp_fields J t) t.union b u (udp_distinct t) (udp_gives t)
          (absent_empty (udp_fields J t)) m in
      let r1 = text_returns t.destination "destination" o k1 in
      let r2 = port_returns t.destination_port_high "destinationPortHigh" o f1 k2 in
      let r3 = port_returns t.destination_port_low "destinationPortLow" o f2 k3 in
      let r4 = text_returns t.source "source" o k4 in
      let r5 = port_returns t.source_port_high "sourcePortHigh" o f3 k5 in
      let r6 = port_returns t.source_port_low "sourcePortLow" o f4 k6 in
      rw (e, r1, r2, r3, r4, r5, r6) refl
