-- ===== src/Tests/Rules.antt =====
-- A TCP rule with a source and ports, as JSON in a small format of its own: each character of a text
-- stands behind a mark, and a point ends the text; a number is as many strokes.
use Prim.Native.Char.{Char, code}
use architect_networking.Base.{
  ℕ, zero, suc, String, Bool, true, false, none, some, List, [], ◌∷◌, ok, err, ◌==◌, ◌≡◌, refl, sym,
  ◌∙◌, ap, arith,
}
use architect_networking.Api.{TcpFirewallRule}
use architect_networking.Api.Rules.{
  Object, RawJson, find_key, put_fields, marshal_rule, tcp_fields, marshal_tcp_firewall_rule,
  unmarshal_tcp_firewall_rule,
}
use architect_networking.Api.Rules.Laws.{IsJson, blank_tcp, tcp_rule_returns}

strokes : ℕ → String
strokes zero = ""
strokes (suc n) = String.◌∷◌ "|" (strokes n)

count : String → ℕ
count String.[] = zero
count (String.◌∷◌ c s) = suc (count s)

count-strokes : (n : ℕ) → count (strokes n) ≡ n
unfolding strokes count
count-strokes zero = refl
count-strokes (suc n) = ap suc (count-strokes n)

-- A text in front of the rest.
put : String → String → String
put String.[] rest = String.◌∷◌ "." rest
put (String.◌∷◌ c t) rest = String.◌∷◌ "-" (String.◌∷◌ c (put t rest))

put_front : Char → List String → List String
put_front c [] = []
put_front c (t ∷ ts) = String.◌∷◌ c t ∷ ts

-- The texts, read behind a mark or not.
texts_of : Bool → String → List String
unfolding put_front
texts_of b String.[] = []
texts_of true (String.◌∷◌ c s) = put_front c (texts_of false s)
texts_of false (String.◌∷◌ c s) = elim (code c == b'.') [
  | true ↦ "" ∷ texts_of false s
  | false ↦ texts_of true s
]

texts_of-put : (t rest : String) → texts_of false (put t rest) ≡ t ∷ texts_of false rest
unfolding texts_of put
texts_of-put String.[] rest = refl
texts_of-put (String.◌∷◌ c t) rest = ap (put_front c) (texts_of-put t rest)

write_object : Object → String
unfolding put
write_object [] = ""
write_object ((k, v) ∷ o) = put k (put v (write_object o))

pair_up : List String → Object
pair_up (k ∷ v ∷ ts) = (k, v) ∷ pair_up ts
pair_up _ = []

pair_up-write_object : (o : Object) → pair_up (texts_of false (write_object o)) ≡ o
unfolding write_object pair_up texts_of
pair_up-write_object [] = refl
pair_up-write_object ((k, v) ∷ o) =
    ap pair_up
      (texts_of-put k (put v (write_object o)) ∙ ap (◌∷◌ k) (texts_of-put v (write_object o)))
    ∙ ap (◌∷◌ (k, v)) (pair_up-write_object o)

abbrev json : RawJson
json = record {
  Any = String;
  marshal_object = λ o. ok (write_object o);
  unmarshal_object = λ b. ok (pair_up (texts_of false b));
  marshal_text = λ t. ok t;
  unmarshal_text = λ raw. ok (some raw);
  marshal_port = λ p. ok (strokes p);
  unmarshal_port = λ raw. ok (some (count raw));
  marshal_any = λ v. ok v;
  unmarshal_any = λ u. elim u [ none ↦ err "no value" | some b ↦ ok b ];
  merge = λ _ b. (some b, none);
}

object_returns : (o : Object) (b : String) → write_object o ≡ b → pair_up (texts_of false b) ≡ o
object_returns o b e = ap (λ x. pair_up (texts_of false x)) (sym e) ∙ pair_up-write_object o

json-IsJson : IsJson json
json-IsJson = record {
  objects = λ o b _ h.
      (let e : write_object o ≡ b = cc in
        (pair_up (texts_of false b), refl, λ k. ap (find_key k) (object_returns o b e)));
  texts = λ t raw h. (let t≡raw : t ≡ raw = cc in ap (λ x. ok (some x)) (sym t≡raw));
  ports = λ p raw _ h.
      (let e : strokes p ≡ raw = cc in
        ap (λ x. ok (some (count x))) (sym e) ∙ ap (λ x. ok (some x)) (count-strokes p));
}

abbrev rule : TcpFirewallRule
rule = record blank_tcp {
  source = some "10.0.0.0/8";
  destination_port_high = some 9;
  destination_port_low = some 7;
}

bytes : String
unfolding write_object strokes
bytes = write_object (
    ("source", "10.0.0.0/8")
    ∷ ("destinationPortLow", strokes 7)
    ∷ ("destinationPortHigh", strokes 9)
    ∷ [])

tcp_rule_returns_example :
    unmarshal_tcp_firewall_rule json blank_tcp bytes ≡ ok (record rule { union = some bytes })
unfolding marshal_tcp_firewall_rule marshal_rule tcp_fields put_fields bytes
tcp_rule_returns_example =
    tcp_rule_returns json json-IsJson rule bytes refl (λ p q. ground arith) (λ p q. ground arith)
      (λ p q. absurd cc) (λ p q. absurd cc) refl
