-- ===== src/Http/Build.antt =====
-- How the requests of pkg/client/client.go are built.
use text.Mathlib.Text.{starts_with}
use architect_networking.Base.Chain.{◌>>=◌}
use architect_networking.Base.{
  ℕ, String, ◌<>◌, Option, none, some, List, [], ◌∷◌, Except, ok, if◌then◌else◌,
}
use architect_networking.Api.{Codec}
use architect_networking.Http.{Web}

abbrev pub option_map : {A B : Type 0} → (A → B) → Option A → Option B
option_map f none = none
option_map f (some a) = some (f a)

module _ (W : Web) where
  -- The operation's path is taken relative to the server's.
  relative : String → String
  relative path = if starts_with path "/" then "." <> path else path

  unfoldable pub operation_url : String → String → Except String W.Url
  unfolding relative
  operation_url server path = do
    server_url ← W.parse_url server
    W.resolve server_url (relative path)

  unfoldable pub plain_request : String → String → String → Except String W.Request
  unfolding operation_url
  plain_request method path server = do
    query_url ← operation_url server path
    W.new_request method (W.url_text query_url) none

  unfoldable pub body_request : String → String → String → String → String → Except String W.Request
  unfolding operation_url
  body_request method path server content_type body = do
    query_url ← operation_url server path
    req ← W.new_request method (W.url_text query_url) (some body)
    ok (W.add_header "Content-Type" content_type req)

  -- A body of a type is sent as JSON by the builder that takes any text.
  unfoldable pub json_request :
      {A : Type 0}
      → Codec A
      → (String → String → String → Except String W.Request)
      → String
      → A
      → Except String W.Request
  json_request j with_body server body = do
    buf ← j.marshal body
    with_body server "application/json" buf

  add_all : String → List String → W.Values → W.Values
  add_all k [] values = values
  add_all k (v ∷ vs) values = add_all k vs (W.add_value k v values)

  add_parsed : List (String × List String) → W.Values → W.Values
  unfolding add_all
  add_parsed [] values = values
  add_parsed ((k, v) ∷ rest) values = add_parsed rest (add_all k v values)

  -- The params hold the text `ip`; nil params add no query.
  ip_query : Option String → W.Url → Except String W.Url
  unfolding add_parsed
  ip_query none query_url = ok query_url
  ip_query (some ip) query_url = do
    query_frag ← W.style_query "ip" ip
    parsed ← W.parse_query query_frag
    ok (W.set_raw_query (W.encode_values (add_parsed parsed (W.url_values query_url))) query_url)

  unfoldable pub ip_request : String → String → String → Option String → Except String W.Request
  unfolding operation_url ip_query
  ip_request method path server ip = do
    query_url ← operation_url server path
    query_url' ← ip_query ip query_url
    W.new_request method (W.url_text query_url') none

  unfoldable pub rule_request : String → String → String → ℕ → Except String W.Request
  unfolding plain_request
  rule_request method path server rule_id = do
    path_param ← W.style_path "ruleId" rule_id
    plain_request method (path <> path_param) server
