-- ===== src/Http/Conduit.antt =====
-- The conduit behind a client of pkg/client/client.go, as pkg/failover/ uses it: what the two
-- methods on the state return, read as the responses of Message.antt.
use architect_networking.Base.Chain.{◌>>=◌}
use architect_networking.Base.{String, none, some, [], ok, ◌≡◌}
use architect_networking.Message.{NatState, GetStateResponse, SetStateResponse}
use architect_networking.Sync.{Conduit}
use architect_networking.Http.{Web, Client, Response}
use architect_networking.Http.Build.{option_map}
use architect_networking.Http.Answers.{ApiResponse}
use architect_networking.Http.Responses.{get_state_with_response, set_state_with_response}

abbrev pub seen_get : ApiResponse NatState → GetStateResponse
seen_get r = record {
  http_response = option_map (λ (rsp : Response). rsp.status_code) r.http_response;
  json200 = r.json;
}

abbrev pub seen_set : ApiResponse (Unit {0}) → SetStateResponse
seen_set r = record {
  http_response = option_map (λ (rsp : Response). rsp.status_code) r.http_response;
}

-- A read leaves the conduit's state alone.
abbrev pub http_conduit : (W : Web) → Client W → Conduit
http_conduit W c = record {
  State = W.State;
  get_state = λ s. (get_state_with_response W c [] s).0 >>= (λ r. ok (seen_get r));
  set_state =
      λ n s. let (r, s') = set_state_with_response W c n [] s in (r >>= (λ a. ok (seen_set a)), s');
}

abbrev pub json_type : String
json_type = "application/json"

abbrev pub answer_of : String → String → Response
answer_of content_type body = record {
  status_code = 200;
  content_type = content_type;
  body = ok body;
}

-- A conduit that serves its API at the client's URL: the URL and the requests can be built, JSON
-- keeps a state that is `Plain`, GET answers with the state that `read` gives, and PUT takes it in by `write`.
pub record Serves (W : Web) (Plain : NatState → Type 0) (c : Client W) (read : W.State → NatState)
    (write : NatState → W.State → W.State) : Type 0 where
  pub url : W.Url
  pub target : W.Url
  pub get_request : W.Request
  pub put_request : String → W.Request
  pub text : NatState → String
  pub parses : W.parse_url c.server ≡ ok url
  pub resolves : W.resolve url "./transit/state" ≡ ok target
  pub no_editors : c.request_editors ≡ []
  pub gets : W.new_request "GET" (W.url_text target) none ≡ ok get_request
  pub puts : (b : String) → W.new_request "PUT" (W.url_text target) (some b) ≡ ok (put_request b)
  pub marshals : (n : NatState) → Plain n → W.json.nat_state.marshal n ≡ ok (text n)
  pub unmarshals : (n : NatState) → Plain n → W.json.nat_state.unmarshal (text n) ≡ ok n
  pub answers_get :
      (s : W.State)
      → Plain (read s)
      → W.do_request c.client get_request s ≡ (ok (answer_of json_type (text (read s))), s)
  pub answers_put :
      (n : NatState) (s : W.State)
      → Plain n
      → W.do_request c.client (W.add_header "Content-Type" json_type (put_request (text n))) s
        ≡ (ok (answer_of "" ""), write n s)
