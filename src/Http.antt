-- ===== src/Http.antt =====
-- pkg/client/client.go: the HTTP client of the conduit's API. What it uses of net/url, net/http and
-- the oapi-codegen runtime, and the server at the other end, are the parameter `Web`.
pub mod Build
pub mod Requests
pub mod Calls
pub mod Answers
pub mod Responses
pub mod Operations
pub mod Recording
pub mod Conduit
pub mod Laws
use Prim.Native.Char.{code}
use text.Mathlib.Text.{find?, starts_with}
use architect_networking.Base.{
  ℕ, String, ◌<>◌, Bool, true, false, ◌&&◌, Option, none, some, List, [], ◌∷◌, ◌++◌, Except, ok,
  err, is_some, ◌==◌, if◌then◌else◌,
}
use architect_networking.Base.Chain.{◌>>=◌}
use architect_networking.Api.{Codec, Codecs}

-- An `http.Response` as the client reads it: its status code, the header Content-Type, and what
-- reading its body to the end gives.
pub record Response : Type 0 where
  pub status_code : ℕ
  pub content_type : String
  pub body : Except String String

-- `url.Parse`, `URL.Parse`, `URL.String`, `URL.Query`, `Values.Add`, `Values.Encode`,
-- `url.ParseQuery` and the field `RawQuery`; `runtime.StyleParamWithLocation` for a text in the
-- query and for a number in the path; `http.NewRequest` (method, URL and body), `Header.Add`,
-- `http.Client{}`, and `Do`, with the state of the server behind it.
pub record Web : Type 1 where
  pub Url : Type 0
  pub Values : Type 0
  pub Request : Type 0
  pub Doer : Type 0
  pub State : Type 0
  pub parse_url : String → Except String Url
  pub resolve : Url → String → Except String Url
  pub url_text : Url → String
  pub url_values : Url → Values
  pub add_value : String → String → Values → Values
  pub encode_values : Values → String
  pub set_raw_query : String → Url → Url
  pub parse_query : String → Except String (List (String × List String))
  pub style_query : String → String → Except String String
  pub style_path : String → ℕ → Except String String
  pub new_request : String → String → Option String → Except String Request
  pub add_header : String → String → Request → Request
  pub default_doer : Doer
  pub do_request : Doer → Request → State → Except String Response × State
  pub json : Codecs

-- `strings.HasSuffix(s, "/")`
unfoldable pub ends_in_slash : String → Bool
ends_in_slash String.[] = false
ends_in_slash (String.◌∷◌ c String.[]) = code c == 47
ends_in_slash (String.◌∷◌ c (String.◌∷◌ d s)) = ends_in_slash (String.◌∷◌ d s)

-- `strings.Contains(s, "json")`
abbrev pub contains_json : String → Bool
contains_json s = is_some (find? s "json")

module _ (W : Web) where
  -- An editor changes the request that it is given.
  abbrev pub RequestEditor : Type 0
  RequestEditor = W.Request → Except String W.Request

  -- The `Client` while `NewClient` applies its options: its doer may be nil.
  pub record Draft : Type 0 where
    pub server : String
    pub client : Option W.Doer
    pub request_editors : List RequestEditor

  -- The `Client` that `NewClient` returns.
  pub record Client : Type 0 where
    pub server : String
    pub client : W.Doer
    pub request_editors : List RequestEditor

  abbrev pub ClientOption : Type 0
  ClientOption = Draft → Except String Draft

  unfoldable pub apply_options : List ClientOption → Draft → Except String Draft
  apply_options [] c = ok c
  apply_options (o ∷ os) c = o c >>= (λ c'. apply_options os c')

  abbrev or_default : Option W.Doer → W.Doer
  or_default none = W.default_doer
  or_default (some d) = d

  unfoldable pub finish_client : Draft → Client
  finish_client c = record {
    server = if ends_in_slash c.server then c.server else c.server <> "/";
    client = or_default c.client;
    request_editors = c.request_editors;
  }

  unfoldable pub new_client : String → List ClientOption → Except String Client
  unfolding finish_client
  new_client server opts = do
    c ← apply_options opts (record { server = server; client = none; request_editors = [] })
    ok (finish_client c)

  unfoldable pub with_http_client : W.Doer → ClientOption
  with_http_client doer c = ok (record c { client = some doer })

  unfoldable pub with_request_editor : RequestEditor → ClientOption
  with_request_editor fn c = ok (record c { request_editors = c.request_editors ++ (fn ∷ []) })

  unfoldable pub with_base_url : String → ClientOption
  with_base_url base_url c = do
    new_base_url ← W.parse_url base_url
    ok (record c { server = W.url_text new_base_url })

  unfoldable pub run_editors : List RequestEditor → W.Request → Except String W.Request
  run_editors [] req = ok req
  run_editors (r ∷ rs) req = r req >>= (λ req'. run_editors rs req')

  -- The client's own editors come first.
  unfoldable pub apply_editors : Client → List RequestEditor → W.Request → Except String W.Request
  unfolding run_editors
  apply_editors c additional req = do
    req' ← run_editors c.request_editors req
    run_editors additional req'

  -- What every method of the client does with the request that it builds.
  unfoldable pub perform :
      Client
      → List RequestEditor
      → Except String W.Request
      → W.State
      → Except String Response × W.State
  perform c editors built s = elim (built >>= apply_editors c editors) [
    | err e ↦ (err e, s)
    | ok req ↦ W.do_request c.client req s
  ]
