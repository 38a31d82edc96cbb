-- ===== src/Tests/Http.antt =====
-- A web with one conduit whose state is a NAT state, and the client on it.
use architect_networking.Base.{
  String, ◌<>◌, Bool, true, false, not, [], ◌∷◌, ◌++◌, Except, ok, done, ◌≡◌, refl, sym, ap, pos,
  if◌then◌else◌, str_eq,
}
use architect_networking.Message.{NatState}
use architect_networking.Config.{MirrorConfig, validate_mirror}
use architect_networking.Sync.Laws.{direct_sync, normalise}
use architect_networking.Sync.Mirror.{sync_nat_state}
use architect_networking.Api.{Codec}
use architect_networking.Http.{
  Web, Client, Response, RequestEditor, ends_in_slash, new_client, finish_client, apply_options,
  with_http_client,
}
use architect_networking.Http.Operations.{set_router_interfaces}
use architect_networking.Http.Recording.{
  recording, requested, is_listed, documented, is_undocumented,
}
use architect_networking.Http.Conduit.{http_conduit, json_type, answer_of, Serves}
use architect_networking.Http.Laws.Routes.{is_listed-requested}
use architect_networking.Http.Laws.Building.{new_client-slash}
use architect_networking.Http.Laws.Conduit.{http_sync_nat_state, http_sync_transfers}
use architect_networking.Mirror.{Failover, tick, new_failover, mirror_loop, connect}
use architect_networking.Mirror.Laws.{mirror_follows, new_failover_lem, IsSetUp}
use architect_networking.Tests.Data.{state}
use architect_networking.Tests.Sync.{state-FitsApi, same}

is_listed-requested_example :
    is_listed documented (requested (set_router_interfaces (record { enabled = true })))
    ≡ not (is_undocumented (set_router_interfaces (record { enabled = true })))
is_listed-requested_example =
    is_listed-requested (set_router_interfaces (record { enabled = true }))

abbrev used : Client recording
used = record { server = "http://conduit/"; client = tt; request_editors = [] }

new_client-slash_example :
    (ends_in_slash used.server ≡ true)
    × (new_client recording used.server [] ≡ ok (record used { client = tt; request_editors = [] }))
unfolding new_client finish_client apply_options ends_in_slash
new_client-slash_example = new_client-slash recording "http://conduit" [] used refl

abbrev marking : String → RequestEditor recording
marking mark (m, u) = ok (m, u <> mark)

-- Two conduits in one world: the doer says which of them a request goes to. A body is the state.
abbrev World : Type 0
World = NatState × NatState

abbrev empty_state : NatState
empty_state = record {
  ips = [];
  nat_ports = [];
  tcp_inbound = [];
  tcp_outbound = [];
  udp_inbound = [];
  udp_outbound = [];
}

abbrev name_state : Codec NatState
name_state = record { marshal = λ _. ok "state"; unmarshal = λ _. ok state }

-- The second conduit answers everything but a GET for the first one by taking the state in.
abbrev answer_request : Bool → String × String → World → Except String Response × World
answer_request first (method, _) (a, b) =
    if str_eq method "GET"
    then (ok (answer_of json_type "state"), (a, b))
    else if first
    then (ok (answer_of "" ""), (state, b))
    else (ok (answer_of "" ""), (a, state))

abbrev web : Web
web = record {
  Url = String;
  Values = Unit {0};
  Request = String × String;
  Doer = Bool;
  State = World;
  parse_url = λ u. ok u;
  resolve = λ u path. ok (u <> path);
  url_text = λ u. u;
  url_values = λ _. tt;
  add_value = λ _ _ v. v;
  encode_values = λ _. "";
  set_raw_query = λ _ u. u;
  parse_query = λ _. ok [];
  style_query = λ _ t. ok t;
  style_path = λ _ _. ok "";
  new_request = λ method url _. ok (method, url);
  add_header = λ _ _ r. r;
  default_doer = true;
  do_request = answer_request;
  json = record recording.json { nat_state = name_state };
}

abbrev client_of : Bool → Client web
client_of doer = record { server = "http://localhost/"; client = doer; request_editors = [] }

abbrev IsState : NatState → Type 0
IsState n = n ≡ state

abbrev put_first : NatState → World → World
put_first n w = (n, w.1)

abbrev put_second : NatState → World → World
put_second n w = (w.0, n)

abbrev target : String
target = "http://localhost/./transit/state"

first-Serves : Serves web IsState (client_of true) (λ w. w.0) put_first
first-Serves = record {
  url = "http://localhost/";
  target = target;
  get_request = ("GET", target);
  put_request = λ _. ("PUT", target);
  text = λ _. "state";
  parses = refl;
  resolves = refl;
  no_editors = refl;
  gets = refl;
  puts = λ _. refl;
  marshals = λ n e. refl;
  unmarshals = λ n e. ap ok (sym e);
  answers_get = λ w e. refl;
  answers_put = λ n w e. ap (λ x. (ok (answer_of "" ""), (x, w.1))) (sym e);
}

second-Serves : Serves web IsState (client_of false) (λ w. w.1) put_second
second-Serves = record {
  url = "http://localhost/";
  target = target;
  get_request = ("GET", target);
  put_request = λ _. ("PUT", target);
  text = λ _. "state";
  parses = refl;
  resolves = refl;
  no_editors = refl;
  gets = refl;
  puts = λ _. refl;
  marshals = λ n e. refl;
  unmarshals = λ n e. ap ok (sym e);
  answers_get = λ w e. refl;
  answers_put = λ n w e. ap (λ x. (ok (answer_of "" ""), (w.0, x))) (sym e);
}

abbrev world : World
world = (state, empty_state)

http_sync_nat_state_copy :
    sync_nat_state
      (http_conduit web (client_of true))
      (http_conduit web (client_of false))
      world
      world
    ≡ (ok tt, (state, state))
http_sync_nat_state_copy =
    http_sync_nat_state web (client_of true) (client_of false) first-Serves second-Serves world refl

http_sync_transfers_example :
    direct_sync
      (http_conduit web (client_of true))
      (http_conduit web (client_of false))
      world
      world
      7
    ≡ (done tt, (state, normalise state))
http_sync_transfers_example =
    http_sync_transfers web (client_of true) (client_of false) first-Serves second-Serves world
      world 7 state-FitsApi refl same

abbrev plain_web : Web
plain_web = record web { do_request = λ _ _ w. (ok (answer_of "text/plain" "state"), w) }

abbrev plain_client : Client plain_web
plain_client = record { server = "http://localhost/"; client = true; request_editors = [] }

abbrev mirror_config : MirrorConfig
mirror_config = record {
  primary_socket = "/unix/a";
  secondary_socket = "/unix/b";
  interval = pos 1000000000;
}

abbrev mirror : Failover web
mirror = record {
  config = mirror_config;
  primary_client = client_of true;
  secondary_client = client_of false;
}

unchanged : IsState (mirror_loop web mirror (tick ∷ []) world).0
unfolding mirror_loop
unchanged = ap (λ r. r.1.0) http_sync_nat_state_copy

mirror_follows_example :
    (mirror_loop web mirror ((tick ∷ []) ++ (tick ∷ [])) world).1
    ≡ (mirror_loop web mirror (tick ∷ []) world).0
mirror_follows_example =
    mirror_follows web mirror first-Serves second-Serves (λ n w. refl) (tick ∷ []) world unchanged

abbrev dial : String → Except String Bool
dial address = if str_eq address "/unix/a" then ok true else ok false

new_failover_lem_example : IsSetUp web dial mirror_config mirror
unfolding new_failover connect validate_mirror new_client apply_options with_http_client
    finish_client ends_in_slash
new_failover_lem_example = new_failover_lem web dial mirror_config mirror refl
