-- ===== src/Tests/Data.antt =====
-- Data for the tests: configurations, a NAT state, a conduit that holds one, and a node.
use architect_networking.Base.{
  String, Bool, true, false, Option, none, some, [], ◌∷◌, Except, ok, err, pos, str_eq,
}
use architect_networking.Config.{LeaderConfig}
use architect_networking.Message.{
  NatKeyValuePair, NatState, GetStateResponse, FailoverHeartbeatRequest,
}
use architect_networking.Node.{Node, secondary}
use architect_networking.Node.Roles.{Env, closed_client}
use architect_networking.Sync.{Conduit}

abbrev pub config : LeaderConfig
config = record {
  eni_ip = "10.0.1.5";
  port = 1022;
  leader_check_interval = pos 30000000000;
  sync_interval = pos 10000000000;
  heartbeat_interval = pos 40000000;
  heartbeat_miss_threshold = pos 3;
  local_socket = "/run/conduit.sock";
  destination_cidr = "10.9.0.0/16";
  disable_eni_check = false;
  force_role = "";
}

abbrev pub parse_ip : String → Bool
parse_ip t = str_eq t "10.0.1.5"

abbrev pub pair : NatKeyValuePair
pair = record {
  key = record {
    destination_ip = "1.1.1.1";
    destination_port = 443;
    source_ip = "10.0.1.9";
    source_port = 50000;
  };
  value = record { last_seen = "now"; translate_ip = "10.0.1.20"; translate_port = 65535 };
}

abbrev pub state : NatState
state = record {
  ips = "10.0.1.20" ∷ [];
  nat_ports =
      record { bitmap = "ff"; destination_ip = some "1.1.1.1"; last_chunk = 7; natip = "10.0.1.20" }
      ∷ [];
  tcp_inbound = pair ∷ [];
  tcp_outbound = [];
  udp_inbound = [];
  udp_outbound = pair ∷ pair ∷ [];
}

abbrev read_state : Option NatState → Except String GetStateResponse
read_state none = err "no conduit"
read_state (some n) = ok (record { http_response = some 200; json200 = some n })

abbrev pub conduit : Conduit
conduit = record {
  State = Option NatState;
  get_state = read_state;
  set_state = λ n _. (ok (record { http_response = some 200 }), some n);
}

abbrev pub env : Env
env = record {
  shutdown = none;
  close = closed_client;
  actions = ok "eni-1";
  new_server = none;
  new_client = ok true;
  now = 5;
}

abbrev pub heartbeat_request : FailoverHeartbeatRequest
heartbeat_request = record {
  error = none;
  flags = 0;
  request_id = "h";
  timestamp = pos 1;
  primary_eni = "eni-1";
}

abbrev pub watching_node : Node
watching_node = record {
  config = config;
  instance_id = some "i-1";
  current_role = secondary;
  current_eni = "";
  frpc_server = false;
  frpc_client = true;
  last_heartbeat = some 5;
  missed_heartbeats = 0;
  heartbeat_stop_ch = some 0;
  role_ch = none;
  stop_closed = false;
  closed = [];
  next_ch = 1;
}
