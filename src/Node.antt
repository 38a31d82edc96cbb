-- ===== src/Node.antt =====
-- pkg/failover/leader.go: the state of `LeaderFailover` and what its handlers and loops do in one
-- step. Logging is left out. The fRPC server and client, the AWS client and the clock are seen
-- through their results, which are arguments. A channel that is closed to stop a loop is a number,
-- with the numbers of the closed ones.
pub mod Heartbeat
pub mod Roles
pub mod Election
pub mod Shutdown
use architect_networking.Base.{
  ℕ, ◌+◌, ◌-◌, String, Bool, true, false, Option, none, some, List, [], ◌∷◌, ℤ, pos, negsuc, sub_ℕ,
  min, leb, if◌then◌else◌,
}
use architect_networking.Config.{LeaderConfig, role_string_primary, role_string_secondary}

pub data NodeRole : Type 0 where
  unknown primary secondary : NodeRole

abbrev pub role_string_unknown : String
role_string_unknown = "unknown"

unfoldable pub role_string : NodeRole → String
role_string primary = role_string_primary
role_string secondary = role_string_secondary
role_string unknown = role_string_unknown

unfoldable pub is_secondary : NodeRole → Bool
is_secondary secondary = true
is_secondary _ = false

-- `newRole != lf.currentRole`, negated.
unfoldable pub same_role : NodeRole → NodeRole → Bool
same_role unknown unknown = true
same_role primary primary = true
same_role secondary secondary = true
same_role _ _ = false

-- `instance_id` is `none` where there is no AWS client. `last_heartbeat` is `none` at the zero
-- time. `role_ch` is a channel with one place. The clients of the local API and the server and
-- client of fRPC are there or not.
pub record Node : Type 0 where
  pub config : LeaderConfig
  pub instance_id : Option String
  pub current_role : NodeRole
  pub current_eni : String
  pub frpc_server : Bool
  pub frpc_client : Bool
  pub last_heartbeat : Option ℕ
  pub missed_heartbeats : ℕ
  pub heartbeat_stop_ch : Option ℕ
  pub role_ch : Option NodeRole
  pub stop_closed : Bool
  pub closed : List ℕ
  pub next_ch : ℕ

-- The struct that `NewLeaderFailover` returns.
unfoldable pub new_node : LeaderConfig → Option String → Node
new_node c id = record {
  config = c;
  instance_id = id;
  current_role = unknown;
  current_eni = "";
  frpc_server = false;
  frpc_client = false;
  last_heartbeat = none;
  missed_heartbeats = 0;
  heartbeat_stop_ch = none;
  role_ch = none;
  stop_closed = false;
  closed = [];
  next_ch = 0;
}

-- `select { case lf.roleCh <- r: … default: … }`
unfoldable pub send_role : NodeRole → Node → Node
send_role r n = elim n.role_ch [ none ↦ record n { role_ch = some r } | some _ ↦ n ]

-- `time.Duration` holds at most 2^63 - 1 nanoseconds, and `time.Since` saturates.
abbrev pub max_duration : ℕ
max_duration = 9223372036854775807

-- The zero time lies further back than a Duration reaches.
unfoldable pub time_since : Option ℕ → ℕ → ℤ
time_since none now = pos max_duration
time_since (some t) now = if leb t now then pos (min (now - t) max_duration) else sub_ℕ now t
