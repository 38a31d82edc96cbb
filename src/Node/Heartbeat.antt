-- ===== src/Node/Heartbeat.antt =====
-- pkg/failover/leader.go: `Heartbeat`, `HealthCheck`, and one tick of `heartbeatMonitorLoop`.
pub mod Laws
pub mod Wire
pub mod Check
use architect_networking.Base.{
  ℕ, suc, String, Bool, true, false, Option, none, some, List, [], ◌∷◌, ℤ, pos, ltb_ℤ, leb_ℤ,
  Outcome, done, panic, Except, ok, err, if◌then◌else◌,
}
use architect_networking.Config.{LeaderConfig}
use architect_networking.Message.{
  FailoverHeartbeatRequest, FailoverHeartbeatResponse, FailoverHealthCheckRequest,
  FailoverHealthCheckResponse,
}
use architect_networking.Node.{
  Node, NodeRole, primary, is_secondary, role_string, send_role, time_since,
}

-- A received heartbeat, under the mutex.
unfoldable pub beat : ℕ → Node → Node
beat now n = record n { last_heartbeat = some now; missed_heartbeats = 0 }

unfoldable pub heartbeat_response : FailoverHeartbeatRequest → Bool → ℕ → FailoverHeartbeatResponse
heartbeat_response req success now = record {
  error = none;
  flags = 0;
  request_id = req.request_id;
  success = success;
  timestamp = pos now;
}

-- `Heartbeat` returns a response also beside its error.
unfoldable pub heartbeat :
    ℕ → FailoverHeartbeatRequest → Node → (FailoverHeartbeatResponse × Option String) × Node
unfolding beat heartbeat_response is_secondary
heartbeat now req n =
    if is_secondary n.current_role
    then ((heartbeat_response req true now, none), beat now n)
    else ((heartbeat_response req false now, some "node is not secondary"), n)

-- `lf.awsClient.GetInstanceID()` reads a field through a pointer that may be nil.
unfoldable pub health_check :
    FailoverHealthCheckRequest → Node → Outcome String FailoverHealthCheckResponse
health_check req n = elim n.instance_id [
  | none ↦ panic
  | some id ↦ done (record {
    error = none;
    flags = 0;
    request_id = req.request_id;
    success = true;
    node_role = role_string n.current_role;
    instance_id = id;
  })
]

-- `timeSinceLastHeartbeat > lf.config.HeartbeatInterval`
unfoldable pub is_late : ℕ → Node → Bool
is_late now n = ltb_ℤ n.config.heartbeat_interval (time_since n.last_heartbeat now)

-- `lf.missedHeartbeats >= lf.config.HeartbeatMissThreshold`
unfoldable pub over_threshold : ℕ → Node → Bool
over_threshold missed n = leb_ℤ n.config.heartbeat_miss_threshold (pos missed)

-- The locked part of one `case <-ticker.C`: true if the threshold is reached.
unfoldable pub monitor_count : ℕ → Node → Bool × Node
unfolding is_late over_threshold
monitor_count now n =
    if is_late now n
    then if over_threshold (suc n.missed_heartbeats) n
      then (true, record n { missed_heartbeats = 0 })
      else (false, record n { missed_heartbeats = suc n.missed_heartbeats })
    else (false, n)

-- One `case <-ticker.C`: true if the loop returns.
unfoldable pub monitor_tick : ℕ → Node → Bool × Node
unfolding monitor_count send_role
monitor_tick now n =
    let (fired, n') = monitor_count now n in (fired, if fired then send_role primary n' else n')

-- What a monitor sees: a tick of its ticker, or a heartbeat handled between two ticks.
pub data MonitorEvent : Type 0 where
  tick : ℕ → MonitorEvent
  received : FailoverHeartbeatRequest → ℕ → MonitorEvent

-- One monitor until it returns, or the events end; true if it returned.
unfoldable pub monitor_loop : List MonitorEvent → Node → Bool × Node
unfolding monitor_tick heartbeat
monitor_loop [] n = (false, n)
monitor_loop (received req now ∷ es) n = monitor_loop es (heartbeat now req n).1
monitor_loop (tick now ∷ es) n =
    let (fired, n') = monitor_tick now n in
    elim fired [ true ↦ (true, n') | false ↦ monitor_loop es n' ]
