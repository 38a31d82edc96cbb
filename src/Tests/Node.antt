-- ===== src/Tests/Node.antt =====
-- One node: its election, its monitor, its transitions, and how it comes up and goes down.
use architect_networking.Base.{
  ℕ, ◌+◌, ◌≤◌, ◌≡◌, ◌≢◌, ◌↔◌, refl, Bool, true, false, ◌&&◌, is_some, none, some, List, [], ◌∷◌,
  arith, String, Except, ok, leb, length, map, panic, if◌then◌else◌,
}
use architect_networking.Config.{LeaderConfig, validate}
use architect_networking.Config.Laws.{IsAcceptable, IsComplete}
use architect_networking.Node.{Node, unknown, primary, secondary, same_role, new_node, time_since}
use architect_networking.Node.Heartbeat.{MonitorEvent, tick, received, monitor_loop, is_late}
use architect_networking.Node.Heartbeat.Laws.{
  Silence, monitor_loop-Silence, longest_quiet, monitor_loop_safe,
}
use architect_networking.Node.Roles.{manage}
use architect_networking.Node.Roles.Laws.{succeeds, manage_lem}
use architect_networking.Node.Election.{elected, election_tick}
use architect_networking.Node.Election.Laws.{election_tick_lem}
use architect_networking.Node.Shutdown.{Setup, new_leader_failover, finish_start, finish_command}
use architect_networking.Node.Shutdown.Laws.{new_leader_failover_lem, finish_command_panics}
use architect_networking.Message.{FailoverHealthCheckRequest}
use architect_networking.Tests.Data.{config, parse_ip, env, heartbeat_request, watching_node}

abbrev fresh : Node
fresh = record watching_node {
  current_role = unknown;
  frpc_client = false;
  last_heartbeat = none;
  heartbeat_stop_ch = none;
}

abbrev owns : Except String Bool
owns = ok true

election_tick_lem_example :
    ((election_tick owns fresh).role_ch ≡ some primary)
    ↔ ((unknown ≢ secondary) × (elected config owns ≡ ok primary) × (primary ≢ unknown))
election_tick_lem_example = election_tick_lem owns fresh primary refl

abbrev late_times : List ℕ
late_times = 50000000 ∷ 100000000 ∷ 150000000 ∷ []

silent : Silence watching_node late_times
unfolding is_late time_since
silent = (refl, (refl, (refl, tt)))

monitor_loop-Silence_example :
    (monitor_loop (map tick late_times) watching_node).0 ≡ leb 3 (0 + length late_times)
monitor_loop-Silence_example =
    monitor_loop-Silence late_times 2 watching_node refl (omega arith) silent

abbrev events : List MonitorEvent
events =
    tick 50000000
    ∷ received heartbeat_request 60000000
    ∷ tick 150000000
    ∷ tick 200000000
    ∷ tick 250000000
    ∷ []

fires : (monitor_loop events watching_node).0 ≡ true
unfolding monitor_loop time_since
fires = refl

monitor_loop_safe_example : 3 ≤ longest_quiet 0 events
monitor_loop_safe_example = monitor_loop_safe events 0 2 watching_node refl refl (omega arith) fires

abbrev asked : Node
asked = record watching_node { role_ch = some primary }

manage_lem_example :
    ((manage env asked).current_role ≡ (if succeeds primary env then primary else secondary))
    × ((manage env asked).frpc_server ≡ (succeeds primary env && same_role primary primary))
    × ((manage env asked).frpc_client ≡ (succeeds primary env && same_role primary secondary))
    × ((manage env asked).role_ch ≡ none)
manage_lem_example = manage_lem env asked primary refl

abbrev setup : Setup
setup = record { parse_ip = parse_ip; aws = ok "i-1"; socket = none; api = none }

comes_up : new_leader_failover setup config ≡ ok (new_node config (some "i-1"))
unfolding new_leader_failover validate
comes_up = refl

node-config : (new_node config (some "i-1")).config ≡ config
unfolding new_node
node-config = refl

new_leader_failover_lem_example :
    ((new_node config (some "i-1")).config ≡ (validate parse_ip config).0)
    × IsAcceptable parse_ip config
    × IsComplete (new_node config (some "i-1")).config
    × (is_some (new_node config (some "i-1")).instance_id ≡ true)
new_leader_failover_lem_example =
    new_leader_failover_lem setup config (new_node config (some "i-1")) comes_up

abbrev unchecked : LeaderConfig
unchecked = record config { disable_eni_check = true; force_role = "primary" }

comes_up_unchecked : new_leader_failover setup unchecked ≡ ok (new_node unchecked none)
unfolding new_leader_failover validate
comes_up_unchecked = refl

abbrev question : FailoverHealthCheckRequest
question = record { error = none; flags = 0; request_id = "q" }

finish_command_panics_example :
    (finish_command env watching_node ≡ panic) × (finish_start env watching_node ≢ panic)
finish_command_panics_example = finish_command_panics env watching_node refl
