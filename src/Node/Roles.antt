-- ===== src/Node/Roles.antt =====
-- pkg/failover/leader.go: `cleanup`, `becomePrimary`, `becomeSecondary`, `transitionToRole`, and
-- the step of `roleManagementLoop`. What the environment answers is the argument `env`.
pub mod Laws
use architect_networking.Base.{
  ℕ, suc, String, Bool, true, false, Option, none, some, List, [], ◌∷◌, Except, ok, err, is_some,
  if◌then◌else◌,
}
use architect_networking.Node.{Node, NodeRole, unknown, primary, secondary}

-- What closing the fRPC client does: `Close` may fail, and a panic in it is recovered from.
pub data CloseResult : Type 0 where
  closed_client : CloseResult
  close_error : String → CloseResult
  close_panic : CloseResult

-- The answers that one transition meets: `Shutdown` of the server, `Close` of the client,
-- `executeFailoverActions` (the new `currentENI`, or an error), `NewServer`, `NewClient` (whose
-- client may be nil), and the clock. `Connect` decides only which line is logged.
pub record Env : Type 0 where
  pub shutdown : Option String
  pub close : CloseResult
  pub actions : Except String String
  pub new_server : Option String
  pub new_client : Except String Bool
  pub now : ℕ

pub data RoleError : Type 0 where
  server_failed : String → RoleError
  client_failed : String → RoleError
  client_invalid : RoleError
  invalid_role : RoleError

cleanup_server : Env → Node → Option String × Node
cleanup_server env n =
    if n.frpc_server then (env.shutdown, record n { frpc_server = false }) else (none, n)

close_result : CloseResult → Option String → Option String
close_result closed_client last = last
close_result (close_error e) last = some e
close_result close_panic last = last

-- `lastErr` is the error of the last step that failed.
unfoldable pub cleanup : Env → Node → Option String × Node
unfolding cleanup_server close_result
cleanup env n =
    let (last, n') = cleanup_server env n in
    if n'.frpc_client
    then (close_result env.close last, record n' { frpc_client = false })
    else (last, n')

-- An error of the failover actions is logged, and the transition goes on.
unfoldable pub run_actions : Env → Node → Node
run_actions env n =
    if is_some n.instance_id
    then elim env.actions [ ok eni ↦ record n { current_eni = eni } | err _ ↦ n ]
    else n

stop_monitor : Node → Node
stop_monitor n = elim n.heartbeat_stop_ch [
  | none ↦ n
  | some ch ↦ record n { closed = ch ∷ n.closed; heartbeat_stop_ch = none }
]

unfoldable pub become_primary : Env → Node → Option RoleError × Node
unfolding run_actions stop_monitor
become_primary env n =
    let n1 = run_actions env n in
    elim env.new_server [
      | some e ↦ (some (server_failed e), record n1 { frpc_server = false })
      | none ↦
          let n2 = stop_monitor (record n1 { frpc_server = true }) in
          (none, record n2 { last_heartbeat = none; missed_heartbeats = 0 })
    ]

-- The channel of an earlier monitor is overwritten, not closed.
watch_primary : Env → Node → Node
watch_primary env n = record n {
  frpc_client = true;
  last_heartbeat = some env.now;
  missed_heartbeats = 0;
  heartbeat_stop_ch = some n.next_ch;
  next_ch = suc n.next_ch;
}

unfoldable pub become_secondary : Env → Node → Option RoleError × Node
unfolding watch_primary
become_secondary env n = elim env.new_client [
  | err e ↦ (some (client_failed e), n)
  | ok made ↦ if made then (none, watch_primary env n) else (some client_invalid, n)
]

-- The `switch` of `transitionToRole`.
unfoldable pub become : NodeRole → Env → Node → Option RoleError × Node
become primary env n = become_primary env n
become secondary env n = become_secondary env n
become unknown env n = (some invalid_role, n)

-- An error of the cleanup is logged.
unfoldable pub transition_to_role : NodeRole → Env → Node → Option RoleError × Node
unfolding become
transition_to_role r env n = become r env (cleanup env n).1

-- `lf.currentRole = newRole`, unless the transition failed.
unfoldable pub assign_role : NodeRole → Option RoleError → Node → Node
assign_role r none n = record n { current_role = r }
assign_role r (some _) n = n

-- One round of `roleManagementLoop`: a role is received, the transition made and its result noted.
unfoldable pub manage : Env → Node → Node
unfolding transition_to_role assign_role
manage env n = elim n.role_ch [
  | none ↦ n
  | some r ↦
      let (e, n') = transition_to_role r env (record n { role_ch = none }) in assign_role r e n'
]
