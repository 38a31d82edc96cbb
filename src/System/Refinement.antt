-- ===== src/System/Refinement.antt =====
-- What a peer and the routes depend on of a node of pkg/failover/leader.go, a role and one
-- connection, as a small machine.
pub mod Laws
use architect_networking.Base.{
  ◌≡◌, refl, sym, ap, ap₂, subst, ◌∙◌, String, Bool, true, false, Option, none, some, arith,
  is_some, not,
}
use architect_networking.Config.{LeaderConfig}
use architect_networking.Node.{Node, NodeRole, unknown, primary, secondary, same_role, new_node}
use architect_networking.Node.Election.{elected, propose}
use architect_networking.Node.Heartbeat.{heartbeat}
use architect_networking.Node.Roles.{Env, RoleError, become, assign_role}
use architect_networking.Node.Roles.Laws.{cleanup_lem, become_lem, succeeds}
use architect_networking.System.{
  Phase, idle, cleaning, becoming, assigning, System, Step, elect_check, elect_decide, receive_role,
  clean, take_role, note_role, serve_heartbeat, monitor_select, monitor_stop, monitor_tick,
  monitor_send, start, Reach, here, next,
}
use architect_networking.System.Invariant.Fields.{
  SameWiring, send_role-SameWiring, propose-SameWiring, heartbeat-SameWiring,
  monitor_count-SameWiring,
}

pub data Connection : Type 0 where
  offline serving following : Connection

-- The connection that belongs to a role.
abbrev pub connection_of : NodeRole → Connection
connection_of unknown = offline
connection_of primary = serving
connection_of secondary = following

pub record View : Type 0 where
  pub role : NodeRole
  pub connection : Connection

-- A node disconnects, connects for a role once it is offline, and takes a role once it has the
-- role's connection.
pub data Move (v : View) : View → Type 0 where
  quiet : Move v v
  disconnect : Move v (record v { connection = offline })
  connect :
      (r : NodeRole) → v.connection ≡ offline → Move v (record v { connection = connection_of r })
  settle : (r : NodeRole) → v.connection ≡ connection_of r → Move v (record v { role = r })

-- What a node shows.
unfoldable pub connection : Bool → Bool → Connection
connection true client = serving
connection false true = following
connection false false = offline

abbrev pub view : Node → View
view n = record { role = n.current_role; connection = connection n.frpc_server n.frpc_client }
