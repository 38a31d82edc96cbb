-- ===== src/System.antt =====
-- The goroutines of one node, pkg/failover/leader.go, in any order of their steps:
-- `leaderElectionLoop`, `roleManagementLoop`, one `heartbeatMonitorLoop` for each time the node
-- became a secondary, and the service of its fRPC server. A step is what a goroutine does between
-- two points where others can interfere: cleaning up, becoming the new role and noting it are
-- three steps. The AWS calls and the locks of `becomePrimary` and `becomeSecondary` are inside the
-- second. `secondarySyncLoop` changes no field and is in Sync/Loop. The end of `Start`, its cleanup
-- included, is no step; it and the loops' end at `stopCh` are in Node/Shutdown.
pub mod Invariant
pub mod Stuck
pub mod Refinement
use architect_networking.Base.{
  ℕ, String, Bool, true, false, Option, none, some, List, [], ◌∷◌, ◌++◌, ◌≡◌, Except, ok, Memᴰ,
}
use architect_networking.Config.{LeaderConfig}
use architect_networking.Message.{FailoverHeartbeatRequest}
use architect_networking.Node.{
  Node, NodeRole, primary, secondary, is_secondary, new_node, send_role,
}
use architect_networking.Node.Heartbeat.{heartbeat, monitor_count}
use architect_networking.Node.Roles.{Env, RoleError, cleanup, become, assign_role}
use architect_networking.Node.Election.{elected, propose}

-- Where the role management loop stands.
pub data Phase : Type 0 where
  idle : Phase
  cleaning : NodeRole → Phase
  becoming : NodeRole → Phase
  assigning : NodeRole → Option RoleError → Phase

-- Where a monitor stands: before its `select`, in it with the stop channel that it read there, or
-- after the unlock, about to send.
pub data Monitor : Type 0 where
  looping : Monitor
  watching : Option ℕ → Monitor
  sending : Monitor

-- `deciding` is the election loop behind its test of the current role.
pub record System : Type 0 where
  pub node : Node
  pub phase : Phase
  pub deciding : Bool
  pub monitors : List Monitor

-- The monitor that `becomeSecondary` starts.
unfoldable pub started : NodeRole → Option RoleError → List Monitor → List Monitor
started secondary none ms = looping ∷ ms
started _ _ ms = ms

-- Where a monitor goes after its count.
unfoldable pub counted : Bool → Monitor
counted true = sending
counted false = looping

pub data Step (s : System) : System → Type 0 where
  elect_check :
      s.deciding ≡ false
      → is_secondary s.node.current_role ≡ false
      → Step s (record s { deciding = true })
  elect_decide :
      (owns : Except String Bool)
      → s.deciding ≡ true
      → Step s (record s { node = propose (elected s.node.config owns) s.node; deciding = false })
  receive_role :
      (r : NodeRole)
      → s.phase ≡ idle
      → s.node.role_ch ≡ some r
      → Step s (record s { node = record s.node { role_ch = none }; phase = cleaning r })
  clean :
      (r : NodeRole) (env : Env)
      → s.phase ≡ cleaning r
      → Step s (record s { node = (cleanup env s.node).1; phase = becoming r })
  take_role :
      (r : NodeRole) (env : Env)
      → s.phase ≡ becoming r
      → Step s (record s {
        node = (become r env s.node).1;
        phase = assigning r (become r env s.node).0;
        monitors = started r (become r env s.node).0 s.monitors;
      })
  note_role :
      (r : NodeRole) (e : Option RoleError)
      → s.phase ≡ assigning r e
      → Step s (record s { node = assign_role r e s.node; phase = idle })
  -- The service is reached through the node's own server alone.
  serve_heartbeat :
      (now : ℕ) (req : FailoverHeartbeatRequest)
      → s.node.frpc_server ≡ true
      → Step s (record s { node = (heartbeat now req s.node).1 })
  monitor_select :
      (before after : List Monitor)
      → s.monitors ≡ before ++ (looping ∷ after)
      → Step s (record s { monitors = before ++ (watching s.node.heartbeat_stop_ch ∷ after) })
  monitor_stop :
      (before after : List Monitor) (ch : ℕ)
      → s.monitors ≡ before ++ (watching (some ch) ∷ after)
      → Memᴰ ch s.node.closed
      → Step s (record s { monitors = before ++ after })
  monitor_tick :
      (before after : List Monitor) (ch : Option ℕ) (now : ℕ)
      → s.monitors ≡ before ++ (watching ch ∷ after)
      → Step s (record s {
        node = (monitor_count now s.node).1;
        monitors = before ++ (counted (monitor_count now s.node).0 ∷ after);
      })
  monitor_send :
      (before after : List Monitor)
      → s.monitors ≡ before ++ (sending ∷ after)
      → Step s (record s { node = send_role primary s.node; monitors = before ++ after })

-- `Start` on what `NewLeaderFailover` returns.
abbrev pub start : LeaderConfig → Option String → System
start c id = record { node = new_node c id; phase = idle; deciding = false; monitors = [] }

pub data Reach (s : System) : System → Type 0 where
  here : Reach s s
  next : {t u : System} → Reach s t → Step t u → Reach s u
