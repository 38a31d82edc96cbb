-- ===== src/System/Invariant/Count.antt =====
-- The count of missed heartbeats.
use architect_networking.Base.{ℕ, suc, ◌≤◌, ◌≡◌, String, Option, arith, Except, pos}
use architect_networking.Config.{LeaderConfig}
use architect_networking.Message.{FailoverHeartbeatRequest}
use architect_networking.Node.{Node, NodeRole, unknown, primary, secondary, send_role, new_node}
use architect_networking.Node.Heartbeat.{heartbeat, monitor_count}
use architect_networking.Node.Roles.{
  Env, RoleError, become, assign_role, become_primary, become_secondary,
}
use architect_networking.Node.Roles.Laws.{cleanup_lem}
use architect_networking.Node.Election.{propose}
use architect_networking.System.{
  System, Step, elect_check, elect_decide, receive_role, clean, take_role, note_role,
  serve_heartbeat, monitor_select, monitor_stop, monitor_tick, monitor_send, start, Reach, here,
  next,
}

-- Under the threshold, which stays what the configuration says.
abbrev pub Counts : ℕ → Node → Type 0
Counts t n = (n.config.heartbeat_miss_threshold ≡ pos (suc t)) × (n.missed_heartbeats ≤ t)

become-Counts :
    (t : ℕ) (r : NodeRole) (env : Env) (n : Node) → Counts t n → Counts t (become r env n).1
unfolding become become_primary become_secondary
become-Counts t unknown env n h = h
become-Counts t primary env n h = ground arith
become-Counts t secondary env n h = ground arith

propose-Counts :
    (t : ℕ) (e : Except String NodeRole) (n : Node) → Counts t n → Counts t (propose e n)
unfolding propose send_role
propose-Counts t e n h = ground arith

send-Counts : (t : ℕ) (r : NodeRole) (n : Node) → Counts t n → Counts t (send_role r n)
unfolding send_role
send-Counts t r n h = ground arith

assign-Counts :
    (t : ℕ) (r : NodeRole) (e : Option RoleError) (n : Node)
    → Counts t n
    → Counts t (assign_role r e n)
unfolding assign_role
assign-Counts t r e n h = ground arith

heartbeat-Counts :
    (t now : ℕ) (req : FailoverHeartbeatRequest) (n : Node)
    → Counts t n
    → Counts t (heartbeat now req n).1
unfolding heartbeat
heartbeat-Counts t now req n h = ground arith

monitor-Counts : (t now : ℕ) (n : Node) → Counts t n → Counts t (monitor_count now n).1
unfolding monitor_count
monitor-Counts t now n h = ground arith

Step-Counts : {s u : System} (t : ℕ) → Step s u → Counts t s.node → Counts t u.node
Step-Counts t (elect_check d r) h = h
Step-Counts {s} t (elect_decide owns d) h = propose-Counts t _ s.node h
Step-Counts t (receive_role r p q) h = h
Step-Counts {s} t (clean r env p) h = rw (cleanup_lem env s.node) h
Step-Counts {s} t (take_role r env p) h = become-Counts t r env s.node h
Step-Counts {s} t (note_role r e p) h = assign-Counts t r e s.node h
Step-Counts {s} t (serve_heartbeat now req k) h = heartbeat-Counts t now req s.node h
Step-Counts t (monitor_select before after m) h = h
Step-Counts t (monitor_stop before after ch m c) h = h
Step-Counts {s} t (monitor_tick before after ch now m) h = monitor-Counts t now s.node h
Step-Counts {s} t (monitor_send before after m) h = send-Counts t primary s.node h

Reach-Counts :
    (c : LeaderConfig) (id : Option String) (t : ℕ) {s : System}
    → c.heartbeat_miss_threshold ≡ pos (suc t)
    → Reach (start c id) s
    → Counts t s.node
unfolding new_node
Reach-Counts c id t e here = (e, omega arith)
Reach-Counts c id t e (next r st) = Step-Counts t st (Reach-Counts c id t e r)

-- However many monitors share the count, it stays below the threshold.
pub Reach-count :
    (c : LeaderConfig) (id : Option String) (t : ℕ) {s : System}
    → c.heartbeat_miss_threshold ≡ pos (suc t)
    → Reach (start c id) s
    → s.node.missed_heartbeats ≤ t
Reach-count c id t e r = (Reach-Counts c id t e r).1
