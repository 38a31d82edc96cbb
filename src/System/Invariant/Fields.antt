-- ===== src/System/Invariant/Fields.antt =====
-- The fields that each operation leaves alone.
use architect_networking.Base.{ℕ, ◌≡◌, String, arith, Except}
use architect_networking.Message.{FailoverHeartbeatRequest}
use architect_networking.Node.{Node, NodeRole, send_role}
use architect_networking.Node.Heartbeat.{heartbeat, monitor_count}
use architect_networking.Node.Election.{propose}

-- A node with the same fRPC server and client, role and configuration.
pub record SameWiring (n m : Node) : Type 0 where
  pub server : m.frpc_server ≡ n.frpc_server
  pub client : m.frpc_client ≡ n.frpc_client
  pub role : m.current_role ≡ n.current_role
  pub config : m.config ≡ n.config

pub send_role-SameWiring : (r : NodeRole) (n : Node) → SameWiring n (send_role r n)
unfolding send_role
send_role-SameWiring r n = ground arith

pub propose-SameWiring : (e : Except String NodeRole) (n : Node) → SameWiring n (propose e n)
unfolding propose send_role
propose-SameWiring e n = ground arith

pub heartbeat-SameWiring :
    (now : ℕ) (req : FailoverHeartbeatRequest) (n : Node) → SameWiring n (heartbeat now req n).1
unfolding heartbeat
heartbeat-SameWiring now req n = ground arith

pub monitor_count-SameWiring : (now : ℕ) (n : Node) → SameWiring n (monitor_count now n).1
unfolding monitor_count
monitor_count-SameWiring now n = ground arith
