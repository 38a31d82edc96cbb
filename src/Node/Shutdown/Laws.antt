-- ===== src/Node/Shutdown/Laws.antt =====
-- How a node comes up and goes down.
use architect_networking.Base.{
  ◌≡◌, ◌≢◌, refl, sym, ap, subst, ◌∙◌, not, is_some, true, false, Option, none, some, arith, ok,
  panic,
}
use architect_networking.Config.{LeaderConfig, ConfigError, validate}
use architect_networking.Config.Laws.{
  IsComplete, validate-IsComplete, IsAcceptable, validate-eq-none, validate-disable,
}
use architect_networking.Message.{FailoverHealthCheckRequest}
use architect_networking.Node.{Node, new_node}
use architect_networking.Node.Heartbeat.{health_check}
use architect_networking.Node.Roles.{Env, cleanup}
use architect_networking.Node.Shutdown.{
  Setup, check_config, make_node, aws_instance, new_leader_failover, finish_command, finish_start,
  stop,
}

checked :
    (w : Setup) (v : LeaderConfig × Option ConfigError) (n : Node)
    → check_config w v ≡ ok n
    → (v.1 ≡ none) × (n.config ≡ v.0) × (is_some n.instance_id ≡ not v.0.disable_eni_check)
unfolding check_config make_node aws_instance new_node
checked w (c, some e) n h = absurd (cc)
checked w (c, none) n h = (refl, ground arith, ground arith)

-- A node that comes up runs on the validated configuration, which is acceptable and complete, and
-- has an AWS client exactly if the ENI check is not disabled.
pub new_leader_failover_lem :
    (w : Setup) (c : LeaderConfig) (n : Node)
    → new_leader_failover w c ≡ ok n
    → (n.config ≡ (validate w.parse_ip c).0)
      × IsAcceptable w.parse_ip c
      × IsComplete n.config
      × (is_some n.instance_id ≡ not c.disable_eni_check)
unfolding new_leader_failover
new_leader_failover_lem w c n h =
    let (v, e, i) = checked w (validate w.parse_ip c) n h in
    (
      e,
      (validate-eq-none w.parse_ip c).0 v,
      subst IsComplete (sym e) (validate-IsComplete w.parse_ip c v),
      i ∙ ap not (validate-disable w.parse_ip c),
    )

-- With the ENI check disabled the health check of the node that comes up panics on every request.
pub health_check_disabled :
    (w : Setup) (c : LeaderConfig) (n : Node) (req : FailoverHealthCheckRequest)
    → new_leader_failover w c ≡ ok n
    → c.disable_eni_check ≡ true
    → health_check req n ≡ panic
unfolding health_check
health_check_disabled w c n req h d = ground (arith, (new_leader_failover_lem w c n h).3)

-- A graceful end panics: the deferred `Stop` closes the channel that `Start` has closed.
pub finish_command_panics :
    (env : Env) (n : Node)
    → n.stop_closed ≡ false
    → (finish_command env n ≡ panic) × (finish_start env n ≢ panic)
unfolding finish_command stop cleanup
finish_command_panics env n h = (ground arith, λ k. ground arith)
