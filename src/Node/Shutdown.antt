-- ===== src/Node/Shutdown.antt =====
-- pkg/failover/leader.go: `NewLeaderFailover`, the end of `Start`, and `Stop`;
-- cmd/failover/failover.go: `runLeaderFailoverCmd`. The libraries' answers are arguments:
-- `net.ParseIP`, `NewAWSClient` (the instance ID, or an error) and the clients of the local socket.
pub mod Laws
use architect_networking.Base.{
  String, Bool, true, false, Option, none, some, Except, ok, err, Outcome, done, fail, panic,
  if◌then◌else◌,
}
use architect_networking.Config.{LeaderConfig, ConfigError, validate}
use architect_networking.Node.{Node, new_node}
use architect_networking.Node.Roles.{Env, cleanup}

pub data StartError : Type 0 where
  invalid_config : ConfigError → StartError
  aws_client : String → StartError
  local_client : String → StartError
  local_api_client : String → StartError

-- What the libraries answer to `NewLeaderFailover`.
pub record Setup : Type 0 where
  pub parse_ip : String → Bool
  pub aws : Except String String
  pub socket : Option String
  pub api : Option String

-- The AWS client is made unless the ENI check is disabled.
aws_instance : Setup → LeaderConfig → Except StartError (Option String)
aws_instance w c =
    if c.disable_eni_check
    then ok none
    else elim w.aws [ ok id ↦ ok (some id) | err e ↦ err (aws_client e) ]

make_node : Setup → LeaderConfig → Except StartError (Option String) → Except StartError Node
make_node w c (err e) = err e
make_node w c (ok id) = elim w.socket [
  | some e ↦ err (local_client e)
  | none ↦ elim w.api [ some e ↦ err (local_api_client e) | none ↦ ok (new_node c id) ]
]

check_config : Setup → LeaderConfig × Option ConfigError → Except StartError Node
unfolding make_node aws_instance
check_config w (c, some e) = err (invalid_config e)
check_config w (c, none) = make_node w c (aws_instance w c)

unfoldable pub new_leader_failover : Setup → LeaderConfig → Except StartError Node
unfolding check_config
new_leader_failover w c = check_config w (validate w.parse_ip c)

-- `close(lf.stopCh)`: closing a closed channel panics.
close_stop : Node → Option Node
close_stop n = if n.stop_closed then none else some (record n { stop_closed = true })

-- `close(lf.stopCh); return lf.cleanup()`, which ends `Start` after the context, and is `Stop`
-- too: the channel is never nil.
unfoldable pub stop : Env → Node → Outcome String (Option String × Node)
unfolding close_stop
stop env n = elim (close_stop n) [ none ↦ panic | some n' ↦ done (cleanup env n') ]

-- `Start` up to its return, once the context is done.
unfoldable pub finish_start : Env → Node → Outcome String (Option String × Node)
unfolding stop
finish_start env n = stop env n

deferred_stop : Env → Outcome String (Option String × Node) → Outcome String (Option String × Node)
deferred_stop env (done (_, n)) = stop env n
deferred_stop env (fail e) = fail e
deferred_stop env panic = panic

-- The end of `runLeaderFailoverCmd`: `Start` returns, and the deferred `Stop` runs.
unfoldable pub finish_command : Env → Node → Outcome String (Option String × Node)
unfolding deferred_stop finish_start
finish_command env n = deferred_stop env (finish_start env n)
