-- ===== src/Node/Election.antt =====
-- pkg/failover/leader.go: one tick of `leaderElectionLoop`.
pub mod Laws
use architect_networking.Base.{String, Bool, true, false, Except, ok, err, str_eq, if◌then◌else◌}
use architect_networking.Config.{LeaderConfig, role_string_primary}
use architect_networking.Node.{
  Node, NodeRole, primary, secondary, is_secondary, same_role, send_role,
}

-- The role that the tick finds, if it gets as far: `owns` is what `CheckENIOwnership` returns.
unfoldable pub elected : LeaderConfig → Except String Bool → Except String NodeRole
elected c owns =
    if c.disable_eni_check
    then ok (if str_eq c.force_role role_string_primary then primary else secondary)
    else elim owns [ err e ↦ err e | ok o ↦ ok (if o then primary else secondary) ]

unfoldable pub propose : Except String NodeRole → Node → Node
propose (err _) n = n
propose (ok r) n = if same_role r n.current_role then n else send_role r n

unfoldable pub election_tick : Except String Bool → Node → Node
unfolding elected propose
election_tick owns n = if is_secondary n.current_role then n else propose (elected n.config owns) n
