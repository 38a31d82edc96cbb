-- ===== src/Node/Roles/Laws.antt =====
-- What a transition leaves, on every branch.
use architect_networking.Base.{
  ◌≡◌, refl, Bool, false, ◌&&◌, not, none, some, arith, is_some, ok, err, if◌then◌else◌,
}
use architect_networking.Node.{Node, NodeRole, unknown, primary, secondary, same_role}
use architect_networking.Node.Roles.{
  Env, cleanup, become, transition_to_role, assign_role, become_primary, become_secondary, manage,
}

-- Cleanup leaves neither server nor client, whatever fails, and nothing else changes.
pub cleanup_lem :
    (env : Env) (n : Node)
    → (cleanup env n).1 ≡ record n { frpc_server = false; frpc_client = false }
unfolding cleanup
cleanup_lem env n = ground arith

-- Whether a transition to the role succeeds.
abbrev pub succeeds : NodeRole → Env → Bool
succeeds unknown env = false
succeeds primary env = not (is_some env.new_server)
succeeds secondary env = elim env.new_client [ ok made ↦ made | err _ ↦ false ]

-- From a node with neither server nor client.
pub become_lem :
    (r : NodeRole) (env : Env) (n : Node)
    → n.frpc_server ≡ false
    → n.frpc_client ≡ false
    → ((become r env n).1.current_role ≡ n.current_role)
      × (is_some (become r env n).0 ≡ not (succeeds r env))
      × ((become r env n).1.frpc_server ≡ (succeeds r env && same_role r primary))
      × ((become r env n).1.frpc_client ≡ (succeeds r env && same_role r secondary))
      × ((become r env n).1.role_ch ≡ n.role_ch)
      × ((become r env n).1.config ≡ n.config)
unfolding become become_primary become_secondary same_role
become_lem unknown env n hs hc = ground arith
become_lem primary env n hs hc = ground arith
become_lem secondary env n hs hc = ground arith

-- A requested role is taken exactly if its server or client could be made, whatever the failover
-- actions and the cleanup answer. Then a primary has a server and no client, a secondary a client
-- and no server; a failed request keeps the old role and leaves neither.
pub manage_lem :
    (env : Env) (n : Node) (r : NodeRole)
    → n.role_ch ≡ some r
    → let n' = manage env n in
      let s = succeeds r env in
      (n'.current_role ≡ (if s then r else n.current_role))
      × (n'.frpc_server ≡ (s && same_role r primary))
      × (n'.frpc_client ≡ (s && same_role r secondary))
      × (n'.role_ch ≡ none)
unfolding manage transition_to_role assign_role
manage_lem env n r h =
    let m : Node = record n { role_ch = none } in
    ground (
      arith,
      cleanup_lem env m,
      become_lem r env (record m { frpc_server = false; frpc_client = false }) refl refl,
    )
