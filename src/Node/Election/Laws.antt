-- ===== src/Node/Election/Laws.antt =====
-- When a tick of the election asks for a role.
use architect_networking.Base.{
  ◌≡◌, ◌≢◌, ◌↔◌, refl, String, Bool, true, none, some, arith, Except, ok, err, ◌⊎◌, inl, inr,
  Bool-cases,
}
use architect_networking.Node.{
  Node, NodeRole, unknown, primary, secondary, is_secondary, same_role, send_role,
}
use architect_networking.Node.Election.{elected, propose, election_tick}

same_role_lem : (r q : NodeRole) → (same_role r q ≡ true) ↔ (r ≡ q)
unfolding same_role
same_role_lem unknown unknown = ground arith
same_role_lem unknown primary = ground arith
same_role_lem unknown secondary = ground arith
same_role_lem primary unknown = ground arith
same_role_lem primary primary = ground arith
same_role_lem primary secondary = ground arith
same_role_lem secondary unknown = ground arith
same_role_lem secondary primary = ground arith
same_role_lem secondary secondary = ground arith

is_secondary_lem : (r : NodeRole) → (is_secondary r ≡ true) ↔ (r ≡ secondary)
unfolding is_secondary
is_secondary_lem unknown = ground arith
is_secondary_lem primary = ground arith
is_secondary_lem secondary = ground arith

Except-cases :
    (x : Except String NodeRole) → ((q : NodeRole) × (x ≡ ok q)) ⊎ ((e : String) × (x ≡ err e))
Except-cases (ok q) = inl (q, refl)
Except-cases (err e) = inr (e, refl)

-- With no role queued, a tick queues a role exactly if the node is no secondary, the check of the
-- ENI (or the forced role) gives that role, and the node does not have it yet. A secondary is never
-- demoted or promoted by the election.
pub election_tick_lem :
    (owns : Except String Bool) (n : Node) (r : NodeRole)
    → n.role_ch ≡ none
    → ((election_tick owns n).role_ch ≡ some r)
      ↔ ((n.current_role ≢ secondary) × (elected n.config owns ≡ ok r) × (r ≢ n.current_role))
unfolding election_tick propose send_role is_secondary
election_tick_lem owns n r h = elim (Bool-cases (is_secondary n.current_role)) [
  | inl e ↦ ground (arith, is_secondary_lem n.current_role)
  | inr e ↦ elim (Except-cases (elected n.config owns)) [
    | inl (q, g) ↦ ground (arith, is_secondary_lem n.current_role, same_role_lem q n.current_role)
    | inr (x, g) ↦ ground (arith, is_secondary_lem n.current_role)
  ]
]

-- A tick that finds a role queued changes nothing.
pub election_tick_full :
    (owns : Except String Bool) (n : Node) (r : NodeRole)
    → n.role_ch ≡ some r
    → election_tick owns n ≡ n
unfolding election_tick propose send_role
election_tick_full owns n r h = ground arith
