-- ===== src/System/Invariant/Requests.antt =====
-- Only real roles are requested.
use architect_networking.Base.{
  ℕ, ◌≡◌, ◌≢◌, refl, subst, String, Bool, Option, some, arith, Except, ok, err, Option-cases, inl,
  inr,
}
use architect_networking.Config.{LeaderConfig}
use architect_networking.Node.{Node, NodeRole, unknown, primary, secondary, send_role, new_node}
use architect_networking.Message.{FailoverHeartbeatRequest}
use architect_networking.Node.Heartbeat.{heartbeat, monitor_count}
use architect_networking.Node.Roles.{
  Env, RoleError, become, assign_role, invalid_role, become_primary, become_secondary,
}
use architect_networking.Node.Roles.Laws.{cleanup_lem}
use architect_networking.Node.Election.{elected, propose}
use architect_networking.System.{
  Phase, idle, cleaning, becoming, assigning, System, Step, elect_check, elect_decide, receive_role,
  clean, take_role, note_role, serve_heartbeat, monitor_select, monitor_stop, monitor_tick,
  monitor_send, start, Reach, here, next,
}

abbrev pub PhaseValid : Phase → Type 0
PhaseValid idle = Unit {0}
PhaseValid (cleaning r) = r ≢ unknown
PhaseValid (becoming r) = r ≢ unknown
PhaseValid (assigning r e) = r ≢ unknown

-- Neither the channel nor a transition holds the unknown role.
pub record HasRequests (s : System) : Type 0 where
  pub queued : s.node.role_ch ≢ some unknown
  pub pending : PhaseValid s.phase

send_queued :
    (r : NodeRole) (n : Node)
    → r ≢ unknown
    → n.role_ch ≢ some unknown
    → (send_role r n).role_ch ≢ some unknown
unfolding send_role
send_queued r n v q h = elim (Option-cases n.role_ch) [
  | inl e ↦ v (ground arith)
  | inr (r', e) ↦ q (ground arith)
]

elected-valid : (c : LeaderConfig) (owns : Except String Bool) → elected c owns ≢ ok unknown
unfolding elected
elected-valid c owns h = ground arith

propose_queued :
    (e : Except String NodeRole) (n : Node)
    → e ≢ ok unknown
    → n.role_ch ≢ some unknown
    → (propose e n).role_ch ≢ some unknown
unfolding propose
propose_queued (err x) n v q h = q h
propose_queued (ok r) n v q h = ground (arith, send_queued r n (λ k. v (ground arith)) q)

kept_heartbeat :
    (now : ℕ) (req : FailoverHeartbeatRequest) (n : Node)
    → (heartbeat now req n).1.role_ch ≡ n.role_ch
unfolding heartbeat
kept_heartbeat now req n = ground arith

kept_count : (now : ℕ) (n : Node) → (monitor_count now n).1.role_ch ≡ n.role_ch
unfolding monitor_count
kept_count now n = ground arith

kept_become : (r : NodeRole) (env : Env) (n : Node) → (become r env n).1.role_ch ≡ n.role_ch
unfolding become become_primary become_secondary
kept_become unknown env n = refl
kept_become primary env n = ground arith
kept_become secondary env n = ground arith

kept_assign :
    (r : NodeRole) (e : Option RoleError) (n : Node) → (assign_role r e n).role_ch ≡ n.role_ch
unfolding assign_role
kept_assign r e n = ground arith

Step-HasRequests : {s t : System} → Step s t → HasRequests s → HasRequests t
Step-HasRequests (elect_check d r) h = record { queued = h.queued; pending = h.pending }
Step-HasRequests {s} (elect_decide owns d) h = record {
  queued = propose_queued _ s.node (elected-valid s.node.config owns) h.queued;
  pending = h.pending;
}
Step-HasRequests {s} (receive_role r p q) h = record {
  queued = λ k. cc;
  pending = λ k. h.queued (ground arith);
}
Step-HasRequests {s} (clean r env p) h = record {
  queued = rw (cleanup_lem env s.node) h.queued;
  pending = subst PhaseValid p h.pending;
}
Step-HasRequests {s} (take_role r env p) h = record {
  queued = rw (kept_become r env s.node) h.queued;
  pending = let v : PhaseValid (becoming r) = subst PhaseValid p h.pending in v;
}
Step-HasRequests {s} (note_role r e p) h = record {
  queued = rw (kept_assign r e s.node) h.queued;
  pending = tt;
}
Step-HasRequests {s} (serve_heartbeat now req k) h = record {
  queued = rw (kept_heartbeat now req s.node) h.queued;
  pending = h.pending;
}
Step-HasRequests (monitor_select before after m) h = record {
  queued = h.queued;
  pending = h.pending;
}
Step-HasRequests (monitor_stop before after ch m c) h = record {
  queued = h.queued;
  pending = h.pending;
}
Step-HasRequests {s} (monitor_tick before after ch now m) h = record {
  queued = rw (kept_count now s.node) h.queued;
  pending = h.pending;
}
Step-HasRequests {s} (monitor_send before after m) h = record {
  queued = send_queued primary s.node (λ k. cc) h.queued;
  pending = h.pending;
}

pub Reach-HasRequests :
    (c : LeaderConfig) (id : Option String) {s : System} → Reach (start c id) s → HasRequests s
unfolding new_node
Reach-HasRequests c id here = record { queued = λ k. cc; pending = tt }
Reach-HasRequests c id (next r st) = Step-HasRequests st (Reach-HasRequests c id r)

become-valid :
    (r : NodeRole) (env : Env) (n : Node) → r ≢ unknown → (become r env n).0 ≢ some invalid_role
unfolding become become_primary become_secondary
become-valid unknown env n v h = v refl
become-valid primary env n v h = ground arith
become-valid secondary env n v h = ground arith

-- No transition of a reachable node fails because its role is invalid.
pub take_role_valid :
    (c : LeaderConfig) (id : Option String) {s : System} (r : NodeRole) (env : Env)
    → Reach (start c id) s
    → s.phase ≡ becoming r
    → (become r env s.node).0 ≢ some invalid_role
take_role_valid c id {s} r env reach p =
    become-valid r env s.node (subst PhaseValid p (Reach-HasRequests c id reach).pending)
