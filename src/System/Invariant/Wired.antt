-- ===== src/System/Invariant/Wired.antt =====
-- Which role the fRPC server and client belong to, at each point of a transition.
use architect_networking.Base.{
  ℕ, ◌≡◌, refl, sym, subst, String, Bool, true, false, ◌&&◌, Option, none, some, arith,
}
use architect_networking.Config.{LeaderConfig}
use architect_networking.Message.{FailoverHeartbeatRequest}
use architect_networking.Node.{Node, NodeRole, unknown, primary, secondary, same_role, new_node}
use architect_networking.Node.Heartbeat.{heartbeat}
use architect_networking.Node.Roles.{Env, RoleError, become, assign_role}
use architect_networking.Node.Roles.Laws.{cleanup_lem, become_lem}
use architect_networking.System.{
  Phase, idle, cleaning, becoming, assigning, System, Step, elect_check, elect_decide, receive_role,
  clean, take_role, note_role, serve_heartbeat, monitor_select, monitor_stop, monitor_tick,
  monitor_send, start, Reach, here, next,
}
use architect_networking.System.Invariant.Fields.{
  SameWiring, send_role-SameWiring, propose-SameWiring, heartbeat-SameWiring,
  monitor_count-SameWiring,
}

-- Between transitions a server belongs to the primary role and a client to the secondary one;
-- after the cleanup there is neither; after the switch they belong to the role that was taken.
abbrev pub WiredAt : Phase → Bool → Bool → NodeRole → Type 0
WiredAt idle server client role =
    (server ≡ true → role ≡ primary) × (client ≡ true → role ≡ secondary)
WiredAt (cleaning r) server client role =
    (server ≡ true → role ≡ primary) × (client ≡ true → role ≡ secondary)
WiredAt (becoming r) server client role = (server ≡ false) × (client ≡ false)
WiredAt (assigning r e) server client role =
    (server ≡ true → (r ≡ primary) × (e ≡ none)) × (client ≡ true → (r ≡ secondary) × (e ≡ none))

abbrev pub IsWired : System → Type 0
IsWired s = WiredAt s.phase s.node.frpc_server s.node.frpc_client s.node.current_role

same_wiring :
    (p : Phase) (n m : Node)
    → SameWiring n m
    → WiredAt p n.frpc_server n.frpc_client n.current_role
    → WiredAt p m.frpc_server m.frpc_client m.current_role
same_wiring p n m w h =
    subst (λ a. WiredAt p a m.frpc_client m.current_role) (sym w.server)
      (subst (λ a. WiredAt p n.frpc_server a m.current_role) (sym w.client)
        (subst (λ a. WiredAt p n.frpc_server n.frpc_client a) (sym w.role) h))

at_phase :
    {p q : Phase} (n : Node)
    → p ≡ q
    → WiredAt p n.frpc_server n.frpc_client n.current_role
    → WiredAt q n.frpc_server n.frpc_client n.current_role
at_phase n e h = subst (λ a. WiredAt a n.frpc_server n.frpc_client n.current_role) e h

taken :
    (r : NodeRole) (env : Env) (n : Node)
    → n.frpc_server ≡ false
    → n.frpc_client ≡ false
    → let (e, n') = become r env n in
      WiredAt (assigning r e) n'.frpc_server n'.frpc_client n'.current_role
unfolding same_role
taken unknown env n hs hc = (
  (λ h. ground (arith, become_lem unknown env n hs hc)),
  (λ h. ground (arith, become_lem unknown env n hs hc)),
)
taken primary env n hs hc = (
  (λ h. ground (arith, become_lem primary env n hs hc)),
  (λ h. ground (arith, become_lem primary env n hs hc)),
)
taken secondary env n hs hc = (
  (λ h. ground (arith, become_lem secondary env n hs hc)),
  (λ h. ground (arith, become_lem secondary env n hs hc)),
)

noted :
    (r : NodeRole) (e : Option RoleError) (n : Node)
    → WiredAt (assigning r e) n.frpc_server n.frpc_client n.current_role
    → let n' = assign_role r e n in WiredAt idle n'.frpc_server n'.frpc_client n'.current_role
unfolding assign_role
noted r none n h = ((λ k. (h.0 k).0), (λ k. (h.1 k).0))
noted r (some x) n h = ((λ k. ground (arith, h.0 k)), (λ k. ground (arith, h.1 k)))

Step-IsWired : {s t : System} → Step s t → IsWired s → IsWired t
Step-IsWired (elect_check d r) h = h
Step-IsWired {s} (elect_decide owns d) h =
    same_wiring s.phase s.node _ (propose-SameWiring _ s.node) h
Step-IsWired {s} (receive_role r p q) h = at_phase {q = idle} s.node p h
Step-IsWired {s} (clean r env p) h = rw (cleanup_lem env s.node) (refl, refl)
Step-IsWired {s} (take_role r env p) h =
    let h' = at_phase {q = becoming r} s.node p h in taken r env s.node h'.0 h'.1
Step-IsWired {s} (note_role r e p) h = noted r e s.node (at_phase {q = assigning r e} s.node p h)
Step-IsWired {s} (serve_heartbeat now req k) h =
    same_wiring s.phase s.node _ (heartbeat-SameWiring now req s.node) h
Step-IsWired (monitor_select before after m) h = h
Step-IsWired (monitor_stop before after ch m c) h = h
Step-IsWired {s} (monitor_tick before after ch now m) h =
    same_wiring s.phase s.node _ (monitor_count-SameWiring now s.node) h
Step-IsWired {s} (monitor_send before after m) h =
    same_wiring s.phase s.node _ (send_role-SameWiring primary s.node) h

pub Reach-IsWired :
    (c : LeaderConfig) (id : Option String) {s : System} → Reach (start c id) s → IsWired s
unfolding new_node
Reach-IsWired c id here = ((λ k. cc), (λ k. cc))
Reach-IsWired c id (next r st) = Step-IsWired st (Reach-IsWired c id r)

exclusive :
    (p : Phase) (n : Node)
    → WiredAt p n.frpc_server n.frpc_client n.current_role
    → (n.frpc_server && n.frpc_client) ≡ false
exclusive idle n h = ground arith
exclusive (cleaning r) n h = ground arith
exclusive (becoming r) n h = ground arith
exclusive (assigning r e) n h = ground arith

-- A node never has an fRPC server and an fRPC client at the same time.
pub never_both :
    (c : LeaderConfig) (id : Option String) {s : System}
    → Reach (start c id) s
    → (s.node.frpc_server && s.node.frpc_client) ≡ false
never_both c id {s} r = exclusive s.phase s.node (Reach-IsWired c id r)

-- Between transitions a node with a server refuses every heartbeat, and its record is unchanged: a
-- server runs on the primary alone, and the handler accepts heartbeats on a secondary alone.
pub idle_heartbeat_refused :
    (c : LeaderConfig) (id : Option String) {s : System} (now : ℕ) (req : FailoverHeartbeatRequest)
    → Reach (start c id) s
    → s.phase ≡ idle
    → s.node.frpc_server ≡ true
    → ((heartbeat now req s.node).0.1 ≡ some "node is not secondary")
      × ((heartbeat now req s.node).1 ≡ s.node)
unfolding heartbeat
idle_heartbeat_refused c id {s} now req r p k =
    let h = at_phase {q = idle} s.node p (Reach-IsWired c id r) in
    (ground (arith, h.0 k), ground (arith, h.0 k))
