-- ===== src/System/Refinement/Laws.antt =====
-- The goroutines implement the small machine.
use architect_networking.Base.{
  ◌≡◌, refl, sym, ap, ap₂, subst, ◌∙◌, String, Bool, true, false, Option, none, some, arith,
  is_some, not,
}
use architect_networking.Config.{LeaderConfig}
use architect_networking.Node.{Node, NodeRole, unknown, primary, secondary, same_role, new_node}
use architect_networking.Node.Election.{elected, propose}
use architect_networking.Node.Heartbeat.{heartbeat}
use architect_networking.Node.Roles.{Env, RoleError, become, assign_role}
use architect_networking.Node.Roles.Laws.{cleanup_lem, become_lem, succeeds}
use architect_networking.System.{
  Phase, idle, cleaning, becoming, assigning, System, Step, elect_check, elect_decide, receive_role,
  clean, take_role, note_role, serve_heartbeat, monitor_select, monitor_stop, monitor_tick,
  monitor_send, start, Reach, here, next,
}
use architect_networking.System.Invariant.Fields.{
  SameWiring, send_role-SameWiring, propose-SameWiring, heartbeat-SameWiring,
  monitor_count-SameWiring,
}
use architect_networking.System.Refinement.{
  Connection, offline, serving, following, connection_of, View, Move, quiet, disconnect, connect,
  settle, connection, view,
}

abbrev is_serving : Connection → Bool
is_serving serving = true
is_serving _ = false

abbrev is_following : Connection → Bool
is_following following = true
is_following _ = false

-- The node has the view's role, and its server and client are those of the connection.
record Shows (n : Node) (v : View) : Type 0 where
  role : n.current_role ≡ v.role
  server : n.frpc_server ≡ is_serving v.connection
  client : n.frpc_client ≡ is_following v.connection

-- Where a transition stands with its connection.
abbrev ConnectedAt : Phase → Connection → Type 0
ConnectedAt idle c = Unit
ConnectedAt (cleaning r) c = Unit
ConnectedAt (becoming r) c = c ≡ offline
ConnectedAt (assigning r none) c = c ≡ connection_of r
ConnectedAt (assigning r (some e)) c = Unit

record Simulates (s : System) (v : View) : Type 0 where
  shown : Shows s.node v
  connected : ConnectedAt s.phase v.connection

abbrev Simulated : View → System → Type 0
Simulated v t = (w : View) × Move v w × Simulates t w

same-Shows : {n m : Node} {v : View} → SameWiring n m → Shows n v → Shows m v
same-Shows w h = record {
  role = w.role ∙ h.role;
  server = w.server ∙ h.server;
  client = w.client ∙ h.client;
}

-- A step that leaves the wiring and the phase alone.
quietly :
    (s t : System) (v : View)
    → SameWiring s.node t.node
    → t.phase ≡ s.phase
    → Simulates s v
    → Simulated v t
quietly s t v w p h = (
  v,
  quiet,
  record {
    shown = same-Shows w h.shown;
    connected = subst (λ q. ConnectedAt q v.connection) (sym p) h.connected;
  },
)

kept : (n : Node) → SameWiring n n
kept n = record { server = refl; client = refl; role = refl; config = refl }

-- The connection after the attempt to become `r`.
reached : Bool → NodeRole → Connection
reached true r = connection_of r
reached false r = offline

reached_move :
    (b : Bool) (r : NodeRole) (v : View)
    → v.connection ≡ offline
    → Move v (record v { connection = reached b r })
unfolding reached
reached_move true r v e = connect r e
reached_move false r v e = disconnect

reached_connected :
    (r : NodeRole) (e : Option RoleError) (b : Bool)
    → is_some e ≡ not b
    → ConnectedAt (assigning r e) (reached b r)
unfolding reached
reached_connected r none true h = refl
reached_connected r none false h = absurd cc
reached_connected r (some x) b h = tt

server_off : {n : Node} {v : View} → Shows n v → v.connection ≡ offline → n.frpc_server ≡ false
server_off h e = h.server ∙ ap is_serving e

client_off : {n : Node} {v : View} → Shows n v → v.connection ≡ offline → n.frpc_client ≡ false
client_off h e = h.client ∙ ap is_following e

become-Shows :
    (r : NodeRole) (env : Env) (n : Node) (v : View)
    → v.connection ≡ offline
    → Shows n v
    → Shows (become r env n).1 (record v { connection = reached (succeeds r env) r })
unfolding reached same_role
become-Shows unknown env n v e h = record {
  role = ground (arith, become_lem unknown env n (server_off h e) (client_off h e), h.role);
  server = ground (arith, become_lem unknown env n (server_off h e) (client_off h e));
  client = ground (arith, become_lem unknown env n (server_off h e) (client_off h e));
}
become-Shows primary env n v e h = record {
  role = ground (arith, become_lem primary env n (server_off h e) (client_off h e), h.role);
  server = ground (arith, become_lem primary env n (server_off h e) (client_off h e));
  client = ground (arith, become_lem primary env n (server_off h e) (client_off h e));
}
become-Shows secondary env n v e h = record {
  role = ground (arith, become_lem secondary env n (server_off h e) (client_off h e), h.role);
  server = ground (arith, become_lem secondary env n (server_off h e) (client_off h e));
  client = ground (arith, become_lem secondary env n (server_off h e) (client_off h e));
}

noted :
    (r : NodeRole) (e : Option RoleError) (n : Node) (v : View)
    → Shows n v
    → ConnectedAt (assigning r e) v.connection
    → (w : View) × Move v w × Shows (assign_role r e n) w
unfolding assign_role
noted r none n v h c = (
  record v { role = r },
  settle r c,
  record { role = refl; server = h.server; client = h.client },
)
noted r (some x) n v h c = (v, quiet, h)

Step-Simulated : {s t : System} (v : View) → Step s t → Simulates s v → Simulated v t
Step-Simulated {s} v (elect_check d r) h = quietly s _ v (kept s.node) refl h
Step-Simulated {s} v (elect_decide owns d) h =
    quietly s (record s { node = propose (elected s.node.config owns) s.node; deciding = false }) v
      (propose-SameWiring _ s.node) refl h
Step-Simulated {s} v (receive_role r p q) h = (
  v,
  quiet,
  record {
    shown = record { role = h.shown.role; server = h.shown.server; client = h.shown.client };
    connected = tt;
  },
)
Step-Simulated {s} v (clean r env p) h = (
  record v { connection = offline },
  disconnect,
  record {
    shown =
        rw (cleanup_lem env s.node) (record { role = h.shown.role; server = refl; client = refl });
    connected = refl;
  },
)
Step-Simulated {s} v (take_role r env p) h =
    let off = subst (λ q. ConnectedAt q v.connection) p h.connected in
    (
      _,
      reached_move (succeeds r env) r v off,
      record {
        shown = become-Shows r env s.node v off h.shown;
        connected =
            reached_connected r _ (succeeds r env)
              (become_lem r env s.node (server_off h.shown off) (client_off h.shown off)).1;
      },
    )
Step-Simulated {s} v (note_role r e p) h =
    let (w, m, shown) =
      noted r e s.node v h.shown (subst (λ q. ConnectedAt q v.connection) p h.connected) in
    (w, m, record { shown = shown; connected = tt })
Step-Simulated {s} v (serve_heartbeat now req k) h =
    quietly s (record s { node = (heartbeat now req s.node).1 }) v
      (heartbeat-SameWiring now req s.node) refl h
Step-Simulated {s} v (monitor_select before after m) h = quietly s _ v (kept s.node) refl h
Step-Simulated {s} v (monitor_stop before after ch m c) h = quietly s _ v (kept s.node) refl h
Step-Simulated {s} v (monitor_tick before after ch now m) h =
    quietly s _ v (monitor_count-SameWiring now s.node) refl h
Step-Simulated {s} v (monitor_send before after m) h =
    quietly s _ v (send_role-SameWiring primary s.node) refl h

Reach-Simulates :
    (c : LeaderConfig) (id : Option String) {s : System}
    → Reach (start c id) s
    → (v : View) × Simulates s v
unfolding new_node
Reach-Simulates c id here = (
  record { role = unknown; connection = offline },
  record { shown = record { role = refl; server = refl; client = refl }; connected = tt },
)
Reach-Simulates c id (next r st) =
    let (v, h) = Reach-Simulates c id r in let (w, m, h') = Step-Simulated v st h in (w, h')

shown_connection :
    (c : Connection) (server client : Bool)
    → server ≡ is_serving c
    → client ≡ is_following c
    → c ≡ connection server client
unfolding connection
shown_connection offline server client hs hc = ground arith
shown_connection serving server client hs hc = ground arith
shown_connection following server client hs hc = ground arith

shown_view : (n : Node) (v : View) → Shows n v → v ≡ view n
shown_view n v h =
    ap₂ (λ r c. record { role = r; connection = c }) (sym h.role)
      (shown_connection v.connection n.frpc_server n.frpc_client h.server h.client)

-- Every step of the goroutines from a reachable state moves what the node shows by a move of the
-- small machine: a connection goes up only where none was, and a role is taken only with the
-- connection that belongs to it.
pub Step-Move :
    (c : LeaderConfig) (id : Option String) {s t : System}
    → Reach (start c id) s
    → Step s t
    → Move (view s.node) (view t.node)
Step-Move c id {s} {t} r st =
    let (v, h) = Reach-Simulates c id r in
    let (w, m, h') = Step-Simulated v st h in
    subst (λ x. Move x (view t.node)) (shown_view s.node v h.shown)
      (subst (Move v) (shown_view t.node w h'.shown) m)
