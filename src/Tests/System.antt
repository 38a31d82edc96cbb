-- ===== src/Tests/System.antt =====
-- A node that becomes the primary, step by step, and a secondary that is promoted.
use architect_networking.Base.{◌≤◌, ◌≡◌, refl, true, false, ◌&&◌, none, some, [], ◌∷◌, ok}
use architect_networking.Node.{
  Node, unknown, primary, secondary, is_secondary, new_node, send_role, same_role,
}
use architect_networking.Node.Heartbeat.{heartbeat}
use architect_networking.Node.Election.{elected, propose}
use architect_networking.Node.Roles.{
  server_failed, Env, cleanup, become, become_primary, run_actions, assign_role,
}
use architect_networking.System.{
  System, Step, idle, becoming, assigning, sending, elect_check, elect_decide, receive_role, clean,
  take_role, note_role, started, start, Reach, here, next,
}
use architect_networking.System.Invariant.{never_both, idle_heartbeat_refused, Reach-count}
use architect_networking.System.Refinement.{Move, view}
use architect_networking.System.Refinement.Laws.{Step-Move}
use architect_networking.System.Stuck.{
  IsStuck, Reach-IsStuck, IsGivingUp, promoted, promotion_succeeds, promotion_fails,
}
use architect_networking.Tests.Data.{config, env, heartbeat_request, watching_node}

abbrev first_node : Node
first_node = record watching_node {
  current_role = unknown;
  frpc_client = false;
  last_heartbeat = none;
  heartbeat_stop_ch = none;
  next_ch = 0;
}

abbrev first : System
first = record { node = first_node; phase = idle; deciding = false; monitors = [] }

abbrev queued : Node
queued = record first_node { role_ch = some primary }

abbrev serving : Node
serving = record first_node { current_eni = "eni-1"; frpc_server = true }

abbrev switching : System
switching = record first { phase = becoming primary }

abbrev running : System
running = record first { node = record serving { current_role = primary } }

first_lem : start config (some "i-1") ≡ first
unfolding new_node
first_lem = refl

Reach-switching : Reach (start config (some "i-1")) switching
unfolding new_node is_secondary propose elected send_role cleanup same_role
Reach-switching =
    next
      (next (next (next here (elect_check refl refl)) (elect_decide (ok true) refl))
        (receive_role primary refl refl))
      (clean primary env refl)

Reach-running : Reach (start config (some "i-1")) running
unfolding become become_primary run_actions assign_role started
Reach-running =
    next (next Reach-switching (take_role primary env refl)) (note_role primary none refl)

never_both_example : (running.node.frpc_server && running.node.frpc_client) ≡ false
never_both_example = never_both config (some "i-1") {s = running} Reach-running

Step-Move_example : Move (view serving) (view running.node)
unfolding become become_primary run_actions assign_role started
Step-Move_example =
    Step-Move config (some "i-1") (next Reach-switching (take_role primary env refl))
      (note_role primary none refl)

idle_heartbeat_refused_example :
    ((heartbeat 7 heartbeat_request running.node).0.1 ≡ some "node is not secondary")
    × ((heartbeat 7 heartbeat_request running.node).1 ≡ running.node)
idle_heartbeat_refused_example =
    idle_heartbeat_refused config (some "i-1") {s = running} 7 heartbeat_request Reach-running refl
      refl

Reach-count_example : running.node.missed_heartbeats ≤ 2
Reach-count_example = Reach-count config (some "i-1") 2 {s = running} refl Reach-running

abbrev giving_up : System
giving_up = record { node = watching_node; phase = idle; deciding = false; monitors = sending ∷ [] }

gives_up : IsGivingUp giving_up
gives_up = record { role = refl; queue = refl; phase = refl; deciding = refl; monitors = refl }

promotion_succeeds_example :
    Reach giving_up (promoted giving_up env)
    × ((promoted giving_up env).node.current_role ≡ primary)
    × ((promoted giving_up env).node.frpc_server ≡ true)
    × ((promoted giving_up env).node.frpc_client ≡ false)
promotion_succeeds_example = promotion_succeeds giving_up env gives_up refl

abbrev no_server : Env
no_server = record env { new_server = some "address in use" }

abbrev lost : System
lost = promoted giving_up no_server

promotion_fails_example :
    Reach giving_up lost
    × (lost.node.current_role ≡ secondary)
    × (lost.node.frpc_server ≡ false)
    × (lost.node.frpc_client ≡ false)
    × ((t : System) → ¬ Step lost t)
promotion_fails_example = promotion_fails giving_up no_server "address in use" gives_up refl

-- The transition has failed and is not noted yet.
abbrev failing : System
failing = record giving_up {
  node = record watching_node { frpc_client = false };
  phase = assigning primary (some (server_failed "address in use"));
  monitors = [];
}

failing-IsStuck : IsStuck failing
failing-IsStuck = record { role = refl; queue = refl; phase = tt; deciding = refl; monitors = refl }

Reach-noted : Reach failing (record failing { phase = idle })
unfolding assign_role
Reach-noted = next here (note_role primary (some (server_failed "address in use")) refl)

Reach-IsStuck_example : IsStuck (record failing { phase = idle })
Reach-IsStuck_example = Reach-IsStuck failing-IsStuck Reach-noted
