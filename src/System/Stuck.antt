-- ===== src/System/Stuck.antt =====
-- What follows when a secondary's monitor gives its primary up: the promotion, and what is left if
-- the fRPC server cannot be made.
use architect_networking.Base.{
  ℕ, ◌≡◌, ◌≢◌, refl, sym, subst, ◌∙◌, true, false, none, some, List, [], ◌∷◌, ◌++◌, arith, String,
}
use architect_networking.Node.{Node, primary, secondary, is_secondary, send_role, same_role}
use architect_networking.Message.{FailoverHeartbeatRequest}
use architect_networking.Node.Heartbeat.{heartbeat}
use architect_networking.Node.Roles.{Env, cleanup, become, assign_role}
use architect_networking.Node.Roles.Laws.{cleanup_lem, become_lem}
use architect_networking.System.{
  Phase, idle, cleaning, becoming, assigning, Monitor, sending, System, Step, elect_check,
  elect_decide, receive_role, clean, take_role, note_role, serve_heartbeat, monitor_select,
  monitor_stop, monitor_tick, monitor_send, started, Reach, here, next,
}
use architect_networking.System.Invariant.Fields.{heartbeat-SameWiring}

-- No transition, or one that has failed and is about to be noted.
abbrev pub IsSpent : Phase → Type 0
IsSpent idle = Unit
IsSpent (cleaning r) = ⊥
IsSpent (becoming r) = ⊥
IsSpent (assigning r none) = ⊥
IsSpent (assigning r (some e)) = Unit

-- A secondary that nothing is left to promote: no monitor, no queued role, no decision of the
-- election under way, and no transition but a failed one.
pub record IsStuck (s : System) : Type 0 where
  pub role : s.node.current_role ≡ secondary
  pub queue : s.node.role_ch ≡ none
  pub phase : IsSpent s.phase
  pub deciding : s.deciding ≡ false
  pub monitors : s.monitors ≡ []

no_monitor : (ms before after : List Monitor) (m : Monitor) → ms ≡ [] → ms ≢ before ++ (m ∷ after)
no_monitor ms [] after m e h = cc
no_monitor ms (x ∷ before) after m e h = cc

heartbeat-queue :
    (now : ℕ) (req : FailoverHeartbeatRequest) (n : Node)
    → (heartbeat now req n).1.role_ch ≡ n.role_ch
unfolding heartbeat
heartbeat-queue now req n = ground arith

Step-IsStuck : {s t : System} → Step s t → IsStuck s → IsStuck t
unfolding is_secondary assign_role
Step-IsStuck (elect_check d r) h = absurd (ground arith)
Step-IsStuck (elect_decide owns d) h = absurd (ground arith)
Step-IsStuck (receive_role r p q) h = absurd (ground arith)
Step-IsStuck (clean r env p) h = absurd (subst IsSpent p h.phase)
Step-IsStuck (take_role r env p) h = absurd (subst IsSpent p h.phase)
Step-IsStuck (note_role r none p) h = absurd (subst IsSpent p h.phase)
Step-IsStuck {s} (note_role r (some e) p) h = record {
  role = h.role;
  queue = h.queue;
  phase = tt;
  deciding = h.deciding;
  monitors = h.monitors;
}
Step-IsStuck {s} (serve_heartbeat now req k) h = record {
  role = (heartbeat-SameWiring now req s.node).role ∙ h.role;
  queue = heartbeat-queue now req s.node ∙ h.queue;
  phase = h.phase;
  deciding = h.deciding;
  monitors = h.monitors;
}
Step-IsStuck {s} (monitor_select before after m) h =
    absurd (no_monitor s.monitors before after _ h.monitors m)
Step-IsStuck {s} (monitor_stop before after ch m c) h =
    absurd (no_monitor s.monitors before after _ h.monitors m)
Step-IsStuck {s} (monitor_tick before after ch now m) h =
    absurd (no_monitor s.monitors before after _ h.monitors m)
Step-IsStuck {s} (monitor_send before after m) h =
    absurd (no_monitor s.monitors before after _ h.monitors m)

-- A secondary stays one in every later state, without a monitor or a queued role, if it has no
-- monitor and no queued role, its election loop is not between its test and its proposal, and its
-- role loop is idle or about to note that a transition failed.
pub Reach-IsStuck : {s t : System} → IsStuck s → Reach s t → IsStuck t
Reach-IsStuck h here = h
Reach-IsStuck h (next r st) = Step-IsStuck st (Reach-IsStuck h r)

-- Without a server and a transition, nothing can happen at all.
no_step : {s t : System} → Step s t → IsStuck s → s.phase ≡ idle → s.node.frpc_server ≡ false → ⊥
unfolding is_secondary
no_step (elect_check d r) h i f = ground arith
no_step (elect_decide owns d) h i f = ground arith
no_step (receive_role r p q) h i f = ground arith
no_step (clean r env p) h i f = ground arith
no_step (take_role r env p) h i f = ground arith
no_step (note_role r e p) h i f = ground arith
no_step (serve_heartbeat now req k) h i f = ground arith
no_step {s} (monitor_select before after m) h i f =
    no_monitor s.monitors before after _ h.monitors m
no_step {s} (monitor_stop before after ch m c) h i f =
    no_monitor s.monitors before after _ h.monitors m
no_step {s} (monitor_tick before after ch now m) h i f =
    no_monitor s.monitors before after _ h.monitors m
no_step {s} (monitor_send before after m) h i f = no_monitor s.monitors before after _ h.monitors m

-- A secondary between transitions, with no queued role and no decision of the election under way,
-- whose only monitor is about to ask for the promotion.
pub record IsGivingUp (s : System) : Type 0 where
  pub role : s.node.current_role ≡ secondary
  pub queue : s.node.role_ch ≡ none
  pub phase : s.phase ≡ idle
  pub deciding : s.deciding ≡ false
  pub monitors : s.monitors ≡ sending ∷ []

module _ (s : System) (env : Env) where
  -- The states on the way.
  asked : System
  asked = record s { node = send_role primary s.node; monitors = [] }

  received : System
  received = record asked { node = record asked.node { role_ch = none }; phase = cleaning primary }

  cleaned : System
  cleaned = record received { node = (cleanup env received.node).1; phase = becoming primary }

  switched : System
  switched = record cleaned {
    node = (become primary env cleaned.node).1;
    phase = assigning primary (become primary env cleaned.node).0;
    monitors = started primary (become primary env cleaned.node).0 cleaned.monitors;
  }

  unfoldable pub promoted : System
  unfolding asked received cleaned switched
  promoted = record switched {
    node = assign_role primary (become primary env cleaned.node).0 switched.node;
    phase = idle;
  }

  Reach-promoted : IsGivingUp s → Reach s promoted
  unfolding promoted send_role
  Reach-promoted g =
      next
        (next
          (next
            (next (next here (monitor_send [] [] g.monitors))
              (receive_role primary g.phase (ground arith)))
            (clean primary env refl))
          (take_role primary env refl))
        (note_role primary _ refl)

  promoted-node :
      IsGivingUp s
      → let n = s.node in
        let (e, m) =
          become primary env
            (record n { role_ch = none; frpc_server = false; frpc_client = false }) in
        (promoted.node ≡ assign_role primary e m) × (promoted.monitors ≡ [])
  unfolding promoted send_role started
  promoted-node g = (rw cleanup_lem (ground arith), refl)

  bare : Node
  bare = record s.node { role_ch = none; frpc_server = false; frpc_client = false }

  promoted_idle : promoted.phase ≡ idle
  unfolding promoted
  promoted_idle = refl

  promoted_deciding : promoted.deciding ≡ s.deciding
  unfolding promoted
  promoted_deciding = refl

  -- From a secondary with an idle role loop, no queued role, no decision of the election under way
  -- and one monitor, which is about to ask for the promotion: if the server can be made, steps lead
  -- to a primary with a server and no client, though the failover actions may have failed.
  pub promotion_succeeds :
      IsGivingUp s
      → env.new_server ≡ none
      → Reach s promoted
        × (promoted.node.current_role ≡ primary)
        × (promoted.node.frpc_server ≡ true)
        × (promoted.node.frpc_client ≡ false)
  unfolding assign_role bare same_role
  promotion_succeeds g e = (
    Reach-promoted g,
    ground (arith, promoted-node g, become_lem primary env bare refl refl),
    ground (arith, promoted-node g, become_lem primary env bare refl refl),
    ground (arith, promoted-node g, become_lem primary env bare refl refl),
  )

  promotion_fails-IsStuck :
      (why : String) → IsGivingUp s → env.new_server ≡ some why → IsStuck promoted
  unfolding assign_role bare
  promotion_fails-IsStuck why g e = record {
    role = ground (arith, promoted-node g, become_lem primary env bare refl refl);
    queue = ground (arith, promoted-node g, become_lem primary env bare refl refl);
    phase = subst IsSpent (sym promoted_idle) tt;
    deciding = promoted_deciding ∙ g.deciding;
    monitors = (promoted-node g).1;
  }

  -- From the same states: if the server cannot be made, steps lead to a secondary with no server and
  -- no client, and no step of the election loop, the role loop, a monitor or the server leads on.
  pub promotion_fails :
      (why : String)
      → IsGivingUp s
      → env.new_server ≡ some why
      → Reach s promoted
        × (promoted.node.current_role ≡ secondary)
        × (promoted.node.frpc_server ≡ false)
        × (promoted.node.frpc_client ≡ false)
        × ((t : System) → ¬ Step promoted t)
  unfolding assign_role bare
  promotion_fails why g e =
      let server : promoted.node.frpc_server ≡ false =
        ground (arith, promoted-node g, become_lem primary env bare refl refl) in
      let stuck = promotion_fails-IsStuck why g e in
      (
        Reach-promoted g,
        stuck.role,
        server,
        ground (arith, promoted-node g, become_lem primary env bare refl refl),
        λ t st. no_step st stuck promoted_idle server,
      )
