-- ===== src/Node/Heartbeat/Laws.antt =====
-- When a monitor gives its primary up, and when it does not.
use architect_networking.Base.{
  ℕ, suc, ◌+◌, ◌≤◌, ◌<◌, ◌≡◌, refl, ap, sym, ◌∙◌, leb→le, true, false, List, [], ◌∷◌, arith, pos,
  leb, map, length, All, Bool-cases, inl, inr,
}
use Prim.Native.Nat.{max}
use architect_networking.Message.{FailoverHeartbeatRequest}
use architect_networking.Node.{Node, primary, secondary, NodeRole, send_role}
use architect_networking.Node.Heartbeat.{
  heartbeat, beat, is_late, monitor_tick, monitor_loop, MonitorEvent, tick, received,
}

-- A validated configuration has a positive threshold.
abbrev pub Threshold : Node → ℕ → Type 0
Threshold n t = n.config.heartbeat_miss_threshold ≡ pos (suc t)

tick_on_time : (now : ℕ) (n : Node) → is_late now n ≡ false → monitor_tick now n ≡ (false, n)
unfolding monitor_tick
tick_on_time now n h = ground arith

tick_missed :
    (now t : ℕ) (n : Node)
    → Threshold n t
    → is_late now n ≡ true
    → n.missed_heartbeats < t
    → monitor_tick now n ≡ (false, record n { missed_heartbeats = suc n.missed_heartbeats })
unfolding monitor_tick
tick_missed now t n h late lt = ground arith

tick_fires :
    (now t : ℕ) (n : Node)
    → Threshold n t
    → is_late now n ≡ true
    → t ≤ n.missed_heartbeats
    → monitor_tick now n ≡ (true, send_role primary (record n { missed_heartbeats = 0 }))
unfolding monitor_tick
tick_fires now t n h late le = ground arith

-- Neither a tick nor a heartbeat touches the configuration, and the count stays under the
-- threshold.
send_role-kept :
    (r : NodeRole) (n : Node)
    → ((send_role r n).config ≡ n.config)
      × ((send_role r n).missed_heartbeats ≡ n.missed_heartbeats)
unfolding send_role
send_role-kept r n = ground arith

monitor_tick-bound :
    (now t : ℕ) (n : Node)
    → Threshold n t
    → n.missed_heartbeats ≤ t
    → Threshold (monitor_tick now n).1 t × ((monitor_tick now n).1.missed_heartbeats ≤ t)
unfolding monitor_tick
monitor_tick-bound now t n h le =
    ground (arith, send_role-kept primary (record n { missed_heartbeats = 0 }))

heartbeat-bound :
    (now t : ℕ) (req : FailoverHeartbeatRequest) (n : Node)
    → Threshold n t
    → n.missed_heartbeats ≤ t
    → Threshold (heartbeat now req n).1 t × ((heartbeat now req n).1.missed_heartbeats ≤ t)
unfolding heartbeat
heartbeat-bound now t req n h le = ground arith

-- The count of missed heartbeats is below the threshold after any events, so it cannot overflow.
pub monitor_loop_bound :
    (es : List MonitorEvent) (t : ℕ) (n : Node)
    → Threshold n t
    → n.missed_heartbeats ≤ t
    → (monitor_loop es n).1.missed_heartbeats ≤ t
unfolding monitor_loop
monitor_loop_bound [] t n h le = le
monitor_loop_bound (received req now ∷ es) t n h le =
    let (h', le') = heartbeat-bound now t req n h le in
    monitor_loop_bound es t (heartbeat now req n).1 h' le'
monitor_loop_bound (tick now ∷ es) t n h le =
    let (h', le') = monitor_tick-bound now t n h le in
    ground (arith, le', monitor_loop_bound es t (monitor_tick now n).1 h' le')

-- Ticks at times that are all late for the heartbeat on record.
abbrev pub Silence : Node → List ℕ → Type 0
Silence n times = All (λ now. is_late now n ≡ true) times

is_late-missed :
    (now m : ℕ) (n : Node) → is_late now (record n { missed_heartbeats = m }) ≡ is_late now n
unfolding is_late
is_late-missed now m n = refl

Silence-missed :
    (m : ℕ) (n : Node) (times : List ℕ)
    → Silence n times
    → Silence (record n { missed_heartbeats = m }) times
Silence-missed m n [] s = tt
Silence-missed m n (now ∷ times) s = (is_late-missed now m n ∙ s.0, Silence-missed m n times s.1)

-- While no heartbeat comes and every tick is late, the monitor gives up exactly when the ticks,
-- with those counted before, reach the threshold.
pub monitor_loop-Silence :
    (times : List ℕ) (t : ℕ) (n : Node)
    → Threshold n t
    → n.missed_heartbeats ≤ t
    → Silence n times
    → (monitor_loop (map tick times) n).0 ≡ leb (suc t) (n.missed_heartbeats + length times)
unfolding monitor_loop
monitor_loop-Silence [] t n h le s = ground arith
monitor_loop-Silence (now ∷ times) t n h le s = elim (Bool-cases (leb t n.missed_heartbeats)) [
  | inl e ↦ ground (arith, tick_fires now t n h s.0)
  | inr e ↦ ground (
    arith,
    tick_missed now t n h s.0,
    monitor_loop-Silence times t (record n { missed_heartbeats = suc n.missed_heartbeats }) h
        (ground arith) (Silence-missed (suc n.missed_heartbeats) n times s.1),
  )
]

-- The longest row of ticks with no heartbeat between them; `run` have gone before.
pub longest_quiet : ℕ → List MonitorEvent → ℕ
longest_quiet run [] = run
longest_quiet run (tick _ ∷ es) = longest_quiet (suc run) es
longest_quiet run (received _ _ ∷ es) = max run (longest_quiet 0 es)

longest_quiet-le : (run : ℕ) (es : List MonitorEvent) → run ≤ longest_quiet run es
unfolding longest_quiet
longest_quiet-le run [] = omega arith
longest_quiet-le run (tick _ ∷ es) = omega (arith, longest_quiet-le (suc run) es)
longest_quiet-le run (received _ _ ∷ es) = omega arith

heartbeat_secondary :
    (now : ℕ) (req : FailoverHeartbeatRequest) (n : Node)
    → n.current_role ≡ secondary
    → (heartbeat now req n).1 ≡ beat now n
unfolding heartbeat
heartbeat_secondary now req n r = ground arith

-- A secondary's monitor gives its primary up only after as many ticks as the threshold in a row
-- with no heartbeat between them; `run` bounds the misses counted before.
pub monitor_loop_safe :
    (es : List MonitorEvent) (run t : ℕ) (n : Node)
    → Threshold n t
    → n.current_role ≡ secondary
    → n.missed_heartbeats ≤ run
    → (monitor_loop es n).0 ≡ true
    → suc t ≤ longest_quiet run es
unfolding monitor_loop longest_quiet
monitor_loop_safe [] run t n h r le fired = absurd (cc)
monitor_loop_safe (received req now ∷ es) run t n h r le fired =
    let e = heartbeat_secondary now req n r in
    omega (
      arith,
      monitor_loop_safe es 0 t (beat now n) h r (unfold beat in omega arith)
          (ap (λ m. (monitor_loop es m).0) (sym e) ∙ fired),
    )
monitor_loop_safe (tick now ∷ es) run t n h r le fired = elim (Bool-cases (is_late now n)) [
  | inr on_time ↦
      monitor_loop_safe es (suc run) t n h r (omega arith)
        (ground (arith, tick_on_time now n on_time))
  | inl late ↦ elim (Bool-cases (leb t n.missed_heartbeats)) [
    | inl e ↦ omega (arith, longest_quiet-le (suc run) es, leb→le t n.missed_heartbeats e)
    | inr e ↦
        monitor_loop_safe es (suc run) t (record n { missed_heartbeats = suc n.missed_heartbeats })
          h r (omega arith) (ground (arith, tick_missed now t n h late))
  ]
]
