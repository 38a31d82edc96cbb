-- ===== src/Tests/Sync.antt =====
-- The synchronisation between two conduits.
use architect_networking.Base.{
  List, All, [], ◌∷◌, ◌++◌, ap, inr, ◌≡◌, refl, none, some, arith, Except, String, ok, done,
}
use architect_networking.Message.{
  FitsApi, GetStateResponse, SetStateResponse, get_status_code, set_status_code,
}
use architect_networking.Sync.{
  state_to_message, state_from_message, SyncCall, sync_state, sync_from_primary, status_ok,
}
use architect_networking.Sync.Laws.{
  Offers, normalise, normalise_bitmap, state_from_message-state_to_message, direct_sync,
  sync_from_primary-WritesFitting, WritesFitting,
}
use architect_networking.Sync.Loop.{Tick, SyncEvent, ticked, running, panicked, secondary_sync_loop}
use architect_networking.Sync.Loop.Laws.{
  IsHonest, IsFine, secondary_sync_loop-running, secondary_sync_loop-panicked,
  secondary_sync_loop-follows,
}
use architect_networking.Node.{secondary, is_secondary}
use architect_networking.Sync.Mirror.{sync_nat_state}
use architect_networking.Sync.Mirror.Laws.{direct_sync-sync_nat_state}
use architect_networking.Tests.Data.{state, conduit}

pub state-FitsApi : FitsApi state
state-FitsApi = record {
  tcp_inbound = ground arith;
  tcp_outbound = tt;
  udp_inbound = tt;
  udp_outbound = ground arith;
  nat_ports = ground arith;
}

abbrev pub got : GetStateResponse
got = record { http_response = some 200; json200 = some state }

abbrev pub set : SetStateResponse
set = record { http_response = some 200 }

abbrev accepted : Except String SetStateResponse
accepted = ok set

abbrev rpc : SyncCall
rpc req = done (some (sync_state conduit (some state) req))

pub offers : Offers (conduit.get_state (some state)) state
unfolding get_status_code
offers = (got, refl, refl, refl)

pub same : normalise state ≡ state
unfolding normalise normalise_bitmap
same = refl

pub code : set_status_code set ≡ status_ok
unfolding set_status_code
code = refl

state_from_message-state_to_message_example :
    state_from_message (state_to_message state) ≡ some (normalise state)
state_from_message-state_to_message_example =
    state_from_message-state_to_message state state-FitsApi

sync_from_primary-WritesFitting_example :
    WritesFitting conduit none (sync_from_primary conduit (some rpc) 9 none)
sync_from_primary-WritesFitting_example = sync_from_primary-WritesFitting conduit (some rpc) 9 none

direct_sync-sync_nat_state_example :
    (direct_sync conduit conduit (some state) none 9 ≡ (done tt, some state))
    × (sync_nat_state conduit conduit (some state) none ≡ (ok tt, some state))
direct_sync-sync_nat_state_example =
    direct_sync-sync_nat_state conduit conduit (some state) none 9 state set (some state) offers
      state-FitsApi same refl code

abbrev honest_tick : Tick
honest_tick = record { role = secondary; rpc = some rpc; now = 7 }

abbrev closed_tick : Tick
closed_tick = record { role = secondary; rpc = some (λ _. done none); now = 11 }

abbrev failing_tick : Tick
failing_tick = record { role = secondary; rpc = none; now = 3 }

stored_answer-IsHonest : IsHonest honest_tick
unfolding sync_state
stored_answer-IsHonest f e req = inr (ok got, (let q : f ≡ rpc = cc in ap (λ g. g req) q))

abbrev fine : List (SyncEvent conduit.State)
fine = ticked failing_tick ∷ ticked honest_tick ∷ []

two_ticks-IsFine : All IsFine fine
unfolding is_secondary
two_ticks-IsFine = ((refl, λ f e req. absurd cc), ((refl, stored_answer-IsHonest), tt))

secondary_sync_loop-running_example : (secondary_sync_loop conduit fine none).0 ≡ running
secondary_sync_loop-running_example = secondary_sync_loop-running conduit fine none two_ticks-IsFine

secondary_sync_loop-panicked_example :
    secondary_sync_loop conduit (fine ++ (ticked closed_tick ∷ fine)) none
    ≡ (panicked, (secondary_sync_loop conduit fine none).1)
unfolding is_secondary
secondary_sync_loop-panicked_example =
    secondary_sync_loop-panicked conduit fine fine none closed_tick two_ticks-IsFine refl
      ((λ _. done none), refl, refl)

secondary_sync_loop-follows_example :
    secondary_sync_loop conduit ((ticked failing_tick ∷ []) ++ (ticked honest_tick ∷ [])) none
    ≡ (running, some (normalise state))
unfolding is_secondary secondary_sync_loop sync_from_primary
secondary_sync_loop-follows_example =
    secondary_sync_loop-follows conduit conduit (some state) (ticked failing_tick ∷ []) none none
      (some (normalise state)) honest_tick state set refl refl refl offers state-FitsApi refl code
