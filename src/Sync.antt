-- ===== src/Sync.antt =====
-- The synchronisation of NAT state between two nodes, pkg/failover/leader.go: `SyncState` on the
-- primary, `syncFromPrimary` and `applySyncedState` on the secondary, and `syncNATState` of
-- pkg/failover/failover.go, which copies between two local sockets.
-- The conduit behind the local socket is the parameter `Conduit`.
pub mod Laws
pub mod Mirror
pub mod Wire
pub mod Loop
use architect_networking.Base.{
  ℕ, String, ◌<>◌, Bool, true, false, Option, none, some, List, [], ◌∷◌, Except, ok, err, Outcome,
  done, fail, panic, ◌>>=◌, if◌then◌else◌, ltb, ◌==◌, str_eq, show_ℕ, map,
}
use architect_networking.Message.{
  NatKey, NatValue, NatKeyValuePair, NatBitmapPair, NatState, GetStateResponse, SetStateResponse,
  get_status_code, set_status_code, FailoverNatKey, FailoverNatValue, FailoverNatKeyValuePair,
  FailoverNatBitmapPair, FailoverNatState, FailoverSyncStateRequest, FailoverSyncStateResponse,
}

abbrev pub status_ok : ℕ
status_ok = 200

-- The HTTP API on the local socket, with the state behind it.
pub record Conduit : Type 1 where
  pub State : Type 0
  pub get_state : State → Except String GetStateResponse
  pub set_state : NatState → State → Except String SetStateResponse × State

-- A uint32 port becomes a uint16 by clamping.
unfoldable pub port_uint32_to_uint16 : ℕ → ℕ
port_uint32_to_uint16 port = if ltb 65535 port then 65535 else port

-- From the API's state to the message. `uint32(x)` of a uint16 keeps the value.
unfoldable pub pair_to_message : NatKeyValuePair → FailoverNatKeyValuePair
pair_to_message kv = record {
  error = none;
  flags = 0;
  key = some (record {
    error = none;
    flags = 0;
    destination_ip = kv.key.destination_ip;
    destination_port = kv.key.destination_port;
    source_ip = kv.key.source_ip;
    source_port = kv.key.source_port;
  });
  value = some (record {
    error = none;
    flags = 0;
    last_seen = kv.value.last_seen;
    translate_ip = kv.value.translate_ip;
    translate_port = kv.value.translate_port;
  });
}

text_or_empty : Option String → String
text_or_empty none = ""
text_or_empty (some s) = s

unfoldable pub bitmap_to_message : NatBitmapPair → FailoverNatBitmapPair
unfolding text_or_empty
bitmap_to_message bp = record {
  error = none;
  flags = 0;
  bitmap = bp.bitmap;
  destination_ip = text_or_empty bp.destination_ip;
  last_chunk = bp.last_chunk;
  natip = bp.natip;
}

unfoldable pub state_to_message : NatState → FailoverNatState
state_to_message s = record {
  error = none;
  flags = 0;
  ips = s.ips;
  tcp_inbound = map (λ kv. some (pair_to_message kv)) s.tcp_inbound;
  tcp_outbound = map (λ kv. some (pair_to_message kv)) s.tcp_outbound;
  udp_inbound = map (λ kv. some (pair_to_message kv)) s.udp_inbound;
  udp_outbound = map (λ kv. some (pair_to_message kv)) s.udp_outbound;
  nat_ports = map (λ bp. some (bitmap_to_message bp)) s.nat_ports;
}

-- From the message to the API's state; `none` is a nil dereference.
key_from_message : FailoverNatKey → NatKey
key_from_message k = record {
  destination_ip = k.destination_ip;
  destination_port = port_uint32_to_uint16 k.destination_port;
  source_ip = k.source_ip;
  source_port = port_uint32_to_uint16 k.source_port;
}

value_from_message : FailoverNatValue → NatValue
value_from_message v = record {
  last_seen = v.last_seen;
  translate_ip = v.translate_ip;
  translate_port = port_uint32_to_uint16 v.translate_port;
}

unfoldable pub pair_from_message : Option FailoverNatKeyValuePair → Option NatKeyValuePair
unfolding key_from_message value_from_message
pair_from_message p = do
  kv ← p
  k ← kv.key
  v ← kv.value
  some (record { key = key_from_message k; value = value_from_message v })

unfoldable pub bitmap_from_message : Option FailoverNatBitmapPair → Option NatBitmapPair
bitmap_from_message p = do
  bp ← p
  some (record {
    bitmap = bp.bitmap;
    destination_ip = if str_eq bp.destination_ip "" then none else some bp.destination_ip;
    last_chunk = port_uint32_to_uint16 bp.last_chunk;
    natip = bp.natip;
  })

-- One of the loops `for i, kv := range …`.
unfoldable pub convert_all : {A B : Type 0} → (A → Option B) → List A → Option (List B)
convert_all f [] = some []
convert_all f (x ∷ xs) = do y ← f x; ys ← convert_all f xs; some (y ∷ ys)

unfoldable pub state_from_message : FailoverNatState → Option NatState
state_from_message m = do
  tcp_inbound ← convert_all pair_from_message m.tcp_inbound
  tcp_outbound ← convert_all pair_from_message m.tcp_outbound
  udp_inbound ← convert_all pair_from_message m.udp_inbound
  udp_outbound ← convert_all pair_from_message m.udp_outbound
  nat_ports ← convert_all bitmap_from_message m.nat_ports
  some (record {
    ips = m.ips;
    nat_ports = nat_ports;
    tcp_inbound = tcp_inbound;
    tcp_outbound = tcp_outbound;
    udp_inbound = udp_inbound;
    udp_outbound = udp_outbound;
  })

pub sync_request : ℕ → FailoverSyncStateRequest
sync_request now = record { error = none; flags = 0; request_id = "sync_" <> show_ℕ now }

refusal : FailoverSyncStateRequest → String → FailoverSyncStateResponse
refusal req message = record {
  error = none;
  flags = 0;
  request_id = req.request_id;
  success = false;
  error_message = message;
  state = none;
}

reply_state : FailoverSyncStateRequest → Option NatState → FailoverSyncStateResponse
unfolding refusal
reply_state req none = refusal req "empty state returned"
reply_state req (some s) = record {
  error = none;
  flags = 0;
  request_id = req.request_id;
  success = true;
  error_message = "";
  state = some (state_to_message s);
}

-- `SyncState`, from the result of `GetStateWithResponse`.
pub answer : Except String GetStateResponse → FailoverSyncStateRequest → FailoverSyncStateResponse
unfolding reply_state refusal get_status_code
answer (err e) req = refusal req ("failed to get state: " <> e)
answer (ok resp) req =
    if get_status_code resp == status_ok
    then reply_state req resp.json200
    else refusal req ("API error: " <> show_ℕ (get_status_code resp))

pub data ApplyError : Type 0 where
  set_failed : String → ApplyError
  bad_status : ℕ → ApplyError

pub data SyncError : Type 0 where
  client_not_initialized : SyncError
  request_failed : String → SyncError
  primary_error : String → SyncError
  empty_state : SyncError
  apply_failed : ApplyError → SyncError

-- What `SyncState` of the fRPC client returns: a response, which is nil when the connection ends
-- without an error, or an error. A client that never connected may panic.
abbrev pub SyncCall : Type 0
SyncCall = FailoverSyncStateRequest → Outcome String (Option FailoverSyncStateResponse)

-- A call that gets an answer or an error.
unfoldable pub delivered :
    Except String FailoverSyncStateResponse → Outcome String (Option FailoverSyncStateResponse)
delivered (ok resp) = done (some resp)
delivered (err e) = fail e

module _ (C : Conduit) where
  -- The handler never returns an error of its own: failures are answers.
  unfoldable pub sync_state : C.State → FailoverSyncStateRequest → FailoverSyncStateResponse
  unfolding answer
  sync_state s req = answer (C.get_state s) req

  unfoldable pub apply_synced_state : NatState → C.State → Outcome ApplyError (Unit {0}) × C.State
  unfolding set_status_code
  apply_synced_state state s =
      let (r, s') = C.set_state state s in
      elim r [
        | err e ↦ (fail (set_failed e), s')
        | ok resp ↦
            if set_status_code resp == status_ok
            then (done tt, s')
            else (fail (bad_status (set_status_code resp)), s')
      ]

  wrap_apply : Outcome ApplyError (Unit {0}) × C.State → Outcome SyncError (Unit {0}) × C.State
  wrap_apply (done u, s) = (done u, s)
  wrap_apply (fail e, s) = (fail (apply_failed e), s)
  wrap_apply (panic, s) = (panic, s)

  -- The part of `syncFromPrimary` that follows the tests of the response.
  receive_message : FailoverNatState → C.State → Outcome SyncError (Unit {0}) × C.State
  unfolding wrap_apply
  receive_message m s = elim (state_from_message m) [
    | none ↦ (panic, s)
    | some state ↦ wrap_apply (apply_synced_state state s)
  ]

  pub receive_state : FailoverSyncStateResponse → C.State → Outcome SyncError (Unit {0}) × C.State
  unfolding receive_message
  receive_state resp s =
      if resp.success
      then elim resp.state [ none ↦ (fail empty_state, s) | some m ↦ receive_message m s ]
      else (fail (primary_error resp.error_message), s)

  -- `rpc` is the call through the fRPC client, if there is one; `now` is the time in nanoseconds. A
  -- nil response without an error is dereferenced.
  unfoldable pub sync_from_primary :
      Option SyncCall → ℕ → C.State → Outcome SyncError (Unit {0}) × C.State
  unfolding receive_state sync_request
  sync_from_primary none now s = (fail client_not_initialized, s)
  sync_from_primary (some rpc) now s = elim (rpc (sync_request now)) [
    | fail e ↦ (fail (request_failed e), s)
    | panic ↦ (panic, s)
    | done none ↦ (panic, s)
    | done (some resp) ↦ receive_state resp s
  ]
