-- ===== src/Tests/Wire.antt =====
-- A wire whose symbols are the values that were written, and a synchronisation over it.
use architect_networking.Base.{
  ℕ, ◌≡◌, refl, String, Bool, true, Option, none, some, List, [], ◌∷◌, ℤ, ap, arith, Except, ok,
  err, done, panic,
}
use architect_networking.Message.{FailoverSyncStateRequest, FailoverSyncStateResponse}
use architect_networking.Message.Codec.Buffer.{Kind, string_kind, any_kind, Polyglot, IsLawful}
use architect_networking.Message.Codec.Whole.{new_response, encode_response, decode_response}
use architect_networking.Message.Codec.Laws.Whole.{revive_field, decode_response-encode_response}
use architect_networking.Message.Codec.Rpc.{serve_sync_state, call_sync_state}
use architect_networking.Sync.{delivered, state_to_message, sync_state, sync_from_primary}
use architect_networking.Sync.Laws.{normalise}
use architect_networking.Sync.Wire.{
  Carries, SizesFit, wire_sync_transfers, state_to_message-PlainState,
}
use architect_networking.Message.Codec.Service.{
  encode_beat_request, encode_check_request, serve_beat, read_beat,
}
use architect_networking.Node.{is_secondary}
use architect_networking.Node.Heartbeat.{heartbeat, beat, health_check}
use architect_networking.Node.Heartbeat.Check.{check_request, healthy, serve_check-health_check}
use architect_networking.Message.Codec.Check.{serve_check, read_check}
use architect_networking.Node.Heartbeat.Wire.{told, serve_beat-heartbeat}
use architect_networking.Tests.Data.{heartbeat_request, watching_node, state, conduit}
use architect_networking.Tests.Sync.{set, offers, code, state-FitsApi}

data Symbol : Type 0 where
  nil_symbol : Symbol
  error_symbol : String → Symbol
  uint8_symbol : ℕ → Symbol
  uint32_symbol : ℕ → Symbol
  int64_symbol : ℤ → Symbol
  bool_symbol : Bool → Symbol
  string_symbol : String → Symbol
  slice_symbol : ℕ → Kind → Symbol

read_nil : List Symbol → Option (List Symbol)
read_nil (nil_symbol ∷ r) = some r
read_nil _ = none

read_error : List Symbol → Option (String × List Symbol)
read_error (error_symbol e ∷ r) = some (e, r)
read_error _ = none

read_uint8 : List Symbol → Option (ℕ × List Symbol)
read_uint8 (uint8_symbol n ∷ r) = some (n, r)
read_uint8 _ = none

read_uint32 : List Symbol → Option (ℕ × List Symbol)
read_uint32 (uint32_symbol n ∷ r) = some (n, r)
read_uint32 _ = none

read_int64 : List Symbol → Option (ℤ × List Symbol)
read_int64 (int64_symbol n ∷ r) = some (n, r)
read_int64 _ = none

read_bool : List Symbol → Option (Bool × List Symbol)
read_bool (bool_symbol v ∷ r) = some (v, r)
read_bool _ = none

read_string : List Symbol → Option (String × List Symbol)
read_string (string_symbol s ∷ r) = some (s, r)
read_string _ = none

read_slice : Kind → List Symbol → Option (ℕ × List Symbol)
read_slice string_kind (slice_symbol n string_kind ∷ r) = some (n, r)
read_slice any_kind (slice_symbol n any_kind ∷ r) = some (n, r)
read_slice _ _ = none

abbrev symbols : Polyglot
symbols = record {
  Byte = Symbol;
  enc_nil = nil_symbol ∷ [];
  enc_error = λ e. error_symbol e ∷ [];
  enc_uint8 = λ n. uint8_symbol n ∷ [];
  enc_uint32 = λ n. uint32_symbol n ∷ [];
  enc_int64 = λ n. int64_symbol n ∷ [];
  enc_bool = λ v. bool_symbol v ∷ [];
  enc_string = λ s. string_symbol s ∷ [];
  enc_slice = λ n k. slice_symbol n k ∷ [];
  dec_nil = read_nil;
  dec_error = read_error;
  dec_uint8 = read_uint8;
  dec_uint32 = read_uint32;
  dec_int64 = read_int64;
  dec_bool = read_bool;
  dec_string = read_string;
  dec_slice = read_slice;
}

read_slice_lem :
    (n : ℕ) (k : Kind) (r : List Symbol) → read_slice k (slice_symbol n k ∷ r) ≡ some (n, r)
unfolding read_slice
read_slice_lem n string_kind r = refl
read_slice_lem n any_kind r = refl

symbols-IsLawful : IsLawful symbols
unfolding read_nil read_error read_uint8 read_uint32 read_int64 read_bool read_string
symbols-IsLawful = record {
  nil_of_nil = λ r. refl;
  nil_of_error = λ e r. refl;
  nil_of_uint8 = λ n r. refl;
  error_of_error = λ e r. refl;
  error_of_uint8 = λ n r. refl;
  uint8_of_uint8 = λ n r h. refl;
  uint32_of_uint32 = λ n r h. refl;
  int64_of_int64 = λ n r. refl;
  bool_of_bool = λ v r. refl;
  string_of_string = λ s r. refl;
  slice_of_slice = λ n k r h. read_slice_lem n k r;
}

abbrev answer_of : Option (List Symbol) → Except String (List Symbol)
answer_of none = err "no answer"
answer_of (some b) = ok b

abbrev serving : FailoverSyncStateRequest → Except String FailoverSyncStateResponse
serving req = ok (sync_state conduit (some state) req)

abbrev carry : List Symbol → Except String (List Symbol)
carry b = answer_of (serve_sync_state symbols serving b)

carries : Carries symbols carry serving
carries b a e = ap answer_of e

state-SizesFit : SizesFit state
state-SizesFit = record {
  ips = omega arith;
  tcp_inbound = omega arith;
  tcp_outbound = omega arith;
  udp_inbound = omega arith;
  udp_outbound = omega arith;
  nat_ports = omega arith;
}

wire_sync_transfers_example :
    sync_from_primary conduit (some (λ req. delivered (call_sync_state symbols carry req))) 9 none
    ≡ (done tt, some (normalise state))
wire_sync_transfers_example =
    wire_sync_transfers symbols symbols-IsLawful carry conduit conduit (some state) none 9 state set
      (some (normalise state)) offers state-FitsApi state-SizesFit carries refl code

abbrev response : FailoverSyncStateResponse
response = record {
  error = none;
  flags = 3;
  request_id = "sync_9";
  success = true;
  error_message = "";
  state = some (state_to_message state);
}

decode_response-encode_response_example :
    decode_response symbols new_response (encode_response symbols (some response) [])
    ≡ (record response { state = revive_field response.state }, some [])
decode_response-encode_response_example =
    decode_response-encode_response symbols symbols-IsLawful response [] refl (omega arith)
      (state_to_message-PlainState state state-FitsApi state-SizesFit)

serve_beat-heartbeat_example :
    let (answer, n') =
      serve_beat symbols
        (heartbeat 7)
        (encode_beat_request symbols (some heartbeat_request) [])
        watching_node in
    (n' ≡ beat 7 watching_node)
    × ((b : List Symbol) × (answer ≡ some b)
        × (read_beat symbols b ≡ told 7 heartbeat_request watching_node))
unfolding is_secondary
serve_beat-heartbeat_example =
    serve_beat-heartbeat symbols symbols-IsLawful 7 heartbeat_request watching_node refl
      (omega arith)

serve_check-health_check_example :
    let answer =
      serve_check symbols
        (λ req. health_check req watching_node)
        (encode_check_request symbols (some (check_request 0 "c")) []) in
    (watching_node.instance_id ≡ none → answer ≡ panic)
    × ((id : String)
        → watching_node.instance_id ≡ some id
        → (b : List Symbol) × (answer ≡ done (some b))
          × (read_check symbols b ≡ ok (healthy "c" watching_node id)))
serve_check-health_check_example =
    serve_check-health_check symbols symbols-IsLawful 0 "c" watching_node (omega arith)
