-- ===== src/Node/Heartbeat/Wire.antt =====
-- A heartbeat over the wire: its request and its answer are encoded, served and read.
use architect_networking.Base.{
  ℕ, ◌<◌, ◌≡◌, ap, String, none, some, List, [], arith, true, false, Except, ok, err, pos,
  if◌then◌else◌, Bool-cases, inl, inr,
}
use architect_networking.Message.{FailoverHeartbeatRequest, FailoverHeartbeatResponse}
use architect_networking.Message.Codec.Buffer.{Polyglot, IsLawful, u8_mod}
use architect_networking.Message.Codec.Service.{
  encode_beat_request, encode_beat_result, serve_beat, read_beat,
}
use architect_networking.Message.Codec.Laws.Service.{
  decode_beat_request-encode_beat_request, read_beat-error, read_beat-ok,
}
use architect_networking.Node.{Node, is_secondary}
use architect_networking.Node.Heartbeat.{heartbeat, beat, heartbeat_response}

-- What the sender of a heartbeat is told.
abbrev pub told : ℕ → FailoverHeartbeatRequest → Node → Except String FailoverHeartbeatResponse
told now req n =
    if is_secondary n.current_role
    then ok (heartbeat_response req true now)
    else err "node is not secondary"

served :
    (P : Polyglot) (L : IsLawful P) (now : ℕ) (req : FailoverHeartbeatRequest) (n : Node)
    → req.error ≡ none
    → req.flags < u8_mod
    → serve_beat P (heartbeat now) (encode_beat_request P (some req) []) n
      ≡ (some (encode_beat_result P (heartbeat now req n).0), (heartbeat now req n).1)
unfolding serve_beat
served P L now req n e f = ground (arith, decode_beat_request-encode_beat_request P L req [] e f)

read_told :
    (P : Polyglot) (L : IsLawful P) (now : ℕ) (req : FailoverHeartbeatRequest) (n : Node)
    → read_beat P (encode_beat_result P (heartbeat now req n).0) ≡ told now req n
unfolding heartbeat heartbeat_response
read_told P L now req n = elim (Bool-cases (is_secondary n.current_role)) [
  | inl e ↦ ground (arith, read_beat-ok P L 0 req.request_id true (pos now))
  | inr e ↦
      ground (arith, read_beat-error P L (heartbeat_response req false now) "node is not secondary")
]

-- A heartbeat that is sent over the wire renews the record of a secondary and is answered with
-- success; any other node keeps its record, and the sender reads its error.
pub serve_beat-heartbeat :
    (P : Polyglot) (L : IsLawful P) (now : ℕ) (req : FailoverHeartbeatRequest) (n : Node)
    → req.error ≡ none
    → req.flags < u8_mod
    → let (answer, n') = serve_beat P (heartbeat now) (encode_beat_request P (some req) []) n in
      (n' ≡ (if is_secondary n.current_role then beat now n else n))
      × ((b : List P.Byte) × (answer ≡ some b) × (read_beat P b ≡ told now req n))
unfolding heartbeat
serve_beat-heartbeat P L now req n e f =
    let s = served P L now req n e f in
    (
      ground (arith, s),
      (encode_beat_result P (heartbeat now req n).0, ap (λ z. z.0) s, read_told P L now req n),
    )
