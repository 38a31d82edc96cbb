-- ===== src/Node/Heartbeat/Check.antt =====
-- A health check over the wire, from the request to what the caller reads.
use architect_networking.Base.{
  ℕ, ◌<◌, ◌≡◌, String, true, none, some, List, [], arith, ok, done, panic,
}
use architect_networking.Message.{FailoverHealthCheckRequest, FailoverHealthCheckResponse}
use architect_networking.Message.Codec.Buffer.{Polyglot, IsLawful, u8_mod}
use architect_networking.Message.Codec.Service.{encode_check_request, encode_check_response}
use architect_networking.Message.Codec.Check.{serve_check, encode_check_result, read_check}
use architect_networking.Message.Codec.Laws.Service.{
  decode_check_request-encode_check_request, decode_check_response-encode_check_response,
}
use architect_networking.Node.{Node, role_string}
use architect_networking.Node.Heartbeat.{health_check}

abbrev pub check_request : ℕ → String → FailoverHealthCheckRequest
check_request flags request_id = record { error = none; flags = flags; request_id = request_id }

-- What a node with an instance answers.
abbrev pub healthy : String → Node → String → FailoverHealthCheckResponse
healthy request_id n id = record {
  error = none;
  flags = 0;
  request_id = request_id;
  success = true;
  node_role = role_string n.current_role;
  instance_id = id;
}

-- A health check that is sent over the wire returns the request's id, the node's role and its
-- instance, if the node has an AWS client; if it has none, the handler panics.
pub serve_check-health_check :
    (P : Polyglot) (L : IsLawful P) (flags : ℕ) (request_id : String) (n : Node)
    → flags < u8_mod
    → let answer =
        serve_check P
          (λ req. health_check req n)
          (encode_check_request P (some (check_request flags request_id)) []) in
      (n.instance_id ≡ none → answer ≡ panic)
      × ((id : String)
          → n.instance_id ≡ some id
          → (b : List P.Byte) × (answer ≡ done (some b))
            × (read_check P b ≡ ok (healthy request_id n id)))
unfolding serve_check encode_check_result health_check read_check
serve_check-health_check P L flags request_id n f =
    let s = decode_check_request-encode_check_request P L flags request_id [] f in
    (
      (λ h. ground (arith, s)),
      (λ id h. (
        encode_check_response P (some (healthy request_id n id)) [],
        ground (arith, s),
        ground (
          arith,
          decode_check_response-encode_check_response P L 0 request_id true
              (role_string n.current_role) id [],
        ),
      )),
    )
