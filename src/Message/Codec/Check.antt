-- ===== src/Message/Codec/Check.antt =====
-- pkg/failover/failover.frpc.go: the handler of operation 11 in `NewServer`, and what the client's
-- `HealthCheck` reads through its handler in `NewClient`.
use architect_networking.Base.{
  String, Option, none, some, List, [], ◌++◌, Except, ok, err, Outcome, done, fail, panic,
}
use architect_networking.Message.{FailoverHealthCheckRequest, FailoverHealthCheckResponse}
use architect_networking.Message.Codec.Buffer.{Polyglot}
use architect_networking.Message.Codec.Service.{
  new_check_request, new_check_response, encode_check_response, decode_check_request,
  decode_check_response,
}

module _ (P : Polyglot) where
  -- A panic of the service goes through the handler.
  unfoldable pub encode_check_result :
      Outcome String FailoverHealthCheckResponse → Outcome String (Option (List P.Byte))
  encode_check_result (done res) = done (some (encode_check_response P (some res) []))
  encode_check_result (fail e) = done (some (P.enc_error e ++ []))
  encode_check_result panic = panic

  -- A request that cannot be decoded is not answered.
  unfoldable pub serve_check :
      (FailoverHealthCheckRequest → Outcome String FailoverHealthCheckResponse)
      → List P.Byte
      → Outcome String (Option (List P.Byte))
  serve_check service b =
      let (req, left) = decode_check_request P new_check_request b in
      elim left [ none ↦ done none | some _ ↦ encode_check_result (service req) ]

  unfoldable pub read_check : List P.Byte → Except String FailoverHealthCheckResponse
  read_check b =
      let (res, _) = decode_check_response P new_check_response b in
      elim res.error [ some e ↦ err e | none ↦ ok res ]
