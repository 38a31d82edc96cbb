-- ===== src/Message/Codec/Service.antt =====
-- pkg/failover/failover.frpc.go: the messages of a health check and of a heartbeat, the handler of
-- operation 12 in `NewServer`, and the client's `Heartbeat` with its handler in `NewClient`. The
-- connection is a parameter, as in Message/Codec/Rpc.
use architect_networking.Base.{
  String, false, Option, none, some, List, [], ◌++◌, pos, Except, ok, err,
}
use architect_networking.Message.{
  FailoverHealthCheckRequest, FailoverHealthCheckResponse, FailoverHeartbeatRequest,
  FailoverHeartbeatResponse,
}
use architect_networking.Message.Codec.Buffer.{Polyglot, Filled, field, header, write_body}

abbrev pub new_check_request : FailoverHealthCheckRequest
new_check_request = record { error = none; flags = 0; request_id = "" }

abbrev pub new_check_response : FailoverHealthCheckResponse
new_check_response = record {
  error = none;
  flags = 0;
  request_id = "";
  success = false;
  node_role = "";
  instance_id = "";
}

abbrev pub new_beat_request : FailoverHeartbeatRequest
new_beat_request = record {
  error = none;
  flags = 0;
  request_id = "";
  timestamp = pos 0;
  primary_eni = "";
}

abbrev pub new_beat_response : FailoverHeartbeatResponse
new_beat_response = record {
  error = none;
  flags = 0;
  request_id = "";
  success = false;
  timestamp = pos 0;
}

module _ (P : Polyglot) where
  unfoldable pub encode_check_request :
      Option FailoverHealthCheckRequest → List P.Byte → List P.Byte
  encode_check_request none r = P.enc_nil ++ r
  encode_check_request (some x) r = write_body P x.error x.flags (P.enc_string x.request_id ++ r) r

  unfoldable pub decode_check_request :
      FailoverHealthCheckRequest → List P.Byte → Filled P FailoverHealthCheckRequest
  decode_check_request x b =
      header P x (λ e. record x { error = some e }) b
        λ flags b0.
          let x0 = record x { flags = flags } in
          field P (P.dec_string b0) x0 λ v1 b1. (record x0 { request_id = v1 }, some b1)

  unfoldable pub encode_check_response :
      Option FailoverHealthCheckResponse → List P.Byte → List P.Byte
  encode_check_response none r = P.enc_nil ++ r
  encode_check_response (some x) r =
      write_body P x.error x.flags
        (P.enc_string x.request_id
          ++ (P.enc_bool x.success
              ++ (P.enc_string x.node_role ++ (P.enc_string x.instance_id ++ r))))
        r

  unfoldable pub decode_check_response :
      FailoverHealthCheckResponse → List P.Byte → Filled P FailoverHealthCheckResponse
  decode_check_response x b =
      header P x (λ e. record x { error = some e }) b
        λ flags b0.
          let x0 = record x { flags = flags } in
          field P (P.dec_string b0) x0 λ v1 b1.
            let x1 = record x0 { request_id = v1 } in
            field P (P.dec_bool b1) x1 λ v2 b2.
              let x2 = record x1 { success = v2 } in
              field P (P.dec_string b2) x2 λ v3 b3.
                let x3 = record x2 { node_role = v3 } in
                field P (P.dec_string b3) x3 λ v4 b4. (record x3 { instance_id = v4 }, some b4)

  unfoldable pub encode_beat_request : Option FailoverHeartbeatRequest → List P.Byte → List P.Byte
  encode_beat_request none r = P.enc_nil ++ r
  encode_beat_request (some x) r =
      write_body P x.error x.flags
        (P.enc_string x.request_id
          ++ (P.enc_int64 x.timestamp ++ (P.enc_string x.primary_eni ++ r)))
        r

  unfoldable pub decode_beat_request :
      FailoverHeartbeatRequest → List P.Byte → Filled P FailoverHeartbeatRequest
  decode_beat_request x b =
      header P x (λ e. record x { error = some e }) b
        λ flags b0.
          let x0 = record x { flags = flags } in
          field P (P.dec_string b0) x0 λ v1 b1.
            let x1 = record x0 { request_id = v1 } in
            field P (P.dec_int64 b1) x1 λ v2 b2.
              let x2 = record x1 { timestamp = v2 } in
              field P (P.dec_string b2) x2 λ v3 b3. (record x2 { primary_eni = v3 }, some b3)

  unfoldable pub encode_beat_response : Option FailoverHeartbeatResponse → List P.Byte → List P.Byte
  encode_beat_response none r = P.enc_nil ++ r
  encode_beat_response (some x) r =
      write_body P x.error x.flags
        (P.enc_string x.request_id ++ (P.enc_bool x.success ++ (P.enc_int64 x.timestamp ++ r))) r

  unfoldable pub decode_beat_response :
      FailoverHeartbeatResponse → List P.Byte → Filled P FailoverHeartbeatResponse
  decode_beat_response x b =
      header P x (λ e. record x { error = some e }) b
        λ flags b0.
          let x0 = record x { flags = flags } in
          field P (P.dec_string b0) x0 λ v1 b1.
            let x1 = record x0 { request_id = v1 } in
            field P (P.dec_bool b1) x1 λ v2 b2.
              let x2 = record x1 { success = v2 } in
              field P (P.dec_int64 b2) x2 λ v3 b3. (record x2 { timestamp = v3 }, some b3)

  -- `res.Error` where the service returned an error, whatever response came with it.
  unfoldable pub encode_beat_result : FailoverHeartbeatResponse × Option String → List P.Byte
  encode_beat_result (res, none) = encode_beat_response (some res) []
  encode_beat_result (res, some e) = P.enc_error e ++ []

  -- The service's state is handed on; a request that cannot be decoded reaches no service.
  unfoldable pub serve_beat :
      {S : Type 0}
      → (FailoverHeartbeatRequest → S → (FailoverHeartbeatResponse × Option String) × S)
      → List P.Byte
      → S
      → Option (List P.Byte) × S
  unfolding encode_beat_result
  serve_beat service b s =
      let (req, left) = decode_beat_request new_beat_request b in
      elim left [
        | none ↦ (none, s)
        | some _ ↦ let (result, s') = service req s in (some (encode_beat_result result), s')
      ]

  -- What the client returns for the bytes of an answer.
  unfoldable pub read_beat : List P.Byte → Except String FailoverHeartbeatResponse
  read_beat b =
      let (res, _) = decode_beat_response new_beat_response b in
      elim res.error [ some e ↦ err e | none ↦ ok res ]
