-- ===== src/Message/Codec/Laws/Service.antt =====
-- The messages of a health check and of a heartbeat are read back as they were written.
use architect_networking.Base.{
  ℕ, ◌<◌, ◌≡◌, sym, subst, String, Bool, none, some, List, [], ℤ, arith, ok, err, ◌++◌,
}
use architect_networking.Message.{
  FailoverHealthCheckRequest, FailoverHealthCheckResponse, FailoverHeartbeatRequest,
  FailoverHeartbeatResponse,
}
use architect_networking.Message.Codec.Buffer.{Polyglot, IsLawful, u8_mod}
use architect_networking.Message.Codec.Laws.Pieces.{header_body, header_error, field-some}
use architect_networking.Message.Codec.Service.{
  new_check_request, new_check_response, new_beat_request, new_beat_response, encode_check_request,
  decode_check_request, encode_check_response, decode_check_response, encode_beat_request,
  decode_beat_request, encode_beat_response, decode_beat_response, encode_beat_result, read_beat,
}

module _ (P : Polyglot) (L : IsLawful P) where
  pub decode_check_request-encode_check_request :
      (f : ℕ) (q : String) (r : List P.Byte)
      → f < u8_mod
      → let x : FailoverHealthCheckRequest = record { error = none; flags = f; request_id = q } in
        decode_check_request P new_check_request (encode_check_request P (some x) r) ≡ (x, some r)
  unfolding encode_check_request decode_check_request
  decode_check_request-encode_check_request f q r hf =
      simp (header_body P L, field-some P L, L.string_of_string, hf)

  pub decode_check_response-encode_check_response :
      (f : ℕ) (q : String) (s : Bool) (role id : String) (r : List P.Byte)
      → f < u8_mod
      → let x : FailoverHealthCheckResponse = record {
        error = none;
        flags = f;
        request_id = q;
        success = s;
        node_role = role;
        instance_id = id;
      } in
        decode_check_response P new_check_response (encode_check_response P (some x) r)
        ≡ (x, some r)
  unfolding encode_check_response decode_check_response
  decode_check_response-encode_check_response f q s role id r hf =
      simp (header_body P L, field-some P L, L.string_of_string, L.bool_of_bool, hf)

  beat_request_at :
      (f : ℕ) (q : String) (t : ℤ) (eni : String) (r : List P.Byte)
      → f < u8_mod
      → let x : FailoverHeartbeatRequest = record {
        error = none;
        flags = f;
        request_id = q;
        timestamp = t;
        primary_eni = eni;
      } in
        decode_beat_request P new_beat_request (encode_beat_request P (some x) r) ≡ (x, some r)
  unfolding encode_beat_request decode_beat_request
  beat_request_at f q t eni r hf =
      simp (header_body P L, field-some P L, L.string_of_string, L.int64_of_int64, hf)

  pub decode_beat_request-encode_beat_request :
      (x : FailoverHeartbeatRequest) (r : List P.Byte)
      → x.error ≡ none
      → x.flags < u8_mod
      → decode_beat_request P new_beat_request (encode_beat_request P (some x) r) ≡ (x, some r)
  decode_beat_request-encode_beat_request x r he hf =
      subst
        (λ (y : FailoverHeartbeatRequest).
          decode_beat_request P new_beat_request (encode_beat_request P (some y) r) ≡ (y, some r))
        (λ i. record x { error = sym he i })
        (beat_request_at x.flags x.request_id x.timestamp x.primary_eni r hf)

  pub beat_response_at :
      (f : ℕ) (q : String) (s : Bool) (t : ℤ) (r : List P.Byte)
      → f < u8_mod
      → let x : FailoverHeartbeatResponse = record {
        error = none;
        flags = f;
        request_id = q;
        success = s;
        timestamp = t;
      } in
        decode_beat_response P new_beat_response (encode_beat_response P (some x) r) ≡ (x, some r)
  unfolding encode_beat_response decode_beat_response
  beat_response_at f q s t r hf =
      simp
        (header_body P L, field-some P L, L.string_of_string, L.bool_of_bool, L.int64_of_int64, hf)

  error_read :
      (e : String)
      → decode_beat_response P new_beat_response (P.enc_error e ++ [])
        ≡ (record new_beat_response { error = some e }, some [])
  unfolding decode_beat_response
  error_read e = header_error P L new_beat_response _ e [] _

  -- The client reads the error that the service returned, and not the response beside it.
  pub read_beat-error :
      (res : FailoverHeartbeatResponse) (e : String)
      → read_beat P (encode_beat_result P (res, some e)) ≡ err e
  unfolding read_beat encode_beat_result
  read_beat-error res e = ground (arith, error_read e)

  -- A response without an error of its own is what the client reads.
  pub read_beat-ok :
      (f : ℕ) (q : String) (s : Bool) (t : ℤ)
      → f < u8_mod
      → let x : FailoverHeartbeatResponse = record {
        error = none;
        flags = f;
        request_id = q;
        success = s;
        timestamp = t;
      } in
        read_beat P (encode_beat_result P (x, none)) ≡ ok x
  unfolding read_beat encode_beat_result
  read_beat-ok f q s t hf = ground (arith, beat_response_at f q s t [] hf)
