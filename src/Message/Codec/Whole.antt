-- ===== src/Message/Codec/Whole.antt =====
-- The messages of a synchronisation: `FailoverNATState`, `FailoverSyncStateRequest` and
-- `FailoverSyncStateResponse`.
use architect_networking.Base.{String, false, Option, none, some, List, [], ◌++◌}
use architect_networking.Message.{
  FailoverNatState, FailoverSyncStateRequest, FailoverSyncStateResponse, FailoverNatKeyValuePair,
  FailoverNatBitmapPair,
}
use architect_networking.Message.Codec.Buffer.{
  Polyglot, string_kind, any_kind, Filled, field, header, optional, nested, write_body, slice,
  write_slice,
}
use architect_networking.Message.Codec.Entries.{
  new_pair, new_bitmap, encode_pair, decode_pair, encode_bitmap, decode_bitmap,
}

abbrev pub new_state : FailoverNatState
new_state = record {
  error = none;
  flags = 0;
  ips = [];
  tcp_inbound = [];
  tcp_outbound = [];
  udp_inbound = [];
  udp_outbound = [];
  nat_ports = [];
}

abbrev pub new_request : FailoverSyncStateRequest
new_request = record { error = none; flags = 0; request_id = "" }

abbrev pub new_response : FailoverSyncStateResponse
new_response = record {
  error = none;
  flags = 0;
  request_id = "";
  success = false;
  error_message = "";
  state = none;
}

module _ (P : Polyglot) where
  -- An element that was nil is replaced by a fresh struct, which is then decoded into.
  unfoldable pub decode_entry : List P.Byte → Filled P (Option FailoverNatKeyValuePair)
  decode_entry b = let (x, r) = decode_pair P new_pair b in (some x, r)

  unfoldable pub decode_port : List P.Byte → Filled P (Option FailoverNatBitmapPair)
  decode_port b = let (x, r) = decode_bitmap P new_bitmap b in (some x, r)

  unfoldable pub encode_state : Option FailoverNatState → List P.Byte → List P.Byte
  encode_state none r = P.enc_nil ++ r
  encode_state (some x) r =
      write_body P x.error x.flags
        (write_slice P (λ s t. P.enc_string s ++ t) string_kind x.ips
          (write_slice P (encode_pair P) any_kind x.tcp_inbound (
            write_slice P (encode_pair P) any_kind x.tcp_outbound (
              write_slice P (encode_pair P) any_kind x.udp_inbound (
                write_slice P (encode_pair P) any_kind x.udp_outbound
                  (write_slice P (encode_bitmap P) any_kind x.nat_ports r))))))
        r

  unfoldable pub decode_text : List P.Byte → Filled P String
  decode_text b = field P (P.dec_string b) "" (λ s r. (s, some r))

  unfoldable pub entries : List P.Byte → Filled P (List (Option FailoverNatKeyValuePair))
  entries = slice P none decode_entry any_kind

  unfoldable pub decode_state : FailoverNatState → List P.Byte → Filled P FailoverNatState
  decode_state x b =
      header P x (λ e. record x { error = some e }) b
        λ flags b0.
          let x0 = record x { flags = flags } in
          nested P (slice P "" decode_text string_kind b0) (λ v. record x0 { ips = v })
            λ v1 b1.
              let x1 = record x0 { ips = v1 } in
              nested P (entries b1) (λ v. record x1 { tcp_inbound = v })
                λ v2 b2.
                  let x2 = record x1 { tcp_inbound = v2 } in
                  nested P (entries b2) (λ v. record x2 { tcp_outbound = v })
                    λ v3 b3.
                      let x3 = record x2 { tcp_outbound = v3 } in
                      nested P (entries b3) (λ v. record x3 { udp_inbound = v })
                        λ v4 b4.
                          let x4 = record x3 { udp_inbound = v4 } in
                          nested P (entries b4) (λ v. record x4 { udp_outbound = v })
                            λ v5 b5.
                              let x5 = record x4 { udp_outbound = v5 } in
                              nested P (slice P none decode_port any_kind b5)
                                (λ v. record x5 { nat_ports = v })
                                λ v6 b6. (record x5 { nat_ports = v6 }, some b6)

  unfoldable pub encode_request : Option FailoverSyncStateRequest → List P.Byte → List P.Byte
  encode_request none r = P.enc_nil ++ r
  encode_request (some x) r = write_body P x.error x.flags (P.enc_string x.request_id ++ r) r

  unfoldable pub decode_request :
      FailoverSyncStateRequest → List P.Byte → Filled P FailoverSyncStateRequest
  decode_request x b =
      header P x (λ e. record x { error = some e }) b
        λ flags b0.
          let x0 = record x { flags = flags } in
          field P (P.dec_string b0) x0 λ v1 b1. (record x0 { request_id = v1 }, some b1)

  unfoldable pub encode_response : Option FailoverSyncStateResponse → List P.Byte → List P.Byte
  encode_response none r = P.enc_nil ++ r
  encode_response (some x) r =
      write_body P x.error x.flags
        (P.enc_string x.request_id
          ++ (P.enc_bool x.success ++ (P.enc_string x.error_message ++ encode_state x.state r)))
        r

  unfoldable pub decode_response :
      FailoverSyncStateResponse → List P.Byte → Filled P FailoverSyncStateResponse
  decode_response x b =
      header P x (λ e. record x { error = some e }) b
        λ flags b0.
          let x0 = record x { flags = flags } in
          field P (P.dec_string b0) x0 λ v1 b1.
            let x1 = record x0 { request_id = v1 } in
            field P (P.dec_bool b1) x1 λ v2 b2.
              let x2 = record x1 { success = v2 } in
              field P (P.dec_string b2) x2 λ v3 b3.
                let x3 = record x2 { error_message = v3 } in
                nested P (optional P (decode_state new_state) b3) (λ s. record x3 { state = s })
                  λ s b4. (record x3 { state = s }, some b4)
