-- ===== src/Message/Codec/Laws/Whole.antt =====
-- The messages of a synchronisation are read back as they were written, with nil entries replaced
-- by empty ones.
use architect_networking.Base.{
  ℕ, ◌<◌, ◌≡◌, sym, subst, String, Bool, Option, none, some, List, [], ◌∷◌, arith, All, length, map,
  map_id, ◌++◌,
}
use architect_networking.Message.{
  FailoverNatState, FailoverSyncStateRequest, FailoverSyncStateResponse, FailoverNatKeyValuePair,
  FailoverNatBitmapPair,
}
use architect_networking.Message.Codec.Buffer.{
  Polyglot, IsLawful, any_kind, string_kind, optional, slice, write_slice, u8_mod, u32_mod, field,
}
use architect_networking.Message.Codec.Entries.{new_pair, new_bitmap, encode_pair, encode_bitmap}
use architect_networking.Message.Codec.Whole.{
  new_state, new_request, new_response, decode_entry, decode_port, decode_text, entries,
  encode_state, decode_state, encode_request, decode_request, encode_response, decode_response,
}
use architect_networking.Message.Codec.Laws.Pieces.{
  header_body, header_error, field-some, nested-some, optional_nil, optional_body,
  nil_of_write_body, slice-write_slice,
}
use architect_networking.Message.Codec.Laws.Entries.{
  Each, PlainPair, PlainBitmap, get_or, pair_round_trip, bitmap_round_trip,
}

abbrev pub PlainEntries : List (Option FailoverNatKeyValuePair) → Type 0
PlainEntries l = All (Each PlainPair) l × (length l < u32_mod)

pub record PlainState (x : FailoverNatState) : Type 0 where
  pub no_error : x.error ≡ none
  pub flags_fit : x.flags < u8_mod
  pub ips_fit : length x.ips < u32_mod
  pub tcp_inbound : PlainEntries x.tcp_inbound
  pub tcp_outbound : PlainEntries x.tcp_outbound
  pub udp_inbound : PlainEntries x.udp_inbound
  pub udp_outbound : PlainEntries x.udp_outbound
  pub nat_ports : All (Each PlainBitmap) x.nat_ports × (length x.nat_ports < u32_mod)

abbrev revive_pair : Option FailoverNatKeyValuePair → Option FailoverNatKeyValuePair
revive_pair e = some (get_or e new_pair)

abbrev revive_bitmap : Option FailoverNatBitmapPair → Option FailoverNatBitmapPair
revive_bitmap e = some (get_or e new_bitmap)

-- Nil entries become empty ones.
abbrev pub revive : FailoverNatState → FailoverNatState
revive x = record x {
  tcp_inbound = map revive_pair x.tcp_inbound;
  tcp_outbound = map revive_pair x.tcp_outbound;
  udp_inbound = map revive_pair x.udp_inbound;
  udp_outbound = map revive_pair x.udp_outbound;
  nat_ports = map revive_bitmap x.nat_ports;
}

abbrev pub revive_field : Option FailoverNatState → Option FailoverNatState
revive_field none = none
revive_field (some x) = some (revive x)

module _ (P : Polyglot) (L : IsLawful P) where
  entry_lem :
      (e : Option FailoverNatKeyValuePair) (r : List P.Byte)
      → Each PlainPair e
      → decode_entry P (encode_pair P e r) ≡ (revive_pair e, some r)
  unfolding decode_entry
  entry_lem e r h = ground (arith, pair_round_trip P L e r h)

  port_lem :
      (e : Option FailoverNatBitmapPair) (r : List P.Byte)
      → Each PlainBitmap e
      → decode_port P (encode_bitmap P e r) ≡ (revive_bitmap e, some r)
  unfolding decode_port
  port_lem e r h = ground (arith, bitmap_round_trip P L e r h)

  entries_lem :
      (l : List (Option FailoverNatKeyValuePair)) (r : List P.Byte)
      → PlainEntries l
      → entries P (write_slice P (encode_pair P) any_kind l r) ≡ (map revive_pair l, some r)
  unfolding entries
  entries_lem l r h =
      slice-write_slice P L (Each PlainPair) revive_pair (encode_pair P) none (decode_entry P)
        any_kind entry_lem l r h.0 h.1

  ports_lem :
      (l : List (Option FailoverNatBitmapPair)) (r : List P.Byte)
      → All (Each PlainBitmap) l
      → length l < u32_mod
      → slice P none (decode_port P) any_kind (write_slice P (encode_bitmap P) any_kind l r)
        ≡ (map revive_bitmap l, some r)
  ports_lem l r h n =
      slice-write_slice P L (Each PlainBitmap) revive_bitmap (encode_bitmap P) none (decode_port P)
        any_kind port_lem l r h n

  text_lem :
      (s : String) (r : List P.Byte) → Unit {0} → decode_text P (P.enc_string s ++ r) ≡ (s, some r)
  unfolding decode_text field
  text_lem s r h = ground (arith, L.string_of_string s r)

  All-unit : (l : List String) → All (λ _. Unit {0}) l
  All-unit [] = tt
  All-unit (x ∷ xs) = (tt, All-unit xs)

  texts_lem :
      (l : List String) (r : List P.Byte)
      → length l < u32_mod
      → slice P ""
          (decode_text P)
          string_kind
          (write_slice P (λ s t. P.enc_string s ++ t) string_kind l r)
        ≡ (l, some r)
  texts_lem l r n = ground (
    arith,
    map_id l,
    slice-write_slice P L (λ _. Unit {0}) (λ s. s) (λ s t. P.enc_string s ++ t) "" (decode_text P)
        string_kind text_lem l r (All-unit l) n,
  )

  state_at :
      (x : FailoverNatState) (r : List P.Byte)
      → PlainState x
      → let y = record x { error = none } in
        decode_state P new_state (encode_state P (some y) r) ≡ (revive y, some r)
  unfolding encode_state decode_state
  state_at x r h = simp (
    header_body P L,
    nested-some P L,
    texts_lem,
    entries_lem,
    ports_lem,
    h.flags_fit,
    h.ips_fit,
    h.tcp_inbound,
    h.tcp_outbound,
    h.udp_inbound,
    h.udp_outbound,
    h.nat_ports.0,
    h.nat_ports.1,
  )

  state_round_trip :
      (x : FailoverNatState) (r : List P.Byte)
      → PlainState x
      → decode_state P new_state (encode_state P (some x) r) ≡ (revive x, some r)
  state_round_trip x r h =
      subst
        (λ (y : FailoverNatState).
          decode_state P new_state (encode_state P (some y) r) ≡ (revive y, some r))
        (λ i. record x { error = sym h.no_error i }) (state_at x r h)

  optional_state :
      (x : Option FailoverNatState) (r : List P.Byte)
      → Each PlainState x
      → optional P (decode_state P new_state) (encode_state P x r) ≡ (revive_field x, some r)
  unfolding encode_state
  optional_state none r h = optional_nil P L _ r
  optional_state (some x) r h =
      optional_body P L _ _ r (revive x) (nil_of_write_body P L x.error x.flags _ r)
        (state_round_trip x r h)

  response_at :
      (f : ℕ) (q : String) (ok : Bool) (m : String) (st : Option FailoverNatState) (r : List P.Byte)
      → f < u8_mod
      → Each PlainState st
      → let x : Option FailoverNatState → FailoverSyncStateResponse = λ s. record {
        error = none;
        flags = f;
        request_id = q;
        success = ok;
        error_message = m;
        state = s;
      } in
        decode_response P new_response (encode_response P (some (x st)) r)
        ≡ (x (revive_field st), some r)
  unfolding encode_response decode_response
  response_at f q ok m st r hf hs = simp (
    header_body P L,
    field-some P L,
    nested-some P L,
    optional_state,
    L.string_of_string,
    L.bool_of_bool,
    hf,
    hs,
  )

  -- A response with no error in it, whose numbers fit their fields, is read back as it was
  -- written, whatever bytes follow; a nil entry of a table is read back as an entry with no key
  -- and no value.
  pub decode_response-encode_response :
      (x : FailoverSyncStateResponse) (r : List P.Byte)
      → x.error ≡ none
      → x.flags < u8_mod
      → Each PlainState x.state
      → decode_response P new_response (encode_response P (some x) r)
        ≡ (record x { state = revive_field x.state }, some r)
  decode_response-encode_response x r he hf hs =
      subst
        (λ (y : FailoverSyncStateResponse).
          decode_response P new_response (encode_response P (some y) r)
          ≡ (record y { state = revive_field y.state }, some r))
        (λ i. record x { error = sym he i })
        (response_at x.flags x.request_id x.success x.error_message x.state r hf hs)

  -- An error that a handler returns is the one that the caller reads, and nothing else is read.
  pub decode_response_error :
      (e : String) (r : List P.Byte)
      → decode_response P new_response (P.enc_error e ++ r)
        ≡ (record new_response { error = some e }, some r)
  unfolding decode_response
  decode_response_error e r = header_error P L new_response _ e r _

  request_at :
      (f : ℕ) (q : String) (r : List P.Byte)
      → f < u8_mod
      → let x : FailoverSyncStateRequest = record { error = none; flags = f; request_id = q } in
        decode_request P new_request (encode_request P (some x) r) ≡ (x, some r)
  unfolding encode_request decode_request
  request_at f q r hf = simp (header_body P L, field-some P L, L.string_of_string, hf)

  pub request_round_trip :
      (x : FailoverSyncStateRequest) (r : List P.Byte)
      → x.error ≡ none
      → x.flags < u8_mod
      → decode_request P new_request (encode_request P (some x) r) ≡ (x, some r)
  request_round_trip x r he hf =
      subst
        (λ (y : FailoverSyncStateRequest).
          decode_request P new_request (encode_request P (some y) r) ≡ (y, some r))
        (λ i. record x { error = sym he i }) (request_at x.flags x.request_id r hf)
