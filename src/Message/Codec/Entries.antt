-- ===== src/Message/Codec/Entries.antt =====
-- The entries of the NAT tables: `FailoverNATKey`, `FailoverNATValue`, `FailoverNATKeyValuePair`,
-- `FailoverNATBitmapPair`. A pointer receiver is an `Option`.
use architect_networking.Base.{Option, none, some, List, ◌++◌}
use architect_networking.Message.{
  FailoverNatKey, FailoverNatValue, FailoverNatKeyValuePair, FailoverNatBitmapPair,
}
use architect_networking.Message.Codec.Buffer.{
  Polyglot, Filled, field, header, optional, nested, write_body,
}

abbrev pub new_key : FailoverNatKey
new_key = record {
  error = none;
  flags = 0;
  destination_ip = "";
  destination_port = 0;
  source_ip = "";
  source_port = 0;
}

abbrev pub new_value : FailoverNatValue
new_value = record {
  error = none;
  flags = 0;
  last_seen = "";
  translate_ip = "";
  translate_port = 0;
}

abbrev pub new_pair : FailoverNatKeyValuePair
new_pair = record { error = none; flags = 0; key = none; value = none }

abbrev pub new_bitmap : FailoverNatBitmapPair
new_bitmap = record {
  error = none;
  flags = 0;
  bitmap = "";
  destination_ip = "";
  last_chunk = 0;
  natip = "";
}

module _ (P : Polyglot) where
  unfoldable pub encode_key : Option FailoverNatKey → List P.Byte → List P.Byte
  encode_key none r = P.enc_nil ++ r
  encode_key (some x) r =
      write_body P x.error x.flags
        (P.enc_string x.destination_ip
          ++ (P.enc_uint32 x.destination_port
              ++ (P.enc_string x.source_ip ++ (P.enc_uint32 x.source_port ++ r))))
        r

  unfoldable pub decode_key : FailoverNatKey → List P.Byte → Filled P FailoverNatKey
  decode_key x b =
      header P x (λ e. record x { error = some e }) b
        λ flags b0.
          let x0 = record x { flags = flags } in
          field P (P.dec_string b0) x0 λ v1 b1.
            let x1 = record x0 { destination_ip = v1 } in
            field P (P.dec_uint32 b1) x1 λ v2 b2.
              let x2 = record x1 { destination_port = v2 } in
              field P (P.dec_string b2) x2 λ v3 b3.
                let x3 = record x2 { source_ip = v3 } in
                field P (P.dec_uint32 b3) x3 λ v4 b4. (record x3 { source_port = v4 }, some b4)

  unfoldable pub encode_value : Option FailoverNatValue → List P.Byte → List P.Byte
  encode_value none r = P.enc_nil ++ r
  encode_value (some x) r =
      write_body P x.error x.flags
        (P.enc_string x.last_seen
          ++ (P.enc_string x.translate_ip ++ (P.enc_uint32 x.translate_port ++ r)))
        r

  unfoldable pub decode_value : FailoverNatValue → List P.Byte → Filled P FailoverNatValue
  decode_value x b =
      header P x (λ e. record x { error = some e }) b
        λ flags b0.
          let x0 = record x { flags = flags } in
          field P (P.dec_string b0) x0 λ v1 b1.
            let x1 = record x0 { last_seen = v1 } in
            field P (P.dec_string b1) x1 λ v2 b2.
              let x2 = record x1 { translate_ip = v2 } in
              field P (P.dec_uint32 b2) x2 λ v3 b3. (record x2 { translate_port = v3 }, some b3)

  unfoldable pub encode_pair : Option FailoverNatKeyValuePair → List P.Byte → List P.Byte
  encode_pair none r = P.enc_nil ++ r
  encode_pair (some x) r =
      write_body P x.error x.flags (encode_key x.key (encode_value x.value r)) r

  unfoldable pub decode_pair :
      FailoverNatKeyValuePair → List P.Byte → Filled P FailoverNatKeyValuePair
  decode_pair x b =
      header P x (λ e. record x { error = some e }) b
        λ flags b0.
          let x0 = record x { flags = flags } in
          nested P (optional P (decode_key new_key) b0) (λ k. record x0 { key = k })
            λ k b1.
              let x1 = record x0 { key = k } in
              nested P (optional P (decode_value new_value) b1) (λ v. record x1 { value = v })
                λ v b2. (record x1 { value = v }, some b2)

  unfoldable pub encode_bitmap : Option FailoverNatBitmapPair → List P.Byte → List P.Byte
  encode_bitmap none r = P.enc_nil ++ r
  encode_bitmap (some x) r =
      write_body P x.error x.flags
        (P.enc_string x.bitmap
          ++ (P.enc_string x.destination_ip
              ++ (P.enc_uint32 x.last_chunk ++ (P.enc_string x.natip ++ r))))
        r

  unfoldable pub decode_bitmap :
      FailoverNatBitmapPair → List P.Byte → Filled P FailoverNatBitmapPair
  decode_bitmap x b =
      header P x (λ e. record x { error = some e }) b
        λ flags b0.
          let x0 = record x { flags = flags } in
          field P (P.dec_string b0) x0 λ v1 b1.
            let x1 = record x0 { bitmap = v1 } in
            field P (P.dec_string b1) x1 λ v2 b2.
              let x2 = record x1 { destination_ip = v2 } in
              field P (P.dec_uint32 b2) x2 λ v3 b3.
                let x3 = record x2 { last_chunk = v3 } in
                field P (P.dec_string b3) x3 λ v4 b4. (record x3 { natip = v4 }, some b4)
