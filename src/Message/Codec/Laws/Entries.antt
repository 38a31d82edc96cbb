-- ===== src/Message/Codec/Laws/Entries.antt =====
-- The entries of the NAT tables are read back as they were written.
use architect_networking.Base.{ℕ, ◌<◌, ◌≡◌, sym, subst, String, Option, none, some, List}
use architect_networking.Message.{
  FailoverNatKey, FailoverNatValue, FailoverNatKeyValuePair, FailoverNatBitmapPair,
}
use architect_networking.Message.Codec.Buffer.{Polyglot, IsLawful, optional, u8_mod, u32_mod}
use architect_networking.Message.Codec.Laws.Pieces.{
  header_body, field-some, optional_nil, optional_body, nested-some, header_nil, nil_of_write_body,
}
use architect_networking.Message.Codec.Entries.{
  new_key, new_value, new_pair, new_bitmap, encode_key, decode_key, encode_value, decode_value,
  encode_pair, decode_pair, encode_bitmap, decode_bitmap,
}

-- A message with no error of its own, and numbers that fit its fields.
abbrev pub PlainKey : FailoverNatKey → Type 0
PlainKey k =
    (k.error ≡ none)
    × (k.flags < u8_mod)
    × (k.destination_port < u32_mod)
    × (k.source_port < u32_mod)

abbrev pub PlainValue : FailoverNatValue → Type 0
PlainValue v = (v.error ≡ none) × (v.flags < u8_mod) × (v.translate_port < u32_mod)

abbrev pub Each : {X : Type 0} → (X → Type 0) → Option X → Type 0
Each p none = Unit
Each p (some x) = p x

abbrev pub PlainPair : FailoverNatKeyValuePair → Type 0
PlainPair kv =
    (kv.error ≡ none) × (kv.flags < u8_mod) × Each PlainKey kv.key × Each PlainValue kv.value

abbrev pub PlainBitmap : FailoverNatBitmapPair → Type 0
PlainBitmap bp = (bp.error ≡ none) × (bp.flags < u8_mod) × (bp.last_chunk < u32_mod)

-- What a pointer stands for once nil is replaced by a fresh struct.
abbrev pub get_or : {X : Type 0} → Option X → X → X
get_or none blank = blank
get_or (some x) blank = x

module _ (P : Polyglot) (L : IsLawful P) where
  key_at :
      (f : ℕ) (di : String) (dp : ℕ) (si : String) (sp : ℕ) (r : List P.Byte)
      → f < u8_mod
      → dp < u32_mod
      → sp < u32_mod
      → let k : FailoverNatKey = record {
        error = none;
        flags = f;
        destination_ip = di;
        destination_port = dp;
        source_ip = si;
        source_port = sp;
      } in
        decode_key P new_key (encode_key P (some k) r) ≡ (k, some r)
  unfolding encode_key decode_key
  key_at f di dp si sp r hf hd hs =
      simp (header_body P L, field-some P L, L.string_of_string, L.uint32_of_uint32, hf, hd, hs)

  key_round_trip :
      (k : FailoverNatKey) (r : List P.Byte)
      → PlainKey k
      → decode_key P new_key (encode_key P (some k) r) ≡ (k, some r)
  key_round_trip k r h =
      subst (λ (x : FailoverNatKey). decode_key P new_key (encode_key P (some x) r) ≡ (x, some r))
        (λ i. record k { error = sym h.0 i })
        (key_at k.flags k.destination_ip k.destination_port k.source_ip k.source_port r h.1 h.2 h.3)

  value_at :
      (f : ℕ) (ls ti : String) (tp : ℕ) (r : List P.Byte)
      → f < u8_mod
      → tp < u32_mod
      → let v : FailoverNatValue = record {
        error = none;
        flags = f;
        last_seen = ls;
        translate_ip = ti;
        translate_port = tp;
      } in
        decode_value P new_value (encode_value P (some v) r) ≡ (v, some r)
  unfolding encode_value decode_value
  value_at f ls ti tp r hf ht =
      simp (header_body P L, field-some P L, L.string_of_string, L.uint32_of_uint32, hf, ht)

  value_round_trip :
      (v : FailoverNatValue) (r : List P.Byte)
      → PlainValue v
      → decode_value P new_value (encode_value P (some v) r) ≡ (v, some r)
  value_round_trip v r h =
      subst
        (λ (x : FailoverNatValue).
          decode_value P new_value (encode_value P (some x) r) ≡ (x, some r))
        (λ i. record v { error = sym h.0 i })
        (value_at v.flags v.last_seen v.translate_ip v.translate_port r h.1 h.2)

  -- A pointer field, nil or not.
  optional_key :
      (k : Option FailoverNatKey) (r : List P.Byte)
      → Each PlainKey k
      → optional P (decode_key P new_key) (encode_key P k r) ≡ (k, some r)
  unfolding encode_key
  optional_key none r h = optional_nil P L _ r
  optional_key (some k) r h =
      optional_body P L _ _ r k (nil_of_write_body P L k.error k.flags _ r) (key_round_trip k r h)

  optional_value :
      (v : Option FailoverNatValue) (r : List P.Byte)
      → Each PlainValue v
      → optional P (decode_value P new_value) (encode_value P v r) ≡ (v, some r)
  unfolding encode_value
  optional_value none r h = optional_nil P L _ r
  optional_value (some v) r h =
      optional_body P L _ _ r v (nil_of_write_body P L v.error v.flags _ r) (value_round_trip v r h)

  pair_at :
      (f : ℕ) (k : Option FailoverNatKey) (v : Option FailoverNatValue) (r : List P.Byte)
      → f < u8_mod
      → Each PlainKey k
      → Each PlainValue v
      → let kv : FailoverNatKeyValuePair = record { error = none; flags = f; key = k; value = v } in
        decode_pair P new_pair (encode_pair P (some kv) r) ≡ (kv, some r)
  unfolding encode_pair decode_pair
  pair_at f k v r hf hk hv =
      simp (header_body P L, nested-some P L, optional_key, optional_value, hf, hk, hv)

  bitmap_at :
      (f : ℕ) (b d : String) (c : ℕ) (n : String) (r : List P.Byte)
      → f < u8_mod
      → c < u32_mod
      → let bp : FailoverNatBitmapPair = record {
        error = none;
        flags = f;
        bitmap = b;
        destination_ip = d;
        last_chunk = c;
        natip = n;
      } in
        decode_bitmap P new_bitmap (encode_bitmap P (some bp) r) ≡ (bp, some r)
  unfolding encode_bitmap decode_bitmap
  bitmap_at f b d c n r hf hc =
      simp (header_body P L, field-some P L, L.string_of_string, L.uint32_of_uint32, hf, hc)

  -- A nil entry is read back as an empty one.
  pub pair_round_trip :
      (kv : Option FailoverNatKeyValuePair) (r : List P.Byte)
      → Each PlainPair kv
      → decode_pair P new_pair (encode_pair P kv r) ≡ (get_or kv new_pair, some r)
  unfolding encode_pair decode_pair
  pair_round_trip none r h = header_nil P L new_pair _ r _
  pair_round_trip (some kv) r h =
      subst
        (λ (x : FailoverNatKeyValuePair).
          decode_pair P new_pair (encode_pair P (some x) r) ≡ (x, some r))
        (λ i. record kv { error = sym h.0 i }) (pair_at kv.flags kv.key kv.value r h.1 h.2 h.3)

  pub bitmap_round_trip :
      (bp : Option FailoverNatBitmapPair) (r : List P.Byte)
      → Each PlainBitmap bp
      → decode_bitmap P new_bitmap (encode_bitmap P bp r) ≡ (get_or bp new_bitmap, some r)
  unfolding encode_bitmap decode_bitmap
  bitmap_round_trip none r h = header_nil P L new_bitmap _ r _
  bitmap_round_trip (some bp) r h =
      subst
        (λ (x : FailoverNatBitmapPair).
          decode_bitmap P new_bitmap (encode_bitmap P (some x) r) ≡ (x, some r))
        (λ i. record bp { error = sym h.0 i })
        (bitmap_at bp.flags bp.bitmap bp.destination_ip bp.last_chunk bp.natip r h.1 h.2)
