-- ===== src/Sync/Laws/Convert.antt =====
-- The conversions of leader.go between `client.NATState` and the message, there and back.
use architect_networking.Base.{
  ℕ, ◌<◌, ◌≡◌, refl, String, Option, none, some, List, [], ◌∷◌, arith, All, map, map_id, str_eq,
  if◌then◌else◌, Option-cases, inl, inr,
}
use architect_networking.Message.{
  NatKeyValuePair, NatBitmapPair, NatState, FitsApi, PairFits, BitmapFits, FailoverNatKeyValuePair,
  FailoverNatBitmapPair, FailoverNatState,
}
use architect_networking.Sync.{
  port_uint32_to_uint16, pair_to_message, bitmap_to_message, state_to_message, pair_from_message,
  bitmap_from_message, convert_all, state_from_message,
}

-- A port is kept if a uint16 can hold it.
pub port_uint32_to_uint16_lem : (p : ℕ) → p < 65536 → port_uint32_to_uint16 p ≡ p
unfolding port_uint32_to_uint16
port_uint32_to_uint16_lem p h = ground arith

-- The result is a uint16 for every uint32.
pub port_uint32_to_uint16-lt : (p : ℕ) → port_uint32_to_uint16 p < 65536
unfolding port_uint32_to_uint16
port_uint32_to_uint16-lt p = ground arith

-- What a transfer does to a bitmap: a DestinationIP that points to "" becomes nil.
drop_empty : Option String → Option String
drop_empty none = none
drop_empty (some s) = if str_eq s "" then none else some s

unfoldable pub normalise_bitmap : NatBitmapPair → NatBitmapPair
unfolding drop_empty
normalise_bitmap bp = record bp { destination_ip = drop_empty bp.destination_ip }

unfoldable pub normalise : NatState → NatState
normalise s = record s { nat_ports = map normalise_bitmap s.nat_ports }

pair_round_trip :
    (kv : NatKeyValuePair) → PairFits kv → pair_from_message (some (pair_to_message kv)) ≡ some kv
unfolding pair_from_message pair_to_message
pair_round_trip kv h = ground (
  arith,
  port_uint32_to_uint16_lem kv.key.destination_port,
  port_uint32_to_uint16_lem kv.key.source_port,
  port_uint32_to_uint16_lem kv.value.translate_port,
)

bitmap_round_trip_at :
    (b : String) (d : Option String) (c : ℕ) (n : String)
    → c < 65536
    → bitmap_from_message (
        some (
          bitmap_to_message (record { bitmap = b; destination_ip = d; last_chunk = c; natip = n })))
      ≡ some (record { bitmap = b; destination_ip = drop_empty d; last_chunk = c; natip = n })
unfolding bitmap_from_message bitmap_to_message drop_empty
bitmap_round_trip_at b none c n h = ground (arith, port_uint32_to_uint16_lem c)
bitmap_round_trip_at b (some s) c n h = ground (arith, port_uint32_to_uint16_lem c)

bitmap_round_trip :
    (bp : NatBitmapPair)
    → BitmapFits bp
    → bitmap_from_message (some (bitmap_to_message bp)) ≡ some (normalise_bitmap bp)
unfolding normalise_bitmap
bitmap_round_trip bp h = bitmap_round_trip_at bp.bitmap bp.destination_ip bp.last_chunk bp.natip h

convert_all-map :
    {A B C : Type 0} (P : A → Type 0) (f : A → B) (g : B → Option C) (k : A → C)
    → ((a : A) → P a → g (f a) ≡ some (k a))
    → (xs : List A) → All P xs
    → convert_all g (map f xs) ≡ some (map k xs)
unfolding convert_all
convert_all-map P f g k h [] q = refl
convert_all-map P f g k h (x ∷ xs) q = ground (arith, h x q.0, convert_all-map P f g k h xs q.1)

pairs_round_trip :
    (l : List NatKeyValuePair)
    → All PairFits l
    → convert_all pair_from_message (map (λ kv. some (pair_to_message kv)) l) ≡ some l
pairs_round_trip l h = ground (
  arith,
  convert_all-map PairFits (λ kv. some (pair_to_message kv)) pair_from_message (λ kv. kv)
      pair_round_trip l h,
  map_id l,
)

-- A state whose ports fit the API's uint16 fields comes back from its message as it was, but for
-- each DestinationIP that points to the empty text, which comes back nil.
pub state_from_message-state_to_message :
    (s : NatState) → FitsApi s → state_from_message (state_to_message s) ≡ some (normalise s)
unfolding state_from_message state_to_message normalise
state_from_message-state_to_message s h = ground (
  arith,
  pairs_round_trip s.tcp_inbound h.tcp_inbound,
  pairs_round_trip s.tcp_outbound h.tcp_outbound,
  pairs_round_trip s.udp_inbound h.udp_inbound,
  pairs_round_trip s.udp_outbound h.udp_outbound,
  convert_all-map BitmapFits (λ bp. some (bitmap_to_message bp)) bitmap_from_message
      normalise_bitmap bitmap_round_trip s.nat_ports h.nat_ports,
)

pair_from_message-PairFits :
    (m : Option FailoverNatKeyValuePair) (kv : NatKeyValuePair)
    → pair_from_message m ≡ some kv
    → PairFits kv
unfolding pair_from_message
pair_from_message-PairFits m kv h = grind (arith, port_uint32_to_uint16-lt)

bitmap_from_message-BitmapFits :
    (m : Option FailoverNatBitmapPair) (bp : NatBitmapPair)
    → bitmap_from_message m ≡ some bp
    → BitmapFits bp
unfolding bitmap_from_message
bitmap_from_message-BitmapFits m bp h = grind (arith, port_uint32_to_uint16-lt)

convert_all-All :
    {A B : Type 0} (P : B → Type 0) (g : A → Option B)
    → ((a : A) (b : B) → g a ≡ some b → P b)
    → (xs : List A) (ys : List B) → convert_all g xs ≡ some ys
    → All P ys
unfolding convert_all
convert_all-All P g h xs [] e = tt
convert_all-All P g h [] (y ∷ ys) e = absurd (cc)
convert_all-All P g h (x ∷ xs) (y ∷ ys) e = elim (Option-cases (g x)) [
  | inl e1 ↦ absurd (ground arith)
  | inr (y', e1) ↦ elim (Option-cases (convert_all g xs)) [
    | inl e2 ↦ absurd (ground arith)
    | inr (ys', e2) ↦ (h x y (ground arith), convert_all-All P g h xs ys (ground arith))
  ]
]

-- Every port and chunk number of a converted message is a uint16, whatever numbers it came with.
pub state_from_message-FitsApi :
    (m : FailoverNatState) (s : NatState) → state_from_message m ≡ some s → FitsApi s
unfolding state_from_message
state_from_message-FitsApi m s h = record {
  tcp_inbound =
      convert_all-All PairFits pair_from_message pair_from_message-PairFits m.tcp_inbound
        s.tcp_inbound (ground arith);
  tcp_outbound =
      convert_all-All PairFits pair_from_message pair_from_message-PairFits m.tcp_outbound
        s.tcp_outbound (ground arith);
  udp_inbound =
      convert_all-All PairFits pair_from_message pair_from_message-PairFits m.udp_inbound
        s.udp_inbound (ground arith);
  udp_outbound =
      convert_all-All PairFits pair_from_message pair_from_message-PairFits m.udp_outbound
        s.udp_outbound (ground arith);
  nat_ports =
      convert_all-All BitmapFits bitmap_from_message bitmap_from_message-BitmapFits m.nat_ports
        s.nat_ports (ground arith);
}
