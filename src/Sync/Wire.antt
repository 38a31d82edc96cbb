-- ===== src/Sync/Wire.antt =====
-- A synchronisation over the wire: the request and its answer are encoded, carried and decoded. The
-- end of the chain from the primary's conduit to the secondary's.
use architect_networking.Base.{
  ℕ, suc, ◌<◌, ◌≡◌, refl, ap, ap₂, String, Option, none, some, List, [], ◌∷◌, arith, All, length,
  map, Except, ok, err, done,
}
use architect_networking.Message.{
  NatKeyValuePair, NatBitmapPair, NatState, FitsApi, PairFits, BitmapFits, SetStateResponse,
  set_status_code, FailoverSyncStateRequest, FailoverSyncStateResponse,
}
use architect_networking.Message.Codec.Buffer.{Polyglot, IsLawful, u8_mod, u32_mod}
use architect_networking.Message.Codec.Rpc.{
  serve_sync_state, call_sync_state, encode_result, read_result,
}
use architect_networking.Message.Codec.Whole.{encode_request}
use architect_networking.Message.Codec.Laws.Entries.{Each, PlainPair, PlainBitmap}
use architect_networking.Message.Codec.Laws.Whole.{
  PlainState, revive, revive_field, decode_response-encode_response, decode_response_error,
  request_round_trip,
}
use architect_networking.Sync.{
  Conduit, reply_state, sync_request, status_ok, pair_to_message, bitmap_to_message,
  state_to_message, sync_state, delivered, sync_from_primary,
}
use architect_networking.Sync.Laws.{Offers, normalise, sync_transfers}

-- What the transport does with an answered request.
abbrev pub Carries :
    (P : Polyglot)
    → (List P.Byte → Except String (List P.Byte))
    → (FailoverSyncStateRequest → Except String FailoverSyncStateResponse)
    → Type 0
Carries P carry service =
    (b a : List P.Byte) → serve_sync_state P service b ≡ some a → carry b ≡ ok a

-- Tables that a slice can announce.
pub record SizesFit (n : NatState) : Type 0 where
  pub ips : length n.ips < u32_mod
  pub tcp_inbound : length n.tcp_inbound < u32_mod
  pub tcp_outbound : length n.tcp_outbound < u32_mod
  pub udp_inbound : length n.udp_inbound < u32_mod
  pub udp_outbound : length n.udp_outbound < u32_mod
  pub nat_ports : length n.nat_ports < u32_mod

length-map : {A B : Type 0} (f : A → B) (xs : List A) → length (map f xs) ≡ length xs
length-map f [] = refl
length-map f (x ∷ xs) = ap suc (length-map f xs)

All-map :
    {A B : Type 0} (p : A → Type 0) (q : B → Type 0) (f : A → B)
    → ((a : A) → p a → q (f a))
    → (xs : List A) → All p xs
    → All q (map f xs)
All-map p q f h [] a = tt
All-map p q f h (x ∷ xs) a = (h x a.0, All-map p q f h xs a.1)

map-map_some :
    {A B : Type 0} (f : A → Option B) (g : Option B → Option B)
    → ((a : A) → g (f a) ≡ f a)
    → (xs : List A) → map g (map f xs) ≡ map f xs
map-map_some f g h [] = refl
map-map_some f g h (x ∷ xs) = ap₂ ◌∷◌ (h x) (map-map_some f g h xs)

pair-PlainPair : (kv : NatKeyValuePair) → PairFits kv → PlainPair (pair_to_message kv)
unfolding pair_to_message
pair-PlainPair kv h = (
  refl,
  omega arith,
  (refl, omega arith, omega arith, omega arith),
  (refl, omega arith, omega arith),
)

bitmap-PlainBitmap : (bp : NatBitmapPair) → BitmapFits bp → PlainBitmap (bitmap_to_message bp)
unfolding bitmap_to_message
bitmap-PlainBitmap bp h = (refl, omega arith, omega arith)

entries-Plain :
    (l : List NatKeyValuePair)
    → All PairFits l
    → All (Each PlainPair) (map (λ kv. some (pair_to_message kv)) l)
entries-Plain l h =
    All-map PairFits (Each PlainPair) (λ kv. some (pair_to_message kv)) pair-PlainPair l h

-- What the primary sends is plain.
pub state_to_message-PlainState :
    (n : NatState) → FitsApi n → SizesFit n → PlainState (state_to_message n)
unfolding state_to_message
state_to_message-PlainState n f z = record {
  no_error = refl;
  flags_fit = omega arith;
  ips_fit = z.ips;
  tcp_inbound = (
    entries-Plain n.tcp_inbound f.tcp_inbound,
    omega (arith, z.tcp_inbound, length-map (λ kv. some (pair_to_message kv)) n.tcp_inbound),
  );
  tcp_outbound = (
    entries-Plain n.tcp_outbound f.tcp_outbound,
    omega (arith, z.tcp_outbound, length-map (λ kv. some (pair_to_message kv)) n.tcp_outbound),
  );
  udp_inbound = (
    entries-Plain n.udp_inbound f.udp_inbound,
    omega (arith, z.udp_inbound, length-map (λ kv. some (pair_to_message kv)) n.udp_inbound),
  );
  udp_outbound = (
    entries-Plain n.udp_outbound f.udp_outbound,
    omega (arith, z.udp_outbound, length-map (λ kv. some (pair_to_message kv)) n.udp_outbound),
  );
  nat_ports = (
    All-map BitmapFits (Each PlainBitmap) (λ bp. some (bitmap_to_message bp)) bitmap-PlainBitmap
        n.nat_ports f.nat_ports,
    omega (arith, z.nat_ports, length-map (λ bp. some (bitmap_to_message bp)) n.nat_ports),
  );
}

-- What the primary sends has no nil entry.
revive-state_to_message : (n : NatState) → revive (state_to_message n) ≡ state_to_message n
unfolding state_to_message
revive-state_to_message n = simp (map-map_some)

module _ (P : Polyglot) (L : IsLawful P) (carry : List P.Byte → Except String (List P.Byte)) where
  -- The client reads the bytes that the server's handler writes for this request.
  carried :
      (service : FailoverSyncStateRequest → Except String FailoverSyncStateResponse)
      (req : FailoverSyncStateRequest)
      → Carries P carry service
      → req.error ≡ none
      → req.flags < u8_mod
      → carry (encode_request P (some req) []) ≡ ok (encode_result P (service req))
  unfolding serve_sync_state
  carried service req c e f = c _ _ (ground (arith, request_round_trip P L req [] e f))

  -- A plain answer arrives as it was sent, but for nil entries.
  pub call_sync_state_ok :
      (service : FailoverSyncStateRequest → Except String FailoverSyncStateResponse)
      (req : FailoverSyncStateRequest) (x : FailoverSyncStateResponse)
      → Carries P carry service
      → req.error ≡ none
      → req.flags < u8_mod
      → service req ≡ ok x
      → x.error ≡ none
      → x.flags < u8_mod
      → Each PlainState x.state
      → call_sync_state P carry req ≡ ok (record x { state = revive_field x.state })
  unfolding call_sync_state read_result encode_result
  call_sync_state_ok service req x c e f a xe xf xs =
      ground (arith, carried service req c e f, decode_response-encode_response P L x [] xe xf xs)

  -- An error of the service arrives as that error.
  pub call_sync_state_err :
      (service : FailoverSyncStateRequest → Except String FailoverSyncStateResponse)
      (req : FailoverSyncStateRequest) (why : String)
      → Carries P carry service
      → req.error ≡ none
      → req.flags < u8_mod
      → service req ≡ err why
      → call_sync_state P carry req ≡ err why
  unfolding call_sync_state read_result encode_result
  call_sync_state_err service req why c e f a =
      ground (arith, carried service req c e f, decode_response_error P L why [])

module _ (P : Polyglot) (L : IsLawful P) (carry : List P.Byte → Except String (List P.Byte))
    (C D : Conduit) (p : C.State) (s : D.State) (now : ℕ) where
  service : FailoverSyncStateRequest → Except String FailoverSyncStateResponse
  service req = ok (sync_state C p req)

  offered :
      (n : NatState) (req : FailoverSyncStateRequest)
      → Offers (C.get_state p) n
      → sync_state C p req ≡ reply_state req (some n)
  unfolding sync_state
  offered n req (r, e1, e2, e3) = ground arith

  called :
      (n : NatState)
      → Offers (C.get_state p) n
      → FitsApi n
      → SizesFit n
      → Carries P carry service
      → call_sync_state P carry (sync_request now) ≡ service (sync_request now)
  unfolding service sync_request reply_state
  called n o f z c = ground (
    arith,
    offered n (sync_request now) o,
    call_sync_state_ok P L carry service (sync_request now)
        (reply_state (sync_request now) (some n)) c refl (omega arith)
        (ap ok (offered n (sync_request now) o)) refl (omega arith)
        (state_to_message-PlainState n f z),
    revive-state_to_message n,
  )

  -- Over the wire: if the primary's conduit offers a state whose ports and table sizes fit, the
  -- transport carries answered requests, and the secondary's conduit accepts the state with 200,
  -- then the synchronisation succeeds and has set exactly the primary's state, up to an empty
  -- DestinationIP.
  pub wire_sync_transfers :
      (n : NatState) (resp : SetStateResponse) (s' : D.State)
      → Offers (C.get_state p) n
      → FitsApi n
      → SizesFit n
      → Carries P carry (λ req. ok (sync_state C p req))
      → D.set_state (normalise n) s ≡ (ok resp, s')
      → set_status_code resp ≡ status_ok
      → sync_from_primary D (some (λ req. delivered (call_sync_state P carry req))) now s
        ≡ (done tt, s')
  unfolding service sync_from_primary delivered
  wire_sync_transfers n resp s' o f z c w code =
      rw (called n o f z c, sync_from_primary) (sync_transfers C D p s now n resp s' o f w code)
