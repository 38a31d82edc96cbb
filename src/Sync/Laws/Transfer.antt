-- ===== src/Sync/Laws/Transfer.antt =====
-- One synchronisation seen from both nodes: the handler of the primary answers the request of the
-- secondary. `C` and `D` are the conduits of the two nodes.
use architect_networking.Base.{
  ℕ, ◌≡◌, refl, sym, subst, ◌≢◌, ◌⊎◌, inl, inr, String, ◌<>◌, Bool, true, false, ◌&&◌, Option, none,
  some, List, [], ◌∷◌, arith, Except, ok, err, Outcome, done, fail, panic, show_ℕ, is_some, all_of,
  Option-cases, Bool-cases, map,
}
use architect_networking.Message.{
  NatState, NatKeyValuePair, FitsApi, GetStateResponse, SetStateResponse, get_status_code,
  set_status_code, FailoverNatKeyValuePair, FailoverNatBitmapPair, FailoverNatState,
  FailoverSyncStateRequest, FailoverSyncStateResponse,
}
use architect_networking.Sync.{
  Conduit, SyncCall, status_ok, state_to_message, state_from_message, convert_all,
  pair_from_message, bitmap_from_message, SyncError, primary_error, empty_state, sync_request,
  answer, refusal, receive_message, receive_state, wrap_apply, sync_state, apply_synced_state,
  sync_from_primary, pair_to_message, bitmap_to_message,
}
use architect_networking.Sync.Laws.Convert.{
  normalise, state_from_message-state_to_message, state_from_message-FitsApi,
}

-- What the primary's conduit has to offer: an answer 200 with a state.
abbrev pub Offers : Except String GetStateResponse → NatState → Type 0
Offers r n =
    (resp : GetStateResponse) × (r ≡ ok resp)
    × (get_status_code resp ≡ status_ok)
    × (resp.json200 ≡ some n)

-- What the primary reports when it has nothing to offer.
pub data Refuses : Except String GetStateResponse → String → Type 0 where
  unreachable : (e : String) → Refuses (err e) ("failed to get state: " <> e)
  bad_code :
      (resp : GetStateResponse)
      → get_status_code resp ≢ status_ok
      → Refuses (ok resp) ("API error: " <> show_ℕ (get_status_code resp))
  no_body :
      (resp : GetStateResponse)
      → get_status_code resp ≡ status_ok
      → resp.json200 ≡ none
      → Refuses (ok resp) "empty state returned"

pub entry_whole : Option FailoverNatKeyValuePair → Bool
entry_whole none = false
entry_whole (some kv) = is_some kv.key && is_some kv.value

-- No nil stands where the secondary dereferences.
pub message_whole : FailoverNatState → Bool
message_whole m =
    all_of entry_whole m.tcp_inbound
    && (all_of entry_whole m.tcp_outbound
        && (all_of entry_whole m.udp_inbound
            && (all_of entry_whole m.udp_outbound && all_of is_some m.nat_ports)))

is_some-convert_all :
    {A B : Type 0} (p : A → Bool) (f : A → Option B)
    → ((a : A) → is_some (f a) ≡ p a)
    → (xs : List A) → is_some (convert_all f xs) ≡ all_of p xs
unfolding convert_all all_of
is_some-convert_all p f h [] = refl
is_some-convert_all p f h (x ∷ xs) = ground (arith, h x, is_some-convert_all p f h xs)

is_some-pair_from_message :
    (m : Option FailoverNatKeyValuePair) → is_some (pair_from_message m) ≡ entry_whole m
unfolding pair_from_message entry_whole
is_some-pair_from_message m = ground arith

is_some-bitmap_from_message :
    (m : Option FailoverNatBitmapPair) → is_some (bitmap_from_message m) ≡ is_some m
unfolding bitmap_from_message
is_some-bitmap_from_message m = ground arith

pairs_whole :
    (l : List (Option FailoverNatKeyValuePair))
    → is_some (convert_all pair_from_message l) ≡ all_of entry_whole l
pairs_whole = is_some-convert_all entry_whole pair_from_message is_some-pair_from_message

-- The conversion dereferences nil exactly when the message has a nil entry, key or value.
pub is_some-state_from_message :
    (m : FailoverNatState) → is_some (state_from_message m) ≡ message_whole m
unfolding state_from_message message_whole
is_some-state_from_message m = ground (
  arith,
  pairs_whole m.tcp_inbound,
  pairs_whole m.tcp_outbound,
  pairs_whole m.udp_inbound,
  pairs_whole m.udp_outbound,
  is_some-convert_all is_some bitmap_from_message is_some-bitmap_from_message m.nat_ports,
)

answer_refused :
    (r : Except String GetStateResponse) (why : String) (req : FailoverSyncStateRequest)
    → Refuses r why
    → answer r req ≡ refusal req why
unfolding answer
answer_refused r why req (unreachable e) = refl
answer_refused r why req (bad_code resp h) = ground arith
answer_refused r why req (no_body resp h e) = ground arith

module _ (C D : Conduit) (p : C.State) (s : D.State) (now : ℕ) where
  -- The request and its answer, with a transport that delivers both.
  abbrev pub direct_sync : Outcome SyncError (Unit {0}) × D.State
  direct_sync = sync_from_primary D (some (λ req. done (some (sync_state C p req)))) now s

  -- If the primary's conduit offers a state whose ports fit, and the secondary's conduit accepts it
  -- with 200, then the synchronisation succeeds and has set exactly that state, up to an empty
  -- DestinationIP.
  pub sync_transfers :
      (n : NatState) (resp : SetStateResponse) (s' : D.State)
      → Offers (C.get_state p) n
      → FitsApi n
      → D.set_state (normalise n) s ≡ (ok resp, s')
      → set_status_code resp ≡ status_ok
      → direct_sync ≡ (done tt, s')
  unfolding sync_from_primary sync_state apply_synced_state
  sync_transfers n resp s' (r, e1, e2, e3) f accepted code =
      ground (arith, state_from_message-state_to_message n f)

  -- If the primary's conduit cannot be reached, answers with another status or without a body, then
  -- the secondary reports the primary's message and its state is left alone.
  pub sync_refused :
      (why : String) → Refuses (C.get_state p) why → direct_sync ≡ (fail (primary_error why), s)
  unfolding sync_from_primary sync_state
  sync_refused why h = rw (answer_refused (C.get_state p) why (sync_request now) h) (ground arith)

module _ (D : Conduit) (s : D.State) where
  -- One write of a state that fits, or no write and no success.
  pub WritesFitting : Outcome SyncError (Unit {0}) × D.State → Type 0
  WritesFitting (r, s') =
      ((s' ≡ s) × (r ≢ done tt)) ⊎ ((n : NatState) × FitsApi n × (s' ≡ (D.set_state n s).1))

  apply-state : (n : NatState) → (wrap_apply D (apply_synced_state D n s)).1 ≡ (D.set_state n s).1
  unfolding wrap_apply apply_synced_state
  apply-state n = ground arith

  message-WritesFitting : (m : FailoverNatState) → WritesFitting (receive_message D m s)
  unfolding WritesFitting receive_message
  message-WritesFitting m = elim (Option-cases (state_from_message m)) [
    | inl e ↦ inl (ground arith, λ d. ground arith)
    | inr (n, e) ↦ inr (n, state_from_message-FitsApi m n e, ground (arith, apply-state n))
  ]

  receive-WritesFitting :
      (resp : FailoverSyncStateResponse) → WritesFitting (receive_state D resp s)
  unfolding WritesFitting receive_state
  receive-WritesFitting resp = elim (Bool-cases resp.success) [
    | inr e ↦
        subst WritesFitting
          (sym (
            let q : receive_state D resp s ≡ (fail (primary_error resp.error_message), s) =
              ground arith in
            q))
          (inl (refl, λ d. cc))
    | inl e ↦ elim (Option-cases resp.state) [
      | inl e' ↦
          subst WritesFitting
            (sym (let q : receive_state D resp s ≡ (fail empty_state, s) = ground arith in q))
            (inl (refl, λ d. cc))
      | inr (m, e') ↦
          subst WritesFitting
            (sym (let q : receive_state D resp s ≡ receive_message D m s = ground arith in q))
            (message-WritesFitting m)
    ]
  ]

-- Whatever the call returns, also a nil response or a panic, a synchronisation either leaves the secondary's state alone and
-- does not succeed, or makes one write of a state whose ports fit the API's uint16 fields.
pub sync_from_primary-WritesFitting :
    (D : Conduit) (rpc : Option SyncCall) (now : ℕ) (s : D.State)
    → WritesFitting D s (sync_from_primary D rpc now s)
unfolding sync_from_primary WritesFitting
sync_from_primary-WritesFitting D none now s = inl (refl, λ d. cc)
sync_from_primary-WritesFitting D (some rpc) now s = rpc_case (rpc (sync_request now)) refl
  where
    rpc_case :
        (r : Outcome String (Option FailoverSyncStateResponse))
        → rpc (sync_request now) ≡ r
        → WritesFitting D s (sync_from_primary D (some rpc) now s)
    rpc_case (fail e) q = rw (q, sync_from_primary) (inl (refl, λ d. cc))
    rpc_case panic q = rw (q, sync_from_primary) (inl (refl, λ d. cc))
    rpc_case (done none) q = rw (q, sync_from_primary) (inl (refl, λ d. cc))
    rpc_case (done (some resp)) q = rw (q, sync_from_primary) (receive-WritesFitting D s resp)

all_of-map :
    {A B : Type 0} (p : B → Bool) (f : A → B)
    → ((a : A) → p (f a) ≡ true)
    → (xs : List A) → all_of p (map f xs) ≡ true
unfolding all_of
all_of-map p f h [] = refl
all_of-map p f h (x ∷ xs) = ground (arith, h x, all_of-map p f h xs)

entries_whole :
    (l : List NatKeyValuePair) → all_of entry_whole (map (λ kv. some (pair_to_message kv)) l) ≡ true
unfolding entry_whole pair_to_message
entries_whole = all_of-map entry_whole (λ kv. some (pair_to_message kv)) (λ kv. refl)

message_whole-state_to_message : (n : NatState) → message_whole (state_to_message n) ≡ true
unfolding message_whole state_to_message
message_whole-state_to_message n = ground (
  arith,
  entries_whole n.tcp_inbound,
  entries_whole n.tcp_outbound,
  entries_whole n.udp_inbound,
  entries_whole n.udp_outbound,
  all_of-map is_some (λ bp. some (bitmap_to_message bp)) (λ bp. refl) n.nat_ports,
)

module _ (D : Conduit) (s : D.State) where
  message_no_panic : (n : NatState) → (receive_message D (state_to_message n) s).0 ≢ panic
  unfolding receive_message wrap_apply apply_synced_state
  message_no_panic n h =
      ground
        (arith, is_some-state_from_message (state_to_message n), message_whole-state_to_message n)

  pub answer_no_panic :
      (r : Except String GetStateResponse) (req : FailoverSyncStateRequest)
      → (receive_state D (answer r req) s).0 ≢ panic
  unfolding receive_state answer
  answer_no_panic (err e) req h = cc
  answer_no_panic (ok resp) req h = elim (Option-cases resp.json200) [
    | inl e ↦ ground arith
    | inr (n, e) ↦ ground (arith, message_no_panic n)
  ]

-- An answer that the primary's handler built never makes the secondary dereference nil.
pub sync_state-no_panic :
    (C D : Conduit) (p : C.State) (s : D.State) (now : ℕ) → (direct_sync C D p s now).0 ≢ panic
unfolding sync_from_primary sync_state
sync_state-no_panic C D p s now = answer_no_panic D s (C.get_state p) (sync_request now)
