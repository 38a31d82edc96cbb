-- ===== src/Sync/Loop/Laws.antt =====
-- A secondary keeps following its primary.
use architect_networking.Base.{
  String, some, none, List, [], ◌∷◌, ◌++◌, Except, ok, done, fail, panic, ◌≡◌, ◌≢◌, refl, ◌⊎◌, inl,
  inr, arith, All, Outcome, true, Option-cases, Bool-cases, ◌∙◌, ap,
}
use architect_networking.Message.{
  NatState, FitsApi, GetStateResponse, SetStateResponse, set_status_code, FailoverSyncStateRequest,
}
use architect_networking.Node.{is_secondary}
use architect_networking.Sync.{
  Conduit, SyncCall, SyncError, answer, sync_state, sync_from_primary, sync_request, status_ok,
}
use architect_networking.Sync.Laws.{Offers, normalise, sync_transfers, answer_no_panic}
use architect_networking.Sync.Loop.{
  Tick, SyncEvent, ticked, elsewhere, running, panicked, secondary_sync_loop,
}

-- The call fails, or its answer was built by a primary's handler.
abbrev pub IsHonest : Tick → Type 0
IsHonest t =
    (rpc : SyncCall)
    → t.rpc ≡ some rpc
    → (req : FailoverSyncStateRequest)
    → ((e : String) × (rpc req ≡ fail e))
      ⊎ ((r : Except String GetStateResponse) × (rpc req ≡ done (some (answer r req))))

-- The call returns no response and no error.
abbrev pub IsNil : Tick → Type 0
IsNil t = (rpc : SyncCall) × (t.rpc ≡ some rpc) × (rpc (sync_request t.now) ≡ done none)

-- Every tick finds a secondary, and an honest answer.
abbrev pub IsFine : {S : Type 0} → SyncEvent S → Type 0
IsFine (ticked t) = (is_secondary t.role ≡ true) × IsHonest t
IsFine (elsewhere change) = Unit

module _ (D : Conduit) where
  honest_no_panic :
      (t : Tick) (s : D.State) → IsHonest t → (sync_from_primary D t.rpc t.now s).0 ≢ panic
  unfolding sync_from_primary
  honest_no_panic t s h q = elim (Option-cases t.rpc) [
    | inl e ↦ ground arith
    | inr (rpc, e) ↦ elim (h rpc e (sync_request t.now)) [
      | inl (x, e') ↦ ground arith
      | inr (r, e') ↦ ground (arith, answer_no_panic D s r (sync_request t.now))
    ]
  ]

  outcome_cases :
      (r : Outcome SyncError (Unit {0}))
      → (r ≡ panic) ⊎ ((r ≡ done tt) ⊎ ((e : SyncError) × (r ≡ fail e)))
  outcome_cases panic = inl refl
  outcome_cases (done _) = inr (inl refl)
  outcome_cases (fail e) = inr (inr (e, refl))

  -- A loop that is still running goes on from where it is.
  goes_on :
      (es more : List (SyncEvent D.State)) (s s1 : D.State)
      → secondary_sync_loop D es s ≡ (running, s1)
      → secondary_sync_loop D (es ++ more) s ≡ secondary_sync_loop D more s1
  unfolding secondary_sync_loop
  goes_on [] more s s1 h = let q : s ≡ s1 = ap (λ r. r.1) h in ap (secondary_sync_loop D more) q
  goes_on (elsewhere change ∷ es) more s s1 h = goes_on es more (change s) s1 h
  goes_on (ticked t ∷ es) more s s1 h =
      let s' = (sync_from_primary D t.rpc t.now s).1 in
      let later = goes_on es more s' s1 in
      elim (Bool-cases (is_secondary t.role)) [
        | inr e ↦ absurd (ground arith)
        | inl e ↦ elim (outcome_cases (sync_from_primary D t.rpc t.now s).0) [
          | inl q ↦ absurd (ground arith)
          | inr (inl q) ↦ ground (arith, later)
          | inr (inr (x, q)) ↦ ground (arith, later)
        ]
      ]

  nil_panics : (t : Tick) (s : D.State) → IsNil t → sync_from_primary D t.rpc t.now s ≡ (panic, s)
  unfolding sync_from_primary
  nil_panics t s (rpc, e, e') = ground arith

  -- As long as every tick finds a secondary, and its call returns an error or an answer that a
  -- primary's handler built, if there is a client at all, the loop neither returns nor panics,
  -- whatever else fails.
  pub secondary_sync_loop-running :
      (es : List (SyncEvent D.State)) (s : D.State)
      → All IsFine es
      → (secondary_sync_loop D es s).0 ≡ running
  unfolding secondary_sync_loop
  secondary_sync_loop-running [] s h = refl
  secondary_sync_loop-running (elsewhere change ∷ es) s h =
      secondary_sync_loop-running es (change s) h.1
  secondary_sync_loop-running (ticked t ∷ es) s h =
      let later = secondary_sync_loop-running es (sync_from_primary D t.rpc t.now s).1 h.1 in
      ground (arith, honest_no_panic t s h.0.1, later)

  -- After such ticks, a tick that finds a secondary whose call returns neither a response nor an
  -- error panics, and nothing that follows is reached.
  pub secondary_sync_loop-panicked :
      (es more : List (SyncEvent D.State)) (s : D.State) (t : Tick)
      → All IsFine es
      → is_secondary t.role ≡ true
      → IsNil t
      → secondary_sync_loop D (es ++ (ticked t ∷ more)) s
        ≡ (panicked, (secondary_sync_loop D es s).1)
  unfolding secondary_sync_loop
  secondary_sync_loop-panicked es more s t h role nil =
      let s1 = (secondary_sync_loop D es s).1 in
      let runs = secondary_sync_loop-running es s h in
      goes_on es (ticked t ∷ more) s s1 (ap (λ x. (x, s1)) runs)
      ∙ ground (arith, nil_panics t s1 nil)

  -- Whatever came before, as long as the loop is running, a tick that finds a secondary and a
  -- primary whose state fits and is accepted leaves that state, up to an empty DestinationIP.
  pub secondary_sync_loop-follows :
      (C : Conduit) (p : C.State) (es : List (SyncEvent D.State)) (s s1 s2 : D.State) (t : Tick)
      (n : NatState) (resp : SetStateResponse)
      → secondary_sync_loop D es s ≡ (running, s1)
      → is_secondary t.role ≡ true
      → t.rpc ≡ some (λ req. done (some (sync_state C p req)))
      → Offers (C.get_state p) n
      → FitsApi n
      → D.set_state (normalise n) s1 ≡ (ok resp, s2)
      → set_status_code resp ≡ status_ok
      → secondary_sync_loop D (es ++ (ticked t ∷ [])) s ≡ (running, s2)
  unfolding secondary_sync_loop
  secondary_sync_loop-follows C p es s s1 s2 t n resp h role rpc offers fits accepted code =
      let synced = sync_transfers C D p s1 t.now n resp s2 offers fits accepted code in
      goes_on es (ticked t ∷ []) s s1 h ∙ ground (arith, synced)
