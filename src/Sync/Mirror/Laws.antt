-- ===== src/Sync/Mirror/Laws.antt =====
-- What the copy leaves on the second socket, and that it agrees with the copy over the wire.
use architect_networking.Base.{
  ℕ, ap, ◌≡◌, refl, ◌∙◌, ◌≢◌, ◌↔◌, Except, ok, err, done, arith, String,
}
use architect_networking.Message.{
  NatState, FitsApi, GetStateResponse, SetStateResponse, set_status_code,
}
use architect_networking.Sync.{Conduit, status_ok}
use architect_networking.Sync.Laws.{
  Offers, Refuses, unreachable, bad_code, no_body, normalise, direct_sync, sync_transfers,
}
use architect_networking.Sync.Mirror.{sync_nat_state, import_response}

module _ (C D : Conduit) (p : C.State) (s : D.State) where
  -- If the first socket offers a state, the copy succeeds exactly when the second socket answers its
  -- write with 200, and whatever the answer the second socket is left as that one write leaves it.
  pub sync_nat_state_lem :
      (n : NatState) (r : Except String SetStateResponse) (s' : D.State)
      → Offers (C.get_state p) n
      → D.set_state n s ≡ (r, s')
      → ((sync_nat_state C D p s).1 ≡ s')
        × (((sync_nat_state C D p s).0 ≡ ok tt)
            ↔ ((resp : SetStateResponse) × (r ≡ ok resp) × (set_status_code resp ≡ status_ok)))
  unfolding sync_nat_state
  sync_nat_state_lem n (ok resp) s' (g, e1, e2, e3) w =
      (ground arith, ((λ h. (resp, refl, ground arith)), λ (a, q, c). ground arith))
  sync_nat_state_lem n (err e) s' (g, e1, e2, e3) w =
      (ground arith, ((λ h. absurd (ground arith)), λ (a, q, c). cc))

  -- If the first socket offers no state, the second is left alone and the copy fails.
  pub sync_nat_state_refused :
      (why : String)
      → Refuses (C.get_state p) why
      → ((sync_nat_state C D p s).1 ≡ s) × ((sync_nat_state C D p s).0 ≢ ok tt)
  unfolding sync_nat_state
  sync_nat_state_refused why h = refused_case (C.get_state p) why h
    where
      refused_case :
          (g : Except String GetStateResponse) (w : String)
          → Refuses g w
          → ((import_response D g s).1 ≡ s) × ((import_response D g s).0 ≢ ok tt)
      refused_case g w (unreachable e) = (refl, λ d. cc)
      refused_case g w (bad_code resp k) = (ground arith, λ d. ground arith)
      refused_case g w (no_body resp k e) = (ground arith, λ d. ground arith)

  -- Where the first socket offers a state whose ports fit and that has no DestinationIP pointing to
  -- "", and the second accepts it, the copy over the wire and the local copy both succeed and leave
  -- the same state.
  pub direct_sync-sync_nat_state :
      (now : ℕ) (n : NatState) (resp : SetStateResponse) (s' : D.State)
      → Offers (C.get_state p) n
      → FitsApi n
      → normalise n ≡ n
      → D.set_state n s ≡ (ok resp, s')
      → set_status_code resp ≡ status_ok
      → (direct_sync C D p s now ≡ (done tt, s')) × (sync_nat_state C D p s ≡ (ok tt, s'))
  unfolding sync_nat_state
  direct_sync-sync_nat_state now n resp s' o f same w code = (
    sync_transfers C D p s now n resp s' o f (ap (λ m. D.set_state m s) same ∙ w) code,
    (let (l1, l2) = sync_nat_state_lem n (ok resp) s' o w in
        let e2 : (sync_nat_state C D p s).0 ≡ ok tt = l2.1 (resp, refl, code) in ground arith),
  )
