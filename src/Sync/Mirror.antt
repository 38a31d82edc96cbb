-- ===== src/Sync/Mirror.antt =====
-- pkg/failover/failover.go, `syncNATState`: the state of one local socket is copied to another,
-- with no message between. An error text holds the response's body too, which is left out here.
pub mod Laws
use architect_networking.Base.{ℕ, String, Option, none, some, Except, ok, err, if◌then◌else◌, ◌==◌}
use architect_networking.Message.{
  NatState, GetStateResponse, SetStateResponse, get_status_code, set_status_code,
}
use architect_networking.Sync.{Conduit, status_ok}

pub data MirrorError : Type 0 where
  getting_state_from_primary : String → MirrorError
  primary_server_status : ℕ → MirrorError
  primary_server_empty_state : MirrorError
  setting_state_on_secondary : String → MirrorError
  secondary_server_status : ℕ → MirrorError

module _ (D : Conduit) where
  -- The import half.
  import_state : NatState → D.State → Except MirrorError (Unit {0}) × D.State
  unfolding set_status_code
  import_state n s =
      let (r, s') = D.set_state n s in
      elim r [
        | err e ↦ (err (setting_state_on_secondary e), s')
        | ok resp ↦
            if set_status_code resp == status_ok
            then (ok tt, s')
            else (err (secondary_server_status (set_status_code resp)), s')
      ]

  import_body : Option NatState → D.State → Except MirrorError (Unit {0}) × D.State
  unfolding import_state
  import_body none s = (err primary_server_empty_state, s)
  import_body (some n) s = import_state n s

  import_response :
      Except String GetStateResponse → D.State → Except MirrorError (Unit {0}) × D.State
  unfolding import_body get_status_code
  import_response (err e) s = (err (getting_state_from_primary e), s)
  import_response (ok resp) s =
      if get_status_code resp == status_ok
      then import_body resp.json200 s
      else (err (primary_server_status (get_status_code resp)), s)

unfoldable pub sync_nat_state :
    (C D : Conduit) → C.State → D.State → Except MirrorError (Unit {0}) × D.State
unfolding import_response
sync_nat_state C D p s = import_response D (C.get_state p) s
