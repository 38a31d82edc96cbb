-- ===== src/Mirror.antt =====
-- pkg/failover/failover.go: `New` and the loop of `Start`, which copies the state of one local
-- socket to another at every tick. `Stop` and the goroutine manager, another package's, end the
-- loop between two rounds.
pub mod Laws
use architect_networking.Base.Chain.{◌>>=◌}
use architect_networking.Base.{String, Option, none, some, List, [], ◌∷◌, Except, ok, err}
use architect_networking.Config.{MirrorConfig, MirrorConfigError, validate_mirror}
use architect_networking.Sync.Mirror.{sync_nat_state}
use architect_networking.Http.{Web, Client, new_client, with_http_client}
use architect_networking.Http.Conduit.{http_conduit}

pub data NewError : Type 0 where
  config_error : MirrorConfigError → NewError
  creating_primary_client : String → NewError
  creating_secondary_client : String → NewError
  creating_primary_api_client : String → NewError
  creating_secondary_api_client : String → NewError

-- `fmt.Errorf("%w: %w", …)`
abbrev pub wrap : {A : Type 0} → (String → NewError) → Except String A → Except NewError A
wrap w (ok a) = ok a
wrap w (err e) = err (w e)

-- What happens between two rounds of the loop's `select`: its ticker fires, or the conduits change
-- by themselves.
pub data Event (S : Type 0) : Type 0 where
  tick : Event S
  elsewhere : (S → S) → Event S

module _ (W : Web) where
  pub record Failover : Type 0 where
    pub config : MirrorConfig
    pub primary_client : Client W
    pub secondary_client : Client W

  abbrev api_client : W.Doer → Except String (Client W)
  api_client doer = new_client W "http://localhost" (with_http_client W doer ∷ [])

  -- After the validation. `unix_client` is `createUnixSocketClient`: the address is parsed by
  -- go-multiaddr, and the client dials it.
  unfoldable pub connect : (String → Except String W.Doer) → MirrorConfig → Except NewError Failover
  connect unix_client config = do
    primary ← wrap creating_primary_client (unix_client config.primary_socket)
    secondary ← wrap creating_secondary_client (unix_client config.secondary_socket)
    primary_api ← wrap creating_primary_api_client (api_client primary)
    secondary_api ← wrap creating_secondary_api_client (api_client secondary)
    ok (record { config = config; primary_client = primary_api; secondary_client = secondary_api })

  unfoldable pub new_failover :
      (String → Except String W.Doer) → MirrorConfig → Except NewError Failover
  unfolding connect
  new_failover unix_client config =
      let (c, e) = validate_mirror config in
      elim e [ some e ↦ err (config_error e) | none ↦ connect unix_client c ]

  -- The result of a copy is logged, and the loop goes on.
  unfoldable pub mirror_loop : Failover → List (Event W.State) → W.State → W.State
  mirror_loop f [] s = s
  mirror_loop f (tick ∷ es) s =
      mirror_loop f es
        (sync_nat_state (http_conduit W f.primary_client) (http_conduit W f.secondary_client) s s).1
  mirror_loop f (elsewhere change ∷ es) s = mirror_loop f es (change s)
