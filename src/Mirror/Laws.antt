-- ===== src/Mirror/Laws.antt =====
-- What `New` sets up, and what the loop keeps.
use architect_networking.Base.{
  String, none, some, List, [], ◌∷◌, ◌++◌, Except, ok, err, ◌≡◌, refl, ap, ◌∙◌, subst, sym,
  Option-cases, inl, inr,
}
use architect_networking.Message.{NatState}
use architect_networking.Config.{MirrorConfig, MirrorConfigError, validate_mirror}
use architect_networking.Http.{
  Web, Client, new_client, with_http_client, apply_options, finish_client, ends_in_slash,
}
use architect_networking.Http.Conduit.{Serves}
use architect_networking.Http.Laws.Conduit.{http_sync_nat_state}
use architect_networking.Mirror.{
  Failover, creating_primary_client, creating_secondary_client, config_error, Event, tick,
  elsewhere, connect, new_failover, mirror_loop,
}

module _ (W : Web) where
  loop-append :
      (f : Failover W) (xs ys : List (Event W.State)) (s : W.State)
      → mirror_loop W f (xs ++ ys) s ≡ mirror_loop W f ys (mirror_loop W f xs s)
  unfolding mirror_loop
  loop-append f [] ys s = refl
  loop-append f (tick ∷ xs) ys s = loop-append f xs ys _
  loop-append f (elsewhere change ∷ xs) ys s = loop-append f xs ys (change s)

  -- After every tick, whatever came before it, the second conduit has the state that the first one
  -- had, if both serve their API and a state that is written is the one that is read.
  pub mirror_follows :
      {Plain : NatState → Type 0} {read read' : W.State → NatState}
      {write write' : NatState → W.State → W.State} (f : Failover W)
      → Serves W Plain f.primary_client read write
      → Serves W Plain f.secondary_client read' write'
      → ((n : NatState) (s : W.State) → read' (write' n s) ≡ n)
      → (es : List (Event W.State)) (s : W.State) → Plain (read (mirror_loop W f es s))
      → read' (mirror_loop W f (es ++ (tick ∷ [])) s) ≡ read (mirror_loop W f es s)
  unfolding mirror_loop
  mirror_follows {read} {read'} {write} {write'} f h h' kept es s j =
      let before = mirror_loop W f es s in
      ap read' (
        loop-append f es (tick ∷ []) s
        ∙ ap (λ r. r.1) (http_sync_nat_state W f.primary_client f.secondary_client h h' before j))
      ∙ kept (read before) before

  abbrev localhost_client : W.Doer → Client W
  localhost_client doer = record {
    server = "http://localhost/";
    client = doer;
    request_editors = [];
  }

  api_client-localhost :
      (doer : W.Doer)
      → new_client W "http://localhost" (with_http_client W doer ∷ []) ≡ ok (localhost_client doer)
  unfolding new_client apply_options with_http_client finish_client ends_in_slash
  api_client-localhost doer = refl

  -- The sockets of both clients could be parsed.
  abbrev Connected : (String → Except String W.Doer) → MirrorConfig → Failover W → Type 0
  Connected unix_client c f =
      (p q : W.Doer) × (unix_client c.primary_socket ≡ ok p)
      × (unix_client c.secondary_socket ≡ ok q)
      × (f ≡ record {
        config = c;
        primary_client = localhost_client p;
        secondary_client = localhost_client q;
      })

  connected :
      (unix_client : String → Except String W.Doer) (c : MirrorConfig) (f : Failover W)
      (p q : Except String W.Doer)
      → unix_client c.primary_socket ≡ p
      → unix_client c.secondary_socket ≡ q
      → connect W unix_client c ≡ ok f
      → Connected unix_client c f
  unfolding connect
  connected unix_client c f (err e) q ep eq h =
      let l : connect W unix_client c ≡ err (creating_primary_client e) = rw (ep, connect) refl in
      absurd cc
  connected unix_client c f (ok p) (err e) ep eq h =
      let l : connect W unix_client c ≡ err (creating_secondary_client e) =
        rw (ep, eq, connect) refl in
      absurd cc
  connected unix_client c f (ok p) (ok q) ep eq h =
      let l : connect W unix_client c
          ≡ ok (record {
            config = c;
            primary_client = localhost_client p;
            secondary_client = localhost_client q;
          }) =
        rw (ep, eq, connect, api_client-localhost p, api_client-localhost q) refl in
      (p, q, ep, eq, cc)

  validated :
      (unix_client : String → Except String W.Doer) (config : MirrorConfig)
      → (validate_mirror config).1 ≡ none
      → new_failover W unix_client config ≡ connect W unix_client (validate_mirror config).0
  unfolding new_failover
  validated unix_client config e = rw (e, new_failover) refl

  refused :
      (unix_client : String → Except String W.Doer) (config : MirrorConfig) (e : MirrorConfigError)
      → (validate_mirror config).1 ≡ some e
      → new_failover W unix_client config ≡ err (config_error e)
  unfolding new_failover
  refused unix_client config e h = rw (h, new_failover) refl

  abbrev pub IsSetUp : (String → Except String W.Doer) → MirrorConfig → Failover W → Type 0
  IsSetUp unix_client config f =
      (validate_mirror config ≡ (f.config, none))
      × (unix_client f.config.primary_socket ≡ ok f.primary_client.client)
      × (unix_client f.config.secondary_socket ≡ ok f.secondary_client.client)
      × (f.primary_client.server ≡ "http://localhost/")
      × (f.secondary_client.server ≡ "http://localhost/")

  -- A mirror comes up only on a valid configuration, which it keeps with its defaults, and its two
  -- clients send to the sockets of the configuration, with the base URL http://localhost/.
  pub new_failover_lem :
      (unix_client : String → Except String W.Doer) (config : MirrorConfig) (f : Failover W)
      → new_failover W unix_client config ≡ ok f
      → IsSetUp unix_client config f
  new_failover_lem unix_client config f h = elim (Option-cases (validate_mirror config).1) [
    | inl e ↦
        let c = (validate_mirror config).0 in
        let (p, q, ep, eq, same) =
          connected unix_client c f _ _ refl refl (sym (validated unix_client config e) ∙ h) in
        subst (IsSetUp unix_client config) (sym same) (ap (λ x. (c, x)) e, ep, eq, refl, refl)
    | inr (x, e) ↦ let l = refused unix_client config x e in absurd cc
  ]
