-- ===== src/Http/Laws/Conduit.antt =====
-- The client's two methods on the state, over a conduit that serves its API.
use architect_networking.Base.{ℕ, String, none, some, [], ok, err, ◌≡◌, refl, ap₂, false, done}
use architect_networking.Api.{Codec}
use architect_networking.Message.{NatState, FitsApi, get_status_code, set_status_code}
use architect_networking.Sync.Laws.{Offers, direct_sync, sync_transfers, normalise}
use architect_networking.Sync.Mirror.Laws.{sync_nat_state_lem}
use architect_networking.Sync.Mirror.{sync_nat_state, primary_server_empty_state}
use architect_networking.Http.{Web, Client, perform, apply_editors, run_editors, contains_json}
use architect_networking.Http.Build.{operation_url, plain_request, body_request, json_request}
use architect_networking.Http.Requests.{
  new_get_state_request, new_set_state_request, new_set_state_request_with_body,
}
use architect_networking.Http.Calls.{get_state, set_state}
use architect_networking.Http.Answers.{parse_json, parse_plain, parsed}
use architect_networking.Http.Responses.{
  get_state_with_response, set_state_with_response, parse_get_state_response,
  parse_set_state_response,
}
use architect_networking.Http.Conduit.{http_conduit, json_type, answer_of, Serves}

module _ (W : Web) {Plain : NatState → Type 0} (c : Client W) {read : W.State → NatState}
    {write : NatState → W.State → W.State} (h : Serves W Plain c read write) where
  url_built : operation_url W c.server "/transit/state" ≡ ok h.target
  unfolding operation_url
  url_built = rw (h.parses, h.resolves) refl

  get_request_built : new_get_state_request W c.server ≡ ok h.get_request
  unfolding new_get_state_request plain_request
  get_request_built = rw (url_built, h.gets) refl

  get_answered :
      (s : W.State)
      → Plain (read s)
      → get_state W c [] s ≡ (ok (answer_of json_type (h.text (read s))), s)
  unfolding get_state perform apply_editors run_editors
  get_answered s j = rw (get_request_built, h.no_editors, h.answers_get s j) refl

  -- A read returns the conduit's state and leaves it alone.
  get_parsed :
      (s : W.State)
      → Plain (read s)
      → get_state_with_response W c [] s ≡ (
        ok (record {
          body = h.text (read s);
          http_response = some (answer_of json_type (h.text (read s)));
          json = some (read s);
        }),
        s,
      )
  unfolding get_state_with_response parse_get_state_response parse_json parsed
  get_parsed s j = rw (get_answered s j, h.unmarshals (read s) j) refl

  put_request_built :
      (n : NatState)
      → Plain n
      → new_set_state_request W c.server n
        ≡ ok (W.add_header "Content-Type" json_type (h.put_request (h.text n)))
  unfolding new_set_state_request new_set_state_request_with_body json_request body_request
  put_request_built n j = rw (h.marshals n j, url_built, h.puts (h.text n)) refl

  put_answered :
      (n : NatState) (s : W.State)
      → Plain n
      → set_state W c n [] s ≡ (ok (answer_of "" ""), write n s)
  unfolding set_state perform apply_editors run_editors
  put_answered n s j = rw (put_request_built n j, h.no_editors, h.answers_put n s j) refl

  put_parsed :
      (n : NatState) (s : W.State)
      → Plain n
      → set_state_with_response W c n [] s ≡ (
        ok (record { body = ""; http_response = some (answer_of "" ""); json = none }),
        write n s,
      )
  unfolding set_state_with_response parse_set_state_response parse_plain parsed
  put_parsed n s j = rw (put_answered n s j) refl

  -- For the synchronisations, such a conduit offers its state and accepts every state.
  pub http-Offers :
      (s : W.State) → Plain (read s) → Offers ((http_conduit W c).get_state s) (read s)
  unfolding get_status_code
  http-Offers s j = (
    record { http_response = some 200; json200 = some (read s) },
    rw (get_parsed s j) refl,
    refl,
    refl,
  )

  pub http_accepts :
      (n : NatState) (s : W.State)
      → Plain n
      → (http_conduit W c).set_state n s ≡ (ok (record { http_response = some 200 }), write n s)
  http_accepts n s j = rw (put_parsed n s j) refl

module _ (W : Web) {Plain : NatState → Type 0} (c d : Client W) {read read' : W.State → NatState}
    {write write' : NatState → W.State → W.State} (h : Serves W Plain c read write)
    (h' : Serves W Plain d read' write') where
  -- Over HTTP, the local copy succeeds and writes the first conduit's state to the second.
  pub http_sync_nat_state :
      (s : W.State)
      → Plain (read s)
      → sync_nat_state (http_conduit W c) (http_conduit W d) s s ≡ (ok tt, write' (read s) s)
  unfolding set_status_code
  http_sync_nat_state s j =
      let (left, succeeds) =
        sync_nat_state_lem (http_conduit W c) (http_conduit W d) s s (read s)
          (ok (record { http_response = some 200 })) _ (http-Offers W c h s j)
          (http_accepts W d h' (read s) s j) in
      ap₂ (λ x y. (x, y)) (succeeds.1 (record { http_response = some 200 }, refl, refl)) left

  -- Over HTTP on both sides, the synchronisation of two nodes writes the primary's state to the
  -- secondary, up to an empty DestinationIP, if its ports fit.
  pub http_sync_transfers :
      (p s : W.State) (now : ℕ)
      → FitsApi (read p)
      → Plain (read p)
      → Plain (normalise (read p))
      → direct_sync (http_conduit W c) (http_conduit W d) p s now
        ≡ (done tt, write' (normalise (read p)) s)
  unfolding set_status_code
  http_sync_transfers p s now f j k =
      sync_transfers (http_conduit W c) (http_conduit W d) p s now (read p) _ _
        (http-Offers W c h p j) f (http_accepts W d h' (normalise (read p)) s k) refl

parse_json-no_json :
    {A : Type 0} (j : Codec A) (status : ℕ) (content_type body : String)
    → contains_json content_type ≡ false
    → parse_json j status (answer_of content_type body)
      ≡ ok (record { body = body; http_response = some (answer_of content_type body); json = none })
unfolding parse_json
parse_json-no_json j status content_type body t = rw t refl

-- A state that comes with 200 and another type than JSON is taken for an empty one: the copy fails
-- and writes nothing.
pub wrong_type_empty :
    (W : Web) (c d : Client W) (s : W.State) (content_type body : String)
    → get_state W c [] s ≡ (ok (answer_of content_type body), s)
    → contains_json content_type ≡ false
    → sync_nat_state (http_conduit W c) (http_conduit W d) s s ≡ (err primary_server_empty_state, s)
unfolding sync_nat_state get_state_with_response parse_get_state_response parsed get_status_code
wrong_type_empty W c d s content_type body e t =
    rw (e, parse_json-no_json W.json.nat_state 200 content_type body t) refl
