-- ===== src/Http/Laws/Building.antt =====
-- What the client's options make of it.
use Prim.Native.String.{String}
use mathlib.Core.List.{append-nil, append_assoc}
use text.Mathlib.TextLemmas.{cons-append, nil-append}
use architect_networking.Base.Chain.{◌>>=◌}
use architect_networking.Base.{
  ◌<>◌, true, none, List, [], ◌∷◌, ◌++◌, map, Except, ok, err, ◌≡◌, refl, sym, ap, ◌∙◌, subst, inl,
  inr, Bool-cases,
}
use architect_networking.Http.{
  Web, Client, Draft, ClientOption, RequestEditor, ends_in_slash, new_client, apply_options,
  finish_client, with_request_editor, run_editors, apply_editors,
}

add_slash : (s : String) → ends_in_slash (s <> "/") ≡ true
unfolding ends_in_slash
add_slash String.[] = refl
add_slash (String.◌∷◌ c String.[]) =
    subst (λ t. ends_in_slash t ≡ true)
      (sym (cons-append c "" "/" ∙ ap (String.◌∷◌ c) (nil-append "/"))) refl
add_slash (String.◌∷◌ c (String.◌∷◌ d s)) =
    subst (λ t. ends_in_slash t ≡ true)
      (sym (cons-append c (String.◌∷◌ d s) "/" ∙ ap (String.◌∷◌ c) (cons-append d s "/")))
      (subst (λ t. ends_in_slash t ≡ true) (cons-append d s "/") (add_slash (String.◌∷◌ d s)))

module _ (W : Web) where
  finish-slash : (d : Draft W) → ends_in_slash (finish_client W d).server ≡ true
  unfolding finish_client
  finish-slash d = elim (Bool-cases (ends_in_slash d.server)) [
    | inl e ↦ rw (e, e) refl
    | inr e ↦ rw e (add_slash d.server)
  ]

  -- The URL of a finished client is kept.
  finish_kept :
      (c : Client W)
      → ends_in_slash c.server ≡ true
      → finish_client W (record { server = c.server; client = none; request_editors = [] })
        ≡ record c { client = W.default_doer; request_editors = [] }
  unfolding finish_client
  finish_kept c e = rw e refl

  finished :
      (r : Except String (Draft W)) (c : Client W)
      → (r >>= (λ d. ok (finish_client W d))) ≡ ok c
      → ends_in_slash c.server ≡ true
  finished (err e) c h = absurd cc
  finished (ok d) c h =
      let d≡c : finish_client W d ≡ c = cc in
      subst (λ (x : Client W). ends_in_slash x.server ≡ true) d≡c (finish-slash d)

  -- Whatever its options, the server URL of a new client ends in a slash, and a client made of that
  -- URL with no option has the same one.
  pub new_client-slash :
      (server : String) (opts : List (ClientOption W)) (c : Client W)
      → new_client W server opts ≡ ok c
      → (ends_in_slash c.server ≡ true)
        × (new_client W c.server []
            ≡ ok (record c { client = W.default_doer; request_editors = [] }))
  unfolding new_client apply_options
  new_client-slash server opts c h =
      let e = finished (apply_options W opts _) c h in (e, ap ok (finish_kept c e))

  then_rest :
      (f g h : W.Request → Except String W.Request) (r : Except String W.Request)
      → ((req : W.Request) → f req ≡ (g req >>= h))
      → (r >>= f) ≡ ((r >>= g) >>= h)
  then_rest f g h (err e) same = refl
  then_rest f g h (ok req) same = same req

  run_editors-append :
      (xs ys : List (RequestEditor W)) (req : W.Request)
      → run_editors W (xs ++ ys) req ≡ (run_editors W xs req >>= run_editors W ys)
  unfolding run_editors
  run_editors-append [] ys req = refl
  run_editors-append (x ∷ xs) ys req =
      then_rest (run_editors W (xs ++ ys)) (run_editors W xs) (run_editors W ys) (x req)
        (run_editors-append xs ys)

  editor_options :
      (fns : List (RequestEditor W)) (d : Draft W)
      → apply_options W (map (with_request_editor W) fns) d
        ≡ ok (record d { request_editors = d.request_editors ++ fns })
  unfolding apply_options with_request_editor
  editor_options [] d =
      ap (λ es. ok (record d { request_editors = es })) (sym (append-nil d.request_editors))
  editor_options (f ∷ fns) d =
      editor_options fns (record d { request_editors = d.request_editors ++ (f ∷ []) })
      ∙ ap (λ es. ok (record d { request_editors = es }))
          (append_assoc d.request_editors (f ∷ []) fns)

  -- The editors that run are those that the options give, in their order, and then those of the
  -- call.
  pub new_client-editors :
      (server : String) (fns more : List (RequestEditor W)) (req : W.Request)
      → (c : Client W) × (new_client W server (map (with_request_editor W) fns) ≡ ok c)
        × (apply_editors W c more req ≡ run_editors W (fns ++ more) req)
  unfolding new_client finish_client apply_editors
  new_client-editors server fns more req =
      let d : Draft W = record { server = server; client = none; request_editors = fns } in
      (
        finish_client W d,
        ap (λ (r : Except String (Draft W)). r >>= (λ d'. ok (finish_client W d')))
            (editor_options fns _),
        sym (run_editors-append fns more req),
      )
