-- ===== src/AuthServer/Callback.antt =====
-- src/auth_server.rs: what stands behind a callback that logs a browser in.
use rustypaste.Prelude.{
  ◌≡◌, true, Option, none, some, Text, text_eq, text_eq_iff, Option-cases, Bool-cases, inl, inr,
  arith,
}
use rustypaste.Store.Base.{Result-cases, ok}
use rustypaste.Store.Schema.{Db}
use rustypaste.Store.OauthFlows.{OAuthFlow, consume_oauth_flow}
use rustypaste.Config.Claims.{allows}
use rustypaste.Auth.Request.{Reply-cases, accepted}
use rustypaste.AuthServer.Response.{HttpResponse, OidcIdentity, OidcClient, AuthRuntime}
use rustypaste.AuthServer.Login.{
  CallbackInput, CallbackQuery, oauth_callback_path, open_login, finish_callback, matched_callback,
  callback,
}

module _ (runtime : AuthRuntime) (oidc : OidcClient) (input : CallbackInput) where
  -- The login that `state` started is there, and the provider answers for a permitted identity.
  abbrev pub Authorizes : Text → Db → HttpResponse → Type 0
  Authorizes state db response =
      (code : Text) × (flow : OAuthFlow) × (identity : OidcIdentity) × ((consume_oauth_flow
          runtime.crypto state input.consumed db).0
        ≡ ok (some flow))
      × (oidc.complete_login code flow.nonce flow.code_verifier ≡ some identity)
      × (allows runtime.authorization identity.claims ≡ true)
      × (response.location ≡ some flow.return_to)

  -- The callback is this browser's, by its cookie, and its login is authorized.
  abbrev pub IsAuthorized : (flow_cookie : Option Text) → CallbackQuery → Db → HttpResponse → Type 0
  IsAuthorized flow_cookie query db response =
      (state : Text) × (query.state ≡ some state)
      × (flow_cookie ≡ some state)
      × Authorizes state db response

  open_login_allowed :
      (callback_path return_to : Text) (identity : OidcIdentity) (db : Db) (response : HttpResponse)
      → (open_login runtime input callback_path return_to identity db).0 ≡ accepted response
      → (allows runtime.authorization identity.claims ≡ true) × (response.location ≡ some return_to)
  unfolding open_login
  open_login_allowed callback_path return_to identity db response h = (ground arith, ground arith)

  finish-Authorizes :
      (callback_path state code : Text) (db : Db) (response : HttpResponse)
      → (finish_callback runtime oidc input callback_path state code db).0 ≡ accepted response
      → Authorizes state db response
  unfolding finish_callback
  finish-Authorizes callback_path state code db response h =
      elim (Result-cases (consume_oauth_flow runtime.crypto state input.consumed db).0) [
        | inr (e, failed) ↦ absurd (ground arith)
        | inl (none, found) ↦ absurd (ground arith)
        | inl (some flow, found) ↦
            elim (Option-cases (oidc.complete_login code flow.nonce flow.code_verifier)) [
              | inl missing ↦ absurd (ground arith)
              | inr (identity, answered) ↦
                  let after = (consume_oauth_flow runtime.crypto state input.consumed db).1 in
                  let (allowed, location) =
                    open_login_allowed callback_path flow.return_to identity after response
                      (ground arith) in
                  (code, flow, identity, found, answered, allowed, location)
            ]
      ]

  matched-Authorizes :
      (state : Text) (query : CallbackQuery) (db : Db) (response : HttpResponse)
      → (matched_callback runtime oidc input state query db).0 ≡ accepted response
      → response.status ≡ 302
      → Authorizes state db response
  unfolding matched_callback
  matched-Authorizes state query db response h found =
      elim (Reply-cases (oauth_callback_path runtime.server)) [
        | inr (e, failed) ↦ absurd (ground arith)
        | inl (path, e) ↦ elim (Option-cases query.error) [
          | inr (error, failed) ↦ absurd (ground arith)
          | inl fine ↦ elim (Option-cases query.code) [
            | inl missing ↦ absurd (ground arith)
            | inr (code, sent) ↦ finish-Authorizes path state code db response (ground arith)
          ]
        ]
      ]

  -- A callback that answers with a redirect has the state of this browser's cookie; the login that
  -- the state started was there to be consumed, the provider answered its code, nonce and verifier with
  -- an identity that the authorization rules allow, and the redirect is to that login's address.
  pub redirected-IsAuthorized :
      (flow_cookie : Option Text) (query : CallbackQuery) (db : Db) (response : HttpResponse)
      → (callback runtime oidc input flow_cookie query db).0 ≡ accepted response
      → response.status ≡ 302
      → IsAuthorized flow_cookie query db response
  unfolding callback
  redirected-IsAuthorized flow_cookie query db response h found = elim (Option-cases query.state) [
    | inl missing ↦ absurd (ground arith)
    | inr (state, given) ↦ elim (Option-cases flow_cookie) [
      | inl missing ↦ absurd (ground arith)
      | inr (cookie, sent) ↦ elim (Bool-cases (text_eq cookie state)) [
        | inr differs ↦ absurd (ground arith)
        | inl same ↦ (
          state,
          given,
          ground (arith, text_eq_iff cookie state),
          matched-Authorizes state query db response (ground arith) found,
        )
      ]
    ]
  ]
