-- ===== src/AuthServer/Refines/Session.antt =====
-- src/auth_server.rs and src/auth.rs: the store calls of a callback, of the extractor of `RequestAuth`,
-- and of the endpoints that only read.
use rustypaste.Prelude.{
  ℕ, ◌≡◌, refl, false, not, Option, none, some, [], ◌∷◌, Text, text_eq, text_eq_iff, is_empty,
  Bool-cases, inl, inr, arith,
}
use rustypaste.Store.Base.{Duration, Clock}
use rustypaste.Store.Credentials.{
  CredentialTable, browser_session, api_token, create_browser_session,
}
use rustypaste.Store.Authenticate.{
  find_credential, authenticate_credential, authenticate_api_token, authenticate_browser_session,
}
use rustypaste.Store.Principals.{upsert_oidc_principal}
use rustypaste.Store.Principals.Listing
use rustypaste.Store.DeviceFlows.{get_device_flow_client_name}
use rustypaste.Store.Calls
use rustypaste.Store.Calls.{Call, run, run_all}
use rustypaste.Config.Claims.{allows}
use rustypaste.Auth.Request.{HttpRequest, from_store, Web, RequestAuth}
use rustypaste.Auth.Accepted.{from_store-db}
use rustypaste.Auth.Oidc.{
  or_else, authenticate_api, authenticate_session, authenticate_oidc_request,
}
use rustypaste.Store.OauthFlows.{consume_oauth_flow}
use rustypaste.AuthServer.Response.{AuthRuntime, OidcClient, OidcIdentity}
use rustypaste.AuthServer.Login.{
  CallbackInput, CallbackQuery, LoginQuery, oauth_flow_lifetime, open_login, finish_callback,
  matched_callback,
}
use rustypaste.AuthServer.Login
use rustypaste.AuthServer.Device
use rustypaste.AuthServer.Device.{poll_response, device_flow_lifetime, device_poll_interval}
use rustypaste.AuthServer.Admin
use rustypaste.AuthServer.Admin.{require_admin}
use rustypaste.AuthServer.Requests
use rustypaste.AuthServer.Requests.{AuthRequest, MayCall, serve, serve_all, LogsIn}
use rustypaste.Config.Claims
use rustypaste.AuthServer.Steps.{steps_rules}
use rustypaste.AuthServer.Refines.{Serves, one_call, only_reads}

module _ (runtime : AuthRuntime) where
  pub list_principals_steps :
      (auth : RequestAuth)
      → Serves runtime (Requests.list_principals auth) (Admin.list_principals auth)
  unfolding Admin.list_principals
  list_principals_steps auth =
      let list =
        only_reads runtime (Requests.list_principals auth) Listing.list_principals
          (λ db. unfold Listing.list_principals in refl) in
      search (steps_rules, list) depth 12

  pub verify_device_steps :
      (user_code : Text) (clock : Clock)
      → Serves runtime
          (Requests.verify_device user_code clock)
          (Device.verify_device runtime user_code clock)
  unfolding Device.verify_device get_device_flow_client_name
  verify_device_steps user_code clock =
      let read =
        only_reads runtime (Requests.verify_device user_code clock)
          (get_device_flow_client_name user_code clock) (λ db. ground arith) in
      search (steps_rules, read) depth 12

  module _ (oidc : OidcClient) (input : CallbackInput) (flow_cookie : Option Text)
      (query : CallbackQuery) where
    abbrev request : AuthRequest
    request = Requests.callback oidc input flow_cookie query

    open_login_steps :
        (callback_path return_to code nonce verifier : Text) (identity : OidcIdentity)
        → oidc.complete_login code nonce verifier ≡ some identity
        → Serves runtime request (open_login runtime input callback_path return_to identity)
    unfolding open_login run create_browser_session
    open_login_steps callback_path return_to code nonce verifier identity answered =
        let is_admin = Claims.is_admin runtime.authorization identity.claims in
        let upsert = λ (permitted : not (allows runtime.authorization identity.claims) ≡ false).
          one_call runtime request
            (upsert_oidc_principal identity.issuer identity.subject identity.email
              identity.display_name is_admin input.upserted)
            (Calls.login identity.issuer identity.subject identity.email identity.display_name
              is_admin input.upserted)
            (λ db. refl)
            (code, nonce, verifier, identity, answered, ground arith, refl, refl, refl) in
        let open_session = λ (id : ℕ).
          one_call runtime request
            (create_browser_session runtime.crypto runtime.store id input.random input.opened)
            (Calls.open_session id input.random input.opened) (λ db. refl) refl in
        search (steps_rules, upsert, open_session) depth 14

    finish_callback_steps :
        (callback_path state code : Text)
        → flow_cookie ≡ some state
        → Serves runtime request (finish_callback runtime oidc input callback_path state code)
    unfolding finish_callback run
    finish_callback_steps callback_path state code own =
        let consume =
          one_call runtime request (consume_oauth_flow runtime.crypto state input.consumed)
            (Calls.consume_oauth state input.consumed) (λ db. refl) own in
        let opens = λ (return_to nonce verifier : Text).
          open_login_steps callback_path return_to code nonce verifier in
        search (steps_rules, consume, opens) depth 14

    matched_callback_steps :
        (state : Text)
        → flow_cookie ≡ some state
        → Serves runtime request (matched_callback runtime oidc input state query)
    unfolding matched_callback
    matched_callback_steps state own =
        let finish = λ (path code : Text). finish_callback_steps path state code own in
        search (steps_rules, finish) depth 14

    own_state :
        (cookie state : Text)
        → flow_cookie ≡ some cookie
        → not (text_eq cookie state) ≡ false
        → flow_cookie ≡ some state
    own_state cookie state sent same = ground (arith, text_eq_iff cookie state)

    pub callback_steps :
        Serves runtime request (Login.callback runtime oidc input flow_cookie query)
    unfolding Login.callback
    callback_steps = search (steps_rules, matched_callback_steps, own_state) depth 14

  module _ (http : HttpRequest) (clock clock' : Clock) where
    abbrev extraction : AuthRequest
    extraction = Requests.extract http clock clock'

    lookup_steps :
        (table : CredentialTable) (secret : Text) (timeout : Duration) (time : Clock)
        → Serves runtime extraction
            (from_store (authenticate_credential runtime.crypto table secret timeout time))
    unfolding authenticate_credential run
    lookup_steps table secret timeout time = elim (Bool-cases (is_empty secret)) [
      | inl blank ↦
          only_reads runtime extraction
            (authenticate_credential runtime.crypto table secret timeout time) (λ db. ground arith)
      | inr given ↦ record {
        at = λ db. (
          Calls.use_found table timeout time (find_credential runtime.crypto table secret db) ∷ [],
          (tt, tt),
          unfold run_all in
              ground (
                arith,
                from_store-db (authenticate_credential runtime.crypto table secret timeout time) db,
              ),
        );
      }
    ]

    api_steps :
        (secret : Option Text)
        → Serves runtime extraction (authenticate_api runtime.crypto runtime.store secret clock)
    unfolding authenticate_api authenticate_api_token
    api_steps none = search steps_rules
    api_steps (some secret) =
        let look = lookup_steps api_token secret runtime.store.token_idle_timeout clock in
        search (steps_rules, look) depth 8

    session_steps :
        (secret : Option Text)
        → Serves runtime extraction
            (authenticate_session runtime.crypto runtime.store http runtime.server secret clock')
    unfolding authenticate_session authenticate_browser_session
    session_steps none = search steps_rules
    session_steps (some secret) =
        let look = lookup_steps browser_session secret runtime.store.session_idle_timeout clock' in
        search (steps_rules, look) depth 8

    or_else_steps :
        (o : Option RequestAuth) (m : Web RequestAuth)
        → Serves runtime extraction m
        → Serves runtime extraction (or_else o m)
    or_else_steps none m km = km
    or_else_steps (some auth) m km = search steps_rules

    pub extract_steps :
        Serves runtime extraction
          (authenticate_oidc_request runtime.crypto runtime.store http runtime.server clock clock')
    unfolding authenticate_oidc_request
    extract_steps = search (steps_rules, api_steps, session_steps, or_else_steps) depth 14
