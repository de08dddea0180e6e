-- ===== src/AuthServer/Refines.antt =====
-- src/auth_server.rs: the store calls of the endpoints that make at most one.
pub mod Session
pub mod Served
use rustypaste.Prelude.{
  ℕ, codes, ◌≡◌, refl, sym, Bool, true, false, not, Option, none, some, List, [], ◌∷◌, Text,
  text_eq, text_eq_iff, is_empty, Bool-cases, inl, inr, arith,
}
use rustypaste.Store.Base.{Crypto, AuthStore, Clock, Random, Result-cases}
use rustypaste.Store.Schema.{Db, Tx}
use rustypaste.Store.Credentials.{
  CredentialTable, browser_session, api_token, create_browser_session, revoke_browser_session,
  revoke_api_token,
}
use rustypaste.Store.Authenticate.{
  find_credential, authenticate_credential, authenticate_api_token, authenticate_browser_session,
}
use rustypaste.Store.Principals.Listing
use rustypaste.Store.Credentials
use rustypaste.Store.DeviceFlows.{
  start_device_flow, approve_device_flow, get_device_flow_client_name,
}
use rustypaste.Store.DeviceFlows.Poll.{
  DevicePoll, pending, slow_down, expired, authorized, consumed, poll_device_flow,
}
use rustypaste.Store.Calls
use rustypaste.Store.Calls.{Call, run, run_all}
use rustypaste.Config.Claims.{allows}
use rustypaste.Auth.Request.{
  answer, accepted, from_store, Web, RequestAuth, browser_secret, api_secret, principal_id,
  is_admin,
}
use rustypaste.Auth.Oidc.{authenticate_api, authenticate_session, authenticate_oidc_request}
use rustypaste.Store.OauthFlows.{store_oauth_flow, consume_oauth_flow}
use rustypaste.AuthServer.Response.{
  AuthRuntime, AuthorizationRequest, from_flow_store, from_flow_store, OidcClient, OidcIdentity,
}
use rustypaste.AuthServer.Login.{
  CallbackInput, LoginQuery, oauth_flow_lifetime, open_login, finish_callback, matched_callback,
}
use rustypaste.AuthServer.Login
use rustypaste.AuthServer.Device
use rustypaste.AuthServer.Device.{poll_response, device_flow_lifetime, device_poll_interval}
use rustypaste.AuthServer.Account
use rustypaste.AuthServer.Admin
use rustypaste.AuthServer.Admin.{require_admin}
use rustypaste.AuthServer.Requests
use rustypaste.AuthServer.Requests.{AuthRequest, MayCall, serve, serve_all, LogsIn}
use rustypaste.AuthServer.Steps.{
  Leads, Steps, Leads_refl, Leads_trans, Leads-run, Steps-answer, Steps-or_refuse, Steps-if,
  Steps-from_store, Steps-from_flow_store, Steps-bind, Steps-require, Steps-check, Steps-read,
  steps_rules,
}

module _ (runtime : AuthRuntime) where
  abbrev pub Serves : AuthRequest → {A : Type 0} → Web A → Type 0
  Serves request m =
      Steps runtime.crypto runtime.return_urls runtime.store (MayCall runtime request) m

  pub one_call :
      (request : AuthRequest) {A : Type 0} (m : Tx A) (c : Call)
      → ((db : Db) → (m db).1 ≡ run runtime.crypto runtime.return_urls runtime.store c db)
      → MayCall runtime request c
      → Serves request (from_store m)
  one_call request m c same may = Steps-from_store m c same may

  pub one_flow_call :
      (request : AuthRequest) {A : Type 0} (m : Tx A) (c : Call)
      → ((db : Db) → (m db).1 ≡ run runtime.crypto runtime.return_urls runtime.store c db)
      → MayCall runtime request c
      → Serves request (from_flow_store m)
  one_flow_call request m c same may = Steps-from_flow_store m c same may

  pub only_reads :
      (request : AuthRequest) {A : Type 0} (m : Tx A)
      → ((db : Db) → (m db).1 ≡ db)
      → Serves request (from_store m)
  only_reads request m same = Steps-read m same

  pub login_steps :
      (oidc : OidcClient) (query : LoginQuery) (clock : Clock)
      → Serves (Requests.login oidc query clock) (Login.login runtime oidc query clock)
  unfolding Login.login run
  login_steps oidc query clock =
      let store = λ (a : AuthorizationRequest) (return_to : Text).
        one_flow_call (Requests.login oidc query clock)
          (store_oauth_flow runtime.crypto runtime.return_urls a.state a.pkce_verifier a.nonce
            return_to oauth_flow_lifetime clock)
          (Calls.store_oauth a.state a.pkce_verifier a.nonce return_to oauth_flow_lifetime clock)
          (λ db. refl) tt in
      search (steps_rules, store) depth 12

  pub logout_steps :
      (auth : RequestAuth) (clock : Clock)
      → Serves (Requests.logout auth clock) (Account.logout runtime auth clock)
  unfolding Account.logout run revoke_browser_session
  logout_steps auth clock =
      let revoke = λ (secret : Text) (source : browser_secret auth ≡ some secret).
        one_call (Requests.logout auth clock) (revoke_browser_session runtime.crypto secret clock)
          (Calls.revoke browser_session secret clock) (λ db. refl) source in
      search (steps_rules, revoke) depth 12

  required_admin :
      (auth : RequestAuth) (u : Unit {0}) → require_admin auth ≡ accepted u → is_admin auth ≡ true
  unfolding require_admin
  required_admin auth u h = ground arith

  pub revoke_token_steps :
      (auth : RequestAuth) (clock : Clock)
      → Serves (Requests.revoke_token auth clock) (Account.revoke_token runtime auth clock)
  unfolding Account.revoke_token run revoke_api_token
  revoke_token_steps auth clock =
      let revoke = λ (secret : Text) (source : api_secret auth ≡ some secret).
        one_call (Requests.revoke_token auth clock) (revoke_api_token runtime.crypto secret clock)
          (Calls.revoke api_token secret clock) (λ db. refl) source in
      search (steps_rules, revoke) depth 12

  pub device_steps :
      (draws : ℕ → Random × Random) (name : Option Text) (clock : Clock)
      → Serves (Requests.device draws name clock) (Device.device runtime draws name clock)
  unfolding Device.device run
  device_steps draws name clock =
      let start = λ (client_name : Text).
        one_flow_call (Requests.device draws name clock)
          (start_device_flow runtime.crypto draws client_name device_flow_lifetime
            device_poll_interval clock)
          (Calls.start_device draws client_name device_flow_lifetime device_poll_interval clock)
          (λ db. refl) refl in
      search (steps_rules, start) depth 12

  pub approve_device_steps :
      (auth : RequestAuth) (user_code : Text) (clock : Clock)
      → Serves
          (Requests.approve_device auth user_code clock)
          (Device.approve_device auth user_code clock)
  unfolding Device.approve_device run
  approve_device_steps auth user_code clock =
      let approve = λ (id : ℕ) (own : principal_id auth ≡ some id).
        one_call (Requests.approve_device auth user_code clock)
          (approve_device_flow user_code id clock) (Calls.approve_device user_code id clock)
          (λ db. refl) own in
      search (steps_rules, approve) depth 12

  poll_response_steps :
      (request : AuthRequest) (poll : DevicePoll) (clock : Clock)
      → Serves request (poll_response poll clock)
  unfolding poll_response
  poll_response_steps request pending clock = search steps_rules
  poll_response_steps request slow_down clock = search steps_rules
  poll_response_steps request expired clock = search steps_rules
  poll_response_steps request consumed clock = search steps_rules
  poll_response_steps request (authorized principal credential) clock = search steps_rules depth 8

  pub device_token_steps :
      (device_code : Text) (random : Random) (clock clock' : Clock)
      → Serves
          (Requests.device_token device_code random clock clock')
          (Device.device_token runtime device_code random clock clock')
  unfolding Device.device_token run
  device_token_steps device_code random clock clock' =
      let request = Requests.device_token device_code random clock clock' in
      let label = some (codes "rustypaste-cli") in
      let poll =
        one_call request
          (poll_device_flow runtime.crypto runtime.store device_code label random clock)
          (Calls.poll_device device_code label random clock) (λ db. refl) refl in
      search (steps_rules, poll, poll_response_steps request) depth 12

  pub revoke_all_steps :
      (auth : RequestAuth) (id : ℕ) (clock : Clock)
      → Serves
          (Requests.revoke_principal_credentials auth id clock)
          (Admin.revoke_principal_credentials auth id clock)
  unfolding Admin.revoke_principal_credentials run
  revoke_all_steps auth id clock =
      let revoke = λ (admin : is_admin auth ≡ true).
        one_call (Requests.revoke_principal_credentials auth id clock)
          (Credentials.revoke_principal_credentials id clock) (Calls.revoke_all id clock)
          (λ db. refl) (admin, refl) in
      search (steps_rules, revoke, required_admin auth) depth 12
