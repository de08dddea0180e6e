-- ===== src/AuthServer/Sessions.antt =====
-- src/auth_server.rs: logins and logouts over requests, from the invariants of the store's calls.
use rustypaste.Prelude.{
  ℕ, ◌≡◌, sym, ap, ◌∙◌, Bool, true, Option, none, some, List, Text, All, inl, inr, arith,
}
use rustypaste.Store.Base.{Clock, Random, Result-cases, ok}
use rustypaste.Store.Schema.{Db, empty_db}
use rustypaste.Store.Principals.{Principal}
use rustypaste.Store.Credentials.{IssuedCredential, revoke_browser_session}
use rustypaste.Store.Credentials.Revoked.{OtherHash, revoked_session_rejected}
use rustypaste.Store.Credentials.Rows.{MakesFresh}
use rustypaste.Store.Credentials.Sessions.{Opens}
use rustypaste.Store.Authenticate.{authenticate_browser_session}
use rustypaste.Store.DeviceFlows.Poll.{authorized, poll_device_flow}
use rustypaste.Store.DeviceFlows.Approval.{ApprovesFor, delivered_to_approver}
use rustypaste.Store.Calls
use rustypaste.Store.Calls.{Call, run_all}
use rustypaste.Auth.Request.{
  HttpRequest, accepted, refused, browser, RequestAuth, principal_id, browser_secret,
  authorization_secret,
}
use rustypaste.Auth.Oidc.{
  unauthorized_request, authenticate_api, authenticate_session, authenticate_oidc_request,
}
use rustypaste.AuthServer.Response.{HttpResponse, AuthRuntime}
use rustypaste.AuthServer.Account.{logout}
use rustypaste.AuthServer.Requests.{AuthRequest, callback, approve_device, MayCall, serve_all}
use rustypaste.AuthServer.Refines.Served.{requests_reach}

abbrev good_approver : (ℕ → Bool) → RequestAuth → Bool
good_approver good auth = elim (principal_id auth) [ none ↦ true | some id ↦ good id ]

-- An approval is by an identity whose principal, where it has one, is `good`.
abbrev pub ApprovesAs : (ℕ → Bool) → AuthRequest → Type 0
ApprovesAs good (approve_device auth user_code clock) = good_approver good auth ≡ true
ApprovesAs good _ = Unit

approved_as :
    (runtime : AuthRuntime) (good : ℕ → Bool) (request : AuthRequest) (user_code : Text) (id : ℕ)
    (clock : Clock)
    → ApprovesAs good request
    → MayCall runtime request (Calls.approve_device user_code id clock)
    → good id ≡ true
approved_as runtime good (approve_device auth a b) user_code id clock approves may = ground arith
approved_as runtime good _ user_code id clock approves may = absurd (ground arith)

may_approve :
    (runtime : AuthRuntime) (good : ℕ → Bool) (request : AuthRequest) (c : Call)
    → ApprovesAs good request
    → MayCall runtime request c
    → ApprovesFor good c
may_approve runtime good request (Calls.approve_device code id time) approves may =
    approved_as runtime good request code id time approves may
may_approve runtime good request _ approves may = tt

-- The session secret that a callback draws makes no digest of `hash`.
abbrev pub DrawsOther : AuthRuntime → List ℕ → AuthRequest → Type 0
DrawsOther runtime hash (callback oidc input flow_cookie query) =
    MakesFresh runtime.crypto (OtherHash hash) 0 input.random
DrawsOther runtime hash _ = Unit

opened_with :
    (runtime : AuthRuntime) (hash : List ℕ) (request : AuthRequest) (id : ℕ) (random : Random)
    (clock : Clock)
    → DrawsOther runtime hash request
    → MayCall runtime request (Calls.open_session id random clock)
    → MakesFresh runtime.crypto (OtherHash hash) id random
opened_with runtime hash (callback oidc input a b) id random clock draws may =
    λ secret made. draws secret (ground arith)
opened_with runtime hash _ id random clock draws may = absurd (ground arith)

may_open :
    (runtime : AuthRuntime) (hash : List ℕ) (request : AuthRequest) (c : Call)
    → DrawsOther runtime hash request
    → MayCall runtime request c
    → Opens runtime.crypto (OtherHash hash) c
may_open runtime hash request (Calls.open_session id random clock) draws may =
    opened_with runtime hash request id random clock draws may
may_open runtime hash request _ draws may = tt

module _ (runtime : AuthRuntime) where
  -- From an empty database, after any requests under /auth whose approvals of a command line login are
  -- by identities that have no principal or one with `good`, a poll that delivers a token delivers it
  -- for a principal with `good`.
  pub delivered_to_requester :
      (good : ℕ → Bool) (requests : List AuthRequest) (code : Text) (label : Option Text)
      (random : Random) (clock : Clock) (p : Principal) (c : IssuedCredential)
      → All (ApprovesAs good) requests
      → (poll_device_flow runtime.crypto runtime.store code label random clock
          (serve_all runtime requests empty_db)).0
        ≡ ok (authorized p c)
      → good p.id ≡ true
  delivered_to_requester good requests code label random clock p c approve delivered =
      let (calls, approved, same) =
        requests_reach runtime (ApprovesAs good) (ApprovesFor good) (may_approve runtime good)
          requests empty_db approve in
      delivered_to_approver good runtime.crypto runtime.return_urls runtime.store calls code label
        random clock p c approved
        (ap (λ db. (poll_device_flow runtime.crypto runtime.store code label random clock db).0)
            (sym same)
          ∙ delivered)

  logout_revokes :
      (auth : RequestAuth) (secret : Text) (clock : Clock) (db : Db) (response : HttpResponse)
      → auth.source ≡ browser secret
      → (logout runtime auth clock db).0 ≡ accepted response
      → (b : Bool) × ((revoke_browser_session runtime.crypto secret clock db).0 ≡ ok b)
        × ((logout runtime auth clock db).1
            ≡ (revoke_browser_session runtime.crypto secret clock db).1)
  unfolding logout browser_secret
  logout_revokes auth secret clock db response source h =
      elim (Result-cases (revoke_browser_session runtime.crypto secret clock db).0) [
        | inl (b, e) ↦ (b, e, ground arith)
        | inr (e, failed) ↦ absurd (ground arith)
      ]

  session_gone :
      (http : HttpRequest) (secret : Text) (clock clock' : Clock) (db : Db)
      → http.authorization ≡ none
      → http.session_cookie ≡ some secret
      → (authenticate_browser_session runtime.crypto runtime.store secret clock' db).0 ≡ ok none
      → (authenticate_oidc_request runtime.crypto runtime.store http runtime.server clock clock'
          db).0
        ≡ refused (unauthorized_request http runtime.server)
  unfolding authenticate_oidc_request authenticate_api authenticate_session authorization_secret
  session_gone http secret clock clock' db bare cookie gone = ground arith

  -- Once a logout of a browser session is accepted, then after any requests under /auth, none of which
  -- draws a session secret with the same digest, a request with the session's cookie and no
  -- Authorization header is refused as unauthorized, or sent to the login.
  pub logged_out_stays_out :
      (auth : RequestAuth) (secret : Text) (clock : Clock) (db : Db) (response : HttpResponse)
      (requests : List AuthRequest) (http : HttpRequest) (clock' clock'' : Clock)
      → auth.source ≡ browser secret
      → (logout runtime auth clock db).0 ≡ accepted response
      → All (DrawsOther runtime (runtime.crypto.sha256 secret)) requests
      → http.authorization ≡ none
      → http.session_cookie ≡ some secret
      → (authenticate_oidc_request runtime.crypto runtime.store http runtime.server clock' clock''
          (serve_all runtime requests (logout runtime auth clock db).1)).0
        ≡ refused (unauthorized_request http runtime.server)
  logged_out_stays_out auth secret clock db response requests http clock' clock'' source out draws
        bare cookie =
      let hash = runtime.crypto.sha256 secret in
      let (b, revoked, left) = logout_revokes auth secret clock db response source out in
      let (calls, opened, same) =
        requests_reach runtime (DrawsOther runtime hash) (Opens runtime.crypto (OtherHash hash))
          (may_open runtime hash) requests (logout runtime auth clock db).1 draws in
      let rejected =
        revoked_session_rejected runtime.crypto runtime.return_urls runtime.store secret clock
          clock'' db b calls revoked opened in
      session_gone http secret clock' clock'' _ bare cookie (
        ap (λ d. (authenticate_browser_session runtime.crypto runtime.store secret clock'' d).0)
          (same ∙ ap (run_all runtime.crypto runtime.return_urls runtime.store calls) left)
        ∙ rejected)
