-- ===== src/AuthServer/Requests.antt =====
-- src/auth_server.rs: the requests that the endpoints under /auth serve, one data type for
-- `configure_routes`, and the store calls that each may make.
use rustypaste.Prelude.{ℕ, ◌≡◌, Bool, true, false, Option, some, List, [], ◌∷◌, Text}
use rustypaste.Store.Base.{Clock, Random}
use rustypaste.Store.Schema.{Db}
use rustypaste.Store.Credentials.{browser_session, api_token}
use rustypaste.Store.Calls
use rustypaste.Store.Calls.{Call, run_all}
use rustypaste.Config.Claims
use rustypaste.Config.Claims.{allows}
use rustypaste.Auth.Request.{
  HttpRequest, Reply, accepted, refused, Web, ◌>>=◌, answer, RequestAuth, principal_id,
  browser_secret, api_secret,
}
use rustypaste.Auth.Request
use rustypaste.Auth.Oidc.{authenticate_oidc_request}
use rustypaste.AuthServer.Response.{OidcIdentity, OidcClient, AuthRuntime}
use rustypaste.AuthServer.Login
use rustypaste.AuthServer.Device
use rustypaste.AuthServer.Account
use rustypaste.AuthServer.Admin

-- `RequestAuth` of a handler is what its extractor, a request of its own here, has answered.
pub data AuthRequest : Type 0 where
  extract : HttpRequest → (clock clock' : Clock) → AuthRequest
  login : OidcClient → Login.LoginQuery → Clock → AuthRequest
  callback :
      OidcClient
      → Login.CallbackInput
      → (flow_cookie : Option Text) → Login.CallbackQuery
      → AuthRequest
  me : RequestAuth → AuthRequest
  logout : RequestAuth → Clock → AuthRequest
  revoke_token : RequestAuth → Clock → AuthRequest
  device : (draws : ℕ → Random × Random) → (client_name : Option Text) → Clock → AuthRequest
  verify_device : (user_code : Text) → Clock → AuthRequest
  approve_device : RequestAuth → (user_code : Text) → Clock → AuthRequest
  device_token : (device_code : Text) → Random → (clock clock' : Clock) → AuthRequest
  list_principals : RequestAuth → AuthRequest
  revoke_principal_credentials : RequestAuth → (id : ℕ) → Clock → AuthRequest

-- The database once a request has been served.
unfoldable pub serve : AuthRuntime → AuthRequest → Db → Db
serve runtime (extract request clock clock') db =
    (authenticate_oidc_request runtime.crypto runtime.store request runtime.server clock clock'
      db).1
serve runtime (login oidc query clock) db = (Login.login runtime oidc query clock db).1
serve runtime (callback oidc input flow_cookie query) db =
    (Login.callback runtime oidc input flow_cookie query db).1
serve runtime (me auth) db = (answer (Account.me auth) db).1
serve runtime (logout auth clock) db = (Account.logout runtime auth clock db).1
serve runtime (revoke_token auth clock) db = (Account.revoke_token runtime auth clock db).1
serve runtime (device draws client_name clock) db =
    (Device.device runtime draws client_name clock db).1
serve runtime (verify_device user_code clock) db =
    (Device.verify_device runtime user_code clock db).1
serve runtime (approve_device auth user_code clock) db =
    (Device.approve_device auth user_code clock db).1
serve runtime (device_token device_code random clock clock') db =
    (Device.device_token runtime device_code random clock clock' db).1
serve runtime (list_principals auth) db = (Admin.list_principals auth db).1
serve runtime (revoke_principal_credentials auth id clock) db =
    (Admin.revoke_principal_credentials auth id clock db).1

unfoldable pub serve_all : AuthRuntime → List AuthRequest → Db → Db
serve_all runtime [] db = db
serve_all runtime (r ∷ rs) db = serve_all runtime rs (serve runtime r db)

abbrev Never : Type 0
Never = true ≡ false

-- The identity that a login answered, for the call that stores its principal.
abbrev pub LogsIn :
    AuthRuntime
    → OidcClient
    → (issuer subject : Text) (email display_name : Option Text) (is_admin : Bool) → Type 0
LogsIn runtime oidc issuer subject email display_name is_admin =
    (code nonce verifier : Text) × (identity : OidcIdentity) × (oidc.complete_login code nonce
        verifier
      ≡ some identity)
    × (allows runtime.authorization identity.claims ≡ true)
    × (issuer ≡ identity.issuer)
    × (subject ≡ identity.subject)
    × (is_admin ≡ Claims.is_admin runtime.authorization identity.claims)

-- The calls that a request may make, by what the request is entitled to.
abbrev pub MayCall : AuthRuntime → AuthRequest → Call → Type 0
MayCall runtime (extract request a b) (Calls.use_found table timeout clock found) = Unit
MayCall runtime (login oidc query a) (Calls.store_oauth b c d e f g) = Unit
MayCall runtime (callback oidc input flow_cookie query) (Calls.consume_oauth state clock) =
    flow_cookie ≡ some state
MayCall runtime (callback oidc input flow_cookie query)
      (Calls.login issuer subject email display_name is_admin clock) =
    LogsIn runtime oidc issuer subject email display_name is_admin
MayCall runtime (callback oidc input flow_cookie query) (Calls.open_session id random clock) =
    random ≡ input.random
MayCall runtime (logout auth a) (Calls.revoke browser_session secret clock) =
    browser_secret auth ≡ some secret
MayCall runtime (revoke_token auth a) (Calls.revoke api_token secret clock) =
    api_secret auth ≡ some secret
MayCall runtime (device draws client_name a) (Calls.start_device draws' b c d e) = draws' ≡ draws
MayCall runtime (approve_device auth user_code a) (Calls.approve_device user_code' id clock) =
    principal_id auth ≡ some id
MayCall runtime (device_token device_code a b c) (Calls.poll_device device_code' label d e) =
    device_code' ≡ device_code
MayCall runtime (revoke_principal_credentials auth id a) (Calls.revoke_all id' clock) =
    (Request.is_admin auth ≡ true) × (id' ≡ id)
MayCall runtime request call = Never
