-- ===== src/AuthServer/Response.antt =====
-- src/auth_server.rs: what the endpoints answer with, and what they share.
use rustypaste.Prelude.{ℕ, Bool, Option, none, some, List, [], Text, codes, String}
use rustypaste.Store.Base.{
  StoreError, capacity_exceeded, invalid_input, ok, err, Crypto, AuthStore, Clock, unix_now,
}
use rustypaste.Store.Schema.{Tx}
use rustypaste.Store.OauthFlows.{ReturnUrls}
use rustypaste.Config.Claims.{Claims, AuthorizationConfig}
use rustypaste.Auth.Request.{
  HttpError, internal, bad_request, too_many_requests, Reply, accepted, refused, Web,
}
use rustypaste.Auth.Oidc.{Runtime}
use rustypaste.Auth.Cookies.{Cookie, CookieConfig}

pub record DeviceResponse : Type 0 where
  pub device_code : Text
  pub user_code : Text
  pub verification_uri : Text
  pub verification_uri_complete : Text
  pub expires_in : ℕ
  pub interval : ℕ

pub record DeviceTokenResponse : Type 0 where
  pub access_token : Text
  pub token_type : Text
  pub expires_in : ℕ
  pub credential_id : ℕ

pub record OAuthErrorResponse : Type 0 where
  pub error : Text
  pub error_description : Text

pub record IdentityResponse : Type 0 where
  pub principal_id : ℕ
  pub kind : Text
  pub issuer : Option Text
  pub subject : Option Text
  pub name : Option Text
  pub email : Option Text
  pub is_admin : Bool
  pub credential_id : Option ℕ
  pub expires_at : Option ℕ

pub data Body : Type 0 where
  empty_body : Body
  text_body html_body : Text → Body
  device_body : DeviceResponse → Body
  token_body : DeviceTokenResponse → Body
  oauth_error_body : OAuthErrorResponse → Body
  identity_body : IdentityResponse → Body
  identities_body : List IdentityResponse → Body
  revoked_body : ℕ → Body

pub record HttpResponse : Type 0 where
  pub status : ℕ
  pub location : Option Text
  pub cookies : List Cookie
  pub body : Body

abbrev pub respond : ℕ → Body → HttpResponse
respond status body = record { status = status; location = none; cookies = []; body = body }

-- What the provider's client makes for a login, and what it answers at the end of one.
pub record AuthorizationRequest : Type 0 where
  pub url : Text
  pub state : Text
  pub nonce : Text
  pub pkce_verifier : Text

pub record OidcIdentity : Type 0 where
  pub issuer : Text
  pub subject : Text
  pub email : Option Text
  pub display_name : Option Text
  pub claims : Claims

-- The two operations of `OidcClient` that the endpoints call: what the one draws for a request, and
-- what the other gets from the provider for a code, a nonce and a verifier.
pub record OidcClient : Type 0 where
  pub authorization_request : Option AuthorizationRequest
  pub complete_login : (code nonce pkce_verifier : Text) → Option OidcIdentity

-- `AuthRuntime`, and the parts of the crates that its store and its addresses call.
pub record AuthRuntime : Type 0 where
  pub crypto : Crypto
  pub store : AuthStore
  pub return_urls : ReturnUrls
  pub server : Runtime
  pub cookies : CookieConfig
  pub authorization : AuthorizationConfig
  pub append_pair : (key value : Text) → Text

unfoldable pub map_flow_store_error : StoreError → HttpError
map_flow_store_error (capacity_exceeded message) = too_many_requests
map_flow_store_error (invalid_input message) = bad_request
map_flow_store_error other = internal

-- `map_err(map_flow_store_error)?`
abbrev pub from_flow_store : {A : Type 0} → Tx A → Web A
from_flow_store m db = elim (m db).0 [
  | ok a ↦ (accepted a, (m db).1)
  | err e ↦ (refused (map_flow_store_error e), (m db).1)
]

-- `ok_or_else(...)?`
abbrev pub or_refuse : {A : Type 0} → HttpError → Option A → Web A
or_refuse e none db = (refused e, db)
or_refuse e (some a) db = (accepted a, db)

unfoldable pub unix_seconds : Clock → Reply ℕ
unix_seconds clock = elim (unix_now clock) [ ok n ↦ accepted n | err e ↦ refused internal ]

unfoldable pub oauth_error : (error_code description : String) → HttpResponse
oauth_error error_code description =
    respond 400 (
      oauth_error_body (record { error = codes error_code; error_description = codes description }))
