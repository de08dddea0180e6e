-- ===== src/AuthServer/Account.antt =====
-- src/auth_server.rs: the identity of a request, and the endpoints that end its credential.
use rustypaste.Prelude.{ℕ, Option, none, some, [], ◌∷◌, Text}
use rustypaste.Store.Base.{Clock}
use rustypaste.Store.Principals.{Principal, as_str}
use rustypaste.Store.Credentials.{revoke_browser_session, revoke_api_token}
use rustypaste.Auth.Cookies.{removal_cookie}
use rustypaste.Auth.Request.{
  unauthorized, bad_request, Reply, accepted, refused, Web, ◌>>=◌, answer, from_store, if_some,
  RequestAuth, browser_secret, api_secret,
}
use rustypaste.AuthServer.Response.{
  empty_body, identity_body, IdentityResponse, HttpResponse, respond, AuthRuntime, or_refuse,
}

abbrev or_else : Option Text → Option Text → Option Text
or_else none o = o
or_else (some s) o = some s

unfoldable pub identity_response :
    Principal → (credential_id expires_at : Option ℕ) → IdentityResponse
identity_response principal credential_id expires_at = record {
  principal_id = principal.id;
  kind = as_str principal.kind;
  issuer = principal.issuer;
  subject = principal.subject;
  name = or_else principal.display_name principal.stable_name;
  email = principal.email;
  is_admin = principal.is_admin;
  credential_id = credential_id;
  expires_at = expires_at;
}

unfoldable pub me : RequestAuth → Reply HttpResponse
me auth = elim auth.principal [
  | none ↦ refused unauthorized
  | some principal ↦
      accepted (
        respond 200
          (identity_body (identity_response principal auth.credential_id auth.expires_at)))
]

abbrev signed_out : AuthRuntime → HttpResponse
signed_out runtime = record {
  status = 204;
  location = none;
  cookies = removal_cookie runtime.cookies runtime.server ∷ [];
  body = empty_body;
}

unfoldable pub logout : AuthRuntime → RequestAuth → Clock → Web HttpResponse
logout runtime auth clock =
    if_some (browser_secret auth) (answer (accepted (signed_out runtime))) λ secret.
      from_store (revoke_browser_session runtime.crypto secret clock) >>= λ revoked.
      answer (accepted (signed_out runtime))

unfoldable pub revoke_token : AuthRuntime → RequestAuth → Clock → Web HttpResponse
revoke_token runtime auth clock = or_refuse bad_request (api_secret auth) >>= λ secret.
    from_store (revoke_api_token runtime.crypto secret clock) >>= λ revoked.
    answer (accepted (respond 204 empty_body))
