-- ===== src/AuthServer/Login.antt =====
-- src/auth_server.rs: `login` and `callback`.
use rustypaste.Prelude.{
  Bool, true, false, not, Option, none, some, [], ◌∷◌, ◌++◌, Text, codes, text_eq, ltb, utf8_len,
  if◌then◌else◌,
}
use rustypaste.Store.Base.{Duration, Clock, Random, i64_max, i64_try_from}
use rustypaste.Store.Principals.{upsert_oidc_principal}
use rustypaste.Store.Credentials.{create_browser_session}
use rustypaste.Store.OauthFlows.{store_oauth_flow, consume_oauth_flow}
use rustypaste.Config.Claims.{allows, is_admin}
use rustypaste.Auth.Request.{
  internal, unauthorized, forbidden, bad_request, Reply, accepted, refused, Web, ◌>>=◌, answer,
  from_store, if_some,
}
use rustypaste.Auth.Oidc.{Runtime, trim_end_slashes}
use rustypaste.Auth.Cookies.{Cookie, lax, make_removal, unwrap_or, session_cookie}
use rustypaste.AuthServer.Response.{
  text_body, empty_body, HttpResponse, AuthorizationRequest, OidcIdentity, OidcClient, AuthRuntime,
  from_flow_store, or_refuse,
}

abbrev pub oauth_flow_lifetime : Duration
oauth_flow_lifetime = record { as_secs = 600; subsec_nanos = 0 }

abbrev pub oauth_flow_cookie_name : Text
oauth_flow_cookie_name = codes "rustypaste_oauth_state"

pub record LoginQuery : Type 0 where
  pub return_to : Option Text

pub record CallbackQuery : Type 0 where
  pub code : Option Text
  pub state : Option Text
  pub error : Option Text
  pub error_description : Option Text

unfoldable pub oauth_flow_cookie :
    (state : Text) → (secure : Bool) → (callback_path : Text) → Cookie
oauth_flow_cookie state secure callback_path = record {
  name = oauth_flow_cookie_name;
  value = state;
  path = callback_path;
  http_only = true;
  secure = secure;
  same_site = lax;
  max_age = unwrap_or i64_max (i64_try_from oauth_flow_lifetime.as_secs);
  removes = false;
}

unfoldable pub removal_oauth_flow_cookie : (secure : Bool) → (callback_path : Text) → Cookie
unfolding oauth_flow_cookie
removal_oauth_flow_cookie secure callback_path =
    make_removal (oauth_flow_cookie [] secure callback_path)

unfoldable pub oauth_callback_path : Runtime → Reply Text
oauth_callback_path server = elim (server.parse server.server_url) [
  | none ↦ refused internal
  | some url ↦ accepted (trim_end_slashes url.path ++ codes "/auth/callback")
]

abbrev text_or : Text → Option Text → Text
text_or d none = d
text_or d (some s) = s

abbrev to_login : AuthRuntime → AuthorizationRequest → Text → HttpResponse
to_login runtime authorization callback_path = record {
  status = 302;
  location = some authorization.url;
  cookies = oauth_flow_cookie authorization.state runtime.cookies.secure_cookies callback_path ∷ [];
  body = empty_body;
}

unfoldable pub login : AuthRuntime → OidcClient → LoginQuery → Clock → Web HttpResponse
login runtime oidc query clock =
    let return_to = text_or (codes "/") query.return_to in
    if ltb 2048 (utf8_len return_to)
    then answer (refused bad_request)
    else or_refuse internal oidc.authorization_request >>= λ authorization.
        from_flow_store (
          store_oauth_flow runtime.crypto runtime.return_urls authorization.state
            authorization.pkce_verifier authorization.nonce return_to oauth_flow_lifetime clock)
        >>= λ expires_at. answer (oauth_callback_path runtime.server) >>= λ callback_path.
            answer (accepted (to_login runtime authorization callback_path))

-- What `callback` reads of the clock and draws: the time of each of its three store calls, and the
-- randomness of the session's secret.
pub record CallbackInput : Type 0 where
  pub consumed : Clock
  pub upserted : Clock
  pub opened : Clock
  pub random : Random

abbrev provider_failed : AuthRuntime → Text → CallbackQuery → Text → HttpResponse
provider_failed runtime callback_path query error = record {
  status = 401;
  location = none;
  cookies = removal_oauth_flow_cookie runtime.cookies.secure_cookies callback_path ∷ [];
  body = text_body (codes "OIDC authorization failed: " ++ text_or error query.error_description);
}

abbrev pub logged_in : AuthRuntime → (callback_path return_to secret : Text) → HttpResponse
logged_in runtime callback_path return_to secret = record {
  status = 302;
  location = some return_to;
  cookies =
      session_cookie runtime.cookies runtime.server secret
      ∷ removal_oauth_flow_cookie runtime.cookies.secure_cookies callback_path
      ∷ [];
  body = empty_body;
}

-- `callback` from the completion of the login on: the claims, the principal and its session
unfoldable pub open_login :
    AuthRuntime → CallbackInput → (callback_path return_to : Text) → OidcIdentity → Web HttpResponse
open_login runtime input callback_path return_to identity =
    if not (allows runtime.authorization identity.claims)
    then answer (refused forbidden)
    else from_store (
        upsert_oidc_principal identity.issuer identity.subject identity.email identity.display_name
          (is_admin runtime.authorization identity.claims) input.upserted)
      >>= λ principal.
          from_store (
            create_browser_session runtime.crypto runtime.store principal.id input.random
              input.opened)
          >>= λ session.
              answer (accepted (logged_in runtime callback_path return_to session.secret))

-- `callback` once the state is that of the browser and the provider has answered a code
unfoldable pub finish_callback :
    AuthRuntime → OidcClient → CallbackInput → (callback_path state code : Text) → Web HttpResponse
finish_callback runtime oidc input callback_path state code =
    from_store (consume_oauth_flow runtime.crypto state input.consumed) >>= λ found.
    or_refuse bad_request found >>= λ flow.
    or_refuse unauthorized (oidc.complete_login code flow.nonce flow.code_verifier) >>= λ identity.
    open_login runtime input callback_path flow.return_to identity

-- `callback` once the state is that of the browser
unfoldable pub matched_callback :
    AuthRuntime → OidcClient → CallbackInput → (state : Text) → CallbackQuery → Web HttpResponse
matched_callback runtime oidc input state query =
    answer (oauth_callback_path runtime.server) >>= λ callback_path.
    if_some query.error
      (or_refuse bad_request query.code >>= λ code.
        finish_callback runtime oidc input callback_path state code)
      λ error. answer (accepted (provider_failed runtime callback_path query error))

-- The request's cookie of the login stands here where it has one.
unfoldable pub callback :
    AuthRuntime
    → OidcClient
    → CallbackInput
    → (flow_cookie : Option Text) → CallbackQuery
    → Web HttpResponse
callback runtime oidc input flow_cookie query = or_refuse bad_request query.state >>= λ state.
    or_refuse bad_request flow_cookie >>= λ cookie_state.
    if not (text_eq cookie_state state)
    then answer (refused bad_request)
    else matched_callback runtime oidc input state query
