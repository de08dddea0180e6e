-- ===== src/Auth/Oidc.antt =====
-- src/auth.rs: requests where OpenID Connect is configured.
use rustypaste.Prelude.{
  ℕ, Bool, true, false, ◌&&◌, ◌||◌, Option, none, some, [], ◌∷◌, ◌++◌, Text, text_eq, ◌==◌,
  if◌then◌else◌,
}
use rustypaste.Store.Base.{Crypto, AuthStore, Clock}
use rustypaste.Store.Credentials.{AuthenticatedPrincipal}
use rustypaste.Store.Authenticate.{authenticate_api_token, authenticate_browser_session}
use rustypaste.Auth.Request.{
  HttpRequest, HttpError, internal, unauthorized, forbidden, login_redirect, Reply, accepted,
  refused, Web, ◌>>=◌, answer, from_store, CredentialSource, browser, api, RequestAuth, is_safe,
  authorization_secret, is_browser_navigation,
}

-- What the program reads of a URL of the `url` crate; `port` is `port_or_known_default`.
pub record Url : Type 0 where
  pub scheme : Text
  pub host : Option Text
  pub port : Option ℕ
  pub path : Text

-- `Url::parse`, and the URL that the server is configured with.
pub record Runtime : Type 0 where
  pub parse : Text → Option Url
  pub server_url : Text

abbrev same_host : Option Text → Option Text → Bool
same_host none none = true
same_host (some a) (some b) = text_eq a b
same_host _ _ = false

abbrev same_port : Option ℕ → Option ℕ → Bool
same_port none none = true
same_port (some a) (some b) = a == b
same_port _ _ = false

abbrev pub same_origin : Url → Url → Bool
same_origin a b = text_eq a.scheme b.scheme && same_host a.host b.host && same_port a.port b.port

abbrev pub parse_header : (Text → Option Url) → Option Text → Option Url
parse_header parse none = none
parse_header parse (some value) = parse value

abbrev check_origins : Option Url → Option Url → Reply (Unit {0})
check_origins none actual = refused internal
check_origins (some expected) none = refused forbidden
check_origins (some expected) (some actual) =
    if same_origin expected actual then accepted tt else refused forbidden

unfoldable pub validate_cookie_origin : HttpRequest → Runtime → Reply (Unit {0})
validate_cookie_origin request runtime =
    if is_safe request.method
    then accepted tt
    else check_origins (runtime.parse runtime.server_url)
        (parse_header runtime.parse request.origin)

abbrev pub trim_end_slashes : Text → Text
trim_end_slashes [] = []
trim_end_slashes (c ∷ s) =
    let rest = trim_end_slashes s in
    elim rest [ [] ↦ if c == b'/' then [] else c ∷ [] | r ∷ rs ↦ c ∷ r ∷ rs ]

unfoldable pub public_path_prefix : Runtime → Text
public_path_prefix runtime = elim (runtime.parse runtime.server_url) [
  | none ↦ []
  | some url ↦ trim_end_slashes url.path
]

unfoldable pub external_return_to : HttpRequest → Runtime → Text
external_return_to request runtime = public_path_prefix runtime ++ request.path_and_query

-- The redirect of a navigation to `/auth/login` carries where the request went.
unfoldable pub unauthorized_request : HttpRequest → Runtime → HttpError
unauthorized_request request runtime =
    if is_browser_navigation request
    then login_redirect (external_return_to request runtime)
    else unauthorized

abbrev pub of_principal : CredentialSource → AuthenticatedPrincipal → RequestAuth
of_principal source a = record {
  principal = some a.principal;
  credential_id = some a.credential_id;
  expires_at = some a.expires_at;
  global_delete = a.principal.is_admin || a.principal.can_delete_all;
  source = source;
}

abbrev pub token_of : Text → Option AuthenticatedPrincipal → Option RequestAuth
token_of secret none = none
token_of secret (some a) = some (of_principal (api secret) a)

-- the first `if let` block, and what follows it
unfoldable pub authenticate_api :
    Crypto → AuthStore → Option Text → Clock → Web (Option RequestAuth)
authenticate_api crypto store none clock = answer (accepted none)
authenticate_api crypto store (some secret) clock =
    from_store (authenticate_api_token crypto store secret clock) >>= λ found.
    answer (accepted (token_of secret found))

abbrev pub session_of :
    HttpRequest → Runtime → Text → Option AuthenticatedPrincipal → Reply (Option RequestAuth)
session_of request runtime secret none = accepted none
session_of request runtime secret (some a) = elim (validate_cookie_origin request runtime) [
  | refused e ↦ refused e
  | accepted u ↦ accepted (some (of_principal (browser secret) a))
]

-- the second `if let` block
unfoldable pub authenticate_session :
    Crypto → AuthStore → HttpRequest → Runtime → Option Text → Clock → Web (Option RequestAuth)
authenticate_session crypto store request runtime none clock = answer (accepted none)
authenticate_session crypto store request runtime (some secret) clock =
    from_store (authenticate_browser_session crypto store secret clock) >>= λ found.
    answer (session_of request runtime secret found)

abbrev pub or_else : Option RequestAuth → Web RequestAuth → Web RequestAuth
or_else none m = m
or_else (some auth) m = answer (accepted auth)

-- Each of the two lookups reads the clock for itself.
unfoldable pub authenticate_oidc_request :
    Crypto → AuthStore → HttpRequest → Runtime → (clock clock' : Clock) → Web RequestAuth
authenticate_oidc_request crypto store request runtime clock clock' =
    authenticate_api crypto store (authorization_secret request) clock >>= λ by_token.
    or_else by_token (
      authenticate_session crypto store request runtime request.session_cookie clock'
      >>= λ by_cookie. or_else by_cookie (answer (refused (unauthorized_request request runtime))))
