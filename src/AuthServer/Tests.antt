-- ===== src/AuthServer/Tests.antt =====
-- Examples of src/auth_server.rs: a browser logs in by its provider.
use rustypaste.Prelude.{
  ℕ, ◌<◌, count_where, arith, ◌≡◌, refl, true, none, some, List, [], ◌∷◌, ◌++◌, Text, codes, all,
}
use rustypaste.Store.Base.{ok, unix_now, duration_seconds, expiry_from, generate_secret}
use rustypaste.Store.Schema.{Db, empty_db}
use rustypaste.Store.Principals.{upsert_oidc_principal, upsert, from_str, principal_from_row}
use rustypaste.Store.Credentials.{
  create_browser_session, create_credential, store_credential, insert_credential, prune_credentials,
  prune_rows, kept_ids, browser_session, is_bounded,
}
use rustypaste.Store.OauthFlows.{
  validate_return_to, is_suspicious, insert_flow, admit_oauth, store_oauth_flow, consume_oauth_flow,
}
use rustypaste.Store.Tests.{crypto, self, urls, hour, secret_a}
use rustypaste.Config.Claims.{array, one, allows, matches, claim_matches, is_admin}
use rustypaste.Auth.Request.{bad_request, accepted, refused}
use rustypaste.Auth.Oidc.{public_path_prefix}
use rustypaste.Auth.Cookies.{session_cookie, public_cookie_path}
use rustypaste.AuthServer.Response.{OidcIdentity, OidcClient, AuthRuntime, HttpResponse}
use rustypaste.AuthServer.Login.{
  CallbackQuery, CallbackInput, oauth_flow_cookie, removal_oauth_flow_cookie, oauth_callback_path,
  logged_in, login, open_login, finish_callback, matched_callback, callback,
}
use rustypaste.AuthServer.Requests
use rustypaste.AuthServer.Requests.{AuthRequest, MayCall, serve, serve_all}
use rustypaste.AuthServer.Opened.{OpensForLogin, redirected-OpensFor}
use rustypaste.AuthServer.Callback.{IsAuthorized, redirected-IsAuthorized}
use rustypaste.AuthServer.Refines.Served.{Reaches, serve_is_calls}
use rustypaste.AuthServer.Redirect.{IsToValid, redirected-IsToValid}
use rustypaste.AuthServer.Escape.{html_escape, escape_each, is_inert, html_escape-escape_each}

abbrev server_url : Text
server_url = codes "https://paste.example"

abbrev pub runtime : AuthRuntime
runtime = record {
  crypto = crypto;
  store = self;
  return_urls = urls;
  server = record {
    parse = λ s. some (record {
      scheme = codes "https";
      host = some (codes "paste.example");
      port = some 443;
      path = codes "/";
    });
    server_url = server_url;
  };
  cookies = record { secure_cookies = true; session_idle_timeout = hour };
  authorization = record {
    required_claims = (codes "groups", one (codes "staff")) ∷ [];
    admin_claims = (codes "groups", one (codes "admins")) ∷ [];
  };
  append_pair = λ key value. key ++ b'=' ∷ value;
}

abbrev identity : OidcIdentity
identity = record {
  issuer = codes "https://id.example";
  subject = codes "alice";
  email = none;
  display_name = none;
  claims = (codes "groups", array (some (codes "staff") ∷ [])) ∷ [];
}

abbrev pub client : OidcClient
client = record {
  authorization_request = some (record {
    url = codes "https://id.example/authorize";
    state = codes "state";
    nonce = codes "nonce";
    pkce_verifier = codes "verifier";
  });
  complete_login = λ code nonce verifier. some identity;
}

abbrev pub to_login : List AuthRequest
to_login = Requests.login client (record { return_to = some (codes "/list") }) (some 1000) ∷ []

abbrev waiting : Db
waiting = serve_all runtime to_login empty_db

abbrev pub input : CallbackInput
input = record { consumed = some 1010; upserted = some 1010; opened = some 1010; random = secret_a }

abbrev pub query : CallbackQuery
query = record {
  code = some (codes "code");
  state = some (codes "state");
  error = none;
  error_description = none;
}

abbrev response : HttpResponse
response = logged_in runtime (codes "/auth/callback") (codes "/list") (codes "secret-a")

logs_in : (callback runtime client input (some (codes "state")) query waiting).0 ≡ accepted response
unfolding serve serve_all login store_oauth_flow admit_oauth insert_flow validate_return_to
    is_suspicious unix_now duration_seconds expiry_from oauth_callback_path oauth_flow_cookie
    callback matched_callback finish_callback consume_oauth_flow open_login allows matches
    claim_matches is_admin upsert_oidc_principal upsert from_str principal_from_row
    create_browser_session create_credential generate_secret store_credential insert_credential
    prune_credentials prune_rows kept_ids session_cookie public_cookie_path public_path_prefix
    removal_oauth_flow_cookie
logs_in = refl

-- A state that is not that of the browser's cookie is refused.
other_browser :
    (callback runtime client input (some (codes "other")) query waiting).0 ≡ refused bad_request
unfolding callback
other_browser = refl

redirected-IsAuthorized_example :
    IsAuthorized runtime client input (some (codes "state")) query waiting response
redirected-IsAuthorized_example =
    redirected-IsAuthorized runtime client input (some (codes "state")) query waiting response
      logs_in refl

no_sessions : waiting.browser_sessions.rows ≡ []
unfolding serve serve_all login store_oauth_flow admit_oauth insert_flow validate_return_to
    is_suspicious unix_now duration_seconds expiry_from oauth_callback_path oauth_flow_cookie
no_sessions = refl

few_sessions :
    (id : ℕ) → count_where (is_bounded browser_session id 1010) waiting.browser_sessions.rows < 32
few_sessions id = ground (arith, no_sessions)

opened_at : unix_now input.opened ≡ ok 1010
unfolding unix_now
opened_at = refl

redirected-OpensFor_example :
    (state : Text) × (query.state ≡ some state)
    × OpensForLogin runtime client input 1010 state waiting response
        (callback runtime client input (some (codes "state")) query waiting).1
redirected-OpensFor_example =
    redirected-OpensFor runtime client input 1010 (some (codes "state")) query waiting response
      opened_at few_sessions logs_in refl

redirected-IsToValid_example : IsToValid runtime response
redirected-IsToValid_example =
    redirected-IsToValid runtime client input (some (codes "state")) query to_login response logs_in
      refl

abbrev pub back : AuthRequest
back = Requests.callback client input (some (codes "state")) query

serve_is_calls_example : Reaches runtime (MayCall runtime back) waiting (serve runtime back waiting)
serve_is_calls_example = serve_is_calls runtime back waiting

html_escape-escape_each_example :
    (html_escape (codes "<code&\"'>") ≡ escape_each (codes "<code&\"'>"))
    × (all is_inert (html_escape (codes "<code&\"'>")) ≡ true)
html_escape-escape_each_example = html_escape-escape_each (codes "<code&\"'>")

-- the unit test of the source
escapes_device_code_for_html :
    html_escape (codes "<code&\"'>") ≡ codes "&lt;code&amp;&quot;&#39;&gt;"
unfolding html_escape
escapes_device_code_for_html = refl
