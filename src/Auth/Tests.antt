-- ===== src/Auth/Tests.antt =====
-- Examples of authentication and authorization, src/auth.rs and src/config.rs.
use rustypaste.Auth.Backing.{RestsOnToken, RestsOnSession, accepted_rests_on_credential}
use rustypaste.Auth.Legacy.{
  authenticate_legacy_request, anonymous, token_or_empty, legacy_delete_needs_token,
}
use rustypaste.Auth.Oidc.{
  validate_cookie_origin, authenticate_api, authenticate_session, authenticate_oidc_request, Url,
  Runtime, of_principal,
}
use rustypaste.Auth.Origin.{FromServer, session_write_is_same_origin}
use rustypaste.Auth.Request.{
  authorization_secret, HttpRequest, post, delete, accepted, refused, forbidden, browser,
  RequestAuth, is_delete,
}
use rustypaste.Config.Tokens.{get_tokens, ServerTokens, TokenEnv, TokenType}
use rustypaste.Prelude.{
  ◌≡◌, ◌⊎◌, ◌&&◌, refl, false, true, Option, none, some, [], ◌∷◌, Text, text_eq, contains, codes,
}
use rustypaste.Store.Authenticate.{
  find_credential, use_credential, roll, authenticate_credential, authenticate_browser_session,
  authenticate_api_token,
}
use rustypaste.Store.Base.{unix_now, duration_seconds, expiry_from, generate_secret, ok}
use rustypaste.Store.Calls.{run, run_all, open_session}
use rustypaste.Store.Credentials.{
  create_browser_session, create_credential, store_credential, insert_credential, prune_credentials,
  prune_rows, kept_ids,
}
use rustypaste.Store.Principals.{
  upsert_named_principal, upsert, as_str, from_str, principal_from_row, service,
}
use rustypaste.Store.Schema.{empty_db, Db}
use rustypaste.Store.Tests.{crypto, self, urls, named, secret_a}

abbrev server_url : Text
server_url = codes "https://paste.example"

abbrev server : Url
server = record {
  scheme = codes "https";
  host = some (codes "paste.example");
  port = some 443;
  path = codes "/";
}

abbrev runtime : Runtime
runtime = record {
  parse = λ s. elim (text_eq s server_url) [ true ↦ some server | false ↦ none ];
  server_url = server_url;
}

abbrev upload : (authorization origin session_cookie : Option Text) → HttpRequest
upload authorization origin session_cookie = record {
  method = post;
  path = codes "/";
  path_and_query = codes "/";
  authorization = authorization;
  origin = origin;
  session_cookie = session_cookie;
  sec_fetch_mode = none;
  accept = none;
}

abbrev with_cookie : HttpRequest
with_cookie = upload none (some server_url) (some (codes "secret-a"))

abbrev db : Db
db =
    run_all crypto urls self (open_session 1 secret_a (some 1000) ∷ [])
      (run_all crypto urls self named empty_db)

abbrev signed_in : RequestAuth
signed_in = of_principal (browser (codes "secret-a")) (record {
  credential_id = 1;
  expires_at = 4600;
  principal = record {
    id = 1;
    kind = service;
    issuer = none;
    subject = none;
    stable_name = some (codes "ci");
    email = none;
    display_name = none;
    is_admin = false;
    can_delete_all = false;
    created_at = 1000;
    last_seen_at = 1000;
  };
})

let_in :
    (authenticate_oidc_request crypto self with_cookie runtime (some 1001) (some 1001) db).0
    ≡ accepted signed_in
unfolding run run_all upsert_named_principal upsert as_str from_str principal_from_row unix_now
    duration_seconds expiry_from generate_secret create_browser_session create_credential
    store_credential insert_credential prune_credentials prune_rows kept_ids find_credential
    use_credential roll authenticate_credential authenticate_browser_session authenticate_api_token
    authorization_secret validate_cookie_origin authenticate_api authenticate_session
    authenticate_oidc_request
let_in = refl

-- The same request from another origin is refused.
kept_out :
    (authenticate_oidc_request crypto self
      (upload none (some (codes "https://evil.example")) (some (codes "secret-a")))
      runtime
      (some 1001)
      (some 1001)
      db).0
    ≡ refused forbidden
unfolding run run_all upsert_named_principal upsert as_str from_str principal_from_row unix_now
    duration_seconds expiry_from generate_secret create_browser_session create_credential
    store_credential insert_credential prune_credentials prune_rows kept_ids find_credential
    use_credential roll authenticate_credential authenticate_browser_session authenticate_api_token
    authorization_secret validate_cookie_origin authenticate_api authenticate_session
    authenticate_oidc_request
kept_out = refl

clock_read : unix_now (some 1001) ≡ ok 1001
unfolding unix_now
clock_read = refl

session_write_is_same_origin_example : FromServer with_cookie runtime
session_write_is_same_origin_example =
    session_write_is_same_origin crypto self with_cookie runtime (codes "secret-a") signed_in
      (some 1001) (some 1001) db refl refl let_in

accepted_rests_on_credential_example :
    RestsOnToken crypto 1001 db signed_in
    ⊎ RestsOnSession crypto 1001
        (authenticate_api crypto self (authorization_secret with_cookie) (some 1001) db).1
        signed_in
accepted_rests_on_credential_example =
    accepted_rests_on_credential crypto self with_cookie runtime signed_in (some 1001) (some 1001)
      1001 1001 db clock_read clock_read let_in

abbrev tokens : ServerTokens
tokens = record {
  auth_tokens = some (codes "upload" ∷ []);
  auth_token = none;
  delete_tokens = some (codes "remove" ∷ []);
}

abbrev env : TokenEnv
env = record {
  auth_token = none;
  auth_tokens_file = none;
  delete_token = none;
  delete_tokens_file = none;
}

abbrev removal : HttpRequest
removal = record (upload (some (codes "Bearer remove")) none none) {
  method = delete;
  path = codes "/a.txt";
}

removes : authenticate_legacy_request tokens env removal ≡ accepted (anonymous true)
unfolding get_tokens authorization_secret authenticate_legacy_request
removes = refl

legacy_delete_needs_token_example : true ≡ (
    is_delete removal.method && (elim (get_tokens tokens env TokenType.delete) [
      | none ↦ false
      | some ts ↦ contains ts (token_or_empty (authorization_secret removal))
    ]))
legacy_delete_needs_token_example =
    legacy_delete_needs_token tokens env removal (anonymous true) removes
