-- ===== src/AuthServer/SessionTests.antt =====
-- Examples of src/auth_server.rs: a logout, and a command line login.
use mathlib.Core.Path.{subst}
use rustypaste.Prelude.{
  ℕ, ◌≡◌, refl, true, false, none, some, List, [], ◌∷◌, ◌++◌, Text, codes, text_eq, arith, ◌==◌,
  All,
}
use rustypaste.Store.Base.{
  ok, unix_now, duration_seconds, expiry_from, generate_secret, normalize_user_code, compact_code,
  generate_user_code, Random,
}
use rustypaste.Store.Schema.{Db, empty_db}
use rustypaste.Store.Principals.{
  Principal, oidc, upsert_oidc_principal, upsert, from_str, principal_from_row,
}
use rustypaste.Store.Credentials.{
  create_browser_session, create_credential, store_credential, insert_credential, prune_credentials,
  prune_rows, kept_ids, revoke_browser_session, revoke_credential, IssuedCredential,
}
use rustypaste.Store.OauthFlows.{
  validate_return_to, is_suspicious, insert_flow, admit_oauth, store_oauth_flow, consume_oauth_flow,
}
use rustypaste.Store.DeviceFlows.{
  start_device_flow, admit_device, start_rounds, start_round, approve_device_flow,
}
use rustypaste.Store.DeviceFlows.Poll.{authorized, poll_device_flow, poll_row, claim, deliver}
use rustypaste.Store.Tests.{crypto, self, secret_b}
use rustypaste.Config.Claims.{allows, matches, claim_matches, is_admin}
use rustypaste.Auth.Request.{
  HttpRequest, get, accepted, refused, browser, RequestAuth, principal_id, browser_secret,
}
use rustypaste.Auth.Oidc.{public_path_prefix, unauthorized_request, authenticate_oidc_request}
use rustypaste.Auth.Cookies.{session_cookie, public_cookie_path, removal_cookie}
use rustypaste.AuthServer.Response.{HttpResponse, empty_body}
use rustypaste.AuthServer.Login.{
  CallbackInput, oauth_flow_cookie, removal_oauth_flow_cookie, oauth_callback_path, login,
  open_login, finish_callback, matched_callback, callback,
}
use rustypaste.AuthServer.Account.{logout}
use rustypaste.AuthServer.Device.{device, device_response, approve_device}
use rustypaste.AuthServer.Requests
use rustypaste.AuthServer.Requests.{AuthRequest, MayCall, serve, serve_all}
use rustypaste.AuthServer.Sessions.{DrawsOther, delivered_to_requester, logged_out_stays_out}
use rustypaste.AuthServer.Tests.{runtime, client, to_login, input, query, back}

abbrev session : RequestAuth
session = record {
  principal = none;
  credential_id = some 1;
  expires_at = some 4610;
  global_delete = false;
  source = browser (codes "secret-a");
}

abbrev logged_in_db : Db
logged_in_db = serve_all runtime (to_login ++ back ∷ []) empty_db

abbrev signed_out : HttpResponse
signed_out = record {
  status = 204;
  location = none;
  cookies = removal_cookie runtime.cookies runtime.server ∷ [];
  body = empty_body;
}

logs_out : (logout runtime session (some 1020) logged_in_db).0 ≡ accepted signed_out
unfolding serve serve_all login store_oauth_flow admit_oauth insert_flow validate_return_to
    is_suspicious unix_now duration_seconds expiry_from oauth_callback_path oauth_flow_cookie
    callback matched_callback finish_callback consume_oauth_flow open_login allows matches
    claim_matches is_admin upsert_oidc_principal upsert from_str principal_from_row
    create_browser_session create_credential generate_secret store_credential insert_credential
    prune_credentials prune_rows kept_ids session_cookie public_cookie_path public_path_prefix
    removal_oauth_flow_cookie logout browser_secret revoke_browser_session revoke_credential
logs_out = refl

abbrev page : HttpRequest
page = record {
  method = get;
  path = codes "/list";
  path_and_query = codes "/list";
  authorization = none;
  origin = none;
  session_cookie = some (codes "secret-a");
  sec_fetch_mode = none;
  accept = none;
}

abbrev next_input : CallbackInput
next_input = record input { random = secret_b }

abbrev again : List AuthRequest
again = Requests.callback client next_input (some (codes "state")) query ∷ []

draws_other : All (DrawsOther runtime (codes "secret-a")) again
draws_other =
    ((λ secret e. subst (λ s. text_eq s (codes "secret-a") ≡ false) (drawn secret e) refl), tt)
  where
    drawn :
        (secret : Text) → generate_secret crypto secret_b ≡ ok secret → codes "secret-b" ≡ secret
    drawn secret e = unfold generate_secret in ground arith

logged_out_stays_out_example :
    (authenticate_oidc_request crypto self page runtime.server
      (some 1030)
      (some 1030)
      (serve_all runtime again (logout runtime session (some 1020) logged_in_db).1)).0
    ≡ refused (unauthorized_request page runtime.server)
logged_out_stays_out_example =
    logged_out_stays_out runtime session (codes "secret-a") (some 1020) logged_in_db signed_out
      again page (some 1030) (some 1030) refl logs_out draws_other refl refl

abbrev draws : ℕ → Random × Random
draws i = (some (codes "device"), some (0 ∷ 1 ∷ 2 ∷ 3 ∷ 4 ∷ 5 ∷ 6 ∷ 7 ∷ []))

abbrev alice : Principal
alice = record {
  id = 1;
  kind = oidc;
  issuer = some (codes "https://id.example");
  subject = some (codes "alice");
  stable_name = none;
  email = none;
  display_name = none;
  is_admin = false;
  can_delete_all = false;
  created_at = 1010;
  last_seen_at = 1010;
}

abbrev by_alice : RequestAuth
by_alice = record session { principal = some alice }

-- Alice logs in, and approves a login of the command line.
abbrev approved : List AuthRequest
approved =
    to_login
    ++ back
      ∷ Requests.device draws none (some 1020)
      ∷ Requests.approve_device by_alice (codes "2345-6789") (some 1021)
      ∷ []

abbrev token : IssuedCredential
token = record { id = 1; secret = codes "secret-b"; expires_at = 4622 }

delivered :
    (poll_device_flow crypto self
      (codes "device")
      none
      secret_b
      (some 1022)
      (serve_all runtime approved empty_db)).0
    ≡ ok (authorized alice token)
unfolding serve serve_all login store_oauth_flow admit_oauth insert_flow validate_return_to
    is_suspicious unix_now duration_seconds expiry_from oauth_callback_path oauth_flow_cookie
    callback matched_callback finish_callback consume_oauth_flow open_login allows matches
    claim_matches is_admin upsert_oidc_principal upsert from_str principal_from_row
    create_browser_session create_credential generate_secret store_credential insert_credential
    prune_credentials prune_rows kept_ids session_cookie public_cookie_path public_path_prefix
    removal_oauth_flow_cookie device start_device_flow admit_device start_rounds start_round
    generate_user_code approve_device principal_id approve_device_flow normalize_user_code
    compact_code poll_device_flow poll_row claim deliver device_response
delivered = refl

delivered_to_requester_example : (alice.id == 1) ≡ true
delivered_to_requester_example =
    delivered_to_requester runtime (λ id. id == 1) approved (codes "device") none secret_b
      (some 1022) alice token (tt, (tt, (tt, (unfold principal_id in refl, tt)))) delivered
