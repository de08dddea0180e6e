-- ===== src/AuthServer/Device.antt =====
-- src/auth_server.rs: the login of the command line: `device`, `verify_device`, `approve_device`
-- and `device_token`.
use rustypaste.Prelude.{
  ℕ, ◌-◌, not, ◌||◌, Option, none, some, [], ◌∷◌, ◌++◌, Text, codes, ltb, any, is_empty,
  is_whitespace, is_control, utf8_len, if◌then◌else◌,
}
use rustypaste.Store.Base.{Duration, Clock, Random}
use rustypaste.Store.Credentials.{IssuedCredential}
use rustypaste.Store.DeviceFlows.{
  DeviceAuthorization, start_device_flow, get_device_flow_client_name, approve_device_flow,
}
use rustypaste.Store.DeviceFlows.Poll.{
  DevicePoll, pending, slow_down, expired, authorized, consumed, poll_device_flow,
}
use rustypaste.Auth.Request.{
  unauthorized, bad_request, accepted, refused, Web, ◌>>=◌, answer, from_store, RequestAuth,
  principal_id,
}
use rustypaste.AuthServer.Escape.{html_escape}
use rustypaste.AuthServer.Response.{
  html_body, device_body, token_body, HttpResponse, respond, AuthRuntime, from_flow_store,
  or_refuse, unix_seconds, oauth_error,
}

abbrev pub device_flow_lifetime : Duration
device_flow_lifetime = record { as_secs = 600; subsec_nanos = 0 }

abbrev pub device_poll_interval : Duration
device_poll_interval = record { as_secs = 5; subsec_nanos = 0 }

abbrev trim_end : Text → Text
trim_end [] = []
trim_end (c ∷ s) =
    let rest = trim_end s in
    elim rest [ [] ↦ if is_whitespace c then [] else c ∷ [] | r ∷ rs ↦ c ∷ r ∷ rs ]

abbrev trim_start : Text → Text
trim_start [] = []
trim_start (c ∷ s) = let rest = trim_start s in if is_whitespace c then rest else c ∷ s

abbrev pub trim : Text → Text
trim s = trim_end (trim_start s)

abbrev name_or_cli : Option Text → Text
name_or_cli none = codes "CLI"
name_or_cli (some name) = name

unfoldable pub device_response : AuthRuntime → DeviceAuthorization → HttpResponse
device_response runtime authorization =
    let verification_uri = runtime.server.server_url ++ codes "/auth/cli/verify" in
    let query = runtime.append_pair (codes "user_code") authorization.user_code in
    respond 200 (
      device_body (record {
        device_code = authorization.device_code;
        user_code = authorization.user_code;
        verification_uri = verification_uri;
        verification_uri_complete = verification_uri ++ (b'?' ∷ query);
        expires_in = device_flow_lifetime.as_secs;
        interval = authorization.poll_interval.as_secs;
      }))

-- The name of the client stands here where the request has a body that names one.
unfoldable pub device : AuthRuntime → (ℕ → Random × Random) → Option Text → Clock → Web HttpResponse
device runtime draws name clock =
    let client_name = trim (name_or_cli name) in
    if is_empty client_name || ltb 100 (utf8_len client_name) || any is_control client_name
    then answer (refused bad_request)
    else from_flow_store (
        start_device_flow runtime.crypto draws client_name device_flow_lifetime device_poll_interval
          clock)
      >>= λ authorization. answer (accepted (device_response runtime authorization))

-- the page of `verify_device`
unfoldable pub verify_page : (client_name code approve_url : Text) → Text
verify_page client_name code approve_url =
    codes
      "<!doctype html><html lang=\"en\"><head><meta charset=\"utf-8\"><title>Authorize rustypaste CLI</title></head>"
    ++ codes "<body><main><h1>Authorize CLI</h1><p><strong>"
    ++ client_name
    ++ codes "</strong> is requesting access.</p><p>Confirm code <strong>"
    ++ code
    ++ codes "</strong>.</p><form action=\""
    ++ approve_url
    ++ codes "\" method=\"post\"><input type=\"hidden\" name=\"user_code\" value=\""
    ++ code
    ++ codes "\"><button type=\"submit\">Authorize</button></form></main></body></html>"

unfoldable pub verify_device : AuthRuntime → (user_code : Text) → Clock → Web HttpResponse
verify_device runtime user_code clock =
    from_store (get_device_flow_client_name user_code clock) >>= λ found.
    or_refuse bad_request found >>= λ client_name. answer (
      accepted (
        respond 200 (
          html_body (
            verify_page (html_escape client_name) (html_escape user_code)
              (html_escape (runtime.server.server_url ++ codes "/auth/cli/verify"))))))

abbrev pub approved_page : Text
approved_page =
    codes
      "<!doctype html><html lang=\"en\"><body><p>CLI authorized. You can close this window.</p></body></html>"

unfoldable pub approve_device : RequestAuth → (user_code : Text) → Clock → Web HttpResponse
approve_device auth user_code clock = or_refuse unauthorized (principal_id auth) >>= λ id.
    from_store (approve_device_flow user_code id clock) >>= λ approved.
    if not approved
    then answer (refused bad_request)
    else answer (accepted (respond 200 (html_body approved_page)))

abbrev token_response : IssuedCredential → ℕ → HttpResponse
token_response credential now = respond 200 (
    token_body (record {
      access_token = credential.secret;
      token_type = codes "Bearer";
      expires_in = credential.expires_at - now;
      credential_id = credential.id;
    }))

-- The clock is read again for the answer to a delivery.
unfoldable pub poll_response : DevicePoll → Clock → Web HttpResponse
poll_response pending clock =
    answer (accepted (oauth_error "authorization_pending" "waiting for browser authorization"))
poll_response slow_down clock =
    answer (accepted (oauth_error "slow_down" "polling faster than the advertised interval"))
poll_response expired clock =
    answer (accepted (oauth_error "expired_token" "CLI login request expired"))
poll_response consumed clock =
    answer (accepted (oauth_error "expired_token" "CLI login request expired"))
poll_response (authorized principal credential) clock =
    answer (unix_seconds clock) >>= λ now. answer (accepted (token_response credential now))

unfoldable pub device_token :
    AuthRuntime → (device_code : Text) → Random → (clock clock' : Clock) → Web HttpResponse
device_token runtime device_code random clock clock' =
    from_store (
      poll_device_flow runtime.crypto runtime.store device_code (some (codes "rustypaste-cli"))
        random clock)
    >>= λ poll. poll_response poll clock'
