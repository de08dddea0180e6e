-- ===== src/AuthServer/Redirect.antt =====
-- src/auth_server.rs: where a callback sends the browser.
use rustypaste.Prelude.{◌≡◌, sym, ap, ◌∙◌, Option, some, List, Text, All-Unit}
use rustypaste.Store.Base.{ok}
use rustypaste.Store.Schema.{empty_db}
use rustypaste.Store.OauthFlows.{validate_return_to, consume_oauth_flow}
use rustypaste.Store.OauthFlows.Once.{consumed_return_is_valid}
use rustypaste.Auth.Request.{accepted}
use rustypaste.AuthServer.Response.{HttpResponse, OidcClient, AuthRuntime}
use rustypaste.AuthServer.Login.{CallbackInput, CallbackQuery, callback}
use rustypaste.AuthServer.Callback.{redirected-IsAuthorized}
use rustypaste.AuthServer.Requests.{AuthRequest, serve_all}
use rustypaste.AuthServer.Refines.Served.{requests_reach}

-- The redirect is to an address that `validate_return_to` accepts.
abbrev pub IsToValid : AuthRuntime → HttpResponse → Type 0
IsToValid runtime response =
    (return_to : Text) × (response.location ≡ some return_to)
    × (validate_return_to runtime.return_urls return_to ≡ ok tt)

-- From an empty database, after any requests under /auth, a callback that answers with a redirect
-- sends the browser to an address that `validate_return_to` accepts.
pub redirected-IsToValid :
    (runtime : AuthRuntime) (oidc : OidcClient) (input : CallbackInput) (flow_cookie : Option Text)
    (query : CallbackQuery) (requests : List AuthRequest) (response : HttpResponse)
    → (callback runtime oidc input flow_cookie query (serve_all runtime requests empty_db)).0
      ≡ accepted response
    → response.status ≡ 302
    → IsToValid runtime response
redirected-IsToValid runtime oidc input flow_cookie query requests response h found =
    let (calls, any_calls, same) =
      requests_reach runtime (λ r. Unit) (λ c. Unit) (λ r c a m. tt) requests empty_db
        (All-Unit requests) in
    let (state, given, sent, authorizes) =
      redirected-IsAuthorized runtime oidc input flow_cookie query
        (serve_all runtime requests empty_db) response h found in
    let (code, flow, identity, consumed, answered, allowed, location) = authorizes in
    (
      flow.return_to,
      location,
      consumed_return_is_valid runtime.crypto runtime.return_urls runtime.store calls state
          input.consumed flow
          (ap (λ db. (consume_oauth_flow runtime.crypto state input.consumed db).0) (sym same)
            ∙ consumed),
    )
