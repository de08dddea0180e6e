-- ===== src/Auth/Origin.antt =====
-- src/auth.rs: a cookie authenticates a request that changes something only from the server's own
-- origin.
use rustypaste.Prelude.{
  ◌≡◌, ◌≢◌, true, false, Option, none, some, Text, Option-cases, inl, inr, arith,
}
use rustypaste.Store.Base.{Crypto, AuthStore, Clock, Result-cases}
use rustypaste.Store.Schema.{Db}
use rustypaste.Store.Authenticate.{authenticate_api_token, authenticate_browser_session}
use rustypaste.Auth.Request.{
  HttpRequest, accepted, browser, RequestAuth, is_safe, authorization_secret,
}
use rustypaste.Auth.Oidc.{
  Url, Runtime, same_origin, parse_header, validate_cookie_origin, authenticate_api,
  authenticate_session, authenticate_oidc_request,
}

-- The origin of the request is that of the server.
abbrev pub FromServer : HttpRequest → Runtime → Type 0
FromServer request runtime =
    (expected actual : Url) × (runtime.parse runtime.server_url ≡ some expected)
    × (parse_header runtime.parse request.origin ≡ some actual)
    × (same_origin expected actual ≡ true)

checked_origin :
    (request : HttpRequest) (runtime : Runtime)
    → is_safe request.method ≡ false
    → validate_cookie_origin request runtime ≡ accepted tt
    → FromServer request runtime
unfolding validate_cookie_origin
checked_origin request runtime unsafe h = elim (Option-cases (runtime.parse runtime.server_url)) [
  | inl missing ↦ absurd (ground arith)
  | inr (expected, e) ↦ elim (Option-cases (parse_header runtime.parse request.origin)) [
    | inl missing ↦ absurd (ground arith)
    | inr (actual, a) ↦ (expected, actual, e, a, ground arith)
  ]
]

module _ (crypto : Crypto) (store : AuthStore) (request : HttpRequest) (runtime : Runtime)
    (secret : Text) (auth : RequestAuth) where
  token_is_no_session :
      (o : Option Text) (clock : Clock) (db : Db)
      → auth.source ≡ browser secret
      → (authenticate_api crypto store o clock db).0 ≢ accepted (some auth)
  unfolding authenticate_api
  token_is_no_session none clock db s = ground arith
  token_is_no_session (some token) clock db s =
      elim (Result-cases (authenticate_api_token crypto store token clock db).0) [
        | inr (e, failed) ↦ ground arith
        | inl (none, found) ↦ ground arith
        | inl (some a, found) ↦ ground arith
      ]

  session_is_checked :
      (o : Option Text) (clock : Clock) (db : Db)
      → (authenticate_session crypto store request runtime o clock db).0 ≡ accepted (some auth)
      → validate_cookie_origin request runtime ≡ accepted tt
  unfolding authenticate_session
  session_is_checked none clock db h = absurd (ground arith)
  session_is_checked (some cookie) clock db h =
      elim (Result-cases (authenticate_browser_session crypto store cookie clock db).0) [
        | inr (e, failed) ↦ absurd (ground arith)
        | inl (none, found) ↦ absurd (ground arith)
        | inl (some a, found) ↦ ground arith
      ]

  accepted_is_checked :
      (clock clock' : Clock) (db : Db)
      → auth.source ≡ browser secret
      → (authenticate_oidc_request crypto store request runtime clock clock' db).0 ≡ accepted auth
      → validate_cookie_origin request runtime ≡ accepted tt
  unfolding authenticate_oidc_request
  accepted_is_checked clock clock' db s h =
      let token = authorization_secret request in
      ground (
        arith,
        token_is_no_session token clock db s,
        session_is_checked request.session_cookie clock'
            (authenticate_api crypto store token clock db).1,
      )

  -- A request that is accepted by its session cookie, with a method other than GET, HEAD and OPTIONS,
  -- has an Origin header with the scheme, the host and the port of the server's own URL.
  pub session_write_is_same_origin :
      (clock clock' : Clock) (db : Db)
      → auth.source ≡ browser secret
      → is_safe request.method ≡ false
      → (authenticate_oidc_request crypto store request runtime clock clock' db).0 ≡ accepted auth
      → FromServer request runtime
  session_write_is_same_origin clock clock' db s unsafe h =
      checked_origin request runtime unsafe (accepted_is_checked clock clock' db s h)
