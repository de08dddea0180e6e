-- ===== src/Auth/Backing.antt =====
-- src/auth.rs: an identity that is accepted rests on a live credential of the store.
use rustypaste.Prelude.{ℕ, ◌≡◌, ◌⊎◌, true, Option, none, some, Text, any, inl, inr, arith}
use rustypaste.Store.Base.{Crypto, AuthStore, Clock, Result-cases, ok, unix_now}
use rustypaste.Store.Schema.{Db}
use rustypaste.Store.Credentials.{AuthenticatedPrincipal, browser_session, api_token}
use rustypaste.Store.Credentials.Lookup.{vouches, authenticated_is_live}
use rustypaste.Store.Authenticate.{authenticate_api_token, authenticate_browser_session}
use rustypaste.Auth.Request.{
  HttpRequest, Reply-cases, accepted, browser, api, RequestAuth, authorization_secret,
}
use rustypaste.Auth.Oidc.{
  Runtime, of_principal, authenticate_api, authenticate_session, authenticate_oidc_request,
}

-- `auth` is the identity of an unrevoked API token, live at `now`.
abbrev pub RestsOnToken : Crypto → ℕ → Db → RequestAuth → Type 0
RestsOnToken crypto now db auth =
    (secret : Text) × (a : AuthenticatedPrincipal) × (auth ≡ of_principal (api secret) a)
    × (any (vouches (crypto.sha256 secret) now a) db.api_tokens.rows ≡ true)

-- `auth` is the identity of an unrevoked browser session, live at `now`.
abbrev pub RestsOnSession : Crypto → ℕ → Db → RequestAuth → Type 0
RestsOnSession crypto now db auth =
    (secret : Text) × (a : AuthenticatedPrincipal) × (auth ≡ of_principal (browser secret) a)
    × (any (vouches (crypto.sha256 secret) now a) db.browser_sessions.rows ≡ true)

module _ (crypto : Crypto) (store : AuthStore) (request : HttpRequest) (runtime : Runtime)
    (auth : RequestAuth) where
  token_rests :
      (o : Option Text) (clock : Clock) (now : ℕ) (db : Db)
      → unix_now clock ≡ ok now
      → (authenticate_api crypto store o clock db).0 ≡ accepted (some auth)
      → RestsOnToken crypto now db auth
  unfolding authenticate_api authenticate_api_token
  token_rests none clock now db read h = absurd (ground arith)
  token_rests (some secret) clock now db read h =
      elim (Result-cases (authenticate_api_token crypto store secret clock db).0) [
        | inr (e, failed) ↦ absurd (ground arith)
        | inl (none, found) ↦ absurd (ground arith)
        | inl (some a, found) ↦ (
          secret,
          a,
          ground arith,
          authenticated_is_live crypto api_token secret store.token_idle_timeout clock now db a read
              found,
        )
      ]

  session_rests :
      (o : Option Text) (clock : Clock) (now : ℕ) (db : Db)
      → unix_now clock ≡ ok now
      → (authenticate_session crypto store request runtime o clock db).0 ≡ accepted (some auth)
      → RestsOnSession crypto now db auth
  unfolding authenticate_session authenticate_browser_session
  session_rests none clock now db read h = absurd (ground arith)
  session_rests (some secret) clock now db read h =
      elim (Result-cases (authenticate_browser_session crypto store secret clock db).0) [
        | inr (e, failed) ↦ absurd (ground arith)
        | inl (none, found) ↦ absurd (ground arith)
        | inl (some a, found) ↦ (
          secret,
          a,
          ground arith,
          authenticated_is_live crypto browser_session secret store.session_idle_timeout clock now
              db a read found,
        )
      ]

  branches :
      (clock clock' : Clock) (db : Db)
      → (authenticate_oidc_request crypto store request runtime clock clock' db).0 ≡ accepted auth
      → ((authenticate_api crypto store (authorization_secret request) clock db).0
          ≡ accepted (some auth))
        ⊎ ((authenticate_session crypto store request runtime request.session_cookie clock'
              (authenticate_api crypto store (authorization_secret request) clock db).1).0
            ≡ accepted (some auth))
  unfolding authenticate_oidc_request
  branches clock clock' db h =
      let first = authenticate_api crypto store (authorization_secret request) clock db in
      let second =
        authenticate_session crypto store request runtime request.session_cookie clock' first.1 in
      elim (Reply-cases first.0) [
        | inr (e, failed) ↦ absurd (ground arith)
        | inl (some a, found) ↦ inl (ground arith)
        | inl (none, missing) ↦ elim (Reply-cases second.0) [
          | inr (e, failed) ↦ absurd (ground arith)
          | inl (none, found) ↦ absurd (ground arith)
          | inl (some a, found) ↦ inr (ground arith)
        ]
      ]

  -- An accepted request has the principal of an API token that was live when it was looked up, or of a
  -- browser session that was, as the store stood after the first lookup; the right to delete all
  -- pastes is an administrator's, or the principal's own.
  pub accepted_rests_on_credential :
      (clock clock' : Clock) (now now' : ℕ) (db : Db)
      → unix_now clock ≡ ok now
      → unix_now clock' ≡ ok now'
      → (authenticate_oidc_request crypto store request runtime clock clock' db).0 ≡ accepted auth
      → RestsOnToken crypto now db auth
        ⊎ RestsOnSession crypto now'
            (authenticate_api crypto store (authorization_secret request) clock db).1
            auth
  accepted_rests_on_credential clock clock' now now' db read read' h =
      elim (branches clock clock' db h) [
        | inl by_token ↦ inl (token_rests (authorization_secret request) clock now db read by_token)
        | inr by_session ↦ inr (
            session_rests request.session_cookie clock' now'
              (authenticate_api crypto store (authorization_secret request) clock db).1 read'
              by_session)
      ]
