-- ===== src/AuthServer/Opened.antt =====
-- src/auth_server.rs: whose session a callback that logs a browser in opens.
use mathlib.Core.Path.{subst}
use rustypaste.Prelude.{
  ℕ, ◌<◌, ◌≡◌, refl, Bool, ◌&&◌, ◌||◌, Option, none, some, Text, codes, text_eq, text_eq_refl,
  is_blank, is_none, any, count_where, find_where, find_where-holds, find_where-append,
  find_where-some, find_where-update_where, Bool-cases, Option-cases, inl, inr, arith,
}
use rustypaste.Store.Base.{Crypto, Clock, Result-cases, ok, unix_now}
use rustypaste.Store.Schema.{Db, CredentialRow, PrincipalRow}
use rustypaste.Store.Principals.{
  Principal, is_oidc_identity, principal_from_row, upsert, upsert_oidc_principal,
}
use rustypaste.Store.Credentials.{browser_session, is_bounded, create_browser_session}
use rustypaste.Store.Credentials.Alive.{session_is_stored, issued_row, issued_is_held}
use rustypaste.Store.OauthFlows.{OAuthFlow, consume_oauth_flow}
use rustypaste.Config.Claims.{is_admin, allows}
use rustypaste.Auth.Request.{Reply-cases, accepted}
use rustypaste.AuthServer.Response.{HttpResponse, OidcIdentity, OidcClient, AuthRuntime}
use rustypaste.AuthServer.Login.{
  CallbackInput, CallbackQuery, logged_in, oauth_callback_path, open_login, finish_callback,
  matched_callback, callback,
}

module _ (issuer subject : Text) (email display_name : Option Text) (admin : Bool) (clock : Clock)
    (db : Db) where
  abbrev upserted : Db
  upserted = (upsert_oidc_principal issuer subject email display_name admin clock db).1

  -- the identity's row that `upsert_oidc_principal` leaves when it answers
  upserted_is_found :
      (p : Principal)
      → (upsert_oidc_principal issuer subject email display_name admin clock db).0 ≡ ok p
      → (r : PrincipalRow) × (find_where (is_oidc_identity issuer subject) upserted.principals.rows
          ≡ some r)
        × (r.id ≡ p.id)
        × (r.is_admin ≡ admin)
        × (upserted.browser_sessions ≡ db.browser_sessions)
  unfolding upsert_oidc_principal upsert principal_from_row
  upserted_is_found p h =
      let same = is_oidc_identity issuer subject in
      elim (Bool-cases (is_blank issuer || is_blank subject)) [
        | inl blank ↦ absurd (ground arith)
        | inr given ↦ elim (Result-cases (unix_now clock)) [
          | inr (e, failed) ↦ absurd (ground arith)
          | inl (now, read) ↦ elim (Bool-cases (any same db.principals.rows)) [
            | inr absent ↦
                let new : PrincipalRow = record {
                  id = db.principals.next_id;
                  kind = codes "oidc";
                  issuer = some issuer;
                  subject = some subject;
                  stable_name = none;
                  email = email;
                  display_name = display_name;
                  is_admin = admin;
                  can_delete_all = admin;
                  created_at = now;
                  updated_at = now;
                  last_seen_at = now;
                } in
                let found =
                  find_where-append same db.principals.rows new absent
                    (ground (arith, text_eq_refl issuer, text_eq_refl subject)) in
                (new, ground arith, ground arith, refl, ground arith)
            | inl known ↦
                let (old, there) = find_where-some same db.principals.rows known in
                let fresh = λ (r : PrincipalRow). record r {
                  email = email;
                  display_name = display_name;
                  is_admin = admin;
                  can_delete_all = admin;
                  updated_at = now;
                  last_seen_at = now;
                } in
                let moved =
                  find_where-update_where same same fresh db.principals.rows old
                    (λ r. elim (Bool-cases (same r)) [
                      | inl hit ↦ ground arith
                      | inr other ↦ ground arith
                    ])
                    there in
                let holds = find_where-holds same db.principals.rows old there in
                (fresh old, ground arith, ground arith, refl, ground arith)
          ]
        ]
      ]

-- the session that a secret authenticates
abbrev pub is_session_of : AuthRuntime → Text → CredentialRow → Bool
is_session_of runtime secret c =
    text_eq c.secret_hash (runtime.crypto.sha256 secret) && is_none c.revoked_at

-- The browser gets a secret, the secret finds a session, and its principal is the identity's.
abbrev pub OpensFor :
    AuthRuntime → (callback_path return_to : Text) → OidcIdentity → HttpResponse → Db → Type 0
OpensFor runtime callback_path return_to identity response db =
    (secret : Text) × (session : CredentialRow) × (principal : PrincipalRow) × (response
      ≡ logged_in runtime callback_path return_to secret)
    × (find_where (is_session_of runtime secret) db.browser_sessions.rows ≡ some session)
    × (session.principal_id ≡ principal.id)
    × (find_where (is_oidc_identity identity.issuer identity.subject) db.principals.rows
        ≡ some principal)
    × (principal.is_admin ≡ is_admin runtime.authorization identity.claims)

module _ (runtime : AuthRuntime) (input : CallbackInput) (callback_path return_to : Text)
    (identity : OidcIdentity) (now : ℕ) (db : Db) where
  open_login-OpensFor :
      (response : HttpResponse)
      → unix_now input.opened ≡ ok now
      → ((id : ℕ) → count_where (is_bounded browser_session id now) db.browser_sessions.rows < 32)
      → (open_login runtime input callback_path return_to identity db).0 ≡ accepted response
      → OpensFor runtime callback_path return_to identity response
          (open_login runtime input callback_path return_to identity db).1
  unfolding open_login
  open_login-OpensFor response read few h =
      let admin = is_admin runtime.authorization identity.claims in
      let upsert_it =
        upsert_oidc_principal identity.issuer identity.subject identity.email identity.display_name
          admin input.upserted db in
      elim (Bool-cases (allows runtime.authorization identity.claims)) [
        | inr denied ↦ absurd (ground arith)
        | inl allowed ↦ elim (Result-cases upsert_it.0) [
          | inr (e, failed) ↦ absurd (ground arith)
          | inl (p, known) ↦
              let (row, found, one, as_admin, sessions) =
                upserted_is_found identity.issuer identity.subject identity.email
                  identity.display_name admin input.upserted db p known in
              elim (Result-cases
                (create_browser_session runtime.crypto runtime.store p.id input.random input.opened
                  upsert_it.1).0) [
                    | inr (e, failed) ↦ absurd (ground arith)
                    | inl (issued, made) ↦
                        let held =
                          issued_is_held runtime.crypto runtime.store p.id input.random input.opened
                            now upsert_it.1 issued read made (ground (arith, few p.id)) in
                        let (new, rows, principals, expiry, id) =
                          session_is_stored runtime.crypto runtime.store p.id input.random
                            input.opened now upsert_it.1 issued read made in
                        (
                          issued.secret,
                          issued_row runtime.crypto runtime.store p.id input.random input.opened now
                              upsert_it.1 issued,
                          row,
                          ground arith,
                          ground arith,
                          ground arith,
                          ground arith,
                          as_admin,
                        )
                  ]
        ]
      ]

consume_keeps_sessions :
    (crypto : Crypto) (state : Text) (clock : Clock) (db : Db)
    → (consume_oauth_flow crypto state clock db).1.browser_sessions ≡ db.browser_sessions
unfolding consume_oauth_flow
consume_keeps_sessions crypto state clock db = ground arith

module _ (runtime : AuthRuntime) (oidc : OidcClient) (input : CallbackInput) (now : ℕ) where
  -- The provider answers an identity for the login that the state started, and its session is opened.
  abbrev pub OpensForLogin : (state : Text) → Db → HttpResponse → Db → Type 0
  OpensForLogin state db response db' =
      (code : Text) × (callback_path : Text) × (flow : OAuthFlow) × (identity : OidcIdentity)
      × ((consume_oauth_flow runtime.crypto state input.consumed db).0 ≡ ok (some flow))
      × (oidc.complete_login code flow.nonce flow.code_verifier ≡ some identity)
      × OpensFor runtime callback_path flow.return_to identity response db'

  finish-OpensFor :
      (callback_path state code : Text) (db : Db) (response : HttpResponse)
      → unix_now input.opened ≡ ok now
      → ((id : ℕ) → count_where (is_bounded browser_session id now) db.browser_sessions.rows < 32)
      → (finish_callback runtime oidc input callback_path state code db).0 ≡ accepted response
      → OpensForLogin state db response
          (finish_callback runtime oidc input callback_path state code db).1
  unfolding finish_callback
  finish-OpensFor callback_path state code db response read few h =
      let consumed = consume_oauth_flow runtime.crypto state input.consumed db in
      elim (Result-cases consumed.0) [
        | inr (e, failed) ↦ absurd (ground arith)
        | inl (none, found) ↦ absurd (ground arith)
        | inl (some flow, found) ↦
            elim (Option-cases (oidc.complete_login code flow.nonce flow.code_verifier)) [
              | inl missing ↦ absurd (ground arith)
              | inr (identity, answered) ↦
                  let kept = consume_keeps_sessions runtime.crypto state input.consumed db in
                  let out =
                    open_login runtime input callback_path flow.return_to identity consumed.1 in
                  let opened =
                    open_login-OpensFor runtime input callback_path flow.return_to identity now
                      consumed.1 response read (λ id. ground (arith, kept, few id))
                      (ground arith) in
                  let left : out.1
                      ≡ (finish_callback runtime oidc input callback_path state code db).1 =
                    ground arith in
                  (
                    code,
                    callback_path,
                    flow,
                    identity,
                    found,
                    answered,
                    subst (OpensFor runtime callback_path flow.return_to identity response) left
                        opened,
                  )
            ]
      ]

  matched-OpensFor :
      (state : Text) (query : CallbackQuery) (db : Db) (response : HttpResponse)
      → unix_now input.opened ≡ ok now
      → ((id : ℕ) → count_where (is_bounded browser_session id now) db.browser_sessions.rows < 32)
      → (matched_callback runtime oidc input state query db).0 ≡ accepted response
      → response.status ≡ 302
      → OpensForLogin state db response (matched_callback runtime oidc input state query db).1
  unfolding matched_callback
  matched-OpensFor state query db response read few h redirected =
      elim (Reply-cases (oauth_callback_path runtime.server)) [
        | inr (e, failed) ↦ absurd (ground arith)
        | inl (path, e) ↦ elim (Option-cases query.error) [
          | inr (error, failed) ↦ absurd (ground arith)
          | inl fine ↦ elim (Option-cases query.code) [
            | inl missing ↦ absurd (ground arith)
            | inr (code, sent) ↦
                let finished = finish_callback runtime oidc input path state code db in
                let left : finished.1 ≡ (matched_callback runtime oidc input state query db).1 =
                  ground arith in
                subst (OpensForLogin state db response) left
                  (finish-OpensFor path state code db response read few (ground arith))
          ]
        ]
      ]

  -- A callback that answers with a redirect while no principal has 32 live sessions opens one for the
  -- identity that the provider answered for this login: the secret of the answered cookie finds a
  -- session that is not revoked, its principal is the one of the identity's issuer and subject, and
  -- that is an administrator exactly if the rules for administrators hold of the identity's claims.
  pub redirected-OpensFor :
      (flow_cookie : Option Text) (query : CallbackQuery) (db : Db) (response : HttpResponse)
      → unix_now input.opened ≡ ok now
      → ((id : ℕ) → count_where (is_bounded browser_session id now) db.browser_sessions.rows < 32)
      → (callback runtime oidc input flow_cookie query db).0 ≡ accepted response
      → response.status ≡ 302
      → (state : Text) × (query.state ≡ some state)
        × OpensForLogin state db response (callback runtime oidc input flow_cookie query db).1
  unfolding callback
  redirected-OpensFor flow_cookie query db response read few h redirected =
      elim (Option-cases query.state) [
        | inl missing ↦ absurd (ground arith)
        | inr (state, given) ↦ elim (Option-cases flow_cookie) [
          | inl missing ↦ absurd (ground arith)
          | inr (cookie, sent) ↦ elim (Bool-cases (text_eq cookie state)) [
            | inr differs ↦ absurd (ground arith)
            | inl same ↦
                let matched = matched_callback runtime oidc input state query db in
                let left : matched.1 ≡ (callback runtime oidc input flow_cookie query db).1 =
                  ground arith in
                (
                  state,
                  given,
                  subst (OpensForLogin state db response) left
                      (matched-OpensFor state query db response read few (ground arith) redirected),
                )
          ]
        ]
      ]
