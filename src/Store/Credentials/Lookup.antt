-- ===== src/Store/Credentials/Lookup.antt =====
-- src/store.rs: what a credential that authenticates must be, and what an expired one comes to.
use rustypaste.Prelude.{
  ℕ, ◌≡◌, Bool, true, false, ◌&&◌, Option, none, some, List, Text, text_eq, is_none, ◌==◌, ==_refl,
  ==_iff, ltb, any, any_weaken, find_where, find_where-holds, any_found, Option-cases, inl, inr,
  All, arith, Bool-cases,
}
use rustypaste.Store.Base.{
  Crypto, AuthStore, Duration, Clock, Result-cases, ok, unix_now, expiry_from,
}
use rustypaste.Store.Schema.{Db, CredentialRow, PrincipalRow}
use rustypaste.Store.Principals.{principal_from_row}
use rustypaste.Store.Credentials.{
  CredentialTable, browser_session, table_of, AuthenticatedPrincipal, revoke_principal_credentials,
}
use rustypaste.Store.Authenticate.{
  find_credential, join_principal, roll, use_credential, authenticate_credential,
  authenticate_browser_session, authenticated,
}
use rustypaste.Store.OauthFlows.{ReturnUrls}
use rustypaste.Store.Calls.{Call, run_all}
use rustypaste.Store.Credentials.Sessions.{Opens}
use rustypaste.Store.Credentials.Revoked.{
  is_of, OtherPrincipal, principal_calls, revoke_by_principal,
}

-- the unrevoked row with a digest, live at `now`, that `a` was answered for
abbrev pub vouches : List ℕ → ℕ → AuthenticatedPrincipal → CredentialRow → Bool
vouches hash now a c =
    text_eq c.secret_hash hash
    && is_none c.revoked_at
    && ltb now c.expires_at
    && c.id == a.credential_id
    && c.principal_id == a.principal.id

authenticated-ids :
    (c : CredentialRow) (p : PrincipalRow) (expires_at : ℕ) (a : AuthenticatedPrincipal)
    → authenticated c p expires_at ≡ ok (some a)
    → (c.id == a.credential_id && p.id == a.principal.id) ≡ true
unfolding principal_from_row
authenticated-ids c p expires_at a h = ground (arith, ==_refl c.id, ==_refl p.id)

joined :
    (db : Db) (o : Option CredentialRow) (c : CredentialRow) (p : PrincipalRow)
    → join_principal db o ≡ some (c, p)
    → (o ≡ some c) × (p.id == c.principal_id) ≡ true
joined db none c p h = cc
joined db (some d) c p h =
    let test = λ (q : PrincipalRow). q.id == d.principal_id in
    elim (Option-cases (find_where test db.principals.rows)) [
      | inl missing ↦ ground arith
      | inr (q, found) ↦ ground (arith, find_where-holds test db.principals.rows q found)
    ]

module _ (table : CredentialTable) (timeout : Duration) (clock : Clock) (now : ℕ)
    (c : CredentialRow) (p : PrincipalRow) (db : Db) (a : AuthenticatedPrincipal) where
  roll-ids :
      (roll table timeout now c p db).0 ≡ ok (some a)
      → (c.id == a.credential_id && p.id == a.principal.id) ≡ true
  unfolding roll
  roll-ids h = elim (Result-cases (expiry_from now timeout)) [
    | inl (expires_at, e) ↦
        ground (arith, authenticated-ids c p expires_at a, authenticated-ids c p c.expires_at a)
    | inr (e, failed) ↦ ground arith
  ]

  use_credential-ids :
      unix_now clock ≡ ok now
      → (use_credential table timeout clock (some (c, p)) db).0 ≡ ok (some a)
      → (ltb now c.expires_at && c.id == a.credential_id && p.id == a.principal.id) ≡ true
  unfolding use_credential
  use_credential-ids read h = ground (arith, roll-ids, authenticated-ids c p c.expires_at a)

module _ (crypto : Crypto) (table : CredentialTable) (secret : Text) (timeout : Duration)
    (clock : Clock) (now : ℕ) (db : Db) (a : AuthenticatedPrincipal) where
  find_vouches :
      (c : CredentialRow) (p : PrincipalRow)
      → unix_now clock ≡ ok now
      → find_credential crypto table secret db ≡ some (c, p)
      → (use_credential table timeout clock (some (c, p)) db).0 ≡ ok (some a)
      → any (vouches (crypto.sha256 secret) now a) (table_of table db).rows ≡ true
  unfolding find_credential
  find_vouches c p read found used =
      let test = λ (r : CredentialRow).
        text_eq r.secret_hash (crypto.sha256 secret) && is_none r.revoked_at in
      let rows = (table_of table db).rows in
      let ids = use_credential-ids table timeout clock now c p db a read used in
      let (row, same) = joined db (find_where test rows) c p found in
      any_found test (vouches (crypto.sha256 secret) now a) rows c row (
        ground (
          arith,
          find_where-holds test rows c row,
          ids,
          same,
          ==_iff p.id a.principal.id,
          ==_iff p.id c.principal_id,
          ==_iff c.principal_id a.principal.id,
        ))

  -- A secret that authenticates at time `now`, in either table, is backed by a row with its digest
  -- that is not revoked, expires after `now`, and has the answered credential and principal ids.
  pub authenticated_is_live :
      unix_now clock ≡ ok now
      → (authenticate_credential crypto table secret timeout clock db).0 ≡ ok (some a)
      → any (vouches (crypto.sha256 secret) now a) (table_of table db).rows ≡ true
  unfolding authenticate_credential
  authenticated_is_live read h = elim (Option-cases (find_credential crypto table secret db)) [
    | inl missing ↦ unfold use_credential in ground arith
    | inr ((c, p), found) ↦ ground (arith, find_vouches c p read found)
  ]

module _ (crypto : Crypto) (urls : ReturnUrls) (self : AuthStore) where
  -- Once revoking all credentials of a principal answers, then after any calls, none of which opens a
  -- session for that principal, no browser session authenticates as that principal.
  pub signed_out_everywhere :
      (id : ℕ) (secret : Text) (clock clock' : Clock) (now n : ℕ) (db : Db) (calls : List Call)
      (a : AuthenticatedPrincipal)
      → (revoke_principal_credentials id clock db).0 ≡ ok n
      → All (Opens crypto (OtherPrincipal id)) calls
      → unix_now clock' ≡ ok now
      → (authenticate_browser_session crypto self secret clock'
          (run_all crypto urls self calls (revoke_principal_credentials id clock db).1)).0
        ≡ ok (some a)
      → (a.principal.id == id) ≡ false
  unfolding authenticate_browser_session
  signed_out_everywhere id secret clock clock' now n db calls a revoked others read h =
      let after = run_all crypto urls self calls (revoke_principal_credentials id clock db).1 in
      let live =
        authenticated_is_live crypto browser_session secret self.session_idle_timeout clock' now
          after a read h in
      let dead =
        principal_calls crypto urls self id calls (revoke_principal_credentials id clock db).1
          others (revoke_by_principal crypto urls self id clock db n revoked) in
      elim (Bool-cases (a.principal.id == id)) [
        | inl same ↦ ground (
          arith,
          any_weaken (vouches (crypto.sha256 secret) now a)
              (λ r. is_of id r && is_none r.revoked_at) after.browser_sessions.rows
              (λ r v. ground (
                arith,
                ==_iff r.principal_id a.principal.id,
                ==_iff a.principal.id id,
                ==_iff r.principal_id id,
              ))
              dead,
        )
        | inr other ↦ other
      ]
