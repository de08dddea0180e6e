-- ===== src/Store/Credentials/Revoked.antt =====
-- src/store.rs: a browser session that was revoked is never accepted again.
use rustypaste.Prelude.{
  ℕ, ◌≡◌, refl, Bool, false, ◌&&◌, none, List, [], ◌∷◌, Text, All, text_eq, is_empty, is_none, ◌==◌,
  any, any-append, any-keep_where, any-update_where, find_none, Bool-cases, inl, inr, arith,
}
use rustypaste.Store.Base.{Crypto, AuthStore, Clock, Result-cases, ok, unix_now}
use rustypaste.Store.Schema.{Db, Table, CredentialRow}
use rustypaste.Store.Credentials.{
  browser_session, revoke_browser_session, revoke_credential, revoke_principal_credentials,
  revoked_row, new_credential, revoke_where,
}
use rustypaste.Store.Authenticate.{
  rolled_row, find_credential, use_credential, authenticate_credential,
  authenticate_browser_session,
}
use rustypaste.Store.OauthFlows.{ReturnUrls}
use rustypaste.Store.Calls.{Call, run_all, run_all_induction}
use rustypaste.Store.Credentials.Rows.{InTable, Deletes}
use rustypaste.Store.Credentials.Sessions.{Opens, run-InSessions}

-- No row with `p` is unrevoked, for a `p` that only reads what no statement changes.
abbrev pub AllRevoked : (CredentialRow → Bool) → Table CredentialRow → Type 0
AllRevoked p t = any (λ r. p r && is_none r.revoked_at) t.rows ≡ false

abbrev pub has_hash : List ℕ → CredentialRow → Bool
has_hash hash r = text_eq r.secret_hash hash

abbrev pub is_of : ℕ → CredentialRow → Bool
is_of principal_id r = r.principal_id == principal_id

-- A digest, and a principal, other than the ones given.
abbrev pub OtherHash : List ℕ → ℕ → List ℕ → Type 0
OtherHash hash principal_id other = text_eq other hash ≡ false

abbrev pub OtherPrincipal : ℕ → ℕ → List ℕ → Type 0
OtherPrincipal id principal_id hash = (principal_id == id) ≡ false

deletes-AllRevoked : (p : CredentialRow → Bool) → Deletes (AllRevoked p)
deletes-AllRevoked p q t h = any-keep_where (λ r. p r && is_none r.revoked_at) _ t.rows h

revoke_all_rows :
    (p : CredentialRow → Bool)
    → ((now : ℕ) (r : CredentialRow) → p (revoked_row now r) ≡ p r)
    → (now : ℕ) (rs : List CredentialRow)
    → any (λ r. p r && is_none r.revoked_at) (revoke_where now p rs) ≡ false
revoke_all_rows p same now [] = refl
revoke_all_rows p same now (r ∷ rs) = ground (arith, same now r, revoke_all_rows p same now rs)

module _ (crypto : Crypto) (urls : ReturnUrls) (self : AuthStore) where
  hash_calls :
      (hash : List ℕ) (calls : List Call) (db : Db)
      → All (Opens crypto (OtherHash hash)) calls
      → InTable browser_session (AllRevoked (has_hash hash)) db
      → InTable browser_session (AllRevoked (has_hash hash)) (run_all crypto urls self calls db)
  hash_calls hash =
      let Q = AllRevoked (has_hash hash) in
      run_all_induction crypto urls self (InTable browser_session Q) (Opens crypto (OtherHash hash))
        λ c db o.
          run-InSessions crypto urls self Q (deletes-AllRevoked (has_hash hash)) (OtherHash hash)
            (λ principal_id other label now expires_at t fresh new h.
              let row = new_credential t.next_id principal_id other label now expires_at in
              ground (
                arith,
                fresh,
                any-append (λ r. has_hash hash r && is_none r.revoked_at) t.rows (row ∷ []),
              ))
            (λ now p t h.
              any-update_where (λ r. has_hash hash r && is_none r.revoked_at) p (revoked_row now)
                t.rows (λ r k. ground arith) h)
            (λ now expires_at p t h.
              any-update_where (λ r. has_hash hash r && is_none r.revoked_at) p
                (rolled_row now expires_at) t.rows (λ r k. k) h)
            c db o

  pub principal_calls :
      (id : ℕ) (calls : List Call) (db : Db)
      → All (Opens crypto (OtherPrincipal id)) calls
      → InTable browser_session (AllRevoked (is_of id)) db
      → InTable browser_session (AllRevoked (is_of id)) (run_all crypto urls self calls db)
  principal_calls id =
      let Q = AllRevoked (is_of id) in
      run_all_induction crypto urls self (InTable browser_session Q)
        (Opens crypto (OtherPrincipal id))
        λ c db o.
          run-InSessions crypto urls self Q (deletes-AllRevoked (is_of id)) (OtherPrincipal id)
            (λ principal_id other label now expires_at t fresh new h.
              let row = new_credential t.next_id principal_id other label now expires_at in
              ground (
                arith,
                fresh,
                any-append (λ r. is_of id r && is_none r.revoked_at) t.rows (row ∷ []),
              ))
            (λ now p t h.
              any-update_where (λ r. is_of id r && is_none r.revoked_at) p (revoked_row now) t.rows
                (λ r k. ground arith) h)
            (λ now expires_at p t h.
              any-update_where (λ r. is_of id r && is_none r.revoked_at) p
                (rolled_row now expires_at) t.rows (λ r k. k) h)
            c db o

  revoke_by_hash :
      (secret : Text) (clock : Clock) (db : Db) (b : Bool)
      → is_empty secret ≡ false
      → (revoke_browser_session crypto secret clock db).0 ≡ ok b
      → InTable browser_session
          (AllRevoked (has_hash (crypto.sha256 secret)))
          (revoke_browser_session crypto secret clock db).1
  unfolding revoke_browser_session revoke_credential
  revoke_by_hash secret clock db b e h = elim (Result-cases (unix_now clock)) [
    | inl (now, read) ↦ ground (
      arith,
      revoke_all_rows (has_hash (crypto.sha256 secret)) (λ now r. refl) now
          db.browser_sessions.rows,
    )
    | inr (e', failed) ↦ ground arith
  ]

  reject_revoked :
      (secret : Text) (clock : Clock) (db : Db)
      → InTable browser_session (AllRevoked (has_hash (crypto.sha256 secret))) db
      → (authenticate_browser_session crypto self secret clock db).0 ≡ ok none
  unfolding authenticate_browser_session authenticate_credential find_credential use_credential
  reject_revoked secret clock db h =
      let test = λ (r : CredentialRow).
        text_eq r.secret_hash (crypto.sha256 secret) && is_none r.revoked_at in
      ground (arith, find_none test db.browser_sessions.rows h)

  -- In any database, once revoking a browser session answers, whatever it answers, then after any
  -- calls, none of which opens a session whose random secret has the same digest, the session's
  -- secret authenticates nobody, at every clock.
  pub revoked_session_rejected :
      (secret : Text) (clock clock' : Clock) (db : Db) (b : Bool) (calls : List Call)
      → (revoke_browser_session crypto secret clock db).0 ≡ ok b
      → All (Opens crypto (OtherHash (crypto.sha256 secret))) calls
      → (authenticate_browser_session crypto self secret clock'
          (run_all crypto urls self calls (revoke_browser_session crypto secret clock db).1)).0
        ≡ ok none
  revoked_session_rejected secret clock clock' db b calls e others =
      elim (Bool-cases (is_empty secret)) [
        | inl blank ↦ unfold authenticate_browser_session authenticate_credential in ground arith
        | inr given ↦
            reject_revoked secret clock'
              (run_all crypto urls self calls (revoke_browser_session crypto secret clock db).1)
              (hash_calls (crypto.sha256 secret) calls _ others
                (revoke_by_hash secret clock db b given e))
      ]

  pub revoke_by_principal :
      (id : ℕ) (clock : Clock) (db : Db) (n : ℕ)
      → (revoke_principal_credentials id clock db).0 ≡ ok n
      → InTable browser_session (AllRevoked (is_of id)) (revoke_principal_credentials id clock db).1
  unfolding revoke_principal_credentials
  revoke_by_principal id clock db n h = elim (Result-cases (unix_now clock)) [
    | inl (now, read) ↦
        ground (arith, revoke_all_rows (is_of id) (λ now r. refl) now db.browser_sessions.rows)
    | inr (e', failed) ↦ ground arith
  ]
