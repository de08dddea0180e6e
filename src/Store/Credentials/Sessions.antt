-- ===== src/Store/Credentials/Sessions.antt =====
-- What every call of the store keeps of the table browser_sessions (src/store.rs).
use rustypaste.Prelude.{ℕ, Bool, List}
use rustypaste.Store.Base.{Crypto, AuthStore, Clock}
use rustypaste.Store.Schema.{Db, Table, CredentialRow}
use rustypaste.Store.Keeps.{Keeps, keeps_rules}
use rustypaste.Store.Credentials.{
  browser_session, api_token, create_browser_session, revoke_principal_credentials,
}
use rustypaste.Store.OauthFlows.{ReturnUrls}
use rustypaste.Store.Purge.{purge_expired}
use rustypaste.Store.Calls.{
  Call, open_session, use_found, revoke, revoke_all, purge, poll_device, run,
}
use rustypaste.Store.Calls.Tables.{run-Free}
use rustypaste.Store.Credentials.Rows.{
  InTable, Deletes, Inserts, Revokes, Rolls, MakesFresh, create_credential-InTable,
  revoke_credential-InTable, use_credential-InTable,
}

-- What a call that inserts a session must make.
abbrev pub Opens : Crypto → (ℕ → List ℕ → Type 0) → Call → Type 0
Opens crypto Fresh (open_session principal_id random clock) =
    MakesFresh crypto Fresh principal_id random
Opens crypto Fresh _ = Unit

module _ (crypto : Crypto) (urls : ReturnUrls) (self : AuthStore) (Q : Table CredentialRow → Type 0)
    (deletes : Deletes Q) (Fresh : ℕ → List ℕ → Type 0) (inserts : Inserts Fresh Q)
    (revokes : Revokes Q) (rolls_on : Rolls Q) where
  purge_expired-InSessions :
      (clock : Clock) → Keeps (InTable browser_session Q) (purge_expired clock)
  unfolding purge_expired
  purge_expired-InSessions clock =
      let step = λ (p : CredentialRow → Bool) (db : Db) (h : InTable browser_session Q db).
        deletes p db.browser_sessions h in
      search (keeps_rules, step) depth 14

  revoke_principal-InSessions :
      (principal_id : ℕ) (clock : Clock)
      → Keeps (InTable browser_session Q) (revoke_principal_credentials principal_id clock)
  unfolding revoke_principal_credentials
  revoke_principal-InSessions principal_id clock =
      let step =
        λ (now : ℕ) (p : CredentialRow → Bool) (db : Db) (h : InTable browser_session Q db).
          revokes now p db.browser_sessions h in
      search (keeps_rules, step) depth 14

  pub run-InSessions :
      (c : Call) (db : Db)
      → Opens crypto Fresh c
      → InTable browser_session Q db
      → InTable browser_session Q (run crypto urls self c db)
  unfolding run create_browser_session
  run-InSessions (open_session principal_id random clock) db o =
      (create_credential-InTable browser_session Q deletes Fresh inserts crypto principal_id _ _
          random clock o).at
        db
  run-InSessions (use_found browser_session timeout clock found) db o =
      (use_credential-InTable browser_session Q revokes rolls_on timeout clock found).at db
  run-InSessions (use_found api_token timeout clock found) db o =
      run-Free crypto urls self (InTable browser_session Q)
        (use_found api_token timeout clock found) db (λ t db' h. h, λ t db' h. h)
  run-InSessions (revoke browser_session secret clock) db o =
      (revoke_credential-InTable browser_session Q revokes crypto secret clock).at db
  run-InSessions (revoke_all principal_id clock) db o =
      (revoke_principal-InSessions principal_id clock).at db
  run-InSessions (purge clock) db o = (purge_expired-InSessions clock).at db
  run-InSessions (poll_device code label random clock) db o =
      run-Free crypto urls self (InTable browser_session Q) (poll_device code label random clock) db
        (λ t db' h. h, λ t db' h. h)
  run-InSessions c db o = run-Free crypto urls self (InTable browser_session Q) c db (λ t db' h. h)
