-- ===== src/Store/Authenticate.antt =====
-- src/store.rs: looking a credential up by its secret, the rolling expiry, static tokens and the
-- purge. `authenticate_credential` runs its statements outside a transaction, so it is split where
-- another connection may write: `find_credential` reads, `use_credential` writes.
use rustypaste.Prelude.{
  ℕ, ◌+◌, Bool, ◌&&◌, Option, none, some, List, Text, text_eq, is_empty, is_blank, is_none, ◌==◌,
  leb, update_where, count_where, find_where, if◌then◌else◌,
}
use rustypaste.Store.Base.{
  Result, ok, err, invalid_input, Duration, Clock, unix_now, expiry_from, Crypto, AuthStore,
  rolling_update_interval_seconds,
}
use rustypaste.Store.Schema.{
  PrincipalRow, CredentialRow, Db, with_rows, Tx, ◌>>=◌, ◌>>◌, pure, raise, lift, gets, modify,
  transaction,
}
use rustypaste.Store.Principals.{principal_from_row}
use rustypaste.Store.Credentials.{
  CredentialTable, browser_session, api_token, table_of, change_rows, revoked_row,
  AuthenticatedPrincipal, insert_credential, new_credential,
}

-- a row of `authenticate_sql`: a credential that is not revoked, and its principal
abbrev pub Found : Type 0
Found = Option (CredentialRow × PrincipalRow)

abbrev pub join_principal : Db → Option CredentialRow → Found
join_principal db none = none
join_principal db (some c) = elim (find_where (λ p. p.id == c.principal_id) db.principals.rows) [
  | none ↦ none
  | some p ↦ some (c, p)
]

unfoldable pub find_credential : Crypto → CredentialTable → Text → Db → Found
find_credential crypto table secret db = join_principal db (
    find_where (λ c. text_eq c.secret_hash (crypto.sha256 secret) && is_none c.revoked_at)
      (table_of table db).rows)

-- `last_used_at <= now.saturating_sub(3600)`, with the subtraction moved over
abbrev pub is_due : ℕ → ℕ → Bool
is_due now last_used_at = leb (last_used_at + rolling_update_interval_seconds) now

-- the SET lists of `roll_sql` and of the update of a static token
abbrev pub rolled_row : (now expires_at : ℕ) → CredentialRow → CredentialRow
rolled_row now expires_at r = record r { last_used_at = now; expires_at = expires_at }

abbrev pub provisioned_row : Option Text → (now expires_at : ℕ) → CredentialRow → CredentialRow
provisioned_row label now expires_at r = record r {
  label = label;
  last_used_at = now;
  expires_at = expires_at;
  revoked_at = none;
}

-- WHERE id = ? AND last_used_at <= ? AND revoked_at IS NULL, of `roll_sql`
abbrev pub rolls : ℕ → ℕ → CredentialRow → Bool
rolls id now r = r.id == id && is_due now r.last_used_at && is_none r.revoked_at

abbrev pub authenticated : CredentialRow → PrincipalRow → ℕ → Result (Option AuthenticatedPrincipal)
authenticated c p expires_at = elim (principal_from_row p) [
  | ok principal ↦
      ok (some (record { credential_id = c.id; expires_at = expires_at; principal = principal }))
  | err e ↦ err e
]

abbrev pub touch_principal : ℕ → ℕ → Db → Db
touch_principal now id db = record db {
  principals = with_rows db.principals (
      update_where (λ p. p.id == id) (λ p. record p { last_seen_at = now; updated_at = now })
        db.principals.rows);
}

unfoldable pub roll :
    CredentialTable
    → Duration
    → ℕ
    → CredentialRow
    → PrincipalRow
    → Tx (Option AuthenticatedPrincipal)
roll table timeout now c p = do
  rolled_expiry ← lift (expiry_from now timeout)
  affected ← gets (λ db. count_where (rolls c.id now) (table_of table db).rows)
  modify (change_rows table (update_where (rolls c.id now) (rolled_row now rolled_expiry)))
  if affected == 1
      then (do modify (touch_principal now p.id); lift (authenticated c p rolled_expiry))
      else lift (authenticated c p c.expires_at)

unfoldable pub use_credential :
    CredentialTable → Duration → Clock → Found → Tx (Option AuthenticatedPrincipal)
use_credential table timeout clock none = pure none
use_credential table timeout clock (some (c, p)) = do
  now ← lift (unix_now clock)
  if leb c.expires_at now
      then (do
        modify (
            change_rows table
              (update_where (λ r. r.id == c.id && is_none r.revoked_at) (revoked_row now)))
        pure none)
      else if is_due now c.last_used_at
      then roll table timeout now c p
      else lift (authenticated c p c.expires_at)

unfoldable pub authenticate_credential :
    Crypto → CredentialTable → Text → Duration → Clock → Tx (Option AuthenticatedPrincipal)
authenticate_credential crypto table secret timeout clock =
    if is_empty secret then pure none else do
      found ← gets (find_credential crypto table secret)
      use_credential table timeout clock found

unfoldable pub authenticate_browser_session :
    Crypto → AuthStore → Text → Clock → Tx (Option AuthenticatedPrincipal)
authenticate_browser_session crypto self secret clock =
    authenticate_credential crypto browser_session secret self.session_idle_timeout clock

unfoldable pub authenticate_api_token :
    Crypto → AuthStore → Text → Clock → Tx (Option AuthenticatedPrincipal)
authenticate_api_token crypto self secret clock =
    authenticate_credential crypto api_token secret self.token_idle_timeout clock

-- The token's row is extended and its revocation cleared, or a new row is added.
unfoldable pub provision_row :
    (principal_id : ℕ) (hash : List ℕ) (label : Option Text) (now expires_at : ℕ)
    → Option CredentialRow
    → Tx (Result ℕ)
provision_row principal_id hash label now expires_at (some existing) =
    if existing.principal_id == principal_id
    then (do
      modify (
          change_rows api_token
            (update_where (λ r. r.id == existing.id) (provisioned_row label now expires_at)))
      pure (ok existing.id))
    else raise (invalid_input "the same static token cannot belong to multiple principals")
provision_row principal_id hash label now expires_at none = do
  next ← gets (λ db. db.api_tokens.next_id)
  id ← insert_credential api_token (new_credential next principal_id hash label now expires_at)
  pure (ok id)

unfoldable pub provision_static_api_token :
    Crypto → AuthStore → ℕ → Text → Option Text → Clock → Tx ℕ
provision_static_api_token crypto self principal_id token label clock =
    if is_blank token then raise (invalid_input "static API token cannot be empty") else do
      now ← lift (unix_now clock)
      expires_at ← lift (expiry_from now self.token_idle_timeout)
      let hash = crypto.sha256 token
      transaction (do
        existing ← gets (λ db. find_where (λ r. text_eq r.secret_hash hash) db.api_tokens.rows)
        provision_row principal_id hash label now expires_at existing)
