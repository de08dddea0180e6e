-- ===== src/Store/Frame/Credentials.antt =====
-- The calls on principals, sessions and tokens.
use rustypaste.Prelude.{any, Bool-cases, inl, inr, ℕ, Option, some, none, List, Text, Bool}
use rustypaste.Store.Base.{Crypto, AuthStore, Duration, Random, Clock}
use rustypaste.Store.Schema.{Db, Table, PrincipalRow, CredentialRow}
use rustypaste.Store.Keeps.{Keeps, keeps_rules}
use rustypaste.Store.Principals.{
  PrincipalKind, upsert, upsert_oidc_principal, upsert_named_principal,
}
use rustypaste.Store.Credentials.{
  CredentialTable, api_token, set_table, insert_credential, prune_credentials, store_credential,
  create_credential, revoke_credential, revoke_managed_api_tokens, revoke_principal_credentials,
  revoke_api_token_by_id,
}
use rustypaste.Store.Authenticate.{
  Found, roll, use_credential, authenticate_credential, provision_row, provision_static_api_token,
}

module _ (P : Db → Type 0)
    (free : (t : Table PrincipalRow) (db : Db) → P db → P (record db { principals = t })) where
  upsert-Keeps :
      (conflict : PrincipalRow → Bool) (refresh : PrincipalRow → PrincipalRow) (new : PrincipalRow)
      (db : Db)
      → P db
      → P (upsert conflict refresh new db)
  unfolding upsert
  upsert-Keeps conflict refresh new db h = elim (Bool-cases (any conflict db.principals.rows)) [
    | inl old ↦ rw old (free _ _ h)
    | inr fresh ↦ rw fresh (free _ _ h)
  ]

  pub upsert_oidc_principal-Keeps :
      (issuer subject : Text) (email display_name : Option Text) (is_admin : Bool) (clock : Clock)
      → Keeps P (upsert_oidc_principal issuer subject email display_name is_admin clock)
  upsert_oidc_principal-Keeps issuer subject email display_name is_admin clock =
      unfold upsert_oidc_principal in search (keeps_rules, upsert-Keeps) depth 8

  pub upsert_named_principal-Keeps :
      (kind : PrincipalKind) (name : Text) (is_admin can_delete_all : Bool) (clock : Clock)
      → Keeps P (upsert_named_principal kind name is_admin can_delete_all clock)
  upsert_named_principal-Keeps kind name is_admin can_delete_all clock =
      unfold upsert_named_principal in search (keeps_rules, upsert-Keeps) depth 8

module _ (P : Db → Type 0) (table : CredentialTable)
    (free : (t : Table CredentialRow) (db : Db) → P db → P (set_table table t db)) where
  pub insert_credential-Keeps : (row : CredentialRow) → Keeps P (insert_credential table row)
  unfolding insert_credential
  insert_credential-Keeps row = search (keeps_rules, free) depth 8

  pub prune_credentials-Keeps :
      (principal_id now : ℕ) → Keeps P (prune_credentials table principal_id now)
  unfolding prune_credentials
  prune_credentials-Keeps principal_id now = search (keeps_rules, free)

  store_credential-Keeps :
      (crypto : Crypto) (principal_id : ℕ) (label : Option Text) (secret : Text)
      (now expires_at : ℕ)
      → Keeps P (store_credential crypto table principal_id label secret now expires_at)
  unfolding store_credential
  store_credential-Keeps crypto principal_id label secret now expires_at =
      search (keeps_rules, insert_credential-Keeps, prune_credentials-Keeps) depth 8

  pub create_credential-Keeps :
      (crypto : Crypto) (principal_id : ℕ) (label : Option Text) (timeout : Duration)
      (random : Random) (clock : Clock)
      → Keeps P (create_credential crypto table principal_id label timeout random clock)
  unfolding create_credential
  create_credential-Keeps crypto principal_id label timeout random clock =
      search (keeps_rules, store_credential-Keeps) depth 8

  pub revoke_credential-Keeps :
      (crypto : Crypto) (secret : Text) (clock : Clock)
      → Keeps P (revoke_credential crypto table secret clock)
  unfolding revoke_credential
  revoke_credential-Keeps crypto secret clock = search (keeps_rules, free) depth 8

  module _
      (free_principals : (t : Table PrincipalRow) (db : Db)
        → P db
        → P (record db { principals = t })) where
    roll-Keeps :
        (timeout : Duration) (now : ℕ) (c : CredentialRow) (p : PrincipalRow)
        → Keeps P (roll table timeout now c p)
    unfolding roll
    roll-Keeps timeout now c p = search (keeps_rules, free, free_principals) depth 8

    pub use_credential-Keeps :
        (timeout : Duration) (clock : Clock) (found : Found)
        → Keeps P (use_credential table timeout clock found)
    unfolding use_credential
    use_credential-Keeps timeout clock none = search keeps_rules
    use_credential-Keeps timeout clock (some (c, p)) =
        search (keeps_rules, roll-Keeps, free) depth 8

    pub authenticate_credential-Keeps :
        (crypto : Crypto) (secret : Text) (timeout : Duration) (clock : Clock)
        → Keeps P (authenticate_credential crypto table secret timeout clock)
    unfolding authenticate_credential
    authenticate_credential-Keeps crypto secret timeout clock =
        search (keeps_rules, use_credential-Keeps) depth 8

module _ (P : Db → Type 0)
    (free : (t : Table CredentialRow) (db : Db) → P db → P (record db { api_tokens = t })) where
  pub revoke_managed_api_tokens-Keeps : (clock : Clock) → Keeps P (revoke_managed_api_tokens clock)
  unfolding revoke_managed_api_tokens
  revoke_managed_api_tokens-Keeps clock = search (keeps_rules, free) depth 8

  pub revoke_api_token_by_id-Keeps :
      (token_id : ℕ) (clock : Clock) → Keeps P (revoke_api_token_by_id token_id clock)
  unfolding revoke_api_token_by_id
  revoke_api_token_by_id-Keeps token_id clock = search (keeps_rules, free) depth 8

  provision_row-Keeps :
      (principal_id : ℕ) (hash : List ℕ) (label : Option Text) (now expires_at : ℕ)
      (existing : Option CredentialRow)
      → Keeps P (provision_row principal_id hash label now expires_at existing)
  unfolding provision_row
  provision_row-Keeps principal_id hash label now expires_at none =
      search (keeps_rules, insert_credential-Keeps P api_token free) depth 8
  provision_row-Keeps principal_id hash label now expires_at (some c) =
      search (keeps_rules, free) depth 8

  pub provision_static_api_token-Keeps :
      (crypto : Crypto) (self : AuthStore) (principal_id : ℕ) (token : Text) (label : Option Text)
      (clock : Clock)
      → Keeps P (provision_static_api_token crypto self principal_id token label clock)
  unfolding provision_static_api_token
  provision_static_api_token-Keeps crypto self principal_id token label clock =
      search (keeps_rules, provision_row-Keeps) depth 9

  pub revoke_principal_credentials-Keeps :
      (free_sessions : (t : Table CredentialRow) (db : Db)
        → P db
        → P (record db { browser_sessions = t }))
      (principal_id : ℕ) (clock : Clock)
      → Keeps P (revoke_principal_credentials principal_id clock)
  unfolding revoke_principal_credentials
  revoke_principal_credentials-Keeps free_sessions principal_id clock =
      search (keeps_rules, free, free_sessions) depth 10
