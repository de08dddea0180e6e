-- ===== src/Store/Credentials.antt =====
-- src/store.rs: browser sessions and API tokens, stored as digests with a rolling idle expiry.
pub mod Rows
pub mod Sessions
pub mod Revoked
pub mod Keys
pub mod Bound
pub mod Lookup
pub mod Alive
pub mod Used
use rustypaste.Prelude.{
  ℕ, ◌+◌, Bool, true, false, not, ◌&&◌, ◌||◌, Option, none, some, List, map, Text, codes, text_eq,
  starts_with, is_empty, is_some, is_none, ◌==◌, ltb, leb, any, take, keep_where, delete_where,
  update_where, count_where, order_by, if◌then◌else◌,
}
use rustypaste.Store.Base.{
  ok, err, database, unique_violation, foreign_key_violation, Duration, Clock, unix_now,
  expiry_from, Crypto, Random, generate_secret, AuthStore, max_active_credentials_per_principal,
}
use rustypaste.Store.Schema.{
  raise, CredentialRow, Table, Db, credential_clash, insert_row, with_rows, Tx, ◌>>=◌, ◌>>◌, pure,
  lift, gets, modify, transaction, with_option,
}
use rustypaste.Store.Principals.{Principal}

pub data CredentialTable : Type 0 where
  browser_session api_token : CredentialTable

abbrev pub table_of : CredentialTable → Db → Table CredentialRow
table_of browser_session db = db.browser_sessions
table_of api_token db = db.api_tokens

abbrev pub set_table : CredentialTable → Table CredentialRow → Db → Db
set_table browser_session t db = record db { browser_sessions = t }
set_table api_token t db = record db { api_tokens = t }

abbrev pub change_rows : CredentialTable → (List CredentialRow → List CredentialRow) → Db → Db
change_rows table f db =
    set_table table (with_rows (table_of table db) (f (table_of table db).rows)) db

pub record IssuedCredential : Type 0 where
  pub id : ℕ
  pub secret : Text
  pub expires_at : ℕ

pub record AuthenticatedPrincipal : Type 0 where
  pub credential_id : ℕ
  pub expires_at : ℕ
  pub principal : Principal

-- label GLOB 'service:*' OR label IN ('legacy-auth', 'legacy-delete'); NULL is not managed
abbrev pub is_managed : Option Text → Bool
is_managed none = false
is_managed (some label) =
    starts_with label (codes "service:")
    || text_eq label (codes "legacy-auth")
    || text_eq label (codes "legacy-delete")

-- `prune_sql` bounds every browser session, and the API tokens that no configuration manages.
abbrev pub is_dynamic : CredentialTable → CredentialRow → Bool
is_dynamic browser_session r = true
is_dynamic api_token r = not (is_managed r.label)

abbrev pub is_live : ℕ → CredentialRow → Bool
is_live now r = is_none r.revoked_at && ltb now r.expires_at

-- the rows of the inner SELECT of `prune_sql`
abbrev pub is_bounded : CredentialTable → ℕ → ℕ → CredentialRow → Bool
is_bounded table principal_id now r =
    r.principal_id == principal_id && is_live now r && is_dynamic table r

-- ORDER BY created_at DESC, id DESC
abbrev pub is_newer : CredentialRow → CredentialRow → Bool
is_newer a b = ltb b.created_at a.created_at || (a.created_at == b.created_at && ltb b.id a.id)

-- the ids that the inner SELECT of `prune_sql` returns
unfoldable pub kept_ids : CredentialTable → ℕ → ℕ → List CredentialRow → List ℕ
kept_ids table principal_id now rows =
    map (λ r. r.id)
      (take max_active_credentials_per_principal
        (order_by is_newer (keep_where (is_bounded table principal_id now) rows)))

-- the WHERE clause of `prune_sql`
abbrev pub is_pruned : CredentialTable → ℕ → ℕ → List ℕ → CredentialRow → Bool
is_pruned table principal_id now kept r =
    r.principal_id == principal_id
    && (is_some r.revoked_at
        || leb r.expires_at now
        || (is_dynamic table r && not (any (λ id. id == r.id) kept)))

unfoldable pub prune_rows : CredentialTable → ℕ → ℕ → List CredentialRow → List CredentialRow
prune_rows table principal_id now rows =
    let kept = kept_ids table principal_id now rows in
    delete_where (is_pruned table principal_id now kept) rows

unfoldable pub prune_credentials : CredentialTable → ℕ → ℕ → Tx (Unit {0})
prune_credentials table principal_id now =
    modify (change_rows table (prune_rows table principal_id now))

abbrev pub has_principal : ℕ → Db → Bool
has_principal id db = any (λ p. p.id == id) db.principals.rows

-- INSERT INTO browser_sessions or api_tokens: the key of the new row, unless its digest is there
-- already or its principal is not.
unfoldable pub insert_credential : CredentialTable → CredentialRow → Tx ℕ
insert_credential table row = do
  changed ← gets (λ db. insert_row credential_clash row (table_of table db))
  with_option changed (raise (database unique_violation)) (λ t. do
    known ← gets (has_principal row.principal_id)
    if known
        then (do modify (set_table table t); pure row.id)
        else raise (database foreign_key_violation))

abbrev pub new_credential :
    (id principal_id : ℕ) (secret_hash : List ℕ) (label : Option Text) (now expires_at : ℕ)
    → CredentialRow
new_credential id principal_id secret_hash label now expires_at = record {
  id = id;
  principal_id = principal_id;
  secret_hash = secret_hash;
  label = label;
  created_at = now;
  last_used_at = now;
  expires_at = expires_at;
  revoked_at = none;
}

-- `insert_sql` binds the label for an API token only.
abbrev pub label_for : CredentialTable → Option Text → Option Text
label_for browser_session label = none
label_for api_token label = label

-- The database part of `create_credential`, after its fallible preparations.
unfoldable pub store_credential :
    Crypto
    → CredentialTable
    → ℕ
    → Option Text
    → (secret : Text) (now expires_at : ℕ) → Tx IssuedCredential
store_credential crypto table principal_id label secret now expires_at = transaction (do
  next ← gets (λ db. (table_of table db).next_id)
  id ← insert_credential table (
      new_credential next principal_id (crypto.sha256 secret) (label_for table label) now
        expires_at)
  prune_credentials table principal_id now
  pure (ok (record { id = id; secret = secret; expires_at = expires_at })))

unfoldable pub create_credential :
    Crypto → CredentialTable → ℕ → Option Text → Duration → Random → Clock → Tx IssuedCredential
create_credential crypto table principal_id label timeout random clock = do
  secret ← lift (generate_secret crypto random)
  now ← lift (unix_now clock)
  expires_at ← lift (expiry_from now timeout)
  store_credential crypto table principal_id label secret now expires_at

unfoldable pub create_browser_session :
    Crypto → AuthStore → ℕ → Random → Clock → Tx IssuedCredential
create_browser_session crypto self principal_id random clock =
    create_credential crypto browser_session principal_id none self.session_idle_timeout random
      clock

unfoldable pub create_api_token :
    Crypto → AuthStore → ℕ → Option Text → Random → Clock → Tx IssuedCredential
create_api_token crypto self principal_id label random clock =
    create_credential crypto api_token principal_id label self.token_idle_timeout random clock

abbrev pub revoked_row : ℕ → CredentialRow → CredentialRow
revoked_row now r = record r { revoked_at = some now }

-- UPDATE SET revoked_at = now WHERE p AND revoked_at IS NULL
abbrev pub revoke_where : ℕ → (CredentialRow → Bool) → List CredentialRow → List CredentialRow
revoke_where now p = update_where (λ r. p r && is_none r.revoked_at) (revoked_row now)

abbrev pub revoked_by : (CredentialRow → Bool) → List CredentialRow → ℕ
revoked_by p = count_where (λ r. p r && is_none r.revoked_at)

unfoldable pub revoke_managed_api_tokens : Clock → Tx ℕ
revoke_managed_api_tokens clock = do
  now ← lift (unix_now clock)
  affected ← gets (λ db. revoked_by (λ r. is_managed r.label) db.api_tokens.rows)
  modify (change_rows api_token (revoke_where now (λ r. is_managed r.label)))
  pure affected

unfoldable pub revoke_principal_credentials : ℕ → Clock → Tx ℕ
revoke_principal_credentials principal_id clock = do
  now ← lift (unix_now clock)
  sessions ← gets (λ db. revoked_by (λ r. r.principal_id == principal_id) db.browser_sessions.rows)
  modify (change_rows browser_session (revoke_where now (λ r. r.principal_id == principal_id)))
  tokens ← gets (λ db. revoked_by (λ r. r.principal_id == principal_id) db.api_tokens.rows)
  modify (change_rows api_token (revoke_where now (λ r. r.principal_id == principal_id)))
  pure (sessions + tokens)

unfoldable pub revoke_credential : Crypto → CredentialTable → Text → Clock → Tx Bool
revoke_credential crypto table secret clock = if is_empty secret then pure false else do
  now ← lift (unix_now clock)
  let by_hash = λ (r : CredentialRow). text_eq r.secret_hash (crypto.sha256 secret)
  affected ← gets (λ db. revoked_by by_hash (table_of table db).rows)
  modify (change_rows table (revoke_where now by_hash))
  pure (affected == 1)

unfoldable pub revoke_browser_session : Crypto → Text → Clock → Tx Bool
revoke_browser_session crypto secret clock = revoke_credential crypto browser_session secret clock

unfoldable pub revoke_api_token : Crypto → Text → Clock → Tx Bool
revoke_api_token crypto token clock = revoke_credential crypto api_token token clock

unfoldable pub revoke_api_token_by_id : ℕ → Clock → Tx Bool
revoke_api_token_by_id token_id clock = do
  now ← lift (unix_now clock)
  affected ← gets (λ db. revoked_by (λ r. r.id == token_id) db.api_tokens.rows)
  modify (change_rows api_token (revoke_where now (λ r. r.id == token_id)))
  pure (affected == 1)
