-- ===== src/Store/Credentials/Rows.antt =====
-- What the calls of src/store.rs do to a table of credentials, as rules for a property `Q` of the
-- table. `Fresh` is what is known of the principals and digests inserted.
use rustypaste.Prelude.{
  ℕ, ◌≡◌, refl, Bool, false, Option, none, some, inl, inr, List, Text, any, delete_where,
  update_where, ◌&&◌, is_none, Bool-cases, ◌==◌,
}
use rustypaste.Store.Base.{
  ok, Crypto, Duration, Random, Clock, generate_secret, unix_now, expiry_from,
}
use rustypaste.Store.Schema.{
  PrincipalRow, CredentialRow, Table, Db, credential_clash, append_row, with_rows, pure, ◌>>◌,
  ◌>>=◌,
}
use rustypaste.Store.Keeps.{
  Keeps, Keeps-pure, Keeps-lift, Keeps-bind, Keeps-bind-lift, Keeps-gets-bind, Keeps-transaction,
  Keeps-then, bind_at, keeps_rules,
}
use rustypaste.Store.Credentials.{
  CredentialTable, browser_session, api_token, table_of, set_table, change_rows, label_for,
  new_credential, insert_credential, prune_credentials, prune_rows, kept_ids, is_pruned,
  has_principal, store_credential, create_credential, revoke_credential, revoked_row,
}
use rustypaste.Store.Authenticate.{Found, rolls, rolled_row, touch_principal, roll, use_credential}

abbrev pub InTable : CredentialTable → (Table CredentialRow → Type 0) → Db → Type 0
InTable table Q db = Q (table_of table db)

abbrev pub Deletes : (Table CredentialRow → Type 0) → Type 0
Deletes Q =
    (p : CredentialRow → Bool) (t : Table CredentialRow)
    → Q t
    → Q (with_rows t (delete_where p t.rows))

abbrev pub Inserts : (ℕ → List ℕ → Type 0) → (Table CredentialRow → Type 0) → Type 0
Inserts Fresh Q =
    (principal_id : ℕ) (hash : List ℕ) (label : Option Text) (now expires_at : ℕ)
    (t : Table CredentialRow)
    → Fresh principal_id hash
    → any (credential_clash (new_credential t.next_id principal_id hash label now expires_at))
        t.rows
      ≡ false
    → Q t
    → Q (append_row (new_credential t.next_id principal_id hash label now expires_at) t)

abbrev pub Revokes : (Table CredentialRow → Type 0) → Type 0
Revokes Q =
    (now : ℕ) (p : CredentialRow → Bool) (t : Table CredentialRow)
    → Q t
    → Q (with_rows t (update_where p (revoked_row now) t.rows))

abbrev pub Rolls : (Table CredentialRow → Type 0) → Type 0
Rolls Q =
    (now expires_at : ℕ) (p : CredentialRow → Bool) (t : Table CredentialRow)
    → Q t
    → Q (with_rows t (update_where p (rolled_row now expires_at) t.rows))

-- `Fresh` holds of the secret that the random bytes make.
abbrev pub MakesFresh : Crypto → (ℕ → List ℕ → Type 0) → ℕ → Random → Type 0
MakesFresh crypto Fresh principal_id random =
    (secret : Text)
    → generate_secret crypto random ≡ ok secret
    → Fresh principal_id (crypto.sha256 secret)

pub table_of-set_table :
    (table : CredentialTable) (t : Table CredentialRow) (db : Db)
    → table_of table (set_table table t db) ≡ t
table_of-set_table browser_session t db = refl
table_of-set_table api_token t db = refl

table_of-touch_principal :
    (table : CredentialTable) (now id : ℕ) (db : Db)
    → table_of table (touch_principal now id db) ≡ table_of table db
table_of-touch_principal browser_session now id db = refl
table_of-touch_principal api_token now id db = refl

module _ (table : CredentialTable) (Q : Table CredentialRow → Type 0) where
  pub change-InTable :
      (f : List CredentialRow → List CredentialRow) (db : Db)
      → Q (with_rows (table_of table db) (f (table_of table db).rows))
      → InTable table Q (change_rows table f db)
  change-InTable f db h = rw table_of-set_table h

  -- Inserting under the next key, then what follows.
  pub insert_credential-InTable :
      (Fresh : ℕ → List ℕ → Type 0) (inserts : Inserts Fresh Q) (principal_id : ℕ) (hash : List ℕ)
      (label : Option Text) (now expires_at : ℕ) (fresh : Fresh principal_id hash) (db : Db)
      → InTable table Q db
      → InTable table Q
          (insert_credential table
            (new_credential (table_of table db).next_id principal_id hash label now expires_at)
            db).1
  unfolding insert_credential
  insert_credential-InTable Fresh inserts principal_id hash label now expires_at fresh db h =
      let t = table_of table db in
      let row = new_credential t.next_id principal_id hash label now expires_at in
      elim (Bool-cases (any (credential_clash row) t.rows)) [
        | inl old ↦ rw old h
        | inr new ↦
            let added : InTable table Q (set_table table (append_row row t) db) =
              rw table_of-set_table
                (inserts principal_id hash label now expires_at t fresh new h) in
            elim (Bool-cases (has_principal principal_id db)) [
              | inl known ↦ rw (new, known) added
              | inr unknown ↦ rw (new, unknown) h
            ]
      ]

  module _ (deletes : Deletes Q) where
    pub prune_credentials-InTable :
        (principal_id now : ℕ) → Keeps (InTable table Q) (prune_credentials table principal_id now)
    unfolding prune_credentials prune_rows
    prune_credentials-InTable principal_id now = record {
      at = λ db h.
          let t = table_of table db in
          change-InTable (prune_rows table principal_id now) db (
            deletes (is_pruned table principal_id now (kept_ids table principal_id now t.rows)) t
              h);
    }

    module _ (Fresh : ℕ → List ℕ → Type 0) (inserts : Inserts Fresh Q) where
      store_credential-InTable :
          (crypto : Crypto) (principal_id : ℕ) (label : Option Text) (secret : Text)
          (now expires_at : ℕ)
          → Fresh principal_id (crypto.sha256 secret)
          → Keeps
              (InTable table Q)
              (store_credential crypto table principal_id label secret now expires_at)
      unfolding store_credential
      store_credential-InTable crypto principal_id label secret now expires_at fresh =
          let row = λ (next : ℕ).
            new_credential next principal_id (crypto.sha256 secret) (label_for table label) now
              expires_at in
          let insert = λ (next : ℕ). insert_credential table (row next) in
          let rest = λ (id : ℕ).
            prune_credentials table principal_id now
            >> pure (ok (record { id = id; secret = secret; expires_at = expires_at })) in
          Keeps-transaction _ (
            Keeps-gets-bind (λ db. (table_of table db).next_id) (λ next. insert next >>= rest)
              λ db h.
                bind_at (insert (table_of table db).next_id) rest db
                  (insert_credential-InTable Fresh inserts principal_id (crypto.sha256 secret)
                    (label_for table label) now expires_at fresh db h)
                  (λ id.
                    Keeps-then _ _ (prune_credentials-InTable principal_id now) (Keeps-pure _)))

      pub create_credential-InTable :
          (crypto : Crypto) (principal_id : ℕ) (label : Option Text) (timeout : Duration)
          (random : Random) (clock : Clock)
          → MakesFresh crypto Fresh principal_id random
          → Keeps
              (InTable table Q)
              (create_credential crypto table principal_id label timeout random clock)
      unfolding create_credential
      create_credential-InTable crypto principal_id label timeout random clock makes =
          Keeps-bind-lift _ _ λ secret e. Keeps-bind _ _ (Keeps-lift (unix_now clock)) λ now.
            Keeps-bind _ _ (Keeps-lift (expiry_from now timeout)) λ expires_at.
              store_credential-InTable crypto principal_id label secret now expires_at
                (makes secret e)

  touch_principal-InTable :
      (now id : ℕ) (db : Db) → InTable table Q db → InTable table Q (touch_principal now id db)
  touch_principal-InTable now id db h = rw table_of-touch_principal h

  module _ (revokes : Revokes Q) where
    pub revoke_credential-InTable :
        (crypto : Crypto) (secret : Text) (clock : Clock)
        → Keeps (InTable table Q) (revoke_credential crypto table secret clock)
    unfolding revoke_credential
    revoke_credential-InTable crypto secret clock =
        let step = λ (now : ℕ) (p : CredentialRow → Bool) (db : Db) (h : InTable table Q db).
          change-InTable (update_where p (revoked_row now)) db
            (revokes now p (table_of table db) h) in
        search (keeps_rules, step) depth 9

    module _ (rolls_on : Rolls Q) where
      roll-InTable :
          (timeout : Duration) (now : ℕ) (c : CredentialRow) (p : PrincipalRow)
          → Keeps (InTable table Q) (roll table timeout now c p)
      unfolding roll
      roll-InTable timeout now c p =
          let step = λ (expires_at : ℕ) (db : Db) (h : InTable table Q db).
            change-InTable (update_where (rolls c.id now) (rolled_row now expires_at)) db
              (rolls_on now expires_at (rolls c.id now) (table_of table db) h) in
          search (keeps_rules, step, touch_principal-InTable) depth 12

      pub use_credential-InTable :
          (timeout : Duration) (clock : Clock) (found : Found)
          → Keeps (InTable table Q) (use_credential table timeout clock found)
      unfolding use_credential
      use_credential-InTable timeout clock none = search keeps_rules
      use_credential-InTable timeout clock (some (c, p)) =
          let step = λ (now : ℕ) (db : Db) (h : InTable table Q db).
            change-InTable
              (update_where (λ r. r.id == c.id && is_none r.revoked_at) (revoked_row now)) db
              (revokes now _ (table_of table db) h) in
          search (keeps_rules, step, roll-InTable) depth 12
