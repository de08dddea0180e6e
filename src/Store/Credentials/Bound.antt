-- ===== src/Store/Credentials/Bound.antt =====
-- src/store.rs, `prune_credentials`: how many live credentials a principal has after one is issued.
use Prim.Native.Nat.{◌≤◌}
use rustypaste.Prelude.{
  ℕ, ◌⊎◌, ◌≡◌, refl, true, false, not, Option, none, count_none, count_or, count_where_kept,
  any-false, List, [], ◌∷◌, map, take, length, length-take-le, Text, ◌==◌, any, any_weaken,
  keep_where, count_where, Distinct, order_by, Bool-cases, inl, inr, arith,
}
use rustypaste.Store.Base.{
  StoreError, database, unique_violation, foreign_key_violation, Result-cases, ok, err, unix_now,
  expiry_from, generate_secret, Crypto, AuthStore, Clock, Random,
}
use rustypaste.Store.Schema.{Db, CredentialRow, credential_clash, append_row, empty_db}
use rustypaste.Store.Credentials.{
  CredentialTable, browser_session, table_of, set_table, change_rows, IssuedCredential,
  new_credential, label_for, has_principal, is_bounded, is_pruned, is_newer, kept_ids, prune_rows,
  prune_credentials, insert_credential, store_credential, create_credential, create_browser_session,
}
use rustypaste.Store.OauthFlows.{ReturnUrls}
use rustypaste.Store.Calls.{Call, run_all}
use rustypaste.Store.Credentials.Rows.{InTable, table_of-set_table}
use rustypaste.Store.Credentials.Keys.{same_key, HasKeys, inserts-HasKeys, run_all-HasKeys}

-- COUNT of the rows with one of some ids
count_id :
    (id : ℕ) (rs : List CredentialRow) → Distinct same_key rs → count_where (λ r. id == r.id) rs ≤ 1
count_id id [] d = omega arith
count_id id (r ∷ rs) (d, ds) = elim (Bool-cases (id == r.id)) [
  | inl e ↦ ground (
    arith,
    count_none (λ x. id == x.id) rs
        (any_weaken (λ x. id == x.id) (same_key r) rs (λ x h. ground arith) d),
  )
  | inr e ↦ ground (arith, count_id id rs ds)
]

count_ids :
    (ids : List ℕ) (rs : List CredentialRow)
    → Distinct same_key rs
    → count_where (λ r. any (λ id. id == r.id) ids) rs ≤ length ids
count_ids [] rs d = omega (arith, count_none (λ r. false) rs (any-false rs))
count_ids (id ∷ ids) rs d = omega (
  arith,
  count_id id rs d,
  count_ids ids rs d,
  count_or (λ r. id == r.id) (λ r. any (λ i. i == r.id) ids) rs,
)

length-map : (rs : List CredentialRow) → length (map (λ r. r.id) rs) ≡ length rs
length-map [] = refl
length-map (r ∷ rs) = omega (arith, length-map rs)

insert_credential-cases :
    (table : CredentialTable) (row : CredentialRow) (db : Db)
    → (any (credential_clash row) (table_of table db).rows ≡ false
        × insert_credential table row db
          ≡ (ok row.id, set_table table (append_row row (table_of table db)) db))
      ⊎ ((e : StoreError) × insert_credential table row db ≡ (err e, db))
unfolding insert_credential
insert_credential-cases table row db =
    elim (Bool-cases (any (credential_clash row) (table_of table db).rows)) [
      | inl old ↦ inr (database unique_violation, rw old refl)
      | inr new ↦ elim (Bool-cases (has_principal row.principal_id db)) [
        | inl known ↦ inl (new, rw (new, known) refl)
        | inr unknown ↦ inr (database foreign_key_violation, rw (new, unknown) refl)
      ]
    ]

module _ (table : CredentialTable) (principal_id now : ℕ) where
  unpruned_is_kept :
      (kept : List ℕ) (r : CredentialRow)
      → is_bounded table principal_id now r ≡ true
      → not (is_pruned table principal_id now kept r) ≡ true
      → any (λ id. id == r.id) kept ≡ true
  unpruned_is_kept kept r bounded stays = ground arith

  prune_rows-bound :
      (rs : List CredentialRow)
      → Distinct same_key rs
      → count_where (is_bounded table principal_id now) (prune_rows table principal_id now rs) ≤ 32
  unfolding prune_rows kept_ids
  prune_rows-bound rs d =
      let newest = order_by is_newer (keep_where (is_bounded table principal_id now) rs) in
      let kept = kept_ids table principal_id now rs in
      let pruned = is_pruned table principal_id now kept in
      let stays =
        count_where_kept (is_bounded table principal_id now) (λ r. not (pruned r))
          (λ r. any (λ id. id == r.id) kept) rs (unpruned_is_kept kept) in
      omega
        (arith, stays, count_ids kept rs d, length-map (take 32 newest), length-take-le 32 newest)

  module _ (crypto : Crypto) (label : Option Text) (secret : Text) (expires_at : ℕ) (db : Db)
      (c : IssuedCredential) where
    row_of : CredentialRow
    row_of =
        new_credential (table_of table db).next_id principal_id (crypto.sha256 secret)
          (label_for table label) now expires_at

    store_credential-pruned :
        insert_credential table row_of db
          ≡ (ok row_of.id, set_table table (append_row row_of (table_of table db)) db)
        → (store_credential crypto table principal_id label secret now expires_at db).1
          ≡ change_rows table
              (prune_rows table principal_id now)
              (set_table table (append_row row_of (table_of table db)) db)
    unfolding store_credential prune_credentials row_of
    store_credential-pruned h = ground arith

    store_credential-refused :
        (e : StoreError)
        → insert_credential table row_of db ≡ (err e, db)
        → (store_credential crypto table principal_id label secret now expires_at db).0 ≡ err e
    unfolding store_credential row_of
    store_credential-refused e h = ground arith

    store_credential-bound :
        InTable table HasKeys db
        → (store_credential crypto table principal_id label secret now expires_at db).0 ≡ ok c
        → count_where
            (is_bounded table principal_id now)
            (table_of table
              (store_credential crypto table principal_id label secret now expires_at db).1).rows
          ≤ 32
    unfolding row_of
    store_credential-bound keys h = elim (insert_credential-cases table row_of db) [
      | inr (e, failed) ↦ absurd (ground (arith, store_credential-refused e failed))
      | inl (new, added) ↦
          rw (store_credential-pruned added, table_of-set_table, table_of-set_table)
            (prune_rows-bound (append_row row_of (table_of table db)).rows
              (inserts-HasKeys principal_id (crypto.sha256 secret) (label_for table label) now
                expires_at (table_of table db) tt new keys).0)
    ]

-- From an empty database, after any calls, a browser session that is issued at time `now` leaves its
-- principal with at most 32 unrevoked sessions that expire after `now`.
pub issued_session_bound :
    (crypto : Crypto) (urls : ReturnUrls) (self : AuthStore) (calls : List Call)
    (principal_id now : ℕ) (random : Random) (clock : Clock) (c : IssuedCredential)
    → unix_now clock ≡ ok now
    → (create_browser_session crypto self principal_id random clock
        (run_all crypto urls self calls empty_db)).0
      ≡ ok c
    → count_where
        (is_bounded browser_session principal_id now)
        (create_browser_session crypto self principal_id random clock
          (run_all crypto urls self calls empty_db)).1.browser_sessions.rows
      ≤ 32
unfolding create_browser_session create_credential
issued_session_bound crypto urls self calls principal_id now random clock c read h =
    let db = run_all crypto urls self calls empty_db in
    let keys = run_all-HasKeys crypto urls self calls in
    elim (Result-cases (generate_secret crypto random)) [
      | inr (e, failed) ↦ absurd (ground arith)
      | inl (secret, made) ↦ elim (Result-cases (expiry_from now self.session_idle_timeout)) [
        | inr (e, failed) ↦ absurd (ground arith)
        | inl (expires_at, fits) ↦ ground (
          arith,
          store_credential-bound browser_session principal_id now crypto none secret expires_at db c
              keys,
        )
      ]
    ]
