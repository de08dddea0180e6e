-- ===== src/Store/Frame/Pastes.antt =====
-- The calls on paste metadata, and the purge.
use rustypaste.Prelude.{
  ℕ, ◌≡◌, Bool, false, any, delete_where, update_where, Bool-cases, inl, inr, Option, some, none,
  List, [], ◌∷◌, Text,
}
use rustypaste.Store.Base.{Clock}
use rustypaste.Store.Schema.{
  Db, Tx, Table, CredentialRow, OauthFlowRow, DeviceFlowRow, PasteRow, paste_clash, append_row,
}
use rustypaste.Store.Keeps.{Keeps, Keeps-pure, Keeps-modify, keeps_rules}
use rustypaste.Store.Purge.{purge_expired}
use rustypaste.Store.Pastes.{OsPath, NewPaste, change_pastes}
use rustypaste.Store.Pastes.Insert.{
  Inserted, row, unique, foreign_key, owner_is_known, is_expired_link, cleared_row,
  insert_paste_row, clear_expired_public_link, ensure_public_link_available, prepare_public_link,
  prepare_optional_link, after_insert, insert_paste, find_dedup_in_transaction, after_dedup_insert,
  dedup_transaction, insert_paste_deduplicated,
}
use rustypaste.Store.Pastes.Query.{delete_paste, delete_paste_by_storage_path}
use rustypaste.Store.Pastes.Reconcile.{
  has_path, refresh, entered, remove_path, remove_missing, record_entry, record_paste,
  record_entries, reconcile_pastes,
}

-- What the statements of these calls do keeps `P`.
pub record PasteSteps (P : Db → Type 0) : Type 0 where
  pub deletes : (p : PasteRow → Bool) (db : Db) → P db → P (change_pastes (delete_where p) db)
  pub clears :
      (link_key : Text) (now : ℕ) (db : Db)
      → P db
      → P (change_pastes (update_where (is_expired_link link_key now) cleared_row) db)
  pub refreshes :
      (paste : NewPaste) (path : Text) (now : ℕ) (db : Db)
      → P db
      → P (change_pastes (update_where (has_path path) (refresh paste now)) db)
  pub inserts :
      (r : PasteRow) (db : Db)
      → any (paste_clash r) db.pastes.rows ≡ false
      → P db
      → P (record db { pastes = append_row r db.pastes })

-- What the statements of an insert do keeps `P`.
pub record InsertSteps (P : Db → Type 0) : Type 0 where
  pub clears :
      (link_key : Text) (now : ℕ) (db : Db)
      → P db
      → P (change_pastes (update_where (is_expired_link link_key now) cleared_row) db)
  pub inserts :
      (r : PasteRow) (db : Db)
      → any (paste_clash r) db.pastes.rows ≡ false
      → P db
      → P (record db { pastes = append_row r db.pastes })

abbrev pub insert_steps : {P : Db → Type 0} → PasteSteps P → InsertSteps P
insert_steps steps = record { clears = steps.clears; inserts = steps.inserts }

module _ (P : Db → Type 0) (steps : InsertSteps P) where
  insert_paste_row-Keeps : (r : PasteRow) → Keeps P (insert_paste_row r)
  unfolding insert_paste_row
  insert_paste_row-Keeps r = record {
    at = λ db h. elim (Bool-cases (any (paste_clash r) db.pastes.rows)) [
      | inl old ↦ rw old h
      | inr new ↦ elim (Bool-cases (owner_is_known r.owner_principal_id db)) [
        | inl known ↦ rw (new, known) (steps.inserts r db new h)
        | inr stranger ↦ rw (new, stranger) h
      ]
    ];
  }

  clear_expired_public_link-Keeps :
      (link_key : Text) (now : ℕ) → Keeps P (clear_expired_public_link link_key now)
  unfolding clear_expired_public_link
  clear_expired_public_link-Keeps link_key now = Keeps-modify _ (steps.clears link_key now)

  ensure_public_link_available-Keeps :
      (link_key : Text) (now : ℕ) → Keeps P (ensure_public_link_available link_key now)
  unfolding ensure_public_link_available
  ensure_public_link_available-Keeps link_key now = search keeps_rules

  prepare_optional_link-Keeps :
      (link_key : Option Text) (now : ℕ) → Keeps P (prepare_optional_link link_key now)
  unfolding prepare_public_link
  prepare_optional_link-Keeps none now = search keeps_rules
  prepare_optional_link-Keeps (some link_key) now =
      search (keeps_rules, clear_expired_public_link-Keeps, ensure_public_link_available-Keeps)

  after_insert-Keeps :
      (link_key : Option Text) (now : ℕ) (inserted : Inserted)
      → Keeps P (after_insert link_key now inserted)
  unfolding after_insert
  after_insert-Keeps link_key now (row r) = search keeps_rules
  after_insert-Keeps none now unique = search keeps_rules
  after_insert-Keeps (some link_key) now unique = search keeps_rules
  after_insert-Keeps none now foreign_key = search keeps_rules
  after_insert-Keeps (some link_key) now foreign_key = search keeps_rules

  pub insert_paste-Keeps : (paste : NewPaste) (clock : Clock) → Keeps P (insert_paste paste clock)
  unfolding insert_paste
  insert_paste-Keeps paste clock =
      search (keeps_rules, prepare_optional_link-Keeps, insert_paste_row-Keeps, after_insert-Keeps)
        depth 14

  find_dedup_in_transaction-Keeps :
      (owner : ℕ) (dedup_key : Text) → Keeps P (find_dedup_in_transaction owner dedup_key)
  unfolding find_dedup_in_transaction
  find_dedup_in_transaction-Keeps owner dedup_key = search keeps_rules

  after_dedup_insert-Keeps :
      (owner : ℕ) (dedup_key link_key : Text) (now : ℕ) (inserted : Inserted)
      → Keeps P (after_dedup_insert owner dedup_key link_key now inserted)
  unfolding after_dedup_insert
  after_dedup_insert-Keeps owner dedup_key link_key now (row r) = search keeps_rules
  after_dedup_insert-Keeps owner dedup_key link_key now unique =
      search (keeps_rules, find_dedup_in_transaction-Keeps) depth 8
  after_dedup_insert-Keeps owner dedup_key link_key now foreign_key = search keeps_rules

  pub insert_paste_deduplicated-Keeps :
      (paste : NewPaste) (clock : Clock) → Keeps P (insert_paste_deduplicated paste clock)
  unfolding insert_paste_deduplicated dedup_transaction
  insert_paste_deduplicated-Keeps paste clock =
      search
        (
          keeps_rules, clear_expired_public_link-Keeps, find_dedup_in_transaction-Keeps,
          ensure_public_link_available-Keeps, insert_paste_row-Keeps, after_dedup_insert-Keeps,
        )
        depth 20

module _ (P : Db → Type 0) (steps : PasteSteps P) where
  pub delete_paste-Keeps : (id : ℕ) → Keeps P (delete_paste id)
  unfolding delete_paste
  delete_paste-Keeps id = let deletes = steps.deletes in search (keeps_rules, deletes) depth 8

  pub delete_paste_by_storage_path-Keeps :
      (path : OsPath) → Keeps P (delete_paste_by_storage_path path)
  unfolding delete_paste_by_storage_path
  delete_paste_by_storage_path-Keeps path =
      let deletes = steps.deletes in search (keeps_rules, deletes) depth 8

  remove_path-Keeps :
      (incoming : List Text) (path : Text) (others : Tx ℕ)
      → Keeps P others
      → Keeps P (remove_path incoming path others)
  unfolding remove_path
  remove_path-Keeps incoming path others h =
      let deletes = steps.deletes in search (keeps_rules, deletes) depth 8

  remove_missing-Keeps :
      (incoming existing : List Text) → Keeps P (remove_missing incoming existing)
  unfolding remove_missing
  remove_missing-Keeps incoming [] = Keeps-pure _
  remove_missing-Keeps incoming (path ∷ paths) =
      remove_path-Keeps incoming path _ (remove_missing-Keeps incoming paths)

  entered-Keeps : (inserted : Inserted) → Keeps P (entered inserted)
  entered-Keeps (row r) = search keeps_rules
  entered-Keeps unique = search keeps_rules
  entered-Keeps foreign_key = search keeps_rules

  record_entry-Keeps :
      (paste : NewPaste) (path : Text) (now : ℕ) → Keeps P (record_entry paste path now)
  unfolding record_entry
  record_entry-Keeps paste path now =
      let refreshes = steps.refreshes in
      let row_kept = insert_paste_row-Keeps P (insert_steps steps) in
      search (keeps_rules, row_kept, entered-Keeps, refreshes) depth 9

  record_paste-Keeps :
      (paste : NewPaste) (now : ℕ) (others : Tx ℕ)
      → Keeps P others
      → Keeps P (record_paste paste now others)
  unfolding record_paste
  record_paste-Keeps paste now others h = search (keeps_rules, record_entry-Keeps) depth 9

  record_entries-Keeps : (pastes : List NewPaste) (now : ℕ) → Keeps P (record_entries pastes now)
  unfolding record_entries
  record_entries-Keeps [] now = Keeps-pure _
  record_entries-Keeps (paste ∷ pastes) now =
      record_paste-Keeps paste now _ (record_entries-Keeps pastes now)

  pub reconcile_pastes-Keeps :
      (pastes : List NewPaste) (clock : Clock) → Keeps P (reconcile_pastes pastes clock)
  unfolding reconcile_pastes
  reconcile_pastes-Keeps pastes clock =
      search (keeps_rules, remove_missing-Keeps, record_entries-Keeps) depth 12

-- `purge_expired` writes every table but those of principals and pastes.
module _ (P : Db → Type 0)
    (free_sessions : (t : Table CredentialRow) (db : Db)
      → P db
      → P (record db { browser_sessions = t }))
    (free_tokens : (t : Table CredentialRow) (db : Db) → P db → P (record db { api_tokens = t }))
    (free_flows : (t : Table OauthFlowRow) (db : Db) → P db → P (record db { oauth_flows = t }))
    (free_devices : (t : Table DeviceFlowRow) (db : Db)
      → P db
      → P (record db { cli_device_flows = t })) where
  pub purge_expired-Keeps : (clock : Clock) → Keeps P (purge_expired clock)
  unfolding purge_expired
  purge_expired-Keeps clock =
      search (keeps_rules, free_sessions, free_tokens, free_flows, free_devices) depth 14
