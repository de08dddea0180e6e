-- ===== src/Store/Pastes/Insert.antt =====
-- src/store.rs: inserting paste metadata, with the reservation of its public link and the
-- suppression of an owner's duplicates.
use rustypaste.Prelude.{
  ℕ, Bool, true, false, ◌&&◌, Option, none, some, ◌∷◌, ◌++◌, Text, is_some, leb, find_where,
  update_where, if◌then◌else◌,
}
use rustypaste.Paste.Kind.{paste_type_to_str, dedup_category}
use rustypaste.Store.Base.{
  Result, ok, err, StoreError, database, unique_violation, foreign_key_violation, invalid_input,
  public_filename_conflict, i64_try_from, or_overflow, Clock, unix_now,
}
use rustypaste.Store.Schema.{
  PasteRow, Db, same_id, same_text, paste_clash, insert_row, Tx, ◌>>=◌, ◌>>◌, pure, raise, lift,
  gets, modify, transaction, with_option,
}
use rustypaste.Store.Credentials.{has_principal}
use rustypaste.Store.Pastes.{
  NewPaste, PasteRecord, paste_from_row, optional_paste, validate_new_paste, path_to_string,
  active_public_link_key, change_pastes, public_link_is_active,
}

-- What an INSERT comes to: its constraints are no error yet, since the callers look into them.
pub data Inserted : Type 0 where
  row : PasteRow → Inserted
  unique : Inserted
  foreign_key : Inserted

abbrev pub owner_is_known : Option ℕ → Db → Bool
owner_is_known none db = true
owner_is_known (some id) db = has_principal id db

unfoldable pub insert_paste_row : PasteRow → Tx Inserted
insert_paste_row r = do
  changed ← gets (λ db. insert_row paste_clash r db.pastes)
  with_option changed (pure unique) (λ t. do
    known ← gets (owner_is_known r.owner_principal_id)
    if known then (do modify (λ db. record db { pastes = t }); pure (row r)) else pure foreign_key)

abbrev pub paste_row :
    (id : ℕ)
    → NewPaste
    → (storage_path : Text) (size_bytes updated_at : ℕ) → (dedup_key link_key : Option Text)
    → PasteRow
paste_row id paste storage_path size_bytes updated_at dedup_key link_key = record {
  id = id;
  owner_principal_id = paste.owner_principal_id;
  public_filename = paste.public_filename;
  storage_path = storage_path;
  paste_type = paste_type_to_str paste.paste_type;
  created_at = paste.created_at;
  updated_at = updated_at;
  size_bytes = size_bytes;
  expires_at = paste.expires_at;
  content_hash = paste.content_hash;
  dedup_key = dedup_key;
  link_key = link_key;
}

-- WHERE link_key = ? AND expires_at IS NOT NULL AND expires_at <= ?
abbrev pub is_expired_link : Text → ℕ → PasteRow → Bool
is_expired_link link_key now r =
    same_text r.link_key (some link_key)
    && (elim r.expires_at [ none ↦ false | some expiry ↦ leb expiry now ])

abbrev pub cleared_row : PasteRow → PasteRow
cleared_row r = record r { link_key = none }

unfoldable pub clear_expired_public_link : Text → ℕ → Tx (Unit {0})
clear_expired_public_link link_key now =
    modify (change_pastes (update_where (is_expired_link link_key now) cleared_row))

unfoldable pub ensure_public_link_available : Text → ℕ → Tx (Unit {0})
ensure_public_link_available link_key now = do
  active ← gets (public_link_is_active link_key now)
  if active then raise (public_filename_conflict link_key) else pure tt

unfoldable pub prepare_public_link : Text → ℕ → Tx (Unit {0})
unfolding clear_expired_public_link ensure_public_link_available
prepare_public_link link_key now = do
  clear_expired_public_link link_key now
  ensure_public_link_available link_key now

abbrev pub prepare_optional_link : Option Text → ℕ → Tx (Unit {0})
prepare_optional_link none now = pure tt
prepare_optional_link (some link_key) now = prepare_public_link link_key now

-- A unique violation is a conflict of names where the link is held, and else a database error.
unfoldable pub after_insert : Option Text → ℕ → Inserted → Tx (Result PasteRecord)
after_insert link_key now (row r) = do paste ← lift (paste_from_row r); pure (ok paste)
after_insert (some link_key) now unique = do
  active ← gets (public_link_is_active link_key now)
  if active then raise (public_filename_conflict link_key) else raise (database unique_violation)
after_insert none now unique = raise (database unique_violation)
after_insert link_key now foreign_key = raise (database foreign_key_violation)

unfoldable pub insert_paste : NewPaste → Clock → Tx PasteRecord
unfolding insert_paste_row prepare_public_link after_insert
insert_paste paste clock = do
  lift (validate_new_paste paste)
  now ← lift (unix_now clock)
  let link_key = active_public_link_key paste now
  storage_path ← lift (path_to_string paste.storage_path)
  size_bytes ← lift (or_overflow (i64_try_from paste.size_bytes))
  transaction (do
    prepare_optional_link link_key now
    id ← gets (λ db. db.pastes.next_id)
    inserted ←
        insert_paste_row (paste_row id paste storage_path size_bytes paste.created_at none link_key)
    after_insert link_key now inserted)

pub data PasteInsert : Type 0 where
  inserted duplicate : PasteRecord → PasteInsert

-- WHERE owner_principal_id = ? AND dedup_key = ?
abbrev pub is_dedup : ℕ → Text → PasteRow → Bool
is_dedup owner dedup_key r =
    same_id r.owner_principal_id (some owner) && same_text r.dedup_key (some dedup_key)

unfoldable pub find_dedup_in_transaction : ℕ → Text → Tx (Option PasteRecord)
find_dedup_in_transaction owner dedup_key = do
  found ← gets (λ db. find_where (is_dedup owner dedup_key) db.pastes.rows)
  lift (optional_paste found)

unfoldable pub after_dedup_insert :
    (owner : ℕ) (dedup_key link_key : Text) (now : ℕ) → Inserted → Tx (Result PasteInsert)
unfolding find_dedup_in_transaction
after_dedup_insert owner dedup_key link_key now (row r) = do
  paste ← lift (paste_from_row r)
  pure (ok (inserted paste))
after_dedup_insert owner dedup_key link_key now unique = do
  existing ← find_dedup_in_transaction owner dedup_key
  with_option existing
      (do
        active ← gets (public_link_is_active link_key now)
        if active
            then raise (public_filename_conflict link_key)
            else raise (database unique_violation))
      (λ paste. pure (ok (duplicate paste)))
after_dedup_insert owner dedup_key link_key now foreign_key = raise (database foreign_key_violation)

-- the transaction of `insert_paste_deduplicated`
unfoldable pub dedup_transaction :
    NewPaste
    → (owner : ℕ) (dedup_key storage_path : Text) (size_bytes now : ℕ) → Tx (Result PasteInsert)
unfolding clear_expired_public_link ensure_public_link_available insert_paste_row after_dedup_insert
    find_dedup_in_transaction
dedup_transaction paste owner dedup_key storage_path size_bytes now = do
  clear_expired_public_link paste.public_filename now
  existing ← find_dedup_in_transaction owner dedup_key
  with_option existing
      (do
        ensure_public_link_available paste.public_filename now
        id ← gets (λ db. db.pastes.next_id)
        result ← insert_paste_row (
            paste_row id paste storage_path size_bytes paste.created_at (some dedup_key)
              (some paste.public_filename))
        after_dedup_insert owner dedup_key paste.public_filename now result)
      (λ found. pure (ok (duplicate found)))

abbrev require {ℓ} : {A : Type ℓ} → Option A → StoreError → Result A
require none e = err e
require (some a) e = ok a

unfoldable pub insert_paste_deduplicated : NewPaste → Clock → Tx PasteInsert
unfolding dedup_transaction
insert_paste_deduplicated paste clock = do
  lift (validate_new_paste paste)
  owner ← lift (
      require paste.owner_principal_id
        (invalid_input "deduplicated paste inserts require an owner"))
  if is_some paste.expires_at
      then raise (invalid_input "expiring pastes cannot use persistent deduplication")
      else (do
        category ← lift (
            require (dedup_category paste.paste_type)
              (invalid_input "this paste type does not support duplicate suppression"))
        let dedup_key = category ++ (b':' ∷ paste.content_hash)
        now ← lift (unix_now clock)
        storage_path ← lift (path_to_string paste.storage_path)
        size_bytes ← lift (or_overflow (i64_try_from paste.size_bytes))
        transaction (dedup_transaction paste owner dedup_key storage_path size_bytes now))
