-- ===== src/Server/Tests.antt =====
-- Examples of src/server.rs.
use rustypaste.Prelude.{ℕ, ◌≡◌, refl, Bool, true, none, some, false, List, codes}
use rustypaste.Paste.Kind.{file, paste_type_to_str, paste_type_of_str, dedup_category}
use rustypaste.Store.Base.{Clock, unix_now}
use rustypaste.Store.Schema.{Db, empty_db}
use rustypaste.Store.Principals.{service, upsert_named_principal, upsert, as_str, from_str}
use rustypaste.Store.Calls.{run, run_all}
use rustypaste.Store.Pastes.{
  OsPath, utf8, NewPaste, PasteRecord, validate_new_paste, path_to_string, paste_from_row,
  public_link_is_active,
}
use rustypaste.Store.Pastes.Insert.{
  insert_paste_deduplicated, dedup_transaction, clear_expired_public_link,
  ensure_public_link_available, find_dedup_in_transaction, insert_paste_row, after_dedup_insert,
}
use rustypaste.Store.Tests.{crypto, urls, self, named}
use rustypaste.Auth.Request.{accepted, refused, forbidden, api, RequestAuth, principal_id}
use rustypaste.Store.Pastes.Query.{decode_all, find_pastes_by_public_filename, delete_paste}
use rustypaste.Server.Delete.{Files, delete_found, delete, DeletesOwn, deletion_is_owners}
use rustypaste.Server.Metadata.{
  after_insert, persist_round, persist_rounds, persist_paste_metadata, can_delete_record,
}

abbrev upload : (name path : List ℕ) → NewPaste
upload name path = record {
  owner_principal_id = some 1;
  public_filename = name;
  storage_path = utf8 path;
  paste_type = file;
  created_at = 1000;
  size_bytes = 5;
  expires_at = none;
  content_hash = codes "abc";
}

abbrev on_disk : OsPath → Bool
on_disk path = true

abbrev clocks : ℕ → Clock
clocks n = some 1000

-- The database once `ci` has uploaded a paste.
abbrev db : Db
db =
    (persist_paste_metadata on_disk (upload (codes "a.txt") (codes "/u/a")) true clocks
      (run_all crypto urls self named empty_db)).1

abbrev first : PasteRecord
first = record {
  id = 1;
  owner_principal_id = some 1;
  public_filename = codes "a.txt";
  storage_path = utf8 (codes "/u/a");
  paste_type = file;
  created_at = 1000;
  updated_at = 1000;
  size_bytes = 5;
  expires_at = none;
  content_hash = codes "abc";
}

answered :
    (persist_paste_metadata on_disk (upload (codes "b.txt") (codes "/u/b")) true clocks db).0
    ≡ accepted (some first)
unfolding run run_all upsert_named_principal upsert as_str unix_now validate_new_paste
    path_to_string paste_from_row paste_type_to_str paste_type_of_str dedup_category
    public_link_is_active insert_paste_deduplicated dedup_transaction clear_expired_public_link
    ensure_public_link_available find_dedup_in_transaction insert_paste_row after_dedup_insert
    after_insert persist_round persist_rounds persist_paste_metadata from_str
answered = refl

abbrev files : Files
files = record { is_file = on_disk; is_inside = on_disk; can_remove = on_disk }

abbrev identity : (id : ℕ) → RequestAuth
identity id = record {
  principal = some (record {
    id = id;
    kind = service;
    issuer = none;
    subject = none;
    stable_name = some (codes "ci");
    email = none;
    display_name = none;
    is_admin = false;
    can_delete_all = false;
    created_at = 1000;
    last_seen_at = 1000;
  });
  credential_id = some 1;
  expires_at = some 4600;
  global_delete = false;
  source = api (codes "secret-a");
}

deleted : (delete files (identity 1) (codes "a.txt") (some 1001) db).0 ≡ accepted tt
unfolding run run_all upsert_named_principal upsert as_str unix_now validate_new_paste
    path_to_string paste_from_row paste_type_to_str paste_type_of_str dedup_category
    public_link_is_active insert_paste_deduplicated dedup_transaction clear_expired_public_link
    ensure_public_link_available find_dedup_in_transaction insert_paste_row after_dedup_insert
    after_insert persist_round persist_rounds persist_paste_metadata from_str decode_all
    find_pastes_by_public_filename delete_paste principal_id can_delete_record delete_found delete
deleted = refl

-- Another principal is refused.
kept : (delete files (identity 2) (codes "a.txt") (some 1001) db).0 ≡ refused forbidden
unfolding run run_all upsert_named_principal upsert as_str unix_now validate_new_paste
    path_to_string paste_from_row paste_type_to_str paste_type_of_str dedup_category
    public_link_is_active insert_paste_deduplicated dedup_transaction clear_expired_public_link
    ensure_public_link_available find_dedup_in_transaction insert_paste_row after_dedup_insert
    after_insert persist_round persist_rounds persist_paste_metadata from_str decode_all
    find_pastes_by_public_filename delete_paste principal_id can_delete_record delete_found delete
kept = refl

deletion_is_owners_example :
    DeletesOwn files
      (identity 1)
      (codes "a.txt")
      (some 1001)
      db
      (delete files (identity 1) (codes "a.txt") (some 1001) db).1
deletion_is_owners_example =
    deletion_is_owners files (identity 1) (codes "a.txt") (some 1001) db refl deleted
