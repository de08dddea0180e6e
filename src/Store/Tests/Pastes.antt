-- ===== src/Store/Tests/Pastes.antt =====
-- Examples of paste metadata, src/store.rs.
use rustypaste.Paste.Kind.{paste_type_to_str, paste_type_of_str, dedup_category, file}
use rustypaste.Prelude.{
  ◌≢◌, ℕ, ◌≡◌, refl, false, true, not, Option, none, some, List, [], ◌∷◌, Text, contains, codes,
  All, any, leb, arith,
}
use rustypaste.Server.Metadata.{after_insert}
use rustypaste.Store.Base.{unix_now, ok, err, public_filename_conflict}
use rustypaste.Store.Calls.{run, run_all, add_paste}
use rustypaste.Store.Pastes.{
  validate_new_paste, active_public_link_key, path_to_string, public_link_is_active, paste_from_row,
  NewPaste, PasteRecord, utf8,
}
use rustypaste.Store.Pastes.Dedup.{duplicate_suppressed}
use rustypaste.Store.Pastes.Insert.{
  insert_paste, clear_expired_public_link, ensure_public_link_available, prepare_public_link,
  insert_paste_row, find_dedup_in_transaction, after_dedup_insert, dedup_transaction,
  insert_paste_deduplicated, inserted, duplicate,
}
use rustypaste.Store.Pastes.Links.{held_link_refused}
use rustypaste.Store.Pastes.Ownership.{is_paste_of, reconcile_keeps_owner}
use rustypaste.Store.Pastes.Reconcile.{
  validate_all, incoming_paths, remove_path, remove_missing, record_entry, record_paste,
  record_entries, reconcile_pastes, has_path,
}
use rustypaste.Store.Pastes.Scanned.{reconciled_paths}
use rustypaste.Store.Pastes.Exclusive.{insert_either, link_is_exclusive}
use rustypaste.Store.Principals.{upsert_named_principal, upsert, as_str, from_str}
use rustypaste.Store.Schema.{empty_db, Db}
use rustypaste.Store.Tests.{crypto, self, urls, named}

abbrev paste : (owner : Option ℕ) (name path : Text) → NewPaste
paste owner name path = record {
  owner_principal_id = owner;
  public_filename = name;
  storage_path = utf8 path;
  paste_type = file;
  created_at = 1000;
  size_bytes = 5;
  expires_at = none;
  content_hash = codes "abc";
}

abbrev saved : (name path : Text) → PasteRecord
saved name path = record {
  id = 1;
  owner_principal_id = some 1;
  public_filename = name;
  storage_path = utf8 path;
  paste_type = file;
  created_at = 1000;
  updated_at = 1000;
  size_bytes = 5;
  expires_at = none;
  content_hash = codes "abc";
}

abbrev db : Db
db = run_all crypto urls self named empty_db

clock_read : (now : ℕ) → leb now 9223372036854775807 ≡ true → unix_now (some now) ≡ ok now
unfolding unix_now
clock_read now h = ground arith

abbrev first : NewPaste
first = paste (some 1) (codes "a.txt") (codes "/u/a")

abbrev clashing : NewPaste
clashing = paste (some 2) (codes "a.txt") (codes "/u/b")

is_valid : (validate_new_paste first ≡ ok tt) × (validate_new_paste clashing ≡ ok tt)
unfolding validate_new_paste
is_valid = (refl, refl)

in_utf8 :
    (path_to_string first.storage_path ≡ ok (codes "/u/a"))
    × (path_to_string clashing.storage_path ≡ ok (codes "/u/b"))
unfolding path_to_string
in_utf8 = (refl, refl)

links :
    (active_public_link_key first 1000 ≡ some (codes "a.txt"))
    × (active_public_link_key clashing 1001 ≡ some (codes "a.txt"))
unfolding active_public_link_key
links = (refl, refl)

stored : (insert_paste first (some 1000) db).0 ≡ ok (saved (codes "a.txt") (codes "/u/a"))
unfolding run run_all upsert_named_principal upsert as_str from_str unix_now insert_paste
    validate_new_paste active_public_link_key path_to_string public_link_is_active
    clear_expired_public_link ensure_public_link_available prepare_public_link insert_paste_row
    after_insert paste_from_row paste_type_to_str paste_type_of_str dedup_category
    find_dedup_in_transaction after_dedup_insert dedup_transaction insert_paste_deduplicated
    validate_all incoming_paths remove_path remove_missing record_entry record_paste record_entries
    reconcile_pastes
stored = refl

held : public_link_is_active (codes "a.txt") 1001 (insert_paste first (some 1000) db).1 ≡ true
unfolding run run_all upsert_named_principal upsert as_str from_str unix_now insert_paste
    validate_new_paste active_public_link_key path_to_string public_link_is_active
    clear_expired_public_link ensure_public_link_available prepare_public_link insert_paste_row
    after_insert paste_from_row paste_type_to_str paste_type_of_str dedup_category
    find_dedup_in_transaction after_dedup_insert dedup_transaction insert_paste_deduplicated
    validate_all incoming_paths remove_path remove_missing record_entry record_paste record_entries
    reconcile_pastes
held = refl

held_link_refused_example :
    insert_paste clashing (some 1001) (insert_paste first (some 1000) db).1
    ≡ (err (public_filename_conflict (codes "a.txt")), (insert_paste first (some 1000) db).1)
held_link_refused_example =
    held_link_refused clashing (some 1001) 1001 (codes "/u/b") (codes "a.txt")
      (insert_paste first (some 1000) db).1 is_valid.1 (clock_read 1001 refl) in_utf8.1 links.1 held

abbrev again : NewPaste
again = paste (some 1) (codes "c.txt") (codes "/u/c")

uploads_once :
    (insert_either false first (some 1000) db).0
    ≡ ok (inserted (saved (codes "a.txt") (codes "/u/a")))
unfolding run run_all upsert_named_principal upsert as_str from_str unix_now insert_paste
    validate_new_paste active_public_link_key path_to_string public_link_is_active
    clear_expired_public_link ensure_public_link_available prepare_public_link insert_paste_row
    after_insert paste_from_row paste_type_to_str paste_type_of_str dedup_category
uploads_once = refl

-- After another paste, the filename is still taken, for an upload with duplicate suppression too.
link_is_exclusive_example :
    (insert_either true clashing (some 1001) (
      run_all crypto urls self
        (add_paste again (some 1000) ∷ [])
        (insert_either false first (some 1000) db).1)).0
    ≢ ok (inserted (saved (codes "a.txt") (codes "/u/b")))
link_is_exclusive_example =
    link_is_exclusive crypto urls self first clashing false true (codes "a.txt") (some 1000)
      (some 1001) 1000 1001 (add_paste again (some 1000) ∷ []) db
      (saved (codes "a.txt") (codes "/u/a")) (clock_read 1000 refl) (clock_read 1001 refl) links.0
      refl uploads_once (tt, tt) links.1 (saved (codes "a.txt") (codes "/u/b"))

uploaded :
    (insert_paste_deduplicated first (some 1000) db).0
    ≡ ok (inserted (saved (codes "a.txt") (codes "/u/a")))
unfolding run run_all upsert_named_principal upsert as_str from_str unix_now insert_paste
    validate_new_paste active_public_link_key path_to_string public_link_is_active
    clear_expired_public_link ensure_public_link_available prepare_public_link insert_paste_row
    after_insert paste_from_row paste_type_to_str paste_type_of_str dedup_category
    find_dedup_in_transaction after_dedup_insert dedup_transaction insert_paste_deduplicated
    validate_all incoming_paths remove_path remove_missing record_entry record_paste record_entries
    reconcile_pastes
uploaded = refl

again_is_valid :
    (validate_new_paste again ≡ ok tt) × (path_to_string again.storage_path ≡ ok (codes "/u/c"))
unfolding validate_new_paste path_to_string
again_is_valid = (refl, refl)

as_file : dedup_category file ≡ some (codes "file")
unfolding dedup_category
as_file = refl

duplicate_suppressed_example :
    (insert_paste_deduplicated again
      (some 1001)
      (insert_paste_deduplicated first (some 1000) db).1).0
    ≡ ok (duplicate (saved (codes "a.txt") (codes "/u/a")))
duplicate_suppressed_example =
    duplicate_suppressed first again (some 1000) (some 1001) 1000 1001 1 (codes "file")
      (codes "/u/c") (inserted (saved (codes "a.txt") (codes "/u/a"))) db (clock_read 1000 refl)
      (clock_read 1001 refl) refl refl as_file as_file refl refl again_is_valid.0 again_is_valid.1
      uploaded

-- A scan that still has the first paste, and has a new one.
abbrev scan : List NewPaste
scan = paste none (codes "a.txt") (codes "/u/a") ∷ paste none (codes "d.txt") (codes "/u/d") ∷ []

abbrev scan_paths : List Text
scan_paths = codes "/u/a" ∷ codes "/u/d" ∷ []

scan_in_utf8 : incoming_paths scan ≡ ok scan_paths
unfolding run run_all upsert_named_principal upsert as_str from_str unix_now insert_paste
    validate_new_paste active_public_link_key path_to_string public_link_is_active
    clear_expired_public_link ensure_public_link_available prepare_public_link insert_paste_row
    after_insert paste_from_row paste_type_to_str paste_type_of_str dedup_category
    find_dedup_in_transaction after_dedup_insert dedup_transaction insert_paste_deduplicated
    validate_all incoming_paths remove_path remove_missing record_entry record_paste record_entries
    reconcile_pastes
scan_in_utf8 = refl

scanned :
    (reconcile_pastes scan (some 1002) (insert_paste first (some 1000) db).1).0
    ≡ ok (record { inserted = 1; removed = 0 })
unfolding run run_all upsert_named_principal upsert as_str from_str unix_now insert_paste
    validate_new_paste active_public_link_key path_to_string public_link_is_active
    clear_expired_public_link ensure_public_link_available prepare_public_link insert_paste_row
    after_insert paste_from_row paste_type_to_str paste_type_of_str dedup_category
    find_dedup_in_transaction after_dedup_insert dedup_transaction insert_paste_deduplicated
    validate_all incoming_paths remove_path remove_missing record_entry record_paste record_entries
    reconcile_pastes
scanned = refl

first_is_owned :
    any (is_paste_of (codes "/u/a") 1 1 1000) (insert_paste first (some 1000) db).1.pastes.rows
    ≡ true
unfolding run run_all upsert_named_principal upsert as_str from_str unix_now insert_paste
    validate_new_paste active_public_link_key path_to_string public_link_is_active
    clear_expired_public_link ensure_public_link_available prepare_public_link insert_paste_row
    after_insert paste_from_row paste_type_to_str paste_type_of_str dedup_category
    find_dedup_in_transaction after_dedup_insert dedup_transaction insert_paste_deduplicated
    validate_all incoming_paths remove_path remove_missing record_entry record_paste record_entries
    reconcile_pastes
first_is_owned = refl

reconciled_paths_example :
    (any
        (λ r. not (contains scan_paths r.storage_path))
        (reconcile_pastes scan (some 1002) (insert_paste first (some 1000) db).1).1.pastes.rows
      ≡ false)
    × All
        (λ path.
          any
            (has_path path)
            (reconcile_pastes scan (some 1002) (insert_paste first (some 1000) db).1).1.pastes.rows
          ≡ true)
        scan_paths
reconciled_paths_example =
    reconciled_paths scan (some 1002) scan_paths (record { inserted = 1; removed = 0 })
      (insert_paste first (some 1000) db).1 scan_in_utf8 scanned

reconcile_keeps_owner_example :
    any
      (is_paste_of (codes "/u/a") 1 1 1000)
      (reconcile_pastes scan (some 1002) (insert_paste first (some 1000) db).1).1.pastes.rows
    ≡ true
reconcile_keeps_owner_example =
    reconcile_keeps_owner scan (some 1002) scan_paths (record { inserted = 1; removed = 0 })
      (codes "/u/a") 1 1 1000 (insert_paste first (some 1000) db).1 scan_in_utf8 refl first_is_owned
      scanned
