-- ===== src/Server/ServingTests.antt =====
-- Examples of `serve` and `list`, src/server.rs.
use rustypaste.Prelude.{
  ℕ, text_eq, ◌≡◌, ◌≢◌, ◌⊎◌, ◌&&◌, refl, Bool, true, false, map, Option, none, some, List, [], ◌∷◌,
  Text, codes,
}
use rustypaste.Paste.Kind.{
  PasteType, oneshot, protected_file, is_oneshot, paste_type_to_str, paste_type_of_str,
  dedup_category,
}
use rustypaste.Store.Base.{unix_now, ok}
use rustypaste.Store.Schema.{Db, empty_db}
use rustypaste.Store.Principals.{
  Principal, service, upsert_named_principal, upsert, as_str, from_str,
}
use rustypaste.Store.Calls.{Call, run, run_all, add_paste}
use rustypaste.Store.Pastes.{
  OsPath, utf8, NewPaste, PasteRecord, validate_new_paste, path_to_string, paste_from_row,
  public_link_is_active, active_public_link_key,
}
use rustypaste.Store.Pastes.Insert.{
  insert_paste, clear_expired_public_link, ensure_public_link_available, insert_paste_row,
  prepare_public_link, after_insert,
}
use rustypaste.Store.Pastes.Query.{
  decode_all, find_pastes_by_public_filename, delete_paste_by_storage_path, list_owner_pastes,
}
use rustypaste.Store.Tests.{crypto, urls, self, named}
use rustypaste.Auth.Request.{
  accepted, refused, not_found, browser, RequestAuth, principal_id, is_admin,
}
use rustypaste.Server.Mime.{octet_stream, served_type}
use rustypaste.Server.Password.{extract_protected_password}
use rustypaste.Server.Serve.{
  ServedFiles, ServeConfig, ServeRequest, named_file, check_password, consume, serve_file,
  serve_content, serve_found, serve,
}
use rustypaste.Server.Once.{served_once}
use rustypaste.Server.Protected.{GivesPassword, served_with_password}
use rustypaste.Server.List.{
  ListItem, list_item_from_record, listed_records, list, ListsOwn, is_all_scope, listed_are_own,
}

abbrev paste_of : (name path : Text) → PasteType → NewPaste
paste_of name path kind = record {
  owner_principal_id = some 1;
  public_filename = name;
  storage_path = utf8 path;
  paste_type = kind;
  created_at = 1000;
  size_bytes = 5;
  expires_at = none;
  content_hash = codes "abc";
}

-- `ci` has uploaded a paste that is served once, and one with a password.
abbrev uploads : List Call
uploads =
    add_paste (paste_of (codes "once.txt") (codes "/u/oneshot/once.txt") oneshot) (some 1000)
    ∷ add_paste (paste_of (codes "p.txt") (codes "/u/protected/p.txt") protected_file) (some 1000)
    ∷ []

abbrev db : Db
db = run_all crypto urls self uploads (run_all crypto urls self named empty_db)

abbrev record_of : ℕ → (name path : Text) → PasteType → PasteRecord
record_of id name path kind = record {
  id = id;
  owner_principal_id = some 1;
  public_filename = name;
  storage_path = utf8 path;
  paste_type = kind;
  created_at = 1000;
  updated_at = 1000;
  size_bytes = 5;
  expires_at = none;
  content_hash = codes "abc";
}

abbrev once_record : PasteRecord
once_record = record_of 1 (codes "once.txt") (codes "/u/oneshot/once.txt") oneshot

abbrev guarded_record : PasteRecord
guarded_record = record_of 2 (codes "p.txt") (codes "/u/protected/p.txt") protected_file

abbrev is_at : Text → OsPath → Bool
is_at s (utf8 t) = text_eq s t
is_at s _ = false

abbrev files : ServedFiles
files = record {
  is_file = λ path. true;
  is_inside = λ path. true;
  has_password = is_at (codes "/u/protected/p.txt");
  verify = λ path password. some (text_eq password (codes "pw"));
  can_open = λ path. true;
  read = λ path. none;
  can_rename = λ path. true;
}

abbrev config : ServeConfig
config = record { mime_override = []; text_mime_overrides = []; hardening = true }

abbrev ci : Principal
ci = record {
  id = 1;
  kind = service;
  issuer = none;
  subject = none;
  stable_name = some (codes "ci");
  email = none;
  display_name = none;
  is_admin = false;
  can_delete_all = false;
  created_at = 1000;
  last_seen_at = 1000;
}

abbrev auth : RequestAuth
auth = record {
  principal = some ci;
  credential_id = some 1;
  expires_at = some 4600;
  global_delete = false;
  source = browser (codes "secret-a");
}

abbrev request : Text → Option Text → ServeRequest
request file password = record {
  file = file;
  download = true;
  headers = record { password = password; authorization = none };
  decode = λ s. none;
  of_extension = octet_stream;
}

abbrev for_once : ServeRequest
for_once = request (codes "once.txt") none

abbrev for_guarded : ServeRequest
for_guarded = request (codes "p.txt") (some (codes "pw"))

found_once :
    (find_pastes_by_public_filename (codes "once.txt") (some 1001) db).0 ≡ ok (once_record ∷ [])
unfolding is_oneshot paste_type_to_str paste_type_of_str dedup_category unix_now
    upsert_named_principal upsert as_str from_str run run_all validate_new_paste path_to_string
    paste_from_row public_link_is_active active_public_link_key insert_paste
    clear_expired_public_link ensure_public_link_available insert_paste_row prepare_public_link
    after_insert decode_all find_pastes_by_public_filename delete_paste_by_storage_path
    list_owner_pastes principal_id is_admin served_type extract_protected_password check_password
    consume serve_file serve_content serve_found serve list_item_from_record listed_records list
found_once = refl

serves_once :
    (serve files config auth for_once (some 1001) db).0
    ≡ accepted (named_file (utf8 (codes "/u/oneshot/once.txt")) octet_stream true)
unfolding is_oneshot paste_type_to_str paste_type_of_str dedup_category unix_now
    upsert_named_principal upsert as_str from_str run run_all validate_new_paste path_to_string
    paste_from_row public_link_is_active active_public_link_key insert_paste
    clear_expired_public_link ensure_public_link_available insert_paste_row prepare_public_link
    after_insert decode_all find_pastes_by_public_filename delete_paste_by_storage_path
    list_owner_pastes principal_id is_admin served_type extract_protected_password check_password
    consume serve_file serve_content serve_found serve list_item_from_record listed_records list
serves_once = refl

still_there :
    (find_pastes_by_public_filename
      (codes "p.txt")
      (some 1002)
      (serve files config auth for_once (some 1001) db).1).0
    ≡ ok (guarded_record ∷ [])
unfolding is_oneshot paste_type_to_str paste_type_of_str dedup_category unix_now
    upsert_named_principal upsert as_str from_str run run_all validate_new_paste path_to_string
    paste_from_row public_link_is_active active_public_link_key insert_paste
    clear_expired_public_link ensure_public_link_available insert_paste_row prepare_public_link
    after_insert decode_all find_pastes_by_public_filename delete_paste_by_storage_path
    list_owner_pastes principal_id is_admin served_type extract_protected_password check_password
    consume serve_file serve_content serve_found serve list_item_from_record listed_records list
still_there = refl

served_once_example : utf8 (codes "/u/protected/p.txt") ≢ utf8 (codes "/u/oneshot/once.txt")
served_once_example =
    served_once files config auth for_once (some 1001) db (once_record ∷ []) once_record
      (named_file (utf8 (codes "/u/oneshot/once.txt")) octet_stream true) (codes "p.txt")
      (some 1002) (guarded_record ∷ []) (λ r. true) guarded_record found_once refl refl serves_once
      still_there refl

-- It is gone.
once_is_gone :
    (find_pastes_by_public_filename
      (codes "once.txt")
      (some 1002)
      (serve files config auth for_once (some 1001) db).1).0
    ≡ ok []
unfolding is_oneshot paste_type_to_str paste_type_of_str dedup_category unix_now
    upsert_named_principal upsert as_str from_str run run_all validate_new_paste path_to_string
    paste_from_row public_link_is_active active_public_link_key insert_paste
    clear_expired_public_link ensure_public_link_available insert_paste_row prepare_public_link
    after_insert decode_all find_pastes_by_public_filename delete_paste_by_storage_path
    list_owner_pastes principal_id is_admin served_type extract_protected_password check_password
    consume serve_file serve_content serve_found serve list_item_from_record listed_records list
once_is_gone = refl

found_guarded :
    (find_pastes_by_public_filename (codes "p.txt") (some 1001) db).0 ≡ ok (guarded_record ∷ [])
unfolding is_oneshot paste_type_to_str paste_type_of_str dedup_category unix_now
    upsert_named_principal upsert as_str from_str run run_all validate_new_paste path_to_string
    paste_from_row public_link_is_active active_public_link_key insert_paste
    clear_expired_public_link ensure_public_link_available insert_paste_row prepare_public_link
    after_insert decode_all find_pastes_by_public_filename delete_paste_by_storage_path
    list_owner_pastes principal_id is_admin served_type extract_protected_password check_password
    consume serve_file serve_content serve_found serve list_item_from_record listed_records list
found_guarded = refl

serves_guarded :
    (serve files config auth for_guarded (some 1001) db).0
    ≡ accepted (named_file (utf8 (codes "/u/protected/p.txt")) octet_stream true)
unfolding is_oneshot paste_type_to_str paste_type_of_str dedup_category unix_now
    upsert_named_principal upsert as_str from_str run run_all validate_new_paste path_to_string
    paste_from_row public_link_is_active active_public_link_key insert_paste
    clear_expired_public_link ensure_public_link_available insert_paste_row prepare_public_link
    after_insert decode_all find_pastes_by_public_filename delete_paste_by_storage_path
    list_owner_pastes principal_id is_admin served_type extract_protected_password check_password
    consume serve_file serve_content serve_found serve list_item_from_record listed_records list
serves_guarded = refl

served_with_password_example :
    GivesPassword files config auth for_guarded
      (some 1001)
      db
      (guarded_record ∷ [])
      guarded_record
      (named_file (utf8 (codes "/u/protected/p.txt")) octet_stream true)
served_with_password_example =
    served_with_password files config auth for_guarded (some 1001) db (guarded_record ∷ [])
      guarded_record (named_file (utf8 (codes "/u/protected/p.txt")) octet_stream true)
      found_guarded refl refl serves_guarded

-- A wrong password is answered as a missing file is.
wrong_password_is_missing :
    (serve files config auth (request (codes "p.txt") (some (codes "no"))) (some 1001) db).0
    ≡ refused not_found
unfolding is_oneshot paste_type_to_str paste_type_of_str dedup_category unix_now
    upsert_named_principal upsert as_str from_str run run_all validate_new_paste path_to_string
    paste_from_row public_link_is_active active_public_link_key insert_paste
    clear_expired_public_link ensure_public_link_available insert_paste_row prepare_public_link
    after_insert decode_all find_pastes_by_public_filename delete_paste_by_storage_path
    list_owner_pastes principal_id is_admin served_type extract_protected_password check_password
    consume serve_file serve_content serve_found serve list_item_from_record listed_records list
wrong_password_is_missing = refl

abbrev to_date : ℕ → Text
to_date seconds = codes "date"

abbrev items : List ListItem
items = map (list_item_from_record to_date) (guarded_record ∷ once_record ∷ [])

lists : (list (λ path. true) to_date true auth none (some 1001) db).0 ≡ accepted items
unfolding is_oneshot paste_type_to_str paste_type_of_str dedup_category unix_now
    upsert_named_principal upsert as_str from_str run run_all validate_new_paste path_to_string
    paste_from_row public_link_is_active active_public_link_key insert_paste
    clear_expired_public_link ensure_public_link_available insert_paste_row prepare_public_link
    after_insert decode_all find_pastes_by_public_filename delete_paste_by_storage_path
    list_owner_pastes principal_id is_admin served_type extract_protected_password check_password
    consume serve_file serve_content serve_found serve list_item_from_record listed_records list
lists = refl

listed_are_own_example :
    (true ≡ true)
    × (((is_all_scope none && is_admin auth) ≡ true)
        ⊎ ListsOwn (λ path. true) to_date auth (some 1001) db items)
listed_are_own_example =
    listed_are_own (λ path. true) to_date true auth none (some 1001) db items lists
