-- ===== src/Server/UploadTests.antt =====
-- Examples of src/server.rs, `upload`: `ci` uploads a file.
use rustypaste.Prelude.{
  ℕ, ◌≡◌, refl, true, false, none, some, [], ◌∷◌, List, Text, codes, text_eq, any,
}
use rustypaste.Auth.Request.{accepted, refused, internal}
use rustypaste.Paste.Kind.{
  file, paste_type_to_str, paste_type_of_str, dedup_category, get_dir, is_protected,
}
use rustypaste.Paste.Path.{
  parse, join, file_name, parent, set_file_name, rsplit_dot, file_stem, set_extension, to_text,
}
use rustypaste.Paste.Storage.{
  Disk, Os, StorageConfig, UploadResult, is_file, safe_path_join, get_path, is_blacklisted,
  check_dir_size, get_dir_size, requested_name, name_and_extension, apply_random, named_path,
  chosen_path,
}
use rustypaste.Paste.Write.{
  strip_timestamp, glob_match_file, get_password_file_path, delete_password_file, write_content,
  protect_and_write, store_at, store_file,
}
use rustypaste.Util.Extension.{get_extension_from_filename, find_extension}
use rustypaste.Util.Remote.{Resolver}
use rustypaste.Store.Base.{unix_now}
use rustypaste.Store.Schema.{Db, empty_db}
use rustypaste.Store.Principals.{upsert_named_principal, upsert, as_str, from_str}
use rustypaste.Store.Calls.{run, run_all}
use rustypaste.Store.Pastes.{
  validate_new_paste, path_to_string, paste_from_row, public_link_is_active,
}
use rustypaste.Store.Pastes.Insert.{
  insert_paste_deduplicated, dedup_transaction, clear_expired_public_link,
  ensure_public_link_available, find_dedup_in_transaction, insert_paste_row, after_dedup_insert,
}
use rustypaste.Store.Pastes.Inserted.{is_paste_at}
use rustypaste.Store.Pastes.Query.{find_owner_duplicate}
use rustypaste.Store.Tests.{crypto, urls, self, named}
use rustypaste.Server.Expiry.{expiry_seconds}
use rustypaste.Server.Metadata.{after_insert, persist_round, persist_rounds, persist_paste_metadata}
use rustypaste.Server.Upload.{
  Field, stored, answer_duplicate, find_duplicate, store_paste, stored_content, new_paste,
  record_metadata, find_remote_duplicate, record_upload, find_first_duplicate, upload_field,
}
use rustypaste.Server.Recorded.{IsSettled, record_upload-IsSettled, uploaded_is_recorded}

abbrev os : Os
os = record {
  infer = λ content. none;
  clean = λ path. path;
  is_known = λ ext. text_eq ext (codes "txt");
  glob_last = λ disk path. some none;
  can_list = λ path. true;
  create_error = λ path. none;
  write_error = λ path. none;
  partly_written = λ path. [];
  can_remove = λ path. true;
  hash_password = λ password. some password;
  now_millis = 1000;
  password = codes "pw";
}

abbrev config : StorageConfig
config = record {
  upload_path = record { is_absolute = true; parts = codes "up" ∷ [] };
  mime_blacklist = [];
  max_upload_dir_size = none;
  handle_spaces = none;
  default_extension = codes "txt";
  random_url = none;
}

abbrev resolve : Resolver
resolve host port = none

abbrev digest : List ℕ → Text
digest content = content

abbrev field : Field
field = record {
  kind = file;
  content = codes "hello";
  file_name = some (codes "a.txt");
  url = none;
  remote = record { url = none; last_segment = none; fetched = refused internal };
  expiry_date = none;
  header_filename = none;
  owner = some 1;
  duplicate_files = some false;
  now_seconds = 1000;
  looked_up = some 1000;
  clocks = λ n. some 1000;
}

-- The database in which `ci` has a principal.
abbrev db : Db
db = run_all crypto urls self named empty_db

abbrev result : UploadResult
result = record {
  filename = codes "a.txt";
  storage_path = record { is_absolute = true; parts = codes "up" ∷ codes "a.txt" ∷ [] };
  password = none;
}

abbrev written : Disk
written = (result.storage_path, codes "hello") ∷ []

record_upload-IsSettled_example :
    IsSettled os digest field result db written
      (record_upload os digest field result db written).0
      (record_upload os digest field result db written).1
      (record_upload os digest field result db written).2
record_upload-IsSettled_example = record_upload-IsSettled os digest field result db written

uploads : (upload_field os config resolve digest field db []).0 ≡ accepted (stored result)
unfolding run run_all upsert_named_principal upsert as_str unix_now validate_new_paste
    path_to_string paste_from_row paste_type_to_str paste_type_of_str dedup_category
    public_link_is_active insert_paste_deduplicated dedup_transaction clear_expired_public_link
    ensure_public_link_available find_dedup_in_transaction insert_paste_row after_dedup_insert
    after_insert persist_round persist_rounds persist_paste_metadata from_str get_dir is_protected
    parse join file_name parent set_file_name rsplit_dot file_stem set_extension to_text
    safe_path_join get_path is_blacklisted check_dir_size get_dir_size requested_name
    name_and_extension apply_random named_path chosen_path strip_timestamp glob_match_file
    get_password_file_path delete_password_file write_content protect_and_write store_at store_file
    get_extension_from_filename find_extension find_owner_duplicate answer_duplicate find_duplicate
    store_paste stored_content new_paste record_metadata find_remote_duplicate record_upload
    find_first_duplicate upload_field expiry_seconds
uploads = refl

uploaded_is_recorded_example :
    (store_paste os config resolve field []
      ≡ (accepted result, (upload_field os config resolve digest field db []).2))
    × (any
          (is_paste_at 1 (to_text result.storage_path))
          (upload_field os config resolve digest field db []).1.pastes.rows
        ≡ true)
uploaded_is_recorded_example =
    uploaded_is_recorded os config resolve digest field 1 result db [] refl uploads

-- An expiry that does not fit in the database is refused, and the file stays.
abbrev far : Field
far = record field { expiry_date = some 10000000000000000000000000 }

refused_upload_stays : (record_upload os digest far result db written).0 ≡ refused internal
unfolding stored_content new_paste find_remote_duplicate record_upload expiry_seconds
refused_upload_stays = refl

refused_file_stays :
    is_file (record_upload os digest far result db written).2 result.storage_path ≡ true
unfolding stored_content new_paste find_remote_duplicate record_upload expiry_seconds
refused_file_stays = refl
