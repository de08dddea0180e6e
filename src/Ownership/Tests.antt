-- ===== src/Ownership/Tests.antt =====
-- Examples of src/ownership.rs: the scan of /up.
use rustypaste.Prelude.{
  ℕ, ◌≡◌, refl, Bool, true, none, some, [], ◌∷◌, List, Text, codes, text_eq, decimal, arith,
}
use rustypaste.Auth.Request.{accepted, refused, internal}
use rustypaste.Paste.Kind.{file, protected_file, is_protected, get_dir}
use rustypaste.Paste.Write.{
  strip_timestamp, glob_match_file, get_password_file_path, delete_password_file,
  store_password_hash, write_content, protect_and_write, store_at, store_file,
}
use rustypaste.Util.Extension.{get_extension_from_filename, find_extension}
use rustypaste.Paste.Path.{
  parse, join, parent, set_file_name, PathBuf, file_name, rsplit_dot, file_stem, set_extension,
  to_text,
}
use rustypaste.Paste.Storage.{
  Disk, Os, StorageConfig, UploadResult, is_blacklisted, check_dir_size, get_dir_size,
  requested_name, name_and_extension, apply_random, named_path, chosen_path, safe_path_join,
  get_path,
}
use rustypaste.Store.Pastes.{utf8, NewPaste}
use rustypaste.Server.Expiry.{expiry_seconds}
use rustypaste.Server.Upload.{Field, new_paste}
use rustypaste.Ownership.Scan.{is_password_sidecar, scan_entry}
use rustypaste.Ownership.Scanned.{entry_of, scanned_as_recorded}

abbrev os : Os
os = record {
  infer = λ content. none;
  clean = λ path. path;
  is_known = λ ext. text_eq ext (codes "txt");
  glob_last = λ disk path. some none;
  can_list = λ path. true;
  create_error = λ path. none;
  write_error = λ path. none;
  partly_written = λ path. [];
  can_remove = λ path. true;
  hash_password = λ password. some password;
  now_millis = 1000;
  password = codes "pw";
}

abbrev digest : List ℕ → Text
digest content = content

abbrev is_hash : List ℕ → Bool
is_hash content = text_eq content (codes "hash")

abbrev field : Field
field = record {
  kind = file;
  content = codes "hello";
  file_name = some (codes "a.txt");
  url = none;
  remote = record { url = none; last_segment = none; fetched = refused internal };
  expiry_date = some 1750000000001;
  header_filename = none;
  owner = some 1;
  duplicate_files = none;
  now_seconds = 1000;
  looked_up = some 1000;
  clocks = λ n. some 1000;
}

abbrev at : List Text → PathBuf
at parts = record { is_absolute = true; parts = codes "up" ∷ parts }

abbrev stored_path : PathBuf
stored_path = at (codes "a.txt.1750000000001" ∷ [])

abbrev result : UploadResult
result = record { filename = codes "a.txt"; storage_path = stored_path; password = none }

abbrev paste : NewPaste
paste = record {
  owner_principal_id = some 1;
  public_filename = codes "a.txt";
  storage_path = utf8 (codes "/up/a.txt.1750000000001");
  paste_type = file;
  created_at = 1000;
  size_bytes = 5;
  expires_at = some 1750000001;
  content_hash = codes "hello";
}

abbrev config : StorageConfig
config = record {
  upload_path = record { is_absolute = true; parts = codes "up" ∷ [] };
  mime_blacklist = [];
  max_upload_dir_size = none;
  handle_spaces = none;
  default_extension = codes "txt";
  random_url = none;
}

stores :
    (store_file os config file (codes "hello") (codes "a.txt") (some 1750000000001) none []).0
    ≡ accepted result
unfolding get_dir is_protected parse join file_name parent set_file_name rsplit_dot file_stem
    set_extension safe_path_join get_path is_blacklisted check_dir_size get_dir_size requested_name
    name_and_extension apply_random named_path chosen_path strip_timestamp glob_match_file
    get_password_file_path delete_password_file store_password_hash write_content protect_and_write
    store_at store_file get_extension_from_filename find_extension decimal
stores = refl

scanned_as_recorded_example :
    scan_entry os digest is_hash [] (entry_of stored_path 1001 (codes "hello")) file
    ≡ some (some (record paste { owner_principal_id = none; paste_type = file; created_at = 1001 }))
unfolding new_paste to_text expiry_seconds is_password_sidecar is_protected
scanned_as_recorded_example =
    scanned_as_recorded os digest is_hash [] field result (codes "hello") 1750000000001 1001 config
      (codes "a.txt") none [] stored_path paste refl (omega arith) (omega arith) stores refl refl
      refl refl refl

abbrev secret : PathBuf
secret = at (codes "protected" ∷ codes "s" ∷ [])

abbrev sidecar : PathBuf
sidecar = at (codes "protected" ∷ codes "s.password" ∷ [])

abbrev disk : Disk
disk = (secret, codes "text") ∷ (sidecar, codes "hash") ∷ []

-- A sidecar's hash is no paste.
sidecar_is_no_paste :
    scan_entry os digest is_hash disk (entry_of sidecar 1000 (codes "hash")) protected_file
    ≡ some none
unfolding scan_entry is_password_sidecar is_protected file_name rsplit_dot file_stem set_extension
sidecar_is_no_paste = refl
