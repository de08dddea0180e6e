-- ===== src/Paste/Tests.antt =====
-- Examples of src/paste.rs: files and URLs are stored under /up.
use rustypaste.Prelude.{◌⊎◌, decimal, ◌≡◌, refl, true, none, some, [], ◌∷◌, Text, codes, text_eq}
use rustypaste.Auth.Request.{accepted, refused, conflict, bad_request}
use rustypaste.Paste.Kind.{file, remote_file, protected_file, url, get_dir, is_protected}
use rustypaste.Paste.Path.{
  PathBuf, parse, join, file_name, parent, set_file_name, rsplit_dot, file_stem, set_extension,
}
use rustypaste.Paste.Storage.{
  FileEntry, Disk, read, Os, StorageConfig, UploadResult, safe_path_join, get_path, is_blacklisted,
  check_dir_size, get_dir_size, requested_name, name_and_extension, apply_random, named_path,
  chosen_path,
}
use rustypaste.Paste.Write.{
  with_timestamp, name_or_empty, strip_timestamp, glob_match_file, get_password_file_path,
  delete_password_file, store_password_hash, write_content, protect_and_write, store_at, store_file,
}
use rustypaste.Paste.Kept.{store_file_keeps}
use rustypaste.Paste.Stored.{Leaves, stored_is_read}
use rustypaste.Paste.Remote.{RemoteFile, store_remote_file, remote_file-IsPublic}
use rustypaste.Util.Remote.{Resolver, RemoteUrl, IsPublic}
use rustypaste.Paste.Header.{url_name, url_path, store_url, header_decides}
use rustypaste.Util.Extension.{get_extension_from_filename, find_extension}

abbrev os : Os
os = record {
  infer = λ content. none;
  clean = λ path. path;
  is_known = λ ext. text_eq ext (codes "txt");
  glob_last = λ disk path. some none;
  can_list = λ path. true;
  create_error = λ path. none;
  write_error = λ path. none;
  partly_written = λ path. [];
  can_remove = λ path. true;
  hash_password = λ password. some password;
  now_millis = 1000;
  password = codes "pw";
}

abbrev upload_dir : PathBuf
upload_dir = record { is_absolute = true; parts = codes "up" ∷ [] }

abbrev config : StorageConfig
config = record {
  upload_path = upload_dir;
  mime_blacklist = [];
  max_upload_dir_size = none;
  handle_spaces = none;
  default_extension = codes "txt";
  random_url = none;
}

abbrev at : Text → PathBuf
at name = record { is_absolute = true; parts = codes "up" ∷ name ∷ [] }

abbrev secret_at : Text → PathBuf
secret_at name = record { is_absolute = true; parts = codes "up" ∷ codes "protected" ∷ name ∷ [] }

abbrev old : FileEntry
old = (at (codes "old.txt"), codes "old")

abbrev disk : Disk
disk = old ∷ []

abbrev stored : UploadResult
stored = record {
  filename = codes "new.txt";
  storage_path = secret_at (codes "new.txt");
  password = some (codes "pw");
}

stores :
    (store_file os config protected_file (codes "hello") (codes "new.txt") none none disk).0
    ≡ accepted stored
unfolding get_dir is_protected parse join file_name parent set_file_name rsplit_dot file_stem
    set_extension safe_path_join get_path is_blacklisted check_dir_size get_dir_size requested_name
    name_and_extension apply_random named_path chosen_path strip_timestamp glob_match_file
    get_password_file_path delete_password_file store_password_hash write_content protect_and_write
    store_at store_file get_extension_from_filename find_extension
stores = refl

stored_is_read_example :
    Leaves os
      (codes "hello")
      stored
      protected_file
      (secret_at (codes "new.txt"))
      disk
      (store_file os config protected_file (codes "hello") (codes "new.txt") none none disk).1
    × (read
          (store_file os config protected_file (codes "hello") (codes "new.txt") none none disk).1
          (secret_at (codes "new.txt"))
        ≡ some (secret_at (codes "new.txt"), codes "hello"))
stored_is_read_example =
    stored_is_read os (codes "hello") stored config protected_file (codes "new.txt") none none disk
      stores

store_file_keeps_example :
    read
      (store_file os config file (codes "hello") (codes "old.txt") none none disk).1
      (at (codes "old.txt"))
    ≡ some old
unfolding get_dir parse join file_name parent set_file_name rsplit_dot file_stem set_extension
    safe_path_join get_path requested_name name_and_extension apply_random named_path chosen_path
    get_password_file_path get_extension_from_filename find_extension
store_file_keeps_example =
    store_file_keeps os config file (codes "hello") (codes "old.txt") none none disk
      (at (codes "old.txt")) old refl refl

-- A name that is there is refused.
taken_is_refused :
    (store_file os config file (codes "hello") (codes "old.txt") none none disk).0
    ≡ refused conflict
unfolding get_dir parse join file_name parent set_file_name rsplit_dot file_stem set_extension
    safe_path_join get_path is_blacklisted check_dir_size requested_name name_and_extension
    apply_random named_path chosen_path strip_timestamp glob_match_file store_at store_file
    get_extension_from_filename find_extension
taken_is_refused = refl

-- The dotted part of a name before its extension is lost.
dotted_stem_is_cut :
    chosen_path os config file (codes "hello") (codes "report.v2.txt") none
    ≡ some (at (codes "report.txt"))
unfolding get_dir parse join file_name parent set_file_name rsplit_dot file_stem set_extension
    safe_path_join get_path requested_name name_and_extension apply_random named_path chosen_path
    get_extension_from_filename find_extension
dotted_stem_is_cut = refl

abbrev escaped : UploadResult
escaped = record {
  filename = codes "x";
  storage_path = record { is_absolute = true; parts = codes "etc" ∷ codes "x.1234567890123" ∷ [] };
  password = none;
}

escapes :
    (store_file os config file
      (codes "hello")
      (codes "a.txt")
      (some 1234567890123)
      (some (codes "/etc/x"))
      disk).0
    ≡ accepted escaped
unfolding get_dir is_protected parse join file_name parent set_file_name rsplit_dot file_stem
    set_extension safe_path_join get_path is_blacklisted check_dir_size get_dir_size requested_name
    name_and_extension apply_random named_path chosen_path strip_timestamp glob_match_file
    get_password_file_path delete_password_file store_password_hash write_content protect_and_write
    store_at store_file get_extension_from_filename find_extension decimal
escapes = refl

header_decides_example :
    (escaped.storage_path
      ≡ with_timestamp
          (parse (codes "/etc/x"))
          (name_or_empty (file_name (parse (codes "/etc/x"))))
          (some 1234567890123))
    × (read
          (store_file os config file
            (codes "hello")
            (codes "a.txt")
            (some 1234567890123)
            (some (codes "/etc/x"))
            disk).1
          escaped.storage_path
        ≡ some (escaped.storage_path, codes "hello"))
unfolding parse
header_decides_example =
    header_decides os config file (codes "hello") (codes "a.txt") (codes "/etc/x")
      (some 1234567890123) disk escaped refl escapes

abbrev stored_url : UploadResult
stored_url = record {
  filename = codes "short";
  storage_path = record {
    is_absolute = true;
    parts = codes "up" ∷ codes "url" ∷ codes "short" ∷ [];
  };
  password = none;
}

stores_url :
    (store_url os config url (some (codes "https://e.example/")) none (some (codes "short")) disk).0
    ≡ accepted stored_url
unfolding get_dir parse join safe_path_join get_path url_name url_path store_url
stores_url = refl

-- `path_clean` of each path that is cleaned below
abbrev cleaning : Os
cleaning = record os {
  clean = λ path. record { is_absolute = true; parts = codes "up" ∷ codes "url" ∷ [] };
}

-- With an expiry, the `filename` header `../url` leads a URL out of the upload directory.
dated_url_escapes :
    (store_url cleaning config url
      (some (codes "https://e.example/"))
      (some 1234567890123)
      (some (codes "../url"))
      disk).1
    ≡ old
      ∷ (
        record {
          is_absolute = true;
          parts = codes "up" ∷ codes ".." ∷ codes "url.1234567890123" ∷ [];
        },
        codes "https://e.example/",
      )
      ∷ []
unfolding get_dir parse join safe_path_join get_path url_name url_path store_url set_file_name
    file_name parent decimal
dated_url_escapes = refl

abbrev dated : Disk
dated =
    (at (codes "x.1234567890"), codes "one")
    ∷ (at (codes "x.1234567890.password"), codes "two")
    ∷ []

-- An upload that is refused for a name that is there removes another paste, the one of that name with
-- `.password` added: the test before the file is opened goes by the name without its digits.
refused_upload_removes :
    (read
      (store_file os config file (codes "three") (codes "x.1234567890") none none dated).1
      (at (codes "x.1234567890.password")))
    ≡ none
unfolding get_dir parse join file_name parent set_file_name rsplit_dot file_stem set_extension
    safe_path_join get_path is_blacklisted check_dir_size requested_name name_and_extension
    apply_random named_path chosen_path strip_timestamp glob_match_file store_at store_file
    get_extension_from_filename find_extension protect_and_write is_protected write_content
    delete_password_file get_password_file_path
refused_upload_removes = refl

-- `http://localhost/`
abbrev local : RemoteFile
local = record {
  url = some (record {
    scheme = codes "http";
    host_str = some (codes "localhost");
    port_or_known_default = some 80;
  });
  last_segment = none;
  fetched = accepted (codes "secret");
}

abbrev resolve : Resolver
resolve host port = none

remote_file-IsPublic_example :
    ((address : RemoteUrl) × (local.url ≡ some address) × IsPublic resolve address)
    ⊎ (store_remote_file os config resolve local remote_file none none disk
        ≡ (refused bad_request, disk))
remote_file-IsPublic_example =
    remote_file-IsPublic os config resolve local remote_file none none disk
