-- ===== src/Paste/Write.antt =====
-- src/paste.rs, src/util.rs and src/password.rs: what `store_file` and `store_url` write, and what
-- they take back.
use rustypaste.Prelude.{
  ℕ, ◌^◌, ◌-◌, Bool, not, ◌&&◌, Option, none, some, List, [], ◌∷◌, ◌++◌, Text, codes, is_empty,
  is_ascii_digit, all, leb, ltb, ◌==◌, length, decimal, read_decimal, if◌then◌else◌,
}
use rustypaste.Auth.Request.{
  HttpError, internal, conflict, unsupported_media_type, Reply, accepted, refused,
}
use rustypaste.Paste.Kind.{PasteType, is_protected}
use rustypaste.Paste.Path.{PathBuf, file_name, set_file_name, rsplit_dot}
use rustypaste.Paste.Storage.{
  Disk, is_file, remove_file, Os, StorageConfig, UploadResult, is_blacklisted, check_dir_size,
  chosen_path,
}

-- `\.[0-9]{10,}$`
abbrev pub has_timestamp : Text → Bool
has_timestamp suffix = leb 10 (length suffix) && all is_ascii_digit suffix

unfoldable pub strip_timestamp : Text → Text
strip_timestamp name = elim (rsplit_dot name) [
  | none ↦ name
  | some (before, suffix) ↦ if has_timestamp suffix then before else name
]

abbrev renamed : PathBuf → Option Text → PathBuf
renamed path none = path
renamed path (some name) = set_file_name path (strip_timestamp name)

abbrev without_plus : Text → Text
without_plus [] = []
without_plus (c ∷ s) = if c == b'+' then s else c ∷ s

-- `parse` of a u64
abbrev parse_u64 : Text → Option ℕ
parse_u64 s =
    let number = without_plus s in
    if not (is_empty number) && all is_ascii_digit number && leb (read_decimal number) (2 ^ 64 - 1)
    then some (read_decimal number)
    else none

-- the number after the last dot of a path's name
abbrev millis_of : PathBuf → Option ℕ
millis_of path = elim (file_name path) [
  | none ↦ none
  | some name ↦ elim (rsplit_dot name) [
    | none ↦ none
    | some (before, after) ↦ if is_empty before then none else parse_u64 after
  ]
]

-- The file with an expiry that has not passed, where the last match is one; `none` is an error.
unfoldable pub glob_match_file : Os → Disk → PathBuf → Option PathBuf
glob_match_file os disk path =
    let plain = renamed path (file_name path) in
    elim (os.glob_last disk plain) [
      | none ↦ none
      | some none ↦ some plain
      | some (some found) ↦ elim (millis_of found) [
        | none ↦ some plain
        | some millis ↦ if ltb os.now_millis millis then some found else some plain
      ]
    ]

unfoldable pub get_password_file_path : PathBuf → Option PathBuf
get_password_file_path path = elim (file_name path) [
  | none ↦ none
  | some name ↦ some (set_file_name path (name ++ codes ".password"))
]

unfoldable pub delete_password_file : Os → PathBuf → Disk → Disk
delete_password_file os path disk = elim (get_password_file_path path) [
  | none ↦ disk
  | some sidecar ↦ remove_file os sidecar disk
]

abbrev write_new : Os → PathBuf → List ℕ → Disk → Option HttpError × Disk
write_new os path content disk = elim (os.write_error path) [
  | none ↦ (none, disk ++ (path, content) ∷ [])
  | some e ↦ (some internal, disk ++ (path, os.partly_written path) ∷ [])
]

-- The hash of a password is stored in a new file; an error that is no conflict leaves what was created.
unfoldable pub store_password_hash : Os → PathBuf → Text → Disk → Option HttpError × Disk
store_password_hash os path password disk = elim (os.hash_password password) [
  | none ↦ (some internal, disk)
  | some hash ↦ elim (get_password_file_path path) [
    | none ↦ (some internal, disk)
    | some sidecar ↦
        if is_file disk sidecar then (some conflict, disk) else elim (os.create_error sidecar) [
          | some e ↦ (some internal, disk)
          | none ↦ write_new os sidecar hash disk
        ]
  ]
]

abbrev result_of : PathBuf → Text → Option Text → UploadResult
result_of path name password = record { filename = name; storage_path = path; password = password }

-- `OpenOptions::create_new`, `write_all`, and what is taken back after an error
unfoldable pub write_content :
    Os
    → PathBuf
    → (name : Text) → (password : Option Text) → List ℕ
    → Disk
    → Reply UploadResult × Disk
write_content os path name password content disk =
    if is_file disk path
    then (refused conflict, delete_password_file os path disk)
    else elim (os.create_error path) [
      | some e ↦ (refused e, delete_password_file os path disk)
      | none ↦ elim (os.write_error path) [
        | some e ↦ (
          refused e,
          delete_password_file os path
              (remove_file os path (disk ++ (path, os.partly_written path) ∷ [])),
        )
        | none ↦ (accepted (result_of path name password), disk ++ (path, content) ∷ [])
      ]
    ]

abbrev pub name_or_empty : Option Text → Text
name_or_empty none = []
name_or_empty (some name) = name

abbrev pub with_timestamp : PathBuf → Text → Option ℕ → PathBuf
with_timestamp path name none = path
with_timestamp path name (some millis) = set_file_name path (name ++ b'.' ∷ decimal millis)

-- `store_file` from the password on
unfoldable pub protect_and_write :
    Os → PasteType → PathBuf → (name : Text) → List ℕ → Disk → Reply UploadResult × Disk
protect_and_write os kind path name content disk =
    if is_protected kind
    then elim (store_password_hash os path os.password disk).0 [
      | some e ↦ (refused e, (store_password_hash os path os.password disk).1)
      | none ↦
          write_content os path name (some os.password) content
            (store_password_hash os path os.password disk).1
    ]
    else write_content os path name none content disk

-- `store_file` once the path is chosen
unfoldable pub store_at :
    Os → PasteType → PathBuf → (expiry_date : Option ℕ) → List ℕ → Disk → Reply UploadResult × Disk
store_at os kind path expiry_date content disk =
    let name = name_or_empty (file_name path) in
    elim (glob_match_file os disk path) [
      | none ↦ (refused internal, disk)
      | some file_path ↦
          if is_file disk file_path
          then (refused conflict, disk)
          else protect_and_write os kind (with_timestamp path name expiry_date) name content disk
    ]

unfoldable pub store_file :
    Os
    → StorageConfig
    → PasteType
    → List ℕ
    → Text
    → (expiry_date : Option ℕ) → (header_filename : Option Text) → Disk
    → Reply UploadResult × Disk
store_file os config kind content file_name expiry_date header_filename disk =
    if is_blacklisted os config content
    then (refused unsupported_media_type, disk)
    else elim (check_dir_size os config disk kind content) [
      | refused e ↦ (refused e, disk)
      | accepted u ↦ elim (chosen_path os config kind content file_name header_filename) [
        | none ↦ (refused internal, disk)
        | some path ↦ store_at os kind path expiry_date content disk
      ]
    ]
