-- ===== src/Paste/Header.antt =====
-- src/paste.rs: the `filename` header, and `store_url`.
use rustypaste.Prelude.{
  ℕ, ◌≡◌, ◌⊎◌, ap, ◌∙◌, true, Option, none, some, List, [], ◌∷◌, ◌++◌, Text, decimal, Option-cases,
  inl, inr, arith, if◌then◌else◌,
}
use rustypaste.Auth.Request.{internal, conflict, Reply, accepted, refused}
use rustypaste.Paste.Kind.{PasteType, get_dir}
use rustypaste.Paste.Path.{PathBuf, parse, join, file_name, set_file_name, set_extension}
use rustypaste.Paste.Storage.{
  read, Disk, is_file, remove_file, Os, StorageConfig, RandomUrl, UploadResult, safe_path_join,
  get_path, named_path, chosen_path, requested_name, apply_random, name_and_extension,
  without_extension,
}
use rustypaste.Paste.Write.{with_timestamp, name_or_empty, store_file}
use rustypaste.Paste.Placed.{store_file-IsPlaced}
use rustypaste.Paste.Stored.{IsNew, stored_is_read}

abbrev drawn_name : Option RandomUrl → Text → Text
drawn_name none name = name
drawn_name (some random_url) name = elim random_url.generated [
  | none ↦ name
  | some random_text ↦ random_text
]

abbrev header_name : Option Text → Text → Text
header_name none name = name
header_name (some header) name = header

-- the name of a paste that is a URL
unfoldable pub url_name : StorageConfig → PasteType → Option Text → Text
url_name config kind header = header_name header (drawn_name config.random_url (get_dir kind))

abbrev put_timestamp : PathBuf → Text → Option ℕ → PathBuf
put_timestamp path name none = path
put_timestamp path name (some millis) = set_file_name path (name ++ b'.' ∷ decimal millis)

unfoldable pub url_path : Os → StorageConfig → PasteType → Option ℕ → Option Text → Option PathBuf
url_path os config kind expiry_date header =
    let name = url_name config kind header in
    elim (get_path os kind config.upload_path) [
      | none ↦ none
      | some dir ↦ elim (safe_path_join os dir (parse name)) [
        | none ↦ none
        | some path ↦ some (put_timestamp path name expiry_date)
      ]
    ]

-- The content as `Url::parse` and `to_string` leave it stands here, where it is a URL. That the file is
-- there already is the conflict that the upload answers for it.
unfoldable pub store_url :
    Os
    → StorageConfig
    → PasteType
    → (url : Option (List ℕ)) → (expiry_date : Option ℕ) → (header_filename : Option Text) → Disk
    → Reply UploadResult × Disk
store_url os config kind none expiry_date header_filename disk = (refused internal, disk)
store_url os config kind (some url) expiry_date header_filename disk =
    elim (url_path os config kind expiry_date header_filename) [
      | none ↦ (refused internal, disk)
      | some path ↦
          if is_file disk path then (refused conflict, disk) else elim (os.create_error path) [
            | some e ↦ (refused e, disk)
            | none ↦ elim (os.write_error path) [
              | some e ↦
                  (refused e, remove_file os path (disk ++ (path, os.partly_written path) ∷ []))
              | none ↦ (
                accepted (record {
                  filename = url_name config kind header_filename;
                  storage_path = path;
                  password = none;
                }),
                disk ++ (path, url) ∷ [],
              )
            ]
          ]
    ]

-- What was at the path is there as it was.
abbrev pub IsKept : Disk → Disk → PathBuf → Type 0
IsKept disk disk' q = (read disk q ≡ none) ⊎ (read disk' q ≡ read disk q)

-- The URL is answered with its name and its path, and is in a new file there, where it is read back.
abbrev pub IsUrlStored :
    Os
    → StorageConfig
    → PasteType
    → Option ℕ
    → Option Text
    → List ℕ
    → Disk
    → Reply UploadResult
    → Disk
    → Type 0
IsUrlStored os config kind expiry_date header_filename url disk reply disk' =
    (result : UploadResult) × (reply ≡ accepted result)
    × (result.filename ≡ url_name config kind header_filename)
    × (url_path os config kind expiry_date header_filename ≡ some result.storage_path)
    × IsNew disk result.storage_path url disk'

set_file_name_absolute :
    (path : PathBuf) (name : Text)
    → (parse name).is_absolute ≡ true
    → set_file_name path name ≡ parse name
unfolding set_file_name join
set_file_name_absolute path name absolute = elim (Option-cases (file_name path)) [
  | inl missing ↦ ground arith
  | inr (old, found) ↦ ground arith
]

-- the path that an upload with an absolute header chooses
absolute_is_chosen :
    (os : Os) (config : StorageConfig) (kind : PasteType) (content : List ℕ) (name header : Text)
    (path : PathBuf)
    → (parse header).is_absolute ≡ true
    → chosen_path os config kind content name (some header) ≡ some path
    → path ≡ parse header
unfolding chosen_path named_path
absolute_is_chosen os config kind content name header path absolute chosen =
    elim (Option-cases (get_path os kind config.upload_path)) [
      | inl missing ↦ absurd (ground arith)
      | inr (dir, found) ↦
          elim (Option-cases (safe_path_join os dir (parse (requested_name config name)))) [
            | inl outside ↦ absurd (ground arith)
            | inr (base, joined) ↦
                let names =
                  apply_random config.random_url
                    (name_and_extension os config content (requested_name config name)) in
                let named = set_file_name base names.0 in
                let extended =
                  if without_extension config.random_url
                  then named
                  else set_extension named names.1 in
                ground (arith, set_file_name_absolute extended header absolute)
          ]
    ]

-- An upload that is accepted with a `filename` header that is an absolute path is written to that very
-- path, with the expiry in its name where it has one, whatever the upload directory, the configuration
-- and the name in the form are: the content is read back from there.
pub header_decides :
    (os : Os) (config : StorageConfig) (kind : PasteType) (content : List ℕ) (name header : Text)
    (expiry_date : Option ℕ) (disk : Disk) (result : UploadResult)
    → (parse header).is_absolute ≡ true
    → (store_file os config kind content name expiry_date (some header) disk).0 ≡ accepted result
    → (result.storage_path
        ≡ with_timestamp (parse header) (name_or_empty (file_name (parse header))) expiry_date)
      × (read
            (store_file os config kind content name expiry_date (some header) disk).1
            result.storage_path
          ≡ some (result.storage_path, content))
header_decides os config kind content name header expiry_date disk result absolute h =
    let (path, chosen, placed) =
      store_file-IsPlaced os content result config kind name expiry_date (some header) disk h in
    let same = absolute_is_chosen os config kind content name header path absolute chosen in
    let (leaves, back) =
      stored_is_read os content result config kind name expiry_date (some header) disk h in
    (placed.0 ∙ ap (λ p. with_timestamp p (name_or_empty (file_name p)) expiry_date) same, back)
