-- ===== src/Server/Upload.antt =====
-- src/server.rs, `upload`: what it does for one field of the form, where OpenID Connect is configured.
use rustypaste.Prelude.{
  ℕ, Bool, true, false, not, ◌&&◌, Option, none, some, List, [], ◌∷◌, Text, length, is_empty,
  if◌then◌else◌,
}
use rustypaste.Paste.Kind.{PasteType, file, remote_file, url, oneshot_url, is_compatible_duplicate}
use rustypaste.Paste.Path.{PathBuf, parse, to_text}
use rustypaste.Paste.Storage.{Disk, read, is_file, remove_file, Os, StorageConfig, UploadResult}
use rustypaste.Paste.Write.{delete_password_file, store_file}
use rustypaste.Paste.Header.{store_url}
use rustypaste.Paste.Remote.{RemoteFile, store_remote_file}
use rustypaste.Util.Remote.{Resolver}
use rustypaste.Store.Base.{Clock, i64_try_from}
use rustypaste.Store.Schema.{Db}
use rustypaste.Store.Pastes.{OsPath, utf8, bytes, NewPaste, PasteRecord}
use rustypaste.Store.Pastes.Query.{find_owner_duplicate, delete_paste}
use rustypaste.Auth.Request.{
  internal, bad_request, unauthorized, Reply, accepted, refused, Web, ◌>>=◌, answer, from_store,
}
use rustypaste.AuthServer.Response.{or_refuse}
use rustypaste.Server.Metadata.{persist_paste_metadata}
use rustypaste.Server.Expiry.{expiry_seconds}

-- One field, with what the request and the configuration say of all of them; `url` is the content as
-- `Url::parse` and `to_string` leave it, and `clocks` the times that the store reads.
pub record Field : Type 0 where
  pub kind : PasteType
  pub content : List ℕ
  pub file_name : Option Text
  pub url : Option (List ℕ)
  pub remote : RemoteFile
  pub expiry_date : Option ℕ
  pub header_filename : Option Text
  pub owner : Option ℕ
  pub duplicate_files : Option Bool
  pub now_seconds : ℕ
  pub looked_up : Clock
  pub clocks : ℕ → Clock

-- What a field is answered with: the paste of before, or the new one.
pub data Uploaded : Type 0 where
  existing : (public_filename : Text) → Uploaded
  stored : UploadResult → Uploaded

abbrev pub is_stored : Disk → OsPath → Bool
is_stored disk (utf8 path) = is_file disk (parse path)
is_stored disk (bytes path) = false

-- `duplicate_files` is false, and the field has no expiry.
abbrev pub suppresses : Field → Bool
suppresses field =
    (elim field.expiry_date [ none ↦ true | some expiry ↦ false ])
    && (elim field.duplicate_files [ none ↦ false | some keeps ↦ not keeps ])

abbrev pub is_deduplicated : PasteType → Bool
is_deduplicated file = true
is_deduplicated remote_file = true
is_deduplicated url = true
is_deduplicated _ = false

abbrev is_compared_before : PasteType → Bool
is_compared_before file = true
is_compared_before url = true
is_compared_before _ = false

-- A duplicate of the owner's is answered if its file is there and its kind fits; if its file is gone,
-- so is its row.
unfoldable pub answer_duplicate : PasteType → Disk → Option PasteRecord → Web (Option Text)
answer_duplicate kind disk none = answer (accepted none)
answer_duplicate kind disk (some found) =
    if is_stored disk found.storage_path && is_compatible_duplicate kind found.paste_type
    then answer (accepted (some found.public_filename))
    else if not (is_stored disk found.storage_path)
    then (from_store (delete_paste found.id) >>= λ deleted. answer (accepted none))
    else answer (accepted none)

unfoldable pub find_duplicate :
    (digest : List ℕ → Text) → Field → (content : List ℕ) → Disk → Web (Option Text)
find_duplicate digest field content disk = or_refuse unauthorized field.owner >>= λ owner.
    from_store (find_owner_duplicate owner (digest content) field.looked_up) >>= λ found.
    answer_duplicate field.kind disk found

unfoldable pub store_paste :
    Os → StorageConfig → Resolver → Field → Disk → Reply UploadResult × Disk
store_paste os config resolve field disk = elim field.kind [
  | remote_file ↦
      store_remote_file os config resolve field.remote field.kind field.expiry_date
        field.header_filename disk
  | url ↦ store_url os config field.kind field.url field.expiry_date field.header_filename disk
  | oneshot_url ↦
      store_url os config field.kind field.url field.expiry_date field.header_filename disk
  | _ ↦ elim field.file_name [
    | none ↦ (refused bad_request, disk)
    | some name ↦
        store_file os config field.kind field.content name field.expiry_date field.header_filename
          disk
  ]
]

unfoldable pub remove_new_upload : Os → PathBuf → Disk → Disk
remove_new_upload os path disk = delete_password_file os path (remove_file os path disk)

-- the bytes that are stored: those on the disk for a URL, and those that were fetched for a remote file
unfoldable pub stored_content : Field → PathBuf → Disk → Option (List ℕ)
stored_content field path disk = elim field.kind [
  | url ↦ elim (read disk path) [ none ↦ none | some entry ↦ some entry.1 ]
  | oneshot_url ↦ elim (read disk path) [ none ↦ none | some entry ↦ some entry.1 ]
  | remote_file ↦ elim field.remote.fetched [ accepted content ↦ some content | refused e ↦ none ]
  | _ ↦ some field.content
]

-- The metadata of a stored paste. An error here leaves the file that was stored.
unfoldable pub new_paste :
    (digest : List ℕ → Text) → Field → UploadResult → (content : List ℕ) → Reply NewPaste
new_paste digest field result content = elim field.owner [
  | none ↦ refused unauthorized
  | some owner ↦ elim (i64_try_from field.now_seconds) [
    | none ↦ refused internal
    | some created_at ↦ elim (expiry_seconds field.expiry_date) [
      | refused e ↦ refused e
      | accepted expires_at ↦ accepted (record {
        owner_principal_id = some owner;
        public_filename = result.filename;
        storage_path = utf8 (to_text result.storage_path);
        paste_type = field.kind;
        created_at = created_at;
        size_bytes = length content;
        expires_at = expires_at;
        content_hash = digest content;
      })
    ]
  ]
]

-- `upload` from the metadata of the stored paste on: what the store does not take is removed.
unfoldable pub record_metadata :
    Os → Field → UploadResult → NewPaste → Db → Disk → Reply Uploaded × Db × Disk
record_metadata os field result paste db disk =
    let persisted =
      persist_paste_metadata (is_stored disk) paste (suppresses field && is_deduplicated field.kind)
        field.clocks db in
    elim persisted.0 [
      | refused e ↦ (refused e, persisted.1, remove_new_upload os result.storage_path disk)
      | accepted (some found) ↦ (
        accepted (existing found.public_filename),
        persisted.1,
        remove_new_upload os result.storage_path disk,
      )
      | accepted none ↦ (accepted (stored result), persisted.1, disk)
    ]

-- the second look for a duplicate, which only a file that was fetched needs
unfoldable pub find_remote_duplicate :
    (digest : List ℕ → Text) → Field → (content : List ℕ) → Disk → Web (Option Text)
find_remote_duplicate digest field content disk = elim field.kind [
  | remote_file ↦
      if suppresses field then find_duplicate digest field content disk else answer (accepted none)
  | _ ↦ answer (accepted none)
]

-- `upload` once the file is stored
unfoldable pub record_upload :
    Os → (digest : List ℕ → Text) → Field → UploadResult → Db → Disk → Reply Uploaded × Db × Disk
record_upload os digest field result db disk =
    elim (stored_content field result.storage_path disk) [
      | none ↦ (refused internal, db, remove_new_upload os result.storage_path disk)
      | some content ↦
          let found = find_remote_duplicate digest field content disk db in
          elim found.0 [
            | refused e ↦ (refused e, found.1, disk)
            | accepted (some name) ↦
                (accepted (existing name), found.1, remove_new_upload os result.storage_path disk)
            | accepted none ↦ elim (new_paste digest field result content) [
              | refused e ↦ (refused e, found.1, disk)
              | accepted paste ↦ record_metadata os field result paste found.1 disk
            ]
          ]
    ]

-- the first look for a duplicate, before anything is stored
unfoldable pub find_first_duplicate : (digest : List ℕ → Text) → Field → Disk → Web (Option Text)
find_first_duplicate digest field disk =
    if is_compared_before field.kind && suppresses field
    then find_duplicate digest field field.content disk
    else answer (accepted none)

unfoldable pub upload_field :
    Os
    → StorageConfig
    → Resolver
    → (digest : List ℕ → Text) → Field
    → Db
    → Disk
    → Reply Uploaded × Db × Disk
upload_field os config resolve digest field db disk =
    if is_empty field.content
    then (refused bad_request, db, disk)
    else let found = find_first_duplicate digest field disk db in
      elim found.0 [
        | refused e ↦ (refused e, found.1, disk)
        | accepted (some name) ↦ (accepted (existing name), found.1, disk)
        | accepted none ↦
            let written = store_paste os config resolve field disk in
            elim written.0 [
              | refused e ↦ (refused e, found.1, written.1)
              | accepted result ↦ record_upload os digest field result found.1 written.1
            ]
      ]

-- `upload` over the fields of the form, which ends at the first that is refused
unfoldable pub upload :
    Os
    → StorageConfig
    → Resolver
    → (digest : List ℕ → Text) → List Field
    → Db
    → Disk
    → Reply (List Uploaded) × Db × Disk
upload os config resolve digest [] db disk = (accepted [], db, disk)
upload os config resolve digest (field ∷ fields) db disk =
    let here = upload_field os config resolve digest field db disk in
    let rest = upload os config resolve digest fields here.1 here.2 in
    elim here.0 [
      | refused e ↦ (refused e, here.1, here.2)
      | accepted one ↦ elim rest.0 [
        | refused e ↦ (refused e, rest.1, rest.2)
        | accepted more ↦ (accepted (one ∷ more), rest.1, rest.2)
      ]
    ]
