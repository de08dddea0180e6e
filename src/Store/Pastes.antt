-- ===== src/Store/Pastes.antt =====
-- src/store.rs: paste metadata, its rows and their decoding, and the public link that a row holds.
pub mod Insert
pub mod Inserted
pub mod Query
pub mod Reconcile
pub mod Links
pub mod Scan
pub mod Scanned
pub mod Ownership
pub mod Claimed
pub mod Exclusive
pub mod Dedup
use rustypaste.Prelude.{
  ℕ, Bool, true, false, ◌&&◌, ◌||◌, Option, none, some, List, [], ◌∷◌, Text, text_eq, is_empty,
  is_blank, is_some, is_none, is_whitespace, ltb, leb, any, if◌then◌else◌,
}
use rustypaste.Paste.Kind.{PasteType, paste_type_to_str, paste_type_of_str, dedup_category}
use rustypaste.Store.Base.{
  Result, ok, err, StoreError, invalid_data, invalid_input, duration_overflow, i64_max,
  i64_try_from,
}
use rustypaste.Store.Schema.{
  PasteRow, Table, Db, same_text, insert_row, with_rows, Tx, ◌>>=◌, ◌>>◌, pure, raise, lift, gets,
  modify,
}

-- `PathBuf`: a path that is text, or one that is not valid UTF-8
pub data OsPath : Type 0 where
  utf8 : Text → OsPath
  bytes : List ℕ → OsPath

pub record NewPaste : Type 0 where
  pub owner_principal_id : Option ℕ
  pub public_filename : Text
  pub storage_path : OsPath
  pub paste_type : PasteType
  pub created_at : ℕ
  pub size_bytes : ℕ
  pub expires_at : Option ℕ
  pub content_hash : Text

pub record PasteRecord : Type 0 where
  pub id : ℕ
  pub owner_principal_id : Option ℕ
  pub public_filename : Text
  pub storage_path : OsPath
  pub paste_type : PasteType
  pub created_at : ℕ
  pub updated_at : ℕ
  pub size_bytes : ℕ
  pub expires_at : Option ℕ
  pub content_hash : Text

abbrev pub record_of : PasteRow → PasteType → PasteRecord
record_of row kind = record {
  id = row.id;
  owner_principal_id = row.owner_principal_id;
  public_filename = row.public_filename;
  storage_path = utf8 row.storage_path;
  paste_type = kind;
  created_at = row.created_at;
  updated_at = row.updated_at;
  size_bytes = row.size_bytes;
  expires_at = row.expires_at;
  content_hash = row.content_hash;
}

-- A size that SQLite holds is not negative here, so only the kind can fail to be read.
unfoldable pub paste_from_row : PasteRow → Result PasteRecord
paste_from_row row = elim (paste_type_of_str row.paste_type) [
  | none ↦ err (invalid_data row.paste_type)
  | some kind ↦ ok (record_of row kind)
]

-- `fetch_optional` decoded
abbrev pub optional_paste : Option PasteRow → Result (Option PasteRecord)
optional_paste none = ok none
optional_paste (some row) = elim (paste_from_row row) [ ok r ↦ ok (some r) | err e ↦ err e ]

abbrev pub is_empty_path : OsPath → Bool
is_empty_path (utf8 path) = is_empty path
is_empty_path (bytes []) = true
is_empty_path (bytes (b ∷ path)) = false

unfoldable pub validate_new_paste : NewPaste → Result (Unit {0})
validate_new_paste paste =
    if is_empty paste.public_filename
    then err (invalid_input "paste public filename cannot be empty")
    else if is_empty_path paste.storage_path
    then err (invalid_input "paste storage path cannot be empty")
    else if is_blank paste.content_hash
    then err (invalid_input "paste content hash cannot be empty")
    else if leb paste.size_bytes i64_max
    then ok tt
    else err (invalid_input "paste size is too large")

unfoldable pub path_to_string : OsPath → Result Text
path_to_string (utf8 path) = ok path
path_to_string (bytes path) = err (invalid_input "SQLite paste paths must be valid UTF-8")

-- expires_at IS NULL OR expires_at > ?
abbrev pub is_unexpired : ℕ → Option ℕ → Bool
is_unexpired now none = true
is_unexpired now (some expiry) = ltb now expiry

unfoldable pub active_public_link_key : NewPaste → ℕ → Option Text
active_public_link_key paste now =
    if is_some paste.owner_principal_id && is_unexpired now paste.expires_at
    then some paste.public_filename
    else none

abbrev pub change_pastes : (List PasteRow → List PasteRow) → Db → Db
change_pastes f db = record db { pastes = with_rows db.pastes (f db.pastes.rows) }

-- WHERE (link_key = ? OR (link_key IS NULL AND public_filename = ?))
--   AND (expires_at IS NULL OR expires_at > ?)
abbrev pub holds_link : Text → ℕ → PasteRow → Bool
holds_link link_key now r =
    (same_text r.link_key (some link_key)
      || (is_none r.link_key && text_eq r.public_filename link_key))
    && is_unexpired now r.expires_at

unfoldable pub public_link_is_active : Text → ℕ → Db → Bool
public_link_is_active link_key now db = any (holds_link link_key now) db.pastes.rows
