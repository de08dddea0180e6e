-- ===== src/Server/StoredRow.antt =====
-- src/server.rs: the row of an upload that is answered as stored.
use rustypaste.Prelude.{
  ℕ, ◌≡◌, true, ◌&&◌, none, some, List, Text, any, Option-cases, inl, inr, arith,
}
use rustypaste.Paste.Path.{to_text}
use rustypaste.Paste.Storage.{Disk, Os, UploadResult}
use rustypaste.Store.Base.{i64_try_from}
use rustypaste.Store.Schema.{Db}
use rustypaste.Store.Pastes.{utf8, NewPaste}
use rustypaste.Store.Pastes.Inserted.{is_paste_at}
use rustypaste.Auth.Request.{accepted, Reply-cases}
use rustypaste.Server.Expiry.{expiry_seconds}
use rustypaste.Server.Metadata.{persist_paste_metadata}
use rustypaste.Server.Upload.{
  Field, stored, is_stored, suppresses, is_deduplicated, new_paste, record_metadata, record_upload,
  stored_content, find_remote_duplicate,
}
use rustypaste.Server.Persisted.{persist_paste_metadata-row}

pub new_paste-owner :
    (digest : List ℕ → Text) (field : Field) (result : UploadResult) (content : List ℕ) (owner : ℕ)
    (paste : NewPaste)
    → field.owner ≡ some owner
    → new_paste digest field result content ≡ accepted paste
    → (paste.owner_principal_id ≡ some owner)
      × (paste.storage_path ≡ utf8 (to_text result.storage_path))
unfolding new_paste
new_paste-owner digest field result content owner paste owned h =
    elim (Option-cases (i64_try_from field.now_seconds)) [
      | inl large ↦ absurd (ground arith)
      | inr (created_at, fits) ↦ elim (Reply-cases (expiry_seconds field.expiry_date)) [
        | inr (e, large) ↦ absurd (ground arith)
        | inl (expires_at, read) ↦ (ground arith, ground arith)
      ]
    ]

pub new_paste-known :
    (digest : List ℕ → Text) (field : Field) (result : UploadResult) (content : List ℕ)
    (paste : NewPaste)
    → new_paste digest field result content ≡ accepted paste
    → (owner : ℕ) × (field.owner ≡ some owner)
      × (paste.owner_principal_id ≡ some owner)
      × (paste.storage_path ≡ utf8 (to_text result.storage_path))
unfolding new_paste
new_paste-known digest field result content paste made = elim (Option-cases field.owner) [
  | inl unknown ↦ absurd (ground arith)
  | inr (owner, known) ↦
      let (owned, at) = new_paste-owner digest field result content owner paste known made in
      (owner, known, owned, at)
]

record_metadata-stored :
    (os : Os) (field : Field) (result r : UploadResult) (owner : ℕ) (paste : NewPaste) (db : Db)
    (disk : Disk)
    → paste.owner_principal_id ≡ some owner
    → paste.storage_path ≡ utf8 (to_text result.storage_path)
    → (record_metadata os field result paste db disk).0 ≡ accepted (stored r)
    → (result ≡ r)
      × (any
            (is_paste_at owner (to_text result.storage_path))
            (record_metadata os field result paste db disk).1.pastes.rows
          ≡ true)
      × ((record_metadata os field result paste db disk).2 ≡ disk)
unfolding record_metadata
record_metadata-stored os field result r owner paste db disk owned at h =
    let deduplicate = suppresses field && is_deduplicated field.kind in
    elim (Reply-cases
      (persist_paste_metadata (is_stored disk) paste deduplicate field.clocks db).0) [
        | inr (e, failed) ↦ absurd (ground arith)
        | inl (some found, persisted) ↦ absurd (ground arith)
        | inl (none, persisted) ↦ (
          ground arith,
          ground (
            arith,
            persist_paste_metadata-row (is_stored disk) paste field.clocks owner
                (to_text result.storage_path) owned at deduplicate db persisted,
          ),
          ground arith,
        )
      ]

module _ (os : Os) (digest : List ℕ → Text) (field : Field) (result : UploadResult) (owner : ℕ)
    (db : Db) (disk : Disk) (owned : field.owner ≡ some owner) where
  pub answered_is_recorded :
      (r : UploadResult)
      → (record_upload os digest field result db disk).0 ≡ accepted (stored r)
      → (result ≡ r)
        × (any
              (is_paste_at owner (to_text result.storage_path))
              (record_upload os digest field result db disk).1.pastes.rows
            ≡ true)
        × ((record_upload os digest field result db disk).2 ≡ disk)
  unfolding record_upload
  answered_is_recorded r h = elim (Option-cases (stored_content field result.storage_path disk)) [
    | inl missing ↦ absurd (ground arith)
    | inr (content, read) ↦
        let db' = (find_remote_duplicate digest field content disk db).1 in
        elim (Reply-cases (find_remote_duplicate digest field content disk db).0) [
          | inr (e, failed) ↦ absurd (ground arith)
          | inl (some name, found) ↦ absurd (ground arith)
          | inl (none, searched) ↦ elim (Reply-cases (new_paste digest field result content)) [
            | inr (e, large) ↦ absurd (ground arith)
            | inl (paste, made) ↦
                let (has_owner, at) =
                  new_paste-owner digest field result content owner paste owned made in
                let (one, row, same) =
                  record_metadata-stored os field result r owner paste db' disk has_owner at
                    (ground arith) in
                (one, ground arith, ground arith)
          ]
        ]
  ]
