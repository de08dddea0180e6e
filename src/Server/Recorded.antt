-- ===== src/Server/Recorded.antt =====
-- src/server.rs: what an upload leaves on the disk and in the database.
use rustypaste.Prelude.{
  ℕ, ◌≡◌, ap, true, false, ◌&&◌, none, some, List, ◌⊎◌, Text, is_empty, any, Option-cases,
  Bool-cases, inl, inr, arith,
}
use rustypaste.Paste.Path.{to_text}
use rustypaste.Paste.Storage.{Disk, is_file, Os, StorageConfig, UploadResult}
use rustypaste.Util.Remote.{Resolver}
use rustypaste.Store.Schema.{Db}
use rustypaste.Store.Pastes.{utf8, NewPaste}
use rustypaste.Store.Pastes.Inserted.{is_paste_at}
use rustypaste.Auth.Request.{HttpError, internal, Reply, accepted, refused, Reply-cases}
use rustypaste.Server.Metadata.{persist_paste_metadata}
use rustypaste.Server.Upload.{
  Field, Uploaded, existing, stored, remove_new_upload, is_stored, suppresses, is_deduplicated,
  new_paste, record_metadata, record_upload, stored_content, find_remote_duplicate,
  find_first_duplicate, store_paste, upload_field,
}
use rustypaste.Server.Persisted.{remove_new_upload-is_file, persist_paste_metadata-row}
use rustypaste.Server.StoredRow.{new_paste-known, answered_is_recorded}

-- a reply that does not store: an error, or the paste of before
abbrev pub IsTurnedDown : Reply Uploaded → Type 0
IsTurnedDown reply =
    ((e : HttpError) × (reply ≡ refused e)) ⊎ ((name : Text) × (reply ≡ accepted (existing name)))

-- The paste is answered as stored, the disk is as it was, and the owner has a row with its path.
abbrev pub IsRecorded : Field → UploadResult → Disk → Reply Uploaded → Db → Disk → Type 0
IsRecorded field result disk reply db' disk' =
    (owner : ℕ) × (field.owner ≡ some owner)
    × (reply ≡ accepted (stored result))
    × (disk' ≡ disk)
    × (any (is_paste_at owner (to_text result.storage_path)) db'.pastes.rows ≡ true)

-- The upload is not stored and was rolled back: nothing is at its path, if that can be removed.
abbrev pub IsRolledBack : Os → UploadResult → Disk → Reply Uploaded → Disk → Type 0
IsRolledBack os result disk reply disk' =
    IsTurnedDown reply
    × (disk' ≡ remove_new_upload os result.storage_path disk)
    × ((os.can_remove result.storage_path && is_file disk' result.storage_path) ≡ false)

-- The error is that of the look for a duplicate, or that of the metadata.
abbrev pub FailsEarly :
    (List ℕ → Text) → Field → UploadResult → (content : List ℕ) → Db → Disk → HttpError → Type 0
FailsEarly digest field result content db disk e =
    ((find_remote_duplicate digest field content disk db).0 ≡ refused e)
    ⊎ (new_paste digest field result content ≡ refused e)

-- The upload is refused with such an error, and its file stays.
abbrev pub IsLeft :
    (List ℕ → Text) → Field → UploadResult → Db → Disk → Reply Uploaded → Disk → Type 0
IsLeft digest field result db disk reply disk' =
    (e : HttpError) × (content : List ℕ) × (stored_content field result.storage_path disk
      ≡ some content)
    × FailsEarly digest field result content db disk e
    × (reply ≡ refused e)
    × (disk' ≡ disk)

abbrev pub IsSettled :
    Os → (List ℕ → Text) → Field → UploadResult → Db → Disk → Reply Uploaded → Db → Disk → Type 0
IsSettled os digest field result db disk reply db' disk' =
    IsRecorded field result disk reply db' disk'
    ⊎ (IsRolledBack os result disk reply disk' ⊎ IsLeft digest field result db disk reply disk')

record_metadata-IsSettled :
    (os : Os) (field : Field) (result : UploadResult) (owner : ℕ) (paste : NewPaste) (db : Db)
    (disk : Disk)
    → field.owner ≡ some owner
    → paste.owner_principal_id ≡ some owner
    → paste.storage_path ≡ utf8 (to_text result.storage_path)
    → (let out = record_metadata os field result paste db disk in
        IsRecorded field result disk out.0 out.1 out.2 ⊎ IsRolledBack os result disk out.0 out.2)
unfolding record_metadata
record_metadata-IsSettled os field result owner paste db disk known owned at =
    let deduplicate = suppresses field && is_deduplicated field.kind in
    let gone = remove_new_upload-is_file os result.storage_path disk in
    elim (Reply-cases
      (persist_paste_metadata (is_stored disk) paste deduplicate field.clocks db).0) [
        | inr (e, failed) ↦ inr (inl (e, ground arith), ground arith, ground (arith, gone))
        | inl (some found, persisted) ↦
            inr (inr (found.public_filename, ground arith), ground arith, ground (arith, gone))
        | inl (none, persisted) ↦ inl (
          owner,
          known,
          ground arith,
          ground arith,
          ground (
            arith,
            persist_paste_metadata-row (is_stored disk) paste field.clocks owner
                (to_text result.storage_path) owned at deduplicate db persisted,
          ),
        )
      ]

-- Once its file is stored, an upload ends in one of three ways: it is answered as stored, with a row of
-- its owner and path in the database and nothing more changed on the disk; it is refused or answered
-- with a paste of before, and the disk is rolled back, so that nothing is at its path unless that
-- cannot be removed; or the look for a duplicate or the metadata has an error, which is answered, and
-- the file stays.
pub record_upload-IsSettled :
    (os : Os) (digest : List ℕ → Text) (field : Field) (result : UploadResult) (db : Db)
    (disk : Disk)
    → (let out = record_upload os digest field result db disk in
        IsSettled os digest field result db disk out.0 out.1 out.2)
unfolding record_upload
record_upload-IsSettled os digest field result db disk =
    let gone = remove_new_upload-is_file os result.storage_path disk in
    elim (Option-cases (stored_content field result.storage_path disk)) [
      | inl missing ↦ inr (inl (inl (internal, ground arith), ground arith, ground (arith, gone)))
      | inr (content, read) ↦
          let db' = (find_remote_duplicate digest field content disk db).1 in
          elim (Reply-cases (find_remote_duplicate digest field content disk db).0) [
            | inr (e, failed) ↦ inr (inr (e, content, read, inl failed, ground arith, ground arith))
            | inl (some name, found) ↦
                inr (inl (inr (name, ground arith), ground arith, ground (arith, gone)))
            | inl (none, searched) ↦ elim (Reply-cases (new_paste digest field result content)) [
              | inr (e, failed) ↦
                  inr (inr (e, content, read, inr failed, ground arith, ground arith))
              | inl (paste, made) ↦
                  let (owner, known, has_owner, at) =
                    new_paste-known digest field result content paste made in
                  elim (record_metadata-IsSettled os field result owner paste db' disk known
                    has_owner at) [
                      | inl (o, k, answered, same, row) ↦
                          inl (o, k, ground arith, ground arith, ground arith)
                      | inr (inl (e, failed), rolled, clean) ↦
                          inr (inl (inl (e, ground arith), ground arith, ground arith))
                      | inr (inr (name, found), rolled, clean) ↦
                          inr (inl (inr (name, ground arith), ground arith, ground arith))
                    ]
            ]
          ]
    ]

-- The owner of an upload that is answered as stored has a row with the path that is answered, and the
-- disk is as the storing of the content left it, which answered that path.
pub uploaded_is_recorded :
    (os : Os) (config : StorageConfig) (resolve : Resolver) (digest : List ℕ → Text) (field : Field)
    (owner : ℕ) (result : UploadResult) (db : Db) (disk : Disk)
    → field.owner ≡ some owner
    → (upload_field os config resolve digest field db disk).0 ≡ accepted (stored result)
    → (store_paste os config resolve field disk
        ≡ (accepted result, (upload_field os config resolve digest field db disk).2))
      × (any
            (is_paste_at owner (to_text result.storage_path))
            (upload_field os config resolve digest field db disk).1.pastes.rows
          ≡ true)
unfolding upload_field
uploaded_is_recorded os config resolve digest field owner result db disk owned h =
    elim (Bool-cases (is_empty field.content)) [
      | inl empty ↦ absurd (ground arith)
      | inr given ↦
          let db' = (find_first_duplicate digest field disk db).1 in
          let written_disk = (store_paste os config resolve field disk).1 in
          elim (Reply-cases (find_first_duplicate digest field disk db).0) [
            | inr (e, failed) ↦ absurd (ground arith)
            | inl (some name, found) ↦ absurd (ground arith)
            | inl (none, searched) ↦
                elim (Reply-cases (store_paste os config resolve field disk).0) [
                  | inr (e, failed) ↦ absurd (ground arith)
                  | inl (result', written) ↦
                      let (one, row, same) =
                        answered_is_recorded os digest field result' owner db' written_disk owned
                          result (ground arith) in
                      (ground arith, ground (arith, ap (λ r. to_text r.storage_path) one))
                ]
          ]
    ]
