-- ===== src/Server/Persisted.antt =====
-- src/server.rs: what the roll-back of an upload leaves on the disk, and `persist_paste_metadata` in the
-- database.
use rustypaste.Prelude.{
  ℕ, zero, suc, ◌≡◌, refl, Bool, true, false, none, some, [], ◌∷◌, Text, not, any, ◌&&◌,
  delete_where, any-keep_where, Option-cases, Bool-cases, inl, inr, arith,
}
use rustypaste.Paste.Path.{PathBuf}
use rustypaste.Paste.Storage.{Disk, is_at, is_file, Os}
use rustypaste.Paste.Write.{get_password_file_path, delete_password_file}
use rustypaste.Store.Base.{Clock, Result-cases}
use rustypaste.Store.Schema.{Db}
use rustypaste.Store.Pastes.{OsPath, utf8, NewPaste}
use rustypaste.Store.Pastes.Insert.{inserted, duplicate, insert_paste, insert_paste_deduplicated}
use rustypaste.Store.Pastes.Inserted.{is_paste_at, insert_paste-row, insert_paste_deduplicated-row}
use rustypaste.Store.Pastes.Query.{delete_paste}
use rustypaste.Auth.Request.{accepted}
use rustypaste.Server.Metadata.{after_insert, persist_round, persist_rounds, persist_paste_metadata}
use rustypaste.Server.Upload.{remove_new_upload}

removed_is_gone :
    (path : PathBuf) (disk : Disk) → is_file (delete_where (is_at path) disk) path ≡ false
removed_is_gone path [] = refl
removed_is_gone path (x ∷ disk) = ground (arith, removed_is_gone path disk)

-- After a roll-back, a file that can be removed is not there.
pub remove_new_upload-is_file :
    (os : Os) (path : PathBuf) (disk : Disk)
    → (os.can_remove path && is_file (remove_new_upload os path disk) path) ≡ false
unfolding remove_new_upload delete_password_file
remove_new_upload-is_file os path disk = elim (Bool-cases (os.can_remove path)) [
  | inr stays ↦ ground arith
  | inl removable ↦ elim (Option-cases (get_password_file_path path)) [
    | inl missing ↦ ground (arith, removed_is_gone path disk)
    | inr (sidecar, found) ↦ ground (
      arith,
      removed_is_gone path disk,
      any-keep_where (is_at path) (λ x. not (is_at sidecar x)) (delete_where (is_at path) disk)
          (removed_is_gone path disk),
    )
  ]
]

module _ (is_file : OsPath → Bool) (paste : NewPaste) (clocks : ℕ → Clock) (owner : ℕ) (path : Text)
    (owned : paste.owner_principal_id ≡ some owner) (at : paste.storage_path ≡ utf8 path) where
  persist_rounds-row :
      (n : ℕ) (db : Db)
      → (persist_rounds is_file paste clocks n db).0 ≡ accepted none
      → any (is_paste_at owner path) (persist_rounds is_file paste clocks n db).1.pastes.rows ≡ true
  unfolding persist_rounds persist_round after_insert
  persist_rounds-row zero db h = absurd (ground arith)
  persist_rounds-row (suc n) db h =
      elim (Result-cases (insert_paste_deduplicated paste (clocks n) db).0) [
        | inr (e, failed) ↦ absurd (ground arith)
        | inl (inserted r, done) ↦
            ground
              (arith, insert_paste_deduplicated-row paste owner path db (clocks n) r owned at done)
        | inl (duplicate r, done) ↦ elim (Bool-cases (is_file r.storage_path)) [
          | inl there ↦ absurd (ground arith)
          | inr stale ↦
              let db' = (insert_paste_deduplicated paste (clocks n) db).1 in
              elim (Result-cases (delete_paste r.id db').0) [
                | inr (e, failed) ↦ absurd (ground arith)
                | inl (o, removed) ↦ ground (arith, persist_rounds-row n (delete_paste r.id db').1)
              ]
        ]
      ]

  pub persist_paste_metadata-row :
      (deduplicate : Bool) (db : Db)
      → (persist_paste_metadata is_file paste deduplicate clocks db).0 ≡ accepted none
      → any
          (is_paste_at owner path)
          (persist_paste_metadata is_file paste deduplicate clocks db).1.pastes.rows
        ≡ true
  unfolding persist_paste_metadata
  persist_paste_metadata-row true db h = persist_rounds-row 3 db h
  persist_paste_metadata-row false db h = elim (Result-cases (insert_paste paste (clocks 0) db).0) [
    | inr (e, failed) ↦ absurd (ground arith)
    | inl (r, done) ↦
        ground (arith, insert_paste-row paste owner path db (clocks 0) r owned at done)
  ]
