-- ===== src/Paste/Placed.antt =====
-- src/paste.rs, `store_file`: the path and the filename that an upload is answered with.
use rustypaste.Prelude.{
  ℕ, ◌≡◌, Option, none, some, List, Text, Option-cases, Bool-cases, inl, inr, arith,
}
use rustypaste.Auth.Request.{Reply-cases, accepted}
use rustypaste.Paste.Kind.{PasteType, is_protected}
use rustypaste.Paste.Path.{PathBuf, file_name}
use rustypaste.Paste.Storage.{
  Disk, is_file, Os, StorageConfig, UploadResult, chosen_path, check_dir_size,
}
use rustypaste.Paste.Write.{
  glob_match_file, store_password_hash, write_content, with_timestamp, name_or_empty,
  protect_and_write, store_at, store_file,
}

abbrev pub IsPlaced : UploadResult → PathBuf → Text → Type 0
IsPlaced result path name = (result.storage_path ≡ path) × (result.filename ≡ name)

module _ (os : Os) (content : List ℕ) (result : UploadResult) where
  write_content-IsPlaced :
      (path : PathBuf) (name : Text) (password : Option Text) (disk : Disk)
      → (write_content os path name password content disk).0 ≡ accepted result
      → IsPlaced result path name
  unfolding write_content
  write_content-IsPlaced path name password disk h = elim (Bool-cases (is_file disk path)) [
    | inl taken ↦ absurd (ground arith)
    | inr free ↦ elim (Option-cases (os.create_error path)) [
      | inr (error, failed) ↦ absurd (ground arith)
      | inl created ↦ elim (Option-cases (os.write_error path)) [
        | inr (error, failed) ↦ absurd (ground arith)
        | inl written ↦ (ground arith, ground arith)
      ]
    ]
  ]

  protect_and_write-IsPlaced :
      (kind : PasteType) (path : PathBuf) (name : Text) (disk : Disk)
      → (protect_and_write os kind path name content disk).0 ≡ accepted result
      → IsPlaced result path name
  unfolding protect_and_write
  protect_and_write-IsPlaced kind path name disk h =
      let hashed = store_password_hash os path os.password disk in
      elim (Bool-cases (is_protected kind)) [
        | inr open_kind ↦ write_content-IsPlaced path name none disk (ground arith)
        | inl protected ↦ elim (Option-cases hashed.0) [
          | inr (error, failed) ↦ absurd (ground arith)
          | inl made ↦ write_content-IsPlaced path name (some os.password) hashed.1 (ground arith)
        ]
      ]

  store_at-IsPlaced :
      (kind : PasteType) (path : PathBuf) (expiry_date : Option ℕ) (disk : Disk)
      → (store_at os kind path expiry_date content disk).0 ≡ accepted result
      → (let name = name_or_empty (file_name path) in
          IsPlaced result (with_timestamp path name expiry_date) name)
  unfolding store_at
  store_at-IsPlaced kind path expiry_date disk h =
      let name = name_or_empty (file_name path) in
      elim (Option-cases (glob_match_file os disk path)) [
        | inl failed ↦ absurd (ground arith)
        | inr (file_path, found) ↦ elim (Bool-cases (is_file disk file_path)) [
          | inl taken ↦ absurd (ground arith)
          | inr free ↦
              protect_and_write-IsPlaced kind (with_timestamp path name expiry_date) name disk
                (ground arith)
        ]
      ]

  -- An upload that is accepted is at the path that it chose, with the expiry, and has that path's name.
  pub store_file-IsPlaced :
      (config : StorageConfig) (kind : PasteType) (name : Text) (expiry_date : Option ℕ)
      (header_filename : Option Text) (disk : Disk)
      → (store_file os config kind content name expiry_date header_filename disk).0
        ≡ accepted result
      → (path : PathBuf) × (chosen_path os config kind content name header_filename ≡ some path)
        × IsPlaced result
            (with_timestamp path (name_or_empty (file_name path)) expiry_date)
            (name_or_empty (file_name path))
  unfolding store_file
  store_file-IsPlaced config kind name expiry_date header_filename disk h =
      elim (Reply-cases (check_dir_size os config disk kind content)) [
        | inr (error, full) ↦ absurd (ground arith)
        | inl (u, fits) ↦
            elim (Option-cases (chosen_path os config kind content name header_filename)) [
              | inl outside ↦ absurd (ground arith)
              | inr (path, chosen) ↦
                  let (at, named) = store_at-IsPlaced kind path expiry_date disk (ground arith) in
                  (path, chosen, (at, named))
            ]
      ]
