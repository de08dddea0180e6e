-- ===== src/Paste/Stored.antt =====
-- src/paste.rs: what an upload leaves on the disk where it is accepted, and where it is refused.
use mathlib.Core.Path.{subst}
use rustypaste.Prelude.{
  ℕ, ◌≡◌, refl, ap, sym, ◌∙◌, Bool, true, false, Option, none, some, List, [], ◌∷◌, ◌++◌, Text,
  Option-cases, Bool-cases, inl, inr, arith,
}
use rustypaste.Auth.Request.{Reply-cases, accepted}
use rustypaste.Paste.Kind.{PasteType, is_protected}
use rustypaste.Paste.Path.{PathBuf, file_name, path_eq_refl}
use rustypaste.Paste.Storage.{
  Disk, read, is_file, Os, StorageConfig, UploadResult, chosen_path, check_dir_size,
}
use rustypaste.Paste.Write.{
  glob_match_file, get_password_file_path, store_password_hash, write_content, with_timestamp,
  name_or_empty, protect_and_write, store_at, store_file,
}

pub read-new :
    (disk : Disk) (path : PathBuf) (content : List ℕ)
    → is_file disk path ≡ false
    → read (disk ++ (path, content) ∷ []) path ≡ some (path, content)
read-new [] path content free = ground (arith, path_eq_refl path)
read-new (x ∷ disk) path content free = ground (arith, read-new disk path content)

-- The file is new, and read back with its content.
abbrev pub IsNew : Disk → PathBuf → List ℕ → Disk → Type 0
IsNew disk path content disk' =
    (is_file disk path ≡ false) × (read disk' path ≡ some (path, content))

module _ (os : Os) (content : List ℕ) (result : UploadResult) where
  write_content-IsNew :
      (path : PathBuf) (name : Text) (password : Option Text) (disk : Disk)
      → (write_content os path name password content disk).0 ≡ accepted result
      → (is_file disk path ≡ false)
        × ((write_content os path name password content disk).1 ≡ disk ++ (path, content) ∷ [])
        × (result.storage_path ≡ path)
        × (result.password ≡ password)
  unfolding write_content
  write_content-IsNew path name password disk h = elim (Bool-cases (is_file disk path)) [
    | inl taken ↦ absurd (ground arith)
    | inr free ↦ elim (Option-cases (os.create_error path)) [
      | inr (error, failed) ↦ absurd (ground arith)
      | inl created ↦ elim (Option-cases (os.write_error path)) [
        | inr (error, failed) ↦ absurd (ground arith)
        | inl written ↦ (free, ground arith, ground arith, ground arith)
      ]
    ]
  ]

  -- what `store_password_hash` leaves when it succeeds
  password_is_stored :
      (path : PathBuf) (disk : Disk)
      → (store_password_hash os path os.password disk).0 ≡ none
      → (sidecar : PathBuf) × (hash : List ℕ) × (get_password_file_path path ≡ some sidecar)
        × (os.hash_password os.password ≡ some hash)
        × ((store_password_hash os path os.password disk).1 ≡ disk ++ (sidecar, hash) ∷ [])
        × (is_file disk sidecar ≡ false)
  unfolding store_password_hash
  password_is_stored path disk h = elim (Option-cases (os.hash_password os.password)) [
    | inl failed ↦ absurd (ground arith)
    | inr (hash, hashed) ↦ elim (Option-cases (get_password_file_path path)) [
      | inl missing ↦ absurd (ground arith)
      | inr (sidecar, found) ↦ elim (Bool-cases (is_file disk sidecar)) [
        | inl taken ↦ absurd (ground arith)
        | inr free ↦ elim (Option-cases (os.create_error sidecar)) [
          | inr (error, failed) ↦ absurd (ground arith)
          | inl created ↦ elim (Option-cases (os.write_error sidecar)) [
            | inr (error, failed) ↦ absurd (ground arith)
            | inl written ↦ (sidecar, hash, found, hashed, ground arith, free)
          ]
        ]
      ]
    ]
  ]

  -- What stands on the disk before the content is written: for a protected paste, the hash of the
  -- password that is answered, in a sidecar that is new.
  abbrev pub Prepares : Bool → PathBuf → Disk → Disk → Type 0
  Prepares false path disk before = (before ≡ disk) × (result.password ≡ none)
  Prepares true path disk before =
      (sidecar : PathBuf) × (hash : List ℕ) × (get_password_file_path path ≡ some sidecar)
      × (os.hash_password os.password ≡ some hash)
      × (is_file disk sidecar ≡ false)
      × (before ≡ disk ++ (sidecar, hash) ∷ [])
      × (result.password ≡ some os.password)

  abbrev pub Leaves : PasteType → PathBuf → Disk → Disk → Type 0
  Leaves kind path disk disk' =
      (before : Disk) × Prepares (is_protected kind) path disk before
      × (is_file before path ≡ false)
      × (disk' ≡ before ++ (path, content) ∷ [])

  leaves_as :
      (b : Bool) (kind : PasteType) (path : PathBuf) (name : Text) (disk : Disk)
      → is_protected kind ≡ b
      → (protect_and_write os kind path name content disk).0 ≡ accepted result
      → (before : Disk) × Prepares b path disk before
        × (is_file before path ≡ false)
        × ((protect_and_write os kind path name content disk).1 ≡ before ++ (path, content) ∷ [])
        × (result.storage_path ≡ path)
  unfolding protect_and_write
  leaves_as false kind path name disk open_kind h =
      let (free, left, at, password) = write_content-IsNew path name none disk (ground arith) in
      (disk, (refl, password), free, ground arith, at)
  leaves_as true kind path name disk protected h =
      let hashed = store_password_hash os path os.password disk in
      elim (Option-cases hashed.0) [
        | inr (error, failed) ↦ absurd (ground arith)
        | inl stored ↦
            let (sidecar, hash, found, made, before, new) = password_is_stored path disk stored in
            let (free, left, at, password) =
              write_content-IsNew path name (some os.password) hashed.1 (ground arith) in
            (hashed.1, (sidecar, hash, found, made, new, before, password), free, ground arith, at)
      ]

  pub store_at-Leaves :
      (kind : PasteType) (path : PathBuf) (expiry_date : Option ℕ) (disk : Disk)
      → (store_at os kind path expiry_date content disk).0 ≡ accepted result
      → Leaves kind result.storage_path disk (store_at os kind path expiry_date content disk).1
  unfolding store_at
  store_at-Leaves kind path expiry_date disk h =
      let name = name_or_empty (file_name path) in
      let opened = with_timestamp path name expiry_date in
      elim (Option-cases (glob_match_file os disk path)) [
        | inl failed ↦ absurd (ground arith)
        | inr (file_path, found) ↦ elim (Bool-cases (is_file disk file_path)) [
          | inl taken ↦ absurd (ground arith)
          | inr free ↦
              let (before, prepares, new, left, at) =
                leaves_as (is_protected kind) kind opened name disk refl (ground arith) in
              subst (λ p. Leaves kind p disk (store_at os kind path expiry_date content disk).1)
                (sym at) (before, prepares, new, ground arith)
        ]
      ]

  -- An upload that is accepted has stored its content, at the path that it answers, where no file was:
  -- the file is read back with the content. A protected paste's sidecar is new too, has the hash of
  -- the answered password, and is written first; another paste answers no password and writes nothing
  -- else.
  pub stored_is_read :
      (config : StorageConfig) (kind : PasteType) (name : Text) (expiry_date : Option ℕ)
      (header_filename : Option Text) (disk : Disk)
      → (store_file os config kind content name expiry_date header_filename disk).0
        ≡ accepted result
      → Leaves kind result.storage_path disk
          (store_file os config kind content name expiry_date header_filename disk).1
        × (read
              (store_file os config kind content name expiry_date header_filename disk).1
              result.storage_path
            ≡ some (result.storage_path, content))
  unfolding store_file
  stored_is_read config kind name expiry_date header_filename disk h =
      elim (Reply-cases (check_dir_size os config disk kind content)) [
        | inr (error, full) ↦ absurd (ground arith)
        | inl (u, fits) ↦
            elim (Option-cases (chosen_path os config kind content name header_filename)) [
              | inl outside ↦ absurd (ground arith)
              | inr (path, chosen) ↦
                  let (before, prepares, new, left) =
                    store_at-Leaves kind path expiry_date disk (ground arith) in
                  let upload =
                    store_file os config kind content name expiry_date header_filename disk in
                  let same : upload.1 ≡ before ++ (result.storage_path, content) ∷ [] =
                    ground arith in
                  (
                    (before, prepares, new, same),
                    ap (λ d. read d result.storage_path) same
                        ∙ read-new before result.storage_path content new,
                  )
            ]
      ]
