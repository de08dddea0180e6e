-- ===== src/Paste/Kept.antt =====
-- src/paste.rs: what an upload changes on the disk: its own file, and a password sidecar.
use rustypaste.Prelude.{
  ℕ, ◌≡◌, refl, Bool, true, false, Option, none, some, List, [], ◌∷◌, ◌++◌, Text, delete_where,
  Option-cases, Bool-cases, inl, inr, arith,
}
use rustypaste.Auth.Request.{Reply-cases}
use rustypaste.Paste.Kind.{PasteType}
use rustypaste.Paste.Path.{PathBuf, file_name, path_eq, path_eq_iff}
use rustypaste.Paste.Storage.{
  FileEntry, Disk, is_at, read, is_file, remove_file, Os, StorageConfig, chosen_path,
  check_dir_size,
}
use rustypaste.Paste.Write.{
  glob_match_file, get_password_file_path, delete_password_file, store_password_hash, write_content,
  with_timestamp, name_or_empty, protect_and_write, store_at, store_file,
}

pub read-append :
    (disk more : Disk) (q : PathBuf) (e : FileEntry)
    → read disk q ≡ some e
    → read (disk ++ more) q ≡ some e
read-append [] more q e h = absurd (ground arith)
read-append (x ∷ disk) more q e h = ground (arith, read-append disk more q e)

read-delete_where :
    (p q : PathBuf) (disk : Disk)
    → path_eq q p ≡ false
    → read (delete_where (is_at p) disk) q ≡ read disk q
read-delete_where p q [] other = refl
read-delete_where p q (x ∷ disk) other =
    ground (
      arith,
      read-delete_where p q disk other,
      path_eq_iff x.0 p,
      path_eq_iff x.0 q,
      path_eq_iff q p,
    )

pub read-remove_file :
    (os : Os) (p q : PathBuf) (disk : Disk)
    → path_eq q p ≡ false
    → read (remove_file os p disk) q ≡ read disk q
read-remove_file os p q disk other = ground (arith, read-delete_where p q disk other)

read-is_file :
    (disk : Disk) (q : PathBuf) (e : FileEntry) → read disk q ≡ some e → is_file disk q ≡ true
read-is_file [] q e h = absurd (ground arith)
read-is_file (x ∷ disk) q e h = ground (arith, read-is_file disk q e)

pub absent_other :
    (disk : Disk) (path q : PathBuf) (e : FileEntry)
    → is_file disk path ≡ false
    → read disk q ≡ some e
    → path_eq q path ≡ false
absent_other disk path q e free h = ground (arith, read-is_file disk q e h, path_eq_iff q path)

-- whether a path is that of the password sidecar of another
abbrev pub is_sidecar : PathBuf → PathBuf → Bool
is_sidecar path q = elim (get_password_file_path path) [
  | none ↦ false
  | some sidecar ↦ path_eq q sidecar
]

module _ (os : Os) (q : PathBuf) (e : FileEntry) where
  delete_password_file_keeps :
      (path : PathBuf) (disk : Disk)
      → is_sidecar path q ≡ false
      → read disk q ≡ some e
      → read (delete_password_file os path disk) q ≡ some e
  unfolding delete_password_file
  delete_password_file_keeps path disk other h = elim (Option-cases (get_password_file_path path)) [
    | inl missing ↦ ground arith
    | inr (sidecar, found) ↦ ground (arith, read-remove_file os sidecar q disk)
  ]

  write_content_keeps :
      (path : PathBuf) (name : Text) (password : Option Text) (content : List ℕ) (disk : Disk)
      → is_sidecar path q ≡ false
      → read disk q ≡ some e
      → read (write_content os path name password content disk).1 q ≡ some e
  unfolding write_content
  write_content_keeps path name password content disk other h =
      elim (Bool-cases (is_file disk path)) [
        | inl taken ↦ ground (arith, delete_password_file_keeps path disk other h)
        | inr free ↦ elim (Option-cases (os.create_error path)) [
          | inr (error, failed) ↦ ground (arith, delete_password_file_keeps path disk other h)
          | inl created ↦ elim (Option-cases (os.write_error path)) [
            | inl written ↦ ground (arith, read-append disk ((path, content) ∷ []) q e h)
            | inr (error, failed) ↦
                let opened = disk ++ (path, os.partly_written path) ∷ [] in
                ground (
                  arith,
                  delete_password_file_keeps path (remove_file os path opened) other,
                  read-remove_file os path q opened,
                  read-append disk ((path, os.partly_written path) ∷ []) q e h,
                  absent_other disk path q e free h,
                )
          ]
        ]
      ]

  store_password_hash_keeps :
      (path : PathBuf) (password : Text) (disk : Disk)
      → read disk q ≡ some e
      → read (store_password_hash os path password disk).1 q ≡ some e
  unfolding store_password_hash
  store_password_hash_keeps path password disk h = elim (Option-cases (os.hash_password password)) [
    | inl failed ↦ ground arith
    | inr (hash, hashed) ↦ elim (Option-cases (get_password_file_path path)) [
      | inl missing ↦ ground arith
      | inr (sidecar, found) ↦ ground (
        arith,
        read-append disk ((sidecar, hash) ∷ []) q e h,
        read-append disk ((sidecar, os.partly_written sidecar) ∷ []) q e h,
      )
    ]
  ]

  protect_and_write_keeps :
      (kind : PasteType) (path : PathBuf) (name : Text) (content : List ℕ) (disk : Disk)
      → is_sidecar path q ≡ false
      → read disk q ≡ some e
      → read (protect_and_write os kind path name content disk).1 q ≡ some e
  unfolding protect_and_write
  protect_and_write_keeps kind path name content disk other h =
      let after = (store_password_hash os path os.password disk).1 in
      let hashed = store_password_hash_keeps path os.password disk h in
      elim (Option-cases (store_password_hash os path os.password disk).0) [
        | inl stored ↦ ground (
          arith,
          hashed,
          write_content_keeps path name (some os.password) content after other hashed,
          write_content_keeps path name none content disk other h,
        )
        | inr (error, failed) ↦
            ground (arith, hashed, write_content_keeps path name none content disk other h)
      ]

  store_at_keeps :
      (kind : PasteType) (path : PathBuf) (expiry_date : Option ℕ) (content : List ℕ) (disk : Disk)
      → is_sidecar (with_timestamp path (name_or_empty (file_name path)) expiry_date) q ≡ false
      → read disk q ≡ some e
      → read (store_at os kind path expiry_date content disk).1 q ≡ some e
  unfolding store_at
  store_at_keeps kind path expiry_date content disk other h =
      let name = name_or_empty (file_name path) in
      elim (Option-cases (glob_match_file os disk path)) [
        | inl failed ↦ ground arith
        | inr (file_path, found) ↦ ground (
          arith,
          protect_and_write_keeps kind (with_timestamp path name expiry_date) name content disk
              other h,
        )
      ]

-- the path that an upload opens: the one that it chooses, with its expiry
abbrev pub opened_path :
    Os
    → StorageConfig
    → PasteType
    → List ℕ
    → Text
    → (expiry_date : Option ℕ) → (header_filename : Option Text) → Option PathBuf
opened_path os config kind content name expiry_date header_filename =
    elim (chosen_path os config kind content name header_filename) [
      | none ↦ none
      | some path ↦ some (with_timestamp path (name_or_empty (file_name path)) expiry_date)
    ]

-- whether a path may be the sidecar of an upload
abbrev pub is_sidecar_of : Option PathBuf → PathBuf → Bool
is_sidecar_of none q = false
is_sidecar_of (some path) q = is_sidecar path q

-- Whatever an upload answers, and whatever fails, each file that was there is there with its content,
-- except for one at the password sidecar's path of the path that the upload opens.
pub store_file_keeps :
    (os : Os) (config : StorageConfig) (kind : PasteType) (content : List ℕ) (name : Text)
    (expiry_date : Option ℕ) (header_filename : Option Text) (disk : Disk) (q : PathBuf)
    (e : FileEntry)
    → is_sidecar_of (opened_path os config kind content name expiry_date header_filename) q ≡ false
    → read disk q ≡ some e
    → read (store_file os config kind content name expiry_date header_filename disk).1 q ≡ some e
unfolding store_file
store_file_keeps os config kind content name expiry_date header_filename disk q e other h =
    elim (Reply-cases (check_dir_size os config disk kind content)) [
      | inr (error, full) ↦ ground arith
      | inl (u, fits) ↦
          elim (Option-cases (chosen_path os config kind content name header_filename)) [
            | inl outside ↦ ground arith
            | inr (path, chosen) ↦
                ground (arith, store_at_keeps os q e kind path expiry_date content disk)
          ]
    ]
