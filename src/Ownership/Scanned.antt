-- ===== src/Ownership/Scanned.antt =====
-- src/ownership.rs: what the scan reads of a file that an upload stored.
use rustypaste.Prelude.{
  ℕ, ◌<◌, [], all, is_ascii_digit, digits, all-digits, length-digits, ◌≡◌, refl, sym, ◌∙◌, ap,
  Option, Bool, false, true, none, some, List, ◌∷◌, ◌++◌, Text, ◌≤◌, length, decimal, Option-cases,
  inl, inr, arith,
}
use rustypaste.Store.Base.{i64_try_from}
use rustypaste.Store.Pastes.{NewPaste}
use rustypaste.Auth.Request.{Reply-cases, accepted}
use rustypaste.Paste.Kind.{
  PasteType, file, remote_file, oneshot, url, oneshot_url, protected_file, get_dir,
}
use rustypaste.Paste.Path.{has_no_slash, is_plain, file_name-set_file_name, PathBuf, file_name}
use rustypaste.Paste.Storage.{Disk, Os, StorageConfig, UploadResult}
use rustypaste.Paste.Write.{name_or_empty, store_file}
use rustypaste.Paste.Placed.{store_file-IsPlaced}
use rustypaste.Server.Expiry.{expiry_seconds, u128_max}
use rustypaste.Server.Upload.{Field, new_paste}
use rustypaste.Ownership.Expiry.{split_expiry-decimal}
use rustypaste.Ownership.Scan.{DirEntry, is_password_sidecar, scanned_paste, scan_entry}

-- The entry of a regular file.
abbrev pub entry_of : PathBuf → (created : ℕ) → List ℕ → DirEntry
entry_of path created content = record {
  path = path;
  metadata = some (record { is_regular = true; created = some created; len = length content });
  content = some content;
}

-- the kind that the scan gives a file, by its directory: a remote file is in that of the files
abbrev pub scanned_kind : PasteType → PasteType
scanned_kind remote_file = file
scanned_kind kind = kind

same_directory : (kind : PasteType) → get_dir (scanned_kind kind) ≡ get_dir kind
unfolding get_dir
same_directory file = refl
same_directory remote_file = refl
same_directory oneshot = refl
same_directory url = refl
same_directory oneshot_url = refl
same_directory protected_file = refl

digits_have_no_slash : (s : Text) → all is_ascii_digit s ≡ true → has_no_slash s ≡ true
digits_have_no_slash [] h = refl
digits_have_no_slash (c ∷ s) h = ground (arith, digits_have_no_slash s)

dated_has_no_slash :
    (name s : Text)
    → has_no_slash name ≡ true
    → has_no_slash s ≡ true
    → has_no_slash (name ++ b'.' ∷ s) ≡ true
dated_has_no_slash [] s h k = ground arith
dated_has_no_slash (c ∷ name) s h k = ground (arith, dated_has_no_slash name s)

-- A name with a dot and at least two digits is neither `.` nor `..`.
dated_is_plain :
    (name s : Text)
    → has_no_slash name ≡ true
    → all is_ascii_digit s ≡ true
    → 9 < length s
    → is_plain (name ++ b'.' ∷ s) ≡ true
dated_is_plain name [] h shown long = absurd (ground arith)
dated_is_plain [] (d ∷ s) h shown long =
    ground (arith, digits_have_no_slash (d ∷ s) shown, dated_has_no_slash [] (d ∷ s) refl)
dated_is_plain (c ∷ []) (d ∷ s) h shown long =
    ground (arith, digits_have_no_slash (d ∷ s) shown, dated_has_no_slash (c ∷ []) (d ∷ s) h)
dated_is_plain (c ∷ b ∷ []) (d ∷ s) h shown long =
    ground (arith, digits_have_no_slash (d ∷ s) shown, dated_has_no_slash (c ∷ b ∷ []) (d ∷ s) h)
dated_is_plain (c ∷ b ∷ e ∷ name) (d ∷ s) h shown long =
    ground
      (arith, digits_have_no_slash (d ∷ s) shown, dated_has_no_slash (c ∷ b ∷ e ∷ name) (d ∷ s) h)

module _ (os : Os) (digest : List ℕ → Text) (is_hash : List ℕ → Bool) (disk : Disk) (field : Field)
    (result : UploadResult) (content : List ℕ) (millis created : ℕ) where
  -- `scan_entry` of a file of which the name is the public filename with the expiry
  named_as_recorded :
      (path : PathBuf) (paste : NewPaste)
      → field.expiry_date ≡ some millis
      → 1000000000 ≤ millis
      → millis ≤ u128_max
      → i64_try_from created ≡ some created
      → os.clean path ≡ result.storage_path
      → file_name result.storage_path ≡ some (result.filename ++ b'.' ∷ decimal millis)
      → is_password_sidecar is_hash disk result.storage_path (scanned_kind field.kind) ≡ false
      → new_paste digest field result content ≡ accepted paste
      → scan_entry os digest is_hash disk (entry_of path created content) (scanned_kind field.kind)
        ≡ some (
            some (record paste {
              owner_principal_id = none;
              paste_type = scanned_kind field.kind;
              created_at = created;
            }))
  unfolding scan_entry scanned_paste new_paste
  named_as_recorded path paste dated low high fits clean named plain made =
      let clean_named = ap file_name clean in
      let split = split_expiry-decimal result.filename millis low high in
      elim (Option-cases field.owner) [
        | inl unknown ↦ absurd (ground arith)
        | inr (owner, owned) ↦ elim (Option-cases (i64_try_from field.now_seconds)) [
          | inl large ↦ absurd (ground arith)
          | inr (now, time) ↦ elim (Reply-cases (expiry_seconds (some millis))) [
            | inr (e, large) ↦ absurd (ground arith)
            | inl (expires_at, read) ↦ ground (arith, split, ap expiry_seconds dated, clean_named)
          ]
        ]
      ]

  -- the name that `store_file` gives a file with an expiry
  stored_name :
      (config : StorageConfig) (name : Text) (header_filename : Option Text) (before : Disk)
      → 1000000000 ≤ millis
      → millis ≤ u128_max
      → (store_file os config field.kind content name (some millis) header_filename before).0
        ≡ accepted result
      → has_no_slash result.filename ≡ true
      → file_name result.storage_path ≡ some (result.filename ++ b'.' ∷ decimal millis)
  unfolding decimal
  stored_name config name header_filename before low high stored slashless =
      let (path, chosen, placed) =
        store_file-IsPlaced os content result config field.kind name (some millis) header_filename
          before stored in
      let given = name_or_empty (file_name path) in
      let plain =
        dated_is_plain given (digits 38 millis) (ground arith) (all-digits 38 millis)
          (length-digits 9 38 millis (omega arith) (omega arith)) in
      ap file_name placed.0
      ∙ file_name-set_file_name path (given ++ b'.' ∷ digits 38 millis) plain
      ∙ ap (λ n. some (n ++ b'.' ∷ digits 38 millis)) (sym placed.1)

  -- A file that `store_file` has stored with an expiry, under a public filename without a slash, and
  -- which is no password sidecar, is scanned as the paste that the upload recorded, except that it has
  -- no owner, the file's time of creation, and the kind `file` in place of a remote file's.
  pub scanned_as_recorded :
      (config : StorageConfig) (name : Text) (header_filename : Option Text) (before : Disk)
      (path : PathBuf) (paste : NewPaste)
      → field.expiry_date ≡ some millis
      → 1000000000 ≤ millis
      → millis ≤ u128_max
      → (store_file os config field.kind content name (some millis) header_filename before).0
        ≡ accepted result
      → has_no_slash result.filename ≡ true
      → i64_try_from created ≡ some created
      → os.clean path ≡ result.storage_path
      → is_password_sidecar is_hash disk result.storage_path (scanned_kind field.kind) ≡ false
      → new_paste digest field result content ≡ accepted paste
      → scan_entry os digest is_hash disk (entry_of path created content) (scanned_kind field.kind)
        ≡ some (
            some (record paste {
              owner_principal_id = none;
              paste_type = scanned_kind field.kind;
              created_at = created;
            }))
  scanned_as_recorded config name header_filename before path paste dated low high stored slashless
        fits clean plain made =
      named_as_recorded path paste dated low high fits clean
        (stored_name config name header_filename before low high stored slashless) plain made
