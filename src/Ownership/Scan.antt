-- ===== src/Ownership/Scan.antt =====
-- src/ownership.rs: `scan_entry` and `scan_pastes`, over what the operating system answers for the
-- directories. The scan has no owners.
use rustypaste.Prelude.{
  ℕ, Bool, false, ◌&&◌, ◌||◌, not, Option, none, some, List, [], ◌∷◌, ◌+◌, Text, codes, text_eq,
  is_empty, if◌then◌else◌,
}
use rustypaste.Store.Base.{i64_try_from}
use rustypaste.Store.Pastes.{utf8, NewPaste}
use rustypaste.Paste.Kind.{PasteType, file, oneshot, url, oneshot_url, protected_file, is_protected}
use rustypaste.Paste.Path.{PathBuf, file_name, rsplit_dot, set_extension, to_text}
use rustypaste.Paste.Storage.{Disk, read, is_file, Os, get_path}
use rustypaste.Ownership.Expiry.{split_expiry}

-- `created` is in seconds, and `none` before the epoch.
pub record FileMetadata : Type 0 where
  pub is_regular : Bool
  pub created : Option ℕ
  pub len : ℕ

pub record DirEntry : Type 0 where
  pub path : PathBuf
  pub metadata : Option FileMetadata
  pub content : Option (List ℕ)

-- What a directory holds: `none` where it is not there, and `some none` where it cannot be listed. An
-- entry that cannot be read is `none`.
abbrev pub Directories : Type 0
Directories = PathBuf → Option (Option (List (Option DirEntry)))

pub record PasteScan : Type 0 where
  pub pastes : List NewPaste
  pub skipped_entries : ℕ

abbrev pub extension_of : PathBuf → Option Text
extension_of path = elim (file_name path) [
  | none ↦ none
  | some name ↦ elim (rsplit_dot name) [
    | none ↦ none
    | some (stem, ext) ↦ if is_empty stem then none else some ext
  ]
]

-- `is_hash` is whether Argon2 takes a text for a hash.
unfoldable pub is_password_sidecar : (is_hash : List ℕ → Bool) → Disk → PathBuf → PasteType → Bool
is_password_sidecar is_hash disk path kind =
    is_protected kind
    && (elim (extension_of path) [ none ↦ false | some ext ↦ text_eq ext (codes "password") ])
    && is_file disk (set_extension path [])
    && (elim (read disk path) [ none ↦ false | some entry ↦ is_hash entry.1 ])

-- the metadata of a file, once it is no sidecar; `none` is an error
unfoldable pub scanned_paste :
    (digest : List ℕ → Text)
    → DirEntry
    → FileMetadata
    → (path : PathBuf) → PasteType
    → Option NewPaste
scanned_paste digest entry metadata path kind = elim (file_name path) [
  | none ↦ none
  | some stored_filename ↦ elim (split_expiry stored_filename) [
    | none ↦ none
    | some (public_filename, expires_at) ↦ elim metadata.created [
      | none ↦ none
      | some seconds ↦ elim (i64_try_from seconds) [
        | none ↦ none
        | some created_at ↦ elim entry.content [
          | none ↦ none
          | some content ↦ some (record {
            owner_principal_id = none;
            public_filename = public_filename;
            storage_path = utf8 (to_text path);
            paste_type = kind;
            created_at = created_at;
            size_bytes = metadata.len;
            expires_at = expires_at;
            content_hash = digest content;
          })
        ]
      ]
    ]
  ]
]

-- The outer `none` is an error, the inner one an entry that is no paste.
unfoldable pub scan_entry :
    Os
    → (digest : List ℕ → Text) (is_hash : List ℕ → Bool) → Disk
    → DirEntry
    → PasteType
    → Option (Option NewPaste)
scan_entry os digest is_hash disk entry kind = elim entry.metadata [
  | none ↦ none
  | some metadata ↦
      if not metadata.is_regular || is_password_sidecar is_hash disk (os.clean entry.path) kind
      then some none
      else elim (scanned_paste digest entry metadata (os.clean entry.path) kind) [
        | none ↦ none
        | some paste ↦ some (some paste)
      ]
]

abbrev skipped : PasteScan → PasteScan
skipped scan = record scan { skipped_entries = scan.skipped_entries + 1 }

abbrev found : NewPaste → PasteScan → PasteScan
found paste scan = record scan { pastes = paste ∷ scan.pastes }

-- the entries of one directory, and the scan that follows
unfoldable pub scan_directory :
    Os
    → (digest : List ℕ → Text) (is_hash : List ℕ → Bool) → Disk
    → PasteType
    → List (Option DirEntry)
    → PasteScan
    → PasteScan
scan_directory os digest is_hash disk kind [] rest = rest
scan_directory os digest is_hash disk kind (none ∷ entries) rest =
    skipped (scan_directory os digest is_hash disk kind entries rest)
scan_directory os digest is_hash disk kind (some entry ∷ entries) rest =
    let more = scan_directory os digest is_hash disk kind entries rest in
    elim (scan_entry os digest is_hash disk entry kind) [
      | none ↦ skipped more
      | some none ↦ more
      | some (some paste) ↦ found paste more
    ]

unfoldable pub scan_kinds :
    Os
    → (digest : List ℕ → Text) (is_hash : List ℕ → Bool) → Directories
    → Disk
    → (upload_path : PathBuf) → List PasteType
    → Option PasteScan
scan_kinds os digest is_hash directories disk upload_path [] =
    some (record { pastes = []; skipped_entries = 0 })
scan_kinds os digest is_hash directories disk upload_path (kind ∷ kinds) =
    let rest = scan_kinds os digest is_hash directories disk upload_path kinds in
    elim (get_path os kind upload_path) [
      | none ↦ none
      | some directory ↦ elim rest [
        | none ↦ none
        | some more ↦ elim (directories directory) [
          | none ↦ some more
          | some none ↦ none
          | some (some entries) ↦ some (scan_directory os digest is_hash disk kind entries more)
        ]
      ]
    ]

unfoldable pub scan_pastes :
    Os
    → (digest : List ℕ → Text) (is_hash : List ℕ → Bool) → Directories
    → Disk
    → (upload_path : PathBuf) → Option PasteScan
scan_pastes os digest is_hash directories disk upload_path =
    scan_kinds os digest is_hash directories disk upload_path
      (file ∷ oneshot ∷ url ∷ oneshot_url ∷ protected_file ∷ [])
