-- ===== src/Paste/Remote.antt =====
-- src/paste.rs, `store_remote_file`, where OpenID Connect is configured: a file that is fetched is not
-- compared with those of the disk.
use rustypaste.Prelude.{
  ◌≡◌, ◌⊎◌, Option-cases, inl, inr, arith, ℕ, Option, none, some, List, Text, codes, is_empty,
  if◌then◌else◌,
}
use rustypaste.Auth.Request.{bad_request, Reply, accepted, refused}
use rustypaste.Paste.Kind.{PasteType}
use rustypaste.Paste.Storage.{Disk, Os, StorageConfig, UploadResult}
use rustypaste.Paste.Write.{store_file}
use rustypaste.Util.Remote.{RemoteUrl, Resolver, validate_remote_url, IsPublic, valid_url-IsPublic}

-- The content as `Url::parse` reads it, the last segment of its path, and what the client gets for it,
-- up to the configured length.
pub record RemoteFile : Type 0 where
  pub url : Option RemoteUrl
  pub last_segment : Option Text
  pub fetched : Reply (List ℕ)

unfoldable pub remote_name : Option Text → Text
remote_name none = codes "file"
remote_name (some name) = if is_empty name then codes "file" else name

unfoldable pub store_remote_file :
    Os
    → StorageConfig
    → Resolver
    → RemoteFile
    → PasteType
    → (expiry_date : Option ℕ) → (header_filename : Option Text) → Disk
    → Reply UploadResult × Disk
store_remote_file os config resolve remote kind expiry_date header_filename disk = elim remote.url [
  | none ↦ (refused bad_request, disk)
  | some url ↦ elim (validate_remote_url resolve url) [
    | none ↦ (refused bad_request, disk)
    | some valid ↦ elim remote.fetched [
      | refused e ↦ (refused e, disk)
      | accepted content ↦
          store_file os config kind content (remote_name remote.last_segment) expiry_date
            header_filename disk
    ]
  ]
]

-- Nothing is fetched for a URL that is not public: an upload of a remote file is refused as a bad
-- request, with the disk as it was and whatever would be fetched, unless its content is a URL of the
-- web, with a host other than localhost, that resolves to at least one address and to no address that
-- is disallowed.
pub remote_file-IsPublic :
    (os : Os) (config : StorageConfig) (resolve : Resolver) (remote : RemoteFile) (kind : PasteType)
    (expiry_date : Option ℕ) (header_filename : Option Text) (disk : Disk)
    → ((url : RemoteUrl) × (remote.url ≡ some url) × IsPublic resolve url)
      ⊎ (store_remote_file os config resolve remote kind expiry_date header_filename disk
          ≡ (refused bad_request, disk))
unfolding store_remote_file
remote_file-IsPublic os config resolve remote kind expiry_date header_filename disk =
    elim (Option-cases remote.url) [
      | inl missing ↦ inr (ground arith)
      | inr (url, given) ↦ elim (Option-cases (validate_remote_url resolve url)) [
        | inl invalid ↦ inr (ground arith)
        | inr (u, valid) ↦ inl (url, given, valid_url-IsPublic resolve url (ground arith))
      ]
    ]
