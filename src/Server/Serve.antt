-- ===== src/Server/Serve.antt =====
-- src/server.rs, `serve`: a paste is served where OpenID Connect is configured. What the files and their
-- passwords answer is given.
use rustypaste.Prelude.{Bool, Option, none, some, List, Text, find_where, if◌then◌else◌}
use rustypaste.Store.Base.{Clock}
use rustypaste.Paste.Kind.{
  PasteType, file, remote_file, oneshot, url, oneshot_url, protected_file, is_oneshot,
}
use rustypaste.Store.Pastes.{OsPath, PasteRecord}
use rustypaste.Store.Pastes.Query.{find_pastes_by_public_filename, delete_paste_by_storage_path}
use rustypaste.Auth.Request.{
  internal, not_found, accepted, refused, Web, ◌>>=◌, answer, from_store, RequestAuth,
}
use rustypaste.Server.Mime.{Mime, MimeMatcher, served_type}
use rustypaste.Server.Password.{PasswordHeaders, extract_protected_password}

-- The files as a request finds them. `verify` is `verify_file_password`, `none` where the sidecar
-- cannot be read; `read` is the text of a file.
pub record ServedFiles : Type 0 where
  pub is_file : OsPath → Bool
  pub is_inside : OsPath → Bool
  pub has_password : OsPath → Bool
  pub verify : OsPath → Text → Option Bool
  pub can_open : OsPath → Bool
  pub read : OsPath → Option Text
  pub can_rename : OsPath → Bool

pub record ServeConfig : Type 0 where
  pub mime_override : List MimeMatcher
  pub text_mime_overrides : List Text
  pub hardening : Bool

pub data Served : Type 0 where
  named_file : OsPath → Mime → (hardened : Bool) → Served
  redirect : (location : Text) → Served

pub record ServeRequest : Type 0 where
  pub file : Text
  pub download : Bool
  pub headers : PasswordHeaders
  pub decode : Text → Option Text
  pub of_extension : Mime

-- the password check
unfoldable pub check_password : ServedFiles → RequestAuth → ServeRequest → OsPath → Web (Unit {0})
check_password files auth request path =
    if files.has_password path
    then elim (extract_protected_password request.decode request.headers auth) [
      | none ↦ answer (refused not_found)
      | some password ↦ elim (files.verify path password) [
        | none ↦ answer (refused internal)
        | some valid ↦ if valid then answer (accepted tt) else answer (refused not_found)
      ]
    ]
    else answer (accepted tt)

-- The file of a paste that is served once is renamed, and its metadata deleted.
unfoldable pub consume : ServedFiles → OsPath → Served → Web Served
consume files path response =
    if files.can_rename path
    then (from_store (delete_paste_by_storage_path path) >>= λ deleted. answer (accepted response))
    else answer (refused internal)

unfoldable pub serve_file :
    ServedFiles → ServeConfig → ServeRequest → OsPath → PasteType → Web Served
serve_file files config request path paste_type =
    elim (served_type config.mime_override config.text_mime_overrides request.download
      request.of_extension request.file) [
        | none ↦ answer (refused internal)
        | some mime_type ↦
            if files.can_open path
            then (if is_oneshot paste_type
                then consume files path (named_file path mime_type config.hardening)
                else answer (accepted (named_file path mime_type config.hardening)))
            else answer (refused internal)
      ]

abbrev read_location : Option Text → (Text → Web Served) → Web Served
read_location none f = answer (refused internal)
read_location (some location) f = f location

unfoldable pub serve_content :
    ServedFiles → ServeConfig → ServeRequest → OsPath → PasteType → Web Served
serve_content files config request path file = serve_file files config request path file
serve_content files config request path remote_file =
    serve_file files config request path remote_file
serve_content files config request path oneshot = serve_file files config request path oneshot
serve_content files config request path protected_file =
    serve_file files config request path protected_file
serve_content files config request path url =
    read_location (files.read path) λ location. answer (accepted (redirect location))
serve_content files config request path oneshot_url =
    read_location (files.read path) λ location. consume files path (redirect location)

-- What follows once the record whose file is there has been found.
unfoldable pub serve_found :
    ServedFiles → ServeConfig → RequestAuth → ServeRequest → Option PasteRecord → Web Served
serve_found files config auth request none = answer (refused not_found)
serve_found files config auth request (some paste) =
    if files.is_inside paste.storage_path
    then (check_password files auth request paste.storage_path >>= λ u.
        serve_content files config request paste.storage_path paste.paste_type)
    else answer (refused internal)

unfoldable pub serve : ServedFiles → ServeConfig → RequestAuth → ServeRequest → Clock → Web Served
serve files config auth request clock =
    from_store (find_pastes_by_public_filename request.file clock) >>= λ records.
    serve_found files config auth request (find_where (λ r. files.is_file r.storage_path) records)
