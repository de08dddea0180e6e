-- ===== src/Server/Protected.antt =====
-- src/server.rs, `serve`: a password is needed where there is one.
use rustypaste.Prelude.{
  ◌≡◌, true, some, List, Text, find_where, Option-cases, Bool-cases, inl, inr, arith,
}
use rustypaste.Store.Base.{Clock, ok}
use rustypaste.Store.Schema.{Db}
use rustypaste.Store.Pastes.{PasteRecord}
use rustypaste.Store.Pastes.Query.{find_pastes_by_public_filename}
use rustypaste.Auth.Request.{accepted, RequestAuth}
use rustypaste.Server.Password.{extract_protected_password}
use rustypaste.Server.Serve.{
  ServedFiles, ServeConfig, ServeRequest, Served, check_password, serve_found, serve,
}

module _ (files : ServedFiles) (config : ServeConfig) (auth : RequestAuth) (request : ServeRequest)
    (clock : Clock) (db : Db) (records : List PasteRecord) (x : PasteRecord)
    (response : Served) where
  -- The request gives a password that verifies.
  abbrev pub GivesPassword : Type 0
  GivesPassword =
      (password : Text) × (extract_protected_password request.decode request.headers auth
        ≡ some password)
      × (files.verify x.storage_path password ≡ some true)

  -- A paste with a password is served only for a request that gives a password that verifies: in its
  -- own header, or, unless the request is one by token, in its Authorization header.
  pub served_with_password :
      (find_pastes_by_public_filename request.file clock db).0 ≡ ok records
      → find_where (λ r. files.is_file r.storage_path) records ≡ some x
      → files.has_password x.storage_path ≡ true
      → (serve files config auth request clock db).0 ≡ accepted response
      → GivesPassword
  unfolding serve serve_found check_password
  served_with_password found first guarded served =
      elim (Bool-cases (files.is_inside x.storage_path)) [
        | inr outside ↦ absurd (ground arith)
        | inl inside ↦
            elim (Option-cases (extract_protected_password request.decode request.headers auth)) [
              | inl missing ↦ absurd (ground arith)
              | inr (password, given) ↦ elim (Option-cases (files.verify x.storage_path password)) [
                | inl failed ↦ absurd (ground arith)
                | inr (valid, checked) ↦ (password, given, ground arith)
              ]
            ]
      ]
