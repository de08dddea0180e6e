-- ===== src/Server/Once.antt =====
-- src/server.rs, `serve`: a paste that is served once is found no more.
use rustypaste.Prelude.{
  ◌≡◌, ◌≢◌, refl, sym, ◌∙◌, Bool, true, false, ◌&&◌, some, List, [], ◌∷◌, Text, text_eq,
  text_eq_refl, any, any-order_by, any_implies, find_where, keep_where, delete_where, order_by,
  Option-cases, Bool-cases, inl, inr, arith,
}
use rustypaste.Store.Base.{Clock, Result-cases, ok, unix_now}
use rustypaste.Store.Schema.{Db, PasteRow}
use rustypaste.Paste.Kind.{PasteType, oneshot, oneshot_url, is_oneshot}
use rustypaste.Store.Pastes.{OsPath, utf8, PasteRecord, paste_from_row, path_to_string}
use rustypaste.Store.Pastes.Query.{
  decode_all, by_type_then_id, has_filename, find_pastes_by_public_filename,
  delete_paste_by_storage_path,
}
use rustypaste.Auth.Request.{Reply-cases, accepted, RequestAuth}
use rustypaste.Server.Delete.{any_within}
use rustypaste.Server.Mime.{served_type}
use rustypaste.Server.Password.{extract_protected_password}
use rustypaste.Server.Serve.{
  ServedFiles, ServeConfig, ServeRequest, Served, named_file, redirect, check_password, consume,
  serve_file, serve_content, serve_found, serve,
}

abbrev pub is_served_once : PasteType → Bool
is_served_once oneshot = true
is_served_once oneshot_url = true
is_served_once _ = false

abbrev at_path : Text → PasteRow → Bool
at_path path r = text_eq r.storage_path path

-- no row of the database has the storage path
abbrev IsGone : OsPath → Db → Type 0
IsGone path db = (s : Text) × (path ≡ utf8 s) × (any (at_path s) db.pastes.rows ≡ false)

row_path :
    (r : PasteRow) (y : PasteRecord)
    → paste_from_row r ≡ ok y
    → y.storage_path ≡ utf8 r.storage_path
unfolding paste_from_row
row_path r y h = ground arith

decoded_path :
    (t : PasteRecord → Bool) (rs : List PasteRow) (records : List PasteRecord) (x : PasteRecord)
    → decode_all rs ≡ ok records
    → find_where t records ≡ some x
    → (s : Text) × (x.storage_path ≡ utf8 s) × (any (at_path s) rs ≡ true)
unfolding decode_all
decoded_path t [] records x d f = absurd (ground arith)
decoded_path t (r ∷ rs) records x d f = elim (Result-cases (paste_from_row r)) [
  | inr (e, failed) ↦ absurd (ground arith)
  | inl (y, head) ↦ elim (Result-cases (decode_all rs)) [
    | inr (e, failed) ↦ absurd (ground arith)
    | inl (more, decoded) ↦ elim (Bool-cases (t y)) [
      | inl first ↦ (
        r.storage_path,
        ground (arith, row_path r y head),
        ground (arith, text_eq_refl r.storage_path),
      )
      | inr later ↦
          let (s, same, here) = decoded_path t rs more x decoded (ground arith) in
          (s, same, ground (arith, here))
    ]
  ]
]

delete_all : (s : Text) (rs : List PasteRow) → any (at_path s) (delete_where (at_path s) rs) ≡ false
delete_all s [] = refl
delete_all s (r ∷ rs) = ground (arith, delete_all s rs)

module _ (files : ServedFiles) (config : ServeConfig) (request : ServeRequest) (s : Text)
    (response : Served) where
  consume_deletes :
      (answered : Served) (db : Db)
      → (consume files (utf8 s) answered db).0 ≡ accepted response
      → any (at_path s) (consume files (utf8 s) answered db).1.pastes.rows ≡ false
  unfolding consume delete_paste_by_storage_path path_to_string
  consume_deletes answered db h = elim (Bool-cases (files.can_rename (utf8 s))) [
    | inr failed ↦ absurd (ground arith)
    | inl renamed ↦ ground (arith, delete_all s db.pastes.rows)
  ]

  serve_file_deletes :
      (paste_type : PasteType) (db : Db)
      → is_oneshot paste_type ≡ true
      → (serve_file files config request (utf8 s) paste_type db).0 ≡ accepted response
      → any (at_path s) (serve_file files config request (utf8 s) paste_type db).1.pastes.rows
        ≡ false
  unfolding serve_file
  serve_file_deletes paste_type db once h =
      let mime =
        served_type config.mime_override config.text_mime_overrides request.download
          request.of_extension request.file in
      elim (Option-cases mime) [
        | inl failed ↦ absurd (ground arith)
        | inr (m, found) ↦ elim (Bool-cases (files.can_open (utf8 s))) [
          | inr failed ↦ absurd (ground arith)
          | inl opened ↦ ground (arith, consume_deletes (named_file (utf8 s) m config.hardening) db)
        ]
      ]

  serve_content_deletes :
      (paste_type : PasteType) (db : Db)
      → is_served_once paste_type ≡ true
      → (serve_content files config request (utf8 s) paste_type db).0 ≡ accepted response
      → any (at_path s) (serve_content files config request (utf8 s) paste_type db).1.pastes.rows
        ≡ false
  unfolding serve_content is_oneshot
  serve_content_deletes oneshot db once h = serve_file_deletes oneshot db (ground arith) h
  serve_content_deletes oneshot_url db once h = elim (Option-cases (files.read (utf8 s))) [
    | inl failed ↦ absurd (ground arith)
    | inr (location, found) ↦ ground (arith, consume_deletes (redirect location) db)
  ]
  serve_content_deletes _ db once h = absurd (ground arith)

module _ (files : ServedFiles) (config : ServeConfig) (auth : RequestAuth)
    (request : ServeRequest) where
  check_password_reads :
      (path : OsPath) (db : Db) → (check_password files auth request path db).1 ≡ db
  unfolding check_password
  check_password_reads path db = elim (Bool-cases (files.has_password path)) [
    | inr free ↦ ground arith
    | inl guarded ↦
        elim (Option-cases (extract_protected_password request.decode request.headers auth)) [
          | inl missing ↦ ground arith
          | inr (password, given) ↦ elim (Option-cases (files.verify path password)) [
            | inl failed ↦ ground arith
            | inr (valid, checked) ↦ ground arith
          ]
        ]
  ]

  found_deletes :
      (x : PasteRecord) (s : Text) (db : Db) (response : Served)
      → x.storage_path ≡ utf8 s
      → is_served_once x.paste_type ≡ true
      → (serve_found files config auth request (some x) db).0 ≡ accepted response
      → any (at_path s) (serve_found files config auth request (some x) db).1.pastes.rows ≡ false
  unfolding serve_found
  found_deletes x s db response at once h =
      let kind = x.paste_type in
      elim (Bool-cases (files.is_inside x.storage_path)) [
        | inr outside ↦ absurd (ground arith)
        | inl inside ↦ elim (Reply-cases (check_password files auth request x.storage_path db).0) [
          | inr (e, failed) ↦ absurd (ground arith)
          | inl (u, passed) ↦ ground (
            arith,
            serve_content_deletes files config request s response kind db once,
            check_password_reads x.storage_path db,
          )
        ]
      ]

-- what a reading of the database finds has a row
found_row :
    (name : Text) (clock : Clock) (db : Db) (records : List PasteRecord) (t : PasteRecord → Bool)
    (x : PasteRecord)
    → (find_pastes_by_public_filename name clock db).0 ≡ ok records
    → find_where t records ≡ some x
    → (s : Text) × (x.storage_path ≡ utf8 s) × (any (at_path s) db.pastes.rows ≡ true)
unfolding find_pastes_by_public_filename
found_row name clock db records t x found first = elim (Result-cases (unix_now clock)) [
  | inr (e, failed) ↦ absurd (ground arith)
  | inl (now, read) ↦
      let rows = keep_where (has_filename name now) db.pastes.rows in
      let (s, at, here) =
        decoded_path t (order_by by_type_then_id rows) records x (ground arith) first in
      (
        s,
        at,
        any_implies (λ r. at_path s r && has_filename name now r) (at_path s) db.pastes.rows
            (λ r k. ground arith)
            (any_within (at_path s) (has_filename name now) db.pastes.rows
              (sym (any-order_by (at_path s) by_type_then_id rows) ∙ here)),
      )
]

find_reads :
    (name : Text) (clock : Clock) (db : Db) → (find_pastes_by_public_filename name clock db).1 ≡ db
unfolding find_pastes_by_public_filename
find_reads name clock db = ground arith

module _ (files : ServedFiles) (config : ServeConfig) (auth : RequestAuth) (request : ServeRequest)
    (clock : Clock) (db : Db) (records : List PasteRecord) (x : PasteRecord)
    (response : Served) where
  -- Where a paste that is served once, a file or a URL, has been served, no lookup in the database that
  -- is left, for any name and at any time, finds a paste at its storage path.
  pub served_once :
      (name : Text) (clock' : Clock) (later : List PasteRecord) (t : PasteRecord → Bool)
      (y : PasteRecord)
      → (find_pastes_by_public_filename request.file clock db).0 ≡ ok records
      → find_where (λ r. files.is_file r.storage_path) records ≡ some x
      → is_served_once x.paste_type ≡ true
      → (serve files config auth request clock db).0 ≡ accepted response
      → (find_pastes_by_public_filename name clock' (serve files config auth request clock db).1).0
        ≡ ok later
      → find_where t later ≡ some y
      → y.storage_path ≢ x.storage_path
  unfolding serve
  served_once name clock' later t y found first once served found' first' =
      let after = (serve files config auth request clock db).1 in
      let (s, at, here) = found_row request.file clock db records _ x found first in
      let (s', at', here') = found_row name clock' after later t y found' first' in
      let gone =
        found_deletes files config auth request x s
          (find_pastes_by_public_filename request.file clock db).1 response at once
          (ground arith) in
      λ same. ground (arith, here', gone, at, at', same)
