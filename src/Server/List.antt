-- ===== src/Server/List.antt =====
-- src/server.rs, `list`: the pastes that are listed where OpenID Connect is configured.
use rustypaste.Prelude.{
  ℕ, ◌≡◌, refl, Bool, true, false, not, ◌&&◌, Option, none, some, List, [], ◌∷◌, Text, codes,
  text_eq, map, any, any-order_by, ◌∙◌, ◌⊎◌, keep_where, order_by, if◌then◌else◌, Option-cases,
  Bool-cases, inl, inr, arith,
}
use rustypaste.Paste.Kind.{PasteType, url, oneshot_url}
use rustypaste.Store.Base.{Clock, Result-cases, ok, unix_now}
use rustypaste.Store.Schema.{Db, PasteRow}
use rustypaste.Store.Pastes.{OsPath, PasteRecord, is_unexpired, paste_from_row}
use rustypaste.Store.Pastes.Query.{
  decode_all, is_owned, newest_first, list_owner_pastes, list_all_pastes,
}
use rustypaste.Auth.Request.{
  unauthorized, forbidden, not_found, bad_request, accepted, refused, Web, ◌>>=◌, answer,
  from_store, RequestAuth, principal_id, is_admin,
}
use rustypaste.AuthServer.Response.{or_refuse}
use rustypaste.Server.Metadata.{same_owner}

-- Dates are written by the crate `uts2ts`.
pub record ListItem : Type 0 where
  pub file_name : Text
  pub file_size : Option ℕ
  pub item_type : PasteType
  pub creation_date_utc : Text
  pub expires_at_utc : Option Text

abbrev listed_size : PasteType → ℕ → Option ℕ
listed_size url size = none
listed_size oneshot_url size = none
listed_size _ size = some size

abbrev listed_expiry : (ℕ → Text) → Option ℕ → Option Text
listed_expiry to_date none = none
listed_expiry to_date (some seconds) = some (to_date seconds)

unfoldable pub list_item_from_record : (to_date : ℕ → Text) → PasteRecord → ListItem
list_item_from_record to_date paste = record {
  file_name = paste.public_filename;
  file_size = listed_size paste.paste_type paste.size_bytes;
  item_type = paste.paste_type;
  creation_date_utc = to_date paste.created_at;
  expires_at_utc = listed_expiry to_date paste.expires_at;
}

abbrev is_own_scope : Option Text → Bool
is_own_scope none = true
is_own_scope (some scope) = text_eq scope (codes "own")

abbrev pub is_all_scope : Option Text → Bool
is_all_scope none = false
is_all_scope (some scope) = text_eq scope (codes "all")

-- the `match` on the scope
unfoldable pub listed_records : RequestAuth → (scope : Option Text) → Clock → Web (List PasteRecord)
listed_records auth scope clock =
    if is_own_scope scope
    then (or_refuse unauthorized (principal_id auth) >>= λ id.
        from_store (list_owner_pastes id clock))
    else if is_all_scope scope
    then (if is_admin auth then from_store (list_all_pastes clock) else answer (refused forbidden))
    else answer (refused bad_request)

unfoldable pub list :
    (is_file : OsPath → Bool)
    → (to_date : ℕ → Text) → (expose_list : Bool) → RequestAuth
    → (scope : Option Text) → Clock
    → Web (List ListItem)
list is_file to_date expose_list auth scope clock =
    if not expose_list
    then answer (refused not_found)
    else listed_records auth scope clock >>= λ records. answer (
        accepted
          (map (list_item_from_record to_date) (keep_where (λ r. is_file r.storage_path) records)))

-- a paste of another owner, or of none
abbrev pub is_others : ℕ → PasteRecord → Bool
is_others id paste = not (same_owner paste.owner_principal_id (some id))

-- a paste of an owner that has not expired
abbrev pub is_live_of : (id now : ℕ) → PasteRow → Bool
is_live_of id now r = same_owner r.owner_principal_id (some id) && is_unexpired now r.expires_at

-- The items are those of the records of which the file is there, and the records are those of the
-- rows of the database, newest first, that have the principal as their owner and have not expired.
abbrev pub ListsOwn :
    (OsPath → Bool) → (ℕ → Text) → RequestAuth → Clock → Db → List ListItem → Type 0
ListsOwn is_file to_date auth clock db items =
    (id : ℕ) × (now : ℕ) × (records : List PasteRecord) × (principal_id auth ≡ some id)
    × (unix_now clock ≡ ok now)
    × (decode_all (order_by newest_first (keep_where (is_live_of id now) db.pastes.rows))
        ≡ ok records)
    × (any (is_others id) records ≡ false)
    × (items
        ≡ map (list_item_from_record to_date) (keep_where (λ r. is_file r.storage_path) records))

kept_live :
    (id now : ℕ) (rs : List PasteRow)
    → keep_where (is_owned id now) rs ≡ keep_where (is_live_of id now) rs
kept_live id now [] = refl
kept_live id now (r ∷ rs) = elim (Option-cases r.owner_principal_id) [
  | inl missing ↦ ground (arith, kept_live id now rs)
  | inr (owner, owned) ↦ ground (arith, kept_live id now rs)
]

owner_rows :
    (id : ℕ) (clock : Clock) (db : Db) (records : List PasteRecord)
    → (list_owner_pastes id clock db).0 ≡ ok records
    → (now : ℕ) × (unix_now clock ≡ ok now)
      × (decode_all (order_by newest_first (keep_where (is_live_of id now) db.pastes.rows))
          ≡ ok records)
unfolding list_owner_pastes
owner_rows id clock db records h = elim (Result-cases (unix_now clock)) [
  | inr (e, failed) ↦ absurd (ground arith)
  | inl (now, read) ↦ (now, read, ground (arith, kept_live id now db.pastes.rows))
]

abbrev is_others_row : ℕ → PasteRow → Bool
is_others_row id r = not (same_owner r.owner_principal_id (some id))

kept_own :
    (id now : ℕ) (rs : List PasteRow)
    → any (is_others_row id) (keep_where (is_owned id now) rs) ≡ false
kept_own id now [] = refl
kept_own id now (r ∷ rs) = elim (Option-cases r.owner_principal_id) [
  | inl missing ↦ ground (arith, kept_own id now rs)
  | inr (owner, owned) ↦ ground (arith, kept_own id now rs)
]

decoded_own :
    (id : ℕ) (rs : List PasteRow) (records : List PasteRecord)
    → decode_all rs ≡ ok records
    → any (is_others_row id) rs ≡ false
    → any (is_others id) records ≡ false
unfolding decode_all paste_from_row
decoded_own id [] records d h = ground arith
decoded_own id (r ∷ rs) records d h = elim (Result-cases (decode_all rs)) [
  | inr (e, failed) ↦ absurd (ground arith)
  | inl (more, decoded) ↦ ground (arith, decoded_own id rs more decoded)
]

owner_records :
    (id : ℕ) (clock : Clock) (db : Db) (records : List PasteRecord)
    → (list_owner_pastes id clock db).0 ≡ ok records
    → any (is_others id) records ≡ false
unfolding list_owner_pastes
owner_records id clock db records h = elim (Result-cases (unix_now clock)) [
  | inr (e, failed) ↦ absurd (ground arith)
  | inl (now, read) ↦
      let rows = keep_where (is_owned id now) db.pastes.rows in
      decoded_own id (order_by newest_first rows) records (ground arith)
        (any-order_by (is_others_row id) newest_first rows ∙ kept_own id now db.pastes.rows)
]

module _ (is_file : OsPath → Bool) (to_date : ℕ → Text) (expose_list : Bool) (auth : RequestAuth)
    (scope : Option Text) (clock : Clock) (db : Db) where
  -- A listing that is accepted is exposed by the configuration, and is one of the scope `all` for an
  -- administrator, or lists exactly the pastes of the database that have the request's own principal as
  -- their owner, have not expired, and of which the files are there, newest first.
  pub listed_are_own :
      (items : List ListItem)
      → (list is_file to_date expose_list auth scope clock db).0 ≡ accepted items
      → (expose_list ≡ true)
        × (((is_all_scope scope && is_admin auth) ≡ true)
            ⊎ ListsOwn is_file to_date auth clock db items)
  unfolding list listed_records
  listed_are_own items h = elim (Bool-cases expose_list) [
    | inr hidden ↦ absurd (ground arith)
    | inl exposed ↦ elim (Bool-cases (is_own_scope scope)) [
      | inr other ↦ (exposed, inl (ground arith))
      | inl own ↦ elim (Option-cases (principal_id auth)) [
        | inl missing ↦ absurd (ground arith)
        | inr (id, known) ↦ elim (Result-cases (list_owner_pastes id clock db).0) [
          | inr (e, failed) ↦ absurd (ground arith)
          | inl (records, found) ↦
              let (now, read, rows) = owner_rows id clock db records found in
              (
                exposed,
                inr (
                  id,
                  now,
                  records,
                  known,
                  read,
                  rows,
                  owner_records id clock db records found,
                  ground arith,
                ),
              )
        ]
      ]
    ]
  ]
