-- ===== src/Server/Delete.antt =====
-- src/server.rs, `delete`: the removal of a paste where OpenID Connect is configured. What `is_file`,
-- the test on the upload directory and `fs::remove_file` answer is given.
use rustypaste.Prelude.{
  ℕ, ◌==◌, ==_refl, delete_where, Option-cases, Bool-cases, ◌≡◌, refl, sym, ◌∙◌, any_implies,
  any-order_by, Bool, true, false, ◌&&◌, Option, none, some, List, [], ◌∷◌, Text, text_eq, any,
  keep_where, order_by, find_where, if◌then◌else◌, inl, inr, arith,
}
use rustypaste.Store.Base.{Clock, Result-cases, ok, unix_now}
use rustypaste.Store.Schema.{Db, PasteRow}
use rustypaste.Store.Pastes.{OsPath, PasteRecord, paste_from_row}
use rustypaste.Store.Pastes.Query.{
  decode_all, by_type_then_id, has_filename, find_pastes_by_public_filename, delete_paste,
}
use rustypaste.Auth.Request.{
  internal, forbidden, not_found, accepted, refused, Web, ◌>>=◌, answer, from_store, RequestAuth,
  principal_id,
}
use rustypaste.Server.Metadata.{same_owner, can_delete_record}

-- The files that the handler asks for, and what removing one answers.
pub record Files : Type 0 where
  pub is_file : OsPath → Bool
  pub is_inside : OsPath → Bool
  pub can_remove : OsPath → Bool

-- What follows once the record whose file is there has been found.
unfoldable pub delete_found : Files → RequestAuth → Option PasteRecord → Web (Unit {0})
delete_found files auth none = answer (refused not_found)
delete_found files auth (some paste) =
    if can_delete_record auth paste
    then (if files.is_inside paste.storage_path
        then (if files.can_remove paste.storage_path
            then (from_store (delete_paste paste.id) >>= λ removed. answer (accepted tt))
            else answer (refused internal))
        else answer (refused internal))
    else answer (refused forbidden)

unfoldable pub delete : Files → RequestAuth → (file : Text) → Clock → Web (Unit {0})
delete files auth file clock = from_store (find_pastes_by_public_filename file clock) >>= λ records.
    delete_found files auth (find_where (λ r. files.is_file r.storage_path) records)

pub any_within :
    (q p : PasteRow → Bool) (rs : List PasteRow)
    → any q (keep_where p rs) ≡ true
    → any (λ r. q r && p r) rs ≡ true
any_within q p [] h = absurd cc
any_within q p (r ∷ rs) h = ground (arith, any_within q p rs)

same_owner_refl : (o : Option ℕ) → same_owner o o ≡ true
same_owner_refl none = refl
same_owner_refl (some id) = ==_refl id

-- the row that a record is read from
abbrev pub is_row_of : PasteRecord → PasteRow → Bool
is_row_of x r = r.id == x.id && same_owner r.owner_principal_id x.owner_principal_id

decoded_row :
    (t : PasteRecord → Bool) (rs : List PasteRow) (records : List PasteRecord) (x : PasteRecord)
    → decode_all rs ≡ ok records
    → find_where t records ≡ some x
    → any (is_row_of x) rs ≡ true
unfolding decode_all paste_from_row
decoded_row t [] records x d f = absurd (ground arith)
decoded_row t (r ∷ rs) records x d f = elim (Result-cases (decode_all rs)) [
  | inr (e, failed) ↦ absurd (ground arith)
  | inl (more, decoded) ↦
      ground
        (arith, decoded_row t rs more x decoded, ==_refl r.id, same_owner_refl r.owner_principal_id)
]

-- the rows without a paste's
abbrev pub without_paste : ℕ → List PasteRow → List PasteRow
without_paste id rs = delete_where (λ r. r.id == id) rs

found_where :
    (t : PasteRecord → Bool) (records : List PasteRecord) (x : PasteRecord)
    → find_where t records ≡ some x
    → t x ≡ true
found_where t [] x h = absurd (ground arith)
found_where t (r ∷ records) x h = elim (Bool-cases (t r)) [
  | inl hit ↦ ground arith
  | inr other ↦ found_where t records x (ground arith)
]

read_only :
    (name : Text) (clock : Clock) (db : Db) → (find_pastes_by_public_filename name clock db).1 ≡ db
unfolding find_pastes_by_public_filename
read_only name clock db = ground arith

module _ (files : Files) (auth : RequestAuth) (file : Text) (clock : Clock) (db : Db) where
  -- The paste of a row of that filename, which the identity owns, and of which the file is there, is
  -- inside the upload directory and can be removed, is what the rows that are left lack.
  abbrev pub DeletesOwn : Db → Type 0
  DeletesOwn db' =
      (x : PasteRecord) × (same_owner x.owner_principal_id (principal_id auth) ≡ true)
      × (any (λ r. is_row_of x r && text_eq r.public_filename file) db.pastes.rows ≡ true)
      × ((files.is_file x.storage_path
            && files.is_inside x.storage_path
            && files.can_remove x.storage_path)
          ≡ true)
      × (db'.pastes.rows ≡ without_paste x.id db.pastes.rows)

  may_delete :
      (t : PasteRecord → Bool) (records : List PasteRecord) (db' : Db)
      → auth.global_delete ≡ false
      → (delete_found files auth (find_where t records) db').0 ≡ accepted tt
      → (x : PasteRecord) × (find_where t records ≡ some x)
        × (same_owner x.owner_principal_id (principal_id auth) ≡ true)
        × ((files.is_inside x.storage_path && files.can_remove x.storage_path) ≡ true)
        × ((delete_found files auth (find_where t records) db').1.pastes.rows
            ≡ without_paste x.id db'.pastes.rows)
  unfolding delete_found can_delete_record delete_paste
  may_delete t records db' g h = elim (Option-cases (find_where t records)) [
    | inl missing ↦ absurd (ground arith)
    | inr (x, found) ↦ (x, found, ground arith, ground arith, ground arith)
  ]

  row_is_named :
      (records : List PasteRecord) (x : PasteRecord)
      → (find_pastes_by_public_filename file clock db).0 ≡ ok records
      → find_where (λ r. files.is_file r.storage_path) records ≡ some x
      → any (λ r. is_row_of x r && text_eq r.public_filename file) db.pastes.rows ≡ true
  unfolding find_pastes_by_public_filename
  row_is_named records x found first = elim (Result-cases (unix_now clock)) [
    | inr (e, failed) ↦ absurd (ground arith)
    | inl (now, read) ↦
        let rows = keep_where (has_filename file now) db.pastes.rows in
        let decoded : decode_all (order_by by_type_then_id rows) ≡ ok records = ground arith in
        let here =
          decoded_row (λ r. files.is_file r.storage_path) (order_by by_type_then_id rows) records x
            decoded first in
        any_implies (λ r. is_row_of x r && has_filename file now r)
          (λ r. is_row_of x r && text_eq r.public_filename file) db.pastes.rows
          (λ r k. ground arith)
          (any_within (is_row_of x) (has_filename file now) db.pastes.rows
            (sym (any-order_by (is_row_of x) by_type_then_id rows) ∙ here))
  ]

  -- A deletion that is accepted, by an identity that may not delete all pastes, takes from the pastes of
  -- the database exactly the rows with the id of one paste: that one has a row with the public filename
  -- of the request and with the identity's principal as its owner, or with no owner where the identity
  -- has no principal, and its file is there, inside the upload directory, and can be removed.
  pub deletion_is_owners :
      auth.global_delete ≡ false
      → (delete files auth file clock db).0 ≡ accepted tt
      → DeletesOwn (delete files auth file clock db).1
  unfolding delete find_pastes_by_public_filename
  deletion_is_owners g h = elim (Result-cases (find_pastes_by_public_filename file clock db).0) [
    | inr (e, failed) ↦ absurd (ground arith)
    | inl (records, found) ↦
        let t = λ (r : PasteRecord). files.is_file r.storage_path in
        let (x, picked, own, inside, left) =
          may_delete t records (find_pastes_by_public_filename file clock db).1 g (ground arith) in
        (
          x,
          own,
          row_is_named records x found picked,
          ground (arith, found_where t records x picked),
          ground (arith, left, read_only file clock db),
        )
  ]
