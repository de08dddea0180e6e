-- ===== src/Store/Pastes/Dedup.antt =====
-- src/store.rs, `insert_paste_deduplicated`: an owner's second upload of the same content is
-- answered with the first.
use rustypaste.Prelude.{
  ℕ, ◌≡◌, refl, Bool, true, Option, none, some, List, [], ◌∷◌, ◌++◌, Text, text_eq_refl, ==_refl,
  find_where, update_where, inl, inr, arith,
}
use mathlib.Core.Path.{subst}
use rustypaste.Paste.Kind.{dedup_category}
use rustypaste.Store.Base.{Result-cases, ok, Clock, unix_now}
use rustypaste.Store.Schema.{Db, PasteRow}
use rustypaste.Store.Pastes.{
  NewPaste, PasteRecord, validate_new_paste, path_to_string, paste_from_row, optional_paste,
}
use rustypaste.Store.Pastes.Insert.{
  PasteInsert, inserted, duplicate, paste_row, is_expired_link, is_dedup, clear_expired_public_link,
  ensure_public_link_available, find_dedup_in_transaction, insert_paste_row, after_dedup_insert,
  dedup_transaction, insert_paste_deduplicated,
}

-- the paste that an upload was answered with
abbrev pub paste_of : PasteInsert → PasteRecord
paste_of (inserted r) = r
paste_of (duplicate r) = r

-- The owner has the paste `r` under a key.
abbrev HasDedup : ℕ → Text → PasteRecord → Db → Type 0
HasDedup owner key r db =
    optional_paste (find_where (is_dedup owner key) db.pastes.rows) ≡ ok (some r)

find_cleared :
    (owner now : ℕ) (key link_key : Text) (rs : List PasteRow)
    → optional_paste (
        find_where
          (is_dedup owner key)
          (update_where (is_expired_link link_key now) (λ r. record r { link_key = none }) rs))
      ≡ optional_paste (find_where (is_dedup owner key) rs)
unfolding paste_from_row
find_cleared owner now key link_key [] = refl
find_cleared owner now key link_key (r ∷ rs) =
    ground (arith, find_cleared owner now key link_key rs)

find_added :
    (p : PasteRow → Bool) (rs : List PasteRow) (r : PasteRow)
    → find_where p rs ≡ none
    → p r ≡ true
    → find_where p (rs ++ r ∷ []) ≡ some r
find_added p [] r e h = ground arith
find_added p (x ∷ rs) r e h = ground (arith, find_added p rs r)

not_found : (o : Option PasteRow) → optional_paste o ≡ ok none → o ≡ none
unfolding paste_from_row
not_found o e = ground arith

module _ (owner now size_bytes : ℕ) (key path : Text) (paste : NewPaste) (db : Db) where
  answered :
      (r : PasteRecord)
      → HasDedup owner key r db
      → (dedup_transaction paste owner key path size_bytes now db).0 ≡ ok (ok (duplicate r))
  unfolding dedup_transaction clear_expired_public_link find_dedup_in_transaction
  answered r h = ground (arith, find_cleared owner now key paste.public_filename db.pastes.rows)

  recorded :
      (x : PasteInsert)
      → paste.owner_principal_id ≡ some owner
      → (dedup_transaction paste owner key path size_bytes now db).0 ≡ ok (ok x)
      → HasDedup owner key (paste_of x) (dedup_transaction paste owner key path size_bytes now db).1
  unfolding dedup_transaction clear_expired_public_link find_dedup_in_transaction
      ensure_public_link_available insert_paste_row after_dedup_insert
  recorded x owned h =
      let rows =
        update_where (is_expired_link paste.public_filename now) (λ r. record r { link_key = none })
          db.pastes.rows in
      let new =
        paste_row db.pastes.next_id paste path size_bytes paste.created_at (some key)
          (some paste.public_filename) in
      ground (
        arith,
        not_found (find_where (is_dedup owner key) rows),
        find_added (is_dedup owner key) rows new,
        text_eq_refl key,
        ==_refl owner,
      )

-- the key of `insert_paste_deduplicated`
abbrev key_of : (category : Text) → NewPaste → Text
key_of category paste = category ++ (b':' ∷ paste.content_hash)

upload_recorded :
    (paste : NewPaste) (clock : Clock) (now owner : ℕ) (category : Text) (x : PasteInsert) (db : Db)
    → unix_now clock ≡ ok now
    → paste.owner_principal_id ≡ some owner
    → dedup_category paste.paste_type ≡ some category
    → (insert_paste_deduplicated paste clock db).0 ≡ ok x
    → HasDedup owner
        (key_of category paste)
        (paste_of x)
        (insert_paste_deduplicated paste clock db).1
unfolding insert_paste_deduplicated
upload_recorded paste clock now owner category x db read owned kind h =
    elim (Result-cases (validate_new_paste paste)) [
      | inr (e, refused) ↦ absurd (ground arith)
      | inl (u, valid) ↦ elim (Result-cases (path_to_string paste.storage_path)) [
        | inr (e, refused) ↦ absurd (ground arith)
        | inl (path, utf) ↦ ground (
          arith,
          recorded owner now paste.size_bytes (key_of category paste) path paste db x owned,
        )
      ]
    ]

upload_answered :
    (paste : NewPaste) (clock : Clock) (now owner : ℕ) (category path : Text) (r : PasteRecord)
    (db : Db)
    → unix_now clock ≡ ok now
    → paste.owner_principal_id ≡ some owner
    → paste.expires_at ≡ none
    → dedup_category paste.paste_type ≡ some category
    → validate_new_paste paste ≡ ok tt
    → path_to_string paste.storage_path ≡ ok path
    → HasDedup owner (key_of category paste) r db
    → (insert_paste_deduplicated paste clock db).0 ≡ ok (duplicate r)
unfolding insert_paste_deduplicated validate_new_paste
upload_answered paste clock now owner category path r db read owned persistent kind valid utf h =
    ground (arith, answered owner now paste.size_bytes (key_of category paste) path paste db r h)

-- After a deduplicated upload that answers, a valid upload without expiry that has the same owner,
-- category and content hash answers a duplicate, with the metadata that the first was answered with.
pub duplicate_suppressed :
    (paste paste' : NewPaste) (clock clock' : Clock) (now later owner : ℕ) (category path : Text)
    (x : PasteInsert) (db : Db)
    → unix_now clock ≡ ok now
    → unix_now clock' ≡ ok later
    → paste.owner_principal_id ≡ some owner
    → paste'.owner_principal_id ≡ some owner
    → dedup_category paste.paste_type ≡ some category
    → dedup_category paste'.paste_type ≡ some category
    → paste.content_hash ≡ paste'.content_hash
    → paste'.expires_at ≡ none
    → validate_new_paste paste' ≡ ok tt
    → path_to_string paste'.storage_path ≡ ok path
    → (insert_paste_deduplicated paste clock db).0 ≡ ok x
    → (insert_paste_deduplicated paste' clock' (insert_paste_deduplicated paste clock db).1).0
      ≡ ok (duplicate (paste_of x))
duplicate_suppressed paste paste' clock clock' now later owner category path x db read read' owned
      owned' kind kind' same persistent valid utf done =
    let db' = (insert_paste_deduplicated paste clock db).1 in
    let first = upload_recorded paste clock now owner category x db read owned kind done in
    upload_answered paste' clock' later owner category path (paste_of x) db' read' owned' persistent
      kind' valid utf
      (subst (λ hash. HasDedup owner (category ++ (b':' ∷ hash)) (paste_of x) db') same first)
