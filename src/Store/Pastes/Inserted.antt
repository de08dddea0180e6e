-- ===== src/Store/Pastes/Inserted.antt =====
-- src/store.rs, `insert_paste` and `insert_paste_deduplicated`: what is inserted has a row.
use rustypaste.Prelude.{
  ℕ, ◌≡◌, Bool, true, ◌&&◌, none, some, List, [], ◌∷◌, ◌++◌, Text, text_eq, text_eq_refl, ==_refl,
  any, update_where, Option-cases, inl, inr, arith,
}
use rustypaste.Paste.Kind.{dedup_category}
use rustypaste.Store.Base.{Result-cases, ok, Clock, unix_now}
use rustypaste.Store.Schema.{Db, PasteRow, same_id}
use rustypaste.Store.Pastes.{
  NewPaste, PasteRecord, validate_new_paste, path_to_string, utf8, active_public_link_key,
}
use rustypaste.Store.Pastes.Insert.{
  inserted, paste_row, is_expired_link, cleared_row, clear_expired_public_link, after_insert,
  ensure_public_link_available, prepare_public_link, find_dedup_in_transaction, insert_paste_row,
  after_dedup_insert, dedup_transaction, insert_paste_deduplicated, insert_paste,
}

-- a row of an owner's paste at a storage path
abbrev pub is_paste_at : (owner : ℕ) (path : Text) → PasteRow → Bool
is_paste_at owner path r = same_id r.owner_principal_id (some owner) && text_eq r.storage_path path

any-last :
    (t : PasteRow → Bool) (rs : List PasteRow) (r : PasteRow)
    → t r ≡ true
    → any t (rs ++ r ∷ []) ≡ true
any-last t [] r h = ground arith
any-last t (x ∷ rs) r h = ground (arith, any-last t rs r)

module _ (paste : NewPaste) (owner : ℕ) (path : Text) (db : Db) where
  dedup_has_row :
      (now size_bytes : ℕ) (key : Text) (x : PasteRecord)
      → paste.owner_principal_id ≡ some owner
      → (dedup_transaction paste owner key path size_bytes now db).0 ≡ ok (ok (inserted x))
      → any
          (is_paste_at owner path)
          (dedup_transaction paste owner key path size_bytes now db).1.pastes.rows
        ≡ true
  unfolding dedup_transaction clear_expired_public_link find_dedup_in_transaction
      ensure_public_link_available insert_paste_row after_dedup_insert
  dedup_has_row now size_bytes key x owned h =
      let rows =
        update_where (is_expired_link paste.public_filename now) cleared_row db.pastes.rows in
      let new =
        paste_row db.pastes.next_id paste path size_bytes paste.created_at (some key)
          (some paste.public_filename) in
      ground (arith, any-last (is_paste_at owner path) rows new, text_eq_refl path, ==_refl owner)

  pub insert_paste_deduplicated-row :
      (clock : Clock) (x : PasteRecord)
      → paste.owner_principal_id ≡ some owner
      → paste.storage_path ≡ utf8 path
      → (insert_paste_deduplicated paste clock db).0 ≡ ok (inserted x)
      → any (is_paste_at owner path) (insert_paste_deduplicated paste clock db).1.pastes.rows ≡ true
  unfolding insert_paste_deduplicated path_to_string
  insert_paste_deduplicated-row clock x owned at h =
      elim (Result-cases (validate_new_paste paste)) [
        | inr (e, refused) ↦ absurd (ground arith)
        | inl (u, valid) ↦ elim (Result-cases (unix_now clock)) [
          | inr (e, refused) ↦ absurd (ground arith)
          | inl (now, time) ↦ elim (Option-cases (dedup_category paste.paste_type)) [
            | inl refused ↦ absurd (ground arith)
            | inr (category, kind) ↦ ground (
              arith,
              dedup_has_row now paste.size_bytes (category ++ (b':' ∷ paste.content_hash)) x owned,
            )
          ]
        ]
      ]

  pub insert_paste-row :
      (clock : Clock) (x : PasteRecord)
      → paste.owner_principal_id ≡ some owner
      → paste.storage_path ≡ utf8 path
      → (insert_paste paste clock db).0 ≡ ok x
      → any (is_paste_at owner path) (insert_paste paste clock db).1.pastes.rows ≡ true
  unfolding insert_paste path_to_string insert_paste_row after_insert prepare_public_link
      ensure_public_link_available clear_expired_public_link
  insert_paste-row clock x owned at h = elim (Result-cases (validate_new_paste paste)) [
    | inr (e, refused) ↦ absurd (ground arith)
    | inl (u, valid) ↦ elim (Result-cases (unix_now clock)) [
      | inr (e, refused) ↦ absurd (ground arith)
      | inl (now, time) ↦ elim (Option-cases (active_public_link_key paste now)) [
        | inl unlinked ↦
            let new =
              paste_row db.pastes.next_id paste path paste.size_bytes paste.created_at none none in
            ground (
              arith,
              any-last (is_paste_at owner path) db.pastes.rows new,
              text_eq_refl path,
              ==_refl owner,
            )
        | inr (key, linked) ↦
            let rows = update_where (is_expired_link key now) cleared_row db.pastes.rows in
            let new =
              paste_row db.pastes.next_id paste path paste.size_bytes paste.created_at none
                (some key) in
            ground
              (arith, any-last (is_paste_at owner path) rows new, text_eq_refl path, ==_refl owner)
      ]
    ]
  ]
