-- ===== src/Store/Pastes/Exclusive.antt =====
-- src/store.rs: the public link of an owned paste is its own, whatever calls insert pastes meanwhile.
use rustypaste.Prelude.{
  ℕ, ◌≡◌, ◌≢◌, Bool, true, false, none, some, List, [], ◌∷◌, ◌++◌, Text, text_eq_refl, any-append,
  update_where, Option-cases, inl, inr, arith, All,
}
use rustypaste.Paste.Kind.{dedup_category}
use rustypaste.Store.Base.{StoreError, Crypto, AuthStore, Result-cases, ok, err, Clock, unix_now}
use rustypaste.Store.Schema.{Db, Tx, ◌>>=◌, pure}
use rustypaste.Store.OauthFlows.{ReturnUrls}
use rustypaste.Store.Pastes.{
  NewPaste, PasteRecord, validate_new_paste, path_to_string, is_unexpired, active_public_link_key,
  public_link_is_active,
}
use rustypaste.Store.Pastes.Insert.{
  PasteInsert, inserted, paste_row, is_expired_link, cleared_row, clear_expired_public_link,
  ensure_public_link_available, prepare_public_link, insert_paste_row, after_insert, insert_paste,
  find_dedup_in_transaction, after_dedup_insert, dedup_transaction, insert_paste_deduplicated,
}
use rustypaste.Store.Pastes.Links.{held_link_refused, link_stays}
use rustypaste.Store.Calls.{Call, run_all, run_all_induction}
use rustypaste.Store.Pastes.Claimed.{claims, IsClaimed, claimed_is_active, OnlyAdds, run-IsClaimed}

-- the two ways in which an upload inserts a paste
abbrev pub insert_either : (deduplicate : Bool) → NewPaste → Clock → Tx PasteInsert
insert_either true paste clock = insert_paste_deduplicated paste clock
insert_either false paste clock = insert_paste paste clock >>= λ stored. pure (inserted stored)

module _ (paste : NewPaste) (name : Text) (now later : ℕ) (clock : Clock) (db : Db)
    (named : paste.public_filename ≡ name) (read : unix_now clock ≡ ok now)
    (fresh : is_unexpired later paste.expires_at ≡ true) where
  dedup_claims :
      (owner size_bytes : ℕ) (key path : Text) (x : PasteRecord)
      → (dedup_transaction paste owner key path size_bytes now db).0 ≡ ok (ok (inserted x))
      → IsClaimed name later (dedup_transaction paste owner key path size_bytes now db).1
  unfolding dedup_transaction clear_expired_public_link find_dedup_in_transaction
      ensure_public_link_available insert_paste_row after_dedup_insert
  dedup_claims owner size_bytes key path x h =
      let rows =
        update_where (is_expired_link paste.public_filename now) cleared_row db.pastes.rows in
      let new =
        paste_row db.pastes.next_id paste path size_bytes paste.created_at (some key)
          (some paste.public_filename) in
      ground (arith, any-append (claims name later) rows (new ∷ []), text_eq_refl name, named)

  insert_claims :
      (deduplicate : Bool) (x : PasteRecord)
      → active_public_link_key paste now ≡ some name
      → (insert_either deduplicate paste clock db).0 ≡ ok (inserted x)
      → IsClaimed name later (insert_either deduplicate paste clock db).1
  unfolding insert_paste_deduplicated insert_paste insert_paste_row after_insert prepare_public_link
      ensure_public_link_available clear_expired_public_link
  insert_claims true x linked h = elim (Result-cases (validate_new_paste paste)) [
    | inr (e, refused) ↦ absurd (ground arith)
    | inl (u, valid) ↦ elim (Result-cases (path_to_string paste.storage_path)) [
      | inr (e, refused) ↦ absurd (ground arith)
      | inl (path, utf) ↦ elim (Option-cases (dedup_category paste.paste_type)) [
        | inl refused ↦ absurd (ground arith)
        | inr (category, kind) ↦ elim (Option-cases paste.owner_principal_id) [
          | inl missing ↦ absurd (ground arith)
          | inr (owner, owned) ↦ ground (
            arith,
            dedup_claims owner paste.size_bytes (category ++ (b':' ∷ paste.content_hash)) path x,
          )
        ]
      ]
    ]
  ]
  insert_claims false x linked h = elim (Result-cases (validate_new_paste paste)) [
    | inr (e, refused) ↦ absurd (ground arith)
    | inl (u, valid) ↦ elim (Result-cases (path_to_string paste.storage_path)) [
      | inr (e, refused) ↦ absurd (ground arith)
      | inl (path, utf) ↦
          let rows = update_where (is_expired_link name now) cleared_row db.pastes.rows in
          let new =
            paste_row db.pastes.next_id paste path paste.size_bytes paste.created_at none
              (some name) in
          ground (arith, any-append (claims name later) rows (new ∷ []), text_eq_refl name, named)
    ]
  ]

link_is_filename :
    (paste : NewPaste) (now : ℕ) (name : Text)
    → active_public_link_key paste now ≡ some name
    → paste.public_filename ≡ name
unfolding active_public_link_key
link_is_filename paste now name h = ground arith

insert_paste_needs_valid :
    (paste : NewPaste) (clock : Clock) (db : Db) (e : StoreError)
    → validate_new_paste paste ≡ err e
    → (insert_paste paste clock db).0 ≡ err e
unfolding insert_paste
insert_paste_needs_valid paste clock db e h = ground arith

insert_paste_needs_path :
    (paste : NewPaste) (now : ℕ) (clock : Clock) (db : Db) (e : StoreError)
    → validate_new_paste paste ≡ ok tt
    → unix_now clock ≡ ok now
    → path_to_string paste.storage_path ≡ err e
    → (insert_paste paste clock db).0 ≡ err e
unfolding insert_paste
insert_paste_needs_path paste now clock db e valid read h = ground arith

module _ (paste : NewPaste) (name : Text) (later : ℕ) (clock : Clock) (db : Db)
    (named : paste.public_filename ≡ name) (read : unix_now clock ≡ ok later)
    (linked : active_public_link_key paste later ≡ some name) (held : IsClaimed name later db) where
  dedup_refuses :
      (owner size_bytes : ℕ) (key path : Text) (x : PasteRecord)
      → (dedup_transaction paste owner key path size_bytes later db).0 ≢ ok (ok (inserted x))
  unfolding dedup_transaction clear_expired_public_link find_dedup_in_transaction
      ensure_public_link_available public_link_is_active
  dedup_refuses owner size_bytes key path x h =
      ground
        (arith, named, link_stays name later db, claimed_is_active name later db.pastes.rows held)

  insert_refuses :
      (deduplicate : Bool) (x : PasteRecord)
      → (insert_either deduplicate paste clock db).0 ≢ ok (inserted x)
  unfolding insert_paste_deduplicated public_link_is_active
  insert_refuses true x h = elim (Result-cases (validate_new_paste paste)) [
    | inr (e, refused) ↦ absurd (ground arith)
    | inl (u, valid) ↦ elim (Result-cases (path_to_string paste.storage_path)) [
      | inr (e, refused) ↦ absurd (ground arith)
      | inl (path, utf) ↦ elim (Option-cases (dedup_category paste.paste_type)) [
        | inl refused ↦ absurd (ground arith)
        | inr (category, kind) ↦ elim (Option-cases paste.owner_principal_id) [
          | inl missing ↦ absurd (ground arith)
          | inr (owner, owned) ↦
              dedup_refuses owner paste.size_bytes (category ++ (b':' ∷ paste.content_hash)) path x
                (ground arith)
        ]
      ]
    ]
  ]
  insert_refuses false x h = elim (Result-cases (validate_new_paste paste)) [
    | inr (e, refused) ↦ absurd (ground (arith, insert_paste_needs_valid paste clock db e refused))
    | inl (tt, valid) ↦ elim (Result-cases (path_to_string paste.storage_path)) [
      | inr (e, refused) ↦
          absurd (ground (arith, insert_paste_needs_path paste later clock db e valid read refused))
      | inl (path, utf) ↦
          let refused =
            held_link_refused paste clock later path name db valid read utf linked
              (claimed_is_active name later db.pastes.rows held) in
          absurd (ground (arith, refused))
    ]
  ]

-- Once an owned paste was inserted, by either way, then after any calls that remove no paste and reconcile
-- none with a scan, no other owned paste with its public filename is inserted, by either way, at any
-- path and for any owner, while both are unexpired.
pub link_is_exclusive :
    (crypto : Crypto) (urls : ReturnUrls) (self : AuthStore) (paste paste' : NewPaste)
    (deduplicate deduplicate' : Bool) (name : Text) (clock clock' : Clock) (now later : ℕ)
    (calls : List Call) (db : Db) (x : PasteRecord)
    → unix_now clock ≡ ok now
    → unix_now clock' ≡ ok later
    → active_public_link_key paste now ≡ some name
    → is_unexpired later paste.expires_at ≡ true
    → (insert_either deduplicate paste clock db).0 ≡ ok (inserted x)
    → All OnlyAdds calls
    → active_public_link_key paste' later ≡ some name
    → (y : PasteRecord)
    → (insert_either deduplicate' paste' clock'
        (run_all crypto urls self calls (insert_either deduplicate paste clock db).1)).0
      ≢ ok (inserted y)
link_is_exclusive crypto urls self paste paste' deduplicate deduplicate' name clock clock' now later
      calls db x read read' linked fresh done adds linked' y =
    let after = (insert_either deduplicate paste clock db).1 in
    let claimed =
      insert_claims paste name now later clock db (link_is_filename paste now name linked) read
        fresh deduplicate x linked done in
    let still =
      run_all_induction crypto urls self (IsClaimed name later) OnlyAdds
        (run-IsClaimed crypto urls self name later) calls after adds claimed in
    insert_refuses paste' name later clock' (run_all crypto urls self calls after)
      (link_is_filename paste' later name linked') read' linked' still deduplicate' y
