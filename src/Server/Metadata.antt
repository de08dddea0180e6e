-- ===== src/Server/Metadata.antt =====
-- src/server.rs: `persist_paste_metadata`, which records an upload once its file is written, and who
-- may delete a paste.
use rustypaste.Prelude.{
  ℕ, zero, suc, ◌≡◌, Bool, true, false, ◌||◌, ◌==◌, Option, none, some, if◌then◌else◌, Bool-cases,
  inl, inr, arith,
}
use rustypaste.Store.Base.{Clock, StoreError, public_filename_conflict, Result-cases, ok, err}
use rustypaste.Store.Schema.{Db, Tx}
use rustypaste.Store.Pastes.{OsPath, NewPaste, PasteRecord}
use rustypaste.Store.Pastes.Insert.{
  PasteInsert, inserted, duplicate, insert_paste, insert_paste_deduplicated,
}
use rustypaste.Store.Pastes.Query.{delete_paste}
use rustypaste.Auth.Request.{
  HttpError, internal, conflict, accepted, refused, Web, ◌>>=◌, answer, from_store, RequestAuth,
  principal_id,
}

abbrev pub same_owner : Option ℕ → Option ℕ → Bool
same_owner none none = true
same_owner (some a) (some b) = a == b
same_owner _ _ = false

unfoldable pub can_delete_record : RequestAuth → PasteRecord → Bool
can_delete_record auth paste =
    auth.global_delete || same_owner paste.owner_principal_id (principal_id auth)

unfoldable pub map_paste_store_error : StoreError → HttpError
map_paste_store_error (public_filename_conflict name) = conflict
map_paste_store_error _ = internal

-- `map_err(map_paste_store_error)?`
abbrev pub persist : {A : Type 0} → Tx A → Web A
persist m db = elim (m db).0 [
  | ok a ↦ (accepted a, (m db).1)
  | err e ↦ (refused (map_paste_store_error e), (m db).1)
]

-- Where a duplicate was found: it is answered if its file is there, and else its stale row is removed
-- and the next round is tried.
unfoldable pub after_insert :
    (is_file : OsPath → Bool) → Web (Option PasteRecord) → PasteInsert → Web (Option PasteRecord)
after_insert is_file again (inserted r) = answer (accepted none)
after_insert is_file again (duplicate existing) =
    if is_file existing.storage_path
    then answer (accepted (some existing))
    else (from_store (delete_paste existing.id) >>= λ removed. again)

-- One round of `for _ in 0..3`, and the rounds that follow.
unfoldable pub persist_round :
    (is_file : OsPath → Bool)
    → NewPaste
    → Clock
    → Web (Option PasteRecord)
    → Web (Option PasteRecord)
persist_round is_file paste clock again =
    persist (insert_paste_deduplicated paste clock) >>= λ result. after_insert is_file again result

unfoldable pub persist_rounds :
    (is_file : OsPath → Bool) → NewPaste → (clocks : ℕ → Clock) → ℕ → Web (Option PasteRecord)
persist_rounds is_file paste clocks zero = answer (refused internal)
persist_rounds is_file paste clocks (suc n) =
    persist_round is_file paste (clocks n) (persist_rounds is_file paste clocks n)

-- The clock is read anew in every round.
unfoldable pub persist_paste_metadata :
    (is_file : OsPath → Bool)
    → NewPaste
    → (deduplicate : Bool) → (clocks : ℕ → Clock) → Web (Option PasteRecord)
persist_paste_metadata is_file paste deduplicate clocks =
    if deduplicate
    then persist_rounds is_file paste clocks 3
    else (persist (insert_paste paste (clocks 0)) >>= λ stored. answer (accepted none))

module _ (is_file : OsPath → Bool) (paste : NewPaste) (clocks : ℕ → Clock)
    (existing : PasteRecord) where
  round_file :
      (clock : Clock) (again : Web (Option PasteRecord)) (db : Db)
      → ((db' : Db)
          → (again db').0 ≡ accepted (some existing)
          → is_file existing.storage_path ≡ true)
      → (persist_round is_file paste clock again db).0 ≡ accepted (some existing)
      → is_file existing.storage_path ≡ true
  unfolding persist_round after_insert
  round_file clock again db k h = elim (Result-cases (insert_paste_deduplicated paste clock db).0) [
    | inr (e, failed) ↦ absurd (ground arith)
    | inl (inserted r, done) ↦ absurd (ground arith)
    | inl (duplicate r, done) ↦ elim (Bool-cases (is_file r.storage_path)) [
      | inl there ↦ ground arith
      | inr stale ↦
          let db' = (insert_paste_deduplicated paste clock db).1 in
          elim (Result-cases (delete_paste r.id db').0) [
            | inr (e, failed) ↦ absurd (ground arith)
            | inl (o, removed) ↦ k (delete_paste r.id db').1 (ground arith)
          ]
    ]
  ]

  rounds_file :
      (n : ℕ) (db : Db)
      → (persist_rounds is_file paste clocks n db).0 ≡ accepted (some existing)
      → is_file existing.storage_path ≡ true
  unfolding persist_rounds
  rounds_file zero db h = absurd (ground arith)
  rounds_file (suc n) db h =
      round_file (clocks n) (persist_rounds is_file paste clocks n) db (rounds_file n) h

  -- An upload is answered with an existing paste only where that paste's file is there.
  answered_file_exists :
      (deduplicate : Bool) (db : Db)
      → (persist_paste_metadata is_file paste deduplicate clocks db).0 ≡ accepted (some existing)
      → is_file existing.storage_path ≡ true
  unfolding persist_paste_metadata
  answered_file_exists true db h = rounds_file 3 db h
  answered_file_exists false db h = absurd (ground arith)
