-- ===== src/Store/Pastes/Reconcile.antt =====
-- src/store.rs: `reconcile_pastes`, which brings the metadata in line with a scan of the files.
use rustypaste.Prelude.{
  ℕ, ◌+◌, Bool, none, List, [], ◌∷◌, map, Text, contains, text_eq, any, leb, delete_where,
  count_where, update_where, if◌then◌else◌,
}
use rustypaste.Paste.Kind.{paste_type_to_str}
use rustypaste.Store.Base.{
  Result, ok, err, database, unique_violation, foreign_key_violation, invalid_input, i64_max, Clock,
  unix_now,
}
use rustypaste.Store.Schema.{
  PasteRow, Tx, ◌>>=◌, ◌>>◌, pure, raise, lift, gets, modify, transaction,
}
use rustypaste.Store.Pastes.{NewPaste, validate_new_paste, path_to_string, change_pastes}
use rustypaste.Store.Pastes.Insert.{Inserted, row, unique, foreign_key, insert_paste_row, paste_row}

pub record ReconcileResult : Type 0 where
  pub inserted : ℕ
  pub removed : ℕ

unfoldable pub validate_all : List NewPaste → Result (Unit {0})
validate_all [] = ok tt
validate_all (p ∷ ps) = elim (validate_new_paste p) [ err e ↦ err e | ok _ ↦ validate_all ps ]

-- `incoming_paths`, as a list
unfoldable pub incoming_paths : List NewPaste → Result (List Text)
incoming_paths [] = ok []
incoming_paths (p ∷ ps) = elim (path_to_string p.storage_path) [
  | err e ↦ err e
  | ok path ↦ elim (incoming_paths ps) [ err e ↦ err e | ok paths ↦ ok (path ∷ paths) ]
]

abbrev pub has_path : Text → PasteRow → Bool
has_path path r = text_eq r.storage_path path

-- One round of the loop over `existing_paths`, and the rounds that follow.
unfoldable pub remove_path : (incoming : List Text) (path : Text) → Tx ℕ → Tx ℕ
remove_path incoming path others = if contains incoming path then others else do
  affected ← gets (λ db. count_where (has_path path) db.pastes.rows)
  modify (change_pastes (delete_where (has_path path)))
  removed ← others
  pure (affected + removed)

unfoldable pub remove_missing : (incoming existing : List Text) → Tx ℕ
unfolding remove_path
remove_missing incoming [] = pure 0
remove_missing incoming (path ∷ paths) = remove_path incoming path (remove_missing incoming paths)

-- the SET list of the UPDATE: the owner, the keys and the creation time stay
abbrev pub refresh : NewPaste → ℕ → PasteRow → PasteRow
refresh paste now r = record r {
  public_filename = paste.public_filename;
  paste_type = paste_type_to_str paste.paste_type;
  updated_at = now;
  size_bytes = paste.size_bytes;
  expires_at = paste.expires_at;
  content_hash = paste.content_hash;
}

abbrev pub entered : Inserted → Tx ℕ
entered (row r) = pure 1
entered unique = raise (database unique_violation)
entered foreign_key = raise (database foreign_key_violation)

-- INSERT ON CONFLICT(storage_path) DO NOTHING, and the UPDATE where nothing was inserted: the rows
-- inserted. The new row has no key of its own, so no other index can refuse it.
unfoldable pub record_entry : NewPaste → Text → ℕ → Tx ℕ
unfolding insert_paste_row
record_entry paste path now = do
  present ← gets (λ db. any (has_path path) db.pastes.rows)
  if present
      then (do modify (change_pastes (update_where (has_path path) (refresh paste now))); pure 0)
      else (do
        id ← gets (λ db. db.pastes.next_id)
        result ← insert_paste_row (paste_row id paste path paste.size_bytes now none none)
        entered result)

-- One round of the loop over `filesystem_pastes`, and the rounds that follow.
unfoldable pub record_paste : NewPaste → ℕ → Tx ℕ → Tx ℕ
unfolding record_entry
record_paste paste now others =
    if leb paste.size_bytes i64_max
    then (do
      path ← lift (path_to_string paste.storage_path)
      inserted ← record_entry paste path now
      rest ← others
      pure (inserted + rest))
    else raise (invalid_input "paste size is too large")

unfoldable pub record_entries : List NewPaste → ℕ → Tx ℕ
unfolding record_paste
record_entries [] now = pure 0
record_entries (paste ∷ pastes) now = record_paste paste now (record_entries pastes now)

unfoldable pub reconcile_pastes : List NewPaste → Clock → Tx ReconcileResult
unfolding validate_all incoming_paths remove_missing record_entries
reconcile_pastes filesystem_pastes clock = do
  lift (validate_all filesystem_pastes)
  incoming ← lift (incoming_paths filesystem_pastes)
  now ← lift (unix_now clock)
  transaction (do
    existing ← gets (λ db. map (λ r. r.storage_path) db.pastes.rows)
    removed ← remove_missing incoming existing
    inserted ← record_entries filesystem_pastes now
    pure (ok (record { inserted = inserted; removed = removed })))
