-- ===== src/Store/Pastes/Query.antt =====
-- src/store.rs: reading and deleting paste metadata.
use rustypaste.Prelude.{
  ℕ, Bool, ◌&&◌, ◌||◌, Option, none, some, List, [], ◌∷◌, Text, text_eq, codes, ◌==◌, ltb,
  keep_where, delete_where, find_where, order_by, if◌then◌else◌,
}
use rustypaste.Store.Base.{Result, ok, err, Clock, unix_now}
use rustypaste.Store.Schema.{PasteRow, same_id, Tx, ◌>>=◌, ◌>>◌, lift, gets, modify}
use rustypaste.Store.Pastes.{
  OsPath, PasteRecord, paste_from_row, optional_paste, path_to_string, is_unexpired, change_pastes,
}

-- `rows.iter().map(paste_from_row).collect()`
unfoldable pub decode_all : List PasteRow → Result (List PasteRecord)
decode_all [] = ok []
decode_all (r ∷ rs) = elim (paste_from_row r) [
  | err e ↦ err e
  | ok paste ↦ elim (decode_all rs) [ err e ↦ err e | ok pastes ↦ ok (paste ∷ pastes) ]
]

unfoldable pub get_paste : ℕ → Tx (Option PasteRecord)
get_paste id = do
  found ← gets (λ db. find_where (λ r. r.id == id) db.pastes.rows)
  lift (optional_paste found)

unfoldable pub find_paste_by_storage_path : OsPath → Tx (Option PasteRecord)
find_paste_by_storage_path path = do
  storage_path ← lift (path_to_string path)
  found ← gets (λ db. find_where (λ r. text_eq r.storage_path storage_path) db.pastes.rows)
  lift (optional_paste found)

-- CASE paste_type WHEN 'file' THEN 0 …
unfoldable pub type_rank : Text → ℕ
type_rank paste_type =
    if text_eq paste_type (codes "file")
    then 0
    else if text_eq paste_type (codes "remote_file")
    then 1
    else if text_eq paste_type (codes "url")
    then 2
    else if text_eq paste_type (codes "oneshot")
    then 3
    else if text_eq paste_type (codes "oneshot_url")
    then 4
    else 5

abbrev pub by_type_then_id : PasteRow → PasteRow → Bool
by_type_then_id a b =
    ltb (type_rank a.paste_type) (type_rank b.paste_type)
    || (type_rank a.paste_type == type_rank b.paste_type && ltb a.id b.id)

-- ORDER BY created_at DESC, id DESC
abbrev pub newest_first : PasteRow → PasteRow → Bool
newest_first a b = ltb b.created_at a.created_at || (a.created_at == b.created_at && ltb b.id a.id)

abbrev pub has_filename : Text → ℕ → PasteRow → Bool
has_filename filename now r = text_eq r.public_filename filename && is_unexpired now r.expires_at

unfoldable pub find_pastes_by_public_filename : Text → Clock → Tx (List PasteRecord)
unfolding decode_all
find_pastes_by_public_filename filename clock = do
  now ← lift (unix_now clock)
  rows ←
      gets (λ db. order_by by_type_then_id (keep_where (has_filename filename now) db.pastes.rows))
  lift (decode_all rows)

abbrev first : List PasteRow → Option PasteRow
first [] = none
first (r ∷ rs) = some r

-- ORDER BY created_at DESC LIMIT 1; among equal times the first in the table
unfoldable pub find_owner_duplicate : ℕ → Text → Clock → Tx (Option PasteRecord)
find_owner_duplicate owner content_hash clock = do
  now ← lift (unix_now clock)
  found ← gets (λ db. first (
      order_by (λ a b. ltb b.created_at a.created_at || a.created_at == b.created_at)
        (keep_where
          (λ r.
            same_id r.owner_principal_id (some owner)
            && text_eq r.content_hash content_hash
            && is_unexpired now r.expires_at)
          db.pastes.rows)))
  lift (optional_paste found)

abbrev pub is_owned : ℕ → ℕ → PasteRow → Bool
is_owned owner now r = same_id r.owner_principal_id (some owner) && is_unexpired now r.expires_at

unfoldable pub list_owner_pastes : ℕ → Clock → Tx (List PasteRecord)
unfolding decode_all
list_owner_pastes owner clock = do
  now ← lift (unix_now clock)
  rows ← gets (λ db. order_by newest_first (keep_where (is_owned owner now) db.pastes.rows))
  lift (decode_all rows)

unfoldable pub list_all_pastes : Clock → Tx (List PasteRecord)
unfolding decode_all
list_all_pastes clock = do
  now ← lift (unix_now clock)
  rows ←
      gets (λ db.
        order_by newest_first (keep_where (λ r. is_unexpired now r.expires_at) db.pastes.rows))
  lift (decode_all rows)

unfoldable pub delete_paste : ℕ → Tx (Option PasteRecord)
delete_paste id = do
  found ← gets (λ db. find_where (λ r. r.id == id) db.pastes.rows)
  modify (change_pastes (delete_where (λ r. r.id == id)))
  lift (optional_paste found)

unfoldable pub delete_paste_by_storage_path : OsPath → Tx (Option PasteRecord)
delete_paste_by_storage_path path = do
  storage_path ← lift (path_to_string path)
  found ← gets (λ db. find_where (λ r. text_eq r.storage_path storage_path) db.pastes.rows)
  modify (change_pastes (delete_where (λ r. text_eq r.storage_path storage_path)))
  lift (optional_paste found)
