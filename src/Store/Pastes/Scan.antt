-- ===== src/Store/Pastes/Scan.antt =====
-- src/store.rs, `reconcile_pastes`: after it, the paths of the rows are those of the scan.
use rustypaste.Prelude.{
  ℕ, ◌≡◌, refl, Bool, true, false, not, ◌&&◌, none, List, [], ◌∷◌, ◌++◌, map, Text, contains, All,
  text_eq, text_eq_refl, text_eq_iff, text_eq_comm, any, any_weaken, delete_where, update_where,
  Bool-cases, inl, inr, arith,
}
use rustypaste.Store.Base.{ok}
use rustypaste.Store.Schema.{Db, Tx, PasteRow, paste_clash}
use rustypaste.Store.Keeps.{
  Keeps, Keeps-pure, Keeps-raise, Keeps-if, Keeps-bind, Keeps-bind-lift, keeps_rules,
}
use rustypaste.Store.Pastes.{NewPaste, path_to_string, change_pastes}
use rustypaste.Store.Pastes.Insert.{
  owner_is_known, insert_paste_row, paste_row, Inserted, row, unique, foreign_key,
}
use rustypaste.Store.Pastes.Reconcile.{
  has_path, remove_path, remove_missing, refresh, entered, record_entry, record_paste,
  record_entries,
}

abbrev pub paths_of : Db → List PasteRow
paths_of db = db.pastes.rows

-- a row that is in neither of two lists of paths
abbrev pub is_stray : (incoming existing : List Text) → PasteRow → Bool
is_stray incoming existing r =
    not (contains incoming r.storage_path) && not (contains existing r.storage_path)

pub none_stray :
    (incoming : List Text) (rs all : List PasteRow)
    → ((r : PasteRow)
        → any (has_path r.storage_path) rs ≡ true
        → contains (map (λ x. x.storage_path) all) r.storage_path ≡ true)
    → any (is_stray incoming (map (λ x. x.storage_path) all)) rs ≡ false
none_stray incoming [] all k = refl
none_stray incoming (r ∷ rs) all k = ground (
  arith,
  k r,
  text_eq_refl r.storage_path,
  none_stray incoming rs all (λ x h. k x (ground arith)),
)

pub contains_path :
    (rs : List PasteRow) (path : Text)
    → any (has_path path) rs ≡ true
    → contains (map (λ x. x.storage_path) rs) path ≡ true
contains_path [] path h = h
contains_path (r ∷ rs) path h = ground (arith, contains_path rs path)

stray_step :
    (incoming paths : List Text) (path : Text) (r : PasteRow)
    → contains incoming path ≡ true
    → is_stray incoming paths r ≡ true
    → is_stray incoming (path ∷ paths) r ≡ true
stray_step incoming paths path r known h = elim (Bool-cases (text_eq path r.storage_path)) [
  | inl same ↦ ground (arith, text_eq_iff path r.storage_path)
  | inr other ↦ ground arith
]

delete_stray :
    (incoming paths : List Text) (path : Text) (rs : List PasteRow)
    → any (is_stray incoming (path ∷ paths)) rs ≡ false
    → any (is_stray incoming paths) (delete_where (has_path path) rs) ≡ false
delete_stray incoming paths path [] h = refl
delete_stray incoming paths path (r ∷ rs) h =
    ground (arith, delete_stray incoming paths path rs, text_eq_comm path r.storage_path)

pub remove_missing-stray :
    (incoming existing : List Text) (db : Db)
    → any (is_stray incoming existing) (paths_of db) ≡ false
    → any (is_stray incoming []) (paths_of (remove_missing incoming existing db).1) ≡ false
unfolding remove_missing remove_path
remove_missing-stray incoming [] db h = h
remove_missing-stray incoming (path ∷ paths) db h = elim (Bool-cases (contains incoming path)) [
  | inl known ↦ ground (
    arith,
    remove_missing-stray incoming paths db (
        any_weaken (is_stray incoming paths) (is_stray incoming (path ∷ paths)) (paths_of db)
          (λ r k. stray_step incoming paths path r known k) h),
  )
  | inr missing ↦ ground (
    arith,
    remove_missing-stray incoming paths (change_pastes (delete_where (has_path path)) db)
        (delete_stray incoming paths path (paths_of db) h),
  )
]

-- The path of a paste of the scan is one of some paths.
abbrev pub IsKnown : List Text → NewPaste → Type 0
IsKnown incoming paste =
    (path : Text) → path_to_string paste.storage_path ≡ ok path → contains incoming path ≡ true

-- What the entries of the scan do to a property of the rows: it is kept where an update of a row by
-- an entry keeps it, and where adding the row of an entry does.
module _ (incoming : List Text) (now : ℕ) (Q : List PasteRow → Type 0)
    (refreshes : (paste : NewPaste) (path : Text) (rs : List PasteRow)
      → Q rs
      → Q (update_where (has_path path) (refresh paste now) rs))
    (adds : (r : PasteRow) (rs : List PasteRow)
      → contains incoming r.storage_path ≡ true
      → Q rs
      → Q (rs ++ r ∷ [])) where
  insert_paste_row-On :
      (r : PasteRow)
      → contains incoming r.storage_path ≡ true
      → Keeps (λ db. Q (paths_of db)) (insert_paste_row r)
  unfolding insert_paste_row
  insert_paste_row-On r known = record {
    at = λ db h. elim (Bool-cases (any (paste_clash r) (paths_of db))) [
      | inl old ↦ rw old h
      | inr new ↦ elim (Bool-cases (owner_is_known r.owner_principal_id db)) [
        | inl owned ↦ rw (new, owned) (adds r (paths_of db) known h)
        | inr stranger ↦ rw (new, stranger) h
      ]
    ];
  }

  entered-On : (i : Inserted) → Keeps (λ db. Q (paths_of db)) (entered i)
  entered-On (row r) = search keeps_rules
  entered-On unique = search keeps_rules
  entered-On foreign_key = search keeps_rules

  record_entry-On :
      (paste : NewPaste) (path : Text)
      → contains incoming path ≡ true
      → Keeps (λ db. Q (paths_of db)) (record_entry paste path now)
  unfolding record_entry
  record_entry-On paste path known =
      let insert = λ (id : ℕ).
        insert_paste_row-On (paste_row id paste path paste.size_bytes now none none) known in
      let update = λ (db : Db) (h : Q (paths_of db)). refreshes paste path (paths_of db) h in
      search (keeps_rules, insert, update, entered-On) depth 12

  record_paste-On :
      (paste : NewPaste) (others : Tx ℕ)
      → IsKnown incoming paste
      → Keeps (λ db. Q (paths_of db)) others
      → Keeps (λ db. Q (paths_of db)) (record_paste paste now others)
  unfolding record_paste
  record_paste-On paste others known rest =
      Keeps-if _ _ _
        (Keeps-bind-lift (path_to_string paste.storage_path) _ λ path e.
          Keeps-bind _ _ (record_entry-On paste path (known path e))
            λ inserted. Keeps-bind _ _ rest λ more. Keeps-pure _)
        (Keeps-raise _)

  pub record_entries-On :
      (pastes : List NewPaste)
      → All (IsKnown incoming) pastes
      → Keeps (λ db. Q (paths_of db)) (record_entries pastes now)
  unfolding record_entries
  record_entries-On [] known = Keeps-pure _
  record_entries-On (paste ∷ pastes) (known, more) =
      record_paste-On paste (record_entries pastes now) known (record_entries-On pastes more)
