-- ===== src/Store/Pastes/Scanned.antt =====
-- src/store.rs: the outcome of `reconcile_pastes`.
use rustypaste.Prelude.{
  ℕ, ◌≡◌, ◌≢◌, Bool, true, false, not, none, List, [], ◌∷◌, map, Text, contains, All, text_eq_refl,
  any, any-append, any-update_where, any_weaken, any_updated_true, any_present, inl, inr, arith,
}
use mathlib.Core.Path.{subst, sym}
use rustypaste.Store.Base.{StoreError, Result-cases, ok, err, Clock, unix_now}
use rustypaste.Store.Schema.{Db, Tx, PasteRow}
use rustypaste.Store.Keeps.{Keeps}
use rustypaste.Store.Pastes.{NewPaste, path_to_string}
use rustypaste.Store.Pastes.Insert.{insert_paste_row, paste_row}
use rustypaste.Store.Pastes.Reconcile.{
  ReconcileResult, validate_all, incoming_paths, has_path, remove_missing, refresh, record_entry,
  record_paste, record_entries, reconcile_pastes,
}
use rustypaste.Store.Pastes.Scan.{
  paths_of, is_stray, none_stray, contains_path, remove_missing-stray, IsKnown, record_entries-On,
}

module _ (p : Text) (rest : List Text) where
  contains_more : (q : Text) → contains rest q ≡ true → contains (p ∷ rest) q ≡ true
  contains_more q h = ground arith

IsKnown-more :
    (p : Text) (rest : List Text) (pastes : List NewPaste)
    → All (IsKnown rest) pastes
    → All (IsKnown (p ∷ rest)) pastes
IsKnown-more p rest [] h = tt
IsKnown-more p rest (x ∷ pastes) (k, ks) =
    ((λ path e. contains_more p rest path (k path e)), IsKnown-more p rest pastes ks)

pub incoming-IsKnown :
    (pastes : List NewPaste) (paths : List Text)
    → incoming_paths pastes ≡ ok paths
    → All (IsKnown paths) pastes
unfolding incoming_paths
incoming-IsKnown [] paths e = tt
incoming-IsKnown (x ∷ pastes) paths e = elim (Result-cases (path_to_string x.storage_path)) [
  | inr (f, bad) ↦ absurd (ground arith)
  | inl (path, utf) ↦ elim (Result-cases (incoming_paths pastes)) [
    | inr (f, bad) ↦ absurd (ground arith)
    | inl (rest, more) ↦
        let same : (path ∷ rest) ≡ paths = ground arith in
        subst (λ ps. All (IsKnown ps) (x ∷ pastes)) same
          (
            (λ path' e'. ground (arith, text_eq_refl path)),
            IsKnown-more path rest pastes (incoming-IsKnown pastes rest more),
          )
  ]
]

entry_present :
    (paste : NewPaste) (path : Text) (now n : ℕ) (db : Db)
    → (record_entry paste path now db).0 ≡ ok n
    → any (has_path path) (paths_of (record_entry paste path now db).1) ≡ true
unfolding record_entry insert_paste_row
entry_present paste path now n db h =
    let new = paste_row db.pastes.next_id paste path paste.size_bytes now none none in
    ground (
      arith,
      text_eq_refl path,
      any-append (has_path path) (paths_of db) (new ∷ []),
      any_present (has_path path) (has_path path) (refresh paste now) (paths_of db) (λ r k. k),
    )

-- The path of a paste is among those of some rows.
abbrev IsPresent : List PasteRow → NewPaste → Type 0
IsPresent rs paste =
    (path : Text) → path_to_string paste.storage_path ≡ ok path → any (has_path path) rs ≡ true

-- Every entry that follows keeps a row that `p` holds of, where an update does.
pub survives :
    (incoming : List Text) (now : ℕ) (p : PasteRow → Bool) (pastes : List NewPaste)
    → ((paste : NewPaste) (r : PasteRow) → p r ≡ true → p (refresh paste now r) ≡ true)
    → All (IsKnown incoming) pastes
    → Keeps (λ db. any p (paths_of db) ≡ true) (record_entries pastes now)
survives incoming now p pastes k known =
    record_entries-On incoming now (λ rs. any p rs ≡ true)
      (λ paste path rs h. any_updated_true p (has_path path) (refresh paste now) rs (k paste) h)
      (λ r rs q h. ground (arith, any-append p rs (r ∷ []))) pastes known

record_paste-present :
    (paste : NewPaste) (now n : ℕ) (others : Tx ℕ) (path : Text) (db : Db)
    → path_to_string paste.storage_path ≡ ok path
    → Keeps (λ db. any (has_path path) (paths_of db) ≡ true) others
    → (record_paste paste now others db).0 ≡ ok n
    → (any (has_path path) (paths_of (record_paste paste now others db).1) ≡ true)
      × ((m : ℕ) × (others (record_entry paste path now db).1).0 ≡ ok m
          × (record_paste paste now others db).1 ≡ (others (record_entry paste path now db).1).1)
unfolding record_paste
record_paste-present paste now n others path db utf keep h =
    elim (Result-cases (record_entry paste path now db).0) [
      | inr (e, failed) ↦ absurd (ground arith)
      | inl (i, done) ↦
          let first = entry_present paste path now i db done in
          let second = keep.at (record_entry paste path now db).1 first in
          elim (Result-cases (others (record_entry paste path now db).1).0) [
            | inr (e, failed) ↦ absurd (ground arith)
            | inl (m, more) ↦ (ground (arith, second), (m, more, ground arith))
          ]
    ]

refuse_path :
    (paste : NewPaste) (now n : ℕ) (others : Tx ℕ) (e : StoreError) (db : Db)
    → path_to_string paste.storage_path ≡ err e
    → (record_paste paste now others db).0 ≢ ok n
unfolding record_paste
refuse_path paste now n others e db bad = ground arith

entries-IsPresent :
    (incoming : List Text) (pastes : List NewPaste) (now n : ℕ) (db : Db)
    → All (IsKnown incoming) pastes
    → (record_entries pastes now db).0 ≡ ok n
    → All (IsPresent (paths_of (record_entries pastes now db).1)) pastes
unfolding record_entries
entries-IsPresent incoming [] now n db known h = tt
entries-IsPresent incoming (paste ∷ pastes) now n db (known, more) h =
    elim (Result-cases (path_to_string paste.storage_path)) [
      | inr (e, bad) ↦ absurd (refuse_path paste now n (record_entries pastes now) e db bad h)
      | inl (path, utf) ↦
          let others = record_entries pastes now in
          let stays = λ (q : Text). survives incoming now (has_path q) pastes (λ x r k. k) more in
          let (present, (m, rest, same)) =
            record_paste-present paste now n others path db utf (stays path) h in
          (
            (λ path' utf'.
                (record_paste-present paste now n others path' db utf' (stays path') h).0),
            subst (λ d. All (IsPresent (paths_of d)) pastes) (sym same)
                (entries-IsPresent incoming pastes now m (record_entry paste path now db).1 more
                  rest),
          )
    ]

module _ (pastes : List NewPaste) (now : ℕ) (incoming : List Text)
    (known : All (IsKnown incoming) pastes) (db : Db) where
  removed_db : Db
  removed_db = (remove_missing incoming (map (λ r. r.storage_path) db.pastes.rows) db).1

  -- The rows of a reconciled database are those of the scan.
  no_stray : any (is_stray incoming []) (paths_of (record_entries pastes now removed_db).1) ≡ false
  unfolding removed_db
  no_stray =
      (record_entries-On incoming now (λ rs. any (is_stray incoming []) rs ≡ false)
          (λ paste path rs h.
            any-update_where (is_stray incoming []) (has_path path) (refresh paste now) rs
              (λ r k. k) h)
          (λ r rs q h. ground (arith, any-append (is_stray incoming []) rs (r ∷ []))) pastes
          known).at
        removed_db
        (remove_missing-stray incoming (map (λ r. r.storage_path) db.pastes.rows) db (
          none_stray incoming (paths_of db) (paths_of db)
            (λ r. contains_path (paths_of db) r.storage_path)))

pub reconciled :
    (pastes : List NewPaste) (clock : Clock) (incoming : List Text) (result : ReconcileResult)
    (db : Db)
    → incoming_paths pastes ≡ ok incoming
    → (reconcile_pastes pastes clock db).0 ≡ ok result
    → (now n : ℕ) × ((record_entries pastes now
          (remove_missing incoming (map (λ r. r.storage_path) db.pastes.rows) db).1).0
        ≡ ok n)
      × ((reconcile_pastes pastes clock db).1
          ≡ (record_entries pastes now
              (remove_missing incoming (map (λ r. r.storage_path) db.pastes.rows) db).1).1)
unfolding reconcile_pastes
reconciled pastes clock incoming result db paths h = elim (Result-cases (unix_now clock)) [
  | inr (e, failed) ↦ absurd (ground arith)
  | inl (now, read) ↦
      let removal = remove_missing incoming (map (λ r. r.storage_path) db.pastes.rows) db in
      elim (Result-cases (validate_all pastes)) [
        | inr (e, failed) ↦ absurd (ground arith)
        | inl (u, valid) ↦ elim (Result-cases removal.0) [
          | inr (e, failed) ↦ absurd (ground arith)
          | inl (k, removed) ↦ elim (Result-cases (record_entries pastes now removal.1).0) [
            | inr (e, failed) ↦ absurd (ground arith)
            | inl (n, recorded) ↦ (now, n, recorded, ground arith)
          ]
        ]
      ]
]

All-present :
    (rs : List PasteRow) (pastes : List NewPaste) (incoming : List Text)
    → incoming_paths pastes ≡ ok incoming
    → All (IsPresent rs) pastes
    → All (λ path. any (has_path path) rs ≡ true) incoming
unfolding incoming_paths
All-present rs [] incoming e h =
    subst (λ ps. All (λ path. any (has_path path) rs ≡ true) ps) {x = []} {y = incoming}
      (ground arith) tt
All-present rs (x ∷ pastes) incoming e (k, ks) =
    elim (Result-cases (path_to_string x.storage_path)) [
      | inr (f, bad) ↦ absurd (ground arith)
      | inl (path, utf) ↦ elim (Result-cases (incoming_paths pastes)) [
        | inr (f, bad) ↦ absurd (ground arith)
        | inl (rest, more) ↦
            let same : (path ∷ rest) ≡ incoming = ground arith in
            subst (λ ps. All (λ q. any (has_path q) rs ≡ true) ps) same
              (k path utf, All-present rs pastes rest more ks)
      ]
    ]

-- After a reconciliation that answers, every row's storage path is one of the scan's, and every
-- storage path of the scan has a row.
pub reconciled_paths :
    (pastes : List NewPaste) (clock : Clock) (incoming : List Text) (result : ReconcileResult)
    (db : Db)
    → incoming_paths pastes ≡ ok incoming
    → (reconcile_pastes pastes clock db).0 ≡ ok result
    → (any
          (λ r. not (contains incoming r.storage_path))
          (reconcile_pastes pastes clock db).1.pastes.rows
        ≡ false)
      × All
          (λ path. any (has_path path) (reconcile_pastes pastes clock db).1.pastes.rows ≡ true)
          incoming
reconciled_paths pastes clock incoming result db paths h =
    let (now, n, recorded, same) = reconciled pastes clock incoming result db paths h in
    let known = incoming-IsKnown pastes incoming paths in
    let removed = (remove_missing incoming (map (λ r. r.storage_path) db.pastes.rows) db).1 in
    rw same (
      any_weaken (λ r. not (contains incoming r.storage_path)) (is_stray incoming [])
          (paths_of (record_entries pastes now removed).1) (λ r k. ground arith)
          (unfold removed_db in no_stray pastes now incoming known db),
      All-present (paths_of (record_entries pastes now removed).1) pastes incoming paths
          (entries-IsPresent incoming pastes now n removed known recorded),
    )
