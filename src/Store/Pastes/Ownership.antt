-- ===== src/Store/Pastes/Ownership.antt =====
-- src/store.rs, `reconcile_pastes`: it preserves the ownership of the pastes that the scan has.
use rustypaste.Prelude.{
  ℕ, ◌≡◌, Bool, true, false, not, ◌&&◌, some, List, [], ◌∷◌, map, Text, contains, text_eq,
  text_eq_iff, any, any_kept_true, delete_where, ◌==◌, Bool-cases, inl, inr, arith,
}
use rustypaste.Store.Base.{ok, Clock}
use rustypaste.Store.Schema.{Db, PasteRow, same_id}
use rustypaste.Store.Pastes.{NewPaste, change_pastes}
use rustypaste.Store.Pastes.Reconcile.{
  ReconcileResult, incoming_paths, has_path, remove_path, remove_missing, reconcile_pastes,
}
use rustypaste.Store.Pastes.Scan.{paths_of}
use rustypaste.Store.Pastes.Scanned.{survives, reconciled, incoming-IsKnown}

-- the row of a paste: its path, its key, its owner and the time when it was created
abbrev pub is_paste_of : (path : Text) (id owner created_at : ℕ) → PasteRow → Bool
is_paste_of path id owner created_at r =
    text_eq r.storage_path path
    && r.id == id
    && same_id r.owner_principal_id (some owner)
    && r.created_at == created_at

differs :
    (incoming : List Text) (path other : Text) (r : PasteRow)
    → contains incoming path ≡ true
    → contains incoming other ≡ false
    → text_eq r.storage_path path ≡ true
    → not (has_path other r) ≡ true
differs incoming path other r known missing here =
    elim (Bool-cases (text_eq r.storage_path other)) [
      | inl same ↦ ground (arith, text_eq_iff r.storage_path other, text_eq_iff r.storage_path path)
      | inr apart ↦ ground arith
    ]

remove_missing-keeps :
    (incoming existing : List Text) (path : Text) (p : PasteRow → Bool) (db : Db)
    → contains incoming path ≡ true
    → ((r : PasteRow) → p r ≡ true → text_eq r.storage_path path ≡ true)
    → any p (paths_of db) ≡ true
    → any p (paths_of (remove_missing incoming existing db).1) ≡ true
unfolding remove_missing remove_path
remove_missing-keeps incoming [] path p db known here h = h
remove_missing-keeps incoming (other ∷ others) path p db known here h =
    elim (Bool-cases (contains incoming other)) [
      | inl stays ↦ ground (arith, remove_missing-keeps incoming others path p db known here h)
      | inr missing ↦ ground (
        arith,
        remove_missing-keeps incoming others path p
            (change_pastes (delete_where (has_path other)) db) known here
            (any_kept_true p (λ r. not (has_path other r)) (paths_of db)
              (λ r k. differs incoming path other r known missing (here r k)) h),
      )
    ]

-- A reconciliation that answers leaves a paste that the scan has, where the owner is some principal,
-- its key, its owner and its creation time.
pub reconcile_keeps_owner :
    (pastes : List NewPaste) (clock : Clock) (incoming : List Text) (result : ReconcileResult)
    (path : Text) (id owner created_at : ℕ) (db : Db)
    → incoming_paths pastes ≡ ok incoming
    → contains incoming path ≡ true
    → any (is_paste_of path id owner created_at) db.pastes.rows ≡ true
    → (reconcile_pastes pastes clock db).0 ≡ ok result
    → any (is_paste_of path id owner created_at) (reconcile_pastes pastes clock db).1.pastes.rows
      ≡ true
reconcile_keeps_owner pastes clock incoming result path id owner created_at db paths has h done =
    let p = is_paste_of path id owner created_at in
    let existing = map (λ r. r.storage_path) db.pastes.rows in
    let (now, n, recorded, same) = reconciled pastes clock incoming result db paths done in
    rw same (
      (survives incoming now p pastes (λ x r k. k) (incoming-IsKnown pastes incoming paths)).at
        (remove_missing incoming existing db).1
        (remove_missing-keeps incoming existing path p db has (λ r k. ground arith) h))
