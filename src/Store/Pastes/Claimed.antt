-- ===== src/Store/Pastes/Claimed.antt =====
-- src/store.rs: a paste that claims a public link keeps it over the calls that only add pastes.
use rustypaste.Prelude.{
  ℕ, ◌≡◌, Bool, true, ◌&&◌, ◌||◌, some, List, [], ◌∷◌, Text, text_eq, is_none, any, any-append,
  updated, update_where, Option-cases, Bool-cases, inl, inr, arith,
}
use rustypaste.Store.Base.{Crypto, AuthStore}
use rustypaste.Store.Schema.{Db, PasteRow, same_text}
use rustypaste.Store.Credentials.{CredentialTable, browser_session, api_token}
use rustypaste.Store.OauthFlows.{ReturnUrls}
use rustypaste.Store.Pastes.{is_unexpired, holds_link}
use rustypaste.Store.Pastes.Insert.{is_expired_link, cleared_row}
use rustypaste.Store.Frame.{InsertSteps, insert_paste-Keeps, insert_paste_deduplicated-Keeps}
use rustypaste.Store.Calls.{
  Call, add_paste, add_deduplicated, remove_paste, remove_stored, reconcile, run,
}
use rustypaste.Store.Calls.Tables.{FreeCredentials, run-Free}

-- a paste with the filename that is unexpired, and whose link is its filename, or was cleared
abbrev pub claims : Text → ℕ → PasteRow → Bool
claims name later r =
    text_eq r.public_filename name
    && (is_none r.link_key || same_text r.link_key (some name))
    && is_unexpired later r.expires_at

abbrev pub IsClaimed : Text → ℕ → Db → Type 0
IsClaimed name later db = any (claims name later) db.pastes.rows ≡ true

any_kept :
    (t p : PasteRow → Bool) (f : PasteRow → PasteRow) (rs : List PasteRow)
    → ((r : PasteRow) → t r ≡ true → t (updated p f r) ≡ true)
    → any t rs ≡ true
    → any t (update_where p f rs) ≡ true
any_kept t p f [] k h = absurd (ground arith)
any_kept t p f (r ∷ rs) k h = elim (Bool-cases (t r)) [
  | inl hit ↦ ground (arith, k r hit)
  | inr other ↦ ground (arith, any_kept t p f rs k)
]

claims-cleared :
    (name key : Text) (later now : ℕ) (r : PasteRow)
    → claims name later r ≡ true
    → claims name later (updated (is_expired_link key now) cleared_row r) ≡ true
claims-cleared name key later now r h = elim (Bool-cases (is_expired_link key now r)) [
  | inl cleared ↦ ground arith
  | inr other ↦ ground arith
]

claim_steps : (name : Text) (later : ℕ) → InsertSteps (IsClaimed name later)
claim_steps name later = record {
  clears = λ key now db h.
      any_kept (claims name later) (is_expired_link key now) cleared_row db.pastes.rows
        (claims-cleared name key later now) h;
  inserts = λ r db new h. ground (arith, any-append (claims name later) db.pastes.rows (r ∷ []));
}

pub claimed_is_active :
    (name : Text) (later : ℕ) (rs : List PasteRow)
    → any (claims name later) rs ≡ true
    → any (holds_link name later) rs ≡ true
claimed_is_active name later [] h = absurd (ground arith)
claimed_is_active name later (r ∷ rs) h = elim (Bool-cases (claims name later r)) [
  | inr other ↦ ground (arith, claimed_is_active name later rs)
  | inl hit ↦ elim (Option-cases r.link_key) [
    | inl missing ↦ ground arith
    | inr (key, linked) ↦ ground arith
  ]
]

-- The call removes no paste and reconciles none with a scan.
abbrev pub OnlyAdds : Call → Type 0
OnlyAdds (remove_paste id) = ⊥
OnlyAdds (remove_stored path) = ⊥
OnlyAdds (reconcile pastes clock) = ⊥
OnlyAdds c = Unit

module _ (crypto : Crypto) (urls : ReturnUrls) (self : AuthStore) (name : Text) (later : ℕ) where
  other_credentials : (table : CredentialTable) → FreeCredentials table (IsClaimed name later)
  other_credentials browser_session = λ t db h. h
  other_credentials api_token = λ t db h. h

  pub run-IsClaimed :
      (c : Call) (db : Db)
      → OnlyAdds c
      → IsClaimed name later db
      → IsClaimed name later (run crypto urls self c db)
  unfolding run
  run-IsClaimed (add_paste paste clock) db a =
      (insert_paste-Keeps _ (claim_steps name later) paste clock).at db
  run-IsClaimed (add_deduplicated paste clock) db a =
      (insert_paste_deduplicated-Keeps _ (claim_steps name later) paste clock).at db
  run-IsClaimed (remove_paste id) db a = absurd a
  run-IsClaimed (remove_stored path) db a = absurd a
  run-IsClaimed (reconcile pastes clock) db a = absurd a
  run-IsClaimed c db a =
      run-Free crypto urls self (IsClaimed name later) c db (search other_credentials)
