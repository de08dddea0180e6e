-- ===== src/Store/Pastes/Links.antt =====
-- src/store.rs: the public link of an owned paste is reserved while the paste is unexpired.
use rustypaste.Prelude.{
  ℕ, ◌≡◌, refl, ◌∙◌, Bool, true, none, some, List, [], ◌∷◌, Text, any, any-updated, updated,
  Option-cases, inl, inr, arith,
}
use rustypaste.Store.Base.{ok, err, public_filename_conflict, Clock, unix_now}
use rustypaste.Store.Schema.{Db, PasteRow}
use rustypaste.Store.Pastes.{
  NewPaste, validate_new_paste, path_to_string, active_public_link_key, holds_link,
  public_link_is_active,
}
use rustypaste.Store.Pastes.Insert.{
  is_expired_link, clear_expired_public_link, ensure_public_link_available, prepare_public_link,
  insert_paste,
}

any_same {ℓ} :
    {A : Type ℓ} (p q : A → Bool) (rs : List A) → ((r : A) → p r ≡ q r) → any p rs ≡ any q rs
any_same p q [] k = refl
any_same p q (r ∷ rs) k = ground (arith, k r, any_same p q rs k)

holds_link-cleared :
    (link_key : Text) (now : ℕ) (r : PasteRow)
    → holds_link link_key now
        (updated (is_expired_link link_key now) (λ x. record x { link_key = none }) r)
      ≡ holds_link link_key now r
holds_link-cleared link_key now r = elim (Option-cases r.expires_at) [
  | inl never ↦ ground arith
  | inr (expiry, e) ↦ ground arith
]

-- Clearing the links of expired pastes takes the link from no paste that holds it.
pub link_stays :
    (link_key : Text) (now : ℕ) (db : Db)
    → public_link_is_active link_key now (clear_expired_public_link link_key now db).1
      ≡ public_link_is_active link_key now db
unfolding public_link_is_active clear_expired_public_link
link_stays link_key now db =
    any-updated (holds_link link_key now) (is_expired_link link_key now)
      (λ r. record r { link_key = none }) db.pastes.rows
    ∙ any_same
        (λ r.
          holds_link link_key now
            (updated (is_expired_link link_key now) (λ x. record x { link_key = none }) r))
        (holds_link link_key now) db.pastes.rows (holds_link-cleared link_key now)

-- An owned paste that has not expired is refused, and the database is as it was, while its public
-- link is held by an unexpired paste.
pub held_link_refused :
    (paste : NewPaste) (clock : Clock) (now : ℕ) (path link_key : Text) (db : Db)
    → validate_new_paste paste ≡ ok tt
    → unix_now clock ≡ ok now
    → path_to_string paste.storage_path ≡ ok path
    → active_public_link_key paste now ≡ some link_key
    → public_link_is_active link_key now db ≡ true
    → insert_paste paste clock db ≡ (err (public_filename_conflict link_key), db)
unfolding insert_paste prepare_public_link ensure_public_link_available validate_new_paste
held_link_refused paste clock now path link_key db valid read utf owned active =
    ground (arith, link_stays link_key now db)
