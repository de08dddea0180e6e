-- ===== src/Store/Principals.antt =====
-- src/store.rs: principals, found by their stable identity and refreshed at each login.
pub mod Listing
use rustypaste.Prelude.{
  ℕ, Bool, true, false, ◌&&◌, ◌||◌, Option, none, some, Text, codes, text_eq, ◌==◌, any, is_blank,
  find_where, update_where, if◌then◌else◌,
}
use rustypaste.Store.Base.{
  Result, ok, err, database, row_not_found, invalid_input, invalid_data, Clock, unix_now,
}
use rustypaste.Store.Schema.{
  PrincipalRow, Db, same_text, append_row, with_rows, Tx, ◌>>=◌, ◌>>◌, raise, lift, gets, modify,
}

pub data PrincipalKind : Type 0 where
  oidc service legacy : PrincipalKind

unfoldable pub as_str : PrincipalKind → Text
as_str oidc = codes "oidc"
as_str service = codes "service"
as_str legacy = codes "legacy"

unfoldable pub from_str : Text → Result PrincipalKind
from_str value =
    if text_eq value (codes "oidc")
    then ok oidc
    else if text_eq value (codes "service")
    then ok service
    else if text_eq value (codes "legacy")
    then ok legacy
    else err (invalid_data value)

pub record Principal : Type 0 where
  pub id : ℕ
  pub kind : PrincipalKind
  pub issuer : Option Text
  pub subject : Option Text
  pub stable_name : Option Text
  pub email : Option Text
  pub display_name : Option Text
  pub is_admin : Bool
  pub can_delete_all : Bool
  pub created_at : ℕ
  pub last_seen_at : ℕ

abbrev pub of_row : PrincipalRow → PrincipalKind → Principal
of_row row kind = record {
  id = row.id;
  kind = kind;
  issuer = row.issuer;
  subject = row.subject;
  stable_name = row.stable_name;
  email = row.email;
  display_name = row.display_name;
  is_admin = row.is_admin;
  can_delete_all = row.can_delete_all;
  created_at = row.created_at;
  last_seen_at = row.last_seen_at;
}

-- `principal_from_row` and `principal_from_auth_row`
unfoldable pub principal_from_row : PrincipalRow → Result Principal
unfolding from_str
principal_from_row row = elim (from_str row.kind) [ ok kind ↦ ok (of_row row kind) | err e ↦ err e ]

-- `fetch_one` decoded
abbrev pub one_principal : Option PrincipalRow → Result Principal
one_principal none = err (database row_not_found)
one_principal (some row) = principal_from_row row

-- `fetch_optional` decoded
abbrev pub optional_principal : Option PrincipalRow → Result (Option Principal)
optional_principal none = ok none
optional_principal (some row) = elim (principal_from_row row) [ ok p ↦ ok (some p) | err e ↦ err e ]

-- ON CONFLICT DO UPDATE: the row of the identity is updated, or the new row is added.
unfoldable pub upsert :
    (conflict : PrincipalRow → Bool) (refresh : PrincipalRow → PrincipalRow) (new : PrincipalRow)
    → Db
    → Db
upsert conflict refresh new db =
    let t = db.principals in
    if any conflict t.rows
    then record db { principals = with_rows t (update_where conflict refresh t.rows) }
    else record db { principals = append_row new t }

-- principals_oidc_identity
abbrev pub is_oidc_identity : (issuer subject : Text) → PrincipalRow → Bool
is_oidc_identity issuer subject r =
    text_eq r.kind (codes "oidc")
    && same_text r.issuer (some issuer)
    && same_text r.subject (some subject)

-- principals_named_identity
abbrev pub is_named_identity : PrincipalKind → Text → PrincipalRow → Bool
is_named_identity kind stable_name r =
    text_eq r.kind (as_str kind) && same_text r.stable_name (some stable_name)

unfoldable pub upsert_oidc_principal :
    (issuer subject : Text) (email display_name : Option Text) (is_admin : Bool)
    → Clock
    → Tx Principal
unfolding upsert
upsert_oidc_principal issuer subject email display_name is_admin clock =
    if is_blank issuer || is_blank subject
    then raise (invalid_input "OIDC issuer and subject cannot be empty")
    else do
      now ← lift (unix_now clock)
      modify (λ db.
          upsert (is_oidc_identity issuer subject)
            (λ r. record r {
              email = email;
              display_name = display_name;
              is_admin = is_admin;
              can_delete_all = is_admin;
              updated_at = now;
              last_seen_at = now;
            })
            (record {
              id = db.principals.next_id;
              kind = codes "oidc";
              issuer = some issuer;
              subject = some subject;
              stable_name = none;
              email = email;
              display_name = display_name;
              is_admin = is_admin;
              can_delete_all = is_admin;
              created_at = now;
              updated_at = now;
              last_seen_at = now;
            })
            db)
      row ← gets (λ db. find_where (is_oidc_identity issuer subject) db.principals.rows)
      lift (one_principal row)

abbrev is_oidc : PrincipalKind → Bool
is_oidc oidc = true
is_oidc service = false
is_oidc legacy = false

unfoldable pub upsert_named_principal :
    PrincipalKind → Text → (is_admin can_delete_all : Bool) → Clock → Tx Principal
unfolding upsert
upsert_named_principal kind stable_name is_admin can_delete_all clock =
    if is_oidc kind || is_blank stable_name
    then raise (invalid_input "named principal requires a non-empty service or legacy name")
    else do
      now ← lift (unix_now clock)
      modify (λ db.
          upsert (is_named_identity kind stable_name)
            (λ r. record r {
              is_admin = is_admin;
              can_delete_all = can_delete_all;
              updated_at = now;
            })
            (record {
              id = db.principals.next_id;
              kind = as_str kind;
              issuer = none;
              subject = none;
              stable_name = some stable_name;
              email = none;
              display_name = none;
              is_admin = is_admin;
              can_delete_all = can_delete_all;
              created_at = now;
              updated_at = now;
              last_seen_at = now;
            })
            db)
      row ← gets (λ db. find_where (is_named_identity kind stable_name) db.principals.rows)
      lift (one_principal row)

unfoldable pub upsert_service_principal : Text → Bool → Clock → Tx Principal
unfolding upsert_named_principal
upsert_service_principal stable_name is_admin clock =
    upsert_named_principal service stable_name is_admin is_admin clock

unfoldable pub upsert_legacy_principal : Text → Bool → Clock → Tx Principal
unfolding upsert_named_principal
upsert_legacy_principal stable_name can_delete_all clock =
    upsert_named_principal legacy stable_name false can_delete_all clock

unfoldable pub get_principal : ℕ → Tx (Option Principal)
get_principal id = do
  row ← gets (λ db. find_where (λ r. r.id == id) db.principals.rows)
  lift (optional_principal row)
