-- ===== src/Store/Schema.antt =====
-- migrations/*.sql as records: one for the rows of each table, and the database that holds them.
-- Integers are those of SQLite that the program writes, which are not negative.
use rustypaste.Prelude.{
  ℕ, suc, Bool, false, ◌&&◌, ◌||◌, Option, none, some, List, [], ◌∷◌, ◌++◌, Text, text_eq, ◌==◌,
  any, if◌then◌else◌,
}
use rustypaste.Store.Base.{Result, ok, err, StoreError}

pub record PrincipalRow : Type 0 where
  pub id : ℕ
  pub kind : Text
  pub issuer : Option Text
  pub subject : Option Text
  pub stable_name : Option Text
  pub email : Option Text
  pub display_name : Option Text
  pub is_admin : Bool
  pub can_delete_all : Bool
  pub created_at : ℕ
  pub updated_at : ℕ
  pub last_seen_at : ℕ

-- browser_sessions and api_tokens; a browser session has no label
pub record CredentialRow : Type 0 where
  pub id : ℕ
  pub principal_id : ℕ
  pub secret_hash : List ℕ
  pub label : Option Text
  pub created_at : ℕ
  pub last_used_at : ℕ
  pub expires_at : ℕ
  pub revoked_at : Option ℕ

pub record OauthFlowRow : Type 0 where
  pub id : ℕ
  pub state_hash : List ℕ
  pub code_verifier : Text
  pub nonce : Text
  pub return_to : Text
  pub created_at : ℕ
  pub expires_at : ℕ

pub record DeviceFlowRow : Type 0 where
  pub id : ℕ
  pub device_code_hash : List ℕ
  pub user_code : Text
  pub client_name : Text
  pub approved_principal_id : Option ℕ
  pub created_at : ℕ
  pub expires_at : ℕ
  pub poll_interval_seconds : ℕ
  pub last_polled_at : Option ℕ
  pub approved_at : Option ℕ
  pub delivered_at : Option ℕ

pub record PasteRow : Type 0 where
  pub id : ℕ
  pub owner_principal_id : Option ℕ
  pub public_filename : Text
  pub storage_path : Text
  pub paste_type : Text
  pub created_at : ℕ
  pub updated_at : ℕ
  pub size_bytes : ℕ
  pub expires_at : Option ℕ
  pub content_hash : Text
  pub dedup_key : Option Text
  pub link_key : Option Text

-- A table: its rows, and the next value of its AUTOINCREMENT key, which is never used twice.
pub record Table (R : Type 0) : Type 0 where
  pub rows : List R
  pub next_id : ℕ

pub record Db : Type 0 where
  pub principals : Table PrincipalRow
  pub browser_sessions : Table CredentialRow
  pub api_tokens : Table CredentialRow
  pub oauth_flows : Table OauthFlowRow
  pub cli_device_flows : Table DeviceFlowRow
  pub pastes : Table PasteRow

abbrev pub empty_table : (R : Type 0) → Table R
empty_table R = record { rows = []; next_id = 1 }

abbrev pub empty_db : Db
empty_db = record {
  principals = empty_table PrincipalRow;
  browser_sessions = empty_table CredentialRow;
  api_tokens = empty_table CredentialRow;
  oauth_flows = empty_table OauthFlowRow;
  cli_device_flows = empty_table DeviceFlowRow;
  pastes = empty_table PasteRow;
}

-- Equality of two values in a UNIQUE index: NULL differs from every value, NULL included.
abbrev pub same_text : Option Text → Option Text → Bool
same_text (some s) (some t) = text_eq s t
same_text _ _ = false

abbrev pub same_id : Option ℕ → Option ℕ → Bool
same_id (some m) (some n) = m == n
same_id _ _ = false

-- secret_hash BLOB NOT NULL UNIQUE
abbrev pub credential_clash : CredentialRow → CredentialRow → Bool
credential_clash a b = text_eq a.secret_hash b.secret_hash

-- state_hash BLOB NOT NULL UNIQUE
abbrev pub oauth_clash : OauthFlowRow → OauthFlowRow → Bool
oauth_clash a b = text_eq a.state_hash b.state_hash

-- device_code_hash BLOB NOT NULL UNIQUE, user_code TEXT NOT NULL UNIQUE
abbrev pub device_clash : DeviceFlowRow → DeviceFlowRow → Bool
device_clash a b = text_eq a.device_code_hash b.device_code_hash || text_eq a.user_code b.user_code

-- storage_path UNIQUE, pastes_owner_dedup and pastes_public_link_key
abbrev pub paste_clash : PasteRow → PasteRow → Bool
paste_clash a b =
    text_eq a.storage_path b.storage_path
    || (same_id a.owner_principal_id b.owner_principal_id && same_text a.dedup_key b.dedup_key)
    || same_text a.link_key b.link_key

abbrev pub append_row : {R : Type 0} → R → Table R → Table R
append_row r t = record { rows = t.rows ++ r ∷ []; next_id = suc t.next_id }

-- INSERT: refused when the new row clashes with one that stands there.
abbrev pub insert_row : {R : Type 0} → (R → R → Bool) → R → Table R → Option (Table R)
insert_row clash r t = if any (clash r) t.rows then none else some (append_row r t)

-- The rows of a table put in their place by DELETE or UPDATE.
abbrev pub with_rows : {R : Type 0} → Table R → List R → Table R
with_rows t rs = record { rows = rs; next_id = t.next_id }

-- A call of the store: its result, and the database after it.
abbrev pub Tx : Type 0 → Type 0
Tx A = Db → Result A × Db

infixl 5 ◌>>=◌ ◌>>◌
abbrev pub ◌>>=◌ : {A B : Type 0} → Tx A → (A → Tx B) → Tx B
◌>>=◌ m f db = elim (m db).0 [ ok a ↦ f a (m db).1 | err e ↦ (err e, (m db).1) ]

abbrev pub ◌>>◌ : {B : Type 0} → Tx (Unit {0}) → Tx B → Tx B
◌>>◌ m k = m >>= λ _. k

abbrev pub pure : {A : Type 0} → A → Tx A
pure a db = (ok a, db)

abbrev pub raise : {A : Type 0} → StoreError → Tx A
raise e db = (err e, db)

abbrev pub lift : {A : Type 0} → Result A → Tx A
lift r db = (r, db)

abbrev pub gets : {A : Type 0} → (Db → A) → Tx A
gets f db = (ok (f db), db)

abbrev pub modify : (Db → Db) → Tx (Unit {0})
modify f db = (ok tt, f db)

-- `match` on an optional value
abbrev pub with_option {ℓ} : {X : Type ℓ} {A : Type 0} → Option X → Tx A → (X → Tx A) → Tx A
with_option none m f = m
with_option (some x) m f = f x

-- A transaction that returns a value has committed, and the value is what the call answers, an
-- error too; one that raises is rolled back.
abbrev pub transaction : {A : Type 0} → Tx (Result A) → Tx A
transaction m db = elim (m db).0 [ ok r ↦ (r, (m db).1) | err e ↦ (err e, db) ]
