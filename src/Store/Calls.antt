-- ===== src/Store/Calls.antt =====
-- Sequences of calls of the store of src/store.rs. A call that writes runs its statements as one
-- SQLite transaction or one statement, so any interleaving of clients is such a sequence;
-- `authenticate_credential`, which is no transaction, has its two parts as calls of their own.
pub mod Tables
use rustypaste.Prelude.{ℕ, ◌≡◌, refl, Bool, Option, List, [], ◌∷◌, ◌++◌, All, Text}
use rustypaste.Store.Base.{Crypto, AuthStore, Duration, Random, Clock}
use rustypaste.Store.Schema.{Db}
use rustypaste.Store.Principals.{PrincipalKind, upsert_oidc_principal, upsert_named_principal}
use rustypaste.Store.Credentials.{
  CredentialTable, create_browser_session, create_api_token, revoke_credential,
  revoke_managed_api_tokens, revoke_principal_credentials, revoke_api_token_by_id,
}
use rustypaste.Store.Authenticate.{Found, use_credential, provision_static_api_token}
use rustypaste.Store.OauthFlows.{ReturnUrls, store_oauth_flow, consume_oauth_flow}
use rustypaste.Store.DeviceFlows.{start_device_flow, approve_device_flow}
use rustypaste.Store.DeviceFlows.Poll.{poll_device_flow}
use rustypaste.Store.Purge.{purge_expired}
use rustypaste.Store.Pastes.{OsPath, NewPaste}
use rustypaste.Store.Pastes.Insert.{insert_paste, insert_paste_deduplicated}
use rustypaste.Store.Pastes.Query.{delete_paste, delete_paste_by_storage_path}
use rustypaste.Store.Pastes.Reconcile.{reconcile_pastes}

pub data Call : Type 0 where
  login :
      (issuer subject : Text) (email display_name : Option Text) (is_admin : Bool) → Clock → Call
  name_principal : PrincipalKind → Text → (is_admin can_delete_all : Bool) → Clock → Call
  open_session : (principal_id : ℕ) → Random → Clock → Call
  open_token : (principal_id : ℕ) → (label : Option Text) → Random → Clock → Call
  provision : (principal_id : ℕ) → (token : Text) → (label : Option Text) → Clock → Call
  use_found : CredentialTable → (timeout : Duration) → Clock → Found → Call
  revoke : CredentialTable → (secret : Text) → Clock → Call
  revoke_managed : Clock → Call
  revoke_all : (principal_id : ℕ) → Clock → Call
  revoke_by_id : (token_id : ℕ) → Clock → Call
  purge : Clock → Call
  store_oauth : (state code_verifier nonce return_to : Text) → Duration → Clock → Call
  consume_oauth : (state : Text) → Clock → Call
  start_device :
      (draws : ℕ → Random × Random) (client_name : Text)
      → (lifetime poll_interval : Duration) → Clock
      → Call
  approve_device : (user_code : Text) → (principal_id : ℕ) → Clock → Call
  poll_device : (device_code : Text) → (label : Option Text) → Random → Clock → Call
  add_paste : NewPaste → Clock → Call
  add_deduplicated : NewPaste → Clock → Call
  remove_paste : (id : ℕ) → Call
  remove_stored : OsPath → Call
  reconcile : List NewPaste → Clock → Call

module _ (crypto : Crypto) (urls : ReturnUrls) (self : AuthStore) where
  unfoldable pub run : Call → Db → Db
  run (login issuer subject email name is_admin clock) db =
      (upsert_oidc_principal issuer subject email name is_admin clock db).1
  run (name_principal kind name is_admin can_delete_all clock) db =
      (upsert_named_principal kind name is_admin can_delete_all clock db).1
  run (open_session principal_id random clock) db =
      (create_browser_session crypto self principal_id random clock db).1
  run (open_token principal_id label random clock) db =
      (create_api_token crypto self principal_id label random clock db).1
  run (provision principal_id token label clock) db =
      (provision_static_api_token crypto self principal_id token label clock db).1
  run (use_found table timeout clock found) db = (use_credential table timeout clock found db).1
  run (revoke table secret clock) db = (revoke_credential crypto table secret clock db).1
  run (revoke_managed clock) db = (revoke_managed_api_tokens clock db).1
  run (revoke_all principal_id clock) db = (revoke_principal_credentials principal_id clock db).1
  run (revoke_by_id token_id clock) db = (revoke_api_token_by_id token_id clock db).1
  run (purge clock) db = (purge_expired clock db).1
  run (store_oauth state code_verifier nonce return_to lifetime clock) db =
      (store_oauth_flow crypto urls state code_verifier nonce return_to lifetime clock db).1
  run (consume_oauth state clock) db = (consume_oauth_flow crypto state clock db).1
  run (start_device draws client_name lifetime poll_interval clock) db =
      (start_device_flow crypto draws client_name lifetime poll_interval clock db).1
  run (approve_device user_code principal_id clock) db =
      (approve_device_flow user_code principal_id clock db).1
  run (poll_device device_code label random clock) db =
      (poll_device_flow crypto self device_code label random clock db).1
  run (add_paste paste clock) db = (insert_paste paste clock db).1
  run (add_deduplicated paste clock) db = (insert_paste_deduplicated paste clock db).1
  run (remove_paste id) db = (delete_paste id db).1
  run (remove_stored path) db = (delete_paste_by_storage_path path db).1
  run (reconcile pastes clock) db = (reconcile_pastes pastes clock db).1

  unfoldable pub run_all : List Call → Db → Db
  run_all [] db = db
  run_all (c ∷ cs) db = run_all cs (run c db)

  -- What each call of a sequence keeps, the sequence keeps.
  pub run_all_induction :
      (P : Db → Type 0) (Allowed : Call → Type 0)
      → ((c : Call) (db : Db) → Allowed c → P db → P (run c db))
      → (calls : List Call) (db : Db) → All Allowed calls
      → P db
      → P (run_all calls db)
  unfolding run_all
  run_all_induction P Allowed keep [] db a h = h
  run_all_induction P Allowed keep (c ∷ cs) db (a, more) h =
      run_all_induction P Allowed keep cs (run c db) more (keep c db a h)

  pub run_all-append :
      (first more : List Call) (db : Db)
      → run_all (first ++ more) db ≡ run_all more (run_all first db)
  unfolding run_all
  run_all-append [] more db = refl
  run_all-append (c ∷ first) more db = run_all-append first more (run c db)
