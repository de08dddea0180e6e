-- ===== src/Store/DeviceFlows.antt =====
-- src/store.rs: browser-assisted logins of the command line, started with a device code and
-- approved by user code.
pub mod Poll
pub mod Rows
pub mod Calls
pub mod Delivery
pub mod Once
pub mod Admission
pub mod Approval
use rustypaste.Prelude.{
  ℕ, zero, suc, Bool, false, ◌&&◌, ◌||◌, Option, none, some, List, Text, text_eq, is_empty,
  is_blank, is_some, is_none, is_control, utf8_len, ◌==◌, leb, ltb, any, delete_where, update_where,
  count_where, find_where, if◌then◌else◌,
}
use rustypaste.Store.Base.{
  Result, ok, err, database, foreign_key_violation, random_generation, invalid_input,
  capacity_exceeded, Duration, Clock, unix_now, duration_seconds, expiry_from, saturating_add,
  Crypto, Random, generate_secret, generate_user_code, normalize_user_code, AuthStore,
  max_active_device_flows,
}
use rustypaste.Store.Schema.{
  DeviceFlowRow, Db, device_clash, insert_row, with_rows, Tx, ◌>>=◌, ◌>>◌, pure, raise, lift, gets,
  modify, transaction, with_option,
}
use rustypaste.Store.Principals.{Principal, one_principal}
use rustypaste.Store.Credentials.{
  api_token, IssuedCredential, has_principal, insert_credential, new_credential, prune_credentials,
}

pub record DeviceAuthorization : Type 0 where
  pub device_code : Text
  pub user_code : Text
  pub client_name : Text
  pub expires_at : ℕ
  pub poll_interval : Duration

abbrev pub change_devices : (List DeviceFlowRow → List DeviceFlowRow) → Db → Db
change_devices f db = record db {
  cli_device_flows = with_rows db.cli_device_flows (f db.cli_device_flows.rows);
}

-- DELETE FROM cli_device_flows WHERE expires_at <= ?
abbrev pub purge_devices : ℕ → Db → Db
purge_devices now = change_devices (delete_where (λ r. leb r.expires_at now))

-- WHERE delivered_at IS NULL
abbrev pub is_active : DeviceFlowRow → Bool
is_active r = is_none r.delivered_at

abbrev pub device_row :
    (id : ℕ) (device_code_hash : List ℕ) (user_code client_name : Text)
    (now expires_at poll_seconds : ℕ)
    → DeviceFlowRow
device_row id device_code_hash user_code client_name now expires_at poll_seconds = record {
  id = id;
  device_code_hash = device_code_hash;
  user_code = user_code;
  client_name = client_name;
  approved_principal_id = none;
  created_at = now;
  expires_at = expires_at;
  poll_interval_seconds = poll_seconds;
  last_polled_at = none;
  approved_at = none;
  delivered_at = none;
}

-- One round of the loop of `start_device_flow`, given what it draws for its two codes and the
-- rounds that follow where a code is taken.
module _ (crypto : Crypto) (client_name : Text) (now expires_at poll_seconds : ℕ)
    (poll_interval : Duration) where
  unfoldable pub start_round :
      Random × Random → Tx (Result DeviceAuthorization) → Tx (Result DeviceAuthorization)
  start_round (device_random, user_random) again = do
    device_code ← lift (generate_secret crypto device_random)
    user_code ← lift (generate_user_code user_random)
    id ← gets (λ db. db.cli_device_flows.next_id)
    let row =
        device_row id (crypto.sha256 device_code) user_code client_name now expires_at poll_seconds
    changed ← gets (λ db. insert_row device_clash row db.cli_device_flows)
    with_option changed again (λ t. do
      modify (λ db. record db { cli_device_flows = t })
      pure (
          ok (record {
            device_code = device_code;
            user_code = user_code;
            client_name = client_name;
            expires_at = expires_at;
            poll_interval = poll_interval;
          })))

  -- The loop: the rounds left, and what each draws.
  unfoldable pub start_rounds : (ℕ → Random × Random) → ℕ → Tx (Result DeviceAuthorization)
  start_rounds draws zero = pure (err random_generation)
  start_rounds draws (suc n) = start_round (draws n) (start_rounds draws n)

-- the admission test of `start_device_flow`, and its loop
unfoldable pub admit_device :
    Crypto
    → (ℕ → Random × Random)
    → Text
    → (now expires_at poll_seconds : ℕ) → Duration
    → Tx (Result DeviceAuthorization)
admit_device crypto draws client_name now expires_at poll_seconds poll_interval = do
  modify (purge_devices now)
  active ← gets (λ db. count_where is_active db.cli_device_flows.rows)
  if leb max_active_device_flows active
      then pure (err (capacity_exceeded "too many active CLI login flows; try again later"))
      else start_rounds crypto client_name now expires_at poll_seconds poll_interval draws 4

unfoldable pub start_device_flow :
    Crypto
    → (ℕ → Random × Random)
    → Text
    → (lifetime poll_interval : Duration) → Clock
    → Tx DeviceAuthorization
start_device_flow crypto draws client_name lifetime poll_interval clock =
    if is_blank client_name || ltb 100 (utf8_len client_name) || any is_control client_name
    then raise (invalid_input "device client name must be 1 to 100 non-control characters")
    else do
      poll_seconds ← lift (duration_seconds poll_interval)
      if poll_seconds == 0
          then raise (invalid_input "device polling interval must be greater than zero")
          else (do
            now ← lift (unix_now clock)
            expires_at ← lift (expiry_from now lifetime)
            transaction
                (admit_device crypto draws client_name now expires_at poll_seconds poll_interval))

unfoldable pub get_device_flow_client_name : Text → Clock → Tx (Option Text)
get_device_flow_client_name user_code clock = do
  now ← lift (unix_now clock)
  row ← gets (λ db.
      find_where
        (λ r.
          text_eq r.user_code (normalize_user_code user_code)
          && is_none r.delivered_at
          && ltb now r.expires_at)
        db.cli_device_flows.rows)
  pure (elim row [ none ↦ none | some r ↦ some r.client_name ])

-- the SET list of `approve_device_flow`
abbrev pub approved_row : (principal_id now : ℕ) → DeviceFlowRow → DeviceFlowRow
approved_row principal_id now r = record r {
  approved_principal_id = some principal_id;
  approved_at = some now;
}

-- the WHERE clause of `approve_device_flow`
abbrev pub is_approvable : Text → ℕ → DeviceFlowRow → Bool
is_approvable user_code now r =
    text_eq r.user_code (normalize_user_code user_code)
    && is_none r.approved_principal_id
    && is_none r.delivered_at
    && ltb now r.expires_at

-- The foreign key is checked for the rows that are updated.
unfoldable pub approve_device_flow : Text → ℕ → Clock → Tx Bool
approve_device_flow user_code principal_id clock = do
  now ← lift (unix_now clock)
  affected ← gets (λ db. count_where (is_approvable user_code now) db.cli_device_flows.rows)
  known ← gets (has_principal principal_id)
  if affected == 0 || known
      then (do
        modify (
            change_devices (
              update_where (is_approvable user_code now) (λ r. record r {
                approved_principal_id = some principal_id;
                approved_at = some now;
              })))
        pure (affected == 1))
      else raise (database foreign_key_violation)
