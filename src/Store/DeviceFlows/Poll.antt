-- ===== src/Store/DeviceFlows/Poll.antt =====
-- src/store.rs, `poll_device_flow`: a login is polled by its device code, and claimed once it is
-- approved.
use rustypaste.Prelude.{
  ℕ, Bool, false, ◌&&◌, Option, none, some, Text, text_eq, is_empty, is_some, is_none, ◌==◌, leb,
  ltb, delete_where, update_where, count_where, find_where, if◌then◌else◌,
}
use rustypaste.Store.Base.{
  Result, ok, Clock, unix_now, expiry_from, saturating_add, Crypto, Random, generate_secret,
  AuthStore,
}
use rustypaste.Store.Schema.{
  DeviceFlowRow, Db, Tx, ◌>>=◌, ◌>>◌, pure, lift, gets, modify, transaction, with_option,
}
use rustypaste.Store.Principals.{Principal, one_principal}
use rustypaste.Store.Credentials.{
  api_token, IssuedCredential, insert_credential, new_credential, prune_credentials,
}
use rustypaste.Store.DeviceFlows.{change_devices}

pub data DevicePoll : Type 0 where
  pending slow_down expired consumed : DevicePoll
  authorized : Principal → IssuedCredential → DevicePoll

-- the SET lists of the two updates
abbrev pub polled_row : ℕ → DeviceFlowRow → DeviceFlowRow
polled_row now r = record r { last_polled_at = some now }

abbrev pub delivered_row : ℕ → DeviceFlowRow → DeviceFlowRow
delivered_row now r = record r { delivered_at = some now }

abbrev pub has_id : ℕ → DeviceFlowRow → Bool
has_id id r = r.id == id

-- `last_polled_at.is_some_and(|last_poll| now < last_poll.saturating_add(poll_interval))`
abbrev pub polled_too_soon : ℕ → DeviceFlowRow → Bool
polled_too_soon now row = elim row.last_polled_at [
  | none ↦ false
  | some last_poll ↦ ltb now (saturating_add last_poll row.poll_interval_seconds)
]

abbrev pub mark_polled : ℕ → ℕ → Db → Db
mark_polled now flow_id = change_devices (update_where (has_id flow_id) (polled_row now))

-- the WHERE clause of the claim
abbrev pub is_claimable : ℕ → DeviceFlowRow → Bool
is_claimable flow_id r =
    r.id == flow_id && is_none r.delivered_at && is_some r.approved_principal_id

abbrev pub mark_delivered : ℕ → ℕ → Db → Db
mark_delivered now flow_id =
    change_devices (update_where (is_claimable flow_id) (delivered_row now))

-- Issues the token of an approved flow that this poll has claimed.
unfoldable pub deliver : Crypto → AuthStore → Option Text → Random → ℕ → ℕ → Tx (Result DevicePoll)
deliver crypto self token_label random now principal_id = do
  row ← gets (λ db. find_where (λ p. p.id == principal_id) db.principals.rows)
  principal ← lift (one_principal row)
  secret ← lift (generate_secret crypto random)
  token_expiry ← lift (expiry_from now self.token_idle_timeout)
  next ← gets (λ db. db.api_tokens.next_id)
  token_id ←
      insert_credential api_token
        (new_credential next principal_id (crypto.sha256 secret) token_label now token_expiry)
  prune_credentials api_token principal_id now
  pure (
      ok (
        authorized principal
          (record { id = token_id; secret = secret; expires_at = token_expiry })))

unfoldable pub claim :
    Crypto → AuthStore → Option Text → Random → ℕ → DeviceFlowRow → Tx (Result DevicePoll)
claim crypto self token_label random now row =
    with_option row.approved_principal_id (pure (ok pending)) (λ principal_id. do
      claimed ← gets (λ db. count_where (is_claimable row.id) db.cli_device_flows.rows)
      modify (mark_delivered now row.id)
      if claimed == 1
          then deliver crypto self token_label random now principal_id
          else pure (ok consumed))

-- What follows once the row of the device code has been read.
unfoldable pub poll_row :
    Crypto → AuthStore → Option Text → Random → ℕ → Option DeviceFlowRow → Tx (Result DevicePoll)
poll_row crypto self token_label random now none = pure (ok expired)
poll_row crypto self token_label random now (some row) =
    if leb row.expires_at now
    then (do modify (change_devices (delete_where (has_id row.id))); pure (ok expired))
    else if is_some row.delivered_at
    then pure (ok consumed)
    else if polled_too_soon now row
    then (do modify (mark_polled now row.id); pure (ok slow_down))
    else do modify (mark_polled now row.id); claim crypto self token_label random now row

unfoldable pub poll_device_flow :
    Crypto → AuthStore → (device_code : Text) → Option Text → Random → Clock → Tx DevicePoll
poll_device_flow crypto self device_code token_label random clock =
    if is_empty device_code then pure expired else do
      now ← lift (unix_now clock)
      transaction (do
        row ← gets (λ db.
            find_where (λ r. text_eq r.device_code_hash (crypto.sha256 device_code))
              db.cli_device_flows.rows)
        poll_row crypto self token_label random now row)
