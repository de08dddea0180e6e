-- ===== src/Store/Frame/Flows.antt =====
-- The calls on OIDC login transactions and device logins.
use rustypaste.Prelude.{ℕ, zero, suc, Option, some, none, Text}
use rustypaste.Store.Base.{Result, Crypto, AuthStore, Duration, Random, Clock}
use rustypaste.Store.Schema.{Db, Tx, Table, CredentialRow, OauthFlowRow, DeviceFlowRow}
use rustypaste.Store.Keeps.{Keeps, Keeps-pure, keeps_rules}
use rustypaste.Store.Credentials.{api_token}
use rustypaste.Store.OauthFlows.{
  ReturnUrls, insert_flow, admit_oauth, store_oauth_flow, consume_oauth_flow,
}
use rustypaste.Store.DeviceFlows.{
  DeviceAuthorization, start_round, start_rounds, admit_device, start_device_flow,
  approve_device_flow,
}
use rustypaste.Store.DeviceFlows.Poll.{deliver, claim, poll_row, poll_device_flow}
use rustypaste.Store.Frame.Credentials.{insert_credential-Keeps, prune_credentials-Keeps}

module _ (P : Db → Type 0)
    (free : (t : Table OauthFlowRow) (db : Db) → P db → P (record db { oauth_flows = t })) where
  insert_flow-Keeps : (row : OauthFlowRow) → Keeps P (insert_flow row)
  unfolding insert_flow
  insert_flow-Keeps row = search (keeps_rules, free) depth 8

  pub store_oauth_flow-Keeps :
      (crypto : Crypto) (urls : ReturnUrls) (state code_verifier nonce return_to : Text)
      (lifetime : Duration) (clock : Clock)
      → Keeps P (store_oauth_flow crypto urls state code_verifier nonce return_to lifetime clock)
  unfolding store_oauth_flow admit_oauth
  store_oauth_flow-Keeps crypto urls state code_verifier nonce return_to lifetime clock =
      search (keeps_rules, insert_flow-Keeps, free) depth 14

  pub consume_oauth_flow-Keeps :
      (crypto : Crypto) (state : Text) (clock : Clock)
      → Keeps P (consume_oauth_flow crypto state clock)
  unfolding consume_oauth_flow
  consume_oauth_flow-Keeps crypto state clock = search (keeps_rules, free) depth 8

module _ (P : Db → Type 0)
    (free : (t : Table CredentialRow) (db : Db) → P db → P (record db { api_tokens = t })) where
  pub deliver-Keeps :
      (crypto : Crypto) (self : AuthStore) (token_label : Option Text) (random : Random)
      (now principal_id : ℕ)
      → Keeps P (deliver crypto self token_label random now principal_id)
  unfolding deliver
  deliver-Keeps crypto self token_label random now principal_id =
      search
        (
          keeps_rules,
          insert_credential-Keeps P api_token free,
          prune_credentials-Keeps P api_token free,
        )
        depth 12

module _ (P : Db → Type 0)
    (free : (t : Table DeviceFlowRow) (db : Db)
      → P db
      → P (record db { cli_device_flows = t })) where
  start_round-Keeps :
      (crypto : Crypto) (client_name : Text) (now expires_at poll_seconds : ℕ)
      (poll_interval : Duration) (drawn : Random × Random) (again : Tx (Result DeviceAuthorization))
      → Keeps P again
      → Keeps P
          (start_round crypto client_name now expires_at poll_seconds poll_interval drawn again)
  unfolding start_round
  start_round-Keeps crypto client_name now expires_at poll_seconds poll_interval (a, b) again h =
      search (keeps_rules, free) depth 14

  start_rounds-Keeps :
      (crypto : Crypto) (client_name : Text) (now expires_at poll_seconds : ℕ)
      (poll_interval : Duration) (draws : ℕ → Random × Random) (n : ℕ)
      → Keeps P (start_rounds crypto client_name now expires_at poll_seconds poll_interval draws n)
  unfolding start_rounds
  start_rounds-Keeps crypto client_name now expires_at poll_seconds poll_interval draws zero =
      Keeps-pure _
  start_rounds-Keeps crypto client_name now expires_at poll_seconds poll_interval draws (suc n) =
      start_round-Keeps crypto client_name now expires_at poll_seconds poll_interval (draws n) _
        (start_rounds-Keeps crypto client_name now expires_at poll_seconds poll_interval draws n)

  pub start_device_flow-Keeps :
      (crypto : Crypto) (draws : ℕ → Random × Random) (client_name : Text)
      (lifetime poll_interval : Duration) (clock : Clock)
      → Keeps P (start_device_flow crypto draws client_name lifetime poll_interval clock)
  unfolding start_device_flow admit_device
  start_device_flow-Keeps crypto draws client_name lifetime poll_interval clock =
      search (keeps_rules, start_rounds-Keeps, free) depth 14

  pub approve_device_flow-Keeps :
      (user_code : Text) (principal_id : ℕ) (clock : Clock)
      → Keeps P (approve_device_flow user_code principal_id clock)
  unfolding approve_device_flow
  approve_device_flow-Keeps user_code principal_id clock = search (keeps_rules, free) depth 8

  module _
      (free_tokens : (t : Table CredentialRow) (db : Db)
        → P db
        → P (record db { api_tokens = t })) where
    claim-Keeps :
        (crypto : Crypto) (self : AuthStore) (token_label : Option Text) (random : Random) (now : ℕ)
        (row : DeviceFlowRow)
        → Keeps P (claim crypto self token_label random now row)
    unfolding claim
    claim-Keeps crypto self token_label random now row =
        let deliver = deliver-Keeps P free_tokens in search (keeps_rules, deliver, free) depth 12

    poll_row-Keeps :
        (crypto : Crypto) (self : AuthStore) (token_label : Option Text) (random : Random) (now : ℕ)
        (row : Option DeviceFlowRow)
        → Keeps P (poll_row crypto self token_label random now row)
    unfolding poll_row
    poll_row-Keeps crypto self token_label random now none = search keeps_rules
    poll_row-Keeps crypto self token_label random now (some row) =
        search (keeps_rules, claim-Keeps, free) depth 12

    pub poll_device_flow-Keeps :
        (crypto : Crypto) (self : AuthStore) (device_code : Text) (token_label : Option Text)
        (random : Random) (clock : Clock)
        → Keeps P (poll_device_flow crypto self device_code token_label random clock)
    unfolding poll_device_flow
    poll_device_flow-Keeps crypto self device_code token_label random clock =
        search (keeps_rules, poll_row-Keeps) depth 9
