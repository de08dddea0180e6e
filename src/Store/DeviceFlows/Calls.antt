-- ===== src/Store/DeviceFlows/Calls.antt =====
-- What every call of the store keeps of the rows of cli_device_flows (src/store.rs).
use rustypaste.Prelude.{List}
use rustypaste.Store.Base.{Crypto, AuthStore, Clock}
use rustypaste.Store.Schema.{Db, DeviceFlowRow}
use rustypaste.Store.Keeps.{Keeps, keeps_rules}
use rustypaste.Store.Credentials.{CredentialTable, browser_session, api_token}
use rustypaste.Store.OauthFlows.{ReturnUrls}
use rustypaste.Store.Purge.{purge_expired}
use rustypaste.Store.Calls.{Call, purge, start_device, approve_device, poll_device, run}
use rustypaste.Store.Calls.Tables.{FreeCredentials, run-Free}
use rustypaste.Store.DeviceFlows.{start_device_flow, approve_device_flow}
use rustypaste.Store.DeviceFlows.Rows.{On, Deletes, Polls, Delivers, poll_device_flow-On}

-- What the calls that insert and approve must keep, and are free to use their arguments for.
abbrev pub Allows : Crypto → (List DeviceFlowRow → Type 0) → Call → Type 0
Allows crypto Q (start_device draws name lifetime interval clock) =
    Keeps (On Q) (start_device_flow crypto draws name lifetime interval clock)
Allows crypto Q (approve_device user_code principal_id clock) =
    Keeps (On Q) (approve_device_flow user_code principal_id clock)
Allows crypto Q _ = Unit

module _ (crypto : Crypto) (urls : ReturnUrls) (self : AuthStore) (Q : List DeviceFlowRow → Type 0)
    (deletes : Deletes Q) (polls : Polls Q) (delivers : Delivers Q) where
  purge_expired-On : (clock : Clock) → Keeps (On Q) (purge_expired clock)
  unfolding purge_expired
  purge_expired-On clock = search (keeps_rules, deletes) depth 14

  other_table : (table : CredentialTable) → FreeCredentials table (On Q)
  other_table browser_session = λ t db h. h
  other_table api_token = λ t db h. h

  pub run-On : (c : Call) (db : Db) → Allows crypto Q c → On Q db → On Q (run crypto urls self c db)
  run-On (start_device draws name lifetime interval clock) db a = unfold run in a.at db
  run-On (approve_device user_code principal_id clock) db a = unfold run in a.at db
  run-On (poll_device code label random clock) db a =
      unfold run in
      (poll_device_flow-On Q deletes polls delivers crypto self code label random clock).at db
  run-On (purge clock) db a = unfold run in (purge_expired-On clock).at db
  run-On c db a = run-Free crypto urls self (On Q) c db (search other_table)
