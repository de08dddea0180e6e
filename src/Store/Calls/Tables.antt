-- ===== src/Store/Calls/Tables.antt =====
-- Which tables each call writes, and that it keeps what does not depend on those.
use rustypaste.Prelude.{none}
use rustypaste.Store.Base.{Crypto, AuthStore}
use rustypaste.Store.Schema.{
  Db, Table, PrincipalRow, CredentialRow, OauthFlowRow, DeviceFlowRow, PasteRow,
}
use rustypaste.Store.Credentials.{CredentialTable, browser_session, api_token, set_table}
use rustypaste.Store.OauthFlows.{ReturnUrls}
use rustypaste.Store.Frame.{
  PasteSteps, insert_steps, upsert_oidc_principal-Keeps, upsert_named_principal-Keeps,
  create_credential-Keeps, revoke_credential-Keeps, use_credential-Keeps,
  revoke_managed_api_tokens-Keeps, revoke_api_token_by_id-Keeps, provision_static_api_token-Keeps,
  revoke_principal_credentials-Keeps, store_oauth_flow-Keeps, consume_oauth_flow-Keeps,
  start_device_flow-Keeps, approve_device_flow-Keeps, poll_device_flow-Keeps, insert_paste-Keeps,
  insert_paste_deduplicated-Keeps, delete_paste-Keeps, delete_paste_by_storage_path-Keeps,
  reconcile_pastes-Keeps, purge_expired-Keeps,
}
use rustypaste.Store.Calls.{
  Call, login, name_principal, open_session, open_token, provision, use_found, revoke,
  revoke_managed, revoke_all, revoke_by_id, purge, store_oauth, consume_oauth, start_device,
  approve_device, poll_device, add_paste, add_deduplicated, remove_paste, remove_stored, reconcile,
  run,
}
use rustypaste.Store.Credentials.{create_browser_session, create_api_token}

-- `P` holds whatever stands in one table.
abbrev pub FreePrincipals : (Db → Type 0) → Type 0
FreePrincipals P = (t : Table PrincipalRow) (db : Db) → P db → P (record db { principals = t })

abbrev pub FreeCredentials : CredentialTable → (Db → Type 0) → Type 0
FreeCredentials table P = (t : Table CredentialRow) (db : Db) → P db → P (set_table table t db)

abbrev pub FreeFlows : (Db → Type 0) → Type 0
FreeFlows P = (t : Table OauthFlowRow) (db : Db) → P db → P (record db { oauth_flows = t })

abbrev pub FreeDevices : (Db → Type 0) → Type 0
FreeDevices P = (t : Table DeviceFlowRow) (db : Db) → P db → P (record db { cli_device_flows = t })

abbrev pub FreePastes : (Db → Type 0) → Type 0
FreePastes P = (t : Table PasteRow) (db : Db) → P db → P (record db { pastes = t })

paste_steps : (P : Db → Type 0) → FreePastes P → PasteSteps P
paste_steps P free = record {
  deletes = λ p db h. free _ db h;
  clears = λ link_key now db h. free _ db h;
  refreshes = λ paste path now db h. free _ db h;
  inserts = λ r db new h. free _ db h;
}

-- The tables that a call writes.
abbrev pub Free : (Db → Type 0) → Call → Type 0
Free P (login _ _ _ _ _ _) = FreePrincipals P
Free P (name_principal _ _ _ _ _) = FreePrincipals P
Free P (open_session _ _ _) = FreeCredentials browser_session P
Free P (open_token _ _ _ _) = FreeCredentials api_token P
Free P (provision _ _ _ _) = FreeCredentials api_token P
Free P (use_found table _ _ _) = FreeCredentials table P × FreePrincipals P
Free P (revoke table _ _) = FreeCredentials table P
Free P (revoke_managed _) = FreeCredentials api_token P
Free P (revoke_all _ _) = FreeCredentials api_token P × FreeCredentials browser_session P
Free P (revoke_by_id _ _) = FreeCredentials api_token P
Free P (purge _) =
    FreeCredentials browser_session P × FreeCredentials api_token P × FreeFlows P × FreeDevices P
Free P (store_oauth _ _ _ _ _ _) = FreeFlows P
Free P (consume_oauth _ _) = FreeFlows P
Free P (start_device _ _ _ _ _) = FreeDevices P
Free P (approve_device _ _ _) = FreeDevices P
Free P (poll_device _ _ _ _) = FreeDevices P × FreeCredentials api_token P
Free P (add_paste _ _) = FreePastes P
Free P (add_deduplicated _ _) = FreePastes P
Free P (remove_paste _) = FreePastes P
Free P (remove_stored _) = FreePastes P
Free P (reconcile _ _) = FreePastes P

module _ (crypto : Crypto) (urls : ReturnUrls) (self : AuthStore) (P : Db → Type 0) where
  pub run-Free : (c : Call) (db : Db) → Free P c → P db → P (run crypto urls self c db)
  unfolding run create_browser_session create_api_token
  run-Free (login a b c d e f) db free = (upsert_oidc_principal-Keeps P free a b c d e f).at db
  run-Free (name_principal a b c d e) db free =
      (upsert_named_principal-Keeps P free a b c d e).at db
  run-Free (open_session a b c) db free =
      (create_credential-Keeps P browser_session free crypto a none _ b c).at db
  run-Free (open_token a b c d) db free =
      (create_credential-Keeps P api_token free crypto a b _ c d).at db
  run-Free (provision a b c d) db free =
      (provision_static_api_token-Keeps P free crypto self a b c d).at db
  run-Free (use_found a b c d) db (free, principals) =
      (use_credential-Keeps P a free principals b c d).at db
  run-Free (revoke a b c) db free = (revoke_credential-Keeps P a free crypto b c).at db
  run-Free (revoke_managed a) db free = (revoke_managed_api_tokens-Keeps P free a).at db
  run-Free (revoke_all a b) db (free, sessions) =
      (revoke_principal_credentials-Keeps P free sessions a b).at db
  run-Free (revoke_by_id a b) db free = (revoke_api_token_by_id-Keeps P free a b).at db
  run-Free (purge a) db (sessions, tokens, flows, devices) =
      (purge_expired-Keeps P sessions tokens flows devices a).at db
  run-Free (store_oauth a b c d e f) db free =
      (store_oauth_flow-Keeps P free crypto urls a b c d e f).at db
  run-Free (consume_oauth a b) db free = (consume_oauth_flow-Keeps P free crypto a b).at db
  run-Free (start_device a b c d e) db free =
      (start_device_flow-Keeps P free crypto a b c d e).at db
  run-Free (approve_device a b c) db free = (approve_device_flow-Keeps P free a b c).at db
  run-Free (poll_device a b c d) db (free, tokens) =
      (poll_device_flow-Keeps P free tokens crypto self a b c d).at db
  run-Free (add_paste a b) db free =
      (insert_paste-Keeps P (insert_steps (paste_steps P free)) a b).at db
  run-Free (add_deduplicated a b) db free =
      (insert_paste_deduplicated-Keeps P (insert_steps (paste_steps P free)) a b).at db
  run-Free (remove_paste a) db free = (delete_paste-Keeps P (paste_steps P free) a).at db
  run-Free (remove_stored a) db free =
      (delete_paste_by_storage_path-Keeps P (paste_steps P free) a).at db
  run-Free (reconcile a b) db free = (reconcile_pastes-Keeps P (paste_steps P free) a b).at db
