-- ===== src/Store/Purge.antt =====
-- src/store.rs: `purge_expired`, which the cleanup task runs.
use rustypaste.Prelude.{ℕ, ◌+◌, ◌||◌, Bool, is_some, leb, count_where, delete_where}
use rustypaste.Store.Base.{Clock, unix_now, ok}
use rustypaste.Store.Schema.{CredentialRow, Tx, ◌>>=◌, ◌>>◌, pure, lift, gets, modify, transaction}
use rustypaste.Store.Credentials.{browser_session, api_token, change_rows}
use rustypaste.Store.OauthFlows.{purge_flows}
use rustypaste.Store.DeviceFlows.{purge_devices}

-- WHERE revoked_at IS NOT NULL OR expires_at <= ?
abbrev pub is_dead : ℕ → CredentialRow → Bool
is_dead now r = is_some r.revoked_at || leb r.expires_at now

unfoldable pub purge_expired : Clock → Tx ℕ
purge_expired clock = do
  now ← lift (unix_now clock)
  transaction (do
    sessions ← gets (λ db. count_where (is_dead now) db.browser_sessions.rows)
    modify (change_rows browser_session (delete_where (is_dead now)))
    tokens ← gets (λ db. count_where (is_dead now) db.api_tokens.rows)
    modify (change_rows api_token (delete_where (is_dead now)))
    flows ← gets (λ db. count_where (λ r. leb r.expires_at now) db.oauth_flows.rows)
    modify (purge_flows now)
    devices ← gets (λ db. count_where (λ r. leb r.expires_at now) db.cli_device_flows.rows)
    modify (purge_devices now)
    pure (ok (sessions + tokens + flows + devices)))
