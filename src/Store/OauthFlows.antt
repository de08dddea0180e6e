-- ===== src/Store/OauthFlows.antt =====
-- src/store.rs: OIDC login transactions, admitted up to a bound and consumed once.
pub mod Rows
pub mod Once
pub mod Admission
use rustypaste.Prelude.{
  ℕ, ◌+◌, Bool, not, ◌&&◌, ◌||◌, Option, none, some, List, Text, codes, map, text_eq, is_empty,
  is_control, starts_with, ◌==◌, leb, ltb, any, length, delete_where, find_where, if◌then◌else◌,
}
use rustypaste.Store.Base.{
  Result, ok, err, database, unique_violation, invalid_input, capacity_exceeded, Duration, Clock,
  unix_now, expiry_from, Crypto, max_active_oauth_flows,
}
use rustypaste.Store.Schema.{
  OauthFlowRow, Db, oauth_clash, insert_row, with_rows, Tx, ◌>>=◌, ◌>>◌, pure, raise, lift, gets,
  modify, transaction, with_option,
}

-- What the program asks of the `url` crate: the origin of https://rustypaste.invalid/, and that of
-- a reference joined to it, where the reference can be joined.
pub record ReturnUrls : Type 0 where
  pub base_origin : Text
  pub join_origin : Text → Option Text

abbrev to_ascii_lowercase : ℕ → ℕ
to_ascii_lowercase c = if leb b'A' c && leb c b'Z' then c + 32 else c

abbrev return_to_error : Result (Unit {0})
return_to_error = err (invalid_input "return_to must be a relative same-origin path")

-- the tests on the text of `validate_return_to`
unfoldable pub is_suspicious : Text → Bool
is_suspicious return_to =
    let lowercase = map to_ascii_lowercase return_to in
    not (starts_with return_to (codes "/"))
    || starts_with return_to (codes "//")
    || starts_with lowercase (codes "/%2f")
    || starts_with lowercase (codes "/%5c")
    || any (λ c. c == 92) return_to
    || any is_control return_to

abbrev check_origin : ReturnUrls → Option Text → Result (Unit {0})
check_origin urls none = return_to_error
check_origin urls (some origin) = if text_eq origin urls.base_origin then ok tt else return_to_error

unfoldable pub validate_return_to : ReturnUrls → Text → Result (Unit {0})
unfolding is_suspicious
validate_return_to urls return_to =
    if is_suspicious return_to
    then return_to_error
    else check_origin urls (urls.join_origin return_to)

abbrev pub change_flows : (List OauthFlowRow → List OauthFlowRow) → Db → Db
change_flows f db = record db { oauth_flows = with_rows db.oauth_flows (f db.oauth_flows.rows) }

-- DELETE FROM oauth_flows WHERE expires_at <= ?
abbrev pub purge_flows : ℕ → Db → Db
purge_flows now = change_flows (delete_where (λ r. leb r.expires_at now))

unfoldable pub insert_flow : OauthFlowRow → Tx (Unit {0})
insert_flow row = do
  changed ← gets (λ db. insert_row oauth_clash row db.oauth_flows)
  with_option changed (raise (database unique_violation))
      (λ t. do modify (λ db. record db { oauth_flows = t }); pure tt)

abbrev pub oauth_row :
    Crypto
    → (id : ℕ) (state code_verifier nonce return_to : Text) (now expires_at : ℕ) → OauthFlowRow
oauth_row crypto id state code_verifier nonce return_to now expires_at = record {
  id = id;
  state_hash = crypto.sha256 state;
  code_verifier = code_verifier;
  nonce = nonce;
  return_to = return_to;
  created_at = now;
  expires_at = expires_at;
}

-- The transaction of `store_oauth_flow`.
unfoldable pub admit_oauth :
    Crypto → (state code_verifier nonce return_to : Text) (now expires_at : ℕ) → Tx ℕ
admit_oauth crypto state code_verifier nonce return_to now expires_at = transaction (do
  modify (purge_flows now)
  active ← gets (λ db. length db.oauth_flows.rows)
  if leb max_active_oauth_flows active
      then pure (err (capacity_exceeded "too many active OAuth login flows; try again later"))
      else (do
        id ← gets (λ db. db.oauth_flows.next_id)
        insert_flow (oauth_row crypto id state code_verifier nonce return_to now expires_at)
        pure (ok expires_at)))

unfoldable pub store_oauth_flow :
    Crypto → ReturnUrls → (state code_verifier nonce return_to : Text) → Duration → Clock → Tx ℕ
store_oauth_flow crypto urls state code_verifier nonce return_to lifetime clock =
    if is_empty state || is_empty code_verifier || is_empty nonce
    then raise (invalid_input "OAuth state, PKCE verifier, and nonce cannot be empty")
    else do
      lift (validate_return_to urls return_to)
      now ← lift (unix_now clock)
      expires_at ← lift (expiry_from now lifetime)
      admit_oauth crypto state code_verifier nonce return_to now expires_at

pub record OAuthFlow : Type 0 where
  pub code_verifier : Text
  pub nonce : Text
  pub return_to : Text

-- WHERE state_hash = ? AND expires_at > ?
abbrev pub is_consumable : List ℕ → ℕ → OauthFlowRow → Bool
is_consumable hash now r = text_eq r.state_hash hash && ltb now r.expires_at

abbrev flow_of : Option OauthFlowRow → Option OAuthFlow
flow_of none = none
flow_of (some r) =
    some (record { code_verifier = r.code_verifier; nonce = r.nonce; return_to = r.return_to })

unfoldable pub consume_oauth_flow : Crypto → Text → Clock → Tx (Option OAuthFlow)
consume_oauth_flow crypto state clock = if is_empty state then pure none else do
  now ← lift (unix_now clock)
  let test = is_consumable (crypto.sha256 state) now
  row ← gets (λ db. find_where test db.oauth_flows.rows)
  modify (change_flows (delete_where test))
  pure (flow_of row)
