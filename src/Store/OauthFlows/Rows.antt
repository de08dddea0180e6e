-- ===== src/Store/OauthFlows/Rows.antt =====
-- What the calls of src/store.rs do to the rows of oauth_flows, as rules for a property `Q` of the
-- rows.
use rustypaste.Prelude.{ℕ, ◌≡◌, false, Bool, List, [], ◌∷◌, ◌++◌, Text, any, delete_where}
use rustypaste.Store.Base.{ok, Crypto, AuthStore, Duration, Clock, unix_now, expiry_from}
use rustypaste.Store.Schema.{Db, OauthFlowRow, oauth_clash}
use rustypaste.Store.Keeps.{
  Keeps, Keeps-pure, Keeps-raise, Keeps-lift, Keeps-if, Keeps-bind, Keeps-bind-lift, Keeps-insert,
  keeps_rules,
}
use rustypaste.Store.OauthFlows.{
  ReturnUrls, validate_return_to, oauth_row, insert_flow, admit_oauth, store_oauth_flow,
  consume_oauth_flow,
}
use rustypaste.Store.Purge.{purge_expired}
use rustypaste.Store.Calls.{Call, store_oauth, consume_oauth, purge, run}
use rustypaste.Store.Credentials.{CredentialTable, browser_session, api_token}
use rustypaste.Store.Calls.Tables.{FreeCredentials, run-Free}

abbrev pub On : (List OauthFlowRow → Type 0) → Db → Type 0
On Q db = Q db.oauth_flows.rows

abbrev pub Deletes : (List OauthFlowRow → Type 0) → Type 0
Deletes Q = (p : OauthFlowRow → Bool) (rs : List OauthFlowRow) → Q rs → Q (delete_where p rs)

-- A row that clashes with none, with a return address that was validated, is added.
abbrev pub Inserts : Crypto → ReturnUrls → Text → (List OauthFlowRow → Type 0) → Type 0
Inserts crypto urls state Q =
    (id : ℕ) (code_verifier nonce return_to : Text) (now expires_at : ℕ) (rs : List OauthFlowRow)
    → validate_return_to urls return_to ≡ ok tt
    → any (oauth_clash (oauth_row crypto id state code_verifier nonce return_to now expires_at)) rs
      ≡ false
    → Q rs
    → Q (rs ++ oauth_row crypto id state code_verifier nonce return_to now expires_at ∷ [])

-- What the call that inserts must keep, and is free to use its arguments for.
abbrev pub Allows : Crypto → ReturnUrls → (List OauthFlowRow → Type 0) → Call → Type 0
Allows crypto urls Q (store_oauth state code_verifier nonce return_to lifetime clock) =
    Keeps (On Q) (store_oauth_flow crypto urls state code_verifier nonce return_to lifetime clock)
Allows crypto urls Q _ = Unit

module _ (crypto : Crypto) (urls : ReturnUrls) (Q : List OauthFlowRow → Type 0)
    (deletes : Deletes Q) where
  insert_flow-On :
      (state code_verifier nonce return_to : Text) (now expires_at id : ℕ)
      → Inserts crypto urls state Q
      → validate_return_to urls return_to ≡ ok tt
      → Keeps
          (On Q)
          (insert_flow (oauth_row crypto id state code_verifier nonce return_to now expires_at))
  unfolding insert_flow
  insert_flow-On state code_verifier nonce return_to now expires_at id ins valid =
      Keeps-insert oauth_clash _ (λ db. db.oauth_flows) (λ t db. record db { oauth_flows = t }) _ _
        (Keeps-raise _)
        (λ db new h.
          ins id code_verifier nonce return_to now expires_at db.oauth_flows.rows valid new h)
        (Keeps-pure tt)

  admit_oauth-On :
      (state code_verifier nonce return_to : Text) (now expires_at : ℕ)
      → Inserts crypto urls state Q
      → validate_return_to urls return_to ≡ ok tt
      → Keeps (On Q) (admit_oauth crypto state code_verifier nonce return_to now expires_at)
  unfolding admit_oauth
  admit_oauth-On state code_verifier nonce return_to now expires_at ins valid =
      let insert = λ (id : ℕ).
        insert_flow-On state code_verifier nonce return_to now expires_at id ins valid in
      search (keeps_rules, insert, deletes) depth 14

  pub store_oauth_flow-On :
      (state code_verifier nonce return_to : Text) (lifetime : Duration) (clock : Clock)
      → Inserts crypto urls state Q
      → Keeps
          (On Q)
          (store_oauth_flow crypto urls state code_verifier nonce return_to lifetime clock)
  unfolding store_oauth_flow
  store_oauth_flow-On state code_verifier nonce return_to lifetime clock ins =
      Keeps-if _ _ _ (Keeps-raise _) (
        Keeps-bind-lift (validate_return_to urls return_to) _ λ u valid.
          Keeps-bind _ _ (Keeps-lift (unix_now clock)) λ now.
            Keeps-bind _ _ (Keeps-lift (expiry_from now lifetime)) λ expires_at.
              admit_oauth-On state code_verifier nonce return_to now expires_at ins valid)

  pub consume_oauth_flow-On :
      (state : Text) (clock : Clock) → Keeps (On Q) (consume_oauth_flow crypto state clock)
  unfolding consume_oauth_flow
  consume_oauth_flow-On state clock = search (keeps_rules, deletes) depth 10

  purge_expired-On : (clock : Clock) → Keeps (On Q) (purge_expired clock)
  unfolding purge_expired
  purge_expired-On clock = search (keeps_rules, deletes) depth 14

  other_table : (table : CredentialTable) → FreeCredentials table (On Q)
  other_table browser_session = λ t db h. h
  other_table api_token = λ t db h. h

  pub run-On :
      (self : AuthStore) (c : Call) (db : Db)
      → Allows crypto urls Q c
      → On Q db
      → On Q (run crypto urls self c db)
  run-On self (store_oauth state code_verifier nonce return_to lifetime clock) db a =
      unfold run in a.at db
  run-On self (consume_oauth state clock) db a =
      unfold run in (consume_oauth_flow-On state clock).at db
  run-On self (purge clock) db a = unfold run in (purge_expired-On clock).at db
  run-On self c db a = run-Free crypto urls self (On Q) c db (search other_table)
