-- ===== src/Store/OauthFlows/Admission.antt =====
-- src/store.rs: the number of OIDC login transactions is bounded.
use rustypaste.Prelude.{
  ℕ, ◌≤◌, not, List, [], ◌∷◌, Text, All-every, length, length-append, length-keep_where,
  delete_where, leb, arith,
}
use rustypaste.Store.Base.{Crypto, AuthStore, max_active_oauth_flows}
use rustypaste.Store.Schema.{OauthFlowRow, empty_db}
use rustypaste.Store.Keeps.{Keeps, keeps_rules}
use rustypaste.Store.OauthFlows.{ReturnUrls, oauth_row, insert_flow, admit_oauth, store_oauth_flow}
use rustypaste.Store.Calls.{Call, store_oauth, run_all, run_all_induction}
use rustypaste.Store.OauthFlows.Rows.{On, Deletes, Allows, run-On}

IsBounded : List OauthFlowRow → Type 0
IsBounded rs = length rs ≤ max_active_oauth_flows

admit_oauth-IsBounded :
    (crypto : Crypto) (state code_verifier nonce return_to : Text) (now expires_at : ℕ)
    → Keeps (On IsBounded) (admit_oauth crypto state code_verifier nonce return_to now expires_at)
unfolding admit_oauth insert_flow IsBounded
admit_oauth-IsBounded crypto state code_verifier nonce return_to now expires_at = record {
  at = λ db h.
      let kept = delete_where (λ (r : OauthFlowRow). leb r.expires_at now) db.oauth_flows.rows in
      let row =
        oauth_row crypto db.oauth_flows.next_id state code_verifier nonce return_to now
          expires_at in
      ground (
        arith,
        length-keep_where (λ (r : OauthFlowRow). not (leb r.expires_at now)) db.oauth_flows.rows,
        length-append kept (row ∷ []),
      );
}

deletes-IsBounded : Deletes IsBounded
unfolding IsBounded
deletes-IsBounded p rs h = omega (arith, length-keep_where (λ r. not (p r)) rs)

Allows-IsBounded : (crypto : Crypto) (urls : ReturnUrls) (c : Call) → Allows crypto urls IsBounded c
unfolding store_oauth_flow
Allows-IsBounded crypto urls (store_oauth state a b d lifetime clock) =
    search (keeps_rules, admit_oauth-IsBounded) depth 14
Allows-IsBounded crypto urls _ = tt

-- From an empty database, after any calls, there are at most 10000 OIDC login transactions.
oauth_flows_bounded :
    (crypto : Crypto) (urls : ReturnUrls) (self : AuthStore) (calls : List Call)
    → length (run_all crypto urls self calls empty_db).oauth_flows.rows ≤ 10000
unfolding IsBounded
oauth_flows_bounded crypto urls self calls =
    run_all_induction crypto urls self (On IsBounded) (Allows crypto urls IsBounded)
      (λ c db a. run-On crypto urls IsBounded deletes-IsBounded self c db a) calls empty_db
      (All-every (Allows crypto urls IsBounded) calls (Allows-IsBounded crypto urls)) (omega arith)
