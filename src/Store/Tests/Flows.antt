-- ===== src/Store/Tests/Flows.antt =====
-- Examples of OIDC login transactions, src/store.rs.
use rustypaste.Prelude.{ℕ, ◌≡◌, refl, true, ◌&&◌, none, some, List, [], ◌∷◌, codes, leb, arith}
use rustypaste.Store.Base.{unix_now, duration_seconds, expiry_from, ok}
use rustypaste.Store.Calls.{run, run_all, Call, store_oauth}
use rustypaste.Store.OauthFlows.{
  store_oauth_flow, admit_oauth, insert_flow, validate_return_to, is_suspicious, consume_oauth_flow,
  OAuthFlow,
}
use rustypaste.Store.OauthFlows.Once.{consumed_once}
use rustypaste.Store.Schema.{empty_db, Db}
use rustypaste.Store.Tests.{crypto, hour, self, urls}

abbrev before : List Call
before =
    store_oauth (codes "state") (codes "verifier") (codes "nonce") (codes "/list") hour (some 1000)
    ∷ []

abbrev after : List Call
after =
    store_oauth (codes "other") (codes "verifier") (codes "nonce") (codes "/") hour (some 1002) ∷ []

abbrev db : Db
db = run_all crypto urls self before empty_db

clock_read : (now : ℕ) → leb now 9223372036854775807 ≡ true → unix_now (some now) ≡ ok now
unfolding unix_now
clock_read now h = ground arith

consumed_once_example :
    (consume_oauth_flow crypto (codes "state") (some 1003) (
      run_all crypto urls self after
        (consume_oauth_flow crypto (codes "state") (some 1001) db).1)).0
    ≡ ok none
consumed_once_example =
    consumed_once crypto urls self (codes "state") (some 1001) (some 1003) 1001 1003 db after
      (clock_read 1001 refl) (clock_read 1003 refl) (omega arith) (refl, tt)

abbrev flow : OAuthFlow
flow = record { code_verifier = codes "verifier"; nonce = codes "nonce"; return_to = codes "/list" }

consumed : (consume_oauth_flow crypto (codes "state") (some 1001) db).0 ≡ ok (some flow)
unfolding run run_all unix_now duration_seconds expiry_from store_oauth_flow admit_oauth insert_flow
    validate_return_to is_suspicious consume_oauth_flow
consumed = refl

accepted : validate_return_to urls (codes "/list") ≡ ok tt
unfolding run run_all unix_now duration_seconds expiry_from store_oauth_flow admit_oauth insert_flow
    validate_return_to is_suspicious consume_oauth_flow
accepted = refl

-- Addresses that would lead elsewhere are refused.
refused :
    (is_suspicious (codes "//evil.example")
      && is_suspicious (codes "/%2F/evil.example")
      && is_suspicious (codes "https://evil.example"))
    ≡ true
unfolding is_suspicious
refused = refl
