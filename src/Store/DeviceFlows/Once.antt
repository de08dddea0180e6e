-- ===== src/Store/DeviceFlows/Once.antt =====
-- src/store.rs: whatever calls come between, a device code is answered with a token at most once.
use rustypaste.Prelude.{
  ℕ, ◌≡◌, ◌≢◌, false, Option, List, [], ◌∷◌, Text, All, All-Unit, text_eq, text_eq_comm, any,
  any-append, any-keep_where, any-update_where, Distinct, Distinct-keep_where,
  Distinct-update_where, Distinct-append, arith,
}
use rustypaste.Store.Base.{Crypto, AuthStore, Random, Clock, ok, generate_secret}
use rustypaste.Store.Schema.{Db, DeviceFlowRow, device_clash, empty_db}
use rustypaste.Store.Principals.{Principal}
use rustypaste.Store.Credentials.{IssuedCredential}
use rustypaste.Store.OauthFlows.{ReturnUrls}
use rustypaste.Store.Calls.{Call, start_device, approve_device, run, run_all, run_all_induction}
use rustypaste.Store.DeviceFlows.{device_row, is_approvable, approved_row}
use rustypaste.Store.DeviceFlows.Poll.{
  authorized, is_claimable, polled_row, delivered_row, has_id, poll_device_flow,
}
use rustypaste.Store.DeviceFlows.Rows.{On, Deletes, start_device_flow-On, approve_device_flow-On}
use rustypaste.Store.DeviceFlows.Calls.{Allows, run-On}
use rustypaste.Store.DeviceFlows.Delivery.{is_open, IsSpent, spent_poll, poll_spends}

-- No call starts a device login whose random code has the given digest again.
abbrev pub AvoidsDigest : Crypto → List ℕ → Call → Type 0
AvoidsDigest crypto hash (start_device draws _ _ _ _) =
    (i : ℕ) (code : Text)
    → generate_secret crypto (draws i).0 ≡ ok code
    → text_eq (crypto.sha256 code) hash ≡ false
AvoidsDigest crypto hash _ = Unit

-- The digests and the user codes of the flows are distinct: the UNIQUE constraints.
abbrev pub HasDistinctCodes : List DeviceFlowRow → Type 0
HasDistinctCodes rs = Distinct device_clash rs

device_clash_comm : (a b : DeviceFlowRow) → device_clash a b ≡ device_clash b a
device_clash_comm a b = ground (
  arith,
  text_eq_comm a.device_code_hash b.device_code_hash,
  text_eq_comm a.user_code b.user_code,
)

deletes-HasDistinctCodes : Deletes HasDistinctCodes
deletes-HasDistinctCodes p rs h = Distinct-keep_where device_clash _ rs h

Allows-HasDistinctCodes : (crypto : Crypto) (c : Call) → Allows crypto HasDistinctCodes c
Allows-HasDistinctCodes crypto (start_device draws name lifetime interval clock) =
    start_device_flow-On HasDistinctCodes deletes-HasDistinctCodes crypto draws name lifetime
      interval clock
      λ i code e id user_code name now expires_at poll_seconds rs new h.
        Distinct-append device_clash device_clash_comm rs _ h new
Allows-HasDistinctCodes crypto (approve_device user_code principal_id clock) =
    approve_device_flow-On HasDistinctCodes user_code principal_id clock λ user_code now rs h.
      Distinct-update_where device_clash (is_approvable user_code now)
        (approved_row principal_id now) rs (λ a b k. ground arith) h
Allows-HasDistinctCodes crypto _ = tt

-- the rows of which none is open for a digest
abbrev AllSpent : List ℕ → List DeviceFlowRow → Type 0
AllSpent hash rs = any (is_open hash) rs ≡ false

deletes-AllSpent : (hash : List ℕ) → Deletes (AllSpent hash)
deletes-AllSpent hash p rs h = any-keep_where (is_open hash) _ rs h

Allows-AllSpent :
    (crypto : Crypto) (hash : List ℕ) (c : Call)
    → AvoidsDigest crypto hash c
    → Allows crypto (AllSpent hash) c
Allows-AllSpent crypto hash (start_device draws name lifetime interval clock) avoids =
    start_device_flow-On (AllSpent hash) (deletes-AllSpent hash) crypto draws name lifetime interval
      clock
      λ i code e id user_code name now expires_at poll_seconds rs new h.
        let row = device_row id (crypto.sha256 code) user_code name now expires_at poll_seconds in
        ground (arith, avoids i code e, any-append (is_open hash) rs (row ∷ []))
Allows-AllSpent crypto hash (approve_device user_code principal_id clock) avoids =
    approve_device_flow-On (AllSpent hash) user_code principal_id clock λ user_code now rs h.
      any-update_where (is_open hash) (is_approvable user_code now) (approved_row principal_id now)
        rs (λ r o. o) h
Allows-AllSpent crypto hash _ avoids = tt

module _ (crypto : Crypto) (urls : ReturnUrls) (self : AuthStore) where
  pub run-HasDistinctCodes :
      (c : Call) (db : Db)
      → On HasDistinctCodes db
      → On HasDistinctCodes (run crypto urls self c db)
  run-HasDistinctCodes c db =
      run-On crypto urls self HasDistinctCodes deletes-HasDistinctCodes
        (λ now id rs h.
          Distinct-update_where device_clash (has_id id) (polled_row now) rs (λ a b k. ground arith)
            h)
        (λ now id rs h.
          Distinct-update_where device_clash (is_claimable id) (delivered_row now) rs
            (λ a b k. ground arith) h)
        c db (Allows-HasDistinctCodes crypto c)

  run-IsSpent :
      (hash : List ℕ) (c : Call) (db : Db)
      → AvoidsDigest crypto hash c
      → IsSpent hash db
      → IsSpent hash (run crypto urls self c db)
  run-IsSpent hash c db avoids =
      run-On crypto urls self (AllSpent hash) (deletes-AllSpent hash)
        (λ now id rs h.
          any-update_where (is_open hash) (has_id id) (polled_row now) rs (λ r o. o) h)
        (λ now id rs h.
          any-update_where (is_open hash) (is_claimable id) (delivered_row now) rs
            (λ r o. ground arith) h)
        c db (Allows-AllSpent crypto hash c avoids)

  -- From an empty database, after any calls, a poll that answers a token is the only one for its
  -- device code: after any further calls, none of which starts a login whose random code has the
  -- same digest, no poll of the code answers a token, whatever its clock and randomness.
  pub delivered_once :
      (before after : List Call) (code : Text) (label label' : Option Text)
      (random random' : Random) (clock clock' : Clock) (p p' : Principal) (c c' : IssuedCredential)
      → (poll_device_flow crypto self code label random clock
          (run_all crypto urls self before empty_db)).0
        ≡ ok (authorized p c)
      → All (AvoidsDigest crypto (crypto.sha256 code)) after
      → (poll_device_flow crypto self code label' random' clock' (
          run_all crypto urls self after
            (poll_device_flow crypto self code label random clock
              (run_all crypto urls self before empty_db)).1)).0
        ≢ ok (authorized p' c')
  delivered_once before after code label label' random random' clock clock' p p' c c' e avoids =
      let db = run_all crypto urls self before empty_db in
      let codes =
        run_all_induction crypto urls self (On HasDistinctCodes) (λ _. Unit {0})
          (λ c db _ h. run-HasDistinctCodes c db h) before empty_db (All-Unit before) tt in
      let spent = poll_spends crypto self label random code clock db p c codes e in
      spent_poll crypto self label' random' code clock' _ p' c' (
        run_all_induction crypto urls self (IsSpent (crypto.sha256 code))
          (AvoidsDigest crypto (crypto.sha256 code)) (λ c db. run-IsSpent (crypto.sha256 code) c db)
          after _ avoids spent)
