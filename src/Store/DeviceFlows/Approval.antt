-- ===== src/Store/DeviceFlows/Approval.antt =====
-- src/store.rs: a token goes to a principal that approved the login, and to no other.
use rustypaste.Prelude.{
  ℕ, ◌≡◌, refl, inl, inr, Bool, true, false, not, Option, none, some, List, [], ◌∷◌, Text, All,
  text_eq, any, any-append, any-keep_where, any-update_where, any-find_where, find_where,
  find_where-holds, Option-cases, ◌==◌, arith,
}
use rustypaste.Store.Base.{Crypto, AuthStore, Random, Clock, ok, unix_now, Result-cases}
use rustypaste.Store.Schema.{Db, DeviceFlowRow, PrincipalRow, empty_db}
use rustypaste.Store.Principals.{Principal, principal_from_row}
use rustypaste.Store.Credentials.{IssuedCredential}
use rustypaste.Store.OauthFlows.{ReturnUrls}
use rustypaste.Store.Calls.{Call, start_device, approve_device, run_all, run_all_induction}
use rustypaste.Store.DeviceFlows.{is_approvable, approved_row, device_row}
use rustypaste.Store.DeviceFlows.Poll.{
  authorized, is_claimable, polled_row, delivered_row, has_id, mark_polled, mark_delivered, deliver,
  claim, poll_row, poll_device_flow,
}
use rustypaste.Store.DeviceFlows.Rows.{On, Deletes, start_device_flow-On, approve_device_flow-On}
use rustypaste.Store.DeviceFlows.Calls.{Allows, run-On}

-- the approver, where there is one, is none that `good` accepts
abbrev pub is_misapproved : (ℕ → Bool) → DeviceFlowRow → Bool
is_misapproved good r = elim r.approved_principal_id [ none ↦ false | some id ↦ not (good id) ]

-- A call that approves does so for a principal that `good` accepts.
abbrev pub ApprovesFor : (ℕ → Bool) → Call → Type 0
ApprovesFor good (approve_device user_code principal_id clock) = good principal_id ≡ true
ApprovesFor good _ = Unit

abbrev AllApproved : (ℕ → Bool) → List DeviceFlowRow → Type 0
AllApproved good rs = any (is_misapproved good) rs ≡ false

module _ (good : ℕ → Bool) where
  deletes-AllApproved : Deletes (AllApproved good)
  deletes-AllApproved p rs h = any-keep_where (is_misapproved good) _ rs h

  Allows-AllApproved :
      (crypto : Crypto) (c : Call) → ApprovesFor good c → Allows crypto (AllApproved good) c
  Allows-AllApproved crypto (start_device draws name lifetime interval clock) a =
      start_device_flow-On (AllApproved good) deletes-AllApproved crypto draws name lifetime
        interval clock
        λ i code e id user_code name now expires_at poll_seconds rs new h.
          let row = device_row id (crypto.sha256 code) user_code name now expires_at poll_seconds in
          ground (arith, any-append (is_misapproved good) rs (row ∷ []))
  Allows-AllApproved crypto (approve_device user_code principal_id clock) a =
      approve_device_flow-On (AllApproved good) user_code principal_id clock λ user_code now rs h.
        any-update_where (is_misapproved good) (is_approvable user_code now)
          (approved_row principal_id now) rs (λ r o. ground arith) h
  Allows-AllApproved crypto _ a = tt

  module _ (crypto : Crypto) (self : AuthStore) (label : Option Text) (random : Random) where
    deliver_to :
        (now principal_id : ℕ) (db : Db) (p : Principal) (c : IssuedCredential)
        → (deliver crypto self label random now principal_id db).0 ≡ ok (ok (authorized p c))
        → p.id ≡ principal_id
    unfolding deliver principal_from_row
    deliver_to now principal_id db p c e =
        let test = λ (r : PrincipalRow). r.id == principal_id in
        elim (Option-cases (find_where test db.principals.rows)) [
          | inl missing ↦ ground arith
          | inr (row, found) ↦ ground (arith, find_where-holds test db.principals.rows row found)
        ]

    poll_row_to :
        (now : ℕ) (row : DeviceFlowRow) (db : Db) (p : Principal) (c : IssuedCredential)
        → is_misapproved good row ≡ false
        → (poll_row crypto self label random now (some row) db).0 ≡ ok (ok (authorized p c))
        → good p.id ≡ true
    unfolding poll_row claim
    poll_row_to now row db p c h e = elim (Option-cases row.approved_principal_id) [
      | inl waiting ↦ ground arith
      | inr (principal_id, approved) ↦ ground (
        arith,
        deliver_to now principal_id (mark_delivered now row.id (mark_polled now row.id db)) p c,
      )
    ]

    poll_to :
        (code : Text) (clock : Clock) (db : Db) (p : Principal) (c : IssuedCredential)
        → On (AllApproved good) db
        → (poll_device_flow crypto self code label random clock db).0 ≡ ok (authorized p c)
        → good p.id ≡ true
    unfolding poll_device_flow
    poll_to code clock db p c h e = elim (Result-cases (unix_now clock)) [
      | inr (e', failed) ↦ ground arith
      | inl (now, read) ↦
          let test = λ (r : DeviceFlowRow). text_eq r.device_code_hash (crypto.sha256 code) in
          let rows = db.cli_device_flows.rows in
          elim (Option-cases (find_where test rows)) [
            | inl missing ↦ unfold poll_row in ground arith
            | inr (row, found) ↦ ground (
              arith,
              poll_row_to now row db p c
                  (any-find_where test (is_misapproved good) rows row found h),
            )
          ]
    ]

  -- From an empty database, after any calls that approve logins only for principals with `good`, a
  -- poll that answers a token answers it for such a principal. (With a `good` that holds of none:
  -- without an approval no poll answers a token.)
  pub delivered_to_approver :
      (crypto : Crypto) (urls : ReturnUrls) (self : AuthStore) (calls : List Call) (code : Text)
      (label : Option Text) (random : Random) (clock : Clock) (p : Principal) (c : IssuedCredential)
      → All (ApprovesFor good) calls
      → (poll_device_flow crypto self code label random clock
          (run_all crypto urls self calls empty_db)).0
        ≡ ok (authorized p c)
      → good p.id ≡ true
  delivered_to_approver crypto urls self calls code label random clock p c approvals =
      poll_to crypto self label random code clock (run_all crypto urls self calls empty_db) p c (
        run_all_induction crypto urls self (On (AllApproved good)) (ApprovesFor good)
          (λ c db a.
            run-On crypto urls self (AllApproved good) deletes-AllApproved
              (λ now id rs h.
                any-update_where (is_misapproved good) (has_id id) (polled_row now) rs (λ r o. o) h)
              (λ now id rs h.
                any-update_where (is_misapproved good) (is_claimable id) (delivered_row now) rs
                  (λ r o. o) h)
              c db (Allows-AllApproved crypto c a))
          calls empty_db approvals refl)
