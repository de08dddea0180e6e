-- ===== src/Store/DeviceFlows/Admission.antt =====
-- src/store.rs: the number of device logins that wait for delivery is bounded.
use rustypaste.Prelude.{
  ℕ, zero, suc, ◌+◌, ◌≤◌, inl, inr, List, [], ◌∷◌, Text, All-Unit, count_where,
  count_where-keep_where, count_where-append, count_where-update_where, arith, leb, not,
}
use rustypaste.Store.Base.{
  Result, Crypto, AuthStore, Duration, Random, generate_secret, generate_user_code, Result-cases,
  max_active_device_flows,
}
use rustypaste.Store.Schema.{Db, Tx, DeviceFlowRow, empty_db}
use rustypaste.Store.Keeps.{Keeps, keeps_rules}
use rustypaste.Store.OauthFlows.{ReturnUrls}
use rustypaste.Store.Calls.{Call, start_device, approve_device, run_all, run_all_induction}
use rustypaste.Store.DeviceFlows.{
  DeviceAuthorization, is_active, is_approvable, approved_row, purge_devices, device_row,
  start_round, start_rounds, admit_device, start_device_flow,
}
use rustypaste.Store.DeviceFlows.Poll.{is_claimable, polled_row, delivered_row, has_id}
use rustypaste.Store.DeviceFlows.Rows.{On, Deletes, approve_device_flow-On}
use rustypaste.Store.DeviceFlows.Calls.{Allows, run-On}

abbrev active : Db → ℕ
active db = count_where is_active db.cli_device_flows.rows

abbrev pub IsBounded : List DeviceFlowRow → Type 0
IsBounded rs = count_where is_active rs ≤ max_active_device_flows

module _ (crypto : Crypto) (name : Text) (now expires_at poll_seconds : ℕ)
    (interval : Duration) where
  start_round_adds :
      (a b : Random) (again : Tx (Result DeviceAuthorization)) (db : Db)
      → active (again db).1 ≤ active db + 1
      → active (start_round crypto name now expires_at poll_seconds interval (a, b) again db).1
        ≤ active db + 1
  unfolding start_round
  start_round_adds a b again db h = elim (Result-cases (generate_secret crypto a)) [
    | inr (e, failed) ↦ ground arith
    | inl (code, made) ↦ elim (Result-cases (generate_user_code b)) [
      | inr (e, failed) ↦ ground arith
      | inl (user_code, drawn) ↦
          let row =
            device_row db.cli_device_flows.next_id (crypto.sha256 code) user_code name now
              expires_at poll_seconds in
          ground (arith, count_where-append is_active db.cli_device_flows.rows (row ∷ []))
    ]
  ]

  start_rounds_adds :
      (draws : ℕ → Random × Random) (n : ℕ) (db : Db)
      → active (start_rounds crypto name now expires_at poll_seconds interval draws n db).1
        ≤ active db + 1
  unfolding start_rounds
  start_rounds_adds draws zero db = omega arith
  start_rounds_adds draws (suc n) db =
      start_round_adds (draws n).0 (draws n).1 _ db (start_rounds_adds draws n db)

  admit_device-IsBounded :
      (draws : ℕ → Random × Random)
      → Keeps (On IsBounded) (admit_device crypto draws name now expires_at poll_seconds interval)
  unfolding admit_device
  admit_device-IsBounded draws = record {
    at = λ db h.
        let purged =
          count_where-keep_where is_active (λ r. not (leb r.expires_at now))
            db.cli_device_flows.rows in
        ground (arith, purged, start_rounds_adds draws 4 (purge_devices now db));
  }

deletes-IsBounded : Deletes IsBounded
deletes-IsBounded p rs h = omega (arith, count_where-keep_where is_active (λ r. not (p r)) rs)

Allows-IsBounded : (crypto : Crypto) (c : Call) → Allows crypto IsBounded c
Allows-IsBounded crypto (start_device draws name lifetime interval clock) =
    unfold start_device_flow in search (keeps_rules, admit_device-IsBounded) depth 14
Allows-IsBounded crypto (approve_device user_code principal_id clock) =
    approve_device_flow-On IsBounded user_code principal_id clock λ user_code now rs h. omega (
      arith,
      count_where-update_where is_active (is_approvable user_code now)
          (approved_row principal_id now) rs (λ r o. o),
    )
Allows-IsBounded crypto _ = tt

-- From an empty database, after any calls, at most 10000 device logins wait for delivery.
pub device_flows_bounded :
    (crypto : Crypto) (urls : ReturnUrls) (self : AuthStore) (calls : List Call)
    → count_where is_active (run_all crypto urls self calls empty_db).cli_device_flows.rows ≤ 10000
device_flows_bounded crypto urls self calls =
    run_all_induction crypto urls self (On IsBounded) (λ _. Unit {0})
      (λ c db _.
        run-On crypto urls self IsBounded deletes-IsBounded
          (λ now id rs h.
            omega (
              arith,
              count_where-update_where is_active (has_id id) (polled_row now) rs (λ r o. o),
            ))
          (λ now id rs h. omega (
            arith,
            count_where-update_where is_active (is_claimable id) (delivered_row now) rs
                (λ r o. ground arith),
          ))
          c db (Allows-IsBounded crypto c))
      calls empty_db (All-Unit calls) (omega arith)
