-- ===== src/Store/Tests/Devices.antt =====
-- Examples of device logins, src/store.rs.
use Prim.Native.Nat.{◌≤◌}
use mathlib.Core.Path.{subst}
use rustypaste.Prelude.{
  ℕ, ◌≡◌, ◌≢◌, refl, false, true, none, some, List, [], ◌∷◌, Text, text_eq, codes, All, count_where,
  ◌==◌, arith,
}
use rustypaste.Store.Base.{
  unix_now, duration_seconds, expiry_from, generate_secret, generate_user_code, compact_code,
  normalize_user_code, Random, ok,
}
use rustypaste.Store.Calls.{run, run_all, Call, name_principal, start_device, approve_device}
use rustypaste.Store.Credentials.{
  store_credential, insert_credential, prune_credentials, prune_rows, kept_ids, IssuedCredential,
}
use rustypaste.Store.DeviceFlows.{
  start_device_flow, admit_device, start_rounds, start_round, approve_device_flow, is_active,
}
use rustypaste.Store.DeviceFlows.Admission.{device_flows_bounded}
use rustypaste.Store.DeviceFlows.Approval.{delivered_to_approver}
use rustypaste.Store.DeviceFlows.Once.{AvoidsDigest, delivered_once}
use rustypaste.Store.DeviceFlows.Poll.{poll_device_flow, poll_row, claim, deliver, authorized}
use rustypaste.Store.Principals.{
  upsert_service_principal, upsert_named_principal, upsert, as_str, from_str, principal_from_row,
  Principal, service,
}
use rustypaste.Store.Schema.{empty_db}
use rustypaste.Store.Tests.{crypto, hour, self, urls, secret_a, secret_b}
use rustypaste.Store.UserCodes.{generated_code_is_normal}

abbrev draws : ℕ → Random × Random
draws i = (some (codes "device"), some (0 ∷ 1 ∷ 2 ∷ 3 ∷ 4 ∷ 5 ∷ 6 ∷ 7 ∷ []))

abbrev other_draws : ℕ → Random × Random
other_draws i = (some (codes "other"), some (9 ∷ 1 ∷ 2 ∷ 3 ∷ 4 ∷ 5 ∷ 6 ∷ 7 ∷ []))

-- A login is started and approved.
abbrev before : List Call
before =
    name_principal service (codes "ci") false false (some 1000)
    ∷ start_device draws (codes "cli") hour (record { as_secs = 5; subsec_nanos = 0 }) (some 1000)
    ∷ approve_device (codes "2345-6789") 1 (some 1001)
    ∷ []

-- Another one is started and approved.
abbrev after : List Call
after =
    start_device other_draws (codes "cli") hour (record { as_secs = 5; subsec_nanos = 0 })
      (some 1002)
    ∷ approve_device (codes "B345-6789") 1 (some 1003)
    ∷ []

abbrev ci : Principal
ci = record {
  id = 1;
  kind = service;
  issuer = none;
  subject = none;
  stable_name = some (codes "ci");
  email = none;
  display_name = none;
  is_admin = false;
  can_delete_all = false;
  created_at = 1000;
  last_seen_at = 1000;
}

abbrev token : IssuedCredential
token = record { id = 1; secret = codes "secret-a"; expires_at = 4602 }

answered :
    (poll_device_flow crypto self
      (codes "device")
      none
      secret_a
      (some 1002)
      (run_all crypto urls self before empty_db)).0
    ≡ ok (authorized ci token)
unfolding run run_all upsert_service_principal upsert_named_principal upsert as_str from_str
    principal_from_row unix_now duration_seconds expiry_from generate_secret generate_user_code
    compact_code normalize_user_code start_device_flow admit_device start_rounds start_round
    approve_device_flow poll_device_flow poll_row claim deliver store_credential insert_credential
    prune_credentials prune_rows kept_ids
answered = refl

other_digests : All (AvoidsDigest crypto (codes "device")) after
unfolding generate_secret
other_digests = (
  (λ i code e. subst (λ c. text_eq c (codes "device") ≡ false) (some_code code e) refl),
  (tt, tt),
)
  where
    some_code :
        (code : Text)
        → generate_secret crypto (some (codes "other")) ≡ ok code
        → codes "other" ≡ code
    some_code code e = ground arith

delivered_once_example :
    (poll_device_flow crypto self (codes "device") none secret_b (some 1100) (
      run_all crypto urls self after
        (poll_device_flow crypto self
          (codes "device")
          none
          secret_a
          (some 1002)
          (run_all crypto urls self before empty_db)).1)).0
    ≢ ok (authorized ci token)
delivered_once_example =
    delivered_once crypto urls self before after (codes "device") none none secret_a secret_b
      (some 1002) (some 1100) ci ci token token answered other_digests

delivered_to_approver_example : (ci.id == 1) ≡ true
delivered_to_approver_example =
    delivered_to_approver (λ id. id == 1) crypto urls self before (codes "device") none secret_a
      (some 1002) ci token (tt, (tt, (refl, tt))) answered

drawn : generate_user_code (some (0 ∷ 1 ∷ 2 ∷ 3 ∷ 4 ∷ 5 ∷ 6 ∷ 7 ∷ [])) ≡ ok (codes "2345-6789")
unfolding generate_user_code
drawn = refl

generated_code_is_normal_example : normalize_user_code (codes "2345-6789") ≡ codes "2345-6789"
generated_code_is_normal_example =
    generated_code_is_normal (0 ∷ 1 ∷ 2 ∷ 3 ∷ 4 ∷ 5 ∷ 6 ∷ 7 ∷ []) (codes "2345-6789") refl drawn

-- A code is found however it is typed.
typed : normalize_user_code (codes " 2345 67-89 ") ≡ codes "2345-6789"
unfolding normalize_user_code compact_code
typed = refl

device_flows_bounded_example :
    count_where is_active (run_all crypto urls self before empty_db).cli_device_flows.rows ≤ 10000
device_flows_bounded_example = device_flows_bounded crypto urls self before
