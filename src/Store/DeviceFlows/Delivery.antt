-- ===== src/Store/DeviceFlows/Delivery.antt =====
-- src/store.rs, `poll_device_flow`: a device code is answered with a token once.
use rustypaste.Prelude.{
  ℕ, ◌≡◌, ◌≢◌, ◌∙◌, Bool, true, false, not, ◌&&◌, Option, some, inl, inr, List, Text, text_eq,
  text_eq_iff, text_eq_refl, is_none, any, any_weaken, any-updated, any-update_where, any_unique,
  any-find_where, find_where, find_where-holds, Distinct, Option-cases, ==_refl, arith,
}
use rustypaste.Store.Base.{ok, Crypto, AuthStore, Random, Clock, unix_now, Result-cases}
use rustypaste.Store.Schema.{Db, DeviceFlowRow, device_clash}
use rustypaste.Store.Principals.{Principal}
use rustypaste.Store.Credentials.{IssuedCredential}
use rustypaste.Store.Frame.{deliver-Keeps}
use rustypaste.Store.DeviceFlows.Poll.{
  polled_row, delivered_row, has_id, authorized, is_claimable, mark_polled, mark_delivered, claim,
  poll_row, poll_device_flow,
}
use rustypaste.Store.DeviceFlows.Rows.{On}

-- a flow of the code with this digest that can still be delivered
abbrev pub is_open : List ℕ → DeviceFlowRow → Bool
is_open hash r = text_eq r.device_code_hash hash && is_none r.delivered_at

-- Every flow of the code has been delivered.
abbrev pub IsSpent : List ℕ → Db → Type 0
IsSpent hash = On (λ rs. any (is_open hash) rs ≡ false)

module _ (crypto : Crypto) (self : AuthStore) (label : Option Text) (random : Random) where
  poll_row-IsSpent :
      (hash : List ℕ) (now : ℕ) (row : DeviceFlowRow) (db : Db) (p : Principal)
      (c : IssuedCredential)
      → is_open hash row ≡ false
      → text_eq row.device_code_hash hash ≡ true
      → (poll_row crypto self label random now (some row) db).0 ≢ ok (ok (authorized p c))
  unfolding poll_row
  poll_row-IsSpent hash now row db p c h e = ground arith

  -- A poll of a code that has been delivered answers no token.
  pub spent_poll :
      (code : Text) (clock : Clock) (db : Db) (p : Principal) (c : IssuedCredential)
      → IsSpent (crypto.sha256 code) db
      → (poll_device_flow crypto self code label random clock db).0 ≢ ok (authorized p c)
  unfolding poll_device_flow
  spent_poll code clock db p c h = elim (Result-cases (unix_now clock)) [
    | inr (e, failed) ↦ ground arith
    | inl (now, read) ↦
        let hash = crypto.sha256 code in
        let test = λ (r : DeviceFlowRow). text_eq r.device_code_hash hash in
        let rows = db.cli_device_flows.rows in
        elim (Option-cases (find_where test rows)) [
          | inl missing ↦ unfold poll_row in ground arith
          | inr (row, found) ↦
              let closed = any-find_where test (is_open hash) rows row found h in
              let same = find_where-holds test rows row found in
              ground (arith, poll_row-IsSpent hash now row db p c closed same)
        ]
  ]

  claim_spends :
      (hash : List ℕ) (now : ℕ) (row : DeviceFlowRow) (db : Db) (p : Principal)
      (c : IssuedCredential)
      → any (λ r. is_open hash r && not (is_claimable row.id r)) db.cli_device_flows.rows ≡ false
      → (claim crypto self label random now row db).0 ≡ ok (ok (authorized p c))
      → IsSpent hash (claim crypto self label random now row db).1
  unfolding claim
  claim_spends hash now row db p c h e = elim (Option-cases row.approved_principal_id) [
    | inl waiting ↦ ground arith
    | inr (principal_id, approved) ↦
        let marked =
          any-updated (is_open hash) (is_claimable row.id) (delivered_row now)
            db.cli_device_flows.rows
          ∙ any_weaken _ _ db.cli_device_flows.rows (λ r o. ground arith) h in
        let kept =
          (deliver-Keeps (IsSpent hash) (λ t d s. s) crypto self label random now principal_id).at
            (mark_delivered now row.id db) marked in
        ground (arith, kept)
  ]

  poll_row_spends :
      (hash : List ℕ) (now : ℕ) (row : DeviceFlowRow) (db : Db) (p : Principal)
      (c : IssuedCredential)
      → Distinct device_clash db.cli_device_flows.rows
      → find_where (λ r. text_eq r.device_code_hash hash) db.cli_device_flows.rows ≡ some row
      → (poll_row crypto self label random now (some row) db).0 ≡ ok (ok (authorized p c))
      → IsSpent hash (poll_row crypto self label random now (some row) db).1
  unfolding poll_row
  poll_row_spends hash now row db p c d found e = elim (Option-cases row.approved_principal_id) [
    | inl waiting ↦ unfold claim in ground arith
    | inr (principal_id, approved) ↦
        let rows = db.cli_device_flows.rows in
        let other = λ (r : DeviceFlowRow). is_open hash r && not (is_claimable row.id r) in
        let alone =
          any_unique device_clash (λ r. text_eq r.device_code_hash hash) other rows row
            (λ a b x y. ground (
              arith,
              text_eq_iff a.device_code_hash hash,
              text_eq_iff b.device_code_hash hash,
              text_eq_refl hash,
            ))
            d found (ground (arith, ==_refl row.id)) in
        let polled =
          any-update_where other (has_id row.id) (polled_row now) rows (λ r o. o)
            (any_weaken other _ rows (λ r o. ground arith) alone) in
        ground (arith, claim_spends hash now row (mark_polled now row.id db) p c polled)
  ]

  -- A poll that answers a token leaves the code delivered.
  pub poll_spends :
      (code : Text) (clock : Clock) (db : Db) (p : Principal) (c : IssuedCredential)
      → Distinct device_clash db.cli_device_flows.rows
      → (poll_device_flow crypto self code label random clock db).0 ≡ ok (authorized p c)
      → IsSpent (crypto.sha256 code) (poll_device_flow crypto self code label random clock db).1
  unfolding poll_device_flow
  poll_spends code clock db p c d e = elim (Result-cases (unix_now clock)) [
    | inr (e', failed) ↦ ground arith
    | inl (now, read) ↦
        let hash = crypto.sha256 code in
        elim (Option-cases
          (find_where (λ r. text_eq r.device_code_hash hash) db.cli_device_flows.rows)) [
            | inl missing ↦ unfold poll_row in ground arith
            | inr (row, found) ↦ ground (arith, poll_row_spends hash now row db p c d found)
          ]
  ]
