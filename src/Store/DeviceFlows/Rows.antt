-- ===== src/Store/DeviceFlows/Rows.antt =====
-- What each call of src/store.rs on cli_device_flows does to the rows, as rules for a property `Q`
-- of the rows: it is kept where deleting, inserting and each kind of update keep it.
use rustypaste.Prelude.{
  ℕ, zero, suc, ◌≡◌, false, some, none, Option, List, [], ◌∷◌, ◌++◌, Text, any, delete_where,
  update_where, Bool,
}
use rustypaste.Store.Base.{Result, ok, Crypto, AuthStore, Duration, Random, Clock, generate_secret}
use rustypaste.Store.Schema.{Db, Tx, DeviceFlowRow, device_clash}
use rustypaste.Store.Keeps.{
  Keeps, Keeps-pure, Keeps-lift, Keeps-gets, Keeps-bind, Keeps-bind-lift, Keeps-insert, keeps_rules,
}
use rustypaste.Store.Frame.{deliver-Keeps}
use rustypaste.Store.DeviceFlows.{
  approved_row, DeviceAuthorization, device_row, is_approvable, start_round, start_rounds,
  admit_device, start_device_flow, approve_device_flow,
}
use rustypaste.Store.DeviceFlows.Poll.{
  polled_row, delivered_row, has_id, is_claimable, claim, poll_row, poll_device_flow,
}

abbrev pub On : (List DeviceFlowRow → Type 0) → Db → Type 0
On Q db = Q db.cli_device_flows.rows

-- Deleting rows keeps `Q`.
abbrev pub Deletes : (List DeviceFlowRow → Type 0) → Type 0
Deletes Q = (p : DeviceFlowRow → Bool) (rs : List DeviceFlowRow) → Q rs → Q (delete_where p rs)

-- Adding a row with the code that the random bytes make, where it clashes with none, keeps `Q`.
abbrev pub Inserts : Crypto → Random → (List DeviceFlowRow → Type 0) → Type 0
Inserts crypto random Q =
    (code : Text)
    → generate_secret crypto random ≡ ok code
    → (id : ℕ) (user_code client_name : Text) (now expires_at poll_seconds : ℕ)
      (rs : List DeviceFlowRow)
    → any
        (device_clash
          (device_row id (crypto.sha256 code) user_code client_name now expires_at poll_seconds))
        rs
      ≡ false
    → Q rs
    → Q (
        rs
        ++ device_row id (crypto.sha256 code) user_code client_name now expires_at poll_seconds
          ∷ [])

abbrev pub Approves : ℕ → (List DeviceFlowRow → Type 0) → Type 0
Approves principal_id Q =
    (user_code : Text) (now : ℕ) (rs : List DeviceFlowRow)
    → Q rs
    → Q (update_where (is_approvable user_code now) (approved_row principal_id now) rs)

abbrev pub Polls : (List DeviceFlowRow → Type 0) → Type 0
Polls Q =
    (now id : ℕ) (rs : List DeviceFlowRow) → Q rs → Q (update_where (has_id id) (polled_row now) rs)

abbrev pub Delivers : (List DeviceFlowRow → Type 0) → Type 0
Delivers Q =
    (now id : ℕ) (rs : List DeviceFlowRow)
    → Q rs
    → Q (update_where (is_claimable id) (delivered_row now) rs)

module _ (Q : List DeviceFlowRow → Type 0) where
  start_round-On :
      (crypto : Crypto) (client_name : Text) (now expires_at poll_seconds : ℕ)
      (poll_interval : Duration) (drawn : Random × Random) (again : Tx (Result DeviceAuthorization))
      → Inserts crypto drawn.0 Q
      → Keeps (On Q) again
      → Keeps
          (On Q)
          (start_round crypto client_name now expires_at poll_seconds poll_interval drawn again)
  unfolding start_round
  start_round-On crypto client_name now expires_at poll_seconds poll_interval (a, b) again ins ka =
      Keeps-bind-lift _ _ λ code e. Keeps-bind _ _ (Keeps-lift _) λ user_code.
        Keeps-bind _ _ (Keeps-gets _) λ id.
          Keeps-insert device_clash _ (λ db. db.cli_device_flows)
            (λ t db. record db { cli_device_flows = t }) again _ ka
            (λ db new h. ins code e id user_code client_name now expires_at poll_seconds _ new h)
            (Keeps-pure _)

  start_rounds-On :
      (crypto : Crypto) (client_name : Text) (now expires_at poll_seconds : ℕ)
      (poll_interval : Duration) (draws : ℕ → Random × Random) (n : ℕ)
      → ((i : ℕ) → Inserts crypto (draws i).0 Q)
      → Keeps
          (On Q)
          (start_rounds crypto client_name now expires_at poll_seconds poll_interval draws n)
  unfolding start_rounds
  start_rounds-On crypto client_name now expires_at poll_seconds poll_interval draws zero k =
      Keeps-pure _
  start_rounds-On crypto client_name now expires_at poll_seconds poll_interval draws (suc n) k =
      start_round-On crypto client_name now expires_at poll_seconds poll_interval (draws n) _ (k n)
        (start_rounds-On crypto client_name now expires_at poll_seconds poll_interval draws n k)

  pub approve_device_flow-On :
      (user_code : Text) (principal_id : ℕ) (clock : Clock)
      → Approves principal_id Q
      → Keeps (On Q) (approve_device_flow user_code principal_id clock)
  unfolding approve_device_flow
  approve_device_flow-On user_code principal_id clock k =
      let step = λ (now : ℕ) (db : Db) (h : On Q db). k user_code now db.cli_device_flows.rows h in
      search (keeps_rules, step) depth 9

  module _ (deletes : Deletes Q) where
    pub start_device_flow-On :
        (crypto : Crypto) (draws : ℕ → Random × Random) (client_name : Text)
        (lifetime poll_interval : Duration) (clock : Clock)
        → ((i : ℕ) → Inserts crypto (draws i).0 Q)
        → Keeps (On Q) (start_device_flow crypto draws client_name lifetime poll_interval clock)
    unfolding start_device_flow admit_device
    start_device_flow-On crypto draws client_name lifetime poll_interval clock k =
        let rounds = λ (now expires_at poll_seconds : ℕ).
          start_rounds-On crypto client_name now expires_at poll_seconds poll_interval draws 4 k in
        search (keeps_rules, rounds, deletes) depth 14

    module _ (polls : Polls Q) (delivers : Delivers Q) where
      claim-On :
          (crypto : Crypto) (self : AuthStore) (token_label : Option Text) (random : Random)
          (now : ℕ) (row : DeviceFlowRow)
          → Keeps (On Q) (claim crypto self token_label random now row)
      unfolding claim
      claim-On crypto self token_label random now row =
          let deliver = deliver-Keeps (On Q) (λ t db h. h) in
          search (keeps_rules, deliver, delivers) depth 12

      poll_row-On :
          (crypto : Crypto) (self : AuthStore) (token_label : Option Text) (random : Random)
          (now : ℕ) (row : Option DeviceFlowRow)
          → Keeps (On Q) (poll_row crypto self token_label random now row)
      unfolding poll_row
      poll_row-On crypto self token_label random now none = search keeps_rules
      poll_row-On crypto self token_label random now (some row) =
          search (keeps_rules, claim-On, deletes, polls) depth 12

      pub poll_device_flow-On :
          (crypto : Crypto) (self : AuthStore) (device_code : Text) (token_label : Option Text)
          (random : Random) (clock : Clock)
          → Keeps (On Q) (poll_device_flow crypto self device_code token_label random clock)
      unfolding poll_device_flow
      poll_device_flow-On crypto self device_code token_label random clock =
          search (keeps_rules, poll_row-On) depth 9
