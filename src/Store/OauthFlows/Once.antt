-- ===== src/Store/OauthFlows/Once.antt =====
-- src/store.rs: an OIDC login transaction is consumed once, and leads back to where it started.
use rustypaste.Prelude.{
  ℕ, ◌≤◌, ◌≡◌, refl, Bool, false, not, none, some, List, [], ◌∷◌, Text, All, All-Unit, All-append,
  All-keep_where, All-find_where, text_eq, is_empty, any, any-append, any-keep_where, find_where,
  find_none, any_weaken, delete_where, Bool-cases, Option-cases, inl, inr, arith,
}
use rustypaste.Store.Base.{Crypto, AuthStore, Clock, Result-cases, ok, unix_now}
use rustypaste.Store.Schema.{Db, OauthFlowRow, empty_db}
use rustypaste.Store.OauthFlows.{
  ReturnUrls, OAuthFlow, validate_return_to, oauth_row, is_consumable, consume_oauth_flow,
}
use rustypaste.Store.Calls.{Call, store_oauth, run_all, run_all_induction}
use rustypaste.Store.OauthFlows.Rows.{On, Deletes, Allows, store_oauth_flow-On, run-On}

-- No call stores a login state with the given digest again.
abbrev pub AvoidsState : Crypto → List ℕ → Call → Type 0
AvoidsState crypto hash (store_oauth state _ _ _ _ _) = text_eq (crypto.sha256 state) hash ≡ false
AvoidsState crypto hash _ = Unit

abbrev has_state : List ℕ → OauthFlowRow → Bool
has_state hash r = text_eq r.state_hash hash

-- No live row at `now` and later: rows with the state have expired before `now`
abbrev IsConsumed : List ℕ → ℕ → List OauthFlowRow → Type 0
IsConsumed hash now rs = any (is_consumable hash now) rs ≡ false

deletes-IsConsumed : (hash : List ℕ) (now : ℕ) → Deletes (IsConsumed hash now)
deletes-IsConsumed hash now p rs h = any-keep_where (is_consumable hash now) (λ r. not (p r)) rs h

Allows-IsConsumed :
    (crypto : Crypto) (urls : ReturnUrls) (hash : List ℕ) (now : ℕ) (c : Call)
    → AvoidsState crypto hash c
    → Allows crypto urls (IsConsumed hash now) c
Allows-IsConsumed crypto urls hash now (store_oauth state a b d lifetime clock) avoids =
    store_oauth_flow-On crypto urls (IsConsumed hash now) (deletes-IsConsumed hash now) state a b d
      lifetime clock
      λ id code_verifier nonce return_to time expires_at rs valid new h.
        let row = oauth_row crypto id state code_verifier nonce return_to time expires_at in
        ground (arith, avoids, any-append (is_consumable hash now) rs (row ∷ []))
Allows-IsConsumed crypto urls hash now _ avoids = tt

delete_all : {A : Type 0} (p : A → Bool) (rs : List A) → any p (delete_where p rs) ≡ false
delete_all p [] = refl
delete_all p (r ∷ rs) = ground (arith, delete_all p rs)

module _ (crypto : Crypto) (urls : ReturnUrls) (self : AuthStore) where
  consume_spends :
      (state : Text) (clock : Clock) (now : ℕ) (db : Db)
      → is_empty state ≡ false
      → unix_now clock ≡ ok now
      → On (IsConsumed (crypto.sha256 state) now) (consume_oauth_flow crypto state clock db).1
  unfolding consume_oauth_flow
  consume_spends state clock now db given read =
      ground (arith, delete_all (is_consumable (crypto.sha256 state) now) db.oauth_flows.rows)

  consumed_answers_none :
      (state : Text) (clock : Clock) (now now' : ℕ) (db : Db)
      → unix_now clock ≡ ok now'
      → now ≤ now'
      → On (IsConsumed (crypto.sha256 state) now) db
      → (consume_oauth_flow crypto state clock db).0 ≡ ok none
  unfolding consume_oauth_flow
  consumed_answers_none state clock now now' db read later h =
      let hash = crypto.sha256 state in
      let rows = db.oauth_flows.rows in
      let none_left =
        any_weaken (is_consumable hash now') (is_consumable hash now) rows (λ r k. ground arith)
          h in
      ground (arith, find_none (is_consumable hash now') rows none_left)

  -- In any database, once a login state has been consumed at time `now`, then after any calls, none
  -- of which stores a state with the same digest, consuming it at `now` or later answers nothing.
  pub consumed_once :
      (state : Text) (clock clock' : Clock) (now now' : ℕ) (db : Db) (calls : List Call)
      → unix_now clock ≡ ok now
      → unix_now clock' ≡ ok now'
      → now ≤ now'
      → All (AvoidsState crypto (crypto.sha256 state)) calls
      → (consume_oauth_flow crypto state clock'
          (run_all crypto urls self calls (consume_oauth_flow crypto state clock db).1)).0
        ≡ ok none
  consumed_once state clock clock' now now' db calls read read' later avoids =
      let hash = crypto.sha256 state in
      let first = (consume_oauth_flow crypto state clock db).1 in
      let after = run_all crypto urls self calls first in
      elim (Bool-cases (is_empty state)) [
        | inl blank ↦ unfold consume_oauth_flow in ground arith
        | inr given ↦ consumed_answers_none state clock' now now' after read' later (
            run_all_induction crypto urls self (On (IsConsumed hash now)) (AvoidsState crypto hash)
              (λ c db' a.
                run-On crypto urls (IsConsumed hash now) (deletes-IsConsumed hash now) self c db'
                  (Allows-IsConsumed crypto urls hash now c a))
              calls first avoids (consume_spends state clock now db given read))
      ]

-- the flows whose return address passed `validate_return_to`
abbrev AllSafe : ReturnUrls → List OauthFlowRow → Type 0
AllSafe urls rs = All (λ r. validate_return_to urls r.return_to ≡ ok tt) rs

deletes-AllSafe : (urls : ReturnUrls) → Deletes (AllSafe urls)
deletes-AllSafe urls p rs h =
    All-keep_where (λ r. validate_return_to urls r.return_to ≡ ok tt) (λ r. not (p r)) rs h

Allows-AllSafe :
    (crypto : Crypto) (urls : ReturnUrls) (c : Call) → Allows crypto urls (AllSafe urls) c
Allows-AllSafe crypto urls (store_oauth state a b d lifetime clock) =
    store_oauth_flow-On crypto urls (AllSafe urls) (deletes-AllSafe urls) state a b d lifetime clock
      λ id code_verifier nonce return_to now expires_at rs valid new h.
        All-append (λ r. validate_return_to urls r.return_to ≡ ok tt) rs _ h (valid, tt)
Allows-AllSafe crypto urls _ = tt

consume_finds :
    (crypto : Crypto) (urls : ReturnUrls) (state : Text) (clock : Clock) (db : Db)
    (flow : OAuthFlow)
    → On (AllSafe urls) db
    → (consume_oauth_flow crypto state clock db).0 ≡ ok (some flow)
    → validate_return_to urls flow.return_to ≡ ok tt
unfolding consume_oauth_flow
consume_finds crypto urls state clock db flow safe h = elim (Result-cases (unix_now clock)) [
  | inr (e, failed) ↦ absurd (ground arith)
  | inl (now, read) ↦
      let test = is_consumable (crypto.sha256 state) now in
      elim (Option-cases (find_where test db.oauth_flows.rows)) [
        | inl missing ↦ absurd (ground arith)
        | inr (row, found) ↦
            let good =
              All-find_where (λ r. validate_return_to urls r.return_to ≡ ok tt) test
                db.oauth_flows.rows row found safe in
            ground (arith, good)
      ]
]

-- From an empty database, after any calls, a login transaction that is consumed leads back to an
-- address that `validate_return_to` accepts.
pub consumed_return_is_valid :
    (crypto : Crypto) (urls : ReturnUrls) (self : AuthStore) (calls : List Call) (state : Text)
    (clock : Clock) (flow : OAuthFlow)
    → (consume_oauth_flow crypto state clock (run_all crypto urls self calls empty_db)).0
      ≡ ok (some flow)
    → validate_return_to urls flow.return_to ≡ ok tt
consumed_return_is_valid crypto urls self calls state clock flow h =
    consume_finds crypto urls state clock (run_all crypto urls self calls empty_db) flow
      (run_all_induction crypto urls self (On (AllSafe urls)) (λ _. Unit {0})
        (λ c db u.
          run-On crypto urls (AllSafe urls) (deletes-AllSafe urls) self c db
            (Allows-AllSafe crypto urls c))
        calls empty_db (All-Unit calls) tt)
      h
