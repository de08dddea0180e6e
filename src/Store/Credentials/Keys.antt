-- ===== src/Store/Credentials/Keys.antt =====
-- src/store.rs and migrations/*.sql: the AUTOINCREMENT keys of browser sessions are distinct.
use Prim.Native.Nat.{◌≤◌}
use rustypaste.Prelude.{
  ℕ, suc, ◌≡◌, refl, Bool, false, not, All-every, List, [], ◌∷◌, ◌==◌, ==_comm, leb, any,
  any-append, any-keep_where, any-update_where, update_where, Distinct, Distinct-append,
  Distinct-keep_where, Distinct-update_where, arith,
}
use rustypaste.Store.Base.{Crypto, AuthStore}
use rustypaste.Store.Schema.{Table, CredentialRow, with_rows, empty_db}
use rustypaste.Store.Credentials.{browser_session, new_credential, revoked_row}
use rustypaste.Store.Authenticate.{rolled_row}
use rustypaste.Store.OauthFlows.{ReturnUrls}
use rustypaste.Store.Calls.{Call, open_session, run_all, run_all_induction}
use rustypaste.Store.Credentials.Rows.{InTable, Inserts}
use rustypaste.Store.Credentials.Sessions.{Opens, run-InSessions}

abbrev pub same_key : CredentialRow → CredentialRow → Bool
same_key a b = a.id == b.id

-- The ids are distinct, and below the next one: an AUTOINCREMENT key.
abbrev pub HasKeys : Table CredentialRow → Type 0
HasKeys t = Distinct same_key t.rows × any (λ r. leb t.next_id r.id) t.rows ≡ false

abbrev pub Anything : ℕ → List ℕ → Type 0
Anything _ _ = Unit

below_next :
    (n id : ℕ) (rs : List CredentialRow)
    → n ≤ id
    → any (λ r. leb n r.id) rs ≡ false
    → any (λ r. id == r.id) rs ≡ false
below_next n id [] h k = refl
below_next n id (r ∷ rs) h k = ground (arith, below_next n id rs h)

next_grows :
    (n : ℕ) (rs : List CredentialRow)
    → any (λ r. leb n r.id) rs ≡ false
    → any (λ r. leb (suc n) r.id) rs ≡ false
next_grows n [] k = refl
next_grows n (r ∷ rs) k = ground (arith, next_grows n rs)

pub inserts-HasKeys : Inserts Anything HasKeys
inserts-HasKeys principal_id hash label now expires_at t fresh new (keys, below) =
    let row = new_credential t.next_id principal_id hash label now expires_at in
    (
      Distinct-append same_key (λ a b. ==_comm a.id b.id) t.rows row keys
          (below_next t.next_id t.next_id t.rows (omega arith) below),
      ground (
        arith,
        next_grows t.next_id t.rows below,
        any-append (λ r. leb (suc t.next_id) r.id) t.rows (row ∷ []),
      ),
    )

updates-HasKeys :
    (p : CredentialRow → Bool) (f : CredentialRow → CredentialRow) (t : Table CredentialRow)
    → ((r : CredentialRow) → (f r).id ≡ r.id)
    → HasKeys t
    → HasKeys (with_rows t (update_where p f t.rows))
updates-HasKeys p f t k (keys, below) = (
  Distinct-update_where same_key p f t.rows (λ a b h. ground (arith, k a, k b)) keys,
  any-update_where (λ r. leb t.next_id r.id) p f t.rows (λ r h. ground (arith, k r)) below,
)

Opens-Anything : (crypto : Crypto) (c : Call) → Opens crypto Anything c
Opens-Anything crypto (open_session principal_id random clock) = λ secret e. tt
Opens-Anything crypto _ = tt

pub run_all-HasKeys :
    (crypto : Crypto) (urls : ReturnUrls) (self : AuthStore) (calls : List Call)
    → InTable browser_session HasKeys (run_all crypto urls self calls empty_db)
run_all-HasKeys crypto urls self calls =
    run_all_induction crypto urls self (InTable browser_session HasKeys) (Opens crypto Anything)
      (λ c db o.
        run-InSessions crypto urls self HasKeys
          (λ p t h. (
            Distinct-keep_where same_key (λ r. not (p r)) t.rows h.0,
            any-keep_where (λ r. leb t.next_id r.id) (λ r. not (p r)) t.rows h.1,
          ))
          Anything inserts-HasKeys
          (λ now p t h. updates-HasKeys p (revoked_row now) t (λ r. refl) h)
          (λ now expires_at p t h. updates-HasKeys p (rolled_row now expires_at) t (λ r. refl) h) c
          db o)
      calls empty_db (All-every _ calls (Opens-Anything crypto)) (tt, refl)
