-- ===== src/Store/Tests/Sessions.antt =====
-- Examples of browser sessions, src/store.rs.
use Prim.Native.Nat.{◌≤◌}
use mathlib.Core.Path.{subst}
use rustypaste.Prelude.{
  ℕ, ◌≡◌, refl, false, true, none, some, List, [], ◌∷◌, Text, text_eq, codes, All, any, count_where,
  leb, ◌==◌, arith,
}
use rustypaste.Store.Authenticate.{
  find_credential, use_credential, roll, authenticate_credential, authenticate_browser_session,
}
use rustypaste.Store.Base.{unix_now, duration_seconds, expiry_from, generate_secret, ok}
use rustypaste.Store.Calls.{run, run_all, Call, open_session}
use rustypaste.Store.Credentials.{
  create_browser_session, create_credential, store_credential, insert_credential, prune_credentials,
  prune_rows, kept_ids, revoke_browser_session, revoke_credential, revoke_principal_credentials,
  IssuedCredential, AuthenticatedPrincipal, browser_session, is_bounded,
}
use rustypaste.Store.Credentials.Bound.{issued_session_bound}
use rustypaste.Store.Credentials.Lookup.{vouches, authenticated_is_live, signed_out_everywhere}
use rustypaste.Store.Credentials.Revoked.{OtherHash, revoked_session_rejected}
use rustypaste.Store.Credentials.Sessions.{Opens}
use rustypaste.Store.Principals.{
  upsert_named_principal, upsert, as_str, from_str, principal_from_row, service,
}
use rustypaste.Store.Schema.{empty_db, Db}
use rustypaste.Store.Tests.{crypto, hour, self, urls, secret_a, secret_b, named}

-- The service account `ci` opens a browser session.
abbrev opened : List Call
opened = open_session 1 secret_a (some 1000) ∷ []

abbrev db : Db
db = run_all crypto urls self opened (run_all crypto urls self named empty_db)

-- `ci` opens another session.
abbrev after : List Call
after = open_session 1 secret_b (some 1002) ∷ []

-- `cd` opens a session.
abbrev after_cd : List Call
after_cd = open_session 2 secret_b (some 1002) ∷ []

revoked : (revoke_browser_session crypto (codes "secret-a") (some 1001) db).0 ≡ ok true
unfolding run run_all upsert_named_principal upsert as_str from_str principal_from_row unix_now
    duration_seconds expiry_from generate_secret create_browser_session create_credential
    store_credential insert_credential prune_credentials prune_rows kept_ids revoke_browser_session
    revoke_credential revoke_principal_credentials find_credential use_credential roll
    authenticate_credential authenticate_browser_session
revoked = refl

other_secret : All (Opens crypto (OtherHash (codes "secret-a"))) after
other_secret =
    ((λ secret e. subst (λ s. text_eq s (codes "secret-a") ≡ false) (drawn secret e) refl), tt)
  where
    drawn :
        (secret : Text) → generate_secret crypto secret_b ≡ ok secret → codes "secret-b" ≡ secret
    drawn secret e = unfold generate_secret in ground arith

revoked_session_rejected_example :
    (authenticate_browser_session crypto self (codes "secret-a") (some 1003) (
      run_all crypto urls self after
        (revoke_browser_session crypto (codes "secret-a") (some 1001) db).1)).0
    ≡ ok none
revoked_session_rejected_example =
    revoked_session_rejected crypto urls self (codes "secret-a") (some 1001) (some 1003) db true
      after revoked other_secret

signed_out : (revoke_principal_credentials 1 (some 1001) db).0 ≡ ok 1
unfolding run run_all upsert_named_principal upsert as_str from_str principal_from_row unix_now
    duration_seconds expiry_from generate_secret create_browser_session create_credential
    store_credential insert_credential prune_credentials prune_rows kept_ids revoke_browser_session
    revoke_credential revoke_principal_credentials find_credential use_credential roll
    authenticate_credential authenticate_browser_session
signed_out = refl

abbrev cd_signed_in : AuthenticatedPrincipal
cd_signed_in = record {
  credential_id = 2;
  expires_at = 4602;
  principal = record {
    id = 2;
    kind = service;
    issuer = none;
    subject = none;
    stable_name = some (codes "cd");
    email = none;
    display_name = none;
    is_admin = false;
    can_delete_all = false;
    created_at = 1000;
    last_seen_at = 1000;
  };
}

signed_in :
    (authenticate_browser_session crypto self
      (codes "secret-b")
      (some 1003)
      (run_all crypto urls self after_cd (revoke_principal_credentials 1 (some 1001) db).1)).0
    ≡ ok (some cd_signed_in)
unfolding run run_all upsert_named_principal upsert as_str from_str principal_from_row unix_now
    duration_seconds expiry_from generate_secret create_browser_session create_credential
    store_credential insert_credential prune_credentials prune_rows kept_ids revoke_browser_session
    revoke_credential revoke_principal_credentials find_credential use_credential roll
    authenticate_credential authenticate_browser_session
signed_in = refl

clock_read : (now : ℕ) → leb now 9223372036854775807 ≡ true → unix_now (some now) ≡ ok now
unfolding unix_now
clock_read now h = ground arith

signed_out_everywhere_example : (cd_signed_in.principal.id == 1) ≡ false
signed_out_everywhere_example =
    signed_out_everywhere crypto urls self 1 (codes "secret-b") (some 1001) (some 1003) 1003 1 db
      after_cd cd_signed_in signed_out ((λ secret e. refl), tt) (clock_read 1003 refl) signed_in

found :
    (authenticate_credential crypto browser_session
      (codes "secret-b")
      hour
      (some 1003)
      (run_all crypto urls self after_cd db)).0
    ≡ ok (some cd_signed_in)
unfolding run run_all upsert_named_principal upsert as_str from_str principal_from_row unix_now
    duration_seconds expiry_from generate_secret create_browser_session create_credential
    store_credential insert_credential prune_credentials prune_rows kept_ids revoke_browser_session
    revoke_credential revoke_principal_credentials find_credential use_credential roll
    authenticate_credential authenticate_browser_session
found = refl

authenticated_is_live_example :
    any
      (vouches (codes "secret-b") 1003 cd_signed_in)
      (run_all crypto urls self after_cd db).browser_sessions.rows
    ≡ true
authenticated_is_live_example =
    authenticated_is_live crypto browser_session (codes "secret-b") hour (some 1003) 1003
      (run_all crypto urls self after_cd db) cd_signed_in (clock_read 1003 refl) found

abbrev issued : IssuedCredential
issued = record { id = 1; secret = codes "secret-a"; expires_at = 4600 }

issues :
    (create_browser_session crypto self 1 secret_a
      (some 1000)
      (run_all crypto urls self named empty_db)).0
    ≡ ok issued
unfolding run run_all upsert_named_principal upsert as_str from_str principal_from_row unix_now
    duration_seconds expiry_from generate_secret create_browser_session create_credential
    store_credential insert_credential prune_credentials prune_rows kept_ids revoke_browser_session
    revoke_credential revoke_principal_credentials find_credential use_credential roll
    authenticate_credential authenticate_browser_session
issues = refl

issued_session_bound_example :
    count_where
      (is_bounded browser_session 1 1000)
      (create_browser_session crypto self 1 secret_a
        (some 1000)
        (run_all crypto urls self named empty_db)).1.browser_sessions.rows
    ≤ 32
issued_session_bound_example =
    issued_session_bound crypto urls self named 1 1000 secret_a (some 1000) issued
      (clock_read 1000 refl) issues
