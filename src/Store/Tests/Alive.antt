-- ===== src/Store/Tests/Alive.antt =====
-- Examples of src/store.rs: a session that was issued authenticates.
use rustypaste.Prelude.{[], ◌∷◌, ◌≡◌, refl, false, none, some, codes, arith}
use rustypaste.Store.Base.{unix_now, duration_seconds, expiry_from, generate_secret, ok}
use rustypaste.Store.Calls.{run, run_all}
use rustypaste.Store.Credentials.{
  create_browser_session, create_credential, store_credential, insert_credential, prune_credentials,
  prune_rows, kept_ids, IssuedCredential,
}
use rustypaste.Store.Credentials.Used.{used, AuthenticatesAs, issued_session_authenticates}
use rustypaste.Store.Principals.{
  Principal, service, upsert_named_principal, upsert, as_str, from_str, principal_from_row,
}
use rustypaste.Store.Schema.{empty_db, Db, PrincipalRow}
use rustypaste.Store.Tests.{crypto, self, urls, secret_a, named}

abbrev db : Db
db = run_all crypto urls self named empty_db

abbrev issued : IssuedCredential
issued = record { id = 1; secret = codes "secret-a"; expires_at = 4600 }

opened : (create_browser_session crypto self 1 secret_a (some 1000) db).0 ≡ ok issued
unfolding run run_all upsert_named_principal upsert as_str from_str principal_from_row unix_now
    duration_seconds expiry_from generate_secret create_browser_session create_credential
    store_credential insert_credential prune_credentials prune_rows kept_ids
opened = refl

abbrev ci : Principal
ci = record {
  id = 1;
  kind = service;
  issuer = none;
  subject = none;
  stable_name = some (codes "ci");
  email = none;
  display_name = none;
  is_admin = false;
  can_delete_all = false;
  created_at = 1000;
  last_seen_at = 1000;
}

abbrev ci_row : PrincipalRow
ci_row = record {
  id = 1;
  kind = codes "service";
  issuer = none;
  subject = none;
  stable_name = some (codes "ci");
  email = none;
  display_name = none;
  is_admin = false;
  can_delete_all = false;
  created_at = 1000;
  updated_at = 1000;
  last_seen_at = 1000;
}

issued_session_authenticates_example :
    AuthenticatesAs crypto self
      (codes "secret-a")
      (some 4599)
      (used crypto self
        (codes "secret-a")
        (some 1001 ∷ some 4598 ∷ [])
        (create_browser_session crypto self 1 secret_a (some 1000) db).1)
      ci
      1
unfolding run run_all upsert_named_principal upsert as_str from_str principal_from_row unix_now
    duration_seconds expiry_from
issued_session_authenticates_example =
    issued_session_authenticates crypto self 1 secret_a (some 1000) (some 4599) 1000 db issued
      ci_row ci (some 1001 ∷ some 4598 ∷ []) refl opened refl (ground arith) refl refl
      ((1001, 4601, refl, ground arith, refl), ((4598, 8198, refl, ground arith, refl), tt))
      (4599, 8199, refl, ground arith, refl)
