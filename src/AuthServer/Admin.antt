-- ===== src/AuthServer/Admin.antt =====
-- src/auth_server.rs: the endpoints of administrators.
use rustypaste.Prelude.{ℕ, none, map, if◌then◌else◌}
use rustypaste.Store.Base.{Clock}
use rustypaste.Store.Principals.Listing
use rustypaste.Store.Credentials
use rustypaste.Auth.Request.{
  forbidden, Reply, accepted, refused, Web, ◌>>=◌, answer, from_store, RequestAuth, is_admin,
}
use rustypaste.AuthServer.Account.{identity_response}
use rustypaste.AuthServer.Response.{identities_body, revoked_body, HttpResponse, respond}

unfoldable pub require_admin : RequestAuth → Reply (Unit {0})
require_admin auth = if is_admin auth then accepted tt else refused forbidden

unfoldable pub list_principals : RequestAuth → Web HttpResponse
list_principals auth = answer (require_admin auth) >>= λ u.
    from_store Listing.list_principals >>= λ principals.
    answer (
      accepted
        (respond 200 (identities_body (map (λ p. identity_response p none none) principals))))

unfoldable pub revoke_principal_credentials : RequestAuth → (id : ℕ) → Clock → Web HttpResponse
revoke_principal_credentials auth id clock = answer (require_admin auth) >>= λ u.
    from_store (Credentials.revoke_principal_credentials id clock) >>= λ revoked.
    answer (accepted (respond 200 (revoked_body revoked)))
