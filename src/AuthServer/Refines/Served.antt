-- ===== src/AuthServer/Refines/Served.antt =====
-- src/auth_server.rs: served requests as sequences of calls of the store, and what the store's
-- invariants say of them.
use rustypaste.Prelude.{List, [], ◌∷◌, All}
use rustypaste.Store.Schema.{Db}
use rustypaste.Store.Calls.{Call}
use rustypaste.AuthServer.Response.{AuthRuntime}
use rustypaste.AuthServer.Requests.{
  AuthRequest, extract, login, callback, me, logout, revoke_token, device, verify_device,
  approve_device, device_token, list_principals, revoke_principal_credentials, MayCall, serve,
  serve_all,
}
use rustypaste.AuthServer.Steps.{Leads, Leads_refl, Leads_trans}
use rustypaste.AuthServer.Refines.{
  login_steps, logout_steps, revoke_token_steps, device_steps, approve_device_steps,
  device_token_steps, revoke_all_steps,
}
use rustypaste.AuthServer.Refines.Session.{
  list_principals_steps, verify_device_steps, callback_steps, extract_steps,
}

module _ (runtime : AuthRuntime) where
  -- Calls with `P` lead from the one database to the other.
  abbrev pub Reaches : (Call → Type 0) → Db → Db → Type 0
  Reaches P = Leads runtime.crypto runtime.return_urls runtime.store P

  -- A request to an endpoint under /auth does to the database what some calls of the store do, one
  -- after the other, and each is one that the request may make: a logout revokes its own session, a
  -- token's revocation its own token, an approval is for the principal of the request, only an
  -- administrator revokes a principal's credentials, and a principal is stored, as an administrator
  -- or not, for an identity that the provider answered and the authorization rules allow.
  pub serve_is_calls :
      (request : AuthRequest) (db : Db)
      → Reaches (MayCall runtime request) db (serve runtime request db)
  unfolding serve
  serve_is_calls (extract request clock clock') db =
      (extract_steps runtime request clock clock').at db
  serve_is_calls (login oidc query clock) db = (login_steps runtime oidc query clock).at db
  serve_is_calls (callback oidc input flow_cookie query) db =
      (callback_steps runtime oidc input flow_cookie query).at db
  serve_is_calls (me auth) db = Leads_refl _ _ _ _ db
  serve_is_calls (logout auth clock) db = (logout_steps runtime auth clock).at db
  serve_is_calls (revoke_token auth clock) db = (revoke_token_steps runtime auth clock).at db
  serve_is_calls (device draws client_name clock) db =
      (device_steps runtime draws client_name clock).at db
  serve_is_calls (verify_device user_code clock) db =
      (verify_device_steps runtime user_code clock).at db
  serve_is_calls (approve_device auth user_code clock) db =
      (approve_device_steps runtime auth user_code clock).at db
  serve_is_calls (device_token device_code random clock clock') db =
      (device_token_steps runtime device_code random clock clock').at db
  serve_is_calls (list_principals auth) db = (list_principals_steps runtime auth).at db
  serve_is_calls (revoke_principal_credentials auth id clock) db =
      (revoke_all_steps runtime auth id clock).at db

  All-map :
      (P Q : Call → Type 0) (calls : List Call)
      → ((c : Call) → P c → Q c)
      → All P calls
      → All Q calls
  All-map P Q [] f h = tt
  All-map P Q (c ∷ calls) f (p, h) = (f c p, All-map P Q calls f h)

  -- What holds of every call that the requests may make holds of the calls that serve them.
  pub requests_reach :
      (Allowed : AuthRequest → Type 0) (Q : Call → Type 0)
      → ((request : AuthRequest) (c : Call) → Allowed request → MayCall runtime request c → Q c)
      → (requests : List AuthRequest) (db : Db) → All Allowed requests
      → Reaches Q db (serve_all runtime requests db)
  unfolding serve_all
  requests_reach Allowed Q may [] db a = Leads_refl _ _ _ _ db
  requests_reach Allowed Q may (r ∷ rs) db (a, more) =
      let (calls, made, same) = serve_is_calls r db in
      Leads_trans _ _ _ _ db (serve runtime r db) _
        (calls, All-map (MayCall runtime r) Q calls (λ c m. may r c a m) made, same)
        (requests_reach Allowed Q may rs (serve runtime r db) more)
