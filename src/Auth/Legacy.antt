-- ===== src/Auth/Legacy.antt =====
-- src/auth.rs: requests where only static tokens are configured.
use rustypaste.Prelude.{
  ◌≡◌, refl, Bool, true, false, ◌&&◌, ◌||◌, Option, none, some, List, [], Text, codes, text_eq,
  contains, if◌then◌else◌, Option-cases, inl, inr, arith,
}
use rustypaste.Config.Tokens.{ServerTokens, TokenEnv, auth, delete, get_tokens, blank_is_no_token}
use rustypaste.Auth.Request.{
  HttpRequest, unauthorized, not_found, Reply, accepted, refused, legacy_public, RequestAuth,
  is_delete, is_post, authorization_secret,
}

abbrev pub token_or_empty : Option Text → Text
token_or_empty none = []
token_or_empty (some token) = token

abbrev pub anonymous : (global_delete : Bool) → RequestAuth
anonymous global_delete = record {
  principal = none;
  credential_id = none;
  expires_at = none;
  global_delete = global_delete;
  source = legacy_public;
}

abbrev pub is_protected_route : HttpRequest → Bool
is_protected_route request =
    (is_post request.method && text_eq request.path (codes "/"))
    || text_eq request.path (codes "/list")
    || text_eq request.path (codes "/version")

abbrev delete_with : Option (List Text) → Text → Reply RequestAuth
delete_with none token = refused not_found
delete_with (some tokens) token =
    if contains tokens token then accepted (anonymous true) else refused unauthorized

abbrev use_with : Option (List Text) → Text → Reply RequestAuth
use_with none token = accepted (anonymous false)
use_with (some tokens) token =
    if contains tokens token then accepted (anonymous false) else refused unauthorized

-- `config` is there and its lock is not poisoned.
unfoldable pub authenticate_legacy_request :
    ServerTokens → TokenEnv → HttpRequest → Reply RequestAuth
authenticate_legacy_request server env request =
    let token = token_or_empty (authorization_secret request) in
    if is_delete request.method
    then delete_with (get_tokens server env delete) token
    else if is_protected_route request
    then use_with (get_tokens server env auth) token
    else accepted (anonymous false)

-- With static tokens, the right to delete all pastes goes to a DELETE request whose Authorization
-- header ends in a configured delete token, and to no other request; and a DELETE request that is
-- accepted has it.
pub legacy_delete_needs_token :
    (server : ServerTokens) (env : TokenEnv) (request : HttpRequest) (identity : RequestAuth)
    → authenticate_legacy_request server env request ≡ accepted identity
    → identity.global_delete ≡ (
        is_delete request.method && (elim (get_tokens server env delete) [
          | none ↦ false
          | some tokens ↦ contains tokens (token_or_empty (authorization_secret request))
        ]))
unfolding authenticate_legacy_request
legacy_delete_needs_token server env request identity h =
    elim (Option-cases (get_tokens server env delete)) [
      | inl closed ↦ ground arith
      | inr (tokens, configured) ↦ ground arith
    ]

-- Where auth tokens are configured, an upload, a listing or a version request without a secret in its
-- Authorization header is refused.
legacy_upload_needs_secret :
    (server : ServerTokens) (env : TokenEnv) (request : HttpRequest) (tokens : List Text)
    → get_tokens server env auth ≡ some tokens
    → authorization_secret request ≡ none
    → is_delete request.method ≡ false
    → is_protected_route request ≡ true
    → authenticate_legacy_request server env request ≡ refused unauthorized
unfolding authenticate_legacy_request
legacy_upload_needs_secret server env request tokens configured bare other protected =
    ground (arith, blank_is_no_token server env auth tokens [] configured refl)
