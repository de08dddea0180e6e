-- ===== src/Server/Password.antt =====
-- src/server.rs: the password that a request for a protected paste gives.
use rustypaste.Prelude.{
  ℕ, Bool, true, false, Option, none, some, [], ◌∷◌, Text, codes, is_empty, starts_with, drop, ◌==◌,
  if◌then◌else◌,
}
use rustypaste.Auth.Request.{RequestAuth, browser, api, legacy_public}

abbrev strip_prefix : Text → Text → ℕ → Option Text
strip_prefix s prefix n = if starts_with s prefix then some (drop n s) else none

-- `split_once(':')`, of which the second part is used
abbrev after_colon : Text → Option Text
after_colon [] = none
after_colon (c ∷ s) = let rest = after_colon s in if c == b':' then some s else rest

-- `decode` is base64, and UTF-8.
unfoldable pub extract_password_from_auth : (decode : Text → Option Text) → Text → Option Text
extract_password_from_auth decode auth_header = elim (strip_prefix auth_header (codes "Basic ") 6) [
  | none ↦ strip_prefix auth_header (codes "Bearer ") 7
  | some basic ↦ elim (decode basic) [ none ↦ none | some creds ↦ after_colon creds ]
]

-- the headers of the request that are read, where they are there and are text
pub record PasswordHeaders : Type 0 where
  pub password : Option Text
  pub authorization : Option Text

abbrev given : Option Text → Option Text
given none = none
given (some value) = if is_empty value then none else some value

abbrev is_token : RequestAuth → Bool
is_token auth = elim auth.source [
  | browser secret ↦ false
  | api secret ↦ true
  | legacy_public ↦ false
]

-- A request by token has its secret in the Authorization header, and no password.
unfoldable pub extract_protected_password :
    (decode : Text → Option Text) → PasswordHeaders → RequestAuth → Option Text
extract_protected_password decode headers auth = elim (given headers.password) [
  | some password ↦ some password
  | none ↦ if is_token auth then none else elim headers.authorization [
    | none ↦ none
    | some value ↦ extract_password_from_auth decode value
  ]
]
