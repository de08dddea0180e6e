-- ===== src/Auth/Request.antt =====
-- src/auth.rs: the part of a request that authentication reads, the identity it answers, and the
-- errors that a handler returns.
use rustypaste.Prelude.{
  ℕ, ◌≡◌, ◌⊎◌, refl, inl, inr, ◌+◌, leb, map, starts_with, Bool, true, false, not, ◌&&◌, ◌||◌,
  Option, none, some, List, [], ◌∷◌, Text, codes, text_eq, is_empty, is_whitespace, keep_where,
  if◌then◌else◌,
}
use rustypaste.Store.Base.{ok, err}
use rustypaste.Store.Schema.{Db, Tx}
use rustypaste.Store.Principals.{Principal}

pub data Method : Type 0 where
  get head options post put delete : Method
  other : Text → Method

-- GET, HEAD and OPTIONS
abbrev pub is_safe : Method → Bool
is_safe get = true
is_safe head = true
is_safe options = true
is_safe _ = false

abbrev pub is_read : Method → Bool
is_read get = true
is_read head = true
is_read _ = false

abbrev pub is_delete : Method → Bool
is_delete delete = true
is_delete _ = false

abbrev pub is_post : Method → Bool
is_post post = true
is_post _ = false

-- A header stands here where it is there and is text.
pub record HttpRequest : Type 0 where
  pub method : Method
  pub path : Text
  pub path_and_query : Text
  pub authorization : Option Text
  pub origin : Option Text
  pub session_cookie : Option Text
  pub sec_fetch_mode : Option Text
  pub accept : Option Text

-- the errors of `actix_web`, by status, and the redirect to the login
pub data HttpError : Type 0 where
  internal unauthorized forbidden not_found conflict bad_request : HttpError
  too_many_requests unsupported_media_type insufficient_storage : HttpError
  login_redirect : (return_to : Text) → HttpError

pub data Reply (A : Type 0) : Type 0 where
  accepted : A → Reply A
  refused : HttpError → Reply A

pub Reply-cases :
    {A : Type 0} (r : Reply A) → ((a : A) × (r ≡ accepted a)) ⊎ ((e : HttpError) × (r ≡ refused e))
Reply-cases (accepted a) = inl (a, refl)
Reply-cases (refused e) = inr (e, refl)

-- A handler that uses the store.
abbrev pub Web : Type 0 → Type 0
Web A = Db → Reply A × Db

infixl 5 ◌>>=◌
abbrev pub ◌>>=◌ : {A B : Type 0} → Web A → (A → Web B) → Web B
◌>>=◌ m f db = elim (m db).0 [ accepted a ↦ f a (m db).1 | refused e ↦ (refused e, (m db).1) ]

abbrev pub answer : {A : Type 0} → Reply A → Web A
answer r db = (r, db)

-- `if let` on an optional value
abbrev pub if_some : {X A : Type 0} → Option X → Web A → (X → Web A) → Web A
if_some none m f = m
if_some (some x) m f = f x

-- `map_err(error::ErrorInternalServerError)?`
abbrev pub from_store : {A : Type 0} → Tx A → Web A
from_store m db = elim (m db).0 [
  | ok a ↦ (accepted a, (m db).1)
  | err e ↦ (refused internal, (m db).1)
]

pub data CredentialSource : Type 0 where
  browser api : (secret : Text) → CredentialSource
  legacy_public : CredentialSource

pub record RequestAuth : Type 0 where
  pub principal : Option Principal
  pub credential_id : Option ℕ
  pub expires_at : Option ℕ
  pub global_delete : Bool
  pub source : CredentialSource

unfoldable pub principal_id : RequestAuth → Option ℕ
principal_id auth = elim auth.principal [ none ↦ none | some p ↦ some p.id ]

unfoldable pub is_admin : RequestAuth → Bool
is_admin auth = elim auth.principal [ none ↦ false | some p ↦ p.is_admin ]

unfoldable pub browser_secret : RequestAuth → Option Text
browser_secret auth = elim auth.source [
  | browser secret ↦ some secret
  | api secret ↦ none
  | legacy_public ↦ none
]

unfoldable pub api_secret : RequestAuth → Option Text
api_secret auth = elim auth.source [
  | browser secret ↦ none
  | api secret ↦ some secret
  | legacy_public ↦ none
]

abbrev prepend : ℕ → List Text → List Text
prepend c [] = (c ∷ []) ∷ []
prepend c (w ∷ ws) = (c ∷ w) ∷ ws

abbrev split : Text → List Text
split [] = [] ∷ []
split (c ∷ s) = let rest = split s in if is_whitespace c then [] ∷ rest else prepend c rest

abbrev split_whitespace : Text → List Text
split_whitespace s = keep_where (λ w. not (is_empty w)) (split s)

abbrev last : List Text → Option Text
last [] = none
last (w ∷ []) = some w
last (w ∷ v ∷ ws) = last (v ∷ ws)

-- The last word of the header; a header that is empty once trimmed has none.
unfoldable pub authorization_secret : HttpRequest → Option Text
authorization_secret request = elim request.authorization [
  | none ↦ none
  | some value ↦ last (split_whitespace value)
]

abbrev to_ascii_lowercase : ℕ → ℕ
to_ascii_lowercase c = if leb b'A' c && leb c b'Z' then c + 32 else c

abbrev contains_text : Text → Text → Bool
contains_text pattern [] = is_empty pattern
contains_text pattern (c ∷ s) = starts_with (c ∷ s) pattern || contains_text pattern s

abbrev navigates : Option Text → Bool
navigates none = false
navigates (some mode) = text_eq (map to_ascii_lowercase mode) (codes "navigate")

abbrev accepts_html : Option Text → Bool
accepts_html none = false
accepts_html (some value) = contains_text (codes "text/html") value

unfoldable pub is_browser_navigation : HttpRequest → Bool
is_browser_navigation request =
    is_read request.method && (navigates request.sec_fetch_mode || accepts_html request.accept)
