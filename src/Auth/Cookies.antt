-- ===== src/Auth/Cookies.antt =====
-- src/auth.rs: the session cookie, its removal and its refresh; and the responses of
-- src/auth_server.rs that carry cookies.
use rustypaste.Prelude.{
  ℕ, Bool, true, false, Option, none, some, List, [], ◌∷◌, ◌++◌, Text, codes, text_eq, is_empty,
  if◌then◌else◌,
}
use rustypaste.Store.Base.{Duration, i64_max, i64_try_from}
use rustypaste.Auth.Oidc.{Runtime, public_path_prefix}
use rustypaste.Auth.Request.{RequestAuth, browser_secret}

pub data SameSite : Type 0 where
  strict lax same_site_none : SameSite

-- A cookie of the `cookie` crate; one that removes is empty, and has expired.
pub record Cookie : Type 0 where
  pub name : Text
  pub value : Text
  pub path : Text
  pub http_only : Bool
  pub secure : Bool
  pub same_site : SameSite
  pub max_age : ℕ
  pub removes : Bool

abbrev pub make_removal : Cookie → Cookie
make_removal cookie = record cookie { value = []; max_age = 0; removes = true }

abbrev pub unwrap_or : ℕ → Option ℕ → ℕ
unwrap_or n none = n
unwrap_or n (some m) = m

-- What the cookies need of the configuration.
pub record CookieConfig : Type 0 where
  pub secure_cookies : Bool
  pub session_idle_timeout : Duration

abbrev pub session_cookie_name : Text
session_cookie_name = codes "rustypaste_session"

unfoldable pub public_cookie_path : Runtime → Text
public_cookie_path runtime =
    if is_empty (public_path_prefix runtime) then codes "/" else public_path_prefix runtime

unfoldable pub session_cookie : CookieConfig → Runtime → Text → Cookie
session_cookie config runtime value = record {
  name = session_cookie_name;
  value = value;
  path = public_cookie_path runtime;
  http_only = true;
  secure = config.secure_cookies;
  same_site = lax;
  max_age = unwrap_or i64_max (i64_try_from config.session_idle_timeout.as_secs);
  removes = false;
}

unfoldable pub removal_cookie : CookieConfig → Runtime → Cookie
unfolding session_cookie
removal_cookie config runtime = make_removal (session_cookie config runtime [])

-- `add_cookie` of the middleware `SessionCookieRefresh`, for the identity that the handler
-- extracted, where it did.
unfoldable pub refresh_session_cookie :
    CookieConfig → Runtime → Text → Option RequestAuth → List Cookie → List Cookie
refresh_session_cookie config runtime path none cookies = cookies
refresh_session_cookie config runtime path (some auth) cookies =
    if text_eq path (codes "/auth/logout") then cookies else elim (browser_secret auth) [
      | none ↦ cookies
      | some secret ↦ cookies ++ (session_cookie config runtime secret ∷ [])
    ]
