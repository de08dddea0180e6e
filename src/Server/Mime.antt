-- ===== src/Server/Mime.antt =====
-- src/mime.rs and src/server.rs: the media type that a file is served with.
use rustypaste.Prelude.{
  ℕ, ◌+◌, Bool, true, false, ◌&&◌, ◌||◌, Option, none, some, List, [], ◌∷◌, Text, codes, text_eq,
  map, leb, any, if◌then◌else◌,
}

-- What the program reads of a type of the `mime` crate.
pub record Mime : Type 0 where
  pub type_ : Text
  pub suffix : Option Text
  pub essence_str : Text

-- A matcher: its type, where that can be parsed, and whether its expression, if it has one, matches.
pub record MimeMatcher : Type 0 where
  pub mime : Option Mime
  pub is_match : Option (Text → Bool)

abbrev matches_name : Option (Text → Bool) → Text → Bool
matches_name none file_name = false
matches_name (some regex) file_name = regex file_name

-- The type of the first matcher that matches, or else that of the extension, which is given; `none` is
-- an error.
unfoldable pub get_mime_type : List MimeMatcher → (of_extension : Mime) → Text → Option Mime
get_mime_type [] of_extension file_name = some of_extension
get_mime_type (matcher ∷ matchers) of_extension file_name =
    let rest = get_mime_type matchers of_extension file_name in
    if matches_name matcher.is_match file_name then matcher.mime else rest

abbrev to_ascii_lowercase : ℕ → ℕ
to_ascii_lowercase c = if leb b'A' c && leb c b'Z' then c + 32 else c

abbrev eq_ignore_ascii_case : Text → Text → Bool
eq_ignore_ascii_case s t = text_eq (map to_ascii_lowercase s) (map to_ascii_lowercase t)

abbrev is_text_suffix : Option Text → Bool
is_text_suffix none = false
is_text_suffix (some suffix) = text_eq suffix (codes "xml") || text_eq suffix (codes "json")

unfoldable pub is_text_like_mime : Mime → (overrides : List Text) → Bool
is_text_like_mime mime_type overrides =
    if text_eq mime_type.type_ (codes "text")
    then true
    else if is_text_suffix mime_type.suffix
    then true
    else if any (λ v. eq_ignore_ascii_case v mime_type.essence_str) overrides
    then true
    else text_eq mime_type.essence_str (codes "application/javascript")
      || text_eq mime_type.essence_str (codes "application/ecmascript")
      || text_eq mime_type.essence_str (codes "application/json")
      || text_eq mime_type.essence_str (codes "application/x-www-form-urlencoded")
      || text_eq mime_type.essence_str (codes "application/x-javascript")
      || text_eq mime_type.essence_str (codes "application/xml")

abbrev pub text_plain_utf8 : Mime
text_plain_utf8 = record { type_ = codes "text"; suffix = none; essence_str = codes "text/plain" }

abbrev pub octet_stream : Mime
octet_stream = record {
  type_ = codes "application";
  suffix = none;
  essence_str = codes "application/octet-stream";
}

abbrev shown_as_text : List Text → Option Mime → Option Mime
shown_as_text overrides none = none
shown_as_text overrides (some mime_type) =
    if is_text_like_mime mime_type overrides then some text_plain_utf8 else some mime_type

-- the choice that `serve` makes
unfoldable pub served_type :
    (mime_override : List MimeMatcher)
    → (text_mime_overrides : List Text) → (should_download : Bool) → (of_extension : Mime) → Text
    → Option Mime
served_type mime_override text_mime_overrides true of_extension file = some octet_stream
served_type mime_override text_mime_overrides false of_extension file =
    shown_as_text text_mime_overrides (get_mime_type mime_override of_extension file)
