-- ===== src/AuthServer/Escape.antt =====
-- src/auth_server.rs: `html_escape`, and the escape of each character by itself that it comes to.
use rustypaste.Prelude.{
  replace, ℕ, ◌≡◌, refl, Bool, true, not, ◌||◌, [], ◌∷◌, ◌++◌, Text, codes, ◌==◌, all,
  if◌then◌else◌, arith,
}

unfoldable pub html_escape : Text → Text
html_escape value = replace b'\'' (codes "&#39;") (
    replace b'"' (codes "&quot;") (
      replace b'>' (codes "&gt;")
        (replace b'<' (codes "&lt;") (replace b'&' (codes "&amp;") value))))

-- the escape of one character
abbrev pub escape_char : ℕ → Text
escape_char c =
    if c == b'&'
    then codes "&amp;"
    else if c == b'<'
    then codes "&lt;"
    else if c == b'>'
    then codes "&gt;"
    else if c == b'"'
    then codes "&quot;"
    else if c == b'\''
    then codes "&#39;"
    else c ∷ []

abbrev pub escape_each : Text → Text
escape_each [] = []
escape_each (c ∷ s) = escape_char c ++ escape_each s

-- none of the characters that end a text or an attribute of HTML
abbrev pub is_inert : ℕ → Bool
is_inert c = not (c == b'<' || c == b'>' || c == b'"' || c == b'\'')

escape_cons : (c : ℕ) (s : Text) → html_escape (c ∷ s) ≡ escape_char c ++ html_escape s
unfolding html_escape
escape_cons c s = ground arith

escape_char-inert : (c : ℕ) (s : Text) → all is_inert (escape_char c ++ s) ≡ all is_inert s
escape_char-inert c s = ground arith

-- What five replacements, one after the other, make of a text is each of its characters escaped by
-- itself; and no `<`, `>` or quote is left in it.
pub html_escape-escape_each :
    (s : Text) → (html_escape s ≡ escape_each s) × (all is_inert (html_escape s) ≡ true)
html_escape-escape_each [] = (unfold html_escape in refl, unfold html_escape in refl)
html_escape-escape_each (c ∷ s) =
    let (each, inert) = html_escape-escape_each s in
    (
      ground (arith, each, escape_cons c s),
      ground (arith, inert, escape_cons c s, escape_char-inert c (html_escape s)),
    )
