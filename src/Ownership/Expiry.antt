-- ===== src/Ownership/Expiry.antt =====
-- src/ownership.rs: `split_expiry`, which reads back from a file's name the expiry that an upload wrote
-- there.
use rustypaste.Prelude.{
  ℕ, ◌+◌, ◌/◌, ◌≡◌, refl, ◌≤◌, ◌<◌, true, not, ◌||◌, Option, none, some, [], ◌∷◌, ◌++◌, Text,
  is_ascii_digit, utf8_len, leb, ltb, all, length, decimal, digits, read_decimal, read_digits,
  all-digits, length-digits, arith, if◌then◌else◌,
}
use rustypaste.Store.Base.{i64_max}
use rustypaste.Auth.Request.{Reply, accepted, refused}
use rustypaste.Paste.Path.{rsplit_dot}
use rustypaste.Server.Expiry.{expiry_seconds, u128_max}

-- `parse::<u128>` of a text of digits
abbrev pub parse_u128 : Text → Option ℕ
parse_u128 s = if leb (read_decimal s) u128_max then some (read_decimal s) else none

-- the seconds of an expiry in milliseconds, rounded up; `none` is an error
abbrev seconds_of : ℕ → Option ℕ
seconds_of millis =
    if leb (millis + 999) u128_max
    then (if leb ((millis + 999) / 1000) i64_max then some ((millis + 999) / 1000) else none)
    else none

abbrev with_expiry : Text → Option ℕ → Option (Text × Option ℕ)
with_expiry name none = none
with_expiry name (some seconds) = some (name, some seconds)

abbrev read_expiry : Text → Option ℕ → Option (Text × Option ℕ)
read_expiry name none = none
read_expiry name (some millis) = with_expiry name (seconds_of millis)

-- The filename and the expiry in seconds; `none` is an error.
unfoldable pub split_expiry : Text → Option (Text × Option ℕ)
split_expiry filename = elim (rsplit_dot filename) [
  | none ↦ some (filename, none)
  | some (public_filename, suffix) ↦
      if ltb (utf8_len suffix) 10 || not (all is_ascii_digit suffix)
      then some (filename, none)
      else read_expiry public_filename (parse_u128 suffix)
]

no_dot : (s : Text) → all is_ascii_digit s ≡ true → rsplit_dot s ≡ none
unfolding rsplit_dot
no_dot [] h = refl
no_dot (c ∷ s) h = ground (arith, no_dot s)

rsplit_at :
    (name s : Text) → all is_ascii_digit s ≡ true → rsplit_dot (name ++ b'.' ∷ s) ≡ some (name, s)
unfolding rsplit_dot
rsplit_at [] s h = ground (arith, no_dot s h)
rsplit_at (c ∷ name) s h = ground (arith, rsplit_at name s h)

ascii_len : (s : Text) → all is_ascii_digit s ≡ true → utf8_len s ≡ length s
ascii_len [] h = refl
ascii_len (c ∷ s) h = ground (arith, ascii_len s)

abbrev pub recorded : Text → Reply (Option ℕ) → Option (Text × Option ℕ)
recorded name (accepted seconds) = some (name, seconds)
recorded name (refused e) = none

split_digits :
    (name s : Text) (millis : ℕ)
    → all is_ascii_digit s ≡ true
    → 9 < length s
    → read_decimal s ≡ millis
    → millis ≤ u128_max
    → split_expiry (name ++ b'.' ∷ s) ≡ recorded name (expiry_seconds (some millis))
unfolding split_expiry expiry_seconds
split_digits name s millis shown long value high =
    ground (arith, rsplit_at name s shown, ascii_len s shown)

-- The name that an upload gives a file that expires, which is its public filename, a dot and the expiry
-- in milliseconds, is split by the scan into the public filename and the seconds that the upload
-- wrote into the database; where the upload has an error for the expiry, so has the scan.
pub split_expiry-decimal :
    (name : Text) (millis : ℕ)
    → 1000000000 ≤ millis
    → millis ≤ u128_max
    → split_expiry (name ++ b'.' ∷ decimal millis) ≡ recorded name (expiry_seconds (some millis))
unfolding decimal
split_expiry-decimal name millis low high =
    split_digits name (digits 38 millis) millis (all-digits 38 millis)
      (length-digits 9 38 millis (omega arith) (omega arith)) (read_digits 38 millis (omega arith))
      high
