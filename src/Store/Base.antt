-- ===== src/Store/Base.antt =====
-- src/store.rs: errors, the checked arithmetic on i64 seconds, secrets and user codes.
use rustypaste.Prelude.{
  ◌≡◌, refl, ◌⊎◌, inl, inr, ℕ, zero, suc, ◌+◌, ◌-◌, ◌%◌, ◌^◌, String, Bool, ◌||◌, Option, none,
  some, List, [], ◌∷◌, ◌++◌, map, Text, codes, length, take, drop, leb, ◌==◌, is_ascii_digit, ◌&&◌,
  if◌then◌else◌, keep_where,
}

-- What SQLite answers to a statement that a constraint refuses, or to a row that is missing.
pub data DatabaseError : Type 0 where
  unique_violation foreign_key_violation row_not_found : DatabaseError

pub data StoreError : Type 0 where
  database : DatabaseError → StoreError
  io : StoreError
  invalid_system_time : StoreError
  random_generation : StoreError
  invalid_data : Text → StoreError
  invalid_input : String → StoreError
  capacity_exceeded : String → StoreError
  public_filename_conflict : Text → StoreError
  duration_overflow : StoreError

pub data Result {ℓ} (A : Type ℓ) : Type ℓ where
  ok : A → Result A
  err : StoreError → Result A

pub Result-cases {ℓ} :
    {A : Type ℓ} (r : Result A) → ((a : A) × (r ≡ ok a)) ⊎ ((e : StoreError) × (r ≡ err e))
Result-cases (ok a) = inl (a, refl)
Result-cases (err e) = inr (e, refl)

abbrev pub i64_max : ℕ
i64_max = 2 ^ 63 - 1

-- `i64::try_from` of an unsigned value
abbrev pub i64_try_from : ℕ → Option ℕ
i64_try_from n = if leb n i64_max then some n else none

-- `i64::checked_add` and `saturating_add`, at values that are not negative
abbrev pub checked_add : ℕ → ℕ → Option ℕ
checked_add a b = i64_try_from (a + b)

abbrev pub saturating_add : ℕ → ℕ → ℕ
saturating_add a b = if leb (a + b) i64_max then a + b else i64_max

-- `std::time::Duration`
pub record Duration : Type 0 where
  pub as_secs : ℕ
  pub subsec_nanos : ℕ

abbrev pub rolling_update_interval_seconds : ℕ
rolling_update_interval_seconds = 3600

abbrev pub max_active_credentials_per_principal : ℕ
max_active_credentials_per_principal = 32

abbrev pub max_active_oauth_flows : ℕ
max_active_oauth_flows = 10000

abbrev pub max_active_device_flows : ℕ
max_active_device_flows = 10000

-- `SystemTime::now().duration_since(UNIX_EPOCH)` in whole seconds; `none` before the epoch
abbrev pub Clock : Type 0
Clock = Option ℕ

abbrev pub or_overflow : Option ℕ → Result ℕ
or_overflow none = err duration_overflow
or_overflow (some n) = ok n

unfoldable pub unix_now : Clock → Result ℕ
unix_now none = err invalid_system_time
unix_now (some seconds) = or_overflow (i64_try_from seconds)

unfoldable pub duration_seconds : Duration → Result ℕ
duration_seconds d = or_overflow (i64_try_from d.as_secs)

abbrev expiry_after : ℕ → Result ℕ → Result ℕ
expiry_after now (err e) = err e
expiry_after now (ok lifetime) =
    if lifetime == 0
    then err (invalid_input "credential and flow lifetimes must be greater than zero")
    else or_overflow (checked_add now lifetime)

unfoldable pub expiry_from : ℕ → Duration → Result ℕ
unfolding duration_seconds
expiry_from now lifetime = expiry_after now (duration_seconds lifetime)

-- SHA-256 of `ring` and the URL-safe base64 of `base64`, which the program calls.
pub record Crypto : Type 0 where
  pub sha256 : Text → List ℕ
  pub base64_url : List ℕ → Text

-- What `SystemRandom::fill` leaves in the buffer; `none` when it fails.
abbrev pub Random : Type 0
Random = Option (List ℕ)

unfoldable pub generate_secret : Crypto → Random → Result Text
generate_secret crypto none = err random_generation
generate_secret crypto (some bytes) = ok (crypto.base64_url bytes)

abbrev pub alphabet : Text
alphabet = codes "23456789ABCDEFGHJKLMNPQRSTUVWXYZ"

abbrev pub nth_or_zero : List ℕ → ℕ → ℕ
nth_or_zero [] i = 0
nth_or_zero (x ∷ xs) zero = x
nth_or_zero (x ∷ xs) (suc i) = nth_or_zero xs i

abbrev pub dashed : Text → Text
dashed code = take 4 code ++ (b'-' ∷ drop 4 code)

unfoldable pub generate_user_code : Random → Result Text
generate_user_code none = err random_generation
generate_user_code (some bytes) =
    ok (dashed (map (λ value. nth_or_zero alphabet (value % 32)) bytes))

abbrev pub is_ascii_alphanumeric : ℕ → Bool
is_ascii_alphanumeric c =
    is_ascii_digit c || (leb b'A' c && leb c b'Z') || (leb b'a' c && leb c b'z')

-- `char::to_uppercase` of an ASCII letter or digit
abbrev pub to_ascii_uppercase : ℕ → ℕ
to_ascii_uppercase c = if leb b'a' c && leb c b'z' then c - 32 else c

-- the letters and digits of a user code, in upper case
unfoldable pub compact_code : Text → Text
compact_code value = map to_ascii_uppercase (keep_where is_ascii_alphanumeric value)

unfoldable pub normalize_user_code : Text → Text
unfolding compact_code
normalize_user_code value =
    let compact = compact_code value in if length compact == 8 then dashed compact else compact

-- `AuthStore`; its pool is the database that each call takes and returns.
pub record AuthStore : Type 0 where
  pub session_idle_timeout : Duration
  pub token_idle_timeout : Duration
