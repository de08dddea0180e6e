-- ===== src/Server/Expiry.antt =====
-- src/server.rs: `expiry_seconds`, from the milliseconds of a file's name to the seconds of its row.
use Prim.Native.Nat.{◌≤◌, ◌<◌, ◌*◌, ◌/◌}
use rustypaste.Prelude.{ℕ, ◌+◌, ◌≡◌, Option, none, some, leb, if◌then◌else◌, arith}
use rustypaste.Store.Base.{i64_max}
use rustypaste.Auth.Request.{internal, Reply, accepted, refused}

abbrev pub u128_max : ℕ
u128_max = 340282366920938463463374607431768211455

abbrev seconds_of : ℕ → Reply (Option ℕ)
seconds_of value =
    if leb (value + 999) u128_max
    then (if leb ((value + 999) / 1000) i64_max
        then accepted (some ((value + 999) / 1000))
        else refused internal)
    else refused internal

unfoldable pub expiry_seconds : Option ℕ → Reply (Option ℕ)
expiry_seconds none = accepted none
expiry_seconds (some value) = seconds_of value

-- The seconds are the milliseconds rounded up: never before the expiry, and less than a second after
-- it; and they fit in an i64.
expiry_rounds_up :
    (millis seconds : ℕ)
    → expiry_seconds (some millis) ≡ accepted (some seconds)
    → (millis ≤ seconds * 1000) × (seconds * 1000 < millis + 1000) × (seconds ≤ 9223372036854775807)
unfolding expiry_seconds
expiry_rounds_up millis seconds h = ground arith
