-- ===== src/Prelude/Decimal.antt =====
-- Decimal numbers as text, as `format!` writes them and `parse` reads them.
use Prim.Native.Nat.{ℕ, zero, suc, ◌+◌, ◌-◌, ◌*◌, ◌/◌, ◌%◌, ◌≤◌, ◌<◌}
use mathlib.Core.Path.{◌≡◌, refl}
use mathlib.Core.Bool.{Bool, true, ◌&&◌}
use mathlib.Core.List.{[], ◌∷◌, ◌++◌}
use native.Mathlib.Omega.{arith}
use rustypaste.Prelude.Tests.{ltb, if◌then◌else◌}
use rustypaste.Prelude.Lists.{length, length-append, all}
use rustypaste.Prelude.Chars.{Text, is_ascii_digit}

-- the digits of a number of at most `fuel` + 1 of them
abbrev pub digits : (fuel : ℕ) → ℕ → Text
digits zero n = (b'0' + n % 10) ∷ []
digits (suc fuel) n =
    let front = digits fuel (n / 10) in
    if ltb n 10 then (b'0' + n) ∷ [] else front ++ (b'0' + n % 10) ∷ []

-- `format!("{n}")` of a u128, which has at most 39 digits
unfoldable pub decimal : ℕ → Text
decimal = digits 38

abbrev pub read_from : ℕ → Text → ℕ
read_from n [] = n
read_from n (c ∷ s) = read_from (n * 10 + (c - b'0')) s

-- The number that a text of digits denotes.
abbrev pub read_decimal : Text → ℕ
read_decimal = read_from 0

read_from-append :
    (n : ℕ) (s : Text) (c : ℕ) → read_from n (s ++ c ∷ []) ≡ read_from n s * 10 + (c - b'0')
read_from-append n [] c = refl
read_from-append n (d ∷ s) c = read_from-append (n * 10 + (d - b'0')) s c

-- 10 to the power of a number
abbrev pub power : ℕ → ℕ
power zero = 1
power (suc k) = 10 * power k

power_positive : (k : ℕ) → 1 ≤ power k
power_positive zero = omega arith
power_positive (suc k) = omega (arith, power_positive k)

pub read_digits : (fuel n : ℕ) → n < power (suc fuel) → read_from 0 (digits fuel n) ≡ n
read_digits zero n h = omega arith
read_digits (suc fuel) n h = ground (
  arith,
  read_digits fuel (n / 10) (omega arith),
  read_from-append 0 (digits fuel (n / 10)) (b'0' + n % 10),
)

all-append-one : (p : ℕ → Bool) (s : Text) (c : ℕ) → all p (s ++ c ∷ []) ≡ (all p s && p c)
all-append-one p [] c = ground arith
all-append-one p (d ∷ s) c = ground (arith, all-append-one p s c)

pub all-digits : (fuel n : ℕ) → all is_ascii_digit (digits fuel n) ≡ true
all-digits zero n = ground arith
all-digits (suc fuel) n = ground (
  arith,
  all-digits fuel (n / 10),
  all-append-one is_ascii_digit (digits fuel (n / 10)) (b'0' + n % 10),
)

pub length-digits : (k fuel n : ℕ) → power k ≤ n → n < power (suc fuel) → k < length (digits fuel n)
length-digits zero zero n h b = ground arith
length-digits zero (suc fuel) n h b =
    ground (arith, length-append (digits fuel (n / 10)) ((b'0' + n % 10) ∷ []))
length-digits (suc k) zero n h b = absurd (omega (arith, power_positive k))
length-digits (suc k) (suc fuel) n h b = ground (
  arith,
  power_positive k,
  length-append (digits fuel (n / 10)) ((b'0' + n % 10) ∷ []),
  length-digits k fuel (n / 10) (omega arith) (omega arith),
)
