-- ===== src/Store/UserCodes.antt =====
-- src/store.rs: user codes of device logins, as they are drawn and as they are typed in.
use Prim.Native.Nat.{◌<◌, ◌%◌}
use rustypaste.Prelude.{
  ℕ, zero, suc, ◌≡◌, refl, Bool, true, ◌&&◌, List, [], ◌∷◌, ◌++◌, map, Text, some, all, take, drop,
  length, ◌==◌, arith,
}
use rustypaste.Store.Base.{
  ok, alphabet, nth_or_zero, dashed, generate_user_code, is_ascii_alphanumeric, to_ascii_uppercase,
  compact_code, normalize_user_code,
}

-- a letter or a digit that upper case leaves alone
is_plain : ℕ → Bool
is_plain c = is_ascii_alphanumeric c && to_ascii_uppercase c == c

nth_is_plain :
    (xs : List ℕ) (i : ℕ)
    → all is_plain xs ≡ true
    → i < length xs
    → is_plain (nth_or_zero xs i) ≡ true
nth_is_plain [] i h k = absurd (omega arith)
nth_is_plain (x ∷ xs) zero h k = ground arith
nth_is_plain (x ∷ xs) (suc i) h k = nth_is_plain xs i (ground arith) (omega arith)

char_at : ℕ → ℕ
char_at value = nth_or_zero alphabet (value % 32)

char_is_plain : (value : ℕ) → is_plain (char_at value) ≡ true
unfolding char_at is_plain
char_is_plain value = nth_is_plain alphabet (value % 32) refl (omega arith)

compact_plain : (xs : Text) → all is_plain xs ≡ true → compact_code xs ≡ xs
unfolding compact_code is_plain
compact_plain [] h = refl
compact_plain (x ∷ xs) h = ground (arith, compact_plain xs)

-- A dash anywhere in a code is dropped.
compact_dash :
    (n : ℕ) (xs : Text)
    → all is_plain xs ≡ true
    → compact_code (take n xs ++ (b'-' ∷ drop n xs)) ≡ xs
unfolding compact_code is_plain
compact_dash zero xs h = unfold compact_code in compact_plain xs h
compact_dash (suc n) [] h = refl
compact_dash (suc n) (x ∷ xs) h = ground (arith, compact_dash n xs)

drawn_is_plain : (bytes : List ℕ) → all is_plain (map char_at bytes) ≡ true
drawn_is_plain [] = refl
drawn_is_plain (b ∷ bytes) = ground (arith, char_is_plain b, drawn_is_plain bytes)

length-drawn : (bytes : List ℕ) → length (map char_at bytes) ≡ length bytes
length-drawn [] = refl
length-drawn (b ∷ bytes) = omega (arith, length-drawn bytes)

-- The code that 8 random bytes make is normalised to itself, whatever the bytes.
pub generated_code_is_normal :
    (bytes : List ℕ) (code : Text)
    → length bytes ≡ 8
    → generate_user_code (some bytes) ≡ ok code
    → normalize_user_code code ≡ code
unfolding generate_user_code normalize_user_code char_at
generated_code_is_normal bytes code eight h =
    let drawn = map char_at bytes in
    let same : dashed drawn ≡ code = ground arith in
    let compact = compact_dash 4 drawn (drawn_is_plain bytes) in
    rw⁻¹ same (rw compact (ground (arith, length-drawn bytes)))
