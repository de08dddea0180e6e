-- ===== src/Prelude/Ordered.antt =====
-- ORDER BY, LIMIT and SELECT on lists of rows: what they keep.
use Prim.Native.Nat.{ℕ, zero, suc, ◌≤◌}
use mathlib.Core.Path.{◌≡◌, refl}
use mathlib.Core.Bool.{Bool, true, false, ◌||◌}
use mathlib.Core.Option.{some}
use mathlib.Core.List.{List, [], ◌∷◌, ◌++◌, map}
use native.Mathlib.Omega.{arith}
use rustypaste.Prelude.Lists.{length, take, any}
use rustypaste.Prelude.Rows.{keep_where, count_where, find_where, place, order_by}

module _ {ℓ} {A : Type ℓ} where
  any-place :
      (p : A → Bool) (before : A → A → Bool) (x : A) (ys : List A)
      → any p (place before x ys) ≡ (p x || any p ys)
  any-place p before x [] = refl
  any-place p before x (y ∷ ys) = ground (arith, any-place p before x ys)

  pub any-order_by :
      (p : A → Bool) (before : A → A → Bool) (xs : List A) → any p (order_by before xs) ≡ any p xs
  any-order_by p before [] = refl
  any-order_by p before (x ∷ xs) =
      ground (arith, any-order_by p before xs, any-place p before x (order_by before xs))

  length-place :
      (before : A → A → Bool) (x : A) (ys : List A) → length (place before x ys) ≡ suc (length ys)
  length-place before x [] = refl
  length-place before x (y ∷ ys) = ground (arith, length-place before x ys)

  pub length-order_by :
      (before : A → A → Bool) (xs : List A) → length (order_by before xs) ≡ length xs
  length-order_by before [] = refl
  length-order_by before (x ∷ xs) =
      ground (arith, length-order_by before xs, length-place before x (order_by before xs))

  pub take_all : (n : ℕ) (xs : List A) → length xs ≤ n → take n xs ≡ xs
  take_all zero [] h = refl
  take_all (suc n) [] h = refl
  take_all zero (x ∷ xs) h = absurd (ground arith)
  take_all (suc n) (x ∷ xs) h = ground (arith, take_all n xs)

  pub any-map {κ} :
      {B : Type κ} (p : B → Bool) (f : A → B) (xs : List A)
      → any p (map f xs) ≡ any (λ x. p (f x)) xs
  any-map p f [] = refl
  any-map p f (x ∷ xs) = ground (arith, any-map p f xs)

  pub count_where-length :
      (p : A → Bool) (xs : List A) → length (keep_where p xs) ≡ count_where p xs
  count_where-length p [] = refl
  count_where-length p (x ∷ xs) = ground (arith, count_where-length p xs)

  -- A row that is kept, after rows without `p`, is the first with `p`.
  pub find_where-keep_where-append :
      (p q : A → Bool) (xs : List A) (x : A)
      → any p xs ≡ false
      → p x ≡ true
      → q x ≡ true
      → find_where p (keep_where q (xs ++ x ∷ [])) ≡ some x
  find_where-keep_where-append p q [] x none_of this kept = ground arith
  find_where-keep_where-append p q (y ∷ xs) x none_of this kept =
      ground (arith, find_where-keep_where-append p q xs x)
