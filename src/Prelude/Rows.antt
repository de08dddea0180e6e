-- ===== src/Prelude/Rows.antt =====
-- SQL tables as lists of rows: DELETE, UPDATE, COUNT and SELECT with a WHERE test, and UNIQUE.
use Prim.Native.Nat.{ℕ, ◌+◌, ◌≤◌}
use mathlib.Core.Path.{◌≡◌, refl}
use mathlib.Core.Bool.{Bool, false, not}
use mathlib.Core.Option.{Option, none, some}
use mathlib.Core.List.{List, [], ◌∷◌, ◌++◌}
use native.Mathlib.Omega.{arith}
use rustypaste.Prelude.Tests.{if◌then◌else◌}
use rustypaste.Prelude.Lists.{any, any-append}

module _ {ℓ} {A : Type ℓ} where
  -- the rows with `p`
  abbrev pub keep_where : (A → Bool) → List A → List A
  keep_where p [] = []
  keep_where p (r ∷ rs) = let rest = keep_where p rs in if p r then r ∷ rest else rest

  -- DELETE FROM t WHERE p
  abbrev pub delete_where : (A → Bool) → List A → List A
  delete_where p rs = keep_where (λ r. not (p r)) rs

  -- UPDATE t SET f WHERE p
  abbrev pub update_where : (A → Bool) → (A → A) → List A → List A
  update_where p f [] = []
  update_where p f (r ∷ rs) = (if p r then f r else r) ∷ update_where p f rs

  -- SELECT COUNT(*) FROM t WHERE p; also the rows that a statement affects
  abbrev pub count_where : (A → Bool) → List A → ℕ
  count_where p [] = 0
  count_where p (r ∷ rs) = (if p r then 1 else 0) + count_where p rs

  -- SELECT * FROM t WHERE p LIMIT 1
  abbrev pub find_where : (A → Bool) → List A → Option A
  find_where p [] = none
  find_where p (r ∷ rs) = if p r then some r else find_where p rs

  -- No two rows clash: a UNIQUE index, for the test that two rows have one key.
  abbrev pub Distinct : (A → A → Bool) → List A → Type 0
  Distinct clash [] = Unit
  Distinct clash (r ∷ rs) = (any (clash r) rs ≡ false) × Distinct clash rs

module _ {ℓ} {A : Type ℓ} where
  pub any-keep_where :
      (q p : A → Bool) (rs : List A) → any q rs ≡ false → any q (keep_where p rs) ≡ false
  any-keep_where q p [] h = refl
  any-keep_where q p (r ∷ rs) h = ground (arith, any-keep_where q p rs)

  pub Distinct-keep_where :
      (clash : A → A → Bool) (p : A → Bool) (rs : List A)
      → Distinct clash rs
      → Distinct clash (keep_where p rs)
  Distinct-keep_where clash p [] h = tt
  Distinct-keep_where clash p (r ∷ rs) (h, k) =
      ground (arith, any-keep_where (clash r) p rs h, Distinct-keep_where clash p rs k)

  pub count_where-keep_where :
      (q p : A → Bool) (rs : List A) → count_where q (keep_where p rs) ≤ count_where q rs
  count_where-keep_where q p [] = omega arith
  count_where-keep_where q p (r ∷ rs) = ground (arith, count_where-keep_where q p rs)

  pub count_where-append :
      (q : A → Bool) (rs ss : List A)
      → count_where q (rs ++ ss) ≡ count_where q rs + count_where q ss
  count_where-append q [] ss = omega arith
  count_where-append q (r ∷ rs) ss = omega (arith, count_where-append q rs ss)

  -- A row that clashes with none is added.
  pub Distinct-append :
      (clash : A → A → Bool) (sym_clash : (a b : A) → clash a b ≡ clash b a) (rs : List A) (r : A)
      → Distinct clash rs
      → any (clash r) rs ≡ false
      → Distinct clash (rs ++ r ∷ [])
  Distinct-append clash s [] r h k = (refl, tt)
  Distinct-append clash s (x ∷ rs) r (h, hs) k =
      ground (arith, s x r, any-append (clash x) rs (r ∷ []), Distinct-append clash s rs r hs)

-- ORDER BY: `before` is the order.
module _ {ℓ} {A : Type ℓ} where
  abbrev pub place : (A → A → Bool) → A → List A → List A
  place before x [] = x ∷ []
  place before x (y ∷ ys) = if before x y then x ∷ y ∷ ys else y ∷ place before x ys

  abbrev pub order_by : (A → A → Bool) → List A → List A
  order_by before [] = []
  order_by before (x ∷ xs) = place before x (order_by before xs)
