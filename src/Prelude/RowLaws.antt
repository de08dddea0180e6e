-- ===== src/Prelude/RowLaws.antt =====
-- What DELETE, UPDATE and SELECT keep of a table, and what UNIQUE says of a row that was found.
use Prim.Native.Nat.{◌+◌, ◌≤◌}
use mathlib.Core.Path.{◌≡◌, refl, ◌∙◌, subst}
use mathlib.Core.Logic.{inl, inr}
use mathlib.Core.Bool.{Bool, true, false, ◌&&◌, ◌||◌}
use mathlib.Core.Option.{none, some}
use mathlib.Core.List.{List, [], ◌∷◌, ◌++◌}
use native.Mathlib.Omega.{arith}
use rustypaste.Prelude.Tests.{Bool-cases, if◌then◌else◌}
use rustypaste.Prelude.Lists.{length, any, All}
use rustypaste.Prelude.Rows.{keep_where, update_where, count_where, find_where, Distinct}

and_left : (a b : Bool) → (a && b) ≡ true → a ≡ true
and_left a b h = ground arith

-- the row that UPDATE leaves for a row
abbrev pub updated {ℓ} : {A : Type ℓ} → (A → Bool) → (A → A) → A → A
updated p f r = if p r then f r else r

module _ {ℓ} {A : Type ℓ} where
  pub any_weaken :
      (q p : A → Bool) (rs : List A)
      → ((r : A) → q r ≡ true → p r ≡ true)
      → any p rs ≡ false
      → any q rs ≡ false
  any_weaken q p [] k h = refl
  any_weaken q p (r ∷ rs) k h = ground (arith, k r, any_weaken q p rs k)

  pub any-update_where :
      (q p : A → Bool) (f : A → A) (rs : List A)
      → ((r : A) → q (f r) ≡ true → q r ≡ true)
      → any q rs ≡ false
      → any q (update_where p f rs) ≡ false
  any-update_where q p f [] k h = refl
  any-update_where q p f (r ∷ rs) k h = ground (arith, k r, any-update_where q p f rs k)

  pub any-updated :
      (q p : A → Bool) (f : A → A) (rs : List A)
      → any q (update_where p f rs) ≡ any (λ r. q (updated p f r)) rs
  any-updated q p f [] = refl
  any-updated q p f (r ∷ rs) = ground (arith, any-updated q p f rs)

  pub count_where-update_where :
      (q p : A → Bool) (f : A → A) (rs : List A)
      → ((r : A) → q (f r) ≡ true → q r ≡ true)
      → count_where q (update_where p f rs) ≤ count_where q rs
  count_where-update_where q p f [] k = omega arith
  count_where-update_where q p f (r ∷ rs) k =
      ground (arith, k r, count_where-update_where q p f rs k)

  pub Distinct-update_where :
      (clash : A → A → Bool) (p : A → Bool) (f : A → A) (rs : List A)
      → ((a b : A) → clash (updated p f a) (updated p f b) ≡ true → clash a b ≡ true)
      → Distinct clash rs
      → Distinct clash (update_where p f rs)
  Distinct-update_where clash p f [] k h = tt
  Distinct-update_where clash p f (r ∷ rs) k (h, hs) = (
    any-updated (clash (updated p f r)) p f rs
        ∙ any_weaken (λ x. clash (updated p f r) (updated p f x)) (clash r) rs (k r) h,
    Distinct-update_where clash p f rs k hs,
  )

  pub find_where-holds :
      (p : A → Bool) (rs : List A) (r : A) → find_where p rs ≡ some r → p r ≡ true
  find_where-holds p [] r h = cc
  find_where-holds p (x ∷ rs) r h = ground (arith, find_where-holds p rs r)

  pub find_none : (p : A → Bool) (rs : List A) → any p rs ≡ false → find_where p rs ≡ none
  find_none p [] h = refl
  find_none p (r ∷ rs) h = ground (arith, find_none p rs)

  pub any_found :
      (p q : A → Bool) (rs : List A) (r : A)
      → find_where p rs ≡ some r
      → q r ≡ true
      → any q rs ≡ true
  any_found p q [] r h k = cc
  any_found p q (x ∷ rs) r h k = ground (arith, any_found p q rs r)

  pub any-find_where :
      (p q : A → Bool) (rs : List A) (r : A)
      → find_where p rs ≡ some r
      → any q rs ≡ false
      → q r ≡ false
  any-find_where p q [] r h k = cc
  any-find_where p q (x ∷ rs) r h k = ground (arith, any-find_where p q rs r)

  found_first :
      (p : A → Bool) (rs : List A) (x r : A) → p x ≡ true → find_where p (x ∷ rs) ≡ some r → x ≡ r
  found_first p rs x r e h = ground arith

  pub All-find_where {κ} :
      (P : A → Type κ) (p : A → Bool) (rs : List A) (r : A)
      → find_where p rs ≡ some r
      → All P rs
      → P r
  All-find_where P p [] r h k = absurd (cc)
  All-find_where P p (x ∷ rs) r h (k, ks) = elim (Bool-cases (p x)) [
    | inl e ↦ subst P (found_first p rs x r e h) k
    | inr e ↦ All-find_where P p rs r (rw e at h) ks
  ]

  -- Two rows with `p` clash: the row that is found is the only one with `p`.
  pub any_unique :
      (clash : A → A → Bool) (p q : A → Bool) (rs : List A) (r : A)
      → ((a b : A) → p a ≡ true → p b ≡ true → clash a b ≡ true)
      → Distinct clash rs
      → find_where p rs ≡ some r
      → q r ≡ false
      → any (λ x. p x && q x) rs ≡ false
  any_unique clash p q [] r k d h z = refl
  any_unique clash p q (x ∷ rs) r k (d, ds) h z = elim (Bool-cases (p x)) [
    | inl e ↦
        let others =
          any_weaken (λ y. p y && q y) (clash x) rs (λ y both. k x y e (and_left _ _ both)) d in
        ground (arith, others, found_first p rs x r e h)
    | inr e ↦ ground (arith, any_unique clash p q rs r k ds)
  ]

  pub All-keep_where {κ} :
      (P : A → Type κ) (p : A → Bool) (rs : List A) → All P rs → All P (keep_where p rs)
  All-keep_where P p [] h = tt
  All-keep_where P p (r ∷ rs) (h, hs) = ground (arith, All-keep_where P p rs hs)

  pub All-update_where {κ} :
      (P : A → Type κ) (p : A → Bool) (f : A → A) (rs : List A)
      → ((r : A) → P r → P (f r))
      → All P rs
      → All P (update_where p f rs)
  All-update_where P p f [] k h = tt
  All-update_where P p f (r ∷ rs) k (h, hs) = ground (arith, k r h, All-update_where P p f rs k hs)

module _ {ℓ} {A : Type ℓ} where
  pub any-false : (rs : List A) → any (λ r. false) rs ≡ false
  any-false [] = refl
  any-false (r ∷ rs) = any-false rs

  pub count_none : (q : A → Bool) (rs : List A) → any q rs ≡ false → count_where q rs ≡ 0
  count_none q [] h = refl
  count_none q (r ∷ rs) h = ground (arith, count_none q rs)

  pub count_or :
      (p q : A → Bool) (rs : List A)
      → count_where (λ r. p r || q r) rs ≤ count_where p rs + count_where q rs
  count_or p q [] = omega arith
  count_or p q (r ∷ rs) = ground (arith, count_or p q rs)

  -- The rows with `q` among those that are kept are some of the rows with `s`.
  pub count_where_kept :
      (q p s : A → Bool) (rs : List A)
      → ((r : A) → q r ≡ true → p r ≡ true → s r ≡ true)
      → count_where q (keep_where p rs) ≤ count_where s rs
  count_where_kept q p s [] k = omega arith
  count_where_kept q p s (r ∷ rs) k = ground (arith, k r, count_where_kept q p s rs k)

  -- What UPDATE and DELETE do to no row with `q`.
  pub any_updated_true :
      (q p : A → Bool) (f : A → A) (rs : List A)
      → ((r : A) → q r ≡ true → q (f r) ≡ true)
      → any q rs ≡ true
      → any q (update_where p f rs) ≡ true
  any_updated_true q p f [] k h = h
  any_updated_true q p f (r ∷ rs) k h = ground (arith, k r, any_updated_true q p f rs k)

  pub any_kept_true :
      (q p : A → Bool) (rs : List A)
      → ((r : A) → q r ≡ true → p r ≡ true)
      → any q rs ≡ true
      → any q (keep_where p rs) ≡ true
  any_kept_true q p [] k h = h
  any_kept_true q p (r ∷ rs) k h = ground (arith, k r, any_kept_true q p rs k)

  pub any_present :
      (q p : A → Bool) (f : A → A) (rs : List A)
      → ((r : A) → p r ≡ true → q (f r) ≡ true)
      → any p rs ≡ true
      → any q (update_where p f rs) ≡ true
  any_present q p f [] k h = absurd cc
  any_present q p f (r ∷ rs) k h = ground (arith, k r, any_present q p f rs k)

  pub length-keep_where : (p : A → Bool) (rs : List A) → length (keep_where p rs) ≤ length rs
  length-keep_where p [] = omega arith
  length-keep_where p (r ∷ rs) = ground (arith, length-keep_where p rs)

  pub any_implies :
      (q p : A → Bool) (rs : List A)
      → ((r : A) → q r ≡ true → p r ≡ true)
      → any q rs ≡ true
      → any p rs ≡ true
  any_implies q p [] k h = h
  any_implies q p (r ∷ rs) k h = ground (arith, k r, any_implies q p rs k)

  pub find_where-update_where :
      (t p : A → Bool) (f : A → A) (rs : List A) (x : A)
      → ((r : A) → t (updated p f r) ≡ t r)
      → find_where t rs ≡ some x
      → find_where t (update_where p f rs) ≡ some (updated p f x)
  find_where-update_where t p f [] x same h = absurd (ground arith)
  find_where-update_where t p f (r ∷ rs) x same h = elim (Bool-cases (t r)) [
    | inl hit ↦ ground (arith, same r)
    | inr other ↦ ground (arith, same r, find_where-update_where t p f rs x same)
  ]

  -- a row that is added is found where no other is
  pub find_where-append :
      (p : A → Bool) (rs : List A) (x : A)
      → any p rs ≡ false
      → p x ≡ true
      → find_where p (rs ++ x ∷ []) ≡ some x
  find_where-append p [] x h k = ground arith
  find_where-append p (r ∷ rs) x h k = ground (arith, find_where-append p rs x)

  pub find_where-some :
      (p : A → Bool) (rs : List A) → any p rs ≡ true → (x : A) × (find_where p rs ≡ some x)
  find_where-some p [] h = absurd (ground arith)
  find_where-some p (r ∷ rs) h = elim (Bool-cases (p r)) [
    | inl hit ↦ (r, ground arith)
    | inr other ↦ let (x, found) = find_where-some p rs (ground arith) in (x, ground arith)
  ]
