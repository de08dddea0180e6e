-- ===== src/Util/Extension.antt =====
-- src/util.rs: `get_extension_from_filename`, with simple and compound extensions.
use rustypaste.Prelude.{
  ℕ, ◌≡◌, refl, sym, ap, ◌∙◌, Bool, true, false, Option, none, some, List, [], ◌∷◌, ◌++◌, Text,
  is_empty, ◌==◌, Option-cases, Bool-cases, inl, inr, arith, if◌then◌else◌,
}

abbrev prepend : ℕ → List Text → List Text
prepend c [] = (c ∷ []) ∷ []
prepend c (p ∷ ps) = (c ∷ p) ∷ ps

-- `split('.')`: one part more than there are dots
abbrev pub split_dots : Text → List Text
split_dots [] = [] ∷ []
split_dots (c ∷ s) = let rest = split_dots s in if c == b'.' then [] ∷ rest else prepend c rest

-- `join(".")`
abbrev pub join_dots : List Text → Text
join_dots [] = []
join_dots (p ∷ []) = p
join_dots (p ∷ q ∷ ps) = p ++ b'.' ∷ join_dots (q ∷ ps)

-- The loop over the parts from the start index on; `previous` is the part before, where it is not the
-- first. `known` is whether `mime_guess` has the extension.
unfoldable pub find_extension : (Text → Bool) → Option Text → List Text → Option Text
find_extension known previous [] = none
find_extension known previous (p ∷ ps) =
    let rest = find_extension known (some p) ps in
    if known (join_dots (p ∷ ps))
    then elim previous [
      | none ↦ some (join_dots (p ∷ ps))
      | some q ↦ if known q then some (join_dots (q ∷ p ∷ ps)) else some (join_dots (p ∷ ps))
    ]
    else rest

abbrev last_part : Text → List Text → Text
last_part p [] = p
last_part p (q ∷ ps) = last_part q ps

-- `Path::extension` of a name in parts, what follows its last dot, unless its only dot is its first
-- character. The name `..` is no file name.
abbrev path_extension : List Text → Option Text
path_extension [] = none
path_extension (p ∷ []) = none
path_extension (p ∷ q ∷ []) = if is_empty p then none else some q
path_extension (p ∷ q ∷ r ∷ ps) = some (last_part r ps)

abbrev or_else : Option Text → Option Text → Option Text
or_else none o = o
or_else (some s) o = some s

abbrev extension_of_parts : (Text → Bool) → List Text → Option Text
extension_of_parts known [] = none
extension_of_parts known (p ∷ []) = none
extension_of_parts known (p ∷ q ∷ []) =
    if is_empty p
    then none
    else or_else (find_extension known none (q ∷ [])) (path_extension (p ∷ q ∷ []))
extension_of_parts known (p ∷ q ∷ r ∷ ps) =
    or_else
      (if is_empty p
        then find_extension known none (r ∷ ps)
        else find_extension known none (q ∷ r ∷ ps))
      (path_extension (p ∷ q ∷ r ∷ ps))

-- The file name of the path stands here, where it has one that is text.
unfoldable pub get_extension_from_filename : (Text → Bool) → Option Text → Option Text
get_extension_from_filename known none = none
get_extension_from_filename known (some file_name) = extension_of_parts known (split_dots file_name)

abbrev has_part : List Text → Bool
has_part [] = false
has_part (p ∷ ps) = true

prepend-has_part : (c : ℕ) (ps : List Text) → has_part (prepend c ps) ≡ true
prepend-has_part c [] = refl
prepend-has_part c (p ∷ ps) = refl

split_dots-has_part : (s : Text) → has_part (split_dots s) ≡ true
split_dots-has_part [] = refl
split_dots-has_part (c ∷ s) = ground (arith, prepend-has_part c (split_dots s))

join_dots-prepend : (c : ℕ) (ps : List Text) → join_dots (prepend c ps) ≡ c ∷ join_dots ps
join_dots-prepend c [] = refl
join_dots-prepend c (p ∷ []) = refl
join_dots-prepend c (p ∷ q ∷ ps) = refl

join_dots-empty : (ps : List Text) → has_part ps ≡ true → join_dots ([] ∷ ps) ≡ b'.' ∷ join_dots ps
join_dots-empty [] h = absurd (ground arith)
join_dots-empty (p ∷ ps) h = refl

join_dots-split_dots : (s : Text) → join_dots (split_dots s) ≡ s
join_dots-split_dots [] = refl
join_dots-split_dots (c ∷ s) = ground (
  arith,
  join_dots-split_dots s,
  join_dots-prepend c (split_dots s),
  join_dots-empty (split_dots s) (split_dots-has_part s),
)

dotted_assoc : (t q x : Text) → (t ++ b'.' ∷ q) ++ x ≡ t ++ b'.' ∷ (q ++ x)
dotted_assoc [] q x = refl
dotted_assoc (c ∷ t) q x = ap (λ s. c ∷ s) (dotted_assoc t q x)

dotted-is_empty : (t q : Text) → is_empty (t ++ b'.' ∷ q) ≡ false
dotted-is_empty [] q = refl
dotted-is_empty (c ∷ t) q = refl

-- `ext` is what follows a dot of the name that is not its first character.
abbrev pub FollowsDot : Text → Text → Type 0
FollowsDot name ext = (stem : Text) × (name ≡ stem ++ b'.' ∷ ext) × (is_empty stem ≡ false)

module _ (known : Text → Bool) (name ext : Text) where
  after_previous :
      (t q : Text) (ps : List Text)
      → name ≡ t ++ b'.' ∷ join_dots (q ∷ ps)
      → is_empty t ≡ false
      → find_extension known (some q) ps ≡ some ext
      → FollowsDot name ext
  unfolding find_extension
  after_previous t q [] e nonempty found = absurd (ground arith)
  after_previous t q (p ∷ ps) e nonempty found =
      let moved = e ∙ sym (dotted_assoc t q (b'.' ∷ join_dots (p ∷ ps))) in
      elim (Bool-cases (known (join_dots (p ∷ ps)))) [
        | inr unknown ↦
            after_previous (t ++ b'.' ∷ q) p ps moved (dotted-is_empty t q) (ground arith)
        | inl hit ↦ elim (Bool-cases (known q)) [
          | inl compound ↦ (t, ground arith, nonempty)
          | inr simple ↦ (t ++ b'.' ∷ q, ground arith, dotted-is_empty t q)
        ]
      ]

  from_start :
      (t : Text) (ps : List Text)
      → name ≡ t ++ b'.' ∷ join_dots ps
      → is_empty t ≡ false
      → find_extension known none ps ≡ some ext
      → FollowsDot name ext
  unfolding find_extension
  from_start t [] e nonempty found = absurd (ground arith)
  from_start t (p ∷ ps) e nonempty found = elim (Bool-cases (known (join_dots (p ∷ ps)))) [
    | inr unknown ↦ after_previous t p ps e nonempty (ground arith)
    | inl hit ↦ (t, ground arith, nonempty)
  ]

  after_last :
      (t p : Text) (ps : List Text)
      → name ≡ t ++ b'.' ∷ join_dots (p ∷ ps)
      → is_empty t ≡ false
      → last_part p ps ≡ ext
      → FollowsDot name ext
  after_last t p [] e nonempty found = (t, ground arith, nonempty)
  after_last t p (q ∷ ps) e nonempty found =
      after_last (t ++ b'.' ∷ p) q ps (e ∙ sym (dotted_assoc t p (b'.' ∷ join_dots (q ∷ ps))))
        (dotted-is_empty t p) found

  -- from the second dot on, whatever stands before the first
  second_dot :
      (p q r : Text) (ps : List Text)
      → name ≡ join_dots (p ∷ q ∷ r ∷ ps)
      → name ≡ (p ++ b'.' ∷ q) ++ b'.' ∷ join_dots (r ∷ ps)
  second_dot p q r ps e = e ∙ sym (dotted_assoc p q (b'.' ∷ join_dots (r ∷ ps)))

  parts_follow :
      (parts : List Text)
      → name ≡ join_dots parts
      → extension_of_parts known parts ≡ some ext
      → FollowsDot name ext
  parts_follow [] e found = absurd (ground arith)
  parts_follow (p ∷ []) e found = absurd (ground arith)
  parts_follow (p ∷ q ∷ []) e found = elim (Bool-cases (is_empty p)) [
    | inl hidden ↦ absurd (ground arith)
    | inr shown ↦ elim (Option-cases (find_extension known none (q ∷ []))) [
      | inl unknown ↦ after_last p q [] e shown (ground arith)
      | inr (x, hit) ↦ from_start p (q ∷ []) e shown (ground arith)
    ]
  ]
  parts_follow (p ∷ q ∷ r ∷ ps) e found = elim (Bool-cases (is_empty p)) [
    | inl hidden ↦ elim (Option-cases (find_extension known none (r ∷ ps))) [
      | inl unknown ↦
          after_last (p ++ b'.' ∷ q) r ps (second_dot p q r ps e) (dotted-is_empty p q)
            (ground arith)
      | inr (x, hit) ↦
          from_start (p ++ b'.' ∷ q) (r ∷ ps) (second_dot p q r ps e) (dotted-is_empty p q)
            (ground arith)
    ]
    | inr shown ↦ elim (Option-cases (find_extension known none (q ∷ r ∷ ps))) [
      | inl unknown ↦ after_last p q (r ∷ ps) e shown (ground arith)
      | inr (x, hit) ↦ from_start p (q ∷ r ∷ ps) e shown (ground arith)
    ]
  ]

  -- An extension that is found follows a dot of the file name, and something stands before that dot: a
  -- name that only starts with a dot has no extension.
  extension-FollowsDot :
      get_extension_from_filename known (some name) ≡ some ext → FollowsDot name ext
  unfolding get_extension_from_filename
  extension-FollowsDot = parts_follow (split_dots name) (sym (join_dots-split_dots name))
