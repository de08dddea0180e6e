-- ===== src/Store/Principals/Listing.antt =====
-- src/store.rs: `list_principals`, in the order of kind, name and id.
use rustypaste.Prelude.{
  Bool, true, false, ◌&&◌, ◌||◌, Option, none, some, List, [], ◌∷◌, Text, ltb, leb, ◌==◌, order_by,
  text_eq,
}
use rustypaste.Store.Base.{Result, ok, err}
use rustypaste.Store.Schema.{PrincipalRow, Tx, ◌>>=◌, gets, lift}
use rustypaste.Store.Principals.{Principal, principal_from_row}

-- SQLite orders text by its bytes, which for UTF-8 is the order of the code points.
abbrev text_before : Text → Text → Bool
text_before [] [] = false
text_before [] (d ∷ t) = true
text_before (c ∷ s) [] = false
text_before (c ∷ s) (d ∷ t) = ltb c d || (c == d && text_before s t)

-- NULL comes first.
abbrev name_before : Option Text → Option Text → Bool
name_before none none = false
name_before none (some t) = true
name_before (some s) none = false
name_before (some s) (some t) = text_before s t

abbrev same_name : Option Text → Option Text → Bool
same_name none none = true
same_name (some s) (some t) = text_eq s t
same_name _ _ = false

-- COALESCE(stable_name, subject)
abbrev pub coalesced_name : PrincipalRow → Option Text
coalesced_name r = elim r.stable_name [ none ↦ r.subject | some name ↦ some name ]

-- ORDER BY kind, COALESCE(stable_name, subject), id
abbrev pub by_kind_name_id : PrincipalRow → PrincipalRow → Bool
by_kind_name_id a b =
    text_before a.kind b.kind
    || (text_eq a.kind b.kind
        && (name_before (coalesced_name a) (coalesced_name b)
            || (same_name (coalesced_name a) (coalesced_name b) && leb a.id b.id)))

-- `rows.iter().map(principal_from_row).collect()`
unfoldable pub decode_principals : List PrincipalRow → Result (List Principal)
decode_principals [] = ok []
decode_principals (r ∷ rs) = elim (principal_from_row r) [
  | err e ↦ err e
  | ok principal ↦ elim (decode_principals rs) [
    | err e ↦ err e
    | ok principals ↦ ok (principal ∷ principals)
  ]
]

unfoldable pub list_principals : Tx (List Principal)
unfolding decode_principals
list_principals = do
  rows ← gets (λ db. order_by by_kind_name_id db.principals.rows)
  lift (decode_principals rows)
