-- ===== src/Paste/Kind.antt =====
-- `PasteType` of src/paste.rs, with the column values of src/store.rs and the duplicate rules.
use rustypaste.Prelude.{
  ◌≡◌, refl, Bool, true, false, Option, none, some, List, [], ◌∷◌, Text, codes, text_eq,
  if◌then◌else◌,
}

pub data PasteType : Type 0 where
  file remote_file oneshot url oneshot_url protected_file : PasteType

-- derived `PartialEq`
abbrev pub kind_eq : PasteType → PasteType → Bool
kind_eq file file = true
kind_eq remote_file remote_file = true
kind_eq oneshot oneshot = true
kind_eq url url = true
kind_eq oneshot_url oneshot_url = true
kind_eq protected_file protected_file = true
kind_eq _ _ = false

-- The variants that `/list` walks without OIDC.
abbrev pub paste_variants_list : List PasteType
paste_variants_list = file ∷ oneshot ∷ url ∷ oneshot_url ∷ []

-- `TryFrom<&ContentDisposition>`: the form fields in the order in which they are tried
pub try_from : (Text → Bool) → Option PasteType
try_from has_form_field =
    if has_form_field (codes "file")
    then some file
    else if has_form_field (codes "remote")
    then some remote_file
    else if has_form_field (codes "oneshot")
    then some oneshot
    else if has_form_field (codes "oneshot_url")
    then some oneshot_url
    else if has_form_field (codes "url")
    then some url
    else if has_form_field (codes "protected")
    then some protected_file
    else none

unfoldable pub get_dir : PasteType → Text
get_dir file = []
get_dir remote_file = []
get_dir oneshot = codes "oneshot"
get_dir url = codes "url"
get_dir oneshot_url = codes "oneshot_url"
get_dir protected_file = codes "protected"

unfoldable pub is_oneshot : PasteType → Bool
is_oneshot k = kind_eq k oneshot

unfoldable pub is_protected : PasteType → Bool
is_protected k = kind_eq k protected_file

unfoldable pub paste_type_to_str : PasteType → Text
paste_type_to_str file = codes "file"
paste_type_to_str remote_file = codes "remote_file"
paste_type_to_str oneshot = codes "oneshot"
paste_type_to_str url = codes "url"
paste_type_to_str oneshot_url = codes "oneshot_url"
paste_type_to_str protected_file = codes "protected_file"

-- `paste_type_from_str`; the error is made by the caller
unfoldable pub paste_type_of_str : Text → Option PasteType
paste_type_of_str s =
    if text_eq s (codes "file")
    then some file
    else if text_eq s (codes "remote_file")
    then some remote_file
    else if text_eq s (codes "oneshot")
    then some oneshot
    else if text_eq s (codes "url")
    then some url
    else if text_eq s (codes "oneshot_url")
    then some oneshot_url
    else if text_eq s (codes "protected_file")
    then some protected_file
    else none

unfoldable pub dedup_category : PasteType → Option Text
dedup_category file = some (codes "file")
dedup_category remote_file = some (codes "file")
dedup_category url = some (codes "url")
dedup_category oneshot = none
dedup_category oneshot_url = none
dedup_category protected_file = none

-- `is_compatible_duplicate` of src/server.rs
unfoldable pub is_compatible_duplicate : (requested existing : PasteType) → Bool
is_compatible_duplicate file file = true
is_compatible_duplicate file remote_file = true
is_compatible_duplicate remote_file file = true
is_compatible_duplicate remote_file remote_file = true
is_compatible_duplicate url url = true
is_compatible_duplicate _ _ = false

-- What the store writes for a kind is read back as that kind.
paste_type_of_str-paste_type_to_str :
    (k : PasteType) → paste_type_of_str (paste_type_to_str k) ≡ some k
unfolding paste_type_of_str paste_type_to_str
paste_type_of_str-paste_type_to_str file = refl
paste_type_of_str-paste_type_to_str remote_file = refl
paste_type_of_str-paste_type_to_str oneshot = refl
paste_type_of_str-paste_type_to_str url = refl
paste_type_of_str-paste_type_to_str oneshot_url = refl
paste_type_of_str-paste_type_to_str protected_file = refl
