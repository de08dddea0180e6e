-- ===== src/Paste/Path.antt =====
-- The operations of `std::path` that src/paste.rs, src/util.rs and src/password.rs use. A path is its
-- components: what is left between the slashes, without the empty ones and without `.`.
use rustypaste.Prelude.{
  ℕ, all, Option-cases, inl, inr, ◌≡◌, refl, Bool, true, false, not, ◌&&◌, ◌||◌, Option, none, some,
  List, [], ◌∷◌, ◌++◌, Text, codes, text_eq, text_eq_iff, ◌↔◌, is_empty, ◌==◌, if◌then◌else◌, arith,
}

pub record PathBuf : Type 0 where
  pub is_absolute : Bool
  pub parts : List Text

abbrev prepend : ℕ → List Text → List Text
prepend c [] = (c ∷ []) ∷ []
prepend c (p ∷ ps) = (c ∷ p) ∷ ps

abbrev split_slashes : Text → List Text
split_slashes [] = [] ∷ []
split_slashes (c ∷ s) =
    let rest = split_slashes s in if c == b'/' then [] ∷ rest else prepend c rest

abbrev components : List Text → List Text
components [] = []
components (p ∷ ps) =
    let rest = components ps in if is_empty p || text_eq p (codes ".") then rest else p ∷ rest

abbrev starts_at_root : Text → Bool
starts_at_root [] = false
starts_at_root (c ∷ s) = c == b'/'

-- `Path::new`
unfoldable pub parse : Text → PathBuf
parse s = record { is_absolute = starts_at_root s; parts = components (split_slashes s) }

abbrev join_slashes : List Text → Text
join_slashes [] = []
join_slashes (p ∷ []) = p
join_slashes (p ∷ q ∷ ps) = p ++ b'/' ∷ join_slashes (q ∷ ps)

-- a path as text, `to_str`
unfoldable pub to_text : PathBuf → Text
to_text path = if path.is_absolute then b'/' ∷ join_slashes path.parts else join_slashes path.parts

-- `join`, and `push` on a path of one's own: an absolute path takes the other's place.
unfoldable pub join : PathBuf → PathBuf → PathBuf
join base path =
    if path.is_absolute
    then path
    else record { is_absolute = base.is_absolute; parts = base.parts ++ path.parts }

abbrev is_parent_dir : Text → Bool
is_parent_dir part = text_eq part (codes "..")

abbrev last_name : List Text → Option Text
last_name [] = none
last_name (p ∷ []) = if is_parent_dir p then none else some p
last_name (p ∷ q ∷ ps) = last_name (q ∷ ps)

abbrev without_last : List Text → List Text
without_last [] = []
without_last (p ∷ []) = []
without_last (p ∷ q ∷ ps) = p ∷ without_last (q ∷ ps)

unfoldable pub file_name : PathBuf → Option Text
file_name path = last_name path.parts

-- `parent`, of a path with a file name
unfoldable pub parent : PathBuf → PathBuf
parent path = record path { parts = without_last path.parts }

-- The file name gives way to a path, which `push` puts there.
unfoldable pub set_file_name : PathBuf → Text → PathBuf
set_file_name path name = elim (file_name path) [
  | none ↦ join path (parse name)
  | some old ↦ join (parent path) (parse name)
]

abbrev pub same_parts : List Text → List Text → Bool
same_parts [] [] = true
same_parts (a ∷ more) (b ∷ bs) = text_eq a b && same_parts more bs
same_parts _ _ = false

abbrev same_root : Bool → Bool → Bool
same_root true b = b
same_root false b = not b

-- `PartialEq`
abbrev pub path_eq : PathBuf → PathBuf → Bool
path_eq p q = same_root p.is_absolute q.is_absolute && same_parts p.parts q.parts

abbrev begins_with : List Text → List Text → Bool
begins_with ps [] = true
begins_with [] (b ∷ bs) = false
begins_with (p ∷ ps) (b ∷ bs) = text_eq p b && begins_with ps bs

-- `rsplit_once('.')`: what stands before the last dot, and what follows it
unfoldable pub rsplit_dot : Text → Option (Text × Text)
rsplit_dot [] = none
rsplit_dot (c ∷ s) =
    let rest = rsplit_dot s in
    elim rest [
      | some (before, after) ↦ some (c ∷ before, after)
      | none ↦ if c == b'.' then some ([], s) else none
    ]

-- `file_stem` of a name: a dot that comes first is part of it.
unfoldable pub file_stem : Text → Text
file_stem name = elim (rsplit_dot name) [
  | none ↦ name
  | some (before, after) ↦ if is_empty before then name else before
]

-- `set_extension`, which goes by the last dot of the name that is there
unfoldable pub set_extension : PathBuf → Text → PathBuf
set_extension path extension = elim (file_name path) [
  | none ↦ path
  | some name ↦
      if is_empty extension
      then record path { parts = without_last path.parts ++ file_stem name ∷ [] }
      else record path {
        parts = without_last path.parts ++ (file_stem name ++ b'.' ∷ extension) ∷ [];
      }
]

-- `starts_with`, by components
abbrev pub starts_with_path : PathBuf → PathBuf → Bool
starts_with_path path base =
    same_root path.is_absolute base.is_absolute && begins_with path.parts base.parts

same_parts_iff : (ps qs : List Text) → (same_parts ps qs ≡ true) ↔ (ps ≡ qs)
same_parts_iff [] [] = ground arith
same_parts_iff [] (b ∷ qs) = ground arith
same_parts_iff (a ∷ ps) [] = ground arith
same_parts_iff (a ∷ ps) (b ∷ qs) = ground (arith, text_eq_iff a b, same_parts_iff ps qs)

pub path_eq_iff : (p q : PathBuf) → (path_eq p q ≡ true) ↔ (p ≡ q)
path_eq_iff p q = ground (arith, same_parts_iff p.parts q.parts)

pub path_eq_refl : (p : PathBuf) → path_eq p p ≡ true
path_eq_refl p = (path_eq_iff p p).1 refl

abbrev pub has_no_slash : Text → Bool
has_no_slash s = all (λ c. not (c == b'/')) s

-- a text that is the name of a file, and neither a directory nor its parent
abbrev pub is_plain : Text → Bool
is_plain s = has_no_slash s && not (is_empty s || text_eq s (codes ".") || text_eq s (codes ".."))

split_whole : (s : Text) → has_no_slash s ≡ true → split_slashes s ≡ s ∷ []
split_whole [] h = refl
split_whole (c ∷ s) h = ground (arith, split_whole s)

parse_plain :
    (s : Text) → is_plain s ≡ true → parse s ≡ record { is_absolute = false; parts = s ∷ [] }
unfolding parse
parse_plain [] h = absurd (ground arith)
parse_plain (c ∷ s) h = ground (arith, split_whole (c ∷ s))

last_name-append : (ps : List Text) (s : Text) → last_name (ps ++ s ∷ []) ≡ last_name (s ∷ [])
last_name-append [] s = refl
last_name-append (p ∷ []) s = refl
last_name-append (p ∷ q ∷ ps) s = last_name-append (q ∷ ps) s

pub file_name-set_file_name :
    (path : PathBuf) (s : Text) → is_plain s ≡ true → file_name (set_file_name path s) ≡ some s
unfolding file_name set_file_name join parent
file_name-set_file_name path s plain = elim (Option-cases (last_name path.parts)) [
  | inl missing ↦ ground (arith, parse_plain s plain, last_name-append path.parts s)
  | inr (old, found) ↦
      ground (arith, parse_plain s plain, last_name-append (without_last path.parts) s)
]
