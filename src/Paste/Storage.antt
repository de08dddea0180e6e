-- ===== src/Paste/Storage.antt =====
-- src/paste.rs: `store_file` and `store_url`, over the files of the server. What the operating system
-- and the other crates answer is given.
use rustypaste.Prelude.{
  ℕ, ◌+◌, Bool, false, ◌&&◌, ◌||◌, Option, none, some, List, [], ◌∷◌, ◌++◌, Text, codes, text_eq,
  is_empty, starts_with, any, ltb, ◌==◌, length, take, ◌-◌, if◌then◌else◌, delete_where, find_where,
}
use rustypaste.Auth.Request.{HttpError, internal, insufficient_storage, Reply, accepted, refused}
use rustypaste.Config.Filenames.{SpaceHandlingConfig, process_filename}
use rustypaste.Paste.Kind.{PasteType, get_dir}
use rustypaste.Paste.Path.{
  PathBuf, parse, join, file_name, set_file_name, set_extension, path_eq, starts_with_path,
}
use rustypaste.Util.Extension.{get_extension_from_filename}

-- A file and its content.
abbrev pub FileEntry : Type 0
FileEntry = PathBuf × List ℕ

abbrev pub Disk : Type 0
Disk = List FileEntry

abbrev pub is_at : PathBuf → FileEntry → Bool
is_at path entry = path_eq entry.0 path

abbrev pub read : Disk → PathBuf → Option FileEntry
read disk path = find_where (is_at path) disk

abbrev pub is_file : Disk → PathBuf → Bool
is_file disk path = any (is_at path) disk

pub record FileType : Type 0 where
  pub mime_type : Text
  pub extension : Text

-- What `infer`, `path_clean`, `mime_guess`, `glob` and Argon2 answer, which directories may be
-- listed, the error of creating a new file and of writing one, what such an error leaves in the file,
-- which files can be removed, the time in milliseconds, and the password that is drawn. `glob_last`
-- is the last match of a path, a dot and a number; `none` for a path that is no pattern.
pub record Os : Type 0 where
  pub infer : List ℕ → Option FileType
  pub clean : PathBuf → PathBuf
  pub is_known : Text → Bool
  pub glob_last : Disk → PathBuf → Option (Option PathBuf)
  pub can_list : PathBuf → Bool
  pub create_error : PathBuf → Option HttpError
  pub write_error : PathBuf → Option HttpError
  pub partly_written : PathBuf → List ℕ
  pub can_remove : PathBuf → Bool
  pub hash_password : Text → Option (List ℕ)
  pub now_millis : ℕ
  pub password : Text

-- `fs::remove_file`, of which no caller looks at the error: a file that cannot be removed stays.
abbrev pub remove_file : Os → PathBuf → Disk → Disk
remove_file os path disk = if os.can_remove path then delete_where (is_at path) disk else disk

-- `generated` is what `generate` draws, where random URLs are enabled.
pub record RandomUrl : Type 0 where
  pub generated : Option Text
  pub suffix_mode : Option Bool
  pub no_extension : Option Bool

pub record StorageConfig : Type 0 where
  pub upload_path : PathBuf
  pub mime_blacklist : List Text
  pub max_upload_dir_size : Option ℕ
  pub handle_spaces : Option SpaceHandlingConfig
  pub default_extension : Text
  pub random_url : Option RandomUrl

pub record UploadResult : Type 0 where
  pub filename : Text
  pub storage_path : PathBuf
  pub password : Option Text

unfoldable pub safe_path_join : Os → PathBuf → PathBuf → Option PathBuf
safe_path_join os base part =
    let new_path = os.clean (join base part) in
    if starts_with_path new_path (os.clean base) then some new_path else none

unfoldable pub get_path : Os → PasteType → PathBuf → Option PathBuf
get_path os kind path =
    if is_empty (get_dir kind) then some path else safe_path_join os path (parse (get_dir kind))

-- The files are those of the directory and of the directories in it.
unfoldable pub get_dir_size : Os → Disk → PathBuf → Option ℕ
get_dir_size os disk path = if os.can_list path then some (sum disk) else none
  where
    sum : Disk → ℕ
    sum [] = 0
    sum (entry ∷ more) =
        let rest = sum more in if starts_with_path entry.0 path then length entry.1 + rest else rest

abbrev pub ends_with_slash : Text → Bool
ends_with_slash [] = false
ends_with_slash (c ∷ []) = c == b'/'
ends_with_slash (c ∷ d ∷ s) = ends_with_slash (d ∷ s)

unfoldable pub is_blacklisted : Os → StorageConfig → List ℕ → Bool
is_blacklisted os config content = elim (os.infer content) [
  | none ↦ false
  | some t ↦
      any (λ m. text_eq m t.mime_type || (ends_with_slash m && starts_with t.mime_type m))
        config.mime_blacklist
]

unfoldable pub check_dir_size : Os → StorageConfig → Disk → PasteType → List ℕ → Reply (Unit {0})
check_dir_size os config disk kind content = elim config.max_upload_dir_size [
  | none ↦ accepted tt
  | some max_dir_size ↦ elim (get_path os kind config.upload_path) [
    | none ↦ refused internal
    | some dir ↦ elim (get_dir_size os disk dir) [
      | none ↦ refused internal
      | some current ↦
          if ltb max_dir_size (current + length content)
          then refused insufficient_storage
          else accepted tt
    ]
  ]
]

-- The name that an upload asks for, and what the configuration makes of its spaces.
abbrev given_name : Option Text → Text
given_name none = codes "file"
given_name (some name) = if text_eq name (codes "-") then codes "stdin" else name

abbrev handled : Option SpaceHandlingConfig → Text → Text
handled none name = name
handled (some handling) name = process_filename handling name

unfoldable pub requested_name : StorageConfig → Text → Text
requested_name config name = handled config.handle_spaces (given_name (file_name (parse name)))

-- The file name, cut before its extension, and the extension.
abbrev own_extension : StorageConfig → Option FileType → Text
own_extension config none = config.default_extension
own_extension config (some t) = t.extension

unfoldable pub name_and_extension : Os → StorageConfig → List ℕ → Text → Text × Text
name_and_extension os config content name =
    elim (get_extension_from_filename os.is_known (file_name (parse name))) [
      | some ext ↦ (take (length name - length ext - 1) name, ext)
      | none ↦ (name, own_extension config (os.infer content))
    ]

abbrev is_set : Option Bool → Bool
is_set none = false
is_set (some b) = b

unfoldable pub apply_random : Option RandomUrl → Text × Text → Text × Text
apply_random none names = names
apply_random (some random_url) names = elim random_url.generated [
  | none ↦ names
  | some random_text ↦
      if is_set random_url.suffix_mode
      then (names.0, random_text ++ b'.' ∷ names.1)
      else (random_text, names.1)
]

abbrev pub without_extension : Option RandomUrl → Bool
without_extension none = false
without_extension (some random_url) = is_set random_url.no_extension

-- The path without its expiry: the name, the extension unless there is to be none, and the name of
-- the header in their place where there is one.
abbrev put_header : Option Text → PathBuf → PathBuf
put_header none path = path
put_header (some name) path = set_file_name path name

unfoldable pub named_path : StorageConfig → Option Text → PathBuf → Text × Text → PathBuf
named_path config header path names =
    let named = set_file_name path names.0 in
    put_header header
      (if without_extension config.random_url then named else set_extension named names.1)

unfoldable pub chosen_path :
    Os → StorageConfig → PasteType → List ℕ → Text → (header : Option Text) → Option PathBuf
chosen_path os config kind content name header =
    let file = requested_name config name in
    elim (get_path os kind config.upload_path) [
      | none ↦ none
      | some dir ↦ elim (safe_path_join os dir (parse file)) [
        | none ↦ none
        | some path ↦ some (
            named_path config header path
              (apply_random config.random_url (name_and_extension os config content file)))
      ]
    ]
