-- ===== src/Config/Tokens.antt =====
-- src/config.rs: `get_tokens`, the static tokens of the configuration and the environment.
use mathlib.Core.Path.{subst}
use rustypaste.Prelude.{
  ◌≡◌, refl, true, false, not, Option, none, some, List, [], ◌∷◌, ◌++◌, Text, contains, text_eq,
  text_eq_iff, is_blank, keep_where, Bool-cases, inl, inr, arith,
}

-- The fields of `ServerConfig` that hold tokens.
pub record ServerTokens : Type 0 where
  pub auth_tokens : Option (List Text)
  pub auth_token : Option Text
  pub delete_tokens : Option (List Text)

-- The environment: the variables that are set, and the lines of the files that two of them name,
-- where the file can be read.
pub record TokenEnv : Type 0 where
  pub auth_token : Option Text
  pub auth_tokens_file : Option (List Text)
  pub delete_token : Option Text
  pub delete_tokens_file : Option (List Text)

pub data TokenType : Type 0 where
  auth delete : TokenType

abbrev or_empty : Option (List Text) → List Text
or_empty none = []
or_empty (some xs) = xs

abbrev to_list : Option Text → List Text
to_list none = []
to_list (some x) = x ∷ []

abbrev written_lines : Option (List Text) → List Text
written_lines lines = keep_where (λ l. not (is_blank l)) (or_empty lines)

abbrev all_tokens : ServerTokens → TokenEnv → TokenType → List Text
all_tokens server env auth =
    or_empty server.auth_tokens
    ++ to_list server.auth_token
    ++ to_list env.auth_token
    ++ written_lines env.auth_tokens_file
all_tokens server env delete =
    or_empty server.delete_tokens
    ++ to_list env.delete_token
    ++ written_lines env.delete_tokens_file

abbrev some_tokens : List Text → Option (List Text)
some_tokens [] = none
some_tokens (t ∷ ts) = some (t ∷ ts)

-- A set of tokens is a list here, of which only `contains` is asked.
unfoldable pub get_tokens : ServerTokens → TokenEnv → TokenType → Option (List Text)
get_tokens server env kind =
    some_tokens (keep_where (λ t. not (is_blank t)) (all_tokens server env kind))

blank_absent :
    (token : Text) (ts : List Text)
    → is_blank token ≡ true
    → contains (keep_where (λ t. not (is_blank t)) ts) token ≡ false
blank_absent token [] h = refl
blank_absent token (t ∷ ts) h = elim (Bool-cases (text_eq t token)) [
  | inl same ↦ ground (arith, text_eq_iff t token, blank_absent token ts h)
  | inr other ↦ ground (arith, blank_absent token ts h)
]

some_tokens_are : (ts tokens : List Text) → some_tokens ts ≡ some tokens → ts ≡ tokens
some_tokens_are ts tokens h = ground arith

-- Whatever the configuration, the environment and the files hold, no blank text is a token.
pub blank_is_no_token :
    (server : ServerTokens) (env : TokenEnv) (kind : TokenType) (tokens : List Text) (token : Text)
    → get_tokens server env kind ≡ some tokens
    → is_blank token ≡ true
    → contains tokens token ≡ false
unfolding get_tokens
blank_is_no_token server env kind tokens token h blank =
    subst (λ ts. contains ts token ≡ false)
      (some_tokens_are (keep_where (λ t. not (is_blank t)) (all_tokens server env kind)) tokens h)
      (blank_absent token (all_tokens server env kind) blank)
