-- ===== src/Config/Claims.antt =====
-- src/config.rs: `ClaimRules`, whose keys are all required and whose values are alternatives.
use rustypaste.Prelude.{
  ◌≡◌, refl, Bool, true, false, not, ◌&&◌, Option, none, some, List, [], ◌∷◌, ◌++◌, Text, contains,
  text_eq, any, all, if◌then◌else◌, arith,
}

-- a value of a claim, as far as the rules look into it
pub data Json : Type 0 where
  string : Text → Json
  array : List (Option Text) → Json
  other : Json

-- the claims of a token: the first of a key counts
abbrev pub Claims : Type 0
Claims = List (Text × Json)

pub data ClaimValues : Type 0 where
  one : Text → ClaimValues
  several : List Text → ClaimValues

abbrev pub values : ClaimValues → List Text
values (one value) = value ∷ []
values (several vs) = vs

abbrev pub get : Claims → Text → Option Json
get [] key = none
get ((k, v) ∷ claims) key = if text_eq k key then some v else get claims key

abbrev pub ClaimRules : Type 0
ClaimRules = List (Text × ClaimValues)

abbrev contains_some : List Text → Option Text → Bool
contains_some expected none = false
contains_some expected (some value) = contains expected value

unfoldable pub claim_matches : List Text → Option Json → Bool
claim_matches expected none = false
claim_matches expected (some (string value)) = contains expected value
claim_matches expected (some (array values)) = any (contains_some expected) values
claim_matches expected (some other) = false

unfoldable pub matches : ClaimRules → Claims → Bool
matches rules claims = all (λ rule. claim_matches (values rule.1) (get claims rule.0)) rules

pub record AuthorizationConfig : Type 0 where
  pub required_claims : ClaimRules
  pub admin_claims : ClaimRules

unfoldable pub allows : AuthorizationConfig → Claims → Bool
allows config claims = matches config.required_claims claims

abbrev no_rules : ClaimRules → Bool
no_rules [] = true
no_rules (r ∷ rs) = false

unfoldable pub is_admin : AuthorizationConfig → Claims → Bool
is_admin config claims = not (no_rules config.admin_claims) && matches config.admin_claims claims

-- Claim rules of which one names a key that is not among the claims match nothing: neither the login
-- gate nor the administrator rules are met then.
missing_claim_refused :
    (before after : ClaimRules) (key : Text) (expected : ClaimValues) (claims : Claims)
    → get claims key ≡ none
    → matches (before ++ (key, expected) ∷ after) claims ≡ false
unfolding matches claim_matches
missing_claim_refused [] after key expected claims h = ground arith
missing_claim_refused (r ∷ before) after key expected claims h =
    ground (arith, missing_claim_refused before after key expected claims h)

-- An administrator meets at least one rule, and every rule: an empty rule set makes nobody one.
is_admin_iff :
    (config : AuthorizationConfig) (claims : Claims)
    → is_admin config claims ≡ (
        any (λ rule. claim_matches (values rule.1) (get claims rule.0)) config.admin_claims
        && matches config.admin_claims claims)
unfolding is_admin matches
is_admin_iff config claims = go config.admin_claims
  where
    go :
        (rules : ClaimRules)
        → (not (no_rules rules)
            && all (λ rule. claim_matches (values rule.1) (get claims rule.0)) rules)
          ≡ (any (λ rule. claim_matches (values rule.1) (get claims rule.0)) rules
              && all (λ rule. claim_matches (values rule.1) (get claims rule.0)) rules)
    go [] = refl
    go (r ∷ rules) = ground arith
