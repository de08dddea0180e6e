-- ===== src/Store/Tests.antt =====
-- Data for the tests and examples of src/store.rs: SHA-256 and base64 are the identity.
pub mod Devices
pub mod Sessions
pub mod Flows
pub mod Pastes
pub mod Alive
use rustypaste.Prelude.{ℕ, false, Option, none, some, List, [], ◌∷◌, Text, codes}
use rustypaste.Store.Base.{Crypto, AuthStore, Duration, Random}
use rustypaste.Store.OauthFlows.{ReturnUrls}
use rustypaste.Store.Principals.{service}
use rustypaste.Store.Calls.{Call, name_principal}

abbrev pub crypto : Crypto
crypto = record { sha256 = λ s. s; base64_url = λ bs. bs }

abbrev pub hour : Duration
hour = record { as_secs = 3600; subsec_nanos = 0 }

abbrev pub self : AuthStore
self = record { session_idle_timeout = hour; token_idle_timeout = hour }

abbrev pub urls : ReturnUrls
urls = record {
  base_origin = codes "https://rustypaste.invalid";
  join_origin = λ s. some (codes "https://rustypaste.invalid");
}

abbrev pub secret_a : Random
secret_a = some (codes "secret-a")

abbrev pub secret_b : Random
secret_b = some (codes "secret-b")

-- the service account `ci`, which gets the principal id 1, and `cd`, with 2
abbrev pub named : List Call
named =
    name_principal service (codes "ci") false false (some 1000)
    ∷ name_principal service (codes "cd") false false (some 1000)
    ∷ []
