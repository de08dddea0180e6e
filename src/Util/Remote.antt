-- ===== src/Util/Remote.antt =====
-- src/util.rs: `validate_remote_url`, before a remote file is fetched.
use rustypaste.Prelude.{
  ℕ, ◌≡◌, refl, Bool, true, false, not, ◌&&◌, ◌||◌, Option, none, some, List, [], ◌∷◌, Text, codes,
  text_eq, drop, length, ◌-◌, leb, all, Option-cases, inl, inr, arith, if◌then◌else◌,
}
use rustypaste.Util.Ip.{IpAddr, is_disallowed_ip}

-- What the program reads of a URL of the `url` crate.
pub record RemoteUrl : Type 0 where
  pub scheme : Text
  pub host_str : Option Text
  pub port_or_known_default : Option ℕ

-- `to_socket_addrs`: the addresses of a host, where it can be resolved.
abbrev pub Resolver : Type 0
Resolver = (host : Text) → (port : ℕ) → Option (List IpAddr)

abbrev pub ends_with : Text → Text → Bool
ends_with s suffix =
    leb (length suffix) (length s) && text_eq (drop (length s - length suffix) s) suffix

-- the loop over the addresses, which ends at one that is disallowed; `none` is an error
unfoldable pub check_addrs : (resolved : Bool) → List IpAddr → Option (Unit {0})
check_addrs resolved [] = if resolved then some tt else none
check_addrs resolved (addr ∷ addrs) =
    let rest = check_addrs true addrs in if is_disallowed_ip addr then none else rest

abbrev pub is_local_name : Text → Bool
is_local_name host = text_eq host (codes "localhost") || ends_with host (codes ".localhost")

abbrev pub has_web_scheme : Text → Bool
has_web_scheme scheme = text_eq scheme (codes "http") || text_eq scheme (codes "https")

unfoldable pub validate_remote_url : Resolver → RemoteUrl → Option (Unit {0})
validate_remote_url resolve url =
    if not (text_eq url.scheme (codes "http")) && not (text_eq url.scheme (codes "https"))
    then none
    else elim url.host_str [
      | none ↦ none
      | some host ↦ if is_local_name host then none else elim url.port_or_known_default [
        | none ↦ none
        | some port ↦ elim (resolve host port) [
          | none ↦ none
          | some addrs ↦ check_addrs false addrs
        ]
      ]
    ]

abbrev pub is_nonempty : List IpAddr → Bool
is_nonempty [] = false
is_nonempty (a ∷ more) = true

checked_addrs :
    (resolved : Bool) (addrs : List IpAddr)
    → check_addrs resolved addrs ≡ some tt
    → ((resolved || is_nonempty addrs) ≡ true) × (all (λ a. not (is_disallowed_ip a)) addrs ≡ true)
unfolding check_addrs
checked_addrs resolved [] h = (ground arith, refl)
checked_addrs resolved (a ∷ addrs) h =
    let (some_of, allowed) = checked_addrs true addrs (ground arith) in
    (ground arith, ground (arith, allowed))

-- The URL is of the web, with a host that is not local and has addresses, all of them allowed.
abbrev pub IsPublic : Resolver → RemoteUrl → Type 0
IsPublic resolve url =
    (host : Text) × (port : ℕ) × (addrs : List IpAddr) × (has_web_scheme url.scheme ≡ true)
    × (url.host_str ≡ some host)
    × (is_local_name host ≡ false)
    × (resolve host port ≡ some addrs)
    × (is_nonempty addrs ≡ true)
    × (all (λ a. not (is_disallowed_ip a)) addrs ≡ true)

-- A URL that is valid is of the web, with a host other than localhost, and the host resolves to at
-- least one address and to no address that is disallowed.
pub valid_url-IsPublic :
    (resolve : Resolver) (url : RemoteUrl)
    → validate_remote_url resolve url ≡ some tt
    → IsPublic resolve url
unfolding validate_remote_url
valid_url-IsPublic resolve url h = elim (Option-cases url.host_str) [
  | inl missing ↦ absurd (ground arith)
  | inr (host, named) ↦ elim (Option-cases url.port_or_known_default) [
    | inl missing ↦ absurd (ground arith)
    | inr (port, known) ↦ elim (Option-cases (resolve host port)) [
      | inl missing ↦ absurd (ground arith)
      | inr (addrs, found) ↦
          let (some_of, allowed) = checked_addrs false addrs (ground arith) in
          (host, port, addrs, ground arith, named, ground arith, found, some_of, allowed)
    ]
  ]
]
