-- ===== src/Util/Tests.antt =====
-- Examples of src/util.rs and src/ownership.rs.
use rustypaste.Prelude.{
  ◌≡◌, refl, Bool, ◌||◌, true, false, none, some, [], ◌∷◌, ◌++◌, Text, codes, text_eq, decimal,
  arith,
}
use rustypaste.Ownership.Expiry.{split_expiry, split_expiry-decimal, recorded}
use rustypaste.Paste.Path.{rsplit_dot}
use rustypaste.Server.Expiry.{expiry_seconds}
use rustypaste.Util.Ip.{IpAddr, v4, v6, is_disallowed_ip, is_disallowed_ipv4, is_disallowed_ipv6}
use rustypaste.Util.Blocks6.{is_listed, is_disallowed_ip-is_listed}
use rustypaste.Util.Remote.{RemoteUrl, Resolver, check_addrs, validate_remote_url}
use rustypaste.Util.Extension.{find_extension, get_extension_from_filename}

abbrev intranet : IpAddr
intranet = v4 (record { o0 = 10; o1 = 0; o2 = 0; o3 = 1 })

is_disallowed_ip-is_listed_example : is_disallowed_ip intranet ≡ is_listed intranet
is_disallowed_ip-is_listed_example =
    is_disallowed_ip-is_listed intranet (omega arith, omega arith, omega arith, omega arith)

-- An address of a private network is allowed.
intranet_is_allowed : is_disallowed_ip intranet ≡ false
unfolding is_disallowed_ip is_disallowed_ipv4
intranet_is_allowed = refl

-- The address that cloud providers serve metadata at is not.
metadata_is_disallowed :
    is_disallowed_ip (v4 (record { o0 = 169; o1 = 254; o2 = 169; o3 = 254 })) ≡ true
unfolding is_disallowed_ip is_disallowed_ipv4
metadata_is_disallowed = refl

-- 3fff:1000::, which is not in 3fff::/20
beyond_documentation_is_disallowed :
    is_disallowed_ip
      (v6 (record { s0 = 16383; s1 = 4096; s2 = 0; s3 = 0; s4 = 0; s5 = 0; s6 = 0; s7 = 1 }))
    ≡ true
unfolding is_disallowed_ip is_disallowed_ipv6
beyond_documentation_is_disallowed = refl

abbrev resolve : Resolver
resolve host port = some (intranet ∷ [])

abbrev remote : RemoteUrl
remote = record {
  scheme = codes "https";
  host_str = some (codes "files.example");
  port_or_known_default = some 443;
}

public_is_valid : validate_remote_url resolve remote ≡ some tt
unfolding validate_remote_url check_addrs is_disallowed_ip is_disallowed_ipv4
public_is_valid = refl

abbrev is_known : Text → Bool
is_known s = text_eq s (codes "gz") || text_eq s (codes "tar")

hidden_file_has_none : get_extension_from_filename is_known (some (codes ".gitignore")) ≡ none
unfolding get_extension_from_filename find_extension
hidden_file_has_none = refl

split_expiry-decimal_example :
    split_expiry (codes "hello.txt" ++ b'.' ∷ decimal 1750000000001)
    ≡ recorded (codes "hello.txt") (expiry_seconds (some 1750000000001))
split_expiry-decimal_example =
    split_expiry-decimal (codes "hello.txt") 1750000000001 (omega arith) (omega arith)

-- the unit test of the source
splits_millisecond_expiry_suffix :
    split_expiry (codes "hello.txt.1750000000001") ≡ some (codes "hello.txt", some 1750000001)
unfolding split_expiry rsplit_dot
splits_millisecond_expiry_suffix = refl
