-- ===== src/Util/Blocks6.antt =====
-- src/util.rs: `is_disallowed_ipv6` as a list of address blocks in CIDR notation.
use rustypaste.Prelude.{
  ℕ, ◌≡◌, ap, ◌∙◌, ◌+◌, ◌-◌, ◌*◌, ◌^◌, ◌<◌, Bool, true, false, ◌&&◌, ◌||◌, none, some, List, [],
  ◌∷◌, any, leb, ltb, ◌==◌, arith, if◌then◌else◌, Bool-cases, inl, inr,
}
use rustypaste.Util.Ip.{
  IpAddr, v4, v6, is_disallowed_ip, Ipv4Addr, Ipv6Addr, bit_and, is_disallowed_ipv4,
  is_disallowed_ipv6, is_disallowed_native, to_ipv4, v6_is_loopback, v6_is_unspecified, is_mapped,
  v4_is_loopback, v4_is_link_local, v4_is_multicast, v4_is_broadcast, v4_is_documentation,
  v4_is_unspecified, low_octets,
}
use rustypaste.Util.Blocks.{is_inside, disallowed_blocks, AreOctets, is_disallowed_ipv4-any}

-- a block of which the prefix is at most 32 bits long: the first two segments of its network, and
-- the length
abbrev pub Block6 : Type 0
Block6 = ℕ × ℕ × ℕ

abbrev pub is_inside6 : Ipv6Addr → Block6 → Bool
is_inside6 s (n0, n1, prefix) =
    leb (n0 * 65536 + n1) (s.s0 * 65536 + s.s1)
    && ltb (s.s0 * 65536 + s.s1) (n0 * 65536 + n1 + 2 ^ (32 - prefix))

-- 2001:db8::/32, 3fff::/16, fc00::/7, fe80::/10 and ff00::/8
abbrev pub disallowed_blocks6 : List Block6
disallowed_blocks6 =
    (8193, 3512, 32) ∷ (16383, 0, 16) ∷ (64512, 0, 7) ∷ (65152, 0, 10) ∷ (65280, 0, 8) ∷ []

abbrev pub AreSegments : Ipv6Addr → Type 0
AreSegments s =
    (s.s0 < 65536)
    × (s.s1 < 65536)
    × (s.s2 < 65536)
    × (s.s3 < 65536)
    × (s.s4 < 65536)
    × (s.s5 < 65536)
    × (s.s6 < 65536)
    × (s.s7 < 65536)

multicast : (a : ℕ) → a < 65536 → (bit_and 16 a 65280 == 65280) ≡ leb 65280 a
multicast a h = ground arith

unique_local : (a : ℕ) → a < 65536 → (bit_and 16 a 65024 == 64512) ≡ (leb 64512 a && ltb a 65024)
unique_local a h = ground arith

link_local : (a : ℕ) → a < 65536 → (bit_and 16 a 65472 == 65152) ≡ (leb 65152 a && ltb a 65216)
link_local a h = ground arith

reordered :
    (mc ul ll d1 d2 : Bool)
    → (if mc || ul || ll then true else if d1 then true else d2)
      ≡ (d1 || (d2 || (ul || (ll || (mc || false)))))
reordered mc ul ll d1 d2 = ground arith

or_last : (a u r : Bool) → u ≡ true → (if a || u then true else r) ≡ true
or_last a u r h = ground arith

false_or : (l u d : Bool) → l ≡ false → u ≡ false → (if l || u then true else d) ≡ d
false_or l u d h k = ground arith

unspecified_is_disallowed :
    (o : Ipv4Addr) → v4_is_unspecified o ≡ true → is_disallowed_ipv4 o ≡ true
unfolding is_disallowed_ipv4
unspecified_is_disallowed o h =
    or_last
      (v4_is_loopback o
        || v4_is_link_local o
        || v4_is_multicast o
        || v4_is_broadcast o
        || v4_is_documentation o)
      (v4_is_unspecified o) _ h

loopback_or : (l u d : Bool) → (u ≡ true → d ≡ true) → (if l || u then true else d) ≡ (l || d)
loopback_or l u d h = ground arith

module _ (s : Ipv6Addr) (segments : AreSegments s) where
  in_documentation : is_inside6 s (8193, 3512, 32) ≡ (s.s0 == 8193 && s.s1 == 3512)
  in_documentation = let (h0, h1, h2, h3, h4, h5, h6, h7) = segments in ground arith

  in_documentation2 : is_inside6 s (16383, 0, 16) ≡ (s.s0 == 16383)
  in_documentation2 = let (h0, h1, h2, h3, h4, h5, h6, h7) = segments in ground arith

  in_unique_local : is_inside6 s (64512, 0, 7) ≡ (bit_and 16 s.s0 65024 == 64512)
  in_unique_local =
      let (h0, h1, h2, h3, h4, h5, h6, h7) = segments in ground (arith, unique_local s.s0 h0)

  in_link_local : is_inside6 s (65152, 0, 10) ≡ (bit_and 16 s.s0 65472 == 65152)
  in_link_local =
      let (h0, h1, h2, h3, h4, h5, h6, h7) = segments in ground (arith, link_local s.s0 h0)

  in_multicast : is_inside6 s (65280, 0, 8) ≡ (bit_and 16 s.s0 65280 == 65280)
  in_multicast =
      let (h0, h1, h2, h3, h4, h5, h6, h7) = segments in ground (arith, multicast s.s0 h0)

  native-any : is_disallowed_native s ≡ any (is_inside6 s) disallowed_blocks6
  native-any = cc (
    in_documentation,
    in_documentation2,
    in_unique_local,
    in_link_local,
    in_multicast,
    reordered (bit_and 16 s.s0 65280 == 65280) (bit_and 16 s.s0 65024 == 64512)
        (bit_and 16 s.s0 65472 == 65152) (s.s0 == 8193 && s.s1 == 3512) (s.s0 == 16383),
  )

  low_octets-AreOctets : AreOctets (low_octets s)
  low_octets-AreOctets =
      let (h0, h1, h2, h3, h4, h5, h6, h7) = segments in
      (omega arith, omega arith, omega arith, omega arith)

  low_octets-v4_is_unspecified :
      v6_is_unspecified s ≡ true → v4_is_unspecified (low_octets s) ≡ true
  low_octets-v4_is_unspecified h = ground arith

  loopback-is_mapped : v6_is_loopback s ≡ true → is_mapped s ≡ true
  loopback-is_mapped h = ground arith

  unspecified-is_mapped : v6_is_unspecified s ≡ true → is_mapped s ≡ true
  unspecified-is_mapped h = ground arith

  -- An IPv6 address that stands for no IPv4 address is disallowed exactly where it lies in 2001:db8::/32,
  -- 3fff::/16, fc00::/7, fe80::/10 or ff00::/8; one that stands for one, as ::a.b.c.d or
  -- ::ffff:a.b.c.d, exactly where it is ::1 or that address lies in a disallowed block of IPv4.
  pub is_disallowed_ipv6-any : is_disallowed_ipv6 s ≡ elim (to_ipv4 s) as (λ _. Bool) [
    | none ↦ any (is_inside6 s) disallowed_blocks6
    | some o ↦ v6_is_loopback s || any (is_inside o) disallowed_blocks
  ]
  unfolding is_disallowed_ipv6
  is_disallowed_ipv6-any = elim (Bool-cases (is_mapped s)) [
    | inl mapped ↦ rw mapped (
        loopback_or (v6_is_loopback s) (v6_is_unspecified s) (is_disallowed_ipv4 (low_octets s))
          (λ h. unspecified_is_disallowed (low_octets s) (low_octets-v4_is_unspecified h))
        ∙ ap (λ b. v6_is_loopback s || b)
            (is_disallowed_ipv4-any (low_octets s) low_octets-AreOctets))
    | inr native ↦ rw native (
        false_or (v6_is_loopback s) (v6_is_unspecified s) (is_disallowed_native s)
          (ground (arith, loopback-is_mapped)) (ground (arith, unspecified-is_mapped))
        ∙ native-any)
  ]

-- the blocks as a test of an address
abbrev pub is_listed : IpAddr → Bool
is_listed (v4 o) = any (is_inside o) disallowed_blocks
is_listed (v6 s) = elim (to_ipv4 s) [
  | none ↦ any (is_inside6 s) disallowed_blocks6
  | some o ↦ v6_is_loopback s || any (is_inside o) disallowed_blocks
]

-- The octets of the address are below 256, or its segments below 65536.
abbrev pub IsAddress : IpAddr → Type 0
IsAddress (v4 o) = AreOctets o
IsAddress (v6 s) = AreSegments s

-- An address is disallowed exactly where the blocks have it: an IPv4 address where it lies in
-- 0.0.0.0/32, 100.64.0.0/10, 127.0.0.0/8, 169.254.0.0/16, 192.0.0.0/24, 192.0.2.0/24, 198.18.0.0/15,
-- 198.51.100.0/24, 203.0.113.0/24, 224.0.0.0/4 or 240.0.0.0/4; an IPv6 address that stands for an
-- IPv4 address where it is ::1 or that address lies there; and any other where it lies in
-- 2001:db8::/32, 3fff::/16, fc00::/7, fe80::/10 or ff00::/8.
pub is_disallowed_ip-is_listed : (ip : IpAddr) → IsAddress ip → is_disallowed_ip ip ≡ is_listed ip
unfolding is_disallowed_ip
is_disallowed_ip-is_listed (v4 o) octets = is_disallowed_ipv4-any o octets
is_disallowed_ip-is_listed (v6 s) segments = is_disallowed_ipv6-any s segments
