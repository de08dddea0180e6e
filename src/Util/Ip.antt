-- ===== src/Util/Ip.antt =====
-- src/util.rs: `is_disallowed_ip`, with the tests of `std::net` that it calls.
use rustypaste.Prelude.{
  ℕ, zero, suc, ◌+◌, ◌*◌, ◌/◌, ◌%◌, Bool, true, ◌&&◌, ◌||◌, Option, none, some, leb, ◌==◌,
  if◌then◌else◌,
}

-- `&` of two numbers of the given number of bits
abbrev pub bit_and : (width : ℕ) → ℕ → ℕ → ℕ
bit_and zero a b = 0
bit_and (suc n) a b = (a % 2) * (b % 2) + 2 * bit_and n (a / 2) (b / 2)

-- the four octets
pub record Ipv4Addr : Type 0 where
  pub o0 : ℕ
  pub o1 : ℕ
  pub o2 : ℕ
  pub o3 : ℕ

-- the eight segments
pub record Ipv6Addr : Type 0 where
  pub s0 : ℕ
  pub s1 : ℕ
  pub s2 : ℕ
  pub s3 : ℕ
  pub s4 : ℕ
  pub s5 : ℕ
  pub s6 : ℕ
  pub s7 : ℕ

pub data IpAddr : Type 0 where
  v4 : Ipv4Addr → IpAddr
  v6 : Ipv6Addr → IpAddr

abbrev octets_are : Ipv4Addr → (a b c d : ℕ) → Bool
octets_are o a b c d = o.o0 == a && o.o1 == b && o.o2 == c && o.o3 == d

abbrev pub v4_is_loopback : Ipv4Addr → Bool
v4_is_loopback o = o.o0 == 127

abbrev pub v4_is_link_local : Ipv4Addr → Bool
v4_is_link_local o = o.o0 == 169 && o.o1 == 254

abbrev pub v4_is_multicast : Ipv4Addr → Bool
v4_is_multicast o = leb 224 o.o0 && leb o.o0 239

abbrev pub v4_is_broadcast : Ipv4Addr → Bool
v4_is_broadcast o = octets_are o 255 255 255 255

abbrev pub v4_is_documentation : Ipv4Addr → Bool
v4_is_documentation o =
    (o.o0 == 192 && o.o1 == 0 && o.o2 == 2)
    || (o.o0 == 198 && o.o1 == 51 && o.o2 == 100)
    || (o.o0 == 203 && o.o1 == 0 && o.o2 == 113)

abbrev pub v4_is_unspecified : Ipv4Addr → Bool
v4_is_unspecified o = octets_are o 0 0 0 0

unfoldable pub is_disallowed_ipv4 : Ipv4Addr → Bool
is_disallowed_ipv4 o =
    if v4_is_loopback o
      || v4_is_link_local o
      || v4_is_multicast o
      || v4_is_broadcast o
      || v4_is_documentation o
      || v4_is_unspecified o
    then true
    else if o.o0 == 100 && bit_and 8 o.o1 192 == 64
    then true
    else if o.o0 == 198 && (o.o1 == 18 || o.o1 == 19)
    then true
    else if o.o0 == 192 && o.o1 == 0 && o.o2 == 0
    then true
    else if leb 240 o.o0
    then true
    else octets_are o 169 254 169 254

abbrev all_zero_but_last : Ipv6Addr → Bool
all_zero_but_last s =
    s.s0 == 0 && s.s1 == 0 && s.s2 == 0 && s.s3 == 0 && s.s4 == 0 && s.s5 == 0 && s.s6 == 0

abbrev pub v6_is_loopback : Ipv6Addr → Bool
v6_is_loopback s = all_zero_but_last s && s.s7 == 1

abbrev pub v6_is_unspecified : Ipv6Addr → Bool
v6_is_unspecified s = all_zero_but_last s && s.s7 == 0

abbrev pub low_octets : Ipv6Addr → Ipv4Addr
low_octets s = record { o0 = s.s6 / 256; o1 = s.s6 % 256; o2 = s.s7 / 256; o3 = s.s7 % 256 }

-- the addresses ::a.b.c.d and ::ffff:a.b.c.d
abbrev pub is_mapped : Ipv6Addr → Bool
is_mapped s =
    s.s0 == 0 && s.s1 == 0 && s.s2 == 0 && s.s3 == 0 && s.s4 == 0 && (s.s5 == 0 || s.s5 == 65535)

abbrev pub to_ipv4 : Ipv6Addr → Option Ipv4Addr
to_ipv4 s = if is_mapped s then some (low_octets s) else none

abbrev v6_is_multicast : Ipv6Addr → Bool
v6_is_multicast s = bit_and 16 s.s0 65280 == 65280

abbrev v6_is_unique_local : Ipv6Addr → Bool
v6_is_unique_local s = bit_and 16 s.s0 65024 == 64512

abbrev v6_is_unicast_link_local : Ipv6Addr → Bool
v6_is_unicast_link_local s = bit_and 16 s.s0 65472 == 65152

-- `is_disallowed_ipv6` for an address that stands for no IPv4 address
abbrev pub is_disallowed_native : Ipv6Addr → Bool
is_disallowed_native s =
    if v6_is_multicast s || v6_is_unique_local s || v6_is_unicast_link_local s
    then true
    else if s.s0 == 8193 && s.s1 == 3512
    then true
    else s.s0 == 16383

unfoldable pub is_disallowed_ipv6 : Ipv6Addr → Bool
is_disallowed_ipv6 s =
    if v6_is_loopback s || v6_is_unspecified s
    then true
    else elim (to_ipv4 s) [ some o ↦ is_disallowed_ipv4 o | none ↦ is_disallowed_native s ]

unfoldable pub is_disallowed_ip : IpAddr → Bool
is_disallowed_ip (v4 o) = is_disallowed_ipv4 o
is_disallowed_ip (v6 s) = is_disallowed_ipv6 s
