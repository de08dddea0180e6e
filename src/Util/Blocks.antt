-- ===== src/Util/Blocks.antt =====
-- src/util.rs: `is_disallowed_ip` as a list of address blocks in CIDR notation.
use rustypaste.Prelude.{
  ℕ, ◌≡◌, ◌+◌, ◌-◌, ◌*◌, ◌^◌, ◌<◌, Bool, true, false, ◌&&◌, ◌||◌, List, [], ◌∷◌, any, leb, ltb,
  ◌==◌, arith, if◌then◌else◌,
}
use rustypaste.Util.Ip.{Ipv4Addr, bit_and, is_disallowed_ipv4}

abbrev pub address : Ipv4Addr → ℕ
address o = ((o.o0 * 256 + o.o1) * 256 + o.o2) * 256 + o.o3

-- a block: its network, and the length of its prefix in bits
abbrev pub Block : Type 0
Block = Ipv4Addr × ℕ

abbrev block : (a b c d prefix : ℕ) → Block
block a b c d prefix = (record { o0 = a; o1 = b; o2 = c; o3 = d }, prefix)

-- the address is the network's or one of the 2 ^ (32 - prefix) - 1 that follow it
abbrev pub is_inside : Ipv4Addr → Block → Bool
is_inside o (network, prefix) =
    leb (address network) (address o) && ltb (address o) (address network + 2 ^ (32 - prefix))

abbrev pub disallowed_blocks : List Block
disallowed_blocks =
    block 0 0 0 0 32
    ∷ block 100 64 0 0 10
    ∷ block 127 0 0 0 8
    ∷ block 169 254 0 0 16
    ∷ block 192 0 0 0 24
    ∷ block 192 0 2 0 24
    ∷ block 198 18 0 0 15
    ∷ block 198 51 100 0 24
    ∷ block 203 0 113 0 24
    ∷ block 224 0 0 0 4
    ∷ block 240 0 0 0 4
    ∷ []

abbrev pub AreOctets : Ipv4Addr → Type 0
AreOctets o = (o.o0 < 256) × (o.o1 < 256) × (o.o2 < 256) × (o.o3 < 256)

cgnat : (b : ℕ) → b < 256 → (bit_and 8 b 192 == 64) ≡ (leb 64 b && ltb b 128)
cgnat b h = ground arith

reordered :
    (un lb ll mc bc d1 d2 d3 cg be pr re md : Bool)
    → (bc ≡ true → re ≡ true)
    → (md ≡ true → ll ≡ true)
    → (if lb || ll || mc || bc || (d1 || d2 || d3) || un
        then true
        else if cg
        then true
        else if be
        then true
        else if pr
        then true
        else if re
        then true
        else md)
      ≡ (un
          || (cg || (lb || (ll || (pr || (d1 || (be || (d2 || (d3 || (mc || (re || false)))))))))))
reordered un lb ll mc bc d1 d2 d3 cg be pr re md h k = ground arith

module _ (o : Ipv4Addr) (octets : AreOctets o) where
  in_zero : is_inside o (block 0 0 0 0 32) ≡ (o.o0 == 0 && o.o1 == 0 && o.o2 == 0 && o.o3 == 0)
  in_zero = let (h0, h1, h2, h3) = octets in ground arith

  in_cgnat_in : is_inside o (block 100 64 0 0 10) ≡ (o.o0 == 100 && bit_and 8 o.o1 192 == 64)
  in_cgnat_in = let (h0, h1, h2, h3) = octets in ground (arith, cgnat o.o1 h1)

  in_loopback : is_inside o (block 127 0 0 0 8) ≡ (o.o0 == 127)
  in_loopback = let (h0, h1, h2, h3) = octets in ground arith

  in_link_local : is_inside o (block 169 254 0 0 16) ≡ (o.o0 == 169 && o.o1 == 254)
  in_link_local = let (h0, h1, h2, h3) = octets in ground arith

  in_protocol : is_inside o (block 192 0 0 0 24) ≡ (o.o0 == 192 && o.o1 == 0 && o.o2 == 0)
  in_protocol = let (h0, h1, h2, h3) = octets in ground arith

  in_doc1 : is_inside o (block 192 0 2 0 24) ≡ (o.o0 == 192 && o.o1 == 0 && o.o2 == 2)
  in_doc1 = let (h0, h1, h2, h3) = octets in ground arith

  in_bench : is_inside o (block 198 18 0 0 15) ≡ (o.o0 == 198 && (o.o1 == 18 || o.o1 == 19))
  in_bench = let (h0, h1, h2, h3) = octets in ground arith

  in_doc2 : is_inside o (block 198 51 100 0 24) ≡ (o.o0 == 198 && o.o1 == 51 && o.o2 == 100)
  in_doc2 = let (h0, h1, h2, h3) = octets in ground arith

  in_doc3 : is_inside o (block 203 0 113 0 24) ≡ (o.o0 == 203 && o.o1 == 0 && o.o2 == 113)
  in_doc3 = let (h0, h1, h2, h3) = octets in ground arith

  in_multi : is_inside o (block 224 0 0 0 4) ≡ (leb 224 o.o0 && leb o.o0 239)
  in_multi = let (h0, h1, h2, h3) = octets in ground arith

  in_reserved : is_inside o (block 240 0 0 0 4) ≡ (leb 240 o.o0)
  in_reserved = let (h0, h1, h2, h3) = octets in ground arith

  -- An IPv4 address is disallowed exactly where it lies in one of the eleven blocks 0.0.0.0/32,
  -- 100.64.0.0/10, 127.0.0.0/8, 169.254.0.0/16, 192.0.0.0/24, 192.0.2.0/24, 198.18.0.0/15,
  -- 198.51.100.0/24, 203.0.113.0/24, 224.0.0.0/4 and 240.0.0.0/4.
  pub is_disallowed_ipv4-any : is_disallowed_ipv4 o ≡ any (is_inside o) disallowed_blocks
  unfolding is_disallowed_ipv4
  is_disallowed_ipv4-any = cc (
    in_zero,
    in_cgnat_in,
    in_loopback,
    in_link_local,
    in_protocol,
    in_doc1,
    in_bench,
    in_doc2,
    in_doc3,
    in_multi,
    in_reserved,
    reordered (o.o0 == 0 && o.o1 == 0 && o.o2 == 0 && o.o3 == 0) (o.o0 == 127)
        (o.o0 == 169 && o.o1 == 254) (leb 224 o.o0 && leb o.o0 239)
        (o.o0 == 255 && o.o1 == 255 && o.o2 == 255 && o.o3 == 255)
        (o.o0 == 192 && o.o1 == 0 && o.o2 == 2) (o.o0 == 198 && o.o1 == 51 && o.o2 == 100)
        (o.o0 == 203 && o.o1 == 0 && o.o2 == 113) (o.o0 == 100 && bit_and 8 o.o1 192 == 64)
        (o.o0 == 198 && (o.o1 == 18 || o.o1 == 19)) (o.o0 == 192 && o.o1 == 0 && o.o2 == 0)
        (leb 240 o.o0) (o.o0 == 169 && o.o1 == 254 && o.o2 == 169 && o.o3 == 254)
        (λ h. ground arith) (λ h. ground arith),
  )
