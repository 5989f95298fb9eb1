-- ===== src/Tests/Units/NetAddress.antt =====
-- test/core/net_address_test.cc, for whatever `<arpa/inet.h>` is that knows the address.
use dytech.Prelude.{ℕ, ◌<◌, ◌≡◌, Bool, true, some, arith, [], ◌∷◌, Bytes, length, ◌==◌, ◌^◌}
use dytech.Text.{codes, equal, to_string, c_str}
use dytech.Core.NetAddress.{
  Inet, Protocol, ipv4, ipv6, family_of, make_address, store_ip, get_ip, get_port, to_text,
}
use dytech.Tests.Units.{checks}

abbrev is_protocol : Protocol → Protocol → Bool
is_protocol ipv4 ipv4 = true
is_protocol ipv6 ipv6 = true
is_protocol _ _ = Bool.false

-- Both sections, by the protocol, the address and the port.
abbrev pub prints_back : (inet : Inet) → Protocol → Bytes → ℕ → Bytes → Bool
prints_back inet protocol ip port expected_format =
    let address = make_address inet ip port protocol in
    let ip_as_string = get_ip inet address in
    let actual_format = to_text inet address in
    checks (
      is_protocol address.protocol protocol
      ∷ equal ip_as_string ip
      ∷ (length ip_as_string == length ip)
      ∷ (get_port inet address == port)
      ∷ equal actual_format expected_format
      ∷ (length actual_format == length expected_format)
      ∷ [])

-- The library knows the address, and shows it as it was given; 16-bit ports come back.
pub record Knows (inet : Inet) (protocol : Protocol) (ip : Bytes) : Type 0 where
  pub address : inet.Address
  pub reads : inet.pton (family_of inet protocol) (c_str ip) ≡ some address
  pub shows : c_str (inet.ntop (family_of inet protocol) address) ≡ ip
  pub swaps : (port : ℕ) → port < 2 ^ 16 → inet.ntohs (inet.htons port) ≡ port

ipv4_passes :
    (inet : Inet)
    → Knows inet ipv4 (codes "127.0.0.1")
    → prints_back inet ipv4 (codes "127.0.0.1") 20080 (codes "127.0.0.1 @ 20080") ≡ true
unfolding to_text make_address get_ip get_port store_ip equal to_string
ipv4_passes inet k = rw (k.reads, k.shows, k.swaps 20080 (omega arith))

ipv6_passes :
    (inet : Inet)
    → Knows inet ipv6 (codes "2001:db8:3333:4444:5555:6666:7777:8888")
    → prints_back inet ipv6
        (codes "2001:db8:3333:4444:5555:6666:7777:8888")
        40080
        (codes "2001:db8:3333:4444:5555:6666:7777:8888 @ 40080")
      ≡ true
unfolding to_text make_address get_ip get_port store_ip equal to_string
ipv6_passes inet k = rw (k.reads, k.shows, k.swaps 40080 (omega arith))
