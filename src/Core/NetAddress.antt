-- ===== src/Core/NetAddress.antt =====
-- core/net_address.h and core/net_address.cc: a host's address and port. What `<arpa/inet.h>`
-- provides is a parameter.
pub mod Laws
use dytech.Prelude.{ℕ, Option, none, some, ◌++◌, Bytes}
use dytech.Text.{codes, to_string, c_str}

pub data Protocol : Type 0 where
  ipv4 ipv6 : Protocol

-- `sa_family_t`: 0 for an address that was not set.
pub data Family : Type 0 where
  unspecified af_inet af_inet6 : Family

-- The conversions of `<arpa/inet.h>`. `pton` is `none` for a text that is no address of the
-- family; `zero` is the address whose bytes are 0.
pub record Inet : Type 1 where
  pub Address : Type 0
  pub zero : Address
  pub pton : Family → Bytes → Option Address
  pub ntop : Family → Address → Bytes
  pub htons : ℕ → ℕ
  pub ntohs : ℕ → ℕ

module _ (inet : Inet) where
  -- `sockaddr_storage`, as far as `sockaddr_in` and `sockaddr_in6` reach.
  pub record Storage : Type 0 where
    pub family : Family
    pub address : inet.Address
    pub port : ℕ

  pub record NetAddress : Type 0 where
    pub protocol : Protocol
    pub address_data : Storage

  abbrev pub zeroed : Storage
  zeroed = record { family = unspecified; address = inet.zero; port = 0 }

  -- `NetAddress()`.
  unfoldable pub default_address : NetAddress
  default_address = record { protocol = ipv4; address_data = zeroed }

  -- `inet_pton(family, ip.data(), &address)`: the bytes stay as they are where it fails, and its
  -- result is not looked at.
  unfoldable pub store_ip : Option inet.Address → inet.Address → inet.Address
  store_ip none before = before
  store_ip (some address) before = address

  abbrev pub family_of : Protocol → Family
  family_of ipv4 = af_inet
  family_of ipv6 = af_inet6

  -- `NetAddress(ip, port, protocol)`, for a view of the whole text `ip`.
  unfoldable pub make_address : Bytes → ℕ → Protocol → NetAddress
  unfolding store_ip
  make_address ip port protocol = record {
    protocol = protocol;
    address_data = record {
      family = family_of protocol;
      address = store_ip (inet.pton (family_of protocol) (c_str ip)) inet.zero;
      port = inet.htons port;
    };
  }

  -- `GetIp`: the C string that `inet_ntop` writes.
  unfoldable pub get_ip : NetAddress → Bytes
  get_ip a = c_str (inet.ntop (family_of a.protocol) a.address_data.address)

  unfoldable pub get_port : NetAddress → ℕ
  get_port a = inet.ntohs a.address_data.port

  unfoldable pub to_text : NetAddress → Bytes
  unfolding get_ip get_port
  to_text a = get_ip a ++ (codes " @ " ++ to_string (get_port a))
