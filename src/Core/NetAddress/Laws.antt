-- ===== src/Core/NetAddress/Laws.antt =====
-- What an address prints as, for a text that is an address and for one that is not.
use dytech.Prelude.{ℕ, ◌<◌, ◌^◌, ◌≡◌, none, some, ◌++◌, Bytes}
use dytech.Text.{codes, to_string, c_str}
use dytech.Core.NetAddress.{
  Inet, Protocol, family_of, make_address, store_ip, get_ip, get_port, to_text,
}

module _ (inet : Inet)
    -- `ntohs` is the inverse of `htons` on 16 bits.
    (swap : (port : ℕ) → port < 2 ^ 16 → inet.ntohs (inet.htons port) ≡ port) where
  -- An address that was made of the canonical text of an address and a 16-bit port prints as that
  -- text, an `@` and the port.
  pub to_text-make_address :
      (protocol : Protocol) (ip : Bytes) (a : inet.Address) (port : ℕ)
      → inet.pton (family_of inet protocol) (c_str ip) ≡ some a
      → c_str (inet.ntop (family_of inet protocol) a) ≡ ip
      → port < 2 ^ 16
      → to_text inet (make_address inet ip port protocol) ≡ ip ++ (codes " @ " ++ to_string port)
  unfolding to_text make_address get_ip get_port store_ip
  to_text-make_address protocol ip a port read shown small = rw (read, shown, swap port small)

  -- A text that is no address of the protocol gives the address of zeros, silently, whatever the
  -- text is; the port is kept.
  make_address-malformed :
      (protocol : Protocol) (ip : Bytes) (port : ℕ)
      → inet.pton (family_of inet protocol) (c_str ip) ≡ none
      → port < 2 ^ 16
      → ((make_address inet ip port protocol).address_data.address ≡ inet.zero)
        × (get_port inet (make_address inet ip port protocol) ≡ port)
  unfolding make_address get_port store_ip
  make_address-malformed protocol ip port bad small = (rw (bad, store_ip), swap port small)
