-- ===== src/Core/Socket/Calls.antt =====
-- What the calls on a socket come to, on every branch.
use dytech.Prelude.{
  ℕ, ◌/◌, ◌%◌, ◌≡◌, ◌↔◌, Bool, true, false, Option, none, some, arith, if◌then◌else◌, not, ◌&&◌,
  ◌||◌,
}
use dytech.Text.{codes}
use dytech.Core.Result.{ok, throws}
use dytech.Core.NetAddress.{Protocol}
use dytech.Core.Socket.{
  Socket, Kernel, set_nonblocking, is_nonblocking, or_nonblock, o_nonblock,
  bind_with_server_address, create_socket,
}

-- `SetNonBlocking` on a descriptor with these flags throws exactly where the flag is missing and
-- cannot be set. Otherwise the descriptor does not block afterwards, and every other flag is as it
-- was, the bits below and those above.
pub set_nonblocking-flags :
    (k : Kernel) (s : Socket) (fd before : ℕ)
    → s.fd ≡ some fd
    → k.get_flags fd ≡ some before
    → (set_nonblocking k s ≡ (
        if is_nonblocking before || k.set_flags fd
        then ok (or_nonblock before)
        else throws (codes "Socket: SetNonBlocking() error")))
      × (is_nonblocking (or_nonblock before) ≡ true)
      × (or_nonblock before % o_nonblock ≡ before % o_nonblock)
      × (or_nonblock before / 4096 ≡ before / 4096)
unfolding set_nonblocking
set_nonblocking-flags k s fd before e f = (ground arith, ground arith, ground arith, ground arith)

-- The descriptor that `BindWithServerAddress` works on: the one that the socket has, or a new one.
abbrev pub bound : Kernel → Socket → Protocol → Option ℕ
bound k s protocol = elim s.fd [ some fd ↦ some fd | none ↦ k.socket protocol ]

-- Is there one, and do the calls on it succeed?
abbrev pub binds : Kernel → Bool → Option ℕ → Bool
binds k is_reusable none = false
binds k is_reusable (some fd) =
    (not is_reusable || (k.reuse_address fd && k.reuse_port fd)) && k.bind fd

-- `BindWithServerAddress` keeps a descriptor that the socket has and otherwise takes a new one, also
-- where it throws afterwards; and it returns exactly where there is a descriptor and the calls on it
-- succeed, those that make it reusable only if it is to be.
pub bind_with_server_address-bound :
    (k : Kernel) (s : Socket) (protocol : Protocol) (is_reusable : Bool)
    → let (result, s') = bind_with_server_address k s protocol is_reusable in
      (s'.fd ≡ bound k s protocol)
      × ((result ≡ ok tt) ↔ (binds k is_reusable (bound k s protocol) ≡ true))
unfolding bind_with_server_address create_socket
bind_with_server_address-bound k s protocol is_reusable =
    (ground arith, ((λ h. ground arith), (λ h. ground arith)))
