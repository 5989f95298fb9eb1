-- ===== src/Core/Socket.antt =====
-- core/socket.h and core/socket.cc: the owner of a socket descriptor. What the system calls answer
-- is a parameter; the descriptors that `close` is called with are a list, in the order of the calls.
pub mod Ownership
pub mod Calls
use dytech.Prelude.{
  ℕ, ◌+◌, ◌/◌, ◌%◌, Bool, true, false, Option, none, some, List, [], ◌∷◌, ◌++◌, Bytes, ◌==◌,
  if◌then◌else◌, ◌&&◌,
}
use dytech.Text.{codes}
use dytech.Core.Result.{Result, ok, throws, aborts, ◌>>=◌, ◌>>◌, check, or_throw, assert}
use dytech.Core.NetAddress.{Protocol}

-- `fd_`, where `none` stands for -1.
pub record Socket : Type 0 where
  pub fd : Option ℕ

-- The answers of the calls on a descriptor; `false` and `none` stand for -1. `accept` gives the
-- descriptor of a client, and `get_flags` the flags that a descriptor has.
pub record Kernel : Type 0 where
  pub socket : Protocol → Option ℕ
  pub connect : ℕ → Bool
  pub bind : ℕ → Bool
  pub listen : ℕ → ℕ → Bool
  pub accept : ℕ → Option ℕ
  pub reuse_address : ℕ → Bool
  pub reuse_port : ℕ → Bool
  pub get_flags : ℕ → Option ℕ
  pub set_flags : ℕ → Bool

abbrev pub k_back_log : ℕ
k_back_log = 128

-- `Socket()` and `Socket(fd)`.
abbrev pub no_socket : Socket
no_socket = record { fd = none }

abbrev pub make_socket : Option ℕ → Socket
make_socket fd = record { fd = fd }

-- `if (fd_ != -1) close(fd_)`.
unfoldable pub close_if_open : List ℕ → Option ℕ → List ℕ
close_if_open closed none = closed
close_if_open closed (some fd) = closed ++ fd ∷ []

-- `Socket(Socket&& other)`: the new socket, and the other one.
unfoldable pub move_construct : Socket → Socket × Socket
move_construct other = (record { fd = other.fd }, record other { fd = none })

-- `operator=(Socket&& other)`: the calls of `close`, this socket and the other one.
unfoldable pub move_assign : List ℕ → Socket → Socket → List ℕ × Socket × Socket
unfolding close_if_open
move_assign closed this other =
    (close_if_open closed this.fd, record this { fd = other.fd }, record other { fd = this.fd })

-- `~Socket()`.
unfoldable pub destroy : List ℕ → Socket → List ℕ
unfolding close_if_open
destroy closed this = close_if_open closed this.fd

-- `CreateSocket`.
unfoldable pub create_socket : Kernel → Protocol → Result ℕ
create_socket k protocol = or_throw (k.socket protocol) (codes "Socket: socket() error")

-- `if (fd_ == -1) { fd_ = CreateSocket(…); }`: the descriptor.
unfoldable pub ensure_fd : Kernel → Socket → Protocol → Result ℕ
unfolding create_socket
ensure_fd k this protocol = elim this.fd [ some fd ↦ ok fd | none ↦ create_socket k protocol ]

-- `assert(fd_ != -1)`: the descriptor.
abbrev pub valid_fd : Socket → Result ℕ
valid_fd this = elim this.fd [ some fd ↦ ok fd | none ↦ aborts ]

-- `ConnectToServer`, for an address of this protocol. A socket that was created is kept where the
-- call throws later.
unfoldable pub connect_to_server : Kernel → Socket → Protocol → Result (Unit {0}) × Socket
unfolding ensure_fd
connect_to_server k this protocol = elim (ensure_fd k this protocol) [
  | ok fd ↦ (check (k.connect fd) (codes "Socket: Connect() error"), make_socket (some fd))
  | throws e ↦ (throws e, this)
  | aborts ↦ (aborts, this)
]

-- `SetReusable`.
unfoldable pub set_reusable : Kernel → Socket → Result (Unit {0})
set_reusable k this = do
  fd ← valid_fd this
  check (k.reuse_address fd && k.reuse_port fd) (codes "Socket: SetReusable() error")

-- `BindWithServerAddress` from the creation of the socket on.
unfoldable pub bind_created : Kernel → ℕ → Bool → Result (Unit {0})
unfolding set_reusable
bind_created k fd is_reusable = do
  (if is_reusable then set_reusable k (make_socket (some fd)) else ok tt)
  check (k.bind fd) (codes "Socket: BindWithServerAddress() error")

-- `BindWithServerAddress`.
unfoldable pub bind_with_server_address :
    Kernel → Socket → Protocol → Bool → Result (Unit {0}) × Socket
unfolding ensure_fd bind_created
bind_with_server_address k this protocol is_reusable = elim (ensure_fd k this protocol) [
  | ok fd ↦ (bind_created k fd is_reusable, make_socket (some fd))
  | throws e ↦ (throws e, this)
  | aborts ↦ (aborts, this)
]

-- `StartListeningIncomingConnection`.
unfoldable pub start_listening : Kernel → Socket → Result (Unit {0})
start_listening k this = do
  fd ← valid_fd this
  check (k.listen fd k_back_log) (codes "Socket: StartListeningIncomingConnection() error")

-- `AcceptClientAddress`: the client's descriptor, or `none` for -1, which is only logged.
unfoldable pub accept_client_address : Kernel → Socket → Result (Option ℕ)
accept_client_address k this = do fd ← valid_fd this; ok (k.accept fd)

-- `GetAttrs`.
unfoldable pub get_attrs : Kernel → Socket → Result ℕ
get_attrs k this = do
  fd ← valid_fd this
  or_throw (k.get_flags fd) (codes "Socket: GetAttrs() error")

-- `O_NONBLOCK` is the bit 11.
abbrev pub o_nonblock : ℕ
o_nonblock = 2048

-- `(attributes & O_NONBLOCK) != 0`.
unfoldable pub is_nonblocking : ℕ → Bool
is_nonblocking attributes = (attributes / o_nonblock) % 2 == 1

-- `attributes | O_NONBLOCK`.
unfoldable pub or_nonblock : ℕ → ℕ
unfolding is_nonblocking
or_nonblock attributes = if is_nonblocking attributes then attributes else attributes + o_nonblock

-- `SetNonBlocking`: the flags that the descriptor has afterwards.
unfoldable pub set_nonblocking : Kernel → Socket → Result ℕ
unfolding get_attrs is_nonblocking or_nonblock
set_nonblocking k this = do
  fd ← valid_fd this
  current_attributes ← get_attrs k this
  if is_nonblocking current_attributes then ok current_attributes else (do
    check (k.set_flags fd) (codes "Socket: SetNonBlocking() error")
    ok (or_nonblock current_attributes))
