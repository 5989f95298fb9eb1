-- ===== src/Core/Acceptor.antt =====
-- core/acceptor.h and core/acceptor.cc: the listening connection. It takes each new client from the
-- kernel and gives it to one of the event loops.
pub mod Dispatch
pub mod Listening
pub mod Traffic
use dytech.Prelude.{ℕ, ◌+◌, Bool, true, Option, none, some, ◌==◌, if◌then◌else◌}
use dytech.Outcome.{Outcome, returns, terminates}
use dytech.Core.Result.{Result, ok, throws, aborts, ◌>>=◌}
use dytech.Core.NetAddress.{Protocol}
use dytech.Core.Socket.{
  Kernel, no_socket, make_socket, valid_fd, bind_with_server_address, start_listening,
  accept_client_address, set_nonblocking,
}
use dytech.Core.Connection.{
  Connection, Callback, LooperId, make_connection, set_events, set_callback, set_looper,
}
use dytech.Core.Poller.{ConnectionPtr, put, k_read, k_et}
use dytech.Core.Looper.{Looper, add_acceptor, add_connection}
use dytech.Core.DistributionAgent.{DistributionAgent, Generator, select_candidate}

-- The event loops, by their numbers.
abbrev pub Loopers : Type 0
Loopers = LooperId → Looper

unfoldable pub put_looper : Loopers → LooperId → Looper → Loopers
put_looper loopers n l m = if m == n then l else loopers m

-- The function that `SetOnAccept` gives to the listening connection, and the empty function.
abbrev pub accepting : Callback
accepting = 0

abbrev pub nothing : Callback
nothing = 1

pub record Acceptor : Type 0 where
  pub acceptor_connection : Connection
  pub agent : DistributionAgent
  pub on_accept_cb : Callback
  pub on_handle_cb : Callback

-- A call that does not throw, where throwing is possible.
abbrev pub from_outcome {ℓ} : {A : Type ℓ} → Outcome A → Result A
from_outcome (returns a) = ok a
from_outcome terminates = aborts

-- `SetOnAccept`.
unfoldable pub set_on_accept : Acceptor → Callback → Acceptor
set_on_accept a on_accept = record a {
  on_accept_cb = on_accept;
  acceptor_connection = set_callback a.acceptor_connection (some accepting);
}

-- `SetOnHandle`.
unfoldable pub set_on_handle : Acceptor → Callback → Acceptor
set_on_handle a on_handle = record a { on_handle_cb = on_handle }

-- `Acceptor(listener, agent, server_address)`, with its connection at the address `p`: the acceptor
-- and the listener. The connection exists there before `AddAcceptor`, and `SetOnAccept` changes it;
-- every later `SetOnAccept` leaves it as it is, since its function is `accepting` then.
unfoldable pub make_acceptor :
    Kernel
    → Bool
    → LooperId
    → Looper
    → DistributionAgent
    → Protocol
    → ConnectionPtr
    → Result (Acceptor × Looper)
unfolding set_on_accept set_on_handle put
make_acceptor k accepted listener_id listener agent protocol p =
    let (bound, socket) = bind_with_server_address k no_socket protocol true in
    bound >>= λ _. start_listening k socket >>= λ _. valid_fd socket >>= λ fd.
    let c = set_looper (set_events (make_connection fd) k_read) listener_id in
    let listener = record listener { objects = put listener.objects p (some c) } in
    from_outcome (add_acceptor accepted listener p c) >>= λ listener.
    let a =
      set_on_handle
        (set_on_accept
          (record {
            acceptor_connection = c;
            agent = agent;
            on_accept_cb = nothing;
            on_handle_cb = nothing;
          })
          nothing)
        nothing in
    ok (a, record listener { objects = put listener.objects p (some a.acceptor_connection) })

-- The connection of a client: edge-triggered, with the function that handles clients.
unfoldable pub client_connection : Acceptor → ℕ → Connection
client_connection a fd =
    set_callback (set_events (make_connection fd) (k_read + k_et)) (some a.on_handle_cb)

abbrev pub selected : Option (LooperId × ℕ) → Result (LooperId × ℕ)
selected none = aborts
selected (some s) = ok s

-- The listening connection's function from a client's descriptor on: the function that is called
-- last, and the event loops. The client's connection is made at the address `p`.
unfoldable pub accept_fd :
    Kernel
    → Generator
    → Bool
    → ConnectionPtr
    → Acceptor
    → Loopers
    → ℕ
    → Result (Option Callback × Loopers)
unfolding client_connection put_looper
accept_fd k generate accepted p a loopers fd = do
  flags ← set_nonblocking k (make_socket (some fd))
  (looper, idx) ← selected (select_candidate generate a.agent)
  l ←
      from_outcome
        (add_connection accepted (loopers looper) p (set_looper (client_connection a fd) looper))
  ok (some a.on_accept_cb, put_looper loopers looper l)

-- The listening connection's function.
unfoldable pub accept :
    Kernel
    → Generator
    → Bool
    → ConnectionPtr
    → Acceptor
    → Loopers
    → Result (Option Callback × Loopers)
unfolding accept_fd
accept k generate accepted p a loopers = do
  client ← accept_client_address k (make_socket (some a.acceptor_connection.fd))
  elim client [ none ↦ ok (none, loopers) | some fd ↦ accept_fd k generate accepted p a loopers fd ]
