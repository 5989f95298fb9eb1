-- ===== src/Tests/Traffic.antt =====
-- Two clients of a server with two event loops.
use dytech.Prelude.{length, ◌⊎◌, ◌+◌, ◌≡◌, refl, true, none, some, [], ◌∷◌, arith}
use dytech.Core.Result.{ok}
use dytech.Core.Connection.{
  got, failed, wrote, eagain, eintr, Connection, set_looper, set_events, set_callback,
  make_connection,
}
use dytech.Core.Poller.{k_read, k_et, put, make_poller, add_registration, is_registered}
use dytech.Core.Socket.{
  Kernel, accept_client_address, set_nonblocking, get_attrs, is_nonblocking, or_nonblock,
}
use dytech.Core.Looper.{
  Looper, make_looper, find_connection, insert_connection, add_connection, run_round,
}
use dytech.Core.Looper.Invariant.{registered_ptr}
use dytech.Core.Looper.Clients.{Handler, client_callbacks}
use dytech.Core.Looper.Clients.Round.{applied, recorded, Stuck}
use dytech.Core.DistributionAgent.{IsUniform, select_candidate}
use dytech.Core.Acceptor.{Loopers, put_looper, client_connection, accept_fd, accept}
use dytech.Core.Acceptor.Traffic.{IsApart, Arrives}
use dytech.Core.Acceptor.Traffic.Busy.{Busy, idle, after, comes, run_round-Busy}
use dytech.Tests.Reactor.{acceptor, empty_looper}
use dytech.Tests.Serving.{store, site, world, asking, response}
use dytech.Tests.Sockets.{kernel}
use dytech.Demo.HttpServer.Client.{http_handler}
use dytech.Demo.HttpServer.Client.Same.{http_handler-Keeps}

-- The first client, and the loop that gets it.
abbrev first : Connection
first = set_looper (client_connection acceptor 6) 2

abbrev joined : Looper
joined = record empty_looper {
  poller = record (empty_looper.poller) {
    registered = record { fd = 6; ptr = 7; events = k_read + k_et } ∷ [];
  };
  connections = (6, 7) ∷ [];
  objects = put (λ q. none) 7 (some first);
}

abbrev idle_loopers : Loopers
idle_loopers n = make_looper (λ q. none)

abbrev visited : Loopers
visited = put_looper idle_loopers 2 joined

uniform : IsUniform (λ b. b)
uniform b = omega arith

first-Arrives : Arrives kernel acceptor idle_loopers 7 6
unfolding make_looper registered_ptr
first-Arrives = record {
  arrived = refl;
  flags = 2;
  has_flags = refl;
  settable = refl;
  free = λ n. refl;
  unknown = λ n. refl;
}

first_taken : accept kernel (λ b. b) true 7 acceptor idle_loopers ≡ ok (some 1, visited)
unfolding accept accept_fd accept_client_address set_nonblocking get_attrs is_nonblocking
    or_nonblock select_candidate add_connection add_registration is_registered insert_connection
    find_connection make_looper make_poller client_connection set_looper set_events set_callback
    make_connection
first_taken = refl

visited-Busy : Busy acceptor visited
visited-Busy = after idle (comes kernel (λ b. b) 7 6 uniform first-Arrives first_taken)

-- The second client gets another descriptor and another address.
abbrev busy_kernel : Kernel
busy_kernel = record kernel { accept = λ fd. some 8 }

second-Arrives : Arrives busy_kernel acceptor visited 9 8
unfolding put_looper make_looper registered_ptr put
second-Arrives = record {
  arrived = refl;
  flags = 2;
  has_flags = refl;
  settable = refl;
  free = λ n. ground arith;
  unknown = λ n. ground arith;
}

-- The first client asks for a file.
abbrev serving : Handler
serving =
    http_handler store site world (got asking ∷ failed eagain ∷ [])
      (wrote (length response) eintr ∷ [])

run_round-Busy_example :
    IsApart visited
    × (((l' : Looper) × (run_round (client_callbacks serving) ((7, 1) ∷ []) (visited 2)
            ≡ some (7 ∷ [], l')))
        ⊎ ((run_round (client_callbacks serving) ((7, 1) ∷ []) (visited 2) ≡ none)
            × Stuck serving (7 ∷ []) (applied recorded ((7, 1) ∷ []) (visited 2).objects)))
    × ((loopers' : Loopers) × (accept busy_kernel (λ b. b) true 9 acceptor visited
          ≡ ok (some 1, loopers')))
unfolding put_looper registered_ptr
run_round-Busy_example =
    run_round-Busy acceptor (omega arith) (omega arith) visited visited-Busy 2 serving
      (http_handler-Keeps store site world (got asking ∷ failed eagain ∷ [])
        (wrote (length response) eintr ∷ []))
      ((7, 1) ∷ []) (tt, tt) ((6, refl), tt) busy_kernel (λ b. b) 9 8 uniform second-Arrives
