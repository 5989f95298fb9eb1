-- ===== src/Core/Looper.antt =====
-- core/looper.h and core/looper.cc: the event loop of one thread. It owns the connections that were
-- added to it, by descriptor; `objects` are the connections that exist, so that a call through a
-- pointer to one that was destroyed is a fault, `none`. The mutex makes each method run alone.
pub mod Registered
pub mod Invariant
pub mod Round
pub mod Clients
use dytech.Prelude.{ℕ, Bool, true, false, Option, none, some, List, [], ◌∷◌, ◌==◌, if◌then◌else◌}
use dytech.Outcome.{Outcome, returns, terminates, ◌>>=◌}
use dytech.Core.Connection.{Connection, Callback}
use dytech.Core.Poller.{
  ConnectionPtr, Objects, Poller, Ready, put, make_poller, add_registration, unregister, poll_loop,
  k_default_listened_events,
}

pub record Looper : Type 0 where
  pub poller : Poller
  pub connections : List (ℕ × ConnectionPtr)
  pub exit : Bool
  pub objects : Objects

-- `Looper()`, in a program with these connections.
unfoldable pub make_looper : Objects → Looper
unfolding make_poller
make_looper objects = record {
  poller = make_poller k_default_listened_events;
  connections = [];
  exit = false;
  objects = objects;
}

-- `connections_.find(fd)`.
unfoldable pub find_connection : ℕ → List (ℕ × ConnectionPtr) → Option ConnectionPtr
find_connection fd [] = none
find_connection fd ((d, p) ∷ m) = if d == fd then some p else find_connection fd m

-- `connections_.erase(it)`.
unfoldable pub erase_connection : ℕ → List (ℕ × ConnectionPtr) → List (ℕ × ConnectionPtr)
erase_connection fd [] = []
erase_connection fd ((d, p) ∷ m) =
    if d == fd then erase_connection fd m else (d, p) ∷ erase_connection fd m

-- `AddAcceptor`, for a connection that exists.
unfoldable pub add_acceptor : Bool → Looper → ConnectionPtr → Connection → Outcome Looper
unfolding add_registration
add_acceptor accepted l p c = do
  poller ← add_registration accepted l.poller p c
  returns (record l { poller = poller })

-- The end of a connection: its descriptor is closed, which takes it out of the epoll set.
unfoldable pub destroy_connection : Looper → ℕ → ConnectionPtr → Looper
unfolding put unregister
destroy_connection l fd p = record l {
  poller = record (l.poller) { registered = unregister fd l.poller.registered };
  objects = put l.objects p none;
}

-- `connections_.insert({fd, std::move(new_conn)})`: where the descriptor is there already, the new
-- connection is destroyed.
unfoldable pub insert_connection : Looper → ℕ → ConnectionPtr → Looper
unfolding find_connection destroy_connection
insert_connection l fd p = elim (find_connection fd l.connections) [
  | none ↦ record l { connections = (fd, p) ∷ l.connections }
  | some q ↦ destroy_connection l fd p
]

-- `AddConnection`, for a connection that was made at the address `p`.
unfoldable pub add_connection : Bool → Looper → ConnectionPtr → Connection → Outcome Looper
unfolding add_registration insert_connection put
add_connection accepted l p c = do
  poller ← add_registration accepted l.poller p c
  returns
      (insert_connection (record l { poller = poller; objects = put l.objects p (some c) }) c.fd p)

-- `DeleteConnection`.
unfoldable pub delete_connection : Looper → ℕ → Bool × Looper
unfolding find_connection erase_connection destroy_connection
delete_connection l fd = elim (find_connection fd l.connections) [
  | none ↦ (false, l)
  | some p ↦
      (true, destroy_connection (record l { connections = erase_connection fd l.connections }) fd p)
]

-- `Exit`.
unfoldable pub exit_loop : Looper → Looper
exit_loop l = record l { exit = true }

-- What the functions do that connections may hold: each is called with the connection's address.
abbrev pub Callbacks : Type 0
Callbacks = Callback → ConnectionPtr → Looper → Option Looper

-- `Connection::Start` through a pointer; a connection with no function throws out of the thread.
unfoldable pub start : Callbacks → ConnectionPtr → Looper → Option Looper
start call p l = elim (l.objects p) [
  | none ↦ none
  | some c ↦ elim c.callback [ none ↦ none | some f ↦ call f p l ]
]

-- The inner loop of `StartLoop`: the connections that were started, and the looper.
unfoldable pub start_all :
    Callbacks → List ConnectionPtr → Looper → Option (List ConnectionPtr × Looper)
unfolding start
start_all call [] l = some ([], l)
start_all call (p ∷ ps) l = elim (start call p l) [
  | none ↦ none
  | some l' ↦ elim (start_all call ps l') [
    | none ↦ none
    | some (started, l'') ↦ some (p ∷ started, l'')
  ]
]

-- One round of `StartLoop`, for what `epoll_wait` reports.
unfoldable pub run_round : Callbacks → List Ready → Looper → Option (List ConnectionPtr × Looper)
unfolding poll_loop start_all
run_round call ready l = elim (poll_loop ready l.objects) [
  | none ↦ none
  | some (ready_connections, objects) ↦
      start_all call ready_connections (record l { objects = objects })
]

-- `StartLoop`, for these reports: whether the loop was left, what was started, and the looper.
unfoldable pub start_loop : Callbacks → List (List Ready) → Looper → Option (Bool × Looper)
unfolding run_round
start_loop call [] l = some (l.exit, l)
start_loop call (ready ∷ reports) l = elim l.exit [
  | true ↦ some (true, l)
  | false ↦ elim (run_round call ready l) [
    | none ↦ none
    | some (started, l') ↦ start_loop call reports l'
  ]
]
