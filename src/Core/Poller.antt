-- ===== src/Core/Poller.antt =====
-- core/poller.h and core/poller.cc: the epoll set of one thread. The kernel's list of registered
-- descriptors is part of the state, with the pointer that each of them was registered with; what
-- `epoll_ctl` and `epoll_wait` answer beyond that is an argument.
use dytech.Prelude.{
  ℕ, ◌^◌, Bool, true, false, not, ◌&&◌, Option, none, some, List, [], ◌∷◌, ◌==◌, if◌then◌else◌,
}
use dytech.Outcome.{Outcome, returns, terminates}
use dytech.Core.Connection.{Connection, set_revents}

-- The address of a `Connection`.
abbrev pub ConnectionPtr : Type 0
ConnectionPtr = ℕ

-- The connections that exist.
abbrev pub Objects : Type 0
Objects = ConnectionPtr → Option Connection

unfoldable pub put : Objects → ConnectionPtr → Option Connection → Objects
put objects p c q = if q == p then c else objects q

-- `Poller::Event`; `EPOLLET` is the bit 31.
abbrev pub k_add : ℕ
k_add = 1

abbrev pub k_read : ℕ
k_read = 1

abbrev pub k_et : ℕ
k_et = 2 ^ 31

abbrev pub k_default_listened_events : ℕ
k_default_listened_events = 1024

-- `event.data.ptr` and `event.events` of a registered descriptor.
pub record Registration : Type 0 where
  pub fd : ℕ
  pub ptr : ConnectionPtr
  pub events : ℕ

pub record Poller : Type 0 where
  pub poll_size : ℕ
  pub registered : List Registration

-- `Poller(poll_size)`, where `epoll_create1` succeeds.
unfoldable pub make_poller : ℕ → Poller
make_poller poll_size = record { poll_size = poll_size; registered = [] }

unfoldable pub is_registered : ℕ → List Registration → Bool
is_registered fd [] = false
is_registered fd (r ∷ rs) = if r.fd == fd then true else is_registered fd rs

-- `AddConnection`, for a connection with an open descriptor: `epoll_ctl` refuses one that is
-- registered, and any for which `accepted` is false; the process exits then.
unfoldable pub add_registration : Bool → Poller → ConnectionPtr → Connection → Outcome Poller
unfolding is_registered
add_registration accepted poller p c =
    if accepted && not (is_registered c.fd poller.registered)
    then returns (record poller {
      registered = record { fd = c.fd; ptr = p; events = c.events } ∷ poller.registered;
    })
    else terminates

-- Closing a descriptor takes it out of the set.
unfoldable pub unregister : ℕ → List Registration → List Registration
unregister fd [] = []
unregister fd (r ∷ rs) = if r.fd == fd then unregister fd rs else r ∷ unregister fd rs

-- What `epoll_wait` reports of a descriptor: the pointer that it was registered with, and events.
abbrev pub Ready : Type 0
Ready = ConnectionPtr × ℕ

-- `SetRevents` through a pointer; `none` where there is no connection at the address.
unfoldable pub set_revents_at : Objects → Ready → Option Objects
unfolding put
set_revents_at objects (p, events) = elim (objects p) [
  | none ↦ none
  | some c ↦ some (put objects p (some (set_revents c events)))
]

-- The loop of `Poll`: the connections that are ready, and the connections that exist.
unfoldable pub poll_loop : List Ready → Objects → Option (List ConnectionPtr × Objects)
unfolding set_revents_at
poll_loop [] objects = some ([], objects)
poll_loop (r ∷ rs) objects = elim (set_revents_at objects r) [
  | none ↦ none
  | some objects' ↦ elim (poll_loop rs objects') [
    | none ↦ none
    | some (events_happen, objects'') ↦ some (r.0 ∷ events_happen, objects'')
  ]
]
