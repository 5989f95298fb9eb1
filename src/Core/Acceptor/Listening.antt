-- ===== src/Core/Acceptor/Listening.antt =====
-- The listener of a server, as the acceptor leaves it.
use mathlib.Core.Option
use dytech.Prelude.{ℕ, ◌≡◌, refl, ap, ◌∙◌, true, false, none, some, [], ◌∷◌}
use dytech.Core.Result.{ok}
use dytech.Core.NetAddress.{Protocol}
use dytech.Core.Socket.{
  Kernel, bind_with_server_address, start_listening, k_back_log, create_socket,
}
use dytech.Core.Connection.{
  Connection, LooperId, Callback, set_looper, set_callback, set_events, set_revents,
  make_connection,
}
use dytech.Core.Poller.{
  ConnectionPtr, put, is_registered, poll_loop, set_revents_at, k_read, k_default_listened_events,
}
use dytech.Core.Looper.{Looper, Callbacks, make_looper, add_acceptor, start, start_all, run_round}
use dytech.Core.Looper.Round.{start-calls}
use dytech.Core.Looper.Registered.{put_self}
use dytech.Core.DistributionAgent.{DistributionAgent}
use dytech.Core.Acceptor.{Acceptor, make_acceptor, accepting, nothing}

-- The calls that set a listening socket up succeed.
pub record IsOpen (k : Kernel) (protocol : Protocol) (fd : ℕ) : Type 0 where
  pub made : k.socket protocol ≡ some fd
  pub reuses_address : k.reuse_address fd ≡ true
  pub reuses_port : k.reuse_port fd ≡ true
  pub binds : k.bind fd ≡ true
  pub listens : k.listen fd k_back_log ≡ true

-- The connection as it is when these events were reported of it.
abbrev pub reported : ConnectionPtr → ℕ → Connection → Looper → Looper
reported p events c l = record l { objects = put l.objects p (some (set_revents c events)) }

-- The listener waits for clients: the kernel reports the listening descriptor to it, as readable and
-- not edge-triggered, with the connection `c` at `p`, and no other descriptor. The connection
-- exists there and belongs to the listener, which does not own it. Whatever the kernel reports of it,
-- the round comes to one call of the accepting function, for that connection.
pub record IsListening (listener_id : LooperId) (p : ConnectionPtr) (fd : ℕ) (c : Connection)
    (l : Looper) : Type 0 where
  pub descriptor : c.fd ≡ fd
  pub registered : l.poller.registered ≡ record { fd = fd; ptr = p; events = k_read } ∷ []
  pub existing : l.objects p ≡ some c
  pub belongs : c.owner_looper ≡ some listener_id
  pub not_owned : l.connections ≡ []
  pub goes_on : l.exit ≡ false
  pub calls :
      (call : Callbacks) (events : ℕ)
      → run_round call ((p, events) ∷ []) l
        ≡ Option.map (λ l'. (p ∷ [], l')) (call accepting p (reported p events c l))

start_all_one :
    (call : Callbacks) (p : ConnectionPtr) (l : Looper)
    → start_all call (p ∷ []) l ≡ Option.map (λ l'. (p ∷ [], l')) (start call p l)
unfolding start_all
start_all_one call p l = elim (start call p l) [ none ↦ refl | some l' ↦ refl ]

-- A round in which one connection is reported.
run_round-one :
    (call : Callbacks) (p : ConnectionPtr) (events : ℕ) (f : Callback) (c : Connection) (l : Looper)
    → l.objects p ≡ some c
    → c.callback ≡ some f
    → run_round call ((p, events) ∷ []) l
      ≡ Option.map (λ l'. (p ∷ [], l')) (call f p (reported p events c l))
unfolding run_round poll_loop set_revents_at start_all set_revents
run_round-one call p events f c l found called =
    let polled : poll_loop ((p, events) ∷ []) l.objects
        ≡ some (p ∷ [], (reported p events c l).objects) =
      rw (found, poll_loop) in
    let started : start call p (reported p events c l) ≡ call f p (reported p events c l) =
      start-calls call p (reported p events c l) (put_self l.objects p _) called in
    let all : start_all call (p ∷ []) (reported p events c l)
        ≡ Option.map (λ l'. (p ∷ [], l')) (call f p (reported p events c l)) =
      start_all_one call p (reported p events c l) ∙ ap (Option.map (λ l'. (p ∷ [], l'))) started in
    rw (polled, run_round) all

-- An acceptor that is made with a new listener, where the listening socket can be set up.
pub make_acceptor-IsListening :
    (k : Kernel) (protocol : Protocol) (agent : DistributionAgent) (listener_id : LooperId)
    → (fd : ℕ) (p : ConnectionPtr) → IsOpen k protocol fd
    → (a : Acceptor) × (l : Looper) × (make_acceptor k true listener_id
          (make_looper (λ q. none))
          agent
          protocol
          p
        ≡ ok (a, l))
      × (a.agent ≡ agent)
      × IsListening listener_id p fd a.acceptor_connection l
unfolding make_acceptor bind_with_server_address create_socket start_listening add_acceptor
    make_looper is_registered set_looper set_callback set_events make_connection
make_acceptor-IsListening k protocol agent listener_id fd p o =
    let c = set_looper (set_events (make_connection fd) k_read) listener_id in
    let a : Acceptor = record {
      acceptor_connection = set_callback c (some accepting);
      agent = agent;
      on_accept_cb = nothing;
      on_handle_cb = nothing;
    } in
    let l : Looper = record {
      poller = record {
        poll_size = k_default_listened_events;
        registered = record { fd = fd; ptr = p; events = k_read } ∷ [];
      };
      connections = [];
      exit = false;
      objects = put (put (λ q. none) p (some c)) p (some a.acceptor_connection);
    } in
    let existing : l.objects p ≡ some a.acceptor_connection =
      put_self (put (λ q. none) p (some c)) p _ in
    (
      a,
      l,
      rw (o.made, bind_with_server_address, o.reuses_address, o.reuses_port, o.binds, o.listens),
      refl,
      record {
        descriptor = refl;
        registered = refl;
        existing = existing;
        belongs = refl;
        not_owned = refl;
        goes_on = refl;
        calls = λ call events.
            run_round-one call p events accepting a.acceptor_connection l existing refl;
      },
    )
