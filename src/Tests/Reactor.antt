-- ===== src/Tests/Reactor.antt =====
-- Threads, event loops, the acceptor and the server at concrete inputs.
use mathlib.Core.Option.{some_inj}
use dytech.Prelude.{
  Bool, ap, sym, length, ◌⊎◌, ℕ, ◌<◌, ◌≡◌, ◌≢◌, refl, true, false, none, some, [], ◌∷◌, ◌++◌, arith,
  replicate, get_elem?, ◌==◌, if◌then◌else◌,
}
use dytech.Core.Result.{ok}
use dytech.Outcome.{returns}
use dytech.Core.NetAddress.{Protocol}
use dytech.Core.Connection.{Connection, LooperId, make_connection, set_callback}
use dytech.Core.Poller.{ConnectionPtr, put, make_poller, add_registration, is_registered}
use dytech.Core.ThreadPool.{
  ThreadPool, Reach, Step, here, next, make_thread_pool, submit_check, submit_push, pushed, joining,
  asleep, finished,
}
use dytech.Core.ThreadPool.Queue.{count, left, Reach-in_order}
use dytech.Core.ThreadPool.Shutdown.{stop-lost_wakeup}
use dytech.Core.Looper.{
  Looper, make_looper, find_connection, add_connection, insert_connection, delete_connection,
  run_round,
}
use dytech.Core.Looper.Invariant.{
  IsWellFormed, IsDeleted, registered_ptr, delete_connection-IsWellFormed,
}
use dytech.Core.Looper.Clients.{Handler, client_callbacks}
use dytech.Core.Looper.Clients.Reactor.{Keeps}
use dytech.Core.Looper.Clients.Round.{applied, round_outcome, recorded, Stuck}
use dytech.Core.Looper.Clients.Life.{Reachable, made, turned, joins, run_round-Reachable}
use dytech.Core.DistributionAgent.{DistributionAgent, select_candidate, select_candidate-bounds}
use dytech.Core.Acceptor.{Acceptor, Loopers, accept}
use dytech.Core.Acceptor.Dispatch.{ClientOf, IsNew, Owns, accept-Owns}
use dytech.Core.Server.{Server, make_server}
use dytech.Core.Server.Setup.{IsSetUp, make_server-IsSetUp}
use dytech.Tests.Sockets.{kernel}

-- A pool to which the task 9 was submitted.
abbrev busy : ThreadPool
busy = record (make_thread_pool 2) { tasks_queue = 9 ∷ []; submitted = 9 ∷ []; submitter = pushed }

busy-Reach : Reach (make_thread_pool 2) busy
unfolding make_thread_pool
busy-Reach = next (next here (submit_check _ refl refl refl)) (submit_push _ 9 refl)

Reach-in_order_example :
    (busy.started ++ busy.tasks_queue ≡ busy.submitted)
    × (0 < count left busy.workers → (busy.started ≡ busy.submitted) × (busy.stop ≡ true))
Reach-in_order_example = Reach-in_order 2 busy-Reach

stop-lost_wakeup_example :
    (s : ThreadPool) × Reach (make_thread_pool 4) s
    × (s.destroyer ≡ joining)
    × (s.workers ≡ asleep ∷ replicate 3 finished)
    × ((t : ThreadPool) → Step s t → ⊥)
stop-lost_wakeup_example = stop-lost_wakeup 4

-- A loop with nothing in it.
abbrev pub empty_looper : Looper
empty_looper = make_looper (λ q. none)

empty_looper-IsWellFormed : IsWellFormed empty_looper
unfolding make_looper registered_ptr find_connection
empty_looper-IsWellFormed = record { live = λ fd p h. cc; kept = λ fd p h. cc }

-- A client's connection, with the function 3.
abbrev pub client : Connection
client = set_callback (make_connection 5) (some 3)

-- A loop with the client at the address 7.
abbrev pub one : Looper
one = record empty_looper {
  poller = record (empty_looper.poller) {
    registered = record { fd = 5; ptr = 7; events = 0 } ∷ [];
  };
  connections = (5, 7) ∷ [];
  objects = λ q. if q == 7 then some client else none;
}

pub one-IsWellFormed : IsWellFormed one
unfolding registered_ptr find_connection make_connection set_callback
one-IsWellFormed = record {
  live = λ fd p h. (client, ground arith, ground arith);
  kept = λ fd p h. h;
}

delete_connection-IsWellFormed_example :
    let (found, l') = delete_connection one 5 in
    IsWellFormed l'
    × (find_connection 5 one.connections ≡ none → (found ≡ false) × (l' ≡ one))
    × ((p : ConnectionPtr)
        → find_connection 5 one.connections ≡ some p
        → (found ≡ true) × IsDeleted one 5 p l')
delete_connection-IsWellFormed_example = delete_connection-IsWellFormed one 5 one-IsWellFormed

-- Every client is deleted when it is handled.
abbrev dismissing : Handler
dismissing f c = some (c, true)

dismissing-Keeps : Keeps dismissing
dismissing-Keeps f c c' ended e =
    let same : (c, true) ≡ (c', ended) = some_inj.0 e in
    (
      ap (λ (r : Connection × Bool). r.0.fd) (sym same),
      ap (λ (r : Connection × Bool). r.0.callback) (sym same),
    )

one_joined : add_connection true empty_looper 7 client ≡ returns one
unfolding add_connection add_registration is_registered insert_connection find_connection put
    make_looper make_poller make_connection set_callback
one_joined = refl

one-Reachable : Reachable (λ q. none) one
unfolding make_looper registered_ptr set_callback
one-Reachable = turned made (joins 7 client 3 refl refl refl one_joined)

run_round-Reachable_example :
    ((l' : Looper) × (run_round (client_callbacks dismissing) ((7, 1) ∷ []) one ≡ some (7 ∷ [], l'))
      × ((q : ConnectionPtr)
          → l'.objects q ≡ applied (round_outcome dismissing) ((7, 1) ∷ []) one.objects q))
    ⊎ ((run_round (client_callbacks dismissing) ((7, 1) ∷ []) one ≡ none)
        × Stuck dismissing (7 ∷ []) (applied recorded ((7, 1) ∷ []) one.objects))
unfolding registered_ptr
run_round-Reachable_example =
    run_round-Reachable (λ q. none) one one-Reachable dismissing dismissing-Keeps ((7, 1) ∷ [])
      (tt, tt) ((5, refl), tt)

-- Two event loops, of which the second is chosen.
abbrev pub two_candidates : DistributionAgent
two_candidates = record { candidates = 1 ∷ 2 ∷ [] }

abbrev pub acceptor : Acceptor
acceptor = record {
  acceptor_connection = make_connection 5;
  agent = two_candidates;
  on_accept_cb = 1;
  on_handle_cb = 3;
}

pub client-IsNew : IsNew kernel acceptor (λ n. empty_looper) 7 6
unfolding make_looper registered_ptr
client-IsNew = record {
  arrived = refl;
  flags = 2;
  has_flags = refl;
  settable = refl;
  well_formed = λ n. empty_looper-IsWellFormed;
  free = λ n. refl;
  unknown = λ n. refl;
}

accept-Owns_example :
    (looper : LooperId) × (idx : ℕ) × (c : Connection) × (loopers' : Loopers) × (get_elem?
        two_candidates.candidates idx
      ≡ some looper)
    × ClientOf acceptor looper 6 c
    × (accept kernel (λ b. b) true 7 acceptor (λ n. empty_looper) ≡ ok (some 1, loopers'))
    × Owns (loopers' looper) 7 c
    × ((n : LooperId) → n ≢ looper → loopers' n ≡ empty_looper)
accept-Owns_example =
    accept-Owns kernel (λ b. b) 7 acceptor (λ n. empty_looper) 6 (λ b. omega arith) (omega arith)
      (omega arith) client-IsNew

make_server-IsSetUp_example :
    (s : Server) × (make_server kernel true Protocol.ipv4 3 7 ≡ ok s) × IsSetUp 3 5 7 s
make_server-IsSetUp_example = make_server-IsSetUp kernel Protocol.ipv4 3 5 7 (record {
  made = refl;
  reuses_address = refl;
  reuses_port = refl;
  binds = refl;
  listens = refl;
})

select_candidate-bounds_example :
    ((looper : LooperId) × (idx : ℕ) × (select_candidate (λ b. b) two_candidates
        ≡ some (looper, idx))
      × (idx < length two_candidates.candidates)
      × (get_elem? two_candidates.candidates idx ≡ some looper))
    ⊎ ((two_candidates.candidates ≡ []) × (select_candidate (λ b. b) two_candidates ≡ none))
select_candidate-bounds_example =
    select_candidate-bounds (λ b. b) two_candidates (λ b. omega arith) (omega arith)
