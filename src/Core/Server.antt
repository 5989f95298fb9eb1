-- ===== src/Core/Server.antt =====
-- core/server.h and core/server.cc: a listener, and a number of event loops on the threads of a pool.
pub mod Setup
use dytech.Prelude.{
  ℕ, zero, suc, ◌+◌, Bool, true, false, not, Option, none, List, [], ◌∷◌, ◌++◌, if◌then◌else◌,
}
use dytech.Text.{codes}
use dytech.Core.Result.{Result, ok, throws, ◌>>=◌}
use dytech.Core.NetAddress.{Protocol}
use dytech.Core.Socket.{Kernel}
use dytech.Core.Connection.{LooperId, Callback}
use dytech.Core.Poller.{ConnectionPtr}
use dytech.Core.Looper.{Looper, make_looper}
use dytech.Core.ThreadPool.{ThreadPool, make_thread_pool, get_size, submit_task}
use dytech.Core.DistributionAgent.{DistributionAgent, no_candidates, add_candidate}
use dytech.Core.Acceptor.{Acceptor, make_acceptor, set_on_accept, set_on_handle}

-- The loopers are numbered: the listener is 0, and the reactors follow. The task of a pool's worker
-- is the looper whose `StartLoop` it calls.
abbrev pub listener_id : LooperId
listener_id = 0

pub record Reactors : Type 0 where
  pub reactors : List LooperId
  pub agent : DistributionAgent
  pub pool : ThreadPool

pub record Server : Type 0 where
  pub on_handle_set : Bool
  pub acceptor : Acceptor
  pub threads : Reactors
  pub listener : Looper

-- The loop of the constructor: `count` rounds, from the index `i` on.
unfoldable pub add_reactors : ℕ → ℕ → Reactors → Result Reactors
unfolding submit_task add_candidate
add_reactors zero i r = ok r
add_reactors (suc count) i r = submit_task r.pool (i + 1) >>= λ pool.
    add_reactors count (i + 1) (record {
      reactors = r.reactors ++ (i + 1) ∷ [];
      agent = add_candidate r.agent (i + 1);
      pool = pool;
    })

-- `Server(server_address, num_threads)`; `p` is where the listening connection is made.
unfoldable pub make_server : Kernel → Bool → Protocol → ℕ → ConnectionPtr → Result Server
unfolding add_reactors
make_server k accepted protocol num_threads p =
    let pool = make_thread_pool num_threads in
    add_reactors (get_size pool) 0 (record { reactors = []; agent = no_candidates; pool = pool })
    >>= λ threads.
        make_acceptor k accepted listener_id (make_looper (λ q. none)) threads.agent protocol p
        >>= λ made. ok (record {
          on_handle_set = false;
          acceptor = made.0;
          threads = threads;
          listener = made.1;
        })

-- `OnAccept` and `OnHandle`.
unfoldable pub on_accept : Server → Callback → Server
on_accept s f = record s { acceptor = set_on_accept s.acceptor f }

unfoldable pub on_handle : Server → Callback → Server
on_handle s f = record s { acceptor = set_on_handle s.acceptor f; on_handle_set = true }

-- `Begin`, up to the listener's loop.
unfoldable pub begin : Server → Result (Unit {0})
begin s =
    if not s.on_handle_set
    then throws (codes "Please specify OnHandle callback function before starts")
    else ok tt
