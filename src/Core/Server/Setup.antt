-- ===== src/Core/Server/Setup.antt =====
-- What a server consists of when it was set up.
use dytech.Prelude.{
  ℕ, zero, suc, ◌+◌, ◌≡◌, ◌≢◌, ◌↔◌, refl, sym, ap, ◌∙◌, true, false, Option, none, some, List, [],
  ◌∷◌, ◌++◌, arith, length, max, replicate, append_assoc, append-nil, if◌then◌else◌,
}
use dytech.Text.{codes}
use dytech.Core.Result.{ok, throws, ◌>>=◌}
use dytech.Core.NetAddress.{Protocol}
use dytech.Core.Socket.{Kernel}
use dytech.Core.Connection.{LooperId, Callback}
use dytech.Core.Poller.{ConnectionPtr}
use dytech.Core.ThreadPool.{
  ThreadPool, make_thread_pool, submit_task, testing, k_min_thread_count, get_size,
}
use dytech.Core.DistributionAgent.{add_candidate, no_candidates}
use dytech.Core.Acceptor.{set_on_accept, set_on_handle}
use dytech.Core.Acceptor.Listening.{IsOpen, IsListening, make_acceptor-IsListening}
use dytech.Core.Server.{
  Server, Reactors, add_reactors, make_server, on_accept, on_handle, begin, listener_id,
}

-- The numbers of `count` loopers, behind the first `i`.
unfoldable pub numbers : ℕ → ℕ → List LooperId
numbers zero i = []
numbers (suc count) i = (i + 1) ∷ numbers count (i + 1)

-- More reactors, each with a candidate and a task.
abbrev extended : List LooperId → Reactors → Reactors
extended new r = record {
  reactors = r.reactors ++ new;
  agent = record { candidates = r.agent.candidates ++ new };
  pool = record (r.pool) {
    tasks_queue = r.pool.tasks_queue ++ new;
    submitted = r.pool.submitted ++ new;
  };
}

extended_nil : (r : Reactors) → extended [] r ≡ r
extended_nil r = simp append-nil

extended_cons :
    (n : LooperId) (ns : List LooperId) (r : Reactors)
    → extended ns (extended (n ∷ []) r) ≡ extended (n ∷ ns) r
extended_cons n ns r = simp append_assoc

submit_task-running :
    (s : ThreadPool) (t : ℕ)
    → s.stop ≡ false
    → submit_task s t
      ≡ ok (record s { tasks_queue = s.tasks_queue ++ t ∷ []; submitted = s.submitted ++ t ∷ [] })
unfolding submit_task
submit_task-running s t running =
    ap
      (λ b.
        if b
        then throws (codes "Submitting on a stopped ThreadPool")
        else ok
            (record s { tasks_queue = s.tasks_queue ++ t ∷ []; submitted = s.submitted ++ t ∷ [] }))
      running

add_reactors-numbers :
    (count i : ℕ) (r : Reactors)
    → r.pool.stop ≡ false
    → add_reactors count i r ≡ ok (extended (numbers count i) r)
unfolding add_reactors numbers add_candidate
add_reactors-numbers zero i r running = ap ok (sym (extended_nil r))
add_reactors-numbers (suc count) i r running =
    ap
      (λ m. m >>= λ pool. add_reactors count (i + 1) (record {
        reactors = r.reactors ++ (i + 1) ∷ [];
        agent = add_candidate r.agent (i + 1);
        pool = pool;
      }))
      (submit_task-running r.pool (i + 1) running)
    ∙ add_reactors-numbers count (i + 1) (extended ((i + 1) ∷ []) r) running
    ∙ ap ok (extended_cons (i + 1) (numbers count (i + 1)) r)

length-numbers : (count i : ℕ) → length (numbers count i) ≡ count
unfolding numbers
length-numbers zero i = refl
length-numbers (suc count) i = ap suc (length-numbers count (i + 1))

length-replicate : {A : Type 0} (n : ℕ) (a : A) → length (replicate n a) ≡ n
length-replicate zero a = refl
length-replicate (suc n) a = ap suc (length-replicate n a)

-- The event loops of a server for `n` threads, with a task for each, and its listener.
pub record IsSetUp (n fd : ℕ) (p : ConnectionPtr) (s : Server) : Type 0 where
  pub reactors : s.threads.reactors ≡ numbers (max n k_min_thread_count) 0
  pub candidates : s.threads.agent.candidates ≡ s.threads.reactors
  pub agent : s.acceptor.agent ≡ s.threads.agent
  pub tasks : s.threads.pool.tasks_queue ≡ s.threads.reactors
  pub workers : length s.threads.pool.workers ≡ length s.threads.reactors
  pub listening : IsListening listener_id p fd s.acceptor.acceptor_connection s.listener
  pub unset : s.on_handle_set ≡ false

-- Where the listening socket can be set up, a server for `n` threads has that many event loops, and at
-- least two: each is a candidate for new clients and, in the same order, a task of the pool, which has
-- as many workers as there are loops. The listener has the listening socket as the one descriptor
-- that the kernel reports to it, with the acceptor's connection, which exists; a round in which it is
-- reported comes to one call of the accepting function. The server is not ready to begin.
pub make_server-IsSetUp :
    (k : Kernel) (protocol : Protocol) (n fd : ℕ) (p : ConnectionPtr)
    → IsOpen k protocol fd
    → (s : Server) × (make_server k true protocol n p ≡ ok s) × IsSetUp n fd p s
unfolding make_server get_size make_thread_pool
make_server-IsSetUp k protocol n fd p open_ =
    let count = max n k_min_thread_count in
    let pool = make_thread_pool n in
    let start : Reactors = record { reactors = []; agent = no_candidates; pool = pool } in
    let threads = extended (numbers count 0) start in
    let made : add_reactors (get_size pool) 0 start ≡ ok threads =
      ap (λ c. add_reactors c 0 start) (length-replicate count testing)
      ∙ add_reactors-numbers count 0 start refl in
    let (a, l, accepts, agent, listening) =
      make_acceptor-IsListening k protocol threads.agent listener_id fd p open_ in
    (
      record { on_handle_set = false; acceptor = a; threads = threads; listener = l },
      rw (made, accepts),
      record {
        reactors = refl;
        candidates = refl;
        agent = agent;
        tasks = refl;
        workers = length-replicate count testing ∙ sym (length-numbers count 0);
        listening = listening;
        unset = refl;
      },
    )

-- The calls by which a program configures a server.
pub data Setting : Type 0 where
  accepts handles : Callback → Setting

unfoldable pub configure : Server → List Setting → Server
configure s [] = s
configure s (accepts f ∷ settings) = configure (on_accept s f) settings
configure s (handles f ∷ settings) = configure (on_handle s f) settings

-- The last function that the settings give for handling clients, if there is one.
unfoldable pub last_handler : Option Callback → List Setting → Option Callback
last_handler f [] = f
last_handler f (accepts g ∷ settings) = last_handler f settings
last_handler f (handles g ∷ settings) = last_handler (some g) settings

-- The function that a server handles clients with, if one was set.
abbrev pub handler : Server → Option Callback
handler s = if s.on_handle_set then some s.acceptor.on_handle_cb else none

-- However a server is configured, it handles clients with the last function that was given for that;
-- and it begins exactly where one was given.
begin-configure :
    (s : Server) (settings : List Setting)
    → (handler (configure s settings) ≡ last_handler (handler s) settings)
      × ((begin (configure s settings) ≡ ok tt) ↔ (last_handler (handler s) settings ≢ none))
unfolding begin configure last_handler on_accept on_handle set_on_accept set_on_handle
begin-configure s [] = (refl, ((λ h e. ground arith), (λ h. ground arith)))
begin-configure s (accepts f ∷ settings) = begin-configure (on_accept s f) settings
begin-configure s (handles f ∷ settings) = begin-configure (on_handle s f) settings
