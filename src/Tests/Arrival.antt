-- ===== src/Tests/Arrival.antt =====
-- The server program from its start, and a client that comes to it.
use dytech.Prelude.{◌≡◌, refl, true, false, none, some, [], ◌∷◌, ◌++◌, arith, length}
use dytech.Text.{codes, find, starts_with, empty}
use dytech.Core.Result.{ok}
use dytech.Core.Buffer.{make_buffer}
use dytech.Core.Connection.{
  Connection, LooperId, got, wrote, failed, eagain, eintr, make_connection, set_callback,
  set_revents,
}
use dytech.Core.Connection.Receive.{arrivals}
use dytech.Core.Connection.Send.{total as total_taken}
use dytech.Core.Looper.{Looper, find_connection, run_round}
use dytech.Core.Looper.Invariant.{registered_ptr}
use dytech.Core.Looper.Clients.{client_callbacks}
use dytech.Core.Acceptor.{Loopers, accept}
use dytech.Core.Acceptor.Dispatch.{ClientOf, Owns}
use dytech.Demo.HttpServer.{process_http_request}
use dytech.Demo.HttpServer.Pipeline.{IsRequestText, later, no_more, Takes, outcome}
use dytech.Demo.HttpServer.Client.{http_handler, Leaves, left}
use dytech.Demo.HttpServer.Client.Session.{
  Visit, Asking, staying, quiet, Stays, serve_visits, serve_visits-Asking,
}
use dytech.Demo.HttpServer.Client.Arrival.{Brings, accept-Answers}
use dytech.Tests.Reactor.{acceptor, client-IsNew, empty_looper, one, client, one-IsWellFormed}
use dytech.Tests.Serving.{
  answered_twice, nowhere, store, world, site, asking, response, response_long, answered, answers,
  benign,
}
use dytech.Tests.Sockets.{kernel}
use dytech.Demo.HttpServer.Main.{Arguments, Machine}

-- One request, and the beginning of another one.
asking-Brings : Brings (asking ∷ []) (codes "GE") false (got (asking ++ codes "GE") ∷ [])
unfolding find starts_with arrivals empty
asking-Brings = record {
  comes = ((λ e. cc), tt);
  whole = ((codes "GET /a.css HTTP/1.1\r\nConnection: Keep-Alive", refl, refl), tt);
  incomplete = λ e. refl;
  all = refl;
}

response-Takes : Takes (response ∷ []) (wrote (length response) eintr ∷ []) []
unfolding total_taken
response-Takes = (
  [],
  wrote (length response) eintr,
  [],
  refl,
  tt,
  benign (length response),
  response_long,
  omega arith,
  refl,
)

accept-Answers_example :
    let recvs = got (asking ++ codes "GE") ∷ failed eagain ∷ [] in
    let sends = wrote (length response) eintr ∷ [] in
    (looper : LooperId) × (c : Connection) × (loopers' : Loopers) × (accept kernel
        (λ b. b)
        true
        7
        acceptor
        (λ n. empty_looper)
      ≡ ok (some 1, loopers'))
    × ClientOf acceptor looper 6 c
    × (process_http_request store site (set_revents c 1) world recvs sends
        ≡ outcome store site false (set_revents c 1) (codes "GE") (response ++ []) (answered.0) [])
    × (l' : Looper) × (run_round
          (client_callbacks (http_handler store site world recvs sends))
          ((7, 1) ∷ [])
          (loopers' looper)
        ≡ some (7 ∷ [], l'))
    × Leaves false (loopers' looper) 7 c (left store site false (set_revents c 1) (codes "GE")) l'
accept-Answers_example =
    accept-Answers store site answers kernel (λ b. b) 7 acceptor (λ n. empty_looper) 6
      (λ b. omega arith) (omega arith) (omega arith) client-IsNew 1 (codes "GE")
      (got (asking ++ codes "GE") ∷ []) [] (wrote (length response) eintr ∷ []) [] asking-Brings
      response-Takes

one-Owns : Owns one 7 client
unfolding find_connection registered_ptr make_connection set_callback
one-Owns = record {
  well_formed = one-IsWellFormed;
  entered = refl;
  existing = refl;
  reported = refl;
}

-- The second request is cut in two by the reports.
abbrev first_visit : Visit
first_visit = record {
  events = 1;
  recvs = got (asking ++ codes "GE") ∷ failed eagain ∷ [];
  sends = wrote (length response) eintr ∷ [];
}

abbrev second_visit : Visit
second_visit = record {
  events = 1;
  recvs = got (codes "T /a.css HTTP/1.1\r\nConnection: Keep-Alive\r\n\r\n") ∷ failed eagain ∷ [];
  sends = wrote (length response) eintr ∷ [];
}

two_visits :
    Asking store site [] world
      (first_visit ∷ second_visit ∷ [])
      false
      ((response ++ []) ++ ((response ++ []) ++ []))
      []
      (answered_twice.1)
unfolding find starts_with arrivals empty
two_visits =
    let (w', w'', first, second) = answered_twice in
    let whole : IsRequestText asking =
      (codes "GET /a.css HTTP/1.1\r\nConnection: Keep-Alive", refl, refl) in
    staying
      (record {
        received = got (asking ++ codes "GE") ∷ [];
        after = [];
        calls = refl;
        comes = ((λ e. cc), tt);
        texts = asking ∷ [];
        whole = (whole, tt);
        incomplete = λ e. refl;
        all = refl;
        answered = later first no_more;
        more = [];
        taken = response-Takes;
      })
      (staying
        (record {
          received = got (codes "T /a.css HTTP/1.1\r\nConnection: Keep-Alive\r\n\r\n") ∷ [];
          after = [];
          calls = refl;
          comes = ((λ e. cc), tt);
          texts = asking ∷ [];
          whole = (whole, tt);
          incomplete = λ e. refl;
          all = refl;
          answered = later second no_more;
          more = [];
          taken = response-Takes;
        })
        quiet)

serve_visits-Asking_example :
    (l' : Looper) × (serve_visits store site 7 (first_visit ∷ second_visit ∷ []) one world []
      ≡ some (l', answered_twice.1, [] ++ ((response ++ []) ++ ((response ++ []) ++ []))))
    × Stays store site false l' 7 5 []
unfolding set_callback make_connection make_buffer
serve_visits-Asking_example =
    serve_visits-Asking store site two_visits one 7 client 3 [] one-Owns refl refl refl

-- A machine with two cores, and a command line that names a directory that is not there.
abbrev machine : Machine
machine = record {
  kernel = kernel;
  accepted = true;
  disk = site.disk;
  hardware_concurrency = 2;
  connection_at = 7;
  head = 1;
  tail = 2;
  now = 0;
  nodes = nowhere;
}

abbrev arguments : Arguments
arguments = record {
  help = false;
  usage = codes "A simple http/1.1 server";
  address = none;
  port = some 20_080;
  directory = ok (codes "/srv");
}
