-- ===== src/Demo/HttpServer/Client.antt =====
-- A client of the server, from the kernel's report of it: the event loop calls `ProcessHttpRequest`
-- for its connection.
pub mod Arrival
pub mod Same
pub mod Session
use mathlib.Core.Option.{some_inj}
use dytech.Prelude.{
  ℕ, ◌≡◌, ◌≢◌, refl, sym, ap, ◌∙◌, Bool, true, false, Option, none, some, List, [], ◌∷◌, ◌++◌,
  Bytes, All, if◌then◌else◌, Bool-cases, inl, inr, ◌==◌, ==_iff,
}
use dytech.Text.{find}
use dytech.Core.Connection.{Connection, Recv, Sent, failed, eagain, set_revents}
use dytech.Core.Connection.Receive.{GoesOn, arrivals}
use dytech.Core.Poller.{ConnectionPtr, put, poll_loop, set_revents_at}
use dytech.Core.Looper.{
  Looper, find_connection, delete_connection, erase_connection, start_all, start, run_round,
}
use dytech.Core.Looper.Invariant.{
  IsWellFormed, IsDeleted, registered_ptr, put-IsWellFormed, delete_connection-IsWellFormed,
  put_self, put_ne,
}
use dytech.Core.Looper.Round.{start-runs}
use dytech.Core.Looper.Clients.{Handler, after_handler, client_callbacks}
use dytech.Core.Acceptor.Dispatch.{Owns}
use dytech.Demo.ResourceCache.{ResourceCache}
use dytech.Demo.HttpServer.{
  Site, World, Served, waiting, aborted, deleted, kept, request_end, process_http_request,
}
use dytech.Demo.HttpServer.Pipeline.{
  Answers, IsRequestText, Takes, concat, reading, outcome, process_http_request-Answers,
}

module _ (cache : ResourceCache) where
  -- What a call of `ProcessHttpRequest` leaves of the connection, and whether it ended with
  -- `DeleteConnection`.
  unfoldable pub after_served : Connection → Served cache → Option (Connection × Bool)
  after_served c waiting = none
  after_served c aborted = none
  after_served c (deleted wire w) = some (c, true)
  after_served c (kept c' wire w rs) = some (c', false)

  -- The function that is given to `OnHandle`.
  unfoldable pub http_handler : Site → World cache → List Recv → List Sent → Handler
  unfolding after_served process_http_request
  http_handler site w recvs sends f c =
      after_served c (process_http_request cache site c w recvs sends)

-- A round in which only this client is reported.
module _ (l : Looper) (p : ConnectionPtr) (events : ℕ) (c : Connection) (f : ℕ) (handler : Handler)
    (owned : Owns l p c) (called : c.callback ≡ some f) where
  abbrev recorded : Looper
  recorded = record l { objects = put l.objects p (some (set_revents c events)) }

  run_round-alone :
      (c' : Connection) (finished : Bool) (l' : Looper)
      → handler f (set_revents c events) ≡ some (c', finished)
      → after_handler p recorded c.fd (some (c', finished)) ≡ some l'
      → run_round (client_callbacks handler) ((p, events) ∷ []) l ≡ some (p ∷ [], l')
  unfolding run_round poll_loop set_revents_at start_all client_callbacks set_revents
  run_round-alone c' finished l' ran ends =
      let found : recorded.objects p ≡ some (set_revents c events) = put_self l.objects p _ in
      let started : start (client_callbacks handler) p recorded ≡ some l' =
        start-runs (client_callbacks handler) p recorded found called
          (rw (found, client_callbacks, ran) ends) in
      let polled : poll_loop ((p, events) ∷ []) l.objects ≡ some (p ∷ [], recorded.objects) =
        rw (owned.existing, poll_loop) in
      let all : start_all (client_callbacks handler) (p ∷ []) recorded ≡ some (p ∷ [], l') =
        rw (started, start_all) in
      rw (polled, run_round) all

-- What a round leaves of a loop with a client: a loop without it, or with the client's connection as
-- it is then, `c'`. Nothing else changes.
abbrev pub Leaves : Bool → Looper → ConnectionPtr → Connection → Connection → Looper → Type 0
Leaves true l p c c' l' = IsWellFormed l' × IsDeleted l c.fd p l'
Leaves false l p c c' l' = Owns l' p c' × ((q : ConnectionPtr) → q ≢ p → l'.objects q ≡ l.objects q)

module _ (l : Looper) (p : ConnectionPtr) (events : ℕ) (c : Connection) (f : ℕ) (handler : Handler)
    (owned : Owns l p c) (called : c.callback ≡ some f) (c' : Connection)
    (same : c'.fd ≡ c.fd) where
  abbrev reported_loop : Looper
  reported_loop = recorded l p events c f handler owned called

  abbrev written : Looper
  written = record reported_loop { objects = put reported_loop.objects p (some c') }

  written-IsWellFormed : IsWellFormed written
  unfolding set_revents
  written-IsWellFormed =
      put-IsWellFormed reported_loop p (set_revents c events) c'
        (put-IsWellFormed l p c (set_revents c events) owned.well_formed owned.existing refl)
        (put_self l.objects p _) same

  written_others : (q : ConnectionPtr) → q ≢ p → written.objects q ≡ l.objects q
  written_others q ne = put_ne reported_loop.objects p q _ ne ∙ put_ne l.objects p q _ ne

  run_round-Leaves :
      (finished : Bool)
      → handler f (set_revents c events) ≡ some (c', finished)
      → (l' : Looper) × (run_round (client_callbacks handler) ((p, events) ∷ []) l
          ≡ some (p ∷ [], l'))
        × Leaves finished l p c c' l'
  unfolding after_handler
  run_round-Leaves false ran = (
    written,
    run_round-alone l p events c f handler owned called c' false written ran refl,
    (
      record {
        well_formed = written-IsWellFormed;
        entered = ap (λ d. find_connection d l.connections) same ∙ owned.entered;
        existing = put_self reported_loop.objects p (some c');
        reported = ap (λ d. registered_ptr d l.poller.registered) same ∙ owned.reported;
      },
      written_others,
    ),
  )
  run_round-Leaves true ran =
      let l' = (delete_connection written c.fd).1 in
      let (formed, absent, present) =
        delete_connection-IsWellFormed written c.fd written-IsWellFormed in
      let (found, gone) = present p owned.entered in
      (
        l',
        run_round-alone l p events c f handler owned called c' true l' ran refl,
        (
          formed,
          record {
            gone = gone.gone;
            forgotten = gone.forgotten;
            unreported = gone.unreported;
            others = λ q ne. gone.others q ne ∙ written_others q ne;
            owned = gone.owned;
            registered = gone.registered;
            goes_on = gone.goes_on;
          },
        ),
      )

module _ (cache : ResourceCache) (site : Site) where
  -- The connection that a call leaves.
  abbrev pub left : Bool → Connection → Bytes → Connection
  left true c rest = c
  left false c rest = reading c rest

  http_handler-outcome :
      (w w' : World cache) (recvs : List Recv) (sends more : List Sent) (f : ℕ) (c : Connection)
      → (finished : Bool) (rest wire : Bytes)
      → process_http_request cache site c w recvs sends
        ≡ outcome cache site finished c rest wire w' more
      → http_handler cache site w recvs sends f c ≡ some (left finished c rest, finished)
  unfolding http_handler after_served
  http_handler-outcome w w' recvs sends more f c true rest wire e = ap (after_served cache c) e
  http_handler-outcome w w' recvs sends more f c false rest wire e = ap (after_served cache c) e

  left_fd : (finished : Bool) (c : Connection) (rest : Bytes) → (left finished c rest).fd ≡ c.fd
  left_fd true c rest = refl
  left_fd false c rest = refl

  -- The kernel reports a client that an event loop owns, whose connection has nothing left to be sent,
  -- and whose bytes, with those kept from before, are whole requests, which the handlers answer, and a
  -- rest without one. Then the round calls `ProcessHttpRequest`, which hands exactly the answers to the
  -- kernel, in order, up to one that closes the connection; the loop then no longer has the client in
  -- that case, and otherwise owns it with the rest to be read. No other connection changes.
  pub run_round-Answers :
      {texts : List Bytes} {w w' : World cache} {finished : Bool} {bs : List Bytes}
      → Answers cache site texts w finished bs w'
      → (l : Looper) (p : ConnectionPtr) (events : ℕ) (c : Connection) (f : ℕ)
      → (rest : Bytes) (before after : List Recv) (sends more : List Sent) → Owns l p c
      → c.callback ≡ some f
      → All GoesOn before
      → All IsRequestText texts
      → (finished ≡ false → find rest request_end ≡ none)
      → c.read_buffer.buf ++ arrivals before ≡ concat texts ++ rest
      → c.write_buffer.buf ≡ []
      → Takes bs sends more
      → let called = set_revents c events in
        let recvs = before ++ failed eagain ∷ after in
        (process_http_request cache site called w recvs sends
          ≡ outcome cache site finished called rest (concat bs) w' more)
        × (l' : Looper) × (run_round
              (client_callbacks (http_handler cache site w recvs sends))
              ((p, events) ∷ [])
              l
            ≡ some (p ∷ [], l'))
        × Leaves finished l p c (left finished called rest) l'
  unfolding set_revents
  run_round-Answers {w = w} {w' = w'} {finished = finished} {bs = bs} a l p events c f rest before
        after sends more owned called on whole open_ e e' takes =
      let c' = set_revents c events in
      let recvs = before ++ failed eagain ∷ after in
      let answered =
        process_http_request-Answers cache site a c' rest before after sends more on whole open_ e
          e' takes in
      let (l', run, leaves) =
        run_round-Leaves l p events c f (http_handler cache site w recvs sends) owned called
          (left finished c' rest) (left_fd finished c' rest) finished
          (http_handler-outcome w w' recvs sends more f c' finished rest (concat bs) answered) in
      (answered, l', run, leaves)
