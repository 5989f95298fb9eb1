-- ===== src/Demo/HttpServer/Client/Arrival.antt =====
-- A new client of the server, from the kernel's report at the listening socket to its first answers.
use dytech.Prelude.{
  ℕ, ◌<◌, ◌≡◌, ◌∙◌, ap, Bool, true, false, none, some, List, [], ◌∷◌, ◌++◌, Bytes, All, length,
  size_mod,
}
use dytech.Text.{find}
use dytech.Core.Result.{ok}
use dytech.Core.Connection.{Connection, Recv, Sent, LooperId, failed, eagain, set_revents}
use dytech.Core.Connection.Receive.{GoesOn, arrivals}
use dytech.Core.Poller.{ConnectionPtr}
use dytech.Core.Looper.{Looper, run_round}
use dytech.Core.Looper.Clients.{client_callbacks}
use dytech.Core.Socket.{Kernel}
use dytech.Core.DistributionAgent.{Generator, IsUniform}
use dytech.Core.Acceptor.{Acceptor, Loopers, accept}
use dytech.Core.Acceptor.Dispatch.{ClientOf, IsNew, accept-Owns}
use dytech.Demo.ResourceCache.{ResourceCache}
use dytech.Demo.HttpServer.{Site, World, request_end, process_http_request}
use dytech.Demo.HttpServer.Pipeline.{Answers, IsRequestText, Takes, concat, outcome}
use dytech.Demo.HttpServer.Client.{http_handler, Leaves, left, run_round-Answers}

-- What a client sends in one go: the results of `recv`, whole requests and a rest without one.
pub record Brings (texts : List Bytes) (rest : Bytes) (finished : Bool) (received : List Recv)
    : Type 0 where
  pub comes : All GoesOn received
  pub whole : All IsRequestText texts
  pub incomplete : finished ≡ false → find rest request_end ≡ none
  pub all : arrivals received ≡ concat texts ++ rest

module _ (cache : ResourceCache) (site : Site) where
  -- A new client, for which `accept` and `fcntl` succeed and whose descriptor and address no looper
  -- has, is given to an event loop, where the loopers are well-formed, the generator keeps to its
  -- bounds, and there is a candidate and no more of them than a size can count. Let the next round
  -- of that loop report this client alone, and let the calls of `recv` bring bytes or be interrupted
  -- until one finds the socket drained (`EAGAIN`), so that none of them ends the stream or fails;
  -- let the bytes be whole requests, which the handlers answer, and a rest without one where the
  -- connection is not to be closed; and let no call of `send` fail for good, each answer being taken
  -- whole by the calls that there are. Then that round hands exactly the answers to the kernel, in
  -- order, up to one that closes the connection; the loop no longer has the client in that case, and
  -- otherwise owns it with the rest to be read.
  pub accept-Answers :
      {texts : List Bytes} {w w' : World cache} {finished : Bool} {bs : List Bytes}
      → Answers cache site texts w finished bs w'
      → (k : Kernel) (generate : Generator) (p : ConnectionPtr) (a : Acceptor) (loopers : Loopers)
      → (fd : ℕ) → IsUniform generate
      → 0 < length a.agent.candidates
      → length a.agent.candidates < size_mod
      → IsNew k a loopers p fd
      → (events : ℕ) (rest : Bytes) (received after : List Recv) (sends more : List Sent)
      → Brings texts rest finished received
      → Takes bs sends more
      → let recvs = received ++ failed eagain ∷ after in
        (looper : LooperId) × (c : Connection) × (loopers' : Loopers) × (accept k generate true p a
            loopers
          ≡ ok (some a.on_accept_cb, loopers'))
        × ClientOf a looper fd c
        × (process_http_request cache site (set_revents c events) w recvs sends
            ≡ outcome cache site finished (set_revents c events) rest (concat bs) w' more)
        × (l' : Looper) × (run_round
              (client_callbacks (http_handler cache site w recvs sends))
              ((p, events) ∷ [])
              (loopers' looper)
            ≡ some (p ∷ [], l'))
        × Leaves finished
            (loopers' looper)
            p
            c
            (left cache site finished (set_revents c events) rest)
            l'
  accept-Answers answers k generate p a loopers fd uniform some_there small new events rest received
        after sends more b takes =
      let (looper, idx, c, loopers', at, client, accepted, owned, others) =
        accept-Owns k generate p a loopers fd uniform some_there small new in
      let (answered, l', run, leaves) =
        run_round-Answers cache site answers (loopers' looper) p events c a.on_handle_cb rest
          received after sends more owned client.2 b.comes b.whole b.incomplete
          (ap (λ z. z ++ arrivals received) client.4 ∙ b.all) client.5 takes in
      (looper, c, loopers', accepted, client, answered, l', run, leaves)
