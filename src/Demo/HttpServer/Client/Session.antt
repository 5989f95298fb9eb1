-- ===== src/Demo/HttpServer/Client/Session.antt =====
-- A client of the server over many reports of the kernel.
use dytech.Prelude.{
  subst, ℕ, ◌≡◌, refl, sym, ap, ◌∙◌, Bool, true, false, Option, none, some, List, [], ◌∷◌, ◌++◌,
  Bytes, All, append_assoc, append-nil,
}
use dytech.Text.{find}
use dytech.Core.Connection.{Connection, Recv, Sent, failed, eagain, set_revents}
use dytech.Core.Connection.Receive.{GoesOn, arrivals}
use dytech.Core.Poller.{ConnectionPtr}
use dytech.Core.Looper.{Looper, run_round, find_connection}
use dytech.Core.Looper.Invariant.{IsWellFormed}
use dytech.Core.Looper.Clients.{client_callbacks}
use dytech.Core.Acceptor.Dispatch.{Owns}
use dytech.Demo.ResourceCache.{ResourceCache}
use dytech.Demo.HttpServer.{
  Site, World, Served, waiting, aborted, deleted, kept, request_end, process_http_request,
}
use dytech.Demo.HttpServer.Pipeline.{Answers, IsRequestText, Takes, concat, outcome}
use dytech.Demo.HttpServer.Client.{http_handler, Leaves, left, run_round-Answers}

-- One report: its events, and what `recv` and `send` return in the call.
pub record Visit : Type 0 where
  pub events : ℕ
  pub recvs : List Recv
  pub sends : List Sent

module _ (cache : ResourceCache) (site : Site) where
  -- The world and the bytes for the client behind a call that returns.
  unfoldable pub effect : Served cache → Option (Bytes × World cache)
  effect waiting = none
  effect aborted = none
  effect (deleted wire w) = some (wire, w)
  effect (kept c wire w rs) = some (wire, w)

  -- The rounds of the loop that reports this client, one for each visit: the loop, the world and all
  -- bytes that the kernel took for the client.
  unfoldable pub serve_visits :
      ConnectionPtr
      → List Visit
      → Looper
      → World cache
      → Bytes
      → Option (Looper × World cache × Bytes)
  unfolding effect http_handler
  serve_visits p [] l w wire = some (l, w, wire)
  serve_visits p (v ∷ vs) l w wire = elim (l.objects p) [
    | none ↦ none
    | some c ↦
        elim (effect (process_http_request cache site (set_revents c v.events) w v.recvs v.sends)) [
          | none ↦ none
          | some (sent, w') ↦
              elim (run_round (client_callbacks (http_handler cache site w v.recvs v.sends))
                ((p, v.events) ∷ []) l) [
                  | none ↦ none
                  | some (started, l') ↦ serve_visits p vs l' w' (wire ++ sent)
                ]
        ]
  ]

  -- The bytes that come in one visit, behind what was kept: whole requests, which the handlers answer,
  -- and a rest without one.
  pub record Asks (before : Bytes) (w : World cache) (v : Visit) (finished : Bool) (bs : List Bytes)
      (rest : Bytes) (w' : World cache) : Type 0 where
    pub received : List Recv
    pub after : List Recv
    pub calls : v.recvs ≡ received ++ failed eagain ∷ after
    pub comes : All GoesOn received
    pub texts : List Bytes
    pub whole : All IsRequestText texts
    pub incomplete : finished ≡ false → find rest request_end ≡ none
    pub all : before ++ arrivals received ≡ concat texts ++ rest
    pub answered : Answers cache site texts w finished bs w'
    pub more : List Sent
    pub taken : Takes bs v.sends more

  -- The visits of a client, up to one that closes its connection.
  pub data Asking
      : Bytes → World cache → List Visit → Bool → Bytes → Bytes → World cache → Type 0 where
    quiet : {before : Bytes} {w : World cache} → Asking before w [] false [] before w
    leaving :
        {before : Bytes} {w w' : World cache} {v : Visit} {bs : List Bytes} {rest : Bytes}
        → Asks before w v true bs rest w'
        → Asking before w (v ∷ []) true (concat bs) rest w'
    staying :
        {before : Bytes} {w w' w'' : World cache} {v : Visit} {vs : List Visit} {bs : List Bytes}
        {rest rest' : Bytes} {finished : Bool} {wire : Bytes}
        → Asks before w v false bs rest w'
        → Asking rest w' vs finished wire rest' w''
        → Asking before w (v ∷ vs) finished (concat bs ++ wire) rest' w''

  -- What is left of the client in its loop.
  abbrev pub Stays : Bool → Looper → ConnectionPtr → ℕ → Bytes → Type 0
  Stays true l p fd rest =
      IsWellFormed l × (l.objects p ≡ none) × (find_connection fd l.connections ≡ none)
  Stays false l p fd rest = (c : Connection) × Owns l p c × (c.fd ≡ fd) × (c.read_buffer.buf ≡ rest)

  effect-outcome :
      (finished : Bool) (c : Connection) (rest wire : Bytes) (w : World cache) (more : List Sent)
      → effect (outcome cache site finished c rest wire w more) ≡ some (wire, w)
  unfolding effect
  effect-outcome true c rest wire w more = refl
  effect-outcome false c rest wire w more = refl

  serve_visits_step :
      (p : ConnectionPtr) (v : Visit) (vs : List Visit) (l l' : Looper) (w w' : World cache)
      → (wire sent : Bytes) (started : List ConnectionPtr) (c : Connection) → l.objects p ≡ some c
      → effect (process_http_request cache site (set_revents c v.events) w v.recvs v.sends)
        ≡ some (sent, w')
      → run_round
          (client_callbacks (http_handler cache site w v.recvs v.sends))
          ((p, v.events) ∷ [])
          l
        ≡ some (started, l')
      → serve_visits p (v ∷ vs) l w wire ≡ serve_visits p vs l' w' (wire ++ sent)
  unfolding serve_visits
  serve_visits_step p v vs l l' w w' wire sent started c found ran round =
      rw (found, serve_visits, ran, serve_visits, round, serve_visits)

  -- One visit.
  serve_visits-Asks :
      (l : Looper) (p : ConnectionPtr) (c : Connection) (f : ℕ) (w w' : World cache) (v : Visit)
      → (vs : List Visit) (finished : Bool) (bs : List Bytes) (rest wire : Bytes) → Owns l p c
      → c.callback ≡ some f
      → c.write_buffer.buf ≡ []
      → Asks c.read_buffer.buf w v finished bs rest w'
      → (l' : Looper) × (serve_visits p (v ∷ vs) l w wire
          ≡ serve_visits p vs l' w' (wire ++ concat bs))
        × Leaves finished l p c (left cache site finished (set_revents c v.events) rest) l'
  serve_visits-Asks l p c f w w' v vs finished bs rest wire owned called e a =
      let called_now = set_revents c v.events in
      let (answered, l', run, leaves) =
        run_round-Answers cache site a.answered l p v.events c f rest a.received a.after v.sends
          a.more owned called a.comes a.whole a.incomplete a.all e a.taken in
      let answered' =
        ap (λ recvs. process_http_request cache site called_now w recvs v.sends) a.calls
        ∙ answered in
      let run' =
        ap
          (λ recvs.
            run_round (client_callbacks (http_handler cache site w recvs v.sends))
              ((p, v.events) ∷ []) l)
          a.calls
        ∙ run in
      (
        l',
        serve_visits_step p v vs l l' w w' wire (concat bs) (p ∷ []) c owned.existing
            (ap effect answered' ∙ effect-outcome finished called_now rest (concat bs) w' a.more)
            run',
        leaves,
      )

  -- A client that an event loop owns, whose connection has a function and nothing left to be sent, is
  -- reported any number of times, each time alone. In each report the calls of `recv` bring bytes or are
  -- interrupted until one finds the socket drained (`EAGAIN`), so that none of them ends the stream or
  -- fails; the bytes are, behind those kept from the report before, whole requests, which the handlers
  -- answer, and a rest without one where the connection is not to be closed; and no call of `send` fails
  -- for good, each answer being taken whole by the calls that there are. Under these conditions every
  -- round comes to its end, and in all the client gets exactly the answers, in order, up to one that
  -- closes the connection; the loop then no longer has it, and otherwise owns it with the last rest to
  -- be read.
  pub serve_visits-Asking :
      {before rest sent : Bytes} {w w' : World cache} {vs : List Visit} {finished : Bool}
      → Asking before w vs finished sent rest w'
      → (l : Looper) (p : ConnectionPtr) (c : Connection) (f : ℕ) (wire : Bytes) → Owns l p c
      → c.callback ≡ some f
      → c.read_buffer.buf ≡ before
      → c.write_buffer.buf ≡ []
      → (l' : Looper) × (serve_visits p vs l w wire ≡ some (l', w', wire ++ sent))
        × Stays finished l' p c.fd rest
  unfolding serve_visits set_revents
  serve_visits-Asking quiet l p c f wire owned called e e' = (l, rw append-nil, (c, owned, refl, e))
  serve_visits-Asking (leaving {w = w} {w' = w'} {v = v} {bs = bs} {rest = rest} a) l p c f wire
        owned called e e' =
      let (l', step, leaves) =
        serve_visits-Asks l p c f w w' v [] true bs rest wire owned called e'
          (subst (λ z. Asks z w v true bs rest w') (sym e) a) in
      (l', step, (leaves.0, leaves.1.gone, leaves.1.forgotten))
  serve_visits-Asking
        (staying {w = w} {w' = w'} {v = v} {vs = vs} {bs = bs} {rest = rest} {rest' = rest'}
          {finished = finished} a more)
        l p c f wire owned called e e' =
      let (l', step, leaves) =
        serve_visits-Asks l p c f w w' v vs false bs rest wire owned called e'
          (subst (λ z. Asks z w v false bs rest w') (sym e) a) in
      let c' = left cache site false (set_revents c v.events) rest in
      let (l'', rest_run, stays) =
        serve_visits-Asking more l' p c' f (wire ++ concat bs) leaves.0 called refl e' in
      (l'', step ∙ rest_run ∙ rw append_assoc, stays)
