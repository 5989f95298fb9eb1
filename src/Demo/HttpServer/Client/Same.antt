-- ===== src/Demo/HttpServer/Client/Same.antt =====
-- `ProcessHttpRequest` leaves the descriptor and the function of its connection as they are.
use dytech.Prelude.{
  ℕ, zero, suc, ◌+◌, ◌≡◌, refl, sym, subst, Bool, true, false, Option, none, some, List, [], ◌∷◌,
  ◌++◌, Bytes, ltb, ◌&&◌, ◌==◌, not, take, drop, if◌then◌else◌,
}
use dytech.Outcome.{Outcome, returns, terminates}
use dytech.Core.Connection.{
  Connection, Callback, Recv, Sent, Received, Delivered, got, failed, eintr, eagain, ewouldblock,
  other, after_recv_error, receive_loop, receive, read_unsafe, send_loop, send, clear_write_buffer,
  write_array, find_and_pop_till, bytes_taken, errno, is_fatal, get_read_size,
}
use dytech.Core.Looper.Clients.Reactor.{Keeps}
use dytech.Demo.ResourceCache.{ResourceCache}
use dytech.Demo.HttpServer.{
  Site, World, Handled, Served, waiting, aborted, deleted, kept, request_end, handle_request,
  after_handling, after_pop, after_send, serve_loop, process_http_request,
}
use dytech.Demo.HttpServer.Client.{http_handler, after_served}

-- The descriptor and the function of a connection.
abbrev Has : ℕ → Option Callback → Connection → Type 0
Has fd f c = (c.fd ≡ fd) × (c.callback ≡ f)

abbrev ReceivedHas : ℕ → Option Callback → Option Received → Type 0
ReceivedHas fd f none = Unit
ReceivedHas fd f (some (r, c, rest)) = Has fd f c

abbrev DeliveredHas : ℕ → Option Callback → Option Delivered → Type 0
DeliveredHas fd f none = Unit
DeliveredHas fd f (some (c, wire, rest)) = Has fd f c

receive_loop-Has :
    (rs : List Recv) (read : ℕ) (c : Connection)
    → ReceivedHas c.fd c.callback (receive_loop rs read c)
unfolding receive_loop after_recv_error read_unsafe
receive_loop-Has [] read c = tt
receive_loop-Has (got [] ∷ rs) read c = (refl, refl)
receive_loop-Has (got (b ∷ bs) ∷ rs) read c = receive_loop-Has rs _ (read_unsafe c _ _)
receive_loop-Has (failed eintr ∷ rs) read c = receive_loop-Has rs read c
receive_loop-Has (failed eagain ∷ rs) read c = (refl, refl)
receive_loop-Has (failed ewouldblock ∷ rs) read c = (refl, refl)
receive_loop-Has (failed (other n) ∷ rs) read c = (refl, refl)

-- A test between two results.
either : {A : Type 0} (P : A → Type 0) (b : Bool) {x y : A} → P x → P y → P (if b then x else y)
either P true h k = h
either P false h k = k

send_loop-Has :
    (rs : List Sent) (buf : Bytes) (to_write curr : ℕ) (wire : Bytes) (c : Connection)
    → DeliveredHas c.fd c.callback (send_loop rs buf to_write curr wire c)
unfolding send_loop clear_write_buffer
send_loop-Has [] buf to_write curr wire c =
    either (DeliveredHas c.fd c.callback) (ltb curr to_write) tt (refl, refl)
send_loop-Has (r ∷ rs) buf to_write curr wire c =
    either (DeliveredHas c.fd c.callback) (not (ltb curr to_write)) (refl, refl)
      (either (DeliveredHas c.fd c.callback) ((bytes_taken r == 0) && is_fatal (errno r))
        (refl, refl)
        (send_loop-Has rs buf to_write (curr + bytes_taken r)
          (wire ++ take (bytes_taken r) (drop curr buf)) c))

module _ (cache : ResourceCache) (site : Site) where
  abbrev ServedHas : ℕ → Option Callback → Served cache → Type 0
  ServedHas fd f (kept c wire w rs) = Has fd f c
  ServedHas fd f _ = Unit

  module _ (fd : ℕ) (f : Option Callback)
      (again : Connection → World cache → List Sent → Bytes → Served cache)
      (so : (c : Connection) (w : World cache) (rs : List Sent) (wire : Bytes)
        → Has fd f c
        → ServedHas fd f (again c w rs wire)) where
    after_send-Has :
        (finished : Bool) (w : World cache) (wire : Bytes) (d : Option Delivered)
        → DeliveredHas fd f d
        → ServedHas fd f (after_send cache again finished w wire d)
    unfolding after_send
    after_send-Has finished w wire none h = tt
    after_send-Has true w wire (some (c, sent, rs)) h = tt
    after_send-Has false w wire (some (c, sent, rs)) h = so c w rs (wire ++ sent) h

    after_handling-Has :
        (c : Connection) (rs : List Sent) (wire : Bytes) (h : Outcome (Handled cache))
        → Has fd f c
        → ServedHas fd f (after_handling cache again c rs wire h)
    unfolding after_handling send write_array
    after_handling-Has c rs wire terminates h = tt
    after_handling-Has c rs wire (returns (finished, buf, w)) h =
        after_send-Has finished w wire (send rs (write_array c buf)) (
          subst (λ z. DeliveredHas z f (send rs (write_array c buf))) (h.0)
            (subst (λ z. DeliveredHas c.fd z (send rs (write_array c buf))) (h.1)
              (send_loop-Has rs _ _ 0 [] (write_array c buf))))

    after_pop-Has :
        (w : World cache) (rs : List Sent) (wire : Bytes) (o : Option Bytes) (c : Connection)
        → Has fd f c
        → ServedHas fd f (after_pop cache site again w rs wire (o, c))
    unfolding after_pop
    after_pop-Has w rs wire none c h = h
    after_pop-Has w rs wire (some t) c h =
        after_handling-Has c rs wire (handle_request cache site t w) h

  serve_loop-Has :
      (fd : ℕ) (f : Option Callback) (fuel : ℕ) (c : Connection) (w : World cache) (rs : List Sent)
      (wire : Bytes)
      → Has fd f c
      → ServedHas fd f (serve_loop cache fuel site c w rs wire)
  unfolding serve_loop find_and_pop_till
  serve_loop-Has fd f zero c w rs wire h = tt
  serve_loop-Has fd f (suc fuel) c w rs wire h =
      after_pop-Has fd f (serve_loop cache fuel site) (serve_loop-Has fd f fuel) w rs wire
        (find_and_pop_till c request_end).0 (find_and_pop_till c request_end).1 h

  abbrev after_receive : World cache → List Sent → Option Received → Served cache
  after_receive w sends none = waiting
  after_receive w sends (some ((read, true), c, rest)) = deleted [] w
  after_receive w sends (some ((read, false), c, rest)) =
      serve_loop cache (suc (get_read_size c)) site c w sends []

  after_receive-Has :
      (fd : ℕ) (f : Option Callback) (w : World cache) (sends : List Sent) (o : Option Received)
      → ReceivedHas fd f o
      → ServedHas fd f (after_receive w sends o)
  after_receive-Has fd f w sends none h = tt
  after_receive-Has fd f w sends (some ((read, true), c, rest)) h = tt
  after_receive-Has fd f w sends (some ((read, false), c, rest)) h =
      serve_loop-Has fd f (suc (get_read_size c)) c w sends [] h

  process-after_receive :
      (c : Connection) (w : World cache) (recvs : List Recv) (sends : List Sent)
      (o : Option Received)
      → receive recvs c ≡ o
      → process_http_request cache site c w recvs sends ≡ after_receive w sends o
  unfolding process_http_request
  process-after_receive c w recvs sends none e = rw (e, process_http_request)
  process-after_receive c w recvs sends (some ((read, true), c', rest)) e =
      rw (e, process_http_request)
  process-after_receive c w recvs sends (some ((read, false), c', rest)) e =
      rw (e, process_http_request)

  process_http_request-Has :
      (c : Connection) (w : World cache) (recvs : List Recv) (sends : List Sent)
      → ServedHas c.fd c.callback (process_http_request cache site c w recvs sends)
  unfolding receive
  process_http_request-Has c w recvs sends =
      subst (ServedHas c.fd c.callback)
        (sym (process-after_receive c w recvs sends (receive_loop recvs 0 c) refl))
        (after_receive-Has c.fd c.callback w sends (receive_loop recvs 0 c)
          (receive_loop-Has recvs 0 c))

  abbrev HandlerHas : ℕ → Option Callback → Option (Connection × Bool) → Type 0
  HandlerHas fd f none = Unit
  HandlerHas fd f (some (c, finished)) = Has fd f c

  after_served-Has :
      (c : Connection) (s : Served cache)
      → ServedHas c.fd c.callback s
      → HandlerHas c.fd c.callback (after_served cache c s)
  unfolding after_served
  after_served-Has c waiting h = tt
  after_served-Has c aborted h = tt
  after_served-Has c (deleted wire w) h = (refl, refl)
  after_served-Has c (kept c' wire w rs) h = h

  -- Where `ProcessHttpRequest` returns, whatever the client sends and the kernel takes, it leaves the
  -- descriptor and the function of the client's connection as they are.
  pub http_handler-Keeps :
      (w : World cache) (recvs : List Recv) (sends : List Sent)
      → Keeps (http_handler cache site w recvs sends)
  unfolding http_handler
  http_handler-Keeps w recvs sends f c c' finished e = subst (HandlerHas c.fd c.callback) e (
      after_served-Has c (process_http_request cache site c w recvs sends)
        (process_http_request-Has c w recvs sends))
