-- ===== src/Demo/HttpServer/Pipeline.antt =====
-- Several requests on one connection: each complete one is answered, in order, and what is left of an
-- incomplete one stays in the read buffer.
use dytech.Prelude.{
  ℕ, zero, suc, ◌+◌, ◌<◌, ◌≤◌, ◌≡◌, refl, sym, ap, ◌∙◌, Bool, true, false, Option, none, some, List,
  [], ◌∷◌, ◌++◌, arith, Bytes, All, length, append_assoc, append-nil, take-append, drop-append,
  length-append,
}
use dytech.Text.{find, substr}
use dytech.Text.Find.{find-append}
use dytech.Outcome.{returns}
use dytech.Core.Buffer
use dytech.Core.Buffer.{Buffer, push_back_array, to_string_view, size, clear, make_buffer}
use dytech.Core.Connection.{
  Connection, Recv, Sent, failed, eagain, send, bytes_taken, write_array, clear_write_buffer,
  find_and_pop_till, get_read_size, after_recv_error,
}
use dytech.Core.Connection.Receive.{GoesOn, arrivals, store, receive-arrivals}
use dytech.Core.Connection.Send.{IsBenign, total, send-row}
use dytech.Demo.ResourceCache.{ResourceCache}
use dytech.Demo.HttpServer.{
  Site, World, Served, deleted, kept, request_end, handle_request, after_handling, after_pop,
  after_send, serve_loop, process_http_request,
}

-- The texts one behind the other.
abbrev pub concat : List Bytes → Bytes
concat [] = []
concat (t ∷ ts) = t ++ concat ts

-- A text that ends in an empty line and holds no other one.
abbrev pub IsRequestText : Bytes → Type 0
IsRequestText t =
    (before : Bytes) × (t ≡ before ++ request_end) × (find t request_end ≡ some (length before))

-- The results of the calls of `send` come in rows, one for each text: benign calls of which the last
-- one takes what the earlier ones left.
abbrev pub Takes : List Bytes → List Sent → List Sent → Type 0
Takes [] rs rest = rs ≡ rest
Takes (b ∷ bs) rs rest =
    (us : List Sent) × (r : Sent) × (rs' : List Sent) × (rs ≡ us ++ r ∷ rs')
    × All IsBenign us
    × IsBenign r
    × (total us < length b)
    × (length b ≤ total us + bytes_taken r)
    × Takes bs rs' rest

-- The connection with this read buffer.
abbrev pub reading : Connection → Bytes → Connection
reading c bytes = record c { read_buffer = record (c.read_buffer) { buf = bytes } }

pop_buffer :
    (t rest : Bytes)
    → IsRequestText t
    → Buffer.find_and_pop_till (record { buf = t ++ rest }) request_end
      ≡ (some t, record { buf = rest })
unfolding Buffer.find_and_pop_till to_string_view substr
pop_buffer t rest (before, ends, at) =
    let size : length before + length request_end ≡ length t =
      sym (ap length ends ∙ length-append before request_end) in
    rw (
      find-append t rest request_end (length before) at,
      Buffer.find_and_pop_till,
      size,
      take-append,
      drop-append,
    )

pop_text :
    (c : Connection) (t rest : Bytes)
    → IsRequestText t
    → c.read_buffer.buf ≡ t ++ rest
    → find_and_pop_till c request_end ≡ (some t, reading c rest)
unfolding find_and_pop_till
pop_text c t rest whole e =
    ap (λ buf. find_and_pop_till (reading c buf) request_end) e
    ∙ ap {B = Option Bytes × Connection} (λ p. (p.0, record c { read_buffer = p.1 }))
        (pop_buffer t rest whole)

pop_nothing :
    (c : Connection)
    → find c.read_buffer.buf request_end ≡ none
    → find_and_pop_till c request_end ≡ (none, c)
unfolding find_and_pop_till Buffer.find_and_pop_till to_string_view
pop_nothing c e = rw (e, Buffer.find_and_pop_till)

-- A response that was written and sent: the write buffer is empty again.
send_written :
    (c : Connection) (b : Bytes) (us : List Sent) (r : Sent) (rest : List Sent)
    → c.write_buffer.buf ≡ []
    → All IsBenign us
    → IsBenign r
    → total us < length b
    → length b ≤ total us + bytes_taken r
    → send (us ++ r ∷ rest) (write_array c b) ≡ some (c, b, rest)
unfolding write_array push_back_array to_string_view clear clear_write_buffer
send_written c b us r rest e benign benign' short enough =
    let writing = λ (buf : Bytes). record c { write_buffer = record { buf = buf } } in
    ap (λ buf. send (us ++ r ∷ rest) (writing (buf ++ b))) e
    ∙ send-row us r rest (writing b) benign benign' short enough
    ∙ ap (λ buf. some (writing buf, b, rest)) (sym e)

module _ (cache : ResourceCache) (site : Site) where
  -- The answers to the texts, one by one, up to one after which the connection is closed: whether
  -- there was such a one, the answers, and what has changed.
  pub data Answers : List Bytes → World cache → Bool → List Bytes → World cache → Type 0 where
    no_more : {w : World cache} → Answers [] w false [] w
    last :
        {t : Bytes} {ts : List Bytes} {w w' : World cache} {b : Bytes}
        → handle_request cache site t w ≡ returns (true, b, w')
        → Answers (t ∷ ts) w true (b ∷ []) w'
    later :
        {t : Bytes} {ts : List Bytes} {w w' w'' : World cache} {b : Bytes} {bs : List Bytes}
        → {finished : Bool} → handle_request cache site t w ≡ returns (false, b, w')
        → Answers ts w' finished bs w''
        → Answers (t ∷ ts) w finished (b ∷ bs) w''

  -- What the loop comes to.
  abbrev pub outcome : Bool → Connection → Bytes → Bytes → World cache → List Sent → Served cache
  outcome true c rest wire w more = deleted wire w
  outcome false c rest wire w more = kept (reading c rest) wire w more

  outcome-append :
      (finished : Bool) (c : Connection) (before rest wire b bs : Bytes) (w : World cache)
      → (more : List Sent)
      → outcome finished (reading c before) rest ((wire ++ b) ++ bs) w more
        ≡ outcome finished c rest (wire ++ (b ++ bs)) w more
  outcome-append true c before rest wire b bs w more = rw append_assoc
  outcome-append false c before rest wire b bs w more = rw append_assoc

  -- One round of the loop, for a request that is answered and sent.
  round :
      (fuel : ℕ) (c : Connection) (w w' : World cache) (t rest b : Bytes) (finished : Bool)
      → (us : List Sent) (r : Sent) (more : List Sent) (wire : Bytes) → IsRequestText t
      → c.read_buffer.buf ≡ t ++ rest
      → c.write_buffer.buf ≡ []
      → handle_request cache site t w ≡ returns (finished, b, w')
      → All IsBenign us
      → IsBenign r
      → total us < length b
      → length b ≤ total us + bytes_taken r
      → serve_loop cache (suc fuel) site c w (us ++ r ∷ more) wire
        ≡ after_send cache
            (serve_loop cache fuel site)
            finished
            w'
            wire
            (some (reading c rest, b, more))
  unfolding serve_loop
  round fuel c w w' t rest b finished us r more wire whole e e' h benign benign' short enough =
      ap (after_pop cache site (serve_loop cache fuel site) w (us ++ r ∷ more) wire)
        (pop_text c t rest whole e)
      ∙ ap
          (after_handling cache (serve_loop cache fuel site) (reading c rest) (us ++ r ∷ more) wire)
          h
      ∙ ap (after_send cache (serve_loop cache fuel site) finished w' wire)
          (send_written (reading c rest) b us r more e' benign benign' short enough)

  -- The loop, from any point on.
  serve_loop-Answers :
      {texts : List Bytes} {w w' : World cache} {finished : Bool} {bs : List Bytes}
      → Answers texts w finished bs w'
      → (fuel : ℕ) (c : Connection) (rest : Bytes) (sends more : List Sent) (wire : Bytes)
      → length texts < fuel
      → All IsRequestText texts
      → (finished ≡ false → find rest request_end ≡ none)
      → c.read_buffer.buf ≡ concat texts ++ rest
      → c.write_buffer.buf ≡ []
      → Takes bs sends more
      → serve_loop cache fuel site c w sends wire
        ≡ outcome finished c rest (wire ++ concat bs) w' more
  unfolding serve_loop after_send
  serve_loop-Answers no_more zero c rest sends more wire enough whole open_ e e' takes =
      absurd (omega arith)
  serve_loop-Answers {w = w} no_more (suc fuel) c rest sends more wire enough whole open_ e e'
        takes =
      ap (after_pop cache site (serve_loop cache fuel site) w sends wire)
        (pop_nothing c (ap (λ z. find z request_end) e ∙ open_ refl))
      ∙ ap (λ z. kept (reading c z) wire w sends) e
      ∙ ap (λ z. kept (reading c rest) z w sends) (sym (append-nil wire))
      ∙ ap (kept (reading c rest) (wire ++ []) w) takes
  serve_loop-Answers (last h) zero c rest sends more wire enough whole open_ e e' takes =
      absurd (omega arith)
  serve_loop-Answers {w = w} {w' = w'} (last {t = t} {ts = ts} {b = b} h) (suc fuel) c rest sends
        more wire enough whole open_ e e' takes =
      let (us, r, rs', split, benign, benign', short, enough', left) = takes in
      ap (λ z. serve_loop cache (suc fuel) site c w z wire) split
      ∙ round fuel c w w' t (concat ts ++ rest) b true us r rs' wire whole.0
          (e ∙ append_assoc t (concat ts) rest) e' h benign benign' short enough'
      ∙ ap (λ z. deleted (wire ++ z) w') (sym (append-nil b))
  serve_loop-Answers (later h a) zero c rest sends more wire enough whole open_ e e' takes =
      absurd (omega arith)
  serve_loop-Answers {w = w} {w' = w''} {finished = finished}
        (later {t = t} {ts = ts} {w' = w'} {b = b} {bs = bs} h a) (suc fuel) c rest sends more wire
        enough whole open_ e e' takes =
      let (us, r, rs', split, benign, benign', short, enough', left) = takes in
      ap (λ z. serve_loop cache (suc fuel) site c w z wire) split
      ∙ round fuel c w w' t (concat ts ++ rest) b false us r rs' wire whole.0
          (e ∙ append_assoc t (concat ts) rest) e' h benign benign' short enough'
      ∙ serve_loop-Answers a fuel (reading c (concat ts ++ rest)) rest rs' more (wire ++ b)
          (omega arith) whole.1 open_ refl e' left
      ∙ outcome-append finished c (concat ts ++ rest) rest wire b (concat bs) w'' more

  length-concat :
      (texts : List Bytes) → All IsRequestText texts → length texts ≤ length (concat texts)
  length-concat [] h = omega arith
  length-concat (t ∷ ts) h =
      let (before, ends, at) = h.0 in
      let long = ap length ends ∙ length-append before request_end in
      omega (arith, length-append t (concat ts), length-concat ts h.1)

  -- A call for a client with nothing left to be sent, whose bytes, together with those kept from
  -- before, are whole requests, which the handlers answer, and a rest without one: the client gets
  -- the answers to the requests, in order and nothing else, up to one that closes the connection;
  -- the connection is deleted in that case, and otherwise kept with the rest to be read. It does
  -- not matter how the bytes were cut by `recv`, nor the answers by `send`, as long as no call
  -- fails for good.
  pub process_http_request-Answers :
      {texts : List Bytes} {w w' : World cache} {finished : Bool} {bs : List Bytes}
      → Answers texts w finished bs w'
      → (c : Connection) (rest : Bytes) (before after : List Recv) (sends more : List Sent)
      → All GoesOn before
      → All IsRequestText texts
      → (finished ≡ false → find rest request_end ≡ none)
      → c.read_buffer.buf ++ arrivals before ≡ concat texts ++ rest
      → c.write_buffer.buf ≡ []
      → Takes bs sends more
      → process_http_request cache site c w (before ++ failed eagain ∷ after) sends
        ≡ outcome finished c rest (concat bs) w' more
  unfolding process_http_request get_read_size size push_back_array after_recv_error
  process_http_request-Answers {texts = texts} {w' = w'} {finished = finished} {bs = bs} a c rest
        before after sends more on whole open_ e e' takes =
      let received = receive-arrivals before (failed eagain) after false c on refl in
      let all = ap length e ∙ length-append (concat texts) rest in
      rw (received, process_http_request)
        (serve_loop-Answers a (suc (length (c.read_buffer.buf ++ arrivals before)))
            (store c (arrivals before)) rest sends more []
            (omega (arith, length-concat texts whole)) whole open_ e e' takes
          ∙ outcome-append finished c _ rest [] [] (concat bs) w' more)
