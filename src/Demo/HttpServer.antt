-- ===== src/Demo/HttpServer.antt =====
-- demo/http-server/http_server.cc: the function that handles a client, over the cache, the file system
-- and the operating system as it finds them. A function that fails an assertion, or lets an exception
-- out of one that may not throw, ends the process.
pub mod Static
pub mod Pipeline
pub mod Main
pub mod Client
use dytech.Prelude.{
  ℕ, zero, suc, ◌+◌, Bool, true, false, not, Option, none, some, List, [], ◌∷◌, ◌++◌, Bytes, length,
  if◌then◌else◌,
}
use dytech.Text.{codes, to_string}
use dytech.Outcome.{Outcome, returns, terminates, ◌>>=◌, or_terminate}
use dytech.Core.Connection.{
  Connection, Recv, Sent, Delivered, find_and_pop_till, receive, send, write_array, get_read_size,
}
use dytech.Http.Constants.{Method, k_header_content_length}
use dytech.Http.Utils.{is_cgi_request}
use dytech.Http.Disk.{Disk, is_file_exists, load_file}
use dytech.Http.Request.{Request, parse_request}
use dytech.Http.Response.{
  make_200_response, make_400_response, make_404_response, serialize_response, change_header,
}
use dytech.Http.CgiRunner.{CgiRunner, parse_cgi_runner}
use dytech.Http.CgiRunner.Run.{Os, run}
use dytech.Demo.ResourceCache.{ResourceCache}

-- The text at which a request ends.
abbrev pub request_end : Bytes
request_end = codes "\r\n\r\n"

-- What a client's connection meets: the served directory, the files, the system's answers to
-- `CGIRunner::Run`, and the name of the thread.
pub record Site : Type 0 where
  pub serving_directory : Bytes
  pub disk : Disk
  pub os : Os
  pub thread_id : Bytes

module _ (cache : ResourceCache) where
  open cache use {State, try_load, try_insert}

  -- What the handlers change: the cache, and the file that the thread shares with CGI programs.
  pub record World : Type 0 where
    pub resources : State
    pub shared_file : Option Bytes

  -- `should_finish`, the response buffer and what has changed.
  abbrev pub Handled : Type 0
  Handled = Bool × Bytes × World

  -- The content for what `TryLoad` reported.
  unfoldable pub load_uncached : Disk → Bytes → Bool × Bytes × State → Outcome (Bytes × State)
  load_uncached disk path (true, cache_buf, s) = returns (cache_buf, s)
  load_uncached disk path (false, cache_buf, s) = do
    cache_buf ← load_file disk path cache_buf
    inserted ← or_terminate (try_insert s path cache_buf)
    returns (cache_buf, inserted.1)

  -- The content that goes behind the head: only for GET.
  unfoldable pub load_content : Disk → Method → Bytes → State → Outcome (Bytes × State)
  unfolding load_uncached
  load_content disk Method.get path s = do
    loaded ← or_terminate (try_load s path [])
    load_uncached disk path loaded
  load_content disk _ path s = returns ([], s)

  -- `HandleStaticResourceRequest`.
  unfoldable pub handle_static_resource_request :
      Disk → Request → Bytes → World → Bytes → Outcome Handled
  unfolding load_content
  handle_static_resource_request disk request path w response_buf =
      if not (is_file_exists disk path)
      then (do
        response ← make_404_response disk
        returns (true, serialize_response response response_buf, w))
      else (do
        response ← make_200_response disk request.should_close (some path)
        loaded ← load_content disk request.method path w.resources
        returns (
          request.should_close,
          serialize_response response response_buf ++ loaded.0,
          record w { resources = loaded.1 },
        ))

  -- `HandleCGIRequest` for a runner that is valid and whose program exists.
  unfoldable pub answer_cgi_request : Site → Request → CgiRunner → World → Bytes → Outcome Handled
  answer_cgi_request site request cgi_runner w response_buf = do
    ran ← run site.os site.thread_id cgi_runner w.shared_file
    response ← make_200_response site.disk request.should_close none
    let (changed, response) =
        change_header response k_header_content_length (to_string (length ran.0))
    returns (
      request.should_close,
      serialize_response response response_buf ++ ran.0,
      record w { shared_file = ran.1 },
    )

  -- `HandleCGIRequest`.
  unfoldable pub handle_cgi_request : Site → Request → Bytes → World → Bytes → Outcome Handled
  unfolding answer_cgi_request
  handle_cgi_request site request path w response_buf =
      let cgi_runner = parse_cgi_runner path in
      if not cgi_runner.valid
      then (do
        response ← make_400_response site.disk
        returns (true, serialize_response response response_buf, w))
      else if not (is_file_exists site.disk cgi_runner.cgi_program_path)
      then (do
        response ← make_404_response site.disk
        returns (true, serialize_response response response_buf, w))
      else answer_cgi_request site request cgi_runner w response_buf

  -- The body of the loop of `ProcessHttpRequest` up to the sending, for one request's text.
  unfoldable pub handle_request : Site → Bytes → World → Outcome Handled
  unfolding handle_static_resource_request handle_cgi_request
  handle_request site request_text w =
      let request = parse_request request_text in
      let resource_full_path = site.serving_directory ++ request.resource_url in
      if not request.is_valid
      then (do
        response ← make_400_response site.disk
        returns (true, serialize_response response [], w))
      else if is_cgi_request resource_full_path
      then handle_cgi_request site request resource_full_path w []
      else handle_static_resource_request site.disk request resource_full_path w []

  -- What a call of `ProcessHttpRequest` comes to: it waits in a system call for ever; the process
  -- ends; the connection was deleted; or it is kept, and waits for more bytes. With the bytes that
  -- the kernel took for the client.
  pub data Served : Type 0 where
    waiting aborted : Served
    deleted : Bytes → World → Served
    kept : Connection → Bytes → World → List Sent → Served

  -- Behind `Send`; `again` is the rest of the loop.
  unfoldable pub after_send :
      (Connection → World → List Sent → Bytes → Served)
      → Bool
      → World
      → Bytes
      → Option Delivered
      → Served
  after_send again finished_handle w wire none = waiting
  after_send again finished_handle w wire (some (c, sent, rs)) = elim finished_handle [
    | true ↦ deleted (wire ++ sent) w
    | false ↦ again c w rs (wire ++ sent)
  ]

  -- Behind the handling of a request.
  unfoldable pub after_handling :
      (Connection → World → List Sent → Bytes → Served)
      → Connection
      → List Sent
      → Bytes
      → Outcome Handled
      → Served
  unfolding after_send
  after_handling again c rs wire terminates = aborted
  after_handling again c rs wire (returns (finished_handle, response_buf, w)) =
      after_send again finished_handle w wire (send rs (write_array c response_buf))

  -- Behind `FindAndPopTill`.
  unfoldable pub after_pop :
      Site
      → (Connection → World → List Sent → Bytes → Served)
      → World
      → List Sent
      → Bytes
      → Option Bytes × Connection
      → Served
  unfolding after_handling handle_request
  after_pop site again w rs wire (none, c) = kept c wire w rs
  after_pop site again w rs wire (some request_text, c) =
      after_handling again c rs wire (handle_request site request_text w)

  -- The loop over the complete requests, for at most `fuel` of them.
  unfoldable pub serve_loop : ℕ → Site → Connection → World → List Sent → Bytes → Served
  unfolding after_pop
  serve_loop zero site c w rs wire = waiting
  serve_loop (suc fuel) site c w rs wire =
      after_pop site (serve_loop fuel site) w rs wire (find_and_pop_till c request_end)

  -- `ProcessHttpRequest`, for what `recv` and `send` return. Each request that is popped takes bytes
  -- from the read buffer, so it holds fewer of them than bytes.
  unfoldable pub process_http_request : Site → Connection → World → List Recv → List Sent → Served
  unfolding serve_loop
  process_http_request site c w recvs sends = elim (receive recvs c) [
    | none ↦ waiting
    | some ((read, exit), c', rest) ↦ elim exit [
      | true ↦ deleted [] w
      | false ↦ serve_loop (suc (get_read_size c')) site c' w sends []
    ]
  ]
