-- ===== src/Tests/Serving.antt =====
-- A site with one file, behind the cache of core/cache.cc, and a client that asks for it.
use dytech.Prelude.{
  ◌∙◌, ℕ, ◌<◌, ◌≡◌, refl, ap, true, false, none, some, List, [], ◌∷◌, ◌++◌, Bytes, arith, length,
  if◌then◌else◌,
}
use dytech.Text.{
  codes, equal, find, empty, starts_with, find_first_not_of, find_last_not_of, one_of, data_string,
  sub_view, substr, find_from, to_string,
}
use dytech.Outcome.{returns}
use dytech.Core.Buffer.{make_buffer}
use dytech.Core.Cache.{Nodes, make_cache}
use dytech.Core.Cache.Entries.{Entry}
use dytech.Core.Cache.Start.{make_cache-Represents}
use dytech.Core.Connection.{got, failed, eagain, eintr, is_fatal, wrote, make_connection}
use dytech.Core.Connection.Receive.{arrivals}
use dytech.Core.Connection.Send.{IsBenign, total as total_taken}
use dytech.Http.Constants.{k_header_content_length, k_response_status_ok}
use dytech.Http.Request.{
  parse_request, parse_split, parse_lines, parse_request_line, parse_tokens, parse_headers,
  scan_header, keeps_alive, back_empty, pop_back, route, needs_default_route, make_request,
}
use dytech.Http.Header.{parse_header, header_of, make_header}
use dytech.Http.Response.{file_response, serialize_response}
use dytech.Http.Response.Laws.{header_value}
use dytech.Http.Utils.{
  is_cgi_request, split, split_loop, to_method, to_version, lookup, format, trim, to_upper,
  to_upper_char,
}
use dytech.Tests.Allocation.{allocator}
use dytech.Demo.ResourceCache.{ResourceCache}
use dytech.Demo.LruStore.{lru_store}
use dytech.Demo.HttpServer.{Site, World, handle_request, process_http_request}
use dytech.Demo.HttpServer.Static.{
  IsCoherent, Requests, head_for, body_for, handle_request-IsCoherent,
}
use dytech.Demo.HttpServer.Pipeline.{Answers, later, no_more, outcome, process_http_request-Answers}

abbrev pub store : ResourceCache
store = lru_store allocator 100

abbrev pub nowhere : Nodes
nowhere = record {
  alive = λ p. false;
  identifier = λ p. [];
  content = λ p. [];
  last_access = λ p. 0;
  prev = λ p. 0;
  next = λ p. 0;
}

abbrev pub world : World store
world = record { resources = make_cache 100 1 2 0 nowhere; shared_file = none }

world-Contains : store.Contains world.resources []
unfolding make_cache
world-Contains = ([], make_cache-Represents 100 1 2 0 nowhere (λ e. cc) (omega arith), refl)

abbrev file_path : Bytes
file_path = codes "/www/a.css"

abbrev pub site : Site
site = record {
  serving_directory = codes "/www";
  disk = record {
    exists = λ p. equal p file_path;
    is_directory = λ p. false;
    file_size = λ p. if equal p file_path then some 3 else none;
    open_file = λ p. if equal p file_path then some (codes "abc") else none;
  };
  os = record { opens = true; forks = true; harvests = true; output = λ path argv. [] };
  thread_id = codes "7";
}

abbrev pub asking : Bytes
asking = codes "GET /a.css HTTP/1.1\r\nConnection: Keep-Alive\r\n\r\n"

asking-Requests : Requests site asking file_path (codes "abc")
unfolding parse_request parse_split parse_lines parse_request_line parse_tokens parse_headers
    scan_header keeps_alive parse_header header_of make_header back_empty pop_back split split_loop
    route needs_default_route to_method to_version lookup format trim to_upper to_upper_char
    is_cgi_request find empty starts_with find_first_not_of find_last_not_of one_of data_string
    sub_view substr find_from equal make_request
asking-Requests = record {
  valid = refl;
  located = refl;
  plain = refl;
  file = record { there = refl; sized = refl; opened = refl };
}

kept_alive : (parse_request asking).should_close ≡ false
unfolding parse_request parse_split parse_lines parse_request_line parse_tokens parse_headers
    scan_header keeps_alive parse_header header_of make_header back_empty pop_back split split_loop
    route needs_default_route to_method to_version lookup format trim to_upper to_upper_char
    is_cgi_request find empty starts_with find_first_not_of find_last_not_of one_of data_string
    sub_view substr find_from equal make_request
kept_alive = refl

-- What the client gets.
abbrev pub response : Bytes
response =
    head_for (parse_request asking) file_path 3
    ++ body_for (parse_request asking).method (codes "abc")

pub response_long : 0 < length response
unfolding head_for serialize_response file_response
response_long = omega arith

handle_request-IsCoherent_example :
    let request = parse_request asking in
    (w' : World store) × (l' : List Entry) × (handle_request store site asking world
      ≡ returns (
        request.should_close,
        head_for request file_path 3 ++ body_for request.method (codes "abc"),
        w',
      ))
    × (header_value k_header_content_length
          (file_response k_response_status_ok request.should_close file_path 3).headers
        ≡ some (to_string 3))
    × store.Contains w'.resources l'
    × IsCoherent site.disk l'
    × (w'.shared_file ≡ none)
handle_request-IsCoherent_example =
    handle_request-IsCoherent store site asking file_path (codes "abc") world [] asking-Requests
      world-Contains tt

pub answered :
    (w' : World store) × (l' : List Entry) × (handle_request store site asking world
      ≡ returns (false, response, w'))
answered =
    let (w', l', run, announced, holds, coherent, same) =
      handle_request-IsCoherent store site asking file_path (codes "abc") world [] asking-Requests
        world-Contains tt in
    (w', l', run ∙ ap (λ z. returns (z, response, w')) kept_alive)

-- The client asks twice.
pub answered_twice :
    (w' : World store) × (w'' : World store) × (handle_request store site asking world
      ≡ returns (false, response, w'))
    × (handle_request store site asking w' ≡ returns (false, response, w''))
answered_twice =
    let (w', l', run, announced, holds, coherent, same) =
      handle_request-IsCoherent store site asking file_path (codes "abc") world [] asking-Requests
        world-Contains tt in
    let (w'', l'', run', announced', holds', coherent', same') =
      handle_request-IsCoherent store site asking file_path (codes "abc") w' l' asking-Requests
        holds coherent in
    (
      w',
      w'',
      run ∙ ap (λ z. returns (z, response, w')) kept_alive,
      run' ∙ ap (λ z. returns (z, response, w'')) kept_alive,
    )

pub answers : Answers store site (asking ∷ []) world false (response ∷ []) (answered.0)
answers = later (answered.2) no_more

pub benign : (n : ℕ) → IsBenign (wrote n eintr)
unfolding is_fatal
benign n = ground arith

-- The client's bytes end in the middle of a second request.
process_http_request-Answers_example :
    process_http_request store site
      (make_connection 5)
      world
      (got (asking ++ codes "GE") ∷ failed eagain ∷ [])
      (wrote (length response) eintr ∷ [])
    ≡ outcome store site false (make_connection 5) (codes "GE") (response ++ []) (answered.0) []
unfolding find starts_with make_connection make_buffer arrivals empty total_taken
process_http_request-Answers_example =
    process_http_request-Answers store site answers (make_connection 5) (codes "GE")
      (got (asking ++ codes "GE") ∷ []) [] (wrote (length response) eintr ∷ []) [] ((λ e. cc), tt)
      ((codes "GET /a.css HTTP/1.1\r\nConnection: Keep-Alive", refl, refl), tt) (λ e. refl) refl
      refl
      (
        [],
        wrote (length response) eintr,
        [],
        refl,
        tt,
        benign (length response),
        response_long,
        omega arith,
        refl,
      )
