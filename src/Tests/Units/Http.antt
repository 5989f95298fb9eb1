-- ===== src/Tests/Units/Http.antt =====
-- test/http/header_test.cc, test/http/request_test.cc and test/http/response_test.cc.
use dytech.Prelude.{
  ◌≡◌, refl, Bool, true, false, not, Option, none, some, List, [], ◌∷◌, ◌++◌, Bytes,
}
use dytech.Text.{
  codes, equal, find, empty, starts_with, find_first_not_of, find_last_not_of, one_of, data_string,
  sub_view, substr, find_from,
}
use dytech.Outcome.{Outcome, returns, terminates}
use dytech.Http.Constants.{Method, Version, k_crlf, k_header_content_length, k_response_status_ok}
use dytech.Http.Disk.{Disk, is_file_exists}
use dytech.Http.Header.{make_header, parse_header, header_of, set_value, serialize}
use dytech.Http.Request.{
  Request, parse_request, parse_split, parse_lines, parse_request_line, parse_tokens, parse_headers,
  scan_header, keeps_alive, back_empty, pop_back, route, needs_default_route, make_request,
}
use dytech.Http.Response.{
  Response, make_response, bare_response, common_headers, change_header, change_in,
}
use dytech.Http.Response.Laws.{header_value}
use dytech.Http.Utils.{
  split, split_loop, to_method, to_version, lookup, format, trim, to_upper, to_upper_char,
}
use dytech.Tests.Units.{checks, equal_optional}

-- The constructor of a header, and its setter.
abbrev pub header_members : Bool
header_members =
    let h1 = make_header (codes "http_version") (codes "1.1") in
    checks (
      h1.valid
      ∷ equal h1.key (codes "http_version")
      ∷ equal h1.value (codes "1.1")
      ∷ equal (set_value h1 (codes "1.2")).value (codes "1.2")
      ∷ [])

-- A header from a line, and its text.
abbrev pub header_from_line : Bool
header_from_line =
    let h1 = parse_header (codes "Host:YukunJ") in
    let h2 = parse_header (codes "Hello& No Way!") in
    checks (
      h1.valid
      ∷ equal h1.key (codes "Host")
      ∷ equal h1.value (codes "YukunJ")
      ∷ not h2.valid
      ∷ equal (serialize h1) (codes "Host:YukunJ" ++ k_crlf)
      ∷ [])

header_members_passes : header_members ≡ true
unfolding make_header set_value equal
header_members_passes = refl

header_from_line_passes : header_from_line ≡ true
unfolding make_header parse_header header_of serialize equal split split_loop find empty starts_with
    substr find_from
header_from_line_passes = refl

abbrev is_get : Method → Bool
is_get Method.get = true
is_get _ = false

abbrev is_head : Method → Bool
is_head Method.head = true
is_head _ = false

abbrev is_http_1_1 : Version → Bool
is_http_1_1 Version.http_1_1 = true
is_http_1_1 _ = false

abbrev agent_and_host : Bytes
agent_and_host = codes "User-Agent: Mozilla/4.0\r\nHost: www.tutorialspoint.com\r\n"

-- Requests that are refused: without an empty line; with another first line; with an unknown
-- method; with another version.
abbrev pub refused_requests : List Request
refused_requests =
    parse_request
      (codes "GET /hello.html HTTP/1.1\r\n" ++ agent_and_host ++ codes "Connection: Keep-Alive\r\n")
    ∷ parse_request (
        codes
          "User-Agent: Mozilla/4.0\r\nGET /hello.html HTTP/1.1\r\nHost: www.tutorialspoint.com\r\nConnection: Keep-Alive\r\n\r\n")
    ∷ parse_request (
        codes "PUNCH /hello.html HTTP/1.1\r\n"
        ++ agent_and_host
        ++ codes "Connection: Keep-Alive\r\n\r\n")
    ∷ parse_request (
        codes "GET /hello.html HTTP/2.0\r\n"
        ++ agent_and_host
        ++ codes "Connection: Keep-Alive\r\n\r\n")
    ∷ []

abbrev refused : List Request → List Bool
refused [] = []
refused (r ∷ rs) = not r.is_valid ∷ refused rs

-- The least request; one that asks to close the connection, and one that asks to keep it.
abbrev pub valid_requests : Bool
valid_requests =
    let request_4 = parse_request (codes "GET /hello.html HTTP/1.1\r\n\r\n") in
    let request_5 = parse_request (
      codes "HEAD /hello.html HTTP/1.1\r\n"
      ++ agent_and_host
      ++ codes "Connection: close\r\n\r\n") in
    let request_6 = parse_request (
      codes "GET /hello.html HTTP/1.1\r\n"
      ++ agent_and_host
      ++ codes "Connection: Keep-Alive\r\n\r\n") in
    checks (
      request_4.is_valid
      ∷ is_get request_4.method
      ∷ is_http_1_1 request_4.version
      ∷ request_5.is_valid
      ∷ is_head request_5.method
      ∷ request_5.should_close
      ∷ not request_6.should_close
      ∷ [])

refused_requests_passes : checks (refused refused_requests) ≡ true
unfolding parse_request parse_split parse_lines parse_request_line parse_tokens parse_headers
    scan_header keeps_alive parse_header header_of make_header back_empty pop_back split split_loop
    route needs_default_route to_method to_version lookup format trim to_upper to_upper_char find
    empty starts_with find_first_not_of find_last_not_of one_of data_string sub_view substr
    find_from equal make_request
refused_requests_passes = refl

valid_requests_passes : valid_requests ≡ true
unfolding parse_request parse_split parse_lines parse_request_line parse_tokens parse_headers
    scan_header keeps_alive parse_header header_of make_header back_empty pop_back split split_loop
    route needs_default_route to_method to_version lookup format trim to_upper to_upper_char find
    empty starts_with find_first_not_of find_last_not_of one_of data_string sub_view substr
    find_from equal make_request
valid_requests_passes = refl

abbrev is_some : Option Bytes → Bool
is_some none = false
is_some (some v) = true

-- Changing a header, in a response that was made.
abbrev changes_length : Outcome Response → Bool
changes_length terminates = false
changes_length (returns response) =
    let (changed, response') = change_header response k_header_content_length (codes "1024") in
    checks (
      is_some (header_value k_header_content_length response.headers)
      ∷ changed
      ∷ equal_optional (header_value k_header_content_length response'.headers) (codes "1024")
      ∷ [])

-- The response for a file.
abbrev pub modified_header : Disk → Bool
modified_header disk =
    changes_length
      (make_response disk k_response_status_ok false (some (codes "nonexistent-file.txt")))

modified_header_passes :
    (disk : Disk) → disk.exists (codes "nonexistent-file.txt") ≡ false → modified_header disk ≡ true
unfolding make_response is_file_exists bare_response common_headers change_header change_in
    header_value make_header equal set_value
modified_header_passes disk missing = rw missing
