-- ===== src/Http/Request.antt =====
-- http/request.h and http/request.cc: a request read from its text.
pub mod Valid
pub mod RoundTrip
use dytech.Prelude.{
  ℕ, ◌-◌, Bool, true, false, not, ◌||◌, ◌&&◌, Option, none, some, List, [], ◌∷◌, ◌++◌, Bytes, ltb,
  ◌==◌, if◌then◌else◌, length, get_elem?,
}
use dytech.Text.{codes, equal, empty, view}
use dytech.Http.Constants.{
  Method, Version, k_crlf, k_space, k_default_route, k_header_connection, k_connection_keep_alive,
}
use dytech.Http.Utils.{split, to_method, to_version, format}
use dytech.Http.Header.{Header, parse_header, serialize}

pub record Request : Type 0 where
  pub method : Method
  pub version : Version
  pub resource_url : Bytes
  pub headers : List Header
  pub should_close : Bool
  pub is_valid : Bool
  pub invalid_reason : Bytes

-- `Request(method, version, resource_url, headers)`.
unfoldable pub make_request : Method → Version → Bytes → List Header → Request
make_request method version resource_url headers = record {
  method = method;
  version = version;
  resource_url = resource_url;
  headers = headers;
  should_close = true;
  is_valid = true;
  invalid_reason = [];
}

-- The members as the parsing constructor finds them.
abbrev pub initial : Request
initial = record {
  method = Method.unsupported;
  version = Version.unsupported;
  resource_url = [];
  headers = [];
  should_close = true;
  is_valid = false;
  invalid_reason = [];
}

abbrev pub is_unsupported_method : Method → Bool
is_unsupported_method Method.unsupported = true
is_unsupported_method _ = false

abbrev pub is_unsupported_version : Version → Bool
is_unsupported_version Version.unsupported = true
is_unsupported_version _ = false

-- `url.empty() || url.at(url.size() - 1) == '/'`.
unfoldable pub needs_default_route : Bytes → Bool
needs_default_route url =
    empty url || elim (get_elem? url (length url - 1)) [ some c ↦ c == b'/' | none ↦ false ]

unfoldable pub route : Bytes → Bytes
unfolding needs_default_route
route url = if needs_default_route url then url ++ k_default_route else url

-- `ParseRequestLine`, on the tokens of the line.
unfoldable pub parse_tokens : Request → Bytes → List Bytes → Bool × Request
parse_tokens r request_line (m ∷ url ∷ v ∷ []) =
    let r = record r { method = to_method (view m) } in
    if is_unsupported_method r.method
    then (false, record r { invalid_reason = codes "Unsupported method: " ++ m })
    else let r = record r { version = to_version (view v) } in
      if is_unsupported_version r.version
      then (false, record r { invalid_reason = codes "Unsupported version: " ++ v })
      else (true, record r { resource_url = route url })
parse_tokens r request_line _ =
    (false, record r { invalid_reason = codes "Invalid first request headline: " ++ request_line })

-- `ParseRequestLine`.
unfoldable pub parse_request_line : Request → Bytes → Bool × Request
unfolding parse_tokens
parse_request_line r request_line = parse_tokens r request_line (split request_line k_space)

-- The test of `ScanHeader`.
unfoldable pub keeps_alive : Header → Bool
keeps_alive h =
    equal (format (view h.key)) (format (view k_header_connection))
    && equal (format (view h.value)) (format (view k_connection_keep_alive))

-- `ScanHeader`.
unfoldable pub scan_header : Request → Header → Request
scan_header r h = if keeps_alive h then record r { should_close = false } else r

-- The loop over the header lines, and what follows it.
unfoldable pub parse_headers : List Bytes → Request → Request
parse_headers [] r = record r { is_valid = true }
parse_headers (line ∷ lines) r =
    let header = parse_header line in
    let scanned = scan_header r header in
    let rest = parse_headers lines (record scanned { headers = r.headers ++ header ∷ [] }) in
    if not header.valid
    then record r { invalid_reason = codes "Fail to parse header line: " ++ line }
    else rest

-- `lines.back().empty()`, for at least one line.
unfoldable pub back_empty : List Bytes → Bool
back_empty [] = true
back_empty (l ∷ []) = empty l
back_empty (l ∷ ls) = back_empty ls

-- `lines.pop_back()`.
unfoldable pub pop_back : List Bytes → List Bytes
pop_back [] = []
pop_back (l ∷ []) = []
pop_back (l ∷ ls) = l ∷ pop_back ls

-- The request line, and the header lines after it.
unfoldable pub parse_lines : List Bytes → Request
parse_lines [] = initial
parse_lines (request_line ∷ lines) =
    let (parsed, r) = parse_request_line initial request_line in
    if not parsed then r else parse_headers lines r

-- `Request(request_str)`, on the lines of the text.
unfoldable pub parse_split : List Bytes → Request
unfolding parse_lines
parse_split lines =
    if ltb (length lines) 2 || not (back_empty lines)
    then record initial { invalid_reason = codes "Request format is wrong." }
    else if not (back_empty lines)
    then record initial { invalid_reason = codes "Ending of the request is not \r\n\r\n" }
    else parse_lines (pop_back lines)

-- `Request(request_str)`.
unfoldable pub parse_request : Bytes → Request
unfolding parse_split
parse_request request_str = parse_split (split request_str k_crlf)

-- `ToString(method)`.
unfoldable pub method_to_string : Method → Bytes
method_to_string Method.get = codes "GET"
method_to_string Method.head = codes "HEAD"
method_to_string Method.unsupported = codes "UNSUPPORTED"

-- `ToString(version)`.
unfoldable pub version_to_string : Version → Bytes
version_to_string Version.http_1_1 = codes "HTTP/1.1"
version_to_string Version.unsupported = codes "UNSUPPORTED"

-- The serialized headers, one after another.
unfoldable pub serialize_all : List Header → Bytes
serialize_all [] = []
serialize_all (h ∷ hs) = serialize h ++ serialize_all hs

-- `operator<<`.
unfoldable pub print_request : Request → Bytes
print_request r =
    if not r.is_valid
    then codes "Request is not invalid.\nReason: " ++ (r.invalid_reason ++ codes "\n")
    else codes "Request is valid.\nMethod: "
      ++ (method_to_string r.method
          ++ (codes "\nHTTP Version: "
              ++ (version_to_string r.version
                  ++ (codes "\nResource Url: "
                      ++ (r.resource_url
                          ++ (codes "\nConnection Keep Alive: "
                              ++ ((if r.should_close then codes "False" else codes "True")
                                  ++ (codes "\nHeaders: \n" ++ serialize_all r.headers))))))))
