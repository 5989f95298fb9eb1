-- ===== src/Http/Response.antt =====
-- http/response.h and http/response.cc: the head of a response.
pub mod Laws
pub mod Lines
use dytech.Prelude.{
  ℕ, ◌+◌, Bool, true, false, Option, none, some, List, [], ◌∷◌, ◌++◌, Bytes, if◌then◌else◌, drop,
}
use dytech.Text.{equal, find_last_of, to_string, view}
use dytech.Outcome.{Outcome, returns, ◌>>=◌}
use dytech.Http.Constants.{
  k_http_version, k_space, k_crlf, k_dot, k_header_server, k_server_name, k_header_connection,
  k_connection_close, k_connection_keep_alive, k_header_content_length, k_header_content_type,
  k_content_length_zero, k_response_status_ok, k_response_status_bad_request,
  k_response_status_not_found, k_response_status_service_unavailable,
}
use dytech.Http.Utils.{to_extension, extension_to_mime}
use dytech.Http.Header.{Header, make_header, serialize, set_value}
use dytech.Http.Request.{serialize_all}
use dytech.Http.Disk.{Disk, is_file_exists, check_file_size}

pub record Response : Type 0 where
  pub status_line : Bytes
  pub should_close : Bool
  pub headers : List Header
  pub resource_url : Option Bytes
  pub body : Bytes

-- The headers of every response.
unfoldable pub common_headers : Bool → List Header
common_headers should_close =
    make_header k_header_server k_server_name
    ∷ make_header k_header_connection
        (if should_close then k_connection_close else k_connection_keep_alive)
    ∷ []

-- The header for the kind of a resource whose name has an extension.
unfoldable pub type_headers : Bytes → List Header
type_headers url = elim (find_last_of url k_dot) [
  | none ↦ []
  | some last_dot ↦
      make_header k_header_content_type
        (extension_to_mime (to_extension (view (drop (last_dot + 1) url))))
      ∷ []
]

-- A response that carries no resource.
unfoldable pub bare_response : Bytes → Bool → Response
unfolding common_headers
bare_response status_code should_close = record {
  status_line = k_http_version ++ (k_space ++ status_code);
  should_close = should_close;
  headers =
      common_headers should_close ++ make_header k_header_content_length k_content_length_zero ∷ [];
  resource_url = none;
  body = [];
}

-- A response that carries the resource of this size.
unfoldable pub file_response : Bytes → Bool → Bytes → ℕ → Response
unfolding common_headers type_headers
file_response status_code should_close url content_length = record {
  status_line = k_http_version ++ (k_space ++ status_code);
  should_close = should_close;
  headers =
      common_headers should_close
      ++ (make_header k_header_content_length (to_string content_length) ∷ type_headers url);
  resource_url = some url;
  body = [];
}

-- `Response(status_code, should_close, resource_url)`.
unfoldable pub make_response : Disk → Bytes → Bool → Option Bytes → Outcome Response
unfolding bare_response file_response
make_response disk status_code should_close none = returns (bare_response status_code should_close)
make_response disk status_code should_close (some url) =
    if is_file_exists disk url
    then (do
      content_length ← check_file_size disk url
      returns (file_response status_code should_close url content_length))
    else returns (bare_response status_code should_close)

unfoldable pub make_200_response : Disk → Bool → Option Bytes → Outcome Response
unfolding make_response
make_200_response disk should_close resource_url =
    make_response disk k_response_status_ok should_close resource_url

unfoldable pub make_400_response : Disk → Outcome Response
unfolding make_response
make_400_response disk = make_response disk k_response_status_bad_request true none

unfoldable pub make_404_response : Disk → Outcome Response
unfolding make_response
make_404_response disk = make_response disk k_response_status_not_found true none

unfoldable pub make_503_response : Disk → Outcome Response
unfolding make_response
make_503_response disk = make_response disk k_response_status_service_unavailable true none

-- `Serialize(buffer)`.
unfoldable pub serialize_response : Response → Bytes → Bytes
serialize_response r buffer =
    buffer ++ ((r.status_line ++ k_crlf) ++ (serialize_all r.headers ++ k_crlf))

-- The loop of `ChangeHeader`.
unfoldable pub change_in : List Header → Bytes → Bytes → Bool × List Header
change_in [] key new_value = (false, [])
change_in (h ∷ hs) key new_value =
    let (changed, hs') = change_in hs key new_value in
    if equal h.key key then (true, set_value h new_value ∷ hs) else (changed, h ∷ hs')

-- `ChangeHeader`.
unfoldable pub change_header : Response → Bytes → Bytes → Bool × Response
unfolding change_in
change_header r key new_value =
    let (changed, hs) = change_in r.headers key new_value in (changed, record r { headers = hs })
