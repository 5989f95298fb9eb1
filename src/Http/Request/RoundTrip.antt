-- ===== src/Http/Request/RoundTrip.antt =====
-- A request that is written out line by line is read back.
use dytech.Prelude.{some, ◌≢◌, true, not, ◌&&◌, List, [], ◌∷◌, ◌++◌, map, Bytes}
use dytech.Text.{view}
use dytech.Http.Constants.{k_crlf, k_space, k_colon}
use dytech.Http.Utils.{to_method, to_version}
use dytech.Http.Utils.Split.Laws.{Lacks, Clean, terminated}
use dytech.Http.Header.{Header, make_header}
use dytech.Http.Header.Line.{last_byte}
use dytech.Http.Request.{Request, initial, route}
use dytech.Http.Request.Valid.{any_keeps_alive}

-- The text of a request line and of a header line.
abbrev pub request_line : Bytes → Bytes → Bytes → Bytes
request_line m url v = m ++ (k_space ++ (url ++ (k_space ++ v)))

abbrev pub header_line : Bytes × Bytes → Bytes
header_line (k, v) = k ++ (k_colon ++ v)

abbrev pub header_at : Bytes × Bytes → Header
header_at (k, v) = make_header k v

-- The text of a request: its lines, each with the line end behind it, and an empty one.
abbrev pub request_text : Bytes → Bytes → Bytes → List (Bytes × Bytes) → Bytes
request_text m url v hs = terminated (request_line m url v ∷ (map header_line hs ++ [] ∷ [])) k_crlf

-- A header that can be written on a line.
abbrev pub IsPrintable : Bytes × Bytes → Type 0
IsPrintable (k, v) =
    Lacks k_colon k × (v ≢ []) × (last_byte v ≢ some b':') × Clean k_crlf (k ++ (k_colon ++ v))

-- The three parts of a request line that can be read back.
abbrev pub IsRequestLine : Bytes → Bytes → Bytes → Type 0
IsRequestLine m url v =
    Lacks k_space m
    × Lacks k_space url
    × Lacks k_space v
    × (v ≢ [])
    × Clean k_crlf (request_line m url v)

-- The request after reading these headers.
abbrev with_headers : Request → List Header → Request
with_headers r hs = record r {
  headers = r.headers ++ hs;
  should_close = r.should_close && not (any_keeps_alive hs);
  is_valid = true;
}

-- The request line alone.
accepted : Bytes → Bytes → Bytes → Request
accepted m url v = record initial {
  method = to_method (view m);
  version = to_version (view v);
  resource_url = route url;
}
