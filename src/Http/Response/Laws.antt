-- ===== src/Http/Response/Laws.antt =====
-- The headers of a response, and the change of one.
use mathlib.Core.Option
use dytech.Prelude.{
  ℕ, ◌≡◌, refl, Bool, true, false, ◌&&◌, Option, none, some, List, [], ◌∷◌, Bytes, arith,
  if◌then◌else◌,
}
use dytech.Text.{equal, to_string}
use dytech.Text.Find.{equal_iff}
use dytech.Outcome.{returns, terminates}
use dytech.Http.Constants.{
  k_header_content_length, k_header_connection, k_connection_close, k_connection_keep_alive,
  k_content_length_zero,
}
use dytech.Http.Header.{Header, set_value}
use dytech.Http.Disk.{Disk, is_file_exists, check_file_size}
use dytech.Http.Response.{
  Response, bare_response, file_response, make_response, change_in, change_header,
}

-- The value of the first header with this key.
unfoldable pub header_value : Bytes → List Header → Option Bytes
header_value key [] = none
header_value key (h ∷ hs) = if equal h.key key then some h.value else header_value key hs

abbrev is_some {ℓ} : {A : Type ℓ} → Option A → Bool
is_some none = false
is_some (some a) = true

change_in-header_value :
    (hs : List Header) (key v j : Bytes)
    → ((change_in hs key v).0 ≡ is_some (header_value key hs))
      × (header_value j (change_in hs key v).1
          ≡ (if (change_in hs key v).0 && equal key j then some v else header_value j hs))
unfolding change_in header_value set_value
change_in-header_value [] key v j = (refl, refl)
change_in-header_value (h ∷ hs) key v j = ground (
  arith,
  equal_iff h.key key,
  equal_iff h.key j,
  equal_iff key j,
  change_in-header_value hs key v j,
)

-- `ChangeHeader` succeeds exactly when the response has a header with the key; the header then
-- has the new value, and every other key has the value that it had.
pub change_header-header_value :
    (r : Response) (key v j : Bytes)
    → ((change_header r key v).0 ≡ is_some (header_value key r.headers))
      × (header_value j (change_header r key v).1.headers
          ≡ (if (change_header r key v).0 && equal key j then some v else header_value j r.headers))
unfolding change_header
change_header-header_value r key v j = change_in-header_value r.headers key v j

-- The length that a response has to announce for this resource: 0 where there is no resource, and the
-- size of the file otherwise. There is none for what exists and has no size.
abbrev pub announced : Disk → Option Bytes → Option Bytes
announced disk none = some k_content_length_zero
announced disk (some url) =
    if disk.exists url
    then Option.map to_string (disk.file_size url)
    else some k_content_length_zero

pub make_response-some :
    (disk : Disk) (status : Bytes) (close : Bool) (url : Bytes) (n : ℕ)
    → disk.exists url ≡ true
    → disk.file_size url ≡ some n
    → make_response disk status close (some url) ≡ returns (file_response status close url n)
unfolding make_response is_file_exists check_file_size
make_response-some disk status close url n e f = rw (e, f)

pub make_response-absent :
    (disk : Disk) (status : Bytes) (close : Bool) (url : Bytes)
    → disk.exists url ≡ false
    → make_response disk status close (some url) ≡ returns (bare_response status close)
unfolding make_response is_file_exists
make_response-absent disk status close url e = rw e

pub make_response-unsized :
    (disk : Disk) (status : Bytes) (close : Bool) (url : Bytes)
    → disk.exists url ≡ true
    → disk.file_size url ≡ none
    → make_response disk status close (some url) ≡ terminates
unfolding make_response is_file_exists check_file_size
make_response-unsized disk status close url e f = rw (e, f)

-- What a client can rely on in the head of a response: a length is announced, and it is the right one.
abbrev pub Announces : Disk → Bool → Option Bytes → Response → Type 0
Announces disk close url r =
    (n : Bytes) × (announced disk url ≡ some n)
    × (header_value k_header_content_length r.headers ≡ some n)
    × (header_value k_header_connection r.headers
        ≡ some (if close then k_connection_close else k_connection_keep_alive))
    × (r.should_close ≡ close)
