-- ===== src/Http/Utils.antt =====
-- http/http_utils.h and http/http_utils.cc: splitting, joining, trimming, and the tables of
-- methods, versions and extensions. A parameter `std::string_view` whose bytes behind the view
-- matter is a `StringView`, any other is the list of its characters.
pub mod Split
pub mod Trim
use mathlib.Core.Option
use dytech.Prelude.{
  ℕ, zero, suc, ◌+◌, ◌-◌, Bool, true, false, ◌&&◌, Option, none, some, List, [], ◌∷◌, ◌++◌, map,
  Bytes, leb, ◌==◌, if◌then◌else◌, length,
}
use dytech.Text.{
  codes, equal, empty, find, find_from, substr, find_first_not_of, find_last_not_of, StringView,
  view, sub_view, data_string,
}
use dytech.Http.Constants.{
  Method, Version, Extension, k_space, k_cgi_folder_name, k_mime_type_html, k_mime_type_css,
  k_mime_type_png, k_mime_type_jpg, k_mime_type_jpeg, k_mime_type_gif, k_mime_type_octet,
}

-- The loop of `Split`, from position `curr`. Each round takes one unit of fuel; `none` means that
-- there were more rounds than fuel.
unfoldable pub split_loop : ℕ → Bytes → Bytes → ℕ → List Bytes → Option (List Bytes)
split_loop zero str delim curr tokens = none
split_loop (suc f) str delim curr tokens = elim (find_from str delim curr) [
  | some next ↦
      split_loop f str delim (next + length delim) (tokens ++ substr str curr (next - curr) ∷ [])
  | none ↦
      some
        (if curr == length str then tokens else tokens ++ substr str curr (length str - curr) ∷ [])
]

-- `Split`. A round moves on by at least one byte where the delimiter is not empty, as in every
-- call of the sources.
unfoldable pub split : Bytes → Bytes → List Bytes
unfolding split_loop empty
split str delim =
    if empty str then [] else Option.get_or (split_loop (suc (length str)) str delim 0 []) []

-- The loop of `Join` over the tokens but the last, and the last behind it.
unfoldable pub join_loop : Bytes → List Bytes → Bytes → Bytes
join_loop last [] delim = last
join_loop first (t ∷ tokens) delim = first ++ (delim ++ join_loop t tokens delim)

-- `Join`.
unfoldable pub join : List Bytes → Bytes → Bytes
unfolding join_loop
join [] delim = []
join (t ∷ []) delim = t
join (t ∷ tokens) delim = join_loop t tokens delim

-- `Trim`: the result is made from the `data()` of a view.
unfoldable pub trim : StringView → Bytes → Bytes
trim str delim = elim (find_last_not_of str.chars delim) [
  | none ↦ []
  | some r_found ↦
      let l_found = Option.get_or (find_first_not_of str.chars delim) 0 in
      data_string (sub_view str l_found (r_found - l_found + 1))
]

-- `std::toupper` in the "C" locale.
unfoldable pub to_upper_char : ℕ → ℕ
to_upper_char c = if leb b'a' c && leb c b'z' then c - 32 else c

-- `ToUpper`.
unfoldable pub to_upper : StringView → Bytes
unfolding to_upper_char
to_upper str = map to_upper_char (data_string str)

-- `Format`.
unfoldable pub format : StringView → Bytes
unfolding trim to_upper
format str = to_upper (view (trim str k_space))

-- `find` in a `std::map` with string keys.
unfoldable pub lookup : {V : Type 0} → Bytes → List (Bytes × V) → Option V
unfolding equal
lookup k [] = none
lookup k ((j, v) ∷ m) = if equal j k then some v else lookup k m

abbrev pub k_string_to_method : List (Bytes × Method)
k_string_to_method =
    (codes "GET", Method.get)
    ∷ (codes "HEAD", Method.head)
    ∷ (codes "UNSUPPORTED", Method.unsupported)
    ∷ []

-- `ToMethod`.
unfoldable pub to_method : StringView → Method
unfolding format lookup
to_method method_str =
    Option.get_or (lookup (format method_str) k_string_to_method) Method.unsupported

abbrev pub k_string_to_version : List (Bytes × Version)
k_string_to_version =
    (codes "HTTP/1.1", Version.http_1_1) ∷ (codes "UNSUPPORTED", Version.unsupported) ∷ []

-- `ToVersion`.
unfoldable pub to_version : StringView → Version
unfolding format lookup
to_version version_str =
    Option.get_or (lookup (format version_str) k_string_to_version) Version.unsupported

abbrev pub k_string_to_extension : List (Bytes × Extension)
k_string_to_extension =
    (codes "HTML", Extension.html)
    ∷ (codes "CSS", Extension.css)
    ∷ (codes "PNG", Extension.png)
    ∷ (codes "JPG", Extension.jpg)
    ∷ (codes "JPEG", Extension.jpeg)
    ∷ (codes "GIF", Extension.gif)
    ∷ (codes "OCTET", Extension.octet)
    ∷ []

-- `ToExtension`.
unfoldable pub to_extension : StringView → Extension
unfolding format lookup
to_extension extension_str =
    Option.get_or (lookup (format extension_str) k_string_to_extension) Extension.octet

-- `ExtensionToMime`.
unfoldable pub extension_to_mime : Extension → Bytes
extension_to_mime Extension.html = k_mime_type_html
extension_to_mime Extension.css = k_mime_type_css
extension_to_mime Extension.png = k_mime_type_png
extension_to_mime Extension.jpg = k_mime_type_jpg
extension_to_mime Extension.jpeg = k_mime_type_jpeg
extension_to_mime Extension.gif = k_mime_type_gif
extension_to_mime Extension.octet = k_mime_type_octet

-- `IsCGIRequest`: does the searcher find the folder's name?
unfoldable pub is_cgi_request : Bytes → Bool
is_cgi_request resource_url = elim (find resource_url k_cgi_folder_name) [
  | none ↦ false
  | some n ↦ true
]
