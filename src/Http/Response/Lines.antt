-- ===== src/Http/Response/Lines.antt =====
-- The lines of a response's head, and where its body begins.
use dytech.Prelude.{
  ℕ, ◌%◌, ◌≡◌, ◌≢◌, refl, sym, ap, ◌∙◌, subst, drop, ◌+◌, Bool, true, false, none, some, List, [],
  ◌∷◌, ◌++◌, map, Bytes, All, size_mod, Option, Option-cases, inl, inr, append_assoc, Bool-cases,
}
use dytech.Text.{to_string, find, starts_with, find_last_of, view, codes}
use dytech.Outcome.{returns, terminates}
use dytech.Http.Constants.{
  Extension, k_crlf, k_colon, k_dot, k_space, k_http_version, k_content_length_zero,
  k_header_content_length, k_response_status_ok, k_response_status_bad_request,
  k_response_status_not_found, k_response_status_service_unavailable,
}
use dytech.Http.Utils.{split, extension_to_mime, to_extension}
use dytech.Http.Utils.Split.{Pieces-split, split-Pieces}
use dytech.Http.Utils.Split.Free.{is_free, is_free-Clean, is_free-append, is_free-digits}
use dytech.Http.Utils.Split.Laws.{Clean, terminated, Pieces-terminated}
use dytech.Http.Header.{Header, make_header, serialize}
use dytech.Http.Request.{serialize_all}
use dytech.Http.Disk.{Disk}
use dytech.Http.Response.Laws.{make_response-some, make_response-absent, make_response-unsized}
use dytech.Http.Response.{
  Response, common_headers, type_headers, bare_response, file_response, make_response,
  serialize_response,
}

-- The text of a header less its line end.
abbrev pub header_text : Header → Bytes
header_text h = h.key ++ (k_colon ++ h.value)

serialize_all-terminated :
    (hs : List Header) → serialize_all hs ≡ terminated (map header_text hs) k_crlf
unfolding serialize_all serialize
serialize_all-terminated [] = refl
serialize_all-terminated (h ∷ hs) = simp (append_assoc, serialize_all-terminated hs)

terminated-concat :
    (ls : List Bytes) → terminated (ls ++ [] ∷ []) k_crlf ≡ terminated ls k_crlf ++ k_crlf
terminated-concat [] = refl
terminated-concat (l ∷ ls) = simp (append_assoc, terminated-concat ls)

is_free-mime : (e : Extension) → is_free (extension_to_mime e) ≡ true
unfolding extension_to_mime
is_free-mime Extension.html = refl
is_free-mime Extension.css = refl
is_free-mime Extension.png = refl
is_free-mime Extension.jpg = refl
is_free-mime Extension.jpeg = refl
is_free-mime Extension.gif = refl
is_free-mime Extension.octet = refl

-- A header that gives one line, which is not empty.
abbrev IsLine : Header → Type 0
IsLine h = is_free (header_text h) ≡ true

type_headers-IsLine : (url : Bytes) → All IsLine (type_headers url)
unfolding type_headers make_header
type_headers-IsLine url = elim (Option-cases (find_last_of url k_dot)) [
  | inl e ↦ rw (e, type_headers) tt
  | inr (n, e) ↦
      let ext = to_extension (view (drop (n + 1) url)) in
      rw (e, type_headers)
        (is_free-append (codes "Content-Type:") (extension_to_mime ext) refl (is_free-mime ext), tt)
]

append-IsLine : (hs js : List Header) → All IsLine hs → All IsLine js → All IsLine (hs ++ js)
append-IsLine [] js p q = q
append-IsLine (h ∷ hs) js p q = (p.0, append-IsLine hs js p.1 q)

common_headers-IsLine : (close : Bool) → All IsLine (common_headers close)
unfolding common_headers make_header
common_headers-IsLine true = (refl, (refl, tt))
common_headers-IsLine false = (refl, (refl, tt))

bare_response-IsLine :
    (status : Bytes) (close : Bool) → All IsLine (bare_response status close).headers
unfolding bare_response make_header
bare_response-IsLine status close =
    append-IsLine (common_headers close)
      (make_header k_header_content_length k_content_length_zero ∷ []) (common_headers-IsLine close)
      (refl, tt)

file_response-IsLine :
    (status url : Bytes) (close : Bool) (n : ℕ)
    → All IsLine (file_response status close url n).headers
unfolding file_response make_header to_string
file_response-IsLine status url close n =
    let length_line : IsLine (make_header k_header_content_length (to_string n)) =
      is_free-append (codes "Content-Length:") (to_string n) refl
        (is_free-digits 20 (n % size_mod)) in
    append-IsLine (common_headers close)
      (make_header k_header_content_length (to_string n) ∷ type_headers url)
      (common_headers-IsLine close) (length_line, type_headers-IsLine url)

-- The codes of the responses that the server makes.
pub data Status : Type 0 where
  status_ok bad_request not_found service_unavailable : Status

abbrev pub status_code : Status → Bytes
status_code status_ok = k_response_status_ok
status_code bad_request = k_response_status_bad_request
status_code not_found = k_response_status_not_found
status_code service_unavailable = k_response_status_service_unavailable

abbrev status_line : Status → Bytes
status_line status = k_http_version ++ (k_space ++ status_code status)

status_line-is_free : (status : Status) → is_free (status_line status) ≡ true
status_line-is_free status_ok = refl
status_line-is_free bad_request = refl
status_line-is_free not_found = refl
status_line-is_free service_unavailable = refl

-- The response has this status line, and each of its headers is one line.
abbrev HasLines : Bytes → Response → Type 0
HasLines line r = (r.status_line ≡ line) × All IsLine r.headers

returns_inj : {A : Type 0} {a b : A} → returns a ≡ returns b → a ≡ b
returns_inj e = cc

terminates_ne : {A : Type 0} {a : A} → terminates ≡ returns a → ⊥
terminates_ne e = cc

bare_response-HasLines :
    (status : Bytes) (close : Bool)
    → HasLines (k_http_version ++ (k_space ++ status)) (bare_response status close)
bare_response-HasLines status close =
    (unfold bare_response in refl, bare_response-IsLine status close)

file_response-HasLines :
    (status url : Bytes) (close : Bool) (n : ℕ)
    → HasLines (k_http_version ++ (k_space ++ status)) (file_response status close url n)
file_response-HasLines status url close n =
    (unfold file_response in refl, file_response-IsLine status url close n)

make_response-HasLines :
    (disk : Disk) (status : Bytes) (close : Bool) (url : Option Bytes) {r : Response}
    → make_response disk status close url ≡ returns r
    → HasLines (k_http_version ++ (k_space ++ status)) r
make_response-HasLines disk status close none {r} e =
    let made : returns (bare_response status close) ≡ returns r = unfold make_response in e in
    subst (HasLines (k_http_version ++ (k_space ++ status))) (returns_inj made)
      (bare_response-HasLines status close)
make_response-HasLines disk status close (some u) {r} e = elim (Bool-cases (disk.exists u)) [
  | inr h ↦
      subst (HasLines (k_http_version ++ (k_space ++ status)))
        (returns_inj (sym (make_response-absent disk status close u h) ∙ e))
        (bare_response-HasLines status close)
  | inl h ↦ elim (Option-cases (disk.file_size u)) [
    | inl g ↦ absurd (terminates_ne (sym (make_response-unsized disk status close u h g) ∙ e))
    | inr (n, g) ↦
        subst (HasLines (k_http_version ++ (k_space ++ status)))
          (returns_inj (sym (make_response-some disk status close u n h g) ∙ e))
          (file_response-HasLines status u close n)
  ]
]

-- The lines in front of the empty one.
abbrev pub head_lines : Response → List Bytes
head_lines r = r.status_line ∷ map header_text r.headers

serialize_response-terminated :
    (r : Response) (body : Bytes)
    → serialize_response r [] ++ body ≡ terminated (head_lines r ++ [] ∷ []) k_crlf ++ body
unfolding serialize_response
serialize_response-terminated r body =
    ap (λ x. x ++ body)
      (append_assoc r.status_line k_crlf _
        ∙ ap (λ x. r.status_line ++ (k_crlf ++ x))
            (ap (λ x. x ++ k_crlf) (serialize_all-terminated r.headers)
              ∙ sym (terminated-concat (map header_text r.headers))))

lines-Clean :
    (hs : List Header) → All IsLine hs → All (Clean k_crlf) (map header_text hs ++ [] ∷ [])
unfolding find starts_with
lines-Clean [] c = (refl, tt)
lines-Clean (h ∷ hs) c = (is_free-Clean (header_text h) c.0, lines-Clean hs c.1)

not_empty : (hs : List Header) → All (λ l. l ≢ []) (map header_text hs)
not_empty [] = tt
not_empty (h ∷ hs) = (not_nil h.key h.value, not_empty hs)
  where
    not_nil : (key value : Bytes) → key ++ (k_colon ++ value) ≢ []
    not_nil [] value e = cc
    not_nil (c ∷ cs) value e = cc

-- A response that is made for one of the server's status codes, whatever the resource, is serialized
-- to its status line, a line for each header in order, and an empty line, and whatever body follows,
-- a client sees where it begins: cut at the line ends, the text is these lines, none of which is empty,
-- the empty line, and the pieces of the body.
pub make_response-split :
    (disk : Disk) (status : Status) (close : Bool) (url : Option Bytes) (r : Response)
    (body : Bytes)
    → make_response disk (status_code status) close url ≡ returns r
    → (r.status_line ≡ status_line status)
      × All (λ l. l ≢ []) (head_lines r)
      × (split (serialize_response r [] ++ body) k_crlf ≡ head_lines r ++ ([] ∷ split body k_crlf))
make_response-split disk status close url r body e =
    let (line, lines) = make_response-HasLines disk (status_code status) close url e in
    let clean : All (Clean k_crlf) (head_lines r ++ [] ∷ []) = (
      subst (Clean k_crlf) (sym line)
          (is_free-Clean (status_line status) (status_line-is_free status)),
      lines-Clean r.headers lines,
    ) in
    let full : k_crlf ≢ [] = λ q. cc in
    (
      line,
      ((λ q. cc), not_empty r.headers),
      ap (λ x. split x k_crlf) (serialize_response-terminated r body)
          ∙ split-Pieces full (
              Pieces-terminated k_crlf (head_lines r ++ [] ∷ []) body clean
                (Pieces-split body k_crlf full))
          ∙ append_assoc (head_lines r) ([] ∷ []) (split body k_crlf),
    )
