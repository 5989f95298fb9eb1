-- ===== src/Http/Request/Valid.antt =====
-- What a parsed request satisfies: a valid one is complete, an invalid one has a reason.
use dytech.Prelude.{
  ◌≡◌, ◌≢◌, inl, inr, refl, Bool, true, false, not, ◌||◌, List, [], ◌∷◌, ◌++◌, Bytes, arith, All,
  All-concat, Bool-cases, ltb, length,
}
use dytech.Text.{empty}
use dytech.Http.Constants.{Method, Version, k_crlf, k_space}
use dytech.Http.Utils.{split}
use dytech.Http.Header.{Header, parse_header}
use dytech.Http.Request.{
  Request, initial, route, parse_tokens, parse_request_line, keeps_alive, scan_header,
  parse_headers, back_empty, pop_back, parse_lines, parse_split, parse_request,
}

-- Does a header ask to keep the connection?
unfoldable pub any_keeps_alive : List Header → Bool
any_keeps_alive [] = false
any_keeps_alive (h ∷ hs) = keeps_alive h || any_keeps_alive hs

any_keeps_alive-concat :
    (hs : List Header) (h : Header)
    → any_keeps_alive (hs ++ h ∷ []) ≡ (any_keeps_alive hs || keeps_alive h)
unfolding any_keeps_alive
any_keeps_alive-concat [] h = ground arith
any_keeps_alive-concat (x ∷ hs) h = ground (arith, any_keeps_alive-concat hs h)

-- A request line that was accepted, and header lines that were.
pub record IsComplete (r : Request) : Type 0 where
  pub method_known : r.method ≢ Method.unsupported
  pub version_known : r.version ≡ Version.http_1_1
  pub has_resource : r.resource_url ≢ []
  pub headers_valid : All (λ h. h.valid ≡ true) r.headers
  pub closes : r.should_close ≡ not (any_keeps_alive r.headers)
  pub no_reason : r.invalid_reason ≡ []

abbrev pub Checked : Request → Type 0
Checked r = (r.is_valid ≡ true → IsComplete r) × (r.is_valid ≡ false → r.invalid_reason ≢ [])

route_ne_nil : (url : Bytes) → route url ≢ []
unfolding route empty
route_ne_nil [] = λ e. cc
route_ne_nil (c ∷ cs) = ground arith

push-IsComplete :
    (r : Request) (h : Header)
    → IsComplete r
    → h.valid ≡ true
    → IsComplete (record (scan_header r h) { headers = r.headers ++ h ∷ [] })
unfolding scan_header
push-IsComplete r h c v =
    let all = All-concat (λ (x : Header). x.valid ≡ true) r.headers h c.headers_valid v in
    ground (arith, all, any_keeps_alive-concat r.headers h)

parse_headers-Checked :
    (lines : List Bytes) (r : Request)
    → IsComplete r
    → r.is_valid ≡ false
    → Checked (parse_headers lines r)
unfolding parse_headers
parse_headers-Checked [] r c e = (λ _. ground arith, λ q. cc)
parse_headers-Checked (line ∷ lines) r c e = elim (Bool-cases (parse_header line).valid) [
  | inl v ↦ simp v (
      parse_headers-Checked lines _ (push-IsComplete r (parse_header line) c v)
        (unfold scan_header in ground arith))
  | inr v ↦ simp v (λ q. cc, λ q w. cc)
]

parse_tokens-Checked :
    (line : Bytes) (tokens : List Bytes)
    → let (parsed, r) = parse_tokens initial line tokens in
      (r.is_valid ≡ false)
      × (parsed ≡ true → IsComplete r)
      × (parsed ≡ false → r.invalid_reason ≢ [])
unfolding parse_tokens
parse_tokens-Checked line [] = (refl, λ q. cc, λ q w. cc)
parse_tokens-Checked line (m ∷ []) = (refl, λ q. cc, λ q w. cc)
parse_tokens-Checked line (m ∷ u ∷ []) = (refl, λ q. cc, λ q w. cc)
parse_tokens-Checked line (m ∷ u ∷ v ∷ []) =
    unfold any_keeps_alive in ground (arith, route_ne_nil u)
parse_tokens-Checked line (m ∷ u ∷ v ∷ w ∷ ws) = (refl, λ q. cc, λ q w. cc)

parse_lines-Checked : (lines : List Bytes) → lines ≢ [] → Checked (parse_lines lines)
unfolding parse_lines parse_request_line
parse_lines-Checked [] ne = absurd (ne refl)
parse_lines-Checked (line ∷ lines) ne =
    let (fresh, ok, bad) = parse_tokens-Checked line (split line k_space) in
    elim (Bool-cases (parse_tokens initial line (split line k_space)).0) [
      | inl e ↦ simp e (parse_headers-Checked lines _ (ok e) fresh)
      | inr e ↦ simp e (λ q. cc, λ _. bad e)
    ]

parse_split-Checked : (lines : List Bytes) → Checked (parse_split lines)
unfolding parse_split pop_back
parse_split-Checked [] = (λ q. cc, λ q w. cc)
parse_split-Checked (x ∷ []) = (λ q. cc, λ q w. cc)
parse_split-Checked (x ∷ y ∷ lines) = elim (Bool-cases (back_empty (x ∷ y ∷ lines))) [
  | inl e ↦
      let few : ltb (length (x ∷ y ∷ lines)) 2 ≡ false = ground arith in
      rw (few, e) (parse_lines-Checked (x ∷ pop_back (y ∷ lines)) (λ q. cc))
  | inr e ↦
      let few : ltb (length (x ∷ y ∷ lines)) 2 ≡ false = ground arith in
      rw (few, e) (λ q. cc, λ q w. cc)
]

-- Every request text is either refused with a reason, or read as a complete request: a GET or
-- HEAD of HTTP/1.1 for a resource that is not empty, with well-formed headers only, no reason,
-- and the connection kept exactly when some header asks for it.
pub parse_request-Checked : (s : Bytes) → Checked (parse_request s)
unfolding parse_request
parse_request-Checked s = parse_split-Checked (split s k_crlf)
