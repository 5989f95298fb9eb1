-- ===== src/Http/Header/Line.antt =====
-- Which lines are headers, and what becomes of the key and the value.
use dytech.Prelude.{
  ℕ, Option, none, some, ◌≡◌, ◌≢◌, inl, inr, refl, sym, ap, ◌∙◌, false, List, [], ◌∷◌, ◌++◌, Bytes,
  append-nil,
}
use dytech.Http.Constants.{k_colon}
use dytech.Http.Utils.{split, join}
use dytech.Http.Utils.Split.{split-Pieces, Pieces-split}
use dytech.Http.Utils.Split.Laws.{Lacks, Clean-char, Pieces-cons, join-split, split-eq-nil}
use dytech.Http.Header.{make_header, header_of, parse_header}

-- The tokens of a line whose key holds no colon: the key, and those of the rest.
split-key :
    (key rest : Bytes)
    → Lacks k_colon key
    → split (key ++ (k_colon ++ rest)) k_colon ≡ key ∷ split rest k_colon
split-key key rest lacks =
    split-Pieces (λ e. cc)
      (Pieces-cons k_colon key rest (Clean-char b':' key lacks)
        (Pieces-split rest k_colon (λ e. cc)))

header_of-cons :
    (key : Bytes) (ts : List Bytes)
    → ts ≢ []
    → header_of (key ∷ ts) ≡ make_header key (join ts k_colon)
unfolding header_of make_header join
header_of-cons key [] ne = absurd (ne refl)
header_of-cons key (t ∷ []) ne = refl
header_of-cons key (t ∷ u ∷ ts) ne = refl

-- The last byte of a text.
abbrev pub last_byte : Bytes → Option ℕ
last_byte [] = none
last_byte (c ∷ []) = some c
last_byte (c ∷ d ∷ s) = last_byte (d ∷ s)

last_byte-concat : (w : Bytes) (c : ℕ) → last_byte (w ++ c ∷ []) ≡ some c
last_byte-concat [] c = refl
last_byte-concat (d ∷ []) c = refl
last_byte-concat (d ∷ e ∷ w) c = last_byte-concat (e ∷ w) c

-- A line `key:value` is read as that key and that value, where the key holds no colon, and the
-- value is not empty and does not end in a colon; colons within the value are kept.
pub parse_header-line :
    (key value : Bytes)
    → Lacks k_colon key
    → value ≢ []
    → last_byte value ≢ some b':'
    → parse_header (key ++ (k_colon ++ value)) ≡ make_header key value
unfolding parse_header
parse_header-line key value lacks ne end =
    ap header_of (split-key key value lacks)
    ∙ header_of-cons key (split value k_colon) (λ e. ne (split-eq-nil value k_colon (λ q. cc) e))
    ∙ ap (make_header key) (elim (join-split value k_colon (λ q. cc) ne).1 [
      | inl e ↦ e
      | inr e ↦
          absurd (
            end (ap last_byte (sym e) ∙ last_byte-concat (join (split value k_colon) k_colon) b':'))
    ])

-- A line `key:` with nothing behind the colon is refused.
parse_header-empty_value :
    (key : Bytes) → Lacks k_colon key → (parse_header (key ++ k_colon)).valid ≡ false
unfolding parse_header
parse_header-empty_value key lacks =
    ap (λ x. (header_of x).valid)
      (ap (λ x. split x k_colon) (ap (λ x. key ++ x) (sym (append-nil k_colon)))
        ∙ split-key key [] lacks)
    ∙ unfold split header_of in refl
