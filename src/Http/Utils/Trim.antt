-- ===== src/Http/Utils/Trim.antt =====
-- What `Trim` returns: since the result is made from the `data()` of a view, the text from the
-- first byte that is kept up to the end of the object.
use mathlib.Core.Option
use dytech.Prelude.{
  ℕ, zero, suc, ◌+◌, ◌≡◌, ◌≢◌, ◌↔◌, inl, inr, refl, sym, ap, ◌∙◌, none, some, [], ◌∷◌, ◌++◌, map,
  Bytes, arith, All, drop, drop-add, take-append-drop, append-nil, Bool-cases, Option-cases,
  if◌then◌else◌,
}
use dytech.Text.{
  one_of, find_first_not_of, find_last_not_of, view, sub_view, data_string, c_str, substr, codes,
}
use dytech.Text.Find.{equal_iff}
use dytech.Http.Constants.{k_space, Method}
use dytech.Http.Utils.{trim, format, to_upper, to_upper_char, to_method, lookup, k_string_to_method}

-- No byte of the text is zero.
abbrev pub ZeroFree : Bytes → Type 0
ZeroFree = All (λ c. c ≢ 0)

-- The text less the bytes of `delim` in front.
unfoldable pub drop_leading : Bytes → Bytes → Bytes
drop_leading delim [] = []
drop_leading delim (c ∷ cs) = if one_of delim c then drop_leading delim cs else c ∷ cs

c_str-ZeroFree : (s : Bytes) → ZeroFree s → c_str s ≡ s
unfolding c_str
c_str-ZeroFree [] z = refl
c_str-ZeroFree (c ∷ s) z = ground (arith, c_str-ZeroFree s z.1, z.0)

ZeroFree-drop : (n : ℕ) (s : Bytes) → ZeroFree s → ZeroFree (drop n s)
ZeroFree-drop zero s z = z
ZeroFree-drop (suc n) [] z = tt
ZeroFree-drop (suc n) (c ∷ s) z = ZeroFree-drop n s z.1

module _ (delim : Bytes) where
  drop_leading-none : (s : Bytes) → find_last_not_of s delim ≡ none → drop_leading delim s ≡ []
  unfolding drop_leading find_last_not_of
  drop_leading-none [] e = refl
  drop_leading-none (c ∷ s) e = ground (arith, drop_leading-none s)

  drop_leading-some :
      (s : Bytes) (r : ℕ)
      → find_last_not_of s delim ≡ some r
      → (l : ℕ) × (find_first_not_of s delim ≡ some l) × (drop l s ≡ drop_leading delim s)
  unfolding drop_leading find_last_not_of find_first_not_of
  drop_leading-some [] r e = cc
  drop_leading-some (c ∷ s) r e = elim (Bool-cases (one_of delim c)) [
    | inl skip ↦ elim (Option-cases (find_last_not_of s delim)) [
      | inl f ↦ absurd (ground arith)
      | inr (m, f) ↦ let (l, g, h) = drop_leading-some s m f in (suc l, rw (skip, g), rw (skip, h))
    ]
    | inr keep ↦ (0, rw keep, rw keep)
  ]

-- The text behind the view is part of what a `const char*` into it reads.
data_string-sub_view :
    (s : Bytes) (l n : ℕ) → ZeroFree s → data_string (sub_view (view s) l n) ≡ drop l s
unfolding data_string sub_view substr
data_string-sub_view s l n z =
    rw (append-nil (drop (l + n) s), drop-add l n s, take-append-drop n (drop l s))
      (c_str-ZeroFree (drop l s) (ZeroFree-drop l s z))

-- `Trim` of a whole string that holds no zero byte drops the delimiters in front and keeps those
-- at the end.
pub trim-drop_leading : (s delim : Bytes) → ZeroFree s → trim (view s) delim ≡ drop_leading delim s
unfolding trim
trim-drop_leading s delim z = elim (Option-cases (find_last_not_of s delim)) [
  | inl e ↦ rw (e, trim) (sym (drop_leading-none delim s e))
  | inr (r, e) ↦
      let (l, f, g) = drop_leading-some delim s r e in
      rw (e, trim) (rw f (data_string-sub_view s l _ z ∙ g))
]

ZeroFree-drop_leading : (delim s : Bytes) → ZeroFree s → ZeroFree (drop_leading delim s)
unfolding drop_leading
ZeroFree-drop_leading delim [] z = tt
ZeroFree-drop_leading delim (c ∷ s) z = elim (Bool-cases (one_of delim c)) [
  | inl skip ↦ rw skip (ZeroFree-drop_leading delim s z.1)
  | inr keep ↦ rw keep z
]

-- `Format` of a whole string with no zero byte.
pub format-view :
    (s : Bytes) → ZeroFree s → format (view s) ≡ map to_upper_char (drop_leading k_space s)
unfolding format to_upper data_string
format-view s z =
    let kept : Bytes = drop_leading k_space s in
    let cut : trim (view s) k_space ≡ kept = trim-drop_leading s k_space z in
    let whole : c_str (kept ++ []) ≡ kept =
      ap c_str (append-nil kept) ∙ c_str-ZeroFree kept (ZeroFree-drop_leading k_space s z) in
    rw cut (ap (map to_upper_char) whole)

lookup-Method :
    (s : Bytes)
    → let m = Option.get_or (lookup s k_string_to_method) Method.unsupported in
      ((m ≡ Method.get) ↔ (s ≡ codes "GET")) × ((m ≡ Method.head) ↔ (s ≡ codes "HEAD"))
unfolding lookup
lookup-Method s =
    let g = equal_iff (codes "GET") s in
    let h = equal_iff (codes "HEAD") s in
    let u = equal_iff (codes "UNSUPPORTED") s in ground (arith, g, h, u)

-- A method is read as GET, or as HEAD, exactly when its text is that word in any case, after
-- any number of spaces in front; a space behind it is not accepted.
to_method_iff :
    (s : Bytes)
    → ZeroFree s
    → ((to_method (view s) ≡ Method.get)
        ↔ (map to_upper_char (drop_leading k_space s) ≡ codes "GET"))
      × ((to_method (view s) ≡ Method.head)
          ↔ (map to_upper_char (drop_leading k_space s) ≡ codes "HEAD"))
unfolding to_method
to_method_iff s z =
    rw (format-view s z) (lookup-Method (map to_upper_char (drop_leading k_space s)))
