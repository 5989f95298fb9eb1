-- ===== src/Http/Utils/Split/Free.antt =====
-- Texts that hold no line end, for `Split` at line ends.
use dytech.Prelude.{
  ℕ, zero, suc, ◌/◌, ◌≡◌, refl, Bool, true, ◌&&◌, not, [], ◌∷◌, ◌++◌, Bytes, arith, Bool-cases, inl,
  inr, ltb, ◌==◌,
}
use dytech.Text.{digits, find, starts_with, empty}
use dytech.Http.Constants.{k_crlf}
use dytech.Http.Utils.Split.Laws.{Clean}

-- No byte of the text is a carriage return.
abbrev pub is_free : Bytes → Bool
is_free [] = true
is_free (c ∷ cs) = not (c == b'\r') && is_free cs

pub is_free-Clean : (t : Bytes) → is_free t ≡ true → Clean k_crlf t
unfolding find starts_with empty
is_free-Clean [] e = refl
is_free-Clean (c ∷ t) e = ground (arith, is_free-Clean t)

pub is_free-append : (s t : Bytes) → is_free s ≡ true → is_free t ≡ true → is_free (s ++ t) ≡ true
is_free-append [] t e f = f
is_free-append (c ∷ s) t e f = ground (arith, is_free-append s t)

pub is_free-digits : (f n : ℕ) → is_free (digits f n) ≡ true
unfolding digits
is_free-digits zero n = refl
is_free-digits (suc f) n = elim (Bool-cases (ltb n 10)) [
  | inl small ↦ rw small (ground arith)
  | inr large ↦
      rw large (is_free-append (digits f (n / 10)) _ (is_free-digits f (n / 10)) (ground arith))
]
