-- ===== src/Text/Find.antt =====
-- What `find` finds: the first occurrence, wherever the text goes on from there.
use dytech.Prelude.{
  ℕ, zero, suc, ◌+◌, ◌-◌, ◌≤◌, ◌<◌, true, false, ◌&&◌, none, some, [], ◌∷◌, ◌++◌, ◌≡◌, ◌≢◌, ◌↔◌,
  ◌⊎◌, inl, inr, refl, ap, arith, Bytes, ◌==◌, length, take, drop, Bool-cases, Option-cases,
  length-take, drop-take, length-append, take-append, append_assoc, subst, sym, ◌∙◌,
}
use native.Mathlib.Nat.{zero-add, suc-add}
use dytech.Text.{starts_with, find, empty, equal}

pub equal_iff : (s t : Bytes) → (equal s t ≡ true) ↔ (s ≡ t)
unfolding equal
equal_iff [] [] = ground arith
equal_iff [] (b ∷ t) = ground arith
equal_iff (a ∷ s) [] = ground arith
equal_iff (a ∷ s) (b ∷ t) = ground (arith, equal_iff s t)

-- Text that begins with `t` is `t` and the rest.
pub starts_with-split : (s t : Bytes) → starts_with s t ≡ true → s ≡ t ++ drop (length t) s
unfolding starts_with
starts_with-split s [] h = refl
starts_with-split [] (t ∷ ts) h = cc
starts_with-split (c ∷ cs) (t ∷ ts) h = ground (arith, starts_with-split cs ts)

pub starts_with-append : (t s : Bytes) → starts_with (t ++ s) t ≡ true
unfolding starts_with
starts_with-append [] s = refl
starts_with-append (t ∷ ts) s = ground (arith, starts_with-append ts s)

-- Text behind does not matter where the text is long enough.
pub starts_with-longer :
    (s more t : Bytes) → length t ≤ length s → starts_with (s ++ more) t ≡ starts_with s t
unfolding starts_with
starts_with-longer s more [] h = refl
starts_with-longer [] more (t ∷ ts) h = absurd (omega arith)
starts_with-longer (c ∷ cs) more (t ∷ ts) h =
    ap (λ b. c == t && b) (starts_with-longer cs more ts (omega arith))

pub starts_with-take :
    (k : ℕ) (s t : Bytes) → starts_with (take k s) t ≡ true → starts_with s t ≡ true
unfolding starts_with
starts_with-take k s [] h = refl
starts_with-take zero s (t ∷ ts) h = cc
starts_with-take (suc k) [] (t ∷ ts) h = cc
starts_with-take (suc k) (c ∷ cs) (t ∷ ts) h = ground (arith, starts_with-take k cs ts)

pub length-starts_with : (s t : Bytes) → starts_with s t ≡ true → length t ≤ length s
unfolding starts_with
length-starts_with s [] h = omega arith
length-starts_with [] (t ∷ ts) h = cc
length-starts_with (c ∷ cs) (t ∷ ts) h = ground (arith, length-starts_with cs ts)

-- Where `find` succeeds on a non-empty text: at its start, or one further than in its tail.
pub find-cons :
    (c : ℕ) (cs t : Bytes) (n : ℕ)
    → find (c ∷ cs) t ≡ some n
    → ((starts_with (c ∷ cs) t ≡ true) × (n ≡ 0))
      ⊎ ((starts_with (c ∷ cs) t ≡ false) × (m : ℕ) × (find cs t ≡ some m) × (n ≡ suc m))
unfolding find
find-cons c cs t n h = elim (Bool-cases (starts_with (c ∷ cs) t)) [
  | inl e ↦ inl (e, ground arith)
  | inr e ↦ elim (Option-cases (find cs t)) [
    | inl f ↦ absurd (ground arith)
    | inr (m, f) ↦ inr (e, m, f, ground arith)
  ]
]

-- The target stands at the position found.
pub find-starts_with : (s t : Bytes) (n : ℕ) → find s t ≡ some n → starts_with (drop n s) t ≡ true
unfolding empty
find-starts_with [] [] n h = unfold find starts_with in ground arith
find-starts_with [] (t ∷ ts) n h = unfold find in cc
find-starts_with (c ∷ cs) t n h = elim (find-cons c cs t n h) [
  | inl (e, z) ↦ rw z e
  | inr (e, m, f, z) ↦ rw z (find-starts_with cs t m f)
]

-- It stands nowhere before.
pub find_first :
    (s t : Bytes) (n k : ℕ) → find s t ≡ some n → k < n → starts_with (drop k s) t ≡ false
unfolding empty
find_first [] [] n k h l = absurd (unfold find in ground arith)
find_first [] (t ∷ ts) n k h l = unfold find in cc
find_first (c ∷ cs) t n zero h l = elim (find-cons c cs t n h) [
  | inl (e, z) ↦ absurd (omega arith)
  | inr (e, m, f, z) ↦ e
]
find_first (c ∷ cs) t n (suc k) h l = elim (find-cons c cs t n h) [
  | inl (e, z) ↦ absurd (omega arith)
  | inr (e, m, f, z) ↦ find_first cs t m k f (omega arith)
]

-- The target lies within the text.
pub find_fits : (s t : Bytes) (n : ℕ) → find s t ≡ some n → n + length t ≤ length s
unfolding empty
find_fits [] [] n h = unfold find in ground arith
find_fits [] (t ∷ ts) n h = unfold find in cc
find_fits (c ∷ cs) t n h = elim (find-cons c cs t n h) [
  | inl (e, z) ↦ omega (arith, length-starts_with (c ∷ cs) t e)
  | inr (e, m, f, z) ↦ omega (arith, find_fits cs t m f)
]

-- The text before the target, the target, and what follows.
pub find-split :
    (s t : Bytes) (n : ℕ) → find s t ≡ some n → s ≡ take n s ++ (t ++ drop (n + length t) s)
unfolding empty
find-split [] [] n h = unfold find in ground arith
find-split [] (t ∷ ts) n h = unfold find in cc
find-split (c ∷ cs) t n h = elim (find-cons c cs t n h) [
  | inl (e, z) ↦ rw (z, zero-add) (starts_with-split (c ∷ cs) t e)
  | inr (e, m, f, z) ↦ rw (z, suc-add) (ap (◌∷◌ c) (find-split cs t m f))
]

-- An occurrence is found, at its place or earlier.
pub find_complete :
    (s t : Bytes) (k : ℕ)
    → starts_with (drop k s) t ≡ true
    → k ≤ length s
    → (n : ℕ) × (find s t ≡ some n) × (n ≤ k)
unfolding find empty
find_complete [] [] k h l = (0, refl, omega arith)
find_complete [] (t ∷ ts) zero h l = unfold starts_with in cc
find_complete [] (t ∷ ts) (suc k) h l = absurd (omega arith)
find_complete (c ∷ cs) t zero h l = (0, rw h, omega arith)
find_complete (c ∷ cs) t (suc k) h l =
    let (m, f, b) = find_complete cs t k h (omega arith) in
    elim (Bool-cases (starts_with (c ∷ cs) t)) [
      | inl e ↦ (0, rw e, omega arith)
      | inr e ↦ (suc m, rw (e, f), omega arith)
    ]

-- More text behind does not move what was found.
pub find-append : (s more t : Bytes) (n : ℕ) → find s t ≡ some n → find (s ++ more) t ≡ some n
unfolding empty find
find-append [] [] [] n h = h
find-append [] (m ∷ more) [] n h = unfold starts_with in ground arith
find-append [] more (t ∷ ts) n h = cc
find-append (c ∷ cs) more t n h =
    let same = starts_with-longer (c ∷ cs) more t (omega (arith, find_fits (c ∷ cs) t n h)) in
    elim (find-cons c cs t n h) [
      | inl (e, z) ↦ rw (same, e, z)
      | inr (e, m, f, z) ↦ rw (same, e, find-append cs more t m f, z)
    ]

-- No shorter prefix holds the target.
pub find-take-none :
    (s t : Bytes) (n k : ℕ)
    → find s t ≡ some n
    → k < n + length t
    → k ≤ length s
    → find (take k s) t ≡ none
find-take-none s t n k h l b = elim (Option-cases (find (take k s) t)) [
  | inl e ↦ e
  | inr (m, e) ↦
      let within : m + length t ≤ k = omega (arith, find_fits (take k s) t m e, length-take k s) in
      let cut = rw drop-take at (find-starts_with (take k s) t m e) in
      cc (find_first s t n m h (omega arith), starts_with-take (k - m) (drop m s) t cut)
]

-- The prefix that ends with the target.
pub find-take : (s t : Bytes) (n : ℕ) → find s t ≡ some n → take (n + length t) s ≡ take n s ++ t
find-take s t n h =
    let size : length (take n s ++ t) ≡ n + length t =
      omega (arith, length-append (take n s) t, length-take n s, find_fits s t n h) in
    let whole : (take n s ++ t) ++ drop (n + length t) s ≡ s =
      append_assoc (take n s) t _ ∙ sym (find-split s t n h) in
    subst (λ k. take k s ≡ take n s ++ t) size
      (subst (λ x. take (length (take n s ++ t)) x ≡ take n s ++ t) whole
        (take-append (take n s ++ t) (drop (n + length t) s)))

-- Nothing but the empty text stands in the empty text.
pub find_nil : (t : Bytes) → t ≢ [] → find [] t ≡ none
unfolding find empty
find_nil [] h = absurd (h refl)
find_nil (c ∷ t) h = refl

-- What is not in a text is not in the text from some place on.
pub find-drop-none : (k : ℕ) (s t : Bytes) → t ≢ [] → find s t ≡ none → find (drop k s) t ≡ none
find-drop-none zero s t full h = h
find-drop-none (suc k) [] t full h = find_nil t full
find-drop-none (suc k) (c ∷ cs) t full h = find-drop-none k cs t full (unfold find in ground arith)
