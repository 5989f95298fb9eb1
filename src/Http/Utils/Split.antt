-- ===== src/Http/Utils/Split.antt =====
-- `Split` cuts a text at each delimiter, and `Join` puts it together again.
pub mod Free
pub mod Laws
use mathlib.Core.Option
use dytech.Prelude.{
  ℕ, zero, suc, ◌+◌, ◌-◌, ◌<◌, ◌≤◌, ◌≡◌, ◌≢◌, ◌⊎◌, inl, inr, refl, sym, ap, ◌∙◌, subst, none, some,
  List, [], ◌∷◌, ◌++◌, Bytes, arith, ◌==◌, length, take, drop, length-append, length-drop,
  length-take, drop-append, take_all, append_assoc, append-nil, Option-cases, if◌then◌else◌,
}
use dytech.Text.{empty, find, find_from, starts_with, substr}
use dytech.Text.Find.{find_fits, find-split, find_nil}
use dytech.Http.Utils.{split_loop, split}

-- How a text comes apart at a delimiter: a piece in front of each occurrence, found from left to
-- right, and what is left, if anything is.
pub data Pieces (delim : Bytes) : Bytes → List Bytes → Type 0 where
  done : {rest : Bytes} → rest ≡ [] → find rest delim ≡ none → Pieces delim rest []
  last : {rest : Bytes} → rest ≢ [] → find rest delim ≡ none → Pieces delim rest (rest ∷ [])
  more :
      {rest : Bytes} {n : ℕ} {ps : List Bytes}
      → find rest delim ≡ some n
      → Pieces delim (drop (n + length delim) rest) ps
      → Pieces delim rest (take n rest ∷ ps)

module _ (delim : Bytes) (full : delim ≢ []) where
  length-delim : 0 < length delim
  length-delim = go delim full
    where
      go : (d : Bytes) → d ≢ [] → 0 < length d
      go [] h = absurd (h refl)
      go (c ∷ d) h = omega arith

  pub Pieces-total :
      (f : ℕ) (rest : Bytes) → length rest < f → (ps : List Bytes) × Pieces delim rest ps
  Pieces-total zero rest h = absurd (omega arith)
  Pieces-total (suc f) rest h = elim (Option-cases (find rest delim)) [
    | inl e ↦ end rest e
    | inr (n, e) ↦
        let shorter : length (drop (n + length delim) rest) < f =
          omega
            (arith, length-drop (n + length delim) rest, find_fits rest delim n e, length-delim) in
        let (ps, p) = Pieces-total f (drop (n + length delim) rest) shorter in
        (take n rest ∷ ps, more e p)
  ]
    where
      end : (rest : Bytes) → find rest delim ≡ none → (ps : List Bytes) × Pieces delim rest ps
      end [] e = ([], done refl e)
      end (c ∷ cs) e = ((c ∷ cs) ∷ [], last (λ q. cc) e)

  length-Pieces : {rest : Bytes} {ps : List Bytes} → Pieces delim rest ps → length ps ≤ length rest
  length-Pieces (done e f) = omega arith
  length-Pieces {rest = []} (last ne f) = absurd (ne refl)
  length-Pieces {rest = c ∷ cs} (last ne f) = omega arith
  length-Pieces {rest} (more {n} e p) = omega (
    arith,
    length-Pieces p,
    length-drop (n + length delim) rest,
    find_fits rest delim n e,
    length-delim,
  )

-- What `find` from the end of `before` finds.
find_from-append :
    (before rest delim : Bytes)
    → find_from (before ++ rest) delim (length before)
      ≡ Option.map (λ n. length before + n) (find rest delim)
unfolding find_from
find_from-append before rest delim =
    rw (drop-append before rest) (ground (arith, length-append before rest))

substr-append :
    (before rest : Bytes) (n : ℕ) → substr (before ++ rest) (length before) n ≡ take n rest
unfolding substr
substr-append before rest n = rw (drop-append before rest)

split_loop-some :
    (f : ℕ) (str delim : Bytes) (curr : ℕ) (tokens : List Bytes) {next : ℕ}
    → find_from str delim curr ≡ some next
    → split_loop (suc f) str delim curr tokens
      ≡ split_loop f str delim (next + length delim) (tokens ++ substr str curr (next - curr) ∷ [])
unfolding split_loop
split_loop-some f str delim curr tokens e = rw (e, split_loop)

split_loop-none :
    (f : ℕ) (str delim : Bytes) (curr : ℕ) (tokens : List Bytes)
    → find_from str delim curr ≡ none
    → split_loop (suc f) str delim curr tokens
      ≡ some (
          if curr == length str then tokens else tokens ++ substr str curr (length str - curr) ∷ [])
unfolding split_loop
split_loop-none f str delim curr tokens e = rw (e, split_loop)

-- The loop at the end of a piece that a delimiter follows.
split_loop-more :
    (delim rest before : Bytes) (n f : ℕ) (tokens : List Bytes)
    → find rest delim ≡ some n
    → split_loop (suc f) (before ++ rest) delim (length before) tokens
      ≡ split_loop f
          ((before ++ (take n rest ++ delim)) ++ drop (n + length delim) rest)
          delim
          (length (before ++ (take n rest ++ delim)))
          (tokens ++ take n rest ∷ [])
split_loop-more delim rest before n f tokens e =
    let from : find_from (before ++ rest) delim (length before) ≡ some (length before + n) =
      find_from-append before rest delim ∙ rw e in
    let whole : (before ++ (take n rest ++ delim)) ++ drop (n + length delim) rest
        ≡ before ++ rest =
      append_assoc before _ _
      ∙ ap (λ x. before ++ x)
          (append_assoc (take n rest) delim _ ∙ sym (find-split rest delim n e)) in
    let size : length (before ++ (take n rest ++ delim)) ≡ length before + n + length delim =
      omega (
        arith,
        length-append before (take n rest ++ delim),
        length-append (take n rest) delim,
        length-take n rest,
        find_fits rest delim n e,
      ) in
    let cut : substr (before ++ rest) (length before) (length before + n - length before)
        ≡ take n rest =
      substr-append before rest _ ∙ ap (λ k. take k rest) (omega arith) in
    split_loop-some f (before ++ rest) delim (length before) tokens from ∙ rw (whole, size, cut)

-- The list that the source returns at the end of the loop.
abbrev final : Bytes → ℕ → List Bytes → List Bytes
final str curr tokens =
    if curr == length str then tokens else tokens ++ substr str curr (length str - curr) ∷ []

final-nil :
    (before : Bytes) (tokens : List Bytes)
    → final (before ++ []) (length before) tokens ≡ tokens ++ []
final-nil before tokens = rw (append-nil before, append-nil tokens) (ground arith)

final-cons :
    (before : Bytes) (c : ℕ) (cs : Bytes) (tokens : List Bytes)
    → final (before ++ c ∷ cs) (length before) tokens ≡ tokens ++ (c ∷ cs) ∷ []
final-cons before c cs tokens =
    let size = length-append before (c ∷ cs) in
    let left : length (before ++ c ∷ cs) - length before ≡ length (c ∷ cs) = omega arith in
    ground (
      arith,
      substr-append before (c ∷ cs) (length (before ++ c ∷ cs) - length before),
      take_all (length (c ∷ cs)) (c ∷ cs),
    )

-- The loop follows the pieces.
split_loop-Pieces :
    (delim : Bytes) (f : ℕ) (before : Bytes) (tokens : List Bytes) {rest : Bytes} {ps : List Bytes}
    → Pieces delim rest ps
    → length ps < f
    → split_loop f (before ++ rest) delim (length before) tokens ≡ some (tokens ++ ps)
split_loop-Pieces delim zero before tokens p h = absurd (omega arith)
split_loop-Pieces delim (suc f) before tokens {rest} (done e g) h =
    split_loop-none f (before ++ rest) delim (length before) tokens
      (find_from-append before rest delim ∙ rw g)
    ∙ rw e (ap some (final-nil before tokens))
split_loop-Pieces delim (suc f) before tokens {rest = []} (last ne g) h = absurd (ne refl)
split_loop-Pieces delim (suc f) before tokens {rest = c ∷ cs} (last ne g) h =
    split_loop-none f (before ++ c ∷ cs) delim (length before) tokens
      (find_from-append before (c ∷ cs) delim ∙ rw g)
    ∙ ap some (final-cons before c cs tokens)
split_loop-Pieces delim (suc f) before tokens {rest} (more {n} {ps} e p) h =
    split_loop-more delim rest before n f tokens e
    ∙ split_loop-Pieces delim f (before ++ (take n rest ++ delim)) (tokens ++ take n rest ∷ []) p
        (omega arith)
    ∙ ap some (append_assoc tokens (take n rest ∷ []) ps)

-- `Split` returns the pieces, and has fuel enough for them.
pub split-Pieces :
    {delim str : Bytes} {ps : List Bytes} → delim ≢ [] → Pieces delim str ps → split str delim ≡ ps
unfolding split empty
split-Pieces {delim} {str = []} full (done e g) = refl
split-Pieces {delim} {str = []} full (last ne g) = absurd (ne refl)
split-Pieces {delim} {str = []} full (more e p) = absurd (cc (find_nil delim full))
split-Pieces {delim} {str = c ∷ cs} {ps} full p =
    ap (λ o. Option.get_or o [])
      (split_loop-Pieces delim (suc (length (c ∷ cs))) [] [] p
        (omega (arith, length-Pieces delim full p)))

split_loop-full :
    (str delim : Bytes)
    → delim ≢ []
    → split_loop (suc (length str)) str delim 0 [] ≡ some (split str delim)
split_loop-full str delim full =
    let (ps, p) = Pieces-total delim full (suc (length str)) str (omega arith) in
    split_loop-Pieces delim (suc (length str)) [] [] p (omega (arith, length-Pieces delim full p))
    ∙ ap some (sym (split-Pieces full p))

-- An empty delimiter is found where the search begins, so the loop stays there.
split_loop-stays : (f : ℕ) (str : Bytes) (tokens : List Bytes) → split_loop f str [] 0 tokens ≡ none
unfolding split_loop find_from find starts_with empty
split_loop-stays zero str tokens = refl
split_loop-stays (suc f) str tokens =
    split_loop-some f str [] 0 tokens (at_once str)
    ∙ split_loop-stays f str (tokens ++ substr str 0 0 ∷ [])
  where
    at_once : (str : Bytes) → find_from str [] 0 ≡ some 0
    at_once [] = ground arith
    at_once (c ∷ cs) = ground arith

-- The loop of `Split` ends exactly for a delimiter that is not empty: there it needs no more rounds
-- than the text has bytes and one, and comes to what `Split` returns; for an empty delimiter no number
-- of rounds is enough.
pub split_loop_ends :
    (str delim : Bytes)
    → ((delim ≢ []) × (split_loop (suc (length str)) str delim 0 [] ≡ some (split str delim)))
      ⊎ ((delim ≡ []) × ((f : ℕ) → split_loop f str delim 0 [] ≡ none))
split_loop_ends str [] = inr (refl, (λ f. split_loop-stays f str []))
split_loop_ends str (c ∷ cs) =
    let full : c ∷ cs ≢ [] = λ e. cc in inl (full, split_loop-full str (c ∷ cs) full)

pub Pieces-split : (str delim : Bytes) → delim ≢ [] → Pieces delim str (split str delim)
Pieces-split str delim full =
    let (ps, p) = Pieces-total delim full (suc (length str)) str (omega arith) in
    subst (Pieces delim str) (sym (split-Pieces full p)) p
