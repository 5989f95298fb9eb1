-- ===== src/Http/Utils/Split/Laws.antt =====
-- `Split` and `Join` undo one another, up to a delimiter at the end.
use dytech.Prelude.{
  ℕ, ◌+◌, ◌≡◌, ◌≢◌, ◌⊎◌, inl, inr, refl, sym, ap, ◌∙◌, subst, none, some, List, [], ◌∷◌, ◌++◌,
  Bytes, arith, All, length, take, drop, length-append, drop-append, append_assoc, append-nil,
  take-append,
}
use dytech.Text.{find, starts_with, empty}
use dytech.Text.Find.{find_fits, find-split, find-take-none, find_nil, find-append}
use dytech.Http.Utils.{split, join}
use dytech.Http.Utils.Split.{Pieces, done, last, more, split-Pieces, Pieces-split, length-delim}

-- The delimiter does not occur in the text.
abbrev pub Lacks : Bytes → Bytes → Type 0
Lacks delim t = find t delim ≡ none

-- What `Join` gives back: the text, or the text less a delimiter at its end.
abbrev pub Rejoins : Bytes → Bytes → List Bytes → Type 0
Rejoins delim str ps = (join ps delim ≡ str) ⊎ (join ps delim ++ delim ≡ str)

pub join-cons :
    (t p delim : Bytes) (ps : List Bytes)
    → join (t ∷ p ∷ ps) delim ≡ t ++ (delim ++ join (p ∷ ps) delim)
unfolding join
join-cons t p delim [] = refl
join-cons t p delim (q ∷ ps) = refl

module _ (delim : Bytes) (full : delim ≢ []) where
  Pieces-Lacks : {str : Bytes} {ps : List Bytes} → Pieces delim str ps → All (Lacks delim) ps
  Pieces-Lacks (done e f) = tt
  Pieces-Lacks (last ne f) = (f, tt)
  Pieces-Lacks {str} (more {n} e p) = (
    find-take-none str delim n n e (omega (arith, length-delim delim full))
        (omega (arith, find_fits str delim n e)),
    Pieces-Lacks p,
  )

  Rejoins-more :
      {str : Bytes} {n : ℕ} {ps : List Bytes}
      → find str delim ≡ some n
      → Pieces delim (drop (n + length delim) str) ps
      → ((ps ≡ []) × (drop (n + length delim) str ≡ []))
        ⊎ ((ps ≢ []) × Rejoins delim (drop (n + length delim) str) ps)
      → Rejoins delim str (take n str ∷ ps)
  Rejoins-more {str} {n} {ps} e p (inl (z, w)) = inr (
      rw z (
        unfold join in
        ap (λ x. take n str ++ x) (sym (append-nil delim) ∙ ap (λ x. delim ++ x) (sym w))
        ∙ sym (find-split str delim n e)))
  Rejoins-more {ps = []} e p (inr (ne, r)) = absurd (ne refl)
  Rejoins-more {str} {n} {ps = q ∷ ps} e p (inr (ne, inl r)) =
      inl (join-cons (take n str) q delim ps ∙ rw r (sym (find-split str delim n e)))
  Rejoins-more {str} {n} {ps = q ∷ ps} e p (inr (ne, inr r)) = inr (
      rw (join-cons (take n str) q delim ps, append_assoc, append_assoc, r)
        (sym (find-split str delim n e)))

  Pieces-Rejoins :
      {str : Bytes} {ps : List Bytes}
      → Pieces delim str ps
      → ((ps ≡ []) × (str ≡ [])) ⊎ ((ps ≢ []) × Rejoins delim str ps)
  Pieces-Rejoins (done e f) = inl (refl, e)
  Pieces-Rejoins (last ne f) = inr ((λ q. cc), inl (unfold join in refl))
  Pieces-Rejoins (more e p) = inr ((λ q. cc), Rejoins-more e p (Pieces-Rejoins p))

-- No token of `Split` holds the delimiter, and `Join` of the tokens gives the text back, but for
-- a delimiter at the very end, which is lost.
pub join-split :
    (str delim : Bytes)
    → delim ≢ []
    → str ≢ []
    → All (Lacks delim) (split str delim) × Rejoins delim str (split str delim)
join-split str delim full ne =
    let p = Pieces-split str delim full in
    (
      Pieces-Lacks delim full p,
      elim (Pieces-Rejoins delim full p) [ inl (z, w) ↦ absurd (ne w) | inr (n, r) ↦ r ],
    )

-- The first delimiter behind the text is the one that was put there.
abbrev pub Clean : Bytes → Bytes → Type 0
Clean delim t = find (t ++ delim) delim ≡ some (length t)

-- Lines, each with the delimiter behind it.
abbrev pub terminated : List Bytes → Bytes → Bytes
terminated [] delim = []
terminated (l ∷ ls) delim = l ++ (delim ++ terminated ls delim)

pub drop_two : (x y z : Bytes) → drop (length x + length y) (x ++ (y ++ z)) ≡ z
drop_two x y z = rw (← length-append x y, ← append_assoc x y z) (drop-append (x ++ y) z)

module _ (delim : Bytes) where
  pub Pieces-cons :
      (t rest : Bytes) {ps : List Bytes}
      → Clean delim t
      → Pieces delim rest ps
      → Pieces delim (t ++ (delim ++ rest)) (t ∷ ps)
  Pieces-cons t rest {ps} c p =
      let found : find (t ++ (delim ++ rest)) delim ≡ some (length t) =
        ap (λ x. find x delim) (sym (append_assoc t delim rest))
        ∙ find-append (t ++ delim) rest delim (length t) c in
      subst (λ x. Pieces delim (t ++ (delim ++ rest)) (x ∷ ps)) (take-append t (delim ++ rest))
        (more found (subst (λ x. Pieces delim x ps) (sym (drop_two t delim rest)) p))

  pub Pieces-terminated :
      (ls : List Bytes) (rest : Bytes) {ps : List Bytes}
      → All (Clean delim) ls
      → Pieces delim rest ps
      → Pieces delim (terminated ls delim ++ rest) (ls ++ ps)
  Pieces-terminated [] rest c p = p
  Pieces-terminated (l ∷ ls) rest {ps} c p =
      subst (λ x. Pieces delim x (l ∷ (ls ++ ps)))
        (sym (
          append_assoc l _ rest ∙ ap (λ x. l ++ x) (append_assoc delim (terminated ls delim) rest)))
        (Pieces-cons l (terminated ls delim ++ rest) c.0 (Pieces-terminated ls rest c.1 p))

-- Lines that do not hold the delimiter come back from the text in which each has the delimiter
-- behind it; so do lines before a last one that has none behind it.
pub split-terminated :
    (ls : List Bytes) (delim : Bytes)
    → delim ≢ []
    → All (Clean delim) ls
    → split (terminated ls delim) delim ≡ ls
split-terminated ls delim full c =
    ap (λ x. split x delim) (sym (append-nil (terminated ls delim)))
    ∙ split-Pieces full (Pieces-terminated delim ls [] c (done refl (find_nil delim full)))
    ∙ append-nil ls

join-concat :
    (x : Bytes) (ls : List Bytes) (l delim : Bytes)
    → join (x ∷ (ls ++ l ∷ [])) delim ≡ x ++ (delim ++ join (ls ++ l ∷ []) delim)
join-concat x [] l delim = join-cons x l delim []
join-concat x (y ∷ ls) l delim = join-cons x y delim (ls ++ l ∷ [])

join-terminated :
    (ls : List Bytes) (l delim : Bytes) → join (ls ++ l ∷ []) delim ≡ terminated ls delim ++ l
join-terminated [] l delim = unfold join in refl
join-terminated (x ∷ ls) l delim =
    join-concat x ls l delim
    ∙ ap (λ y. x ++ (delim ++ y)) (join-terminated ls l delim)
    ∙ sym (append_assoc x _ l ∙ ap (λ y. x ++ y) (append_assoc delim (terminated ls delim) l))

-- `Split` after `Join`: the tokens come back if none of them holds the delimiter and the last is
-- not empty.
split-join :
    (ls : List Bytes) (l delim : Bytes)
    → delim ≢ []
    → All (Clean delim) ls
    → l ≢ []
    → Lacks delim l
    → split (join (ls ++ l ∷ []) delim) delim ≡ ls ++ l ∷ []
split-join ls l delim full c ne lacks =
    ap (λ x. split x delim) (join-terminated ls l delim)
    ∙ split-Pieces full (Pieces-terminated delim ls l c (last ne lacks))

-- For a delimiter of one byte, a text that lacks it is clean.
pub Clean-char : (d : ℕ) (t : Bytes) → Lacks (d ∷ []) t → Clean (d ∷ []) t
unfolding find starts_with empty
Clean-char d [] lacks = ground arith
Clean-char d (c ∷ t) lacks = ground (arith, Clean-char d t)

-- Only the empty text has no tokens.
pub split-eq-nil : (str delim : Bytes) → delim ≢ [] → split str delim ≡ [] → str ≡ []
split-eq-nil str delim full e = elim (Pieces-Rejoins delim full (Pieces-split str delim full)) [
  | inl (z, w) ↦ w
  | inr (n, r) ↦ absurd (n e)
]
