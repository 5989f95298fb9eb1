-- ===== src/Core/Cache/Links/Chains.antt =====
-- A row of nodes that the pointers lead through, both ways, and what stays of it when a node is
-- taken out or put in.
use dytech.Prelude.{NotIn, Distinct, ◌≡◌, ◌≢◌, sym, ◌∙◌, subst, List, [], ◌∷◌, ◌++◌, arith, All}
use dytech.Core.Cache.{Ptr, update}

-- From `a` the pointers lead through the nodes of the list, both ways.
abbrev pub Chain : (Ptr → Ptr) → (Ptr → Ptr) → Ptr → List Ptr → Type 0
Chain next prev a [] = Unit {0}
Chain next prev a (b ∷ l) = (next a ≡ b) × (prev b ≡ a) × Chain next prev b l

pub NotIn-append : (p : Ptr) (xs ys : List Ptr) → NotIn p (xs ++ ys) → NotIn p xs × NotIn p ys
NotIn-append p [] ys h = (tt, h)
NotIn-append p (x ∷ xs) ys h = let (a, b) = NotIn-append p xs ys (h.1) in ((h.0, a), b)

pub NotIn-join : (p : Ptr) (xs ys : List Ptr) → NotIn p xs → NotIn p ys → NotIn p (xs ++ ys)
NotIn-join p [] ys a b = b
NotIn-join p (x ∷ xs) ys a b = (a.0, NotIn-join p xs ys a.1 b)

module _ (next prev : Ptr → Ptr) where
  -- The node before one of the list is not one that stands elsewhere.
  pub prev_ne :
      (q p a : Ptr) (xs rest : List Ptr)
      → Chain next prev a (xs ++ p ∷ rest)
      → q ≢ a
      → NotIn q xs
      → prev p ≢ q
  prev_ne q p a [] rest c ne out = λ e. ne (sym e ∙ c.1)
  prev_ne q p a (x ∷ xs) rest c ne out = prev_ne q p x xs rest c.2 out.0 out.1

  pub Chain-frame :
      (a b va vb c : Ptr) (l : List Ptr)
      → Chain next prev c l
      → a ≢ c
      → NotIn a l
      → NotIn b l
      → Chain (update next a va) (update prev b vb) c l
  unfolding update
  Chain-frame a b va vb c [] h ne na nb = tt
  Chain-frame a b va vb c (d ∷ l) h ne na nb =
      (ground (arith), ground arith, Chain-frame a b va vb d l h.2 na.0 na.1 nb.1)

  pub Chain-detach :
      (p b a : Ptr) (xs rest : List Ptr)
      → Chain next prev a (xs ++ p ∷ b ∷ rest)
      → Distinct (a ∷ (xs ++ p ∷ b ∷ rest))
      → Chain (update next (prev p) b) (update prev b (prev p)) a (xs ++ b ∷ rest)
  unfolding update
  Chain-detach p b a [] rest c d =
      let ne : prev p ≢ b = λ e. d.0.1.0 (sym c.1 ∙ e) in
      let out : NotIn (prev p) rest = subst (λ q. NotIn q rest) (sym c.1) d.0.1.1 in
      (ground arith, ground arith, Chain-frame (prev p) b b (prev p) b rest c.2.2 ne out d.1.1.0)
  Chain-detach p b a (x ∷ xs) rest c d =
      let before = NotIn-append a xs (p ∷ b ∷ rest) d.0.1 in
      let ne = prev_ne a p x xs (b ∷ rest) c.2 d.0.0 before.0 in
      let ahead = NotIn-append x xs (p ∷ b ∷ rest) d.1.0 in
      let ne' : x ≢ b = ahead.1.1.0 in
      (ground arith, ground arith, Chain-detach p b x xs rest c.2 d.1)

  pub Chain-concat :
      (p t a : Ptr) (xs : List Ptr)
      → Chain next prev a (xs ++ t ∷ [])
      → Distinct (a ∷ (xs ++ t ∷ []))
      → NotIn p (a ∷ (xs ++ t ∷ []))
      → Chain
          (update (update next (prev t) p) p t)
          (update (update prev t p) p (prev t))
          a
          (xs ++ p ∷ t ∷ [])
  unfolding update
  Chain-concat p t a [] c d out = (ground arith, ground arith, (ground arith, ground arith, tt))
  Chain-concat p t a (x ∷ xs) c d out =
      let before = NotIn-append a xs (t ∷ []) d.0.1 in
      let ne = prev_ne a t x xs [] c.2 d.0.0 before.0 in
      let ahead = NotIn-append x xs (t ∷ []) d.1.0 in
      let ne' : x ≢ t = ahead.1.0 in
      (ground arith, ground arith, Chain-concat p t x xs c.2 d.1 out.1)

  pub prev-All :
      (P : Ptr → Type 0) (p a : Ptr) (xs rest : List Ptr)
      → Chain next prev a (xs ++ p ∷ rest)
      → P a
      → All P (xs ++ p ∷ rest)
      → P (prev p)
  prev-All P p a [] rest c h l = subst P (sym c.1) h
  prev-All P p a (x ∷ xs) rest c h l = prev-All P p x xs rest c.2 l.0 l.1

  pub next-Chain :
      (p b a : Ptr) (xs rest : List Ptr) → Chain next prev a (xs ++ p ∷ b ∷ rest) → next p ≡ b
  next-Chain p b a [] rest c = c.2.0
  next-Chain p b a (x ∷ xs) rest c = next-Chain p b x xs rest c.2

pub All-remove :
    (P : Ptr → Type 0) (xs : List Ptr) (p : Ptr) (rest : List Ptr)
    → All P (xs ++ p ∷ rest)
    → P p × All P (xs ++ rest)
All-remove P [] p rest h = h
All-remove P (x ∷ xs) p rest h = let (a, b) = All-remove P xs p rest h.1 in (a, (h.0, b))

NotIn-remove :
    (q : Ptr) (xs : List Ptr) (p : Ptr) (rest : List Ptr)
    → NotIn q (xs ++ p ∷ rest)
    → (q ≢ p) × NotIn q (xs ++ rest)
NotIn-remove q [] p rest h = h
NotIn-remove q (x ∷ xs) p rest h = let (a, b) = NotIn-remove q xs p rest h.1 in (a, (h.0, b))

pub Distinct-remove :
    (xs : List Ptr) (p : Ptr) (rest : List Ptr)
    → Distinct (xs ++ p ∷ rest)
    → NotIn p (xs ++ rest) × Distinct (xs ++ rest)
Distinct-remove [] p rest h = h
Distinct-remove (x ∷ xs) p rest h =
    let (a, b) = Distinct-remove xs p rest h.1 in
    let (c, d) = NotIn-remove x xs p rest h.0 in (((λ e. c (sym e)), a), (d, b))

pub Distinct-insert :
    (xs : List Ptr) (p : Ptr) (rest : List Ptr)
    → NotIn p (xs ++ rest)
    → Distinct (xs ++ rest)
    → Distinct (xs ++ p ∷ rest)
Distinct-insert [] p rest h d = (h, d)
Distinct-insert (x ∷ xs) p rest h d =
    let (a, b) = NotIn-append x xs rest d.0 in
    (NotIn-join x xs (p ∷ rest) a ((λ e. h.0 (sym e)), b), Distinct-insert xs p rest h.1 d.1)

pub All-insert :
    (P : Ptr → Type 0) (xs : List Ptr) (p : Ptr) (rest : List Ptr)
    → P p
    → All P (xs ++ rest)
    → All P (xs ++ p ∷ rest)
All-insert P [] p rest a h = (a, h)
All-insert P (x ∷ xs) p rest a h = (h.0, All-insert P xs p rest a h.1)
