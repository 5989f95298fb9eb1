-- ===== src/Core/Cache/Repr.antt =====
-- What a cache represents: the map and the list hold the same nodes, each under its own key.
use dytech.Prelude.{
  ℕ, ◌+◌, ◌≤◌, ◌<◌, ◌≡◌, ◌≢◌, ◌⊎◌, inl, inr, sym, ap, ◌∙◌, some, List, [], ◌∷◌, ◌++◌, All, arith,
  Bytes, length, size_mod,
}
use dytech.Core.Cache.{Ptr, Cache, find}
use dytech.Core.Cache.Links.{Linked, NotIn}

abbrev pub In : Ptr → List Ptr → Type 0
In p [] = ⊥
In p (q ∷ l) = (p ≡ q) ⊎ In p l

pub In-split :
    (p : Ptr) (l : List Ptr) → In p l → (xs : List Ptr) × (ys : List Ptr) × (l ≡ xs ++ p ∷ ys)
In-split p [] i = elim i [ ]
In-split p (q ∷ l) (inl e) = ([], l, ap (λ z. z ∷ l) (sym e))
In-split p (q ∷ l) (inr i) = let (xs, ys, e) = In-split p l i in (q ∷ xs, ys, ap (λ z. q ∷ z) e)

pub In-left : (p : Ptr) (xs ys : List Ptr) → In p xs → In p (xs ++ ys)
In-left p [] ys i = elim i [ ]
In-left p (x ∷ xs) ys (inl e) = inl e
In-left p (x ∷ xs) ys (inr i) = inr (In-left p xs ys i)

pub In-right : (p : Ptr) (xs ys : List Ptr) → In p ys → In p (xs ++ ys)
In-right p [] ys i = i
In-right p (x ∷ xs) ys i = inr (In-right p xs ys i)

pub In-append : (p : Ptr) (xs ys : List Ptr) → In p (xs ++ ys) → In p xs ⊎ In p ys
In-append p [] ys i = inr i
In-append p (x ∷ xs) ys (inl e) = inl (inl e)
In-append p (x ∷ xs) ys (inr i) = elim (In-append p xs ys i) [ inl a ↦ inl (inr a) | inr b ↦ inr b ]

pub In-NotIn : (p q : Ptr) (l : List Ptr) → In p l → NotIn q l → p ≢ q
In-NotIn p q [] i out = elim i [ ]
In-NotIn p q (x ∷ l) (inl e) out = λ e'. out.0 (sym e' ∙ e)
In-NotIn p q (x ∷ l) (inr i) out = In-NotIn p q l i out.1

-- The bytes that the nodes of a list hold.
abbrev pub total : (Ptr → Bytes) → List Ptr → ℕ
total content [] = 0
total content (p ∷ ps) = length (content p) + total content ps

-- The keys and contents of the nodes of a list.
abbrev pub cells : (Ptr → Bytes) → (Ptr → Bytes) → List Ptr → List (Bytes × Bytes)
cells identifier content [] = []
cells identifier content (p ∷ ps) = (identifier p, content p) ∷ cells identifier content ps

-- An entry of the map leads to a node of the list with its key.
abbrev pub Keyed : (Ptr → Bytes) → List Ptr → Bytes × Ptr → Type 0
Keyed identifier ps e = In (e.1) ps × (identifier (e.1) ≡ e.0)

-- The cache holds the nodes `ps`, the least recently used one first.
pub record Holds (c : Cache) (ps : List Ptr) : Type 0 where
  pub linked : Linked c.nodes c.head c.tail ps
  pub sound :
      (key : Bytes) (p : Ptr) → find key c.mapping ≡ some p → In p ps × (c.nodes.identifier p ≡ key)
  pub complete : (p : Ptr) → In p ps → find (c.nodes.identifier p) c.mapping ≡ some p
  pub keyed : All (Keyed c.nodes.identifier ps) c.mapping
  pub counted : c.occupancy ≡ total c.nodes.content ps
  pub fits : c.occupancy ≤ c.capacity
  pub small : c.capacity < size_mod

pub In-middle : (p q : Ptr) (xs ys : List Ptr) → In p (xs ++ q ∷ ys) → (p ≡ q) ⊎ In p (xs ++ ys)
In-middle p q [] ys i = i
In-middle p q (x ∷ xs) ys (inl e) = inr (inl e)
In-middle p q (x ∷ xs) ys (inr i) = elim (In-middle p q xs ys i) [
  | inl a ↦ inl a
  | inr b ↦ inr (inr b)
]

pub In-there : (p q : Ptr) (xs ys : List Ptr) → In p (xs ++ ys) → In p (xs ++ q ∷ ys)
In-there p q [] ys i = inr i
In-there p q (x ∷ xs) ys (inl e) = inl e
In-there p q (x ∷ xs) ys (inr i) = inr (In-there p q xs ys i)

pub total-append :
    (content : Ptr → Bytes) (xs ys : List Ptr)
    → total content (xs ++ ys) ≡ total content xs + total content ys
total-append content [] ys = omega arith
total-append content (x ∷ xs) ys = let h = total-append content xs ys in omega arith
