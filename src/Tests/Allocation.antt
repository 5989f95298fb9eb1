-- ===== src/Tests/Allocation.antt =====
-- Addresses for the nodes of a cache.
use dytech.Prelude.{
  ℕ, ◌+◌, ◌≤◌, ◌≡◌, ◌≢◌, refl, some, List, [], ◌∷◌, Bytes, arith, NotIn, ltb, Bool-cases, inl, inr,
}
use dytech.Text.{equal}
use dytech.Core.Cache
use dytech.Core.Cache.{Ptr, Nodes, Cache, make_cache}
use dytech.Core.Cache.Links.{NotIn-join}
use dytech.Core.Cache.Repr.{In, total}
use dytech.Core.Cache.Evict.{keep}
use dytech.Core.Cache.History.{Allocator}

-- An address behind those that the cache uses.
unfoldable pub sum : List (Bytes × Ptr) → ℕ
sum [] = 0
sum ((k, p) ∷ m) = p + sum m

pub find-sum :
    (key : Bytes) (m : List (Bytes × Ptr)) (p : Ptr) → Cache.find key m ≡ some p → p ≤ sum m
unfolding Cache.find sum
find-sum key [] p e = cc
find-sum key ((k, q) ∷ m) p e = elim (Bool-cases (equal k key)) [
  | inl same ↦ ground arith
  | inr differs ↦ ground (arith, find-sum key m p (ground arith))
]

pub NotIn-keep :
    (q : Ptr) (content : Ptr → Bytes) (capacity size : ℕ) (ps : List Ptr)
    → NotIn q ps
    → NotIn q (keep content capacity size ps)
NotIn-keep q content capacity size [] out = out
NotIn-keep q content capacity size (p ∷ ps) out =
    elim (Bool-cases (ltb capacity (total content (p ∷ ps) + size))) [
      | inl more ↦ rw more (NotIn-keep q content capacity size ps out.1)
      | inr fits ↦ rw fits out
    ]

pub NotIn-In : (q : Ptr) (ps : List Ptr) → ((p : Ptr) → In p ps → q ≢ p) → NotIn q ps
NotIn-In q [] h = tt
NotIn-In q (p ∷ ps) h = (h p (inl refl), NotIn-In q ps (λ r i. h r (inr i)))

abbrev pub allocator : Allocator
allocator = record {
  fresh = λ c size. c.head + c.tail + sum c.mapping + 1;
  clock = λ c. 0;
  fresh_new = λ c ps size h.
      let out =
        NotIn-In (c.head + c.tail + sum c.mapping + 1) ps
          (λ p i e. omega (arith, find-sum (c.nodes.identifier p) c.mapping p (h.complete p i))) in
      (
        (λ e. omega arith),
        NotIn-join _ (keep c.nodes.content c.capacity size ps) (c.tail ∷ [])
            (NotIn-keep _ c.nodes.content c.capacity size ps out) ((λ e. omega arith), tt),
      );
}
