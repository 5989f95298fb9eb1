-- ===== src/Core/Cache/History.antt =====
-- A whole life of the cache: any row of its operations, wherever `std::make_shared` puts the nodes
-- and whatever the clock shows.
use dytech.Prelude.{
  ℕ, ◌≤◌, ◌<◌, ◌≡◌, ◌≢◌, refl, sym, ap, ◌∙◌, subst, Bool, Option, some, List, [], ◌∷◌, ◌++◌, Bytes,
  length, size_mod, NotIn,
}
use dytech.Core.Cache.{
  Ptr, Nodes, Cache, ◌>>=◌, try_load, try_insert, clear, make_cache, get_occupancy,
}
use dytech.Core.Cache.Links.{NotIn}
use dytech.Core.Cache.Repr.{Holds}
use dytech.Core.Cache.Evict.{keep}
use dytech.Core.Cache.Entries.{Entry, find_entry, touch, insert_entry, sizes, sizes-cells}
use dytech.Core.Cache.Lru.{Represents, cached, or_nothing, try_load-touch, try_insert-insert_entry}
use dytech.Core.Cache.Start.{make_cache-Represents, clear-Represents}

-- Where `std::make_shared` puts a node for so many bytes: not at a node that still exists, once the
-- oldest ones were dropped. The clock is read at each use of the cache.
pub record Allocator : Type 0 where
  pub fresh : Cache → ℕ → Ptr
  pub clock : Cache → ℕ
  pub fresh_new :
      (c : Cache) (ps : List Ptr) (size : ℕ)
      → Holds c ps
      → NotIn (fresh c size) (c.head ∷ (keep c.nodes.content c.capacity size ps ++ c.tail ∷ []))

-- The calls: a key and the destination's bytes, a key and the source's bytes, or `Clear`.
pub data Operation : Type 0 where
  load insert : Bytes → Bytes → Operation
  wipe : Operation

pub data Answer : Type 0 where
  loaded : Bool → Bytes → Answer
  inserted : Bool → Answer
  wiped : Answer

-- One call on the cache.
unfoldable pub perform : Allocator → Cache → Operation → Option (Answer × Cache)
perform a c (load key destination) = do
  (found, destination, c') ← try_load c key destination (a.clock c)
  some (loaded found destination, c')
perform a c (insert key source) = do
  (new, c') ← try_insert c key source (a.clock c) (a.fresh c (length source))
  some (inserted new, c')
perform a c wipe = do c' ← clear c; some (wiped, c')

unfoldable pub perform_all : Allocator → Cache → List Operation → Option (List Answer × Cache)
unfolding perform
perform_all a c [] = some ([], c)
perform_all a c (o ∷ os) = do
  (answer, c') ← perform a c o
  (answers, c'') ← perform_all a c' os
  some (answer ∷ answers, c'')

-- The same on a list of entries, the least recently used one first.
unfoldable pub respond : ℕ → List Entry → Operation → Answer × List Entry
respond capacity l (load key destination) =
    (loaded (cached (find_entry key l)) (destination ++ or_nothing (find_entry key l)), touch key l)
respond capacity l (insert key source) =
    let (new, l') = insert_entry capacity key source l in (inserted new, l')
respond capacity l wipe = (wiped, [])

unfoldable pub respond_all : ℕ → List Entry → List Operation → List Answer × List Entry
unfolding respond
respond_all capacity l [] = ([], l)
respond_all capacity l (o ∷ os) =
    let (answer, l') = respond capacity l o in
    let (answers, l'') = respond_all capacity l' os in (answer ∷ answers, l'')

module _ (a : Allocator) (capacity : ℕ) where
  perform-respond :
      (c : Cache) (ps : List Ptr) (l : List Entry) (o : Operation)
      → Represents c ps l
      → c.capacity ≡ capacity
      → (c' : Cache) × (ps' : List Ptr) × (perform a c o ≡ some ((respond capacity l o).0, c'))
        × Represents c' ps' (respond capacity l o).1
        × (c'.capacity ≡ capacity)
  unfolding perform respond
  perform-respond c ps l (load key destination) r e =
      let (c', ps', run, r', same) = try_load-touch c ps l key destination (a.clock c) r in
      (c', ps', rw run, r', same ∙ e)
  perform-respond c ps l (insert key source) r e =
      let (c', ps', run, r', same) =
        try_insert-insert_entry c ps l key source (a.clock c) (a.fresh c (length source)) r
          (a.fresh_new c ps (length source) r.holds) in
      (
        c',
        ps',
        rw run (ap (λ n. some (inserted (insert_entry n key source l).0, c')) e),
        subst (λ n. Represents c' ps' (insert_entry n key source l).1) e r',
        same ∙ e,
      )
  perform-respond c ps l wipe r e =
      let (c', run, r', same) = clear-Represents c ps l r in (c', [], rw run, r', same ∙ e)

  perform_all-Represents :
      (os : List Operation) (c : Cache) (ps : List Ptr) (l : List Entry)
      → Represents c ps l
      → c.capacity ≡ capacity
      → (c' : Cache) × (ps' : List Ptr) × (perform_all a c os
          ≡ some ((respond_all capacity l os).0, c'))
        × Represents c' ps' (respond_all capacity l os).1
        × (c'.capacity ≡ capacity)
  unfolding perform_all respond_all
  perform_all-Represents [] c ps l r e = (c, ps, refl, r, e)
  perform_all-Represents (o ∷ os) c ps l r e =
      let (c', ps', run, r', e') = perform-respond c ps l o r e in
      let (c'', ps'', run', r'', e'') =
        perform_all-Represents os c' ps' (respond capacity l o).1 r' e' in
      (c'', ps'', rw (run, run'), r'', e'')

  -- Any row of loads, insertions and clearings of a new cache runs without a fault and gives the
  -- answers that the list of entries gives: they depend neither on where the nodes are put nor on
  -- the clock. The occupancy is then the number of bytes that the entries hold, and within the
  -- capacity.
  pub perform_all-respond_all :
      (head tail : Ptr) (now : ℕ) (n : Nodes) (os : List Operation)
      → head ≢ tail
      → capacity < size_mod
      → let (answers, l) = respond_all capacity [] os in
        (c : Cache) × (perform_all a (make_cache capacity head tail now n) os ≡ some (answers, c))
        × (get_occupancy c ≡ sizes l)
        × (get_occupancy c ≤ capacity)
  unfolding get_occupancy make_cache
  perform_all-respond_all head tail now n os ne small =
      let (c, ps, run, r, e) =
        perform_all-Represents os (make_cache capacity head tail now n) [] []
          (make_cache-Represents capacity head tail now n ne small) refl in
      (
        c,
        run,
        r.holds.counted
            ∙ sym (sizes-cells c.nodes.identifier c.nodes.content ps)
            ∙ ap sizes r.entries,
        subst (λ m. c.occupancy ≤ m) e r.holds.fits,
      )
