-- ===== src/Demo/LruStore.antt =====
-- The cache of core/cache.cc is such a cache, whatever addresses `std::make_shared` gives it.
use dytech.Prelude.{ℕ, ◌≡◌, ap, ◌∙◌, subst, some, List, length}
use dytech.Core.Cache.{Ptr, Cache, try_load, try_insert}
use dytech.Core.Cache.Entries.{Entry, insert_entry}
use dytech.Core.Cache.Lru.{Represents, try_load-touch, try_insert-insert_entry}
use dytech.Core.Cache.History.{Allocator}
use dytech.Demo.ResourceCache.{ResourceCache}

-- The cache has this capacity and holds these entries, in some nodes.
abbrev pub Stores : ℕ → Cache → List Entry → Type 0
Stores capacity c l = (ps : List Ptr) × Represents c ps l × (c.capacity ≡ capacity)

abbrev pub lru_store : Allocator → ℕ → ResourceCache
lru_store a capacity = record {
  State = Cache;
  try_load = λ c key destination. try_load c key destination (a.clock c);
  try_insert = λ c key source. try_insert c key source (a.clock c) (a.fresh c (length source));
  capacity = capacity;
  Contains = Stores capacity;
  load_lem = λ c l key destination h.
      let (ps, r, e) = h in
      let (c', ps', run, r', e') = try_load-touch c ps l key destination (a.clock c) r in
      (c', run, (ps', r', e' ∙ e));
  insert_lem = λ c l key source h.
      let (ps, r, e) = h in
      let (c', ps', run, r', e') =
        try_insert-insert_entry c ps l key source (a.clock c) (a.fresh c (length source)) r
          (a.fresh_new c ps (length source) r.holds) in
      (
        c',
        run ∙ ap (λ n. some ((insert_entry n key source l).0, c')) e,
        (ps', subst (λ n. Represents c' ps' (insert_entry n key source l).1) e r', e' ∙ e),
      );
}
