-- ===== src/Tests/Units/Cache.antt =====
-- test/core/cache_test.cc.
use dytech.Prelude.{
  ℕ, zero, suc, ◌+◌, ◌*◌, ◌/◌, ◌≡◌, refl, Bool, true, false, not, Option, none, some, List, [], ◌∷◌,
  ◌++◌, Bytes, length, ◌==◌,
}
use dytech.Text.{codes, equal, to_string}
use dytech.Core.Cache.{
  Cache, Nodes, ◌>>=◌, update, make_cache, get_occupancy, get_capacity, try_load, try_insert,
}
use dytech.Tests.Allocation.{sum, allocator}
use dytech.Tests.Units.{checks}

abbrev capacity : ℕ
capacity = 20

-- "hello!"
abbrev hello : Bytes
hello = codes "hello!"

abbrev url : ℕ → Bytes
url i = codes "url" ++ to_string i

-- The checks that were made, and the cache.
abbrev Checked : Type 0
Checked = Option (List Bool × Cache)

-- The first loop: the data is cached up to the capacity.
unfoldable fill : ℕ → ℕ → Cache → Checked
fill zero i cache = some ([], cache)
fill (suc count) i cache = do
  (cache_success, filled) ←
      try_insert cache (url i) hello (allocator.clock cache) (allocator.fresh cache (length hello))
  (done, cache) ← fill count (i + 1) filled
  some (cache_success ∷ (get_occupancy filled == i * length hello) ∷ done, cache)

-- The second loop: the checks, what was read, and the cache.
unfoldable read_all : ℕ → ℕ → Bytes → Cache → Option (List Bool × Bytes × Cache)
read_all zero i read_buf cache = some ([], read_buf, cache)
read_all (suc count) i read_buf cache = do
  (load_success, read_buf, cache) ← try_load cache (url i) read_buf (allocator.clock cache)
  (done, read_buf, cache) ← read_all count (i + 1) read_buf cache
  some (load_success ∷ done, read_buf, cache)

-- The next insertion evicts the first resource.
unfoldable pub caches_and_evicts : Nodes → Bool
unfolding fill read_all
caches_and_evicts nodes =
    let cache = make_cache capacity 1 2 0 nodes in
    let rounds = capacity / length hello in
    elim (do
      (filled, cache) ← fill rounds 1 cache
      (found, read_buf, cache) ← read_all rounds 1 [] cache
      (cache_success, cache) ←
          try_insert cache (url 4) hello (allocator.clock cache)
            (allocator.fresh cache (length hello))
      (load_success, read_buf', cache) ← try_load cache (url 1) read_buf (allocator.clock cache)
      some (
          (get_occupancy (make_cache capacity 1 2 0 nodes) == 0)
          ∷ (get_capacity (make_cache capacity 1 2 0 nodes) == capacity)
          ∷ (filled
              ++ (found
                  ++ ((length read_buf == rounds * length hello)
                      ∷ cache_success
                      ∷ not load_success
                      ∷ []))))) [ none ↦ false | some made ↦ checks made ]

caches_and_evicts_passes : (nodes : Nodes) → caches_and_evicts nodes ≡ true
unfolding caches_and_evicts fill read_all make_cache get_occupancy get_capacity try_load try_insert
    equal to_string update sum
caches_and_evicts_passes nodes = refl
