-- ===== src/Core/Cache/Start.antt =====
-- The cache at its start and after `Clear`: it holds nothing.
use dytech.Prelude.{
  ℕ, ◌<◌, ◌≡◌, ◌≢◌, refl, ◌∙◌, Bool, true, false, some, List, [], ◌∷◌, arith, Bytes, size_mod, All,
  All-map,
}
use dytech.Core.Cache.{
  Ptr, Nodes, Cache, update, find, make_node, make_cache, kill_all, clear, set_next, set_prev,
}
use dytech.Core.Cache.Links.{NotIn, NotIn-append, update_ne, All-remove, Distinct-remove}
use dytech.Core.Cache.Repr.{In-NotIn, Keyed}
use dytech.Core.Cache.Insert.{update_at}
use dytech.Core.Cache.Lru.{Represents}
use dytech.Core.Cache.Entries.{Entry}

-- A new cache holds no entry.
pub make_cache-Represents :
    (capacity : ℕ) (head tail : Ptr) (now : ℕ) (n : Nodes)
    → head ≢ tail
    → capacity < size_mod
    → Represents (make_cache capacity head tail now n) [] []
unfolding make_cache make_node find update
make_cache-Represents capacity head tail now n ne small = record {
  holds = record {
    linked = record {
      chain = (ground arith, ground arith, tt);
      exist = (ground arith, (ground arith, tt));
      distinct = ((ne, tt), (tt, tt));
    };
    sound = λ key p e. ground arith;
    complete = λ p i. elim i [ ];
    keyed = tt;
    counted = refl;
    fits = omega arith;
    small = small;
  };
  entries = refl;
}

kill_all-other :
    (q : Ptr) (m : List (Bytes × Ptr)) (alive : Ptr → Bool)
    → All (λ e. (e.1) ≢ q) m
    → kill_all m alive q ≡ alive q
unfolding kill_all
kill_all-other q [] alive h = refl
kill_all-other q ((k, p) ∷ m) alive h =
    update_ne (kill_all m alive) false h.0 ∙ kill_all-other q m alive h.1

-- `Clear` empties the cache, without a fault, and keeps its capacity.
pub clear-Represents :
    (c : Cache) (ps : List Ptr) (l : List Entry)
    → Represents c ps l
    → (c' : Cache) × (clear c ≡ some c') × Represents c' [] [] × (c'.capacity ≡ c.capacity)
unfolding clear set_next set_prev find
clear-Represents c ps l r =
    let h = r.holds in
    let n = c.nodes in
    let live_tail = (All-remove (λ q. n.alive q ≡ true) (c.head ∷ ps) c.tail [] h.linked.exist).0 in
    let live_head = h.linked.exist.0 in
    let out_head = NotIn-append c.head ps (c.tail ∷ []) h.linked.distinct.0 in
    let out_tail = (Distinct-remove (c.head ∷ ps) c.tail [] h.linked.distinct).0 in
    let out_tail' = (NotIn-append c.tail ps [] out_tail.1).0 in
    let stays = λ (q : Ptr) (out : NotIn q ps). kill_all-other q c.mapping n.alive (
      All-map (Keyed n.identifier ps) (λ e. (e.1) ≢ q) c.mapping
        (λ e k. In-NotIn (e.1) q ps k.0 out) h.keyed) in
    (
      record c {
        mapping = [];
        occupancy = 0;
        nodes = record n {
          alive = kill_all c.mapping n.alive;
          next = update n.next c.head c.tail;
          prev = update n.prev c.tail c.head;
        };
      },
      simp (live_head, live_tail),
      record {
        holds = record {
          linked = record {
            chain = (update_at n.next c.head c.tail, update_at n.prev c.tail c.head, tt);
            exist = (stays c.head out_head.0 ∙ live_head, (stays c.tail out_tail' ∙ live_tail, tt));
            distinct = ((out_head.1.0, tt), (tt, tt));
          };
          sound = λ key p e. ground arith;
          complete = λ p i. elim i [ ];
          keyed = tt;
          counted = refl;
          fits = omega arith;
          small = h.small;
        };
        entries = refl;
      },
      refl,
    )
