-- ===== src/Core/Cache/Insert/Room.antt =====
-- `TryInsert` on every branch: it makes room and inserts.
use dytech.Prelude.{
  ℕ, ◌+◌, ◌≤◌, ◌<◌, ◌≡◌, inl, inr, refl, sym, ap, ◌∙◌, subst, true, false, none, some, List, [],
  ◌∷◌, ◌++◌, arith, Bytes, length, Option-cases, lt→ltb, ltb, if◌then◌else◌,
}
use dytech.Core.Cache.{Ptr, Cache, update, find, insert_unless, insert_room, try_insert}
use dytech.Core.Cache.Links.{NotIn, bind-some}
use dytech.Core.Cache.Repr.{total, Holds}
use dytech.Core.Cache.Evict.{Fewer, keep}
use dytech.Core.Cache.Evict.Rounds.{keep-room, make_room-Holds}
use dytech.Core.Cache.Insert.{insert_node-Holds, found_first}

Fewer-room :
    (size : ℕ) (ps : List Ptr) {c c' : Cache}
    → Fewer c c' (keep c.nodes.content c.capacity size ps)
    → size ≤ c.capacity
    → c'.occupancy + size ≤ c'.capacity
Fewer-room size ps {c} {c'} f le =
    let kept = keep c.nodes.content c.capacity size ps in
    let room = keep-room c.nodes.content c.capacity size ps le in
    let counted : c'.occupancy ≡ total c.nodes.content kept =
      f.holds.counted ∙ ap (λ z. total z kept) f.content in
    let capacity = f.capacity in omega arith

-- A resource that the cache has is not inserted, and nothing changes.
pub try_insert_present :
    (c : Cache) (key source : Bytes) (now : ℕ) (fresh p : Ptr)
    → find key c.mapping ≡ some p
    → try_insert c key source now fresh ≡ some (false, c)
unfolding try_insert insert_unless
try_insert_present c key source now fresh p e = ap (λ o. insert_unless c o key source now fresh) e

-- Neither is one that is larger than the capacity.
pub try_insert_large :
    (c : Cache) (key source : Bytes) (now : ℕ) (fresh : Ptr)
    → c.capacity < length source
    → try_insert c key source now fresh ≡ some (false, c)
unfolding try_insert insert_unless
try_insert_large c key source now fresh large = elim (Option-cases (find key c.mapping)) [
  | inl e ↦
      ap (λ o. insert_unless c o key source now fresh) e
      ∙ ap (λ b. if b then some (false, c) else insert_room c key source now fresh)
          (lt→ltb c.capacity (length source) large)
  | inr (p, e) ↦ ap (λ o. insert_unless c o key source now fresh) e
]

-- Any other resource is inserted, and that takes no fault and no more rounds than the map has
-- entries.
pub try_insert_new :
    (c : Cache) (ps : List Ptr) (key source : Bytes) (now : ℕ) (fresh : Ptr)
    → Holds c ps
    → find key c.mapping ≡ none
    → length source ≤ c.capacity
    → NotIn fresh (c.head ∷ (keep c.nodes.content c.capacity (length source) ps ++ c.tail ∷ []))
    → (c' : Cache) × (try_insert c key source now fresh ≡ some (true, c'))
      × Holds c' (keep c.nodes.content c.capacity (length source) ps ++ fresh ∷ [])
      × (c'.capacity ≡ c.capacity)
      × (find key c'.mapping ≡ some fresh)
      × (c'.nodes.content ≡ update c.nodes.content fresh source)
      × (c'.nodes.identifier ≡ update c.nodes.identifier fresh key)
unfolding try_insert insert_unless insert_room find
try_insert_new c ps key source now fresh h missing le out =
    let kept = keep c.nodes.content c.capacity (length source) ps in
    let (c', run, f) = make_room-Holds (length c.mapping) c (length source) ps h le (omega arith) in
    let room : c'.occupancy + length source ≤ c'.capacity = Fewer-room (length source) ps f le in
    let out' : NotIn fresh (c'.head ∷ (kept ++ c'.tail ∷ [])) =
      subst (λ z. NotIn fresh (z ∷ (kept ++ c'.tail ∷ []))) (sym f.head)
        (subst (λ z. NotIn fresh (c.head ∷ (kept ++ z ∷ []))) (sym f.tail) out) in
    let small_enough : ltb c.capacity (length source) ≡ false = ground arith in
    let (c'', put, h', capacity, mapping, content, identifier) =
      insert_node-Holds c' kept f.holds key source now fresh (f.missing key missing) out' room in
    (
      c'',
      ap (λ o. insert_unless c o key source now fresh) missing
          ∙ ap (λ b. if b then some (false, c) else insert_room c key source now fresh) small_enough
          ∙ bind-some _ run
          ∙ bind-some _ put,
      h',
      capacity ∙ f.capacity,
      ap (find key) mapping ∙ found_first c' kept f.holds key source now fresh key refl,
      content ∙ ap (λ z. update z fresh source) f.content,
      identifier ∙ ap (λ z. update z fresh key) f.identifier,
    )
