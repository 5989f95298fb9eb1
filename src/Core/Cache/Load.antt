-- ===== src/Core/Cache/Load.antt =====
-- `TryLoad` finds what the cache holds and makes it the most recently used node.
use dytech.Prelude.{
  ℕ, ◌≡◌, inl, inr, refl, sym, ap, ◌∙◌, true, false, none, some, List, [], ◌∷◌, ◌++◌, arith, Bytes,
}
use dytech.Core.Cache.{
  Ptr, Nodes, Cache, update, find, serialize, update_timestamp, load_found, try_load,
}
use dytech.Core.Cache.Links.{relink, bind-some, detach-Linked, append-Linked, Linked-alive}
use dytech.Prelude.{All-map}
use dytech.Core.Cache.Repr.{
  Keyed, In, In-left, In-right, In-append, In-middle, In-there, total, total-append, Holds,
}

serialize-alive :
    (p : Ptr) (n : Nodes) (destination : Bytes)
    → n.alive p ≡ true
    → serialize p n destination ≡ some (destination ++ n.content p)
unfolding serialize
serialize-alive p n destination a = simp a

touch-alive :
    (p : Ptr) (now : ℕ) (n : Nodes)
    → n.alive p ≡ true
    → update_timestamp p now n ≡ some (record n { last_access = update n.last_access p now })
unfolding update_timestamp
touch-alive p now n a = simp a

total-move :
    (content : Ptr → Bytes) (xs : List Ptr) (p : Ptr) (ys : List Ptr)
    → total content ((xs ++ ys) ++ p ∷ []) ≡ total content (xs ++ p ∷ ys)
total-move content xs p ys =
    let a = total-append content (xs ++ ys) (p ∷ []) in
    let b = total-append content xs ys in let c = total-append content xs (p ∷ ys) in omega arith

In-move :
    (q p : Ptr) (xs ys : List Ptr)
    → (In q (xs ++ p ∷ ys) → In q ((xs ++ ys) ++ p ∷ []))
      × (In q ((xs ++ ys) ++ p ∷ []) → In q (xs ++ p ∷ ys))
In-move q p xs ys = (
  λ i. elim (In-middle q p xs ys i) [
    | inl e ↦ In-right q (xs ++ ys) (p ∷ []) (inl e)
    | inr i ↦ In-left q (xs ++ ys) (p ∷ []) i
  ],
  λ i. elim (In-append q (xs ++ ys) (p ∷ []) i) [
    | inl i ↦ In-there q p xs ys i
    | inr (inl e) ↦ In-right q xs (p ∷ ys) (inl e)
    | inr (inr i) ↦ elim i [ ]
  ],
)

-- A resource that the cache does not have is not loaded, and nothing changes.
pub try_load_miss :
    (c : Cache) (key destination : Bytes) (now : ℕ)
    → find key c.mapping ≡ none
    → try_load c key destination now ≡ some (false, destination, c)
unfolding try_load load_found
try_load_miss c key destination now e = ap (λ o. load_found c o destination now) e

-- The resource of a node that the cache holds is appended to the destination without a fault, and
-- the cache then holds the same nodes with that one as the most recently used.
pub try_load_hit :
    (c : Cache) (xs ys : List Ptr) (p : Ptr) (destination : Bytes) (now : ℕ)
    → Holds c (xs ++ p ∷ ys)
    → (n : Nodes) × (try_load c (c.nodes.identifier p) destination now
        ≡ some (true, destination ++ c.nodes.content p, record c { nodes = n }))
      × Holds (record c { nodes = n }) ((xs ++ ys) ++ p ∷ [])
      × (n.identifier ≡ c.nodes.identifier)
      × (n.content ≡ c.nodes.content)
unfolding try_load load_found
try_load_hit c xs ys p destination now h =
    let key = c.nodes.identifier p in
    let found : find key c.mapping ≡ some p = h.complete p (In-right p xs (p ∷ ys) (inl refl)) in
    let live : c.nodes.alive p ≡ true = Linked-alive c.nodes c.head c.tail p xs ys h.linked in
    let (next, prev, gone, l, out) = detach-Linked c.nodes c.head c.tail p xs ys h.linked in
    let m = relink c.nodes next prev in
    let (next', prev', put, l') = append-Linked m c.head c.tail p (xs ++ ys) l out live in
    let m' = relink c.nodes next' prev' in
    let n = record m' { last_access = update c.nodes.last_access p now } in
    (
      n,
      (ap (λ o. load_found c o destination now) found
          ∙ bind-some _ (serialize-alive p c.nodes destination live)
          ∙ bind-some _ gone
          ∙ bind-some _ put
          ∙ bind-some _ (touch-alive p now m' live)),
      record {
        linked = record { chain = l'.chain; exist = l'.exist; distinct = l'.distinct };
        sound = λ key q e. ((In-move q p xs ys).0 (h.sound key q e).0, (h.sound key q e).1);
        complete = λ q i. h.complete q ((In-move q p xs ys).1 i);
        keyed =
            All-map (Keyed c.nodes.identifier (xs ++ p ∷ ys))
              (Keyed c.nodes.identifier ((xs ++ ys) ++ p ∷ [])) c.mapping
              (λ e k. ((In-move e.1 p xs ys).0 k.0, k.1)) h.keyed;
        counted = h.counted ∙ sym (total-move c.nodes.content xs p ys);
        fits = h.fits;
        small = h.small;
      },
      refl,
      refl,
    )
