-- ===== src/Core/Cache/Insert.antt =====
-- `TryInsert` puts a new node at the end of the list.
pub mod Room
use mathlib.Core.Option.{some_inj, none-ne-some}
use dytech.Prelude.{
  ℕ, ◌+◌, ◌%◌, ◌≤◌, ◌<◌, ◌≡◌, inl, inr, refl, sym, ap, ◌∙◌, subst, Bool, true, false, none, some,
  List, [], ◌∷◌, ◌++◌, arith, All, Bytes, length, size_mod, Bool-cases, Option-cases, lt→ltb, ltb,
  if◌then◌else◌,
}
use dytech.Text.{equal}
use dytech.Core.Cache.{
  Ptr, Nodes, Cache, update, find, make_node, insert_node, insert_unless, insert_room, try_insert,
}
use dytech.Core.Cache.Links.{
  Linked, NotIn, relink, bind-some, append-Linked, update_ne, Chain-frame, NotIn-append,
}
use dytech.Core.Cache.Keys.{equal_refl, equal_sound}
use dytech.Prelude.{All-map}
use dytech.Core.Cache.Repr.{
  Keyed, In, In-left, In-right, In-append, In-NotIn, total, total-append, Holds,
}

total-other :
    (content : Ptr → Bytes) (p : Ptr) (b : Bytes) (ps : List Ptr)
    → NotIn p ps
    → total (update content p b) ps ≡ total content ps
total-other content p b [] out = refl
total-other content p b (q ∷ ps) out =
    let here = ap length (update_ne content b out.0) in
    let rest = total-other content p b ps out.1 in omega arith

All-made :
    (alive : Ptr → Bool) (p : Ptr) (l : List Ptr)
    → All (λ q. alive q ≡ true) l
    → All (λ q. update alive p true q ≡ true) l
unfolding update
All-made alive p [] h = tt
All-made alive p (q ∷ l) h = (ground arith, All-made alive p l h.1)

pub update_at : {V : Type 0} (f : Ptr → V) (p : Ptr) (v : V) → update f p v p ≡ v
unfolding update
update_at f p v = ground arith

-- A node that is made at an address outside the list leaves the list as it is.
make_node-Linked :
    (n : Nodes) (head tail fresh : Ptr) (ps : List Ptr) (key source : Bytes) (now : ℕ)
    → Linked n head tail ps
    → NotIn fresh (head ∷ (ps ++ tail ∷ []))
    → Linked (make_node fresh key source now n) head tail ps
unfolding make_node
make_node-Linked n head tail fresh ps key source now l out = record {
  chain =
      Chain-frame n.next n.prev fresh fresh 0 0 head (ps ++ tail ∷ []) l.chain out.0 out.1 out.1;
  exist = All-made n.alive fresh (head ∷ (ps ++ tail ∷ [])) l.exist;
  distinct = l.distinct;
}

module _ (c : Cache) (ps : List Ptr) (h : Holds c ps) (key source : Bytes) (now : ℕ)
    (fresh : Ptr) where
  away : NotIn fresh (c.head ∷ (ps ++ c.tail ∷ [])) → NotIn fresh ps
  away out = (NotIn-append fresh ps (c.tail ∷ []) out.1).0

  identifier_kept :
      NotIn fresh (c.head ∷ (ps ++ c.tail ∷ []))
      → (q : Ptr) → In q ps
      → update c.nodes.identifier fresh key q ≡ c.nodes.identifier q
  identifier_kept out q i =
      update_ne c.nodes.identifier key (λ e. In-NotIn q fresh ps i (away out) (sym e))

  added_sound :
      NotIn fresh (c.head ∷ (ps ++ c.tail ∷ []))
      → (k : Bytes) (q : Ptr) → find k ((key, fresh) ∷ c.mapping) ≡ some q
      → In q (ps ++ fresh ∷ []) × (update c.nodes.identifier fresh key q ≡ k)
  unfolding find
  added_sound out k q e = elim (Bool-cases (equal key k)) [
    | inl same ↦
        let this : fresh ≡ q =
          some_inj.0 (sym (ap (λ b. if b then some fresh else find k c.mapping) same) ∙ e) in
        (
          In-right q ps (fresh ∷ []) (inl (sym this)),
          ap (update c.nodes.identifier fresh key) (sym this)
              ∙ update_at c.nodes.identifier fresh key
              ∙ equal_sound key k same,
        )
    | inr differs ↦
        let (i, named) =
          h.sound k q (sym (ap (λ b. if b then some fresh else find k c.mapping) differs) ∙ e) in
        (In-left q ps (fresh ∷ []) i, identifier_kept out q i ∙ named)
  ]

  pub found_first : (k : Bytes) → key ≡ k → find k ((key, fresh) ∷ c.mapping) ≡ some fresh
  unfolding find
  found_first k e =
      ap (λ b. if b then some fresh else find k c.mapping) (ap (λ z. equal z k) e ∙ equal_refl k)

  found_later :
      (q : Ptr)
      → find key c.mapping ≡ none
      → In q ps
      → find (c.nodes.identifier q) ((key, fresh) ∷ c.mapping) ≡ some q
  unfolding find
  found_later q missing i = elim (Bool-cases (equal key (c.nodes.identifier q))) [
    | inl same ↦
        let clash : none ≡ some q =
          sym missing
          ∙ ap (λ z. find z c.mapping) (equal_sound key (c.nodes.identifier q) same)
          ∙ h.complete q i in
        elim (none-ne-some q clash) [ ]
    | inr differs ↦
        ap (λ b. if b then some fresh else find (c.nodes.identifier q) c.mapping) differs
        ∙ h.complete q i
  ]

  added_complete :
      find key c.mapping ≡ none
      → NotIn fresh (c.head ∷ (ps ++ c.tail ∷ []))
      → (q : Ptr) → In q (ps ++ fresh ∷ [])
      → find (update c.nodes.identifier fresh key q) ((key, fresh) ∷ c.mapping) ≡ some q
  added_complete missing out q i = elim (In-append q ps (fresh ∷ []) i) [
    | inl i ↦
        ap (λ z. find z ((key, fresh) ∷ c.mapping)) (identifier_kept out q i)
        ∙ found_later q missing i
    | inr (inl e) ↦
        found_first (update c.nodes.identifier fresh key q) (
          sym (ap (update c.nodes.identifier fresh key) e ∙ update_at c.nodes.identifier fresh key))
        ∙ ap some (sym e)
    | inr (inr i) ↦ elim i [ ]
  ]

  added-Keyed :
      NotIn fresh (c.head ∷ (ps ++ c.tail ∷ []))
      → All
          (Keyed (update c.nodes.identifier fresh key) (ps ++ fresh ∷ []))
          ((key, fresh) ∷ c.mapping)
  added-Keyed out = (
    (In-right fresh ps (fresh ∷ []) (inl refl), update_at c.nodes.identifier fresh key),
    All-map (Keyed c.nodes.identifier ps)
        (Keyed (update c.nodes.identifier fresh key) (ps ++ fresh ∷ [])) c.mapping
        (λ e k. (In-left (e.1) ps (fresh ∷ []) k.0, identifier_kept out (e.1) k.0 ∙ k.1)) h.keyed,
  )

  -- A resource whose key is missing and that fits is inserted as the most recently used one.
  pub insert_node-Holds :
      find key c.mapping ≡ none
      → NotIn fresh (c.head ∷ (ps ++ c.tail ∷ []))
      → c.occupancy + length source ≤ c.capacity
      → (c' : Cache) × (insert_node c key source now fresh ≡ some c')
        × Holds c' (ps ++ fresh ∷ [])
        × (c'.capacity ≡ c.capacity)
        × (c'.mapping ≡ (key, fresh) ∷ c.mapping)
        × (c'.nodes.content ≡ update c.nodes.content fresh source)
        × (c'.nodes.identifier ≡ update c.nodes.identifier fresh key)
  unfolding insert_node make_node
  insert_node-Holds missing out room =
      let m = make_node fresh key source now c.nodes in
      let l = make_node-Linked c.nodes c.head c.tail fresh ps key source now h.linked out in
      let (next, prev, put, l') =
        append-Linked m c.head c.tail fresh ps l out (update_at c.nodes.alive fresh true) in
      let small = h.small in
      let sum : (c.occupancy + length source) % size_mod ≡ c.occupancy + length source =
        omega arith in
      let identifier = update c.nodes.identifier fresh key in
      let content = update c.nodes.content fresh source in
      let old = h.counted in
      let kept = total-other c.nodes.content fresh source ps (away out) in
      let split = total-append content ps (fresh ∷ []) in
      let new = ap length (update_at c.nodes.content fresh source) in
      let counted_added : (c.occupancy + length source) % size_mod
          ≡ total content (ps ++ fresh ∷ []) =
        omega arith in
      (
        record c {
          mapping = (key, fresh) ∷ c.mapping;
          occupancy = (c.occupancy + length source) % size_mod;
          nodes = relink m next prev;
        },
        bind-some _ put,
        record {
          linked = l';
          sound = added_sound out;
          complete = added_complete missing out;
          keyed = added-Keyed out;
          counted = counted_added;
          fits = omega arith;
          small = h.small;
        },
        refl,
        refl,
        refl,
        refl,
      )
