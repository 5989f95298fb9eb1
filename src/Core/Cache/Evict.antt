-- ===== src/Core/Cache/Evict.antt =====
-- One round of the loop of `TryInsert` that makes room.
pub mod Rounds
use mathlib.Core.Option.{some_inj}
use dytech.Prelude.{
  ℕ, zero, suc, ◌+◌, ◌-◌, ◌≤◌, ◌<◌, ◌≡◌, inl, inr, refl, sym, ap, ◌∙◌, subst, Bool, true, false,
  none, some, List, [], ◌∷◌, ◌++◌, arith, All, Bytes, length, size_mod, Bool-cases, ltb, not, ◌&&◌,
  if◌then◌else◌,
}
use dytech.Text.{equal}
use dytech.Core.Cache.{
  Ptr, Cache, update, find, erase, get_next, evict, needs_room, make_room, make_room_if, minus,
  vacant,
}
use dytech.Core.Cache.Links.{
  NotIn, relink, bind-some, detach-Linked, Linked-alive, get_next-alive, update_ne, NotIn-append,
}
use dytech.Core.Cache.Keys.{
  equal_refl, equal_sound, find-erase-same, find-erase-other, erase-length,
}
use mathlib.Core.Bool.{false≢true}
use dytech.Core.Cache.Repr.{Keyed, In, In-NotIn, total, Holds}

pub minus-eq : (a b r : ℕ) → a ≡ b + r → a < size_mod → minus a b ≡ r
minus-eq a b r e small = omega arith

All-kill :
    (alive : Ptr → Bool) (p : Ptr) (l : List Ptr)
    → NotIn p l
    → All (λ q. alive q ≡ true) l
    → All (λ q. update alive p false q ≡ true) l
All-kill alive p [] out h = tt
All-kill alive p (q ∷ l) out h = (update_ne alive false out.0 ∙ h.0, All-kill alive p l out.1 h.1)

-- A cache from which entries were taken: what it still holds, and that nothing else changed.
pub record Fewer (c c' : Cache) (ps : List Ptr) : Type 0 where
  pub holds : Holds c' ps
  pub missing : (key : Bytes) → find key c.mapping ≡ none → find key c'.mapping ≡ none
  pub capacity : c'.capacity ≡ c.capacity
  pub head : c'.head ≡ c.head
  pub tail : c'.tail ≡ c.tail
  pub identifier : c'.nodes.identifier ≡ c.nodes.identifier
  pub content : c'.nodes.content ≡ c.nodes.content

module _ (c : Cache) (p : Ptr) (ps : List Ptr) (h : Holds c (p ∷ ps)) where
  found : find (c.nodes.identifier p) c.mapping ≡ some p
  found = h.complete p (inl refl)

  erased_sound :
      (key : Bytes) (q : Ptr)
      → find key (erase (c.nodes.identifier p) c.mapping) ≡ some q
      → In q ps × (c.nodes.identifier q ≡ key)
  erased_sound key q e = elim (Bool-cases (equal (c.nodes.identifier p) key)) [
    | inl same ↦
        let gone : find key (erase (c.nodes.identifier p) c.mapping) ≡ none =
          ap (λ z. find key (erase z c.mapping)) (equal_sound (c.nodes.identifier p) key same)
          ∙ find-erase-same key c.mapping in
        ground arith
    | inr differs ↦
        let (i, named) =
          h.sound key q (sym (find-erase-other key (c.nodes.identifier p) c.mapping differs) ∙ e) in
        elim i [
          | inl first ↦
              let same : equal (c.nodes.identifier p) key ≡ true =
                ap (λ z. equal z key) (ap c.nodes.identifier (sym first) ∙ named)
                ∙ equal_refl key in
              ground arith
          | inr i ↦ (i, named)
        ]
  ]

  erased_complete :
      (q : Ptr)
      → In q ps
      → find (c.nodes.identifier q) (erase (c.nodes.identifier p) c.mapping) ≡ some q
  erased_complete q i = elim (Bool-cases (equal (c.nodes.identifier p) (c.nodes.identifier q))) [
    | inl same ↦
        let again : find (c.nodes.identifier p) c.mapping ≡ some q =
          ap (λ z. find z c.mapping)
            (equal_sound (c.nodes.identifier p) (c.nodes.identifier q) same)
          ∙ h.complete q (inr i) in
        let equal_ptr : p ≡ q = some_inj.0 (sym found ∙ again) in
        let out : NotIn p (ps ++ c.tail ∷ []) = h.linked.distinct.1.0 in
        elim (In-NotIn q p ps i (NotIn-append p ps (c.tail ∷ []) out).0 (sym equal_ptr)) [ ]
    | inr differs ↦
        find-erase-other (c.nodes.identifier q) (c.nodes.identifier p) c.mapping differs
        ∙ h.complete q (inr i)
  ]

  erased_missing :
      (key : Bytes)
      → find key c.mapping ≡ none
      → find key (erase (c.nodes.identifier p) c.mapping) ≡ none
  erased_missing key e = elim (Bool-cases (equal (c.nodes.identifier p) key)) [
    | inl same ↦
        ap (λ z. find key (erase z c.mapping)) (equal_sound (c.nodes.identifier p) key same)
        ∙ find-erase-same key c.mapping
    | inr differs ↦ find-erase-other key (c.nodes.identifier p) c.mapping differs ∙ e
  ]

  erased-Keyed :
      (m : List (Bytes × Ptr))
      → All (Keyed c.nodes.identifier (p ∷ ps)) m
      → All (Keyed c.nodes.identifier ps) (erase (c.nodes.identifier p) m)
  unfolding erase
  erased-Keyed [] k = tt
  erased-Keyed ((key, q) ∷ m) k = elim (Bool-cases (equal key (c.nodes.identifier p))) [
    | inl same ↦ rw same (erased-Keyed m k.1)
    | inr differs ↦ elim k.0.0 [
      | inl first ↦
          let same : equal key (c.nodes.identifier p) ≡ true =
            ap (λ z. equal z (c.nodes.identifier p)) (sym k.0.1 ∙ ap c.nodes.identifier first)
            ∙ equal_refl (c.nodes.identifier p) in
          absurd (false≢true (sym differs ∙ same))
      | inr i ↦ rw differs ((i, k.0.1), erased-Keyed m k.1)
    ]
  ]

  -- A round takes out the least recently used node.
  pub evict-Holds :
      (c' : Cache) × (evict c ≡ some c') × Fewer c c' ps × (length c'.mapping < length c.mapping)
  unfolding evict
  evict-Holds =
      let n = c.nodes in
      let (next, prev, gone, l, out) = detach-Linked n c.head c.tail p [] ps h.linked in
      let live = Linked-alive n c.head c.tail p [] ps h.linked in
      let first : get_next c.head n ≡ some p =
        get_next-alive c.head n h.linked.exist.0 ∙ ap some h.linked.chain.0 in
      let total_eq : c.occupancy ≡ length (n.content p) + total n.content ps = h.counted in
      let fits = h.fits in
      let small = h.small in
      let left : minus c.occupancy (length (n.content p)) ≡ total n.content ps =
        minus-eq c.occupancy (length (n.content p)) (total n.content ps) total_eq (omega arith) in
      (
        record c {
          mapping = erase (n.identifier p) c.mapping;
          occupancy = minus c.occupancy (length (n.content p));
          nodes = record (relink n next prev) { alive = update n.alive p false };
        },
        bind-some _ first
            ∙ bind-some _ (ap (λ b. if b then some (length (n.content p)) else none) live)
            ∙ bind-some _ found
            ∙ bind-some _ gone,
        record {
          holds = record {
            linked = record {
              chain = l.chain;
              exist = All-kill n.alive p (c.head ∷ (ps ++ c.tail ∷ [])) out l.exist;
              distinct = l.distinct;
            };
            sound = erased_sound;
            complete = erased_complete;
            keyed = erased-Keyed c.mapping h.keyed;
            counted = left;
            fits = omega arith;
            small = h.small;
          };
          missing = erased_missing;
          capacity = refl;
          head = refl;
          tail = refl;
          identifier = refl;
          content = refl;
        },
        erase-length (n.identifier p) c.mapping p found,
      )

-- What is left after the fewest of the oldest nodes were dropped that must go for `size` more bytes
-- to fit.
abbrev pub keep : (Ptr → Bytes) → ℕ → ℕ → List Ptr → List Ptr
keep content capacity size [] = []
keep content capacity size (p ∷ ps) =
    if ltb capacity (total content (p ∷ ps) + size) then keep content capacity size ps else p ∷ ps

pub Fewer-trans : {a b c : Cache} {ps qs : List Ptr} → Fewer a b ps → Fewer b c qs → Fewer a c qs
Fewer-trans f g = record {
  holds = g.holds;
  missing = λ key e. g.missing key (f.missing key e);
  capacity = g.capacity ∙ f.capacity;
  head = g.head ∙ f.head;
  tail = g.tail ∙ f.tail;
  identifier = g.identifier ∙ f.identifier;
  content = g.content ∙ f.content;
}
