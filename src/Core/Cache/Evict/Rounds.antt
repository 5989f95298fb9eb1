-- ===== src/Core/Cache/Evict/Rounds.antt =====
-- The loop of `TryInsert` that makes room: it ends, and drops no more than it must.
use dytech.Prelude.{
  ℕ, zero, suc, ◌+◌, ◌-◌, ◌≤◌, ◌≡◌, inl, inr, refl, sym, ap, ◌∙◌, subst, true, false, some, List,
  [], ◌∷◌, arith, Bytes, length, Bool-cases, ltb, not, ◌&&◌, if◌then◌else◌,
}
use dytech.Core.Cache.{Ptr, Cache, find, evict, needs_room, make_room, make_room_if, minus, vacant}
use dytech.Core.Cache.Links.{bind-some}
use dytech.Core.Cache.Repr.{total, Holds}
use dytech.Core.Cache.Evict.{Fewer, Fewer-trans, keep, minus-eq, evict-Holds}

Fewer-refl : {c : Cache} {ps : List Ptr} → Holds c ps → Fewer c c ps
Fewer-refl h = record {
  holds = h;
  missing = λ key e. e;
  capacity = refl;
  head = refl;
  tail = refl;
  identifier = refl;
  content = refl;
}

find-vacant :
    (key : Bytes) (m : List (Bytes × Ptr)) (p : Ptr) → find key m ≡ some p → vacant m ≡ false
unfolding find vacant
find-vacant key [] p e = ground arith
find-vacant key (x ∷ m) p e = refl

ltb-minus : (a b c : ℕ) → b ≤ a → ltb (a - b) c ≡ ltb a (b + c)
ltb-minus a b c le = ground arith

needs_room-nil : (c : Cache) (size : ℕ) → Holds c [] → size ≤ c.capacity → needs_room c size ≡ false
unfolding needs_room
needs_room-nil c size h le =
    let empty : c.occupancy ≡ 0 = h.counted in
    let small = h.small in
    let all : minus c.capacity c.occupancy ≡ c.capacity =
      minus-eq c.capacity c.occupancy c.capacity (omega arith) small in
    ground arith

needs_room-cons :
    (c : Cache) (size : ℕ) (p : Ptr) (ps : List Ptr)
    → Holds c (p ∷ ps)
    → needs_room c size ≡ ltb c.capacity (total c.nodes.content (p ∷ ps) + size)
unfolding needs_room
needs_room-cons c size p ps h =
    let named : vacant c.mapping ≡ false =
      find-vacant (c.nodes.identifier p) c.mapping p (h.complete p (inl refl)) in
    let counted = h.counted in
    let fits = h.fits in
    let small = h.small in
    let left : minus c.capacity c.occupancy ≡ c.capacity - c.occupancy =
      minus-eq c.capacity c.occupancy (c.capacity - c.occupancy) (omega arith) small in
    ap (λ b. not b && ltb (minus c.capacity c.occupancy) size) named
    ∙ ap (λ z. ltb z size) left
    ∙ ltb-minus c.capacity c.occupancy size fits
    ∙ ap (λ z. ltb c.capacity (z + size)) counted

make_room-done :
    (fuel : ℕ) (c : Cache) (size : ℕ) → needs_room c size ≡ false → make_room fuel c size ≡ some c
unfolding make_room make_room_if
make_room-done zero c size e = simp e
make_room-done (suc fuel) c size e = ap (λ b. make_room_if (λ c. make_room fuel c size) b c) e

make_room-round :
    (fuel : ℕ) (c c' : Cache) (size : ℕ)
    → needs_room c size ≡ true
    → evict c ≡ some c'
    → make_room (suc fuel) c size ≡ make_room fuel c' size
unfolding make_room make_room_if
make_room-round fuel c c' size e e' =
    ap (λ b. make_room_if (λ c. make_room fuel c size) b c) e ∙ bind-some _ e'

-- With as many rounds as the map has entries the loop ends, without a fault, and drops the fewest
-- of the oldest nodes that must go.
pub make_room-Holds :
    (fuel : ℕ) (c : Cache) (size : ℕ) (ps : List Ptr)
    → Holds c ps
    → size ≤ c.capacity
    → length c.mapping ≤ fuel
    → (c' : Cache) × (make_room fuel c size ≡ some c')
      × Fewer c c' (keep c.nodes.content c.capacity size ps)
make_room-Holds fuel c size [] h le enough =
    (c, make_room-done fuel c size (needs_room-nil c size h le), Fewer-refl h)
make_room-Holds zero c size (p ∷ ps) h le enough =
    let (c', e, f, less) = evict-Holds c p ps h in let bad : ⊥ = omega arith in elim bad [ ]
make_room-Holds (suc fuel) c size (p ∷ ps) h le enough =
    let test = needs_room-cons c size p ps h in
    elim (Bool-cases (ltb c.capacity (total c.nodes.content (p ∷ ps) + size))) [
      | inl more ↦
          let (c', e, f, less) = evict-Holds c p ps h in
          let le' : size ≤ c'.capacity = subst (λ z. size ≤ z) (sym f.capacity) le in
          let (c'', e', f') = make_room-Holds fuel c' size ps f.holds le' (omega arith) in
          let same : keep c'.nodes.content c'.capacity size ps
              ≡ keep c.nodes.content c.capacity size (p ∷ ps) =
            ap (λ content. keep content c'.capacity size ps) f.content
            ∙ ap (λ capacity. keep c.nodes.content capacity size ps) f.capacity
            ∙ sym (ap (λ b. if b then keep c.nodes.content c.capacity size ps else p ∷ ps) more) in
          (
            c'',
            make_room-round fuel c c' size (test ∙ more) e ∙ e',
            subst (λ z. Fewer c c'' z) same (Fewer-trans f f'),
          )
      | inr fits ↦
          let same : p ∷ ps ≡ keep c.nodes.content c.capacity size (p ∷ ps) =
            sym (ap (λ b. if b then keep c.nodes.content c.capacity size ps else p ∷ ps) fits) in
          (
            c,
            make_room-done (suc fuel) c size (test ∙ fits),
            subst (λ z. Fewer c c z) same (Fewer-refl h),
          )
    ]

-- What is kept leaves room.
pub keep-room :
    (content : Ptr → Bytes) (capacity size : ℕ) (ps : List Ptr)
    → size ≤ capacity
    → total content (keep content capacity size ps) + size ≤ capacity
keep-room content capacity size [] le = omega arith
keep-room content capacity size (p ∷ ps) le =
    let h = keep-room content capacity size ps le in ground arith
