-- ===== src/Tests/Cache.antt =====
-- A cache with two resources, and what the operations do to it.
use dytech.Prelude.{
  ℕ, ◌≤◌, false, ◌≡◌, inl, inr, refl, sym, ap, ◌∙◌, true, some, List, [], ◌∷◌, ◌++◌, Bytes, arith,
  ◌==◌, ltb, ◌&&◌, if◌then◌else◌, Bool-cases, Bool,
}
use dytech.Text.{codes, equal}
use dytech.Core.Cache.{make_cache, get_occupancy, Ptr, Nodes, Cache, find, try_load, try_insert}
use dytech.Core.Cache.Keys.{equal_sound}
use dytech.Core.Cache.Repr.{In}
use dytech.Core.Cache.Entries.{sizes, Entry, find_entry, touch, insert_entry}
use dytech.Core.Cache.Lru.{Represents, cached, or_nothing, try_load-touch, try_insert-insert_entry}
use dytech.Core.Cache.History.{
  Operation, load, insert, loaded, inserted, perform_all, respond_all, perform_all-respond_all,
}
use dytech.Core.Cache.Links.{Linked}
use dytech.Core.Cache.Race.{Loader, interleave, loading}
use dytech.Core.Cache.Race.Broken.{interleave-broken}
use dytech.Tests.Allocation.{allocator}

abbrev key_a : Bytes
key_a = codes "a"

abbrev key_b : Bytes
key_b = codes "b"

-- The nodes 3 and 4 between the head 1 and the tail 2.
abbrev two_nodes : Nodes
two_nodes = record {
  alive = λ p. ltb 0 p && ltb p 5;
  identifier = λ p. if p == 3 then key_a else if p == 4 then key_b else [];
  content = λ p. if p == 3 then codes "old" else if p == 4 then codes "newer" else [];
  last_access = λ p. p;
  prev = λ p. if p == 3 then 1 else if p == 4 then 3 else if p == 2 then 4 else 0;
  next = λ p. if p == 1 then 3 else if p == 3 then 4 else if p == 4 then 2 else 0;
}

abbrev two : Cache
two = record {
  mapping = (key_b, 4) ∷ (key_a, 3) ∷ [];
  capacity = 10;
  occupancy = 8;
  head = 1;
  tail = 2;
  nodes = two_nodes;
}

abbrev two_entries : List Entry
two_entries = (key_a, codes "old") ∷ (key_b, codes "newer") ∷ []

two_sound :
    (key : Bytes) (p : Ptr)
    → find key two.mapping ≡ some p
    → In p (3 ∷ 4 ∷ []) × (two_nodes.identifier p ≡ key)
unfolding find
two_sound key p e = elim (Bool-cases (equal key_b key)) [
  | inl same ↦
      let at : ◌≡◌ {A = ℕ} 4 p = ground arith in
      (inr (inl (sym at)), ap two_nodes.identifier (sym at) ∙ equal_sound key_b key same)
  | inr differs ↦ elim (Bool-cases (equal key_a key)) [
    | inl same ↦
        let at : ◌≡◌ {A = ℕ} 3 p = ground arith in
        (inl (sym at), ap two_nodes.identifier (sym at) ∙ equal_sound key_a key same)
    | inr differs' ↦ ground arith
  ]
]

two_complete : (p : Ptr) → In p (3 ∷ 4 ∷ []) → find (two_nodes.identifier p) two.mapping ≡ some p
unfolding find equal
two_complete p (inl e) = rw e
two_complete p (inr (inl e)) = rw e
two_complete p (inr (inr i)) = elim i [ ]

two-Represents : Represents two (3 ∷ 4 ∷ []) two_entries
two-Represents = record {
  holds = record {
    linked = record {
      chain = (refl, refl, (refl, refl, (refl, refl, tt)));
      exist = (refl, (refl, (refl, (refl, tt))));
      distinct = omega arith;
    };
    sound = two_sound;
    complete = two_complete;
    keyed = ((inr (inl refl), refl), ((inl refl, refl), tt));
    counted = refl;
    fits = omega arith;
    small = omega arith;
  };
  entries = refl;
}

try_load-touch_example :
    (c' : Cache) × (ps' : List Ptr) × (try_load two key_a (codes ">") 9
      ≡ some (
        cached (find_entry key_a two_entries),
        codes ">" ++ or_nothing (find_entry key_a two_entries),
        c',
      ))
    × Represents c' ps' (touch key_a two_entries)
    × (c'.capacity ≡ two.capacity)
try_load-touch_example =
    try_load-touch two (3 ∷ 4 ∷ []) two_entries key_a (codes ">") 9 two-Represents

touched : touch key_a two_entries ≡ (key_b, codes "newer") ∷ (key_a, codes "old") ∷ []
unfolding touch equal
touched = refl

try_insert-insert_entry_example :
    (c' : Cache) × (ps' : List Ptr) × (try_insert two (codes "c") (codes "four") 9 7
      ≡ some ((insert_entry 10 (codes "c") (codes "four") two_entries).0, c'))
    × Represents c' ps' (insert_entry 10 (codes "c") (codes "four") two_entries).1
    × (c'.capacity ≡ two.capacity)
try_insert-insert_entry_example =
    try_insert-insert_entry two (3 ∷ 4 ∷ []) two_entries (codes "c") (codes "four") 9 7
      two-Represents (omega arith)

-- The older of the two resources goes.
inserted_entries :
    insert_entry 10 (codes "c") (codes "four") two_entries
    ≡ (true, (key_b, codes "newer") ∷ (codes "c", codes "four") ∷ [])
unfolding insert_entry equal
inserted_entries = refl

-- A resource that is loaded outlives one that came after it.
abbrev operations : List Operation
operations =
    insert key_a (codes "old")
    ∷ insert key_b (codes "newer")
    ∷ load key_a []
    ∷ insert (codes "c") (codes "four")
    ∷ load key_b []
    ∷ load key_a (codes ">")
    ∷ []

perform_all-respond_all_example :
    let (answers, l) = respond_all 8 [] operations in
    (c : Cache) × (perform_all allocator (make_cache 8 1 2 0 two_nodes) operations
      ≡ some (answers, c))
    × (get_occupancy c ≡ sizes l)
    × (get_occupancy c ≤ 8)
perform_all-respond_all_example =
    perform_all-respond_all allocator 8 1 2 0 two_nodes operations (λ e. cc) (omega arith)

answered :
    (respond_all 8 [] operations).0
    ≡ inserted true
      ∷ inserted true
      ∷ loaded true (codes "old")
      ∷ inserted true
      ∷ loaded false []
      ∷ loaded true (codes ">old")
      ∷ []
unfolding respond_all touch insert_entry equal
answered = refl

interleave-broken_example :
    (turns : List Bool) × (t : Loader) × (u : Loader) × (n' : Nodes) × (interleave 2 turns
        (loading 3)
        (loading 3)
        two_nodes
      ≡ some (t, u, n'))
    × (t.todo ≡ [])
    × (u.todo ≡ [])
    × (n'.prev 3 ≡ 3)
    × ((qs : List Ptr) → Linked n' 1 2 qs → ⊥)
interleave-broken_example =
    interleave-broken two_nodes 1 2 3 [] (4 ∷ []) two-Represents.holds.linked
