-- ===== src/Core/Cache.antt =====
-- core/cache.h and core/cache.cc: a least-recently-used cache, as a hash map into the nodes of a
-- doubly linked list. Each member of `CacheNode` is a map from addresses, and reading or writing a
-- node that does not exist any more is a fault, `none`. The lock is not part of the state: each
-- method runs alone here.
pub mod Keys
pub mod Evict
pub mod Insert
pub mod Load
pub mod Links
pub mod Repr
pub mod Entries
pub mod EachEntry
pub mod Lru
pub mod Start
pub mod History
pub mod Race
use mathlib.Core.Option
use dytech.Prelude.{
  ℕ, zero, suc, ◌+◌, ◌-◌, ◌%◌, Bool, true, false, not, ◌&&◌, Option, none, some, List, [], ◌∷◌,
  ◌++◌, Bytes, ltb, ◌==◌, if◌then◌else◌, length, size_mod,
}
use dytech.Text.{equal}

abbrev pub Ptr : Type 0
Ptr = ℕ

-- The nodes, member by member. `alive` tells which nodes exist.
pub record Nodes : Type 0 where
  pub alive : Ptr → Bool
  pub identifier : Ptr → Bytes
  pub content : Ptr → Bytes
  pub last_access : Ptr → ℕ
  pub prev : Ptr → Ptr
  pub next : Ptr → Ptr

-- A map changed at one address.
unfoldable pub update {ℓ} : {V : Type ℓ} → (Ptr → V) → Ptr → V → Ptr → V
update f p v q = if q == p then v else f q

pub record Cache : Type 0 where
  pub mapping : List (Bytes × Ptr)
  pub capacity : ℕ
  pub occupancy : ℕ
  pub head : Ptr
  pub tail : Ptr
  pub nodes : Nodes

-- `GetOccupancy` and `GetCapacity`.
unfoldable pub get_occupancy : Cache → ℕ
get_occupancy c = c.occupancy

unfoldable pub get_capacity : Cache → ℕ
get_capacity c = c.capacity

abbrev pub k_default_capacity : ℕ
k_default_capacity = 10_485_760

infixl 5 ◌>>=◌
abbrev pub ◌>>=◌ {ℓ κ} : {A : Type ℓ} {B : Type κ} → Option A → (A → Option B) → Option B
none >>= f = none
some a >>= f = f a

-- `p->next_ = q` and `p->prev_ = q`.
unfoldable pub set_next : Ptr → Ptr → Nodes → Option Nodes
set_next p q n = if n.alive p then some (record n { next = update n.next p q }) else none

unfoldable pub set_prev : Ptr → Ptr → Nodes → Option Nodes
set_prev p q n = if n.alive p then some (record n { prev = update n.prev p q }) else none

-- `p->next_` and `p->prev_`.
unfoldable pub get_next : Ptr → Nodes → Option Ptr
get_next p n = if n.alive p then some (n.next p) else none

unfoldable pub get_prev : Ptr → Nodes → Option Ptr
get_prev p n = if n.alive p then some (n.prev p) else none

-- `CacheNode::Detach`.
unfoldable pub detach : Ptr → Nodes → Option Nodes
unfolding set_next set_prev get_next get_prev
detach p n = do
  before ← get_prev p n
  after ← get_next p n
  n ← set_next before after n
  after ← get_next p n
  before ← get_prev p n
  set_prev after before n

-- `Cache::AppendToListTail`, for the list that ends at `tail`.
unfoldable pub append_to_list_tail : Ptr → Ptr → Nodes → Option Nodes
unfolding set_next set_prev get_next get_prev
append_to_list_tail tail node n = do
  node_prev ← get_prev tail n
  n ← set_next node_prev node n
  n ← set_prev tail node n
  n ← set_prev node node_prev n
  set_next node tail n

-- `CacheNode::UpdateTimestamp` at the time `now`.
unfoldable pub update_timestamp : Ptr → ℕ → Nodes → Option Nodes
update_timestamp p now n =
    if n.alive p then some (record n { last_access = update n.last_access p now }) else none

-- `CacheNode::Serialize`.
unfoldable pub serialize : Ptr → Nodes → Bytes → Option Bytes
serialize p n destination = if n.alive p then some (destination ++ n.content p) else none

-- `CacheNode(identifier, data)`, at an address that `make_shared` found.
unfoldable pub make_node : Ptr → Bytes → Bytes → ℕ → Nodes → Nodes
make_node p identifier content now n = record {
  alive = update n.alive p true;
  identifier = update n.identifier p identifier;
  content = update n.content p content;
  last_access = update n.last_access p now;
  prev = update n.prev p 0;
  next = update n.next p 0;
}

-- `std::unordered_map`: `find`, `erase` and `emplace` of a key that is not there.
unfoldable pub find : Bytes → List (Bytes × Ptr) → Option Ptr
find key [] = none
find key ((k, p) ∷ m) = if equal k key then some p else find key m

unfoldable pub erase : Bytes → List (Bytes × Ptr) → List (Bytes × Ptr)
erase key [] = []
erase key ((k, p) ∷ m) = if equal k key then erase key m else (k, p) ∷ erase key m

-- The nodes of a cache that was just constructed: `head` and `tail`, linked to one another.
unfoldable pub make_cache : ℕ → Ptr → Ptr → ℕ → Nodes → Cache
unfolding make_node
make_cache capacity head tail now n =
    let n = make_node tail [] [] now (make_node head [] [] now n) in
    record {
      mapping = [];
      capacity = capacity;
      occupancy = 0;
      head = head;
      tail = tail;
      nodes = record n { next = update n.next head tail; prev = update n.prev tail head };
    }

-- `TryLoad` for the node that `mapping_.find` gave: whether the resource is cached, the destination
-- and the cache.
unfoldable pub load_found : Cache → Option Ptr → Bytes → ℕ → Option (Bool × Bytes × Cache)
unfolding serialize detach append_to_list_tail update_timestamp
load_found c none destination now = some (false, destination, c)
load_found c (some p) destination now = do
  destination ← serialize p c.nodes destination
  n ← detach p c.nodes
  n ← append_to_list_tail c.tail p n
  n ← update_timestamp p now n
  some (true, destination, record c { nodes = n })

-- `TryLoad`.
unfoldable pub try_load : Cache → Bytes → Bytes → ℕ → Option (Bool × Bytes × Cache)
unfolding find load_found
try_load c resource_url destination now = load_found c (find resource_url c.mapping) destination now

-- `a - b` on `size_t`.
abbrev pub minus : ℕ → ℕ → ℕ
minus a b = (a + size_mod - b) % size_mod

-- One round of the loop that makes room: the first node goes. A key that is not in the map fails
-- the assertion.
unfoldable pub evict : Cache → Option Cache
unfolding get_next detach find erase
evict c = do
  first_node ← get_next c.head c.nodes
  resource_size ←
      (if c.nodes.alive first_node then some (length (c.nodes.content first_node)) else none)
  p ← find (c.nodes.identifier first_node) c.mapping
  n ← detach p c.nodes
  some (record c {
    mapping = erase (c.nodes.identifier first_node) c.mapping;
    occupancy = minus c.occupancy resource_size;
    nodes = record n { alive = update n.alive p false };
  })

-- `mapping_.empty()`.
unfoldable pub vacant : List (Bytes × Ptr) → Bool
vacant [] = true
vacant (m ∷ ms) = false

-- The test of that loop.
unfoldable pub needs_room : Cache → ℕ → Bool
unfolding vacant
needs_room c size = not (vacant c.mapping) && ltb (minus c.capacity c.occupancy) size

-- The loop's body and what follows it, for a test that came out so.
unfoldable pub make_room_if : (Cache → Option Cache) → Bool → Cache → Option Cache
unfolding evict
make_room_if again true c = evict c >>= again
make_room_if again false c = some c

-- The loop, for at most this many rounds; `none` also stands for more rounds than that.
unfoldable pub make_room : ℕ → Cache → ℕ → Option Cache
unfolding make_room_if needs_room
make_room zero c size = if needs_room c size then none else some c
make_room (suc f) c size = make_room_if (λ c. make_room f c size) (needs_room c size) c

-- `TryInsert` from the construction of the node on, at the address `fresh`.
unfoldable pub insert_node : Cache → Bytes → Bytes → ℕ → Ptr → Option Cache
unfolding append_to_list_tail make_node
insert_node c resource_url source now fresh = do
  n ← append_to_list_tail c.tail fresh (make_node fresh resource_url source now c.nodes)
  some (record c {
    mapping = (resource_url, fresh) ∷ c.mapping;
    occupancy = (c.occupancy + length source) % size_mod;
    nodes = n;
  })

-- `TryInsert` for a resource that is missing and not too large.
unfoldable pub insert_room : Cache → Bytes → Bytes → ℕ → Ptr → Option (Bool × Cache)
unfolding make_room insert_node
insert_room c resource_url source now fresh = do
  c ← make_room (length c.mapping) c (length source)
  c ← insert_node c resource_url source now fresh
  some (true, c)

-- `TryInsert` for what `mapping_.contains` saw: whether the resource was inserted, and the cache.
unfoldable pub insert_unless : Cache → Option Ptr → Bytes → Bytes → ℕ → Ptr → Option (Bool × Cache)
unfolding insert_room
insert_unless c (some p) resource_url source now fresh = some (false, c)
insert_unless c none resource_url source now fresh =
    if ltb c.capacity (length source)
    then some (false, c)
    else insert_room c resource_url source now fresh

-- `TryInsert`, with a new node at `fresh`.
unfoldable pub try_insert : Cache → Bytes → Bytes → ℕ → Ptr → Option (Bool × Cache)
unfolding find insert_unless
try_insert c resource_url source now fresh =
    insert_unless c (find resource_url c.mapping) resource_url source now fresh

-- `Clear`: the nodes that the map held are gone.
unfoldable pub kill_all : List (Bytes × Ptr) → (Ptr → Bool) → Ptr → Bool
kill_all [] alive = alive
kill_all ((k, p) ∷ m) alive = update (kill_all m alive) p false

unfoldable pub clear : Cache → Option Cache
unfolding set_next set_prev kill_all
clear c = do
  n ← set_next c.head c.tail c.nodes
  n ← set_prev c.tail c.head n
  some (record c {
    mapping = [];
    occupancy = 0;
    nodes = record n { alive = kill_all c.mapping n.alive };
  })
