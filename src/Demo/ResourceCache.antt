-- ===== src/Demo/ResourceCache.antt =====
-- What the HTTP server relies on of its cache: it holds a list of entries, and the two operations act
-- on that list. `Core.Cache` fulfils it in `Demo.LruStore`.
use dytech.Prelude.{ℕ, ◌≡◌, Bool, Option, some, List, ◌++◌, Bytes}
use dytech.Core.Cache.Entries.{Entry, find_entry, touch, insert_entry}
use dytech.Core.Cache.Lru.{cached, or_nothing}

pub record ResourceCache : Type 1 where
  pub State : Type 0
  pub try_load : State → Bytes → Bytes → Option (Bool × Bytes × State)
  pub try_insert : State → Bytes → Bytes → Option (Bool × State)
  pub capacity : ℕ
  -- The cache in this state holds these entries.
  pub Contains : State → List Entry → Type 0
  pub load_lem :
      (s : State) (l : List Entry) (key destination : Bytes)
      → Contains s l
      → (s' : State) × (try_load s key destination
          ≡ some (cached (find_entry key l), destination ++ or_nothing (find_entry key l), s'))
        × Contains s' (touch key l)
  pub insert_lem :
      (s : State) (l : List Entry) (key source : Bytes)
      → Contains s l
      → (s' : State) × (try_insert s key source ≡ some ((insert_entry capacity key source l).0, s'))
        × Contains s' (insert_entry capacity key source l).1
