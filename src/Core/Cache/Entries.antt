-- ===== src/Core/Cache/Entries.antt =====
-- What the cache promises: a list of entries, the least recently used one first; and how a list of
-- nodes is read as such entries.
use dytech.Prelude.{
  ℕ, ◌+◌, ◌≡◌, inl, inr, refl, ap, Bool, true, false, Option, none, some, List, [], ◌∷◌, ◌++◌,
  arith, Bytes, length, ltb, if◌then◌else◌,
}
use dytech.Text.{equal}
use dytech.Core.Cache.{Ptr, update}
use dytech.Core.Cache.Links.{NotIn, update_ne}
use dytech.Core.Cache.Repr.{In, cells, total}
use dytech.Core.Cache.Evict.{keep}

-- A cached resource: its key and its content.
abbrev pub Entry : Type 0
Entry = Bytes × Bytes

unfoldable pub find_entry : Bytes → List Entry → Option Bytes
find_entry key [] = none
find_entry key ((k, v) ∷ l) = if equal k key then some v else find_entry key l

unfoldable pub remove_entry : Bytes → List Entry → List Entry
remove_entry key [] = []
remove_entry key ((k, v) ∷ l) = if equal k key then l else (k, v) ∷ remove_entry key l

-- The entry that was found becomes the most recently used one.
unfoldable pub touch_found : Bytes → List Entry → Option Bytes → List Entry
unfolding remove_entry
touch_found key l none = l
touch_found key l (some v) = remove_entry key l ++ (key, v) ∷ []

unfoldable pub touch : Bytes → List Entry → List Entry
unfolding find_entry touch_found
touch key l = touch_found key l (find_entry key l)

-- The bytes of the entries.
unfoldable pub sizes : List Entry → ℕ
sizes [] = 0
sizes ((k, v) ∷ l) = length v + sizes l

-- The oldest entries go, as few as must for `size` more bytes to fit.
unfoldable pub shed : ℕ → ℕ → List Entry → List Entry
unfolding sizes
shed capacity size [] = []
shed capacity size ((k, v) ∷ l) =
    if ltb capacity (sizes ((k, v) ∷ l) + size) then shed capacity size l else (k, v) ∷ l

-- Inserting a resource, for what was found under its key.
unfoldable pub insert_entry_at : ℕ → Bytes → Bytes → List Entry → Option Bytes → Bool × List Entry
unfolding shed
insert_entry_at capacity key source l (some v) = (false, l)
insert_entry_at capacity key source l none =
    if ltb capacity (length source)
    then (false, l)
    else (true, shed capacity (length source) l ++ (key, source) ∷ [])

-- Whether the resource was inserted, and the entries.
unfoldable pub insert_entry : ℕ → Bytes → Bytes → List Entry → Bool × List Entry
unfolding find_entry insert_entry_at
insert_entry capacity key source l = insert_entry_at capacity key source l (find_entry key l)

module _ (identifier content : Ptr → Bytes) where
  pub cells-append :
      (xs ys : List Ptr)
      → cells identifier content (xs ++ ys)
        ≡ cells identifier content xs ++ cells identifier content ys
  cells-append [] ys = refl
  cells-append (x ∷ xs) ys = ap (◌∷◌ (identifier x, content x)) (cells-append xs ys)

  pub find_entry-missing :
      (key : Bytes) (ps : List Ptr)
      → ((q : Ptr) → In q ps → equal (identifier q) key ≡ false)
      → find_entry key (cells identifier content ps) ≡ none
  unfolding find_entry
  find_entry-missing key [] out = refl
  find_entry-missing key (p ∷ ps) out =
      rw (out p (inl refl)) (find_entry-missing key ps (λ q i. out q (inr i)))

  pub find_entry-cells :
      (key : Bytes) (xs : List Ptr) (p : Ptr) (ys : List Ptr)
      → ((q : Ptr) → In q xs → equal (identifier q) key ≡ false)
      → equal (identifier p) key ≡ true
      → find_entry key (cells identifier content (xs ++ p ∷ ys)) ≡ some (content p)
  unfolding find_entry
  find_entry-cells key [] p ys out same = rw same
  find_entry-cells key (x ∷ xs) p ys out same =
      rw (out x (inl refl)) (find_entry-cells key xs p ys (λ q i. out q (inr i)) same)

  pub remove_entry-cells :
      (key : Bytes) (xs : List Ptr) (p : Ptr) (ys : List Ptr)
      → ((q : Ptr) → In q xs → equal (identifier q) key ≡ false)
      → equal (identifier p) key ≡ true
      → remove_entry key (cells identifier content (xs ++ p ∷ ys))
        ≡ cells identifier content (xs ++ ys)
  unfolding remove_entry
  remove_entry-cells key [] p ys out same = rw same
  remove_entry-cells key (x ∷ xs) p ys out same = rw (out x (inl refl)) (
      ap (◌∷◌ (identifier x, content x))
        (remove_entry-cells key xs p ys (λ q i. out q (inr i)) same))

  pub sizes-cells : (ps : List Ptr) → sizes (cells identifier content ps) ≡ total content ps
  unfolding sizes
  sizes-cells [] = refl
  sizes-cells (p ∷ ps) = omega (arith, sizes-cells ps)

  pub shed-cells :
      (capacity size : ℕ) (ps : List Ptr)
      → shed capacity size (cells identifier content ps)
        ≡ cells identifier content (keep content capacity size ps)
  unfolding shed sizes
  shed-cells capacity size [] = refl
  shed-cells capacity size (p ∷ ps) = ground (arith, sizes-cells ps, shed-cells capacity size ps)

  -- A node elsewhere may be written.
  pub cells-update :
      (p : Ptr) (key source : Bytes) (ps : List Ptr)
      → NotIn p ps
      → cells (update identifier p key) (update content p source) ps ≡ cells identifier content ps
  cells-update p key source [] out = refl
  cells-update p key source (q ∷ ps) out =
      rw (update_ne identifier key out.0, update_ne content source out.0)
        (ap (◌∷◌ (identifier q, content q)) (cells-update p key source ps out.1))

  -- The node that was written has the new entry.
  pub cells-made :
      (p : Ptr) (key source : Bytes)
      → cells (update identifier p key) (update content p source) (p ∷ []) ≡ (key, source) ∷ []
  unfolding update
  cells-made p key source = ground arith
