-- ===== src/Core/Cache/Lru.antt =====
-- The hash map with its linked nodes behaves as the list of entries.
use mathlib.Core.Option.{some_inj, none-ne-some}
use dytech.Prelude.{
  ℕ, ◌≡◌, inl, inr, refl, sym, ap, ◌∙◌, subst, Bool, true, false, Option, none, some, List, [], ◌∷◌,
  ◌++◌, arith, Bytes, length, Option-cases, Bool-cases, ltb, ltb→lt, append-nil,
}
use dytech.Text.{equal}
use dytech.Core.Cache.{Ptr, Cache, update, find, try_load, try_insert}
use dytech.Core.Cache.Keys.{equal_refl, equal_sound}
use dytech.Core.Cache.Links.{NotIn, NotIn-append, detach-Linked}
use dytech.Core.Cache.Repr.{In, In-split, In-left, In-right, In-NotIn, cells, Holds}
use dytech.Core.Cache.Evict.{keep}
use dytech.Core.Cache.Load.{try_load_miss, try_load_hit}
use dytech.Core.Cache.Insert.Room.{try_insert_present, try_insert_large, try_insert_new}
use dytech.Core.Cache.Entries.{
  Entry, find_entry, touch, touch_found, remove_entry, shed, cells-made, insert_entry,
  insert_entry_at, find_entry-missing, find_entry-cells, remove_entry-cells, cells-append,
  shed-cells, cells-update,
}

-- The cache holds the nodes `ps`, and these are the entries `l`.
pub record Represents (c : Cache) (ps : List Ptr) (l : List Entry) : Type 0 where
  pub holds : Holds c ps
  pub entries : cells c.nodes.identifier c.nodes.content ps ≡ l

module _ (c : Cache) (key : Bytes) where
  missing-find_entry :
      (ps : List Ptr)
      → Holds c ps
      → find key c.mapping ≡ none
      → find_entry key (cells c.nodes.identifier c.nodes.content ps) ≡ none
  missing-find_entry ps h e = find_entry-missing c.nodes.identifier c.nodes.content key ps λ q i.
      elim (Bool-cases (equal (c.nodes.identifier q) key)) [
        | inl same ↦
            let clash : none ≡ some q =
              sym e ∙ ap (λ z. find z c.mapping) (sym (equal_sound _ key same)) ∙ h.complete q i in
            elim (none-ne-some q clash) [ ]
        | inr differs ↦ differs
      ]

  -- The nodes before the one that is found have other keys.
  before-other :
      (xs : List Ptr) (p : Ptr) (ys : List Ptr)
      → Holds c (xs ++ p ∷ ys)
      → c.nodes.identifier p ≡ key
      → (q : Ptr) → In q xs
      → equal (c.nodes.identifier q) key ≡ false
  before-other xs p ys h named q i = elim (Bool-cases (equal (c.nodes.identifier q) key)) [
    | inl same ↦
        let (next, prev, gone, l, out) = detach-Linked c.nodes c.head c.tail p xs ys h.linked in
        let ahead = NotIn-append p xs ys (NotIn-append p (xs ++ ys) (c.tail ∷ []) out.1).0 in
        let one = h.complete q (In-left q xs (p ∷ ys) i) in
        let two = h.complete p (In-right p xs (p ∷ ys) (inl refl)) in
        let keys : c.nodes.identifier q ≡ c.nodes.identifier p =
          equal_sound _ key same ∙ sym named in
        let again : q ≡ p = some_inj.0 (sym one ∙ ap (λ z. find z c.mapping) keys ∙ two) in
        absurd (In-NotIn q p xs i ahead.0 again)
    | inr differs ↦ differs
  ]

Represents-found :
    (c : Cache) (xs : List Ptr) (p : Ptr) (ys : List Ptr) (l : List Entry) (key : Bytes)
    → Represents c (xs ++ p ∷ ys) l
    → c.nodes.identifier p ≡ key
    → find_entry key l ≡ some (c.nodes.content p)
Represents-found c xs p ys l key r named =
    let same : equal (c.nodes.identifier p) key ≡ true =
      ap (λ z. equal z key) named ∙ equal_refl key in
    ap (find_entry key) (sym r.entries)
    ∙ find_entry-cells c.nodes.identifier c.nodes.content key xs p ys
        (before-other c key xs p ys r.holds named) same

-- What a load reports and appends for what the entries have under the key.
abbrev pub cached : Option Bytes → Bool
cached none = false
cached (some v) = true

abbrev pub or_nothing : Option Bytes → Bytes
or_nothing none = []
or_nothing (some v) = v

try_load-missing :
    (c : Cache) (ps : List Ptr) (l : List Entry) (key destination : Bytes) (now : ℕ)
    → Represents c ps l
    → find key c.mapping ≡ none
    → (c' : Cache) × (ps' : List Ptr) × (try_load c key destination now
        ≡ some (cached (find_entry key l), destination ++ or_nothing (find_entry key l), c'))
      × Represents c' ps' (touch key l)
      × (c'.capacity ≡ c.capacity)
unfolding touch touch_found
try_load-missing c ps l key destination now r e =
    let missing : find_entry key l ≡ none =
      ap (find_entry key) (sym r.entries) ∙ missing-find_entry c key ps r.holds e in
    (c, ps, rw (missing, append-nil) (try_load_miss c key destination now e), rw missing r, refl)

try_load-found :
    (c : Cache) (xs : List Ptr) (p : Ptr) (ys : List Ptr) (l : List Entry) (key destination : Bytes)
    → (now : ℕ) → Represents c (xs ++ p ∷ ys) l
    → c.nodes.identifier p ≡ key
    → (c' : Cache) × (ps' : List Ptr) × (try_load c key destination now
        ≡ some (cached (find_entry key l), destination ++ or_nothing (find_entry key l), c'))
      × Represents c' ps' (touch key l)
      × (c'.capacity ≡ c.capacity)
unfolding touch touch_found
try_load-found c xs p ys l key destination now r named =
    let identifier = c.nodes.identifier in
    let content = c.nodes.content in
    let same : equal (identifier p) key ≡ true = ap (λ z. equal z key) named ∙ equal_refl key in
    let out = before-other c key xs p ys r.holds named in
    let found = Represents-found c xs p ys l key r named in
    let (n, run, h, identifier_kept, content_kept) =
      try_load_hit c xs ys p destination now r.holds in
    let moved : cells identifier content ((xs ++ ys) ++ p ∷ [])
        ≡ touch_found key l (some (content p)) =
      cells-append identifier content (xs ++ ys) (p ∷ [])
      ∙ ap (λ z. z ++ (identifier p, content p) ∷ [])
          (sym (remove_entry-cells identifier content key xs p ys out same)
            ∙ ap (remove_entry key) r.entries)
      ∙ ap (λ z. remove_entry key l ++ (z, content p) ∷ []) named in
    (
      record c { nodes = n },
      (xs ++ ys) ++ p ∷ [],
      rw found (sym (ap (λ z. try_load c z destination now) named) ∙ run),
      rw found (record {
        holds = h;
        entries =
            ap (λ z. cells z n.content ((xs ++ ys) ++ p ∷ [])) identifier_kept
            ∙ ap (λ z. cells identifier z ((xs ++ ys) ++ p ∷ [])) content_kept
            ∙ moved;
      }),
      refl,
    )

-- `TryLoad` finds exactly what the list of entries has under the key, appends its content to the
-- destination, makes that entry the most recently used one, and does not fault.
pub try_load-touch :
    (c : Cache) (ps : List Ptr) (l : List Entry) (key destination : Bytes) (now : ℕ)
    → Represents c ps l
    → (c' : Cache) × (ps' : List Ptr) × (try_load c key destination now
        ≡ some (cached (find_entry key l), destination ++ or_nothing (find_entry key l), c'))
      × Represents c' ps' (touch key l)
      × (c'.capacity ≡ c.capacity)
try_load-touch c ps l key destination now r = elim (Option-cases (find key c.mapping)) [
  | inl e ↦ try_load-missing c ps l key destination now r e
  | inr (p, e) ↦
      let (i, named) = r.holds.sound key p e in
      let (xs, ys, split) = In-split p ps i in
      try_load-found c xs p ys l key destination now (subst (λ z. Represents c z l) split r) named
]

try_insert-room :
    (c : Cache) (ps : List Ptr) (l : List Entry) (key source : Bytes) (now : ℕ) (fresh : Ptr)
    → Represents c ps l
    → NotIn fresh (c.head ∷ (keep c.nodes.content c.capacity (length source) ps ++ c.tail ∷ []))
    → find key c.mapping ≡ none
    → ltb c.capacity (length source) ≡ false
    → (c' : Cache) × (ps' : List Ptr) × (try_insert c key source now fresh ≡ some (true, c'))
      × Represents c' ps' (shed c.capacity (length source) l ++ (key, source) ∷ [])
      × (c'.capacity ≡ c.capacity)
try_insert-room c ps l key source now fresh r out missing fits =
    let identifier = c.nodes.identifier in
    let content = c.nodes.content in
    let kept = keep content c.capacity (length source) ps in
    let made = cells (update identifier fresh key) (update content fresh source) (fresh ∷ []) in
    let away = (NotIn-append fresh kept (c.tail ∷ []) out.1).0 in
    let (c', run, h, capacity, found, content', identifier') =
      try_insert_new c ps key source now fresh r.holds missing (ground arith) out in
    (
      c',
      kept ++ fresh ∷ [],
      run,
      record {
        holds = h;
        entries =
            ap (λ z. cells z c'.nodes.content (kept ++ fresh ∷ [])) identifier'
            ∙ ap (λ z. cells (update identifier fresh key) z (kept ++ fresh ∷ [])) content'
            ∙ cells-append (update identifier fresh key) (update content fresh source) kept
                (fresh ∷ [])
            ∙ ap (λ z. z ++ made) (cells-update identifier content fresh key source kept away)
            ∙ ap (λ z. z ++ made)
                (sym (shed-cells identifier content c.capacity (length source) ps))
            ∙ ap (λ z. shed c.capacity (length source) z ++ made) r.entries
            ∙ ap (λ z. shed c.capacity (length source) l ++ z)
                (cells-made identifier content fresh key source);
      },
      capacity,
    )

-- `TryInsert` inserts a resource exactly where the list of entries does, drops the same entries for
-- it, and does not fault, whatever address outside the list the new node gets.
pub try_insert-insert_entry :
    (c : Cache) (ps : List Ptr) (l : List Entry) (key source : Bytes) (now : ℕ) (fresh : Ptr)
    → Represents c ps l
    → NotIn fresh (c.head ∷ (keep c.nodes.content c.capacity (length source) ps ++ c.tail ∷ []))
    → (c' : Cache) × (ps' : List Ptr) × (try_insert c key source now fresh
        ≡ some ((insert_entry c.capacity key source l).0, c'))
      × Represents c' ps' (insert_entry c.capacity key source l).1
      × (c'.capacity ≡ c.capacity)
unfolding insert_entry insert_entry_at
try_insert-insert_entry c ps l key source now fresh r out =
    elim (Option-cases (find key c.mapping)) [
      | inl e ↦
          let missing : find_entry key l ≡ none =
            ap (find_entry key) (sym r.entries) ∙ missing-find_entry c key ps r.holds e in
          elim (Bool-cases (ltb c.capacity (length source))) [
            | inl large ↦ (
              c,
              ps,
              rw (missing, insert_entry_at, large)
                  (try_insert_large c key source now fresh (ltb→lt _ _ large)),
              rw (missing, insert_entry_at, large) r,
              refl,
            )
            | inr fits ↦
                rw (missing, insert_entry_at, fits)
                  (try_insert-room c ps l key source now fresh r out e fits)
          ]
      | inr (p, e) ↦
          let (i, named) = r.holds.sound key p e in
          let (xs, ys, split) = In-split p ps i in
          let found =
            Represents-found c xs p ys l key (subst (λ z. Represents c z l) split r) named in
          (c, ps, rw found (try_insert_present c key source now fresh p e), rw found r, refl)
    ]
