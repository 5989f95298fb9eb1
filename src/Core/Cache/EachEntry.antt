-- ===== src/Core/Cache/EachEntry.antt =====
-- What holds of every entry is kept by the operations.
use dytech.Prelude.{
  ℕ, ◌+◌, ◌≡◌, subst, some, List, [], ◌∷◌, arith, Bytes, All, length, ltb, Option-cases, Bool-cases,
  inl, inr, All-concat,
}
use dytech.Text.{equal}
use dytech.Core.Cache.Keys.{equal_sound}
use dytech.Core.Cache.Entries.{
  Entry, find_entry, touch, touch_found, remove_entry, insert_entry, insert_entry_at, shed, sizes,
}

module _ (P : Entry → Type 0) where
  pub find_entry-All :
      (key v : Bytes) (l : List Entry) → All P l → find_entry key l ≡ some v → P (key, v)
  unfolding find_entry
  find_entry-All key v [] h e = absurd (ground arith)
  find_entry-All key v ((k, u) ∷ l) h e = elim (Bool-cases (equal k key)) [
    | inl same ↦
        let value : u ≡ v = ground arith in
        subst (λ x. P (x, v)) (equal_sound k key same) (subst (λ x. P (k, x)) value h.0)
    | inr differs ↦ find_entry-All key v l h.1 (rw differs at e)
  ]

  remove_entry-All : (key : Bytes) (l : List Entry) → All P l → All P (remove_entry key l)
  unfolding remove_entry
  remove_entry-All key [] h = tt
  remove_entry-All key ((k, u) ∷ l) h = elim (Bool-cases (equal k key)) [
    | inl same ↦ rw same h.1
    | inr differs ↦ rw differs (h.0, remove_entry-All key l h.1)
  ]

  pub touch-All : (key : Bytes) (l : List Entry) → All P l → All P (touch key l)
  unfolding touch touch_found
  touch-All key l h = elim (Option-cases (find_entry key l)) [
    | inl missing ↦ rw (missing, touch_found) h
    | inr (v, found) ↦
        rw (found, touch_found)
          (All-concat P (remove_entry key l) (key, v) (remove_entry-All key l h)
            (find_entry-All key v l h found))
  ]

  shed-All : (capacity size : ℕ) (l : List Entry) → All P l → All P (shed capacity size l)
  unfolding shed sizes
  shed-All capacity size [] h = tt
  shed-All capacity size ((k, u) ∷ l) h =
      elim (Bool-cases (ltb capacity (sizes ((k, u) ∷ l) + size))) [
        | inl more ↦ rw more (shed-All capacity size l h.1)
        | inr fits ↦ rw fits h
      ]

  pub insert_entry-All :
      (capacity : ℕ) (key source : Bytes) (l : List Entry)
      → All P l
      → P (key, source)
      → All P (insert_entry capacity key source l).1
  unfolding insert_entry insert_entry_at
  insert_entry-All capacity key source l h new = elim (Option-cases (find_entry key l)) [
    | inr (v, found) ↦ rw (found, insert_entry_at) h
    | inl missing ↦ elim (Bool-cases (ltb capacity (length source))) [
      | inl large ↦ rw (missing, insert_entry_at, large) h
      | inr fits ↦
          rw (missing, insert_entry_at, fits)
            (All-concat P (shed capacity (length source) l) (key, source)
              (shed-All capacity (length source) l h) new)
    ]
  ]
