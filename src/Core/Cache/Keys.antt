-- ===== src/Core/Cache/Keys.antt =====
-- The keys of the map: what is found after entries were erased.
use dytech.Prelude.{
  ◌≤◌, ◌<◌, ◌≡◌, inl, inr, refl, ap, ◌∙◌, true, false, none, some, List, [], ◌∷◌, arith, Bytes,
  length, Bool-cases, ◌==◌, ==_iff,
}
use dytech.Text.{equal}
use dytech.Core.Cache.{Ptr, find, erase}

pub equal_refl : (s : Bytes) → equal s s ≡ true
unfolding equal
equal_refl [] = refl
equal_refl (b ∷ s) = let h = equal_refl s in ground arith

pub equal_sound : (s t : Bytes) → equal s t ≡ true → s ≡ t
unfolding equal
equal_sound [] [] e = refl
equal_sound [] (b ∷ t) e = ground arith
equal_sound (a ∷ s) [] e = ground arith
equal_sound (a ∷ s) (b ∷ t) e = elim (Bool-cases (a == b)) [
  | inl same ↦
      let h = equal_sound s t (simp same at e) in
      ap (λ z. z ∷ s) ((==_iff a b).0 same) ∙ ap (λ z. b ∷ z) h
  | inr other ↦ let e' : false ≡ true = simp other at e in ground arith
]

-- After a key was erased it is not found.
pub find-erase-same : (key : Bytes) (m : List (Bytes × Ptr)) → find key (erase key m) ≡ none
unfolding find erase
find-erase-same key [] = refl
find-erase-same key ((k, p) ∷ m) = let h = find-erase-same key m in ground arith

-- Another key is found as before.
pub find-erase-other :
    (key other : Bytes) (m : List (Bytes × Ptr))
    → equal other key ≡ false
    → find key (erase other m) ≡ find key m
unfolding find erase
find-erase-other key other [] ne = refl
find-erase-other key other ((k, p) ∷ m) ne =
    let h = find-erase-other key other m ne in
    elim (Bool-cases (equal k other)) [
      | inl same ↦
          let differs : equal k key ≡ false =
            ap (λ z. equal z key) (equal_sound k other same) ∙ ne in
          ground arith
      | inr differs ↦ ground arith
    ]

erase-length_le : (key : Bytes) (m : List (Bytes × Ptr)) → length (erase key m) ≤ length m
unfolding erase
erase-length_le key [] = omega arith
erase-length_le key ((k, p) ∷ m) = let h = erase-length_le key m in ground arith

-- Erasing a key that is found makes the map smaller.
pub erase-length :
    (key : Bytes) (m : List (Bytes × Ptr)) (p : Ptr)
    → find key m ≡ some p
    → length (erase key m) < length m
unfolding find erase
erase-length key [] p e = ground arith
erase-length key ((k, q) ∷ m) p e =
    let shorter = erase-length_le key m in
    elim (Bool-cases (equal k key)) [
      | inl same ↦ ground arith
      | inr differs ↦ let h = erase-length key m p (simp differs at e) in ground arith
    ]
