-- ===== src/Text/Decimal.antt =====
-- `std::to_string` of a `size_t` prints the number: reading the digits back gives it.
use dytech.Prelude.{
  ℕ, zero, suc, ◌+◌, ◌-◌, ◌*◌, ◌/◌, ◌^◌, ◌<◌, ◌≡◌, refl, [], ◌∷◌, ◌++◌, arith, Bytes, ltb,
  Bool-cases, inl, inr, size_mod,
}
use native.Mathlib.Nat.{pow-suc, mod-eq_of_lt}
use dytech.Text.{digits, to_string}

-- The value of a row of decimal digits.
pub decimal_from : ℕ → Bytes → ℕ
decimal_from acc [] = acc
decimal_from acc (c ∷ cs) = decimal_from (acc * 10 + (c - b'0')) cs

decimal_from-append :
    (acc : ℕ) (s t : Bytes) → decimal_from acc (s ++ t) ≡ decimal_from (decimal_from acc s) t
unfolding decimal_from
decimal_from-append acc [] t = refl
decimal_from-append acc (c ∷ s) t = decimal_from-append (acc * 10 + (c - b'0')) s t

decimal-digits : (f n : ℕ) → n < 10 ^ f → decimal_from 0 (digits f n) ≡ n
unfolding digits decimal_from
decimal-digits zero n h = omega arith
decimal-digits (suc f) n h = elim (Bool-cases (ltb n 10)) [
  | inl small ↦ rw small (omega arith)
  | inr large ↦
      let shorter : n / 10 < 10 ^ f = omega (arith, pow-suc 10 f) in
      rw (large, decimal_from-append, decimal-digits f (n / 10) shorter) (omega arith)
]

-- What `std::to_string` prints of a `size_t` reads back as the same number.
pub decimal-to_string : (n : ℕ) → n < size_mod → decimal_from 0 (to_string n) ≡ n
unfolding to_string
decimal-to_string n h = rw (mod-eq_of_lt h) (decimal-digits 20 n (omega arith))
