-- ===== src/Text.antt =====
-- The part of `std::string`, `std::string_view` and `std::to_string` that the sources use.
-- A position is an `Option`: `none` stands for `npos`.
pub mod Find
pub mod Decimal
use Prim.Native.Char.{code}
use Prim.Native.String.{String}
use mathlib.Core.Option
use dytech.Prelude.{
  ℕ, zero, suc, ◌+◌, ◌-◌, ◌/◌, ◌%◌, Bool, true, false, ◌&&◌, ◌||◌, not, Option, none, some, List,
  [], ◌∷◌, ◌++◌, Bytes, ltb, leb, ◌==◌, if◌then◌else◌, length, take, drop, size_mod,
}

-- The bytes of a literal; every literal of the sources is ASCII.
abbrev pub codes : String → Bytes
codes String.[] = []
codes (String.◌∷◌ c s) = code c ∷ codes s

-- `operator==` on strings.
unfoldable pub equal : Bytes → Bytes → Bool
equal [] [] = true
equal [] (b ∷ t) = false
equal (a ∷ s) [] = false
equal (a ∷ s) (b ∷ t) = if a == b then equal s t else false

unfoldable pub empty : Bytes → Bool
empty [] = true
empty (c ∷ cs) = false

-- Does the first text begin with the second?
unfoldable pub starts_with : Bytes → Bytes → Bool
starts_with s [] = true
starts_with [] (t ∷ ts) = false
starts_with (c ∷ cs) (t ∷ ts) = c == t && starts_with cs ts

-- `str.find(target)`.
unfoldable pub find : Bytes → Bytes → Option ℕ
find [] target = if empty target then some 0 else none
find (c ∷ cs) target =
    if starts_with (c ∷ cs) target then some 0 else Option.map suc (find cs target)

-- `str.find(target, pos)`.
unfoldable pub find_from : Bytes → Bytes → ℕ → Option ℕ
find_from str target pos =
    if leb pos (length str) then Option.map (λ n. pos + n) (find (drop pos str) target) else none

-- `str.substr(pos, count)`.
unfoldable pub substr : Bytes → ℕ → ℕ → Bytes
substr str pos count = take count (drop pos str)

-- Is the byte one of `delim`?
unfoldable pub one_of : Bytes → ℕ → Bool
one_of [] c = false
one_of (d ∷ delim) c = c == d || one_of delim c

-- `str.find_first_not_of(delim)`.
unfoldable pub find_first_not_of : Bytes → Bytes → Option ℕ
find_first_not_of [] delim = none
find_first_not_of (c ∷ cs) delim =
    if one_of delim c then Option.map suc (find_first_not_of cs delim) else some 0

-- `str.find_last_not_of(delim)`.
unfoldable pub find_last_not_of : Bytes → Bytes → Option ℕ
find_last_not_of [] delim = none
find_last_not_of (c ∷ cs) delim = elim (find_last_not_of cs delim) [
  | some n ↦ some (suc n)
  | none ↦ if one_of delim c then none else some 0
]

-- `str.find_last_of(delim)`.
unfoldable pub find_last_of : Bytes → Bytes → Option ℕ
find_last_of [] delim = none
find_last_of (c ∷ cs) delim = elim (find_last_of cs delim) [
  | some n ↦ some (suc n)
  | none ↦ if one_of delim c then some 0 else none
]

-- A `std::string_view`: its characters, and the bytes of the object that it looks into from
-- its end up to the terminating zero.
pub record StringView : Type 0 where
  pub chars : Bytes
  pub after : Bytes

-- A view of a whole `std::string` or of a literal: the terminating zero follows.
abbrev pub view : Bytes → StringView
view s = record { chars = s; after = [] }

-- The view `v.substr(pos, count)` looks into the same object.
unfoldable pub sub_view : StringView → ℕ → ℕ → StringView
unfolding substr
sub_view v pos count = record {
  chars = substr v.chars pos count;
  after = drop (pos + count) v.chars ++ v.after;
}

-- What a `std::string` made from a `const char*` holds: the bytes up to the first zero.
unfoldable pub c_str : Bytes → Bytes
c_str [] = []
c_str (c ∷ cs) = if c == 0 then [] else c ∷ c_str cs

-- `std::string(v.data())`.
unfoldable pub data_string : StringView → Bytes
unfolding c_str
data_string v = c_str (v.chars ++ v.after)

-- Decimal digits, most significant first; a `size_t` has at most 20 of them.
unfoldable pub digits : ℕ → ℕ → Bytes
digits zero n = []
digits (suc f) n =
    let rest = digits f (n / 10) in
    if ltb n 10 then (b'0' + n) ∷ [] else rest ++ (b'0' + n % 10) ∷ []

-- `std::to_string(size_t)`.
unfoldable pub to_string : ℕ → Bytes
unfolding digits
to_string n = digits 20 (n % size_mod)
