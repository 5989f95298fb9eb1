-- ===== src/Core/DistributionAgent.antt =====
-- core/distribution_agent.h and core/distribution_agent.cc: the event loops that clients are given
-- to, one at random. The generator of random numbers is a parameter.
use mathlib.Core.Option
use dytech.Prelude.{
  ℕ, ◌+◌, ◌-◌, ◌%◌, ◌≤◌, ◌<◌, ◌≡◌, refl, ap, Option, ◌⊎◌, inl, inr, none, some, List, [], ◌∷◌, ◌++◌,
  arith, length, get_elem?, size_mod, zero, suc,
}
use dytech.Core.Connection.{LooperId}

pub record DistributionAgent : Type 0 where
  pub candidates : List LooperId

abbrev pub no_candidates : DistributionAgent
no_candidates = record { candidates = [] }

-- `AddCandidate`.
unfoldable pub add_candidate : DistributionAgent → LooperId → DistributionAgent
add_candidate a candidate = record { candidates = a.candidates ++ candidate ∷ [] }

-- `GenerateRandomNumber(upper_bound)`: a number from 0 up to the bound.
abbrev pub Generator : Type 0
Generator = ℕ → ℕ

abbrev pub IsUniform : Generator → Type 0
IsUniform generate = (bound : ℕ) → generate bound ≤ bound

-- `SelectCandidate`: a looper and its index; `none` is an access out of bounds. The bound is a
-- `size_t`, so it is the largest one where there is no candidate.
unfoldable pub select_candidate : Generator → DistributionAgent → Option (LooperId × ℕ)
select_candidate generate a =
    let idx = generate ((length a.candidates + size_mod - 1) % size_mod) in
    Option.map (λ l. (l, idx)) (get_elem? a.candidates idx)

get_elem?-lt : (xs : List ℕ) (i : ℕ) → i < length xs → (x : ℕ) × (get_elem? xs i ≡ some x)
get_elem?-lt [] i h = absurd (omega arith)
get_elem?-lt (x ∷ xs) zero h = (x, refl)
get_elem?-lt (x ∷ xs) (suc i) h = get_elem?-lt xs i (omega arith)

-- Where there is a candidate, the agent selects one of its candidates, at its index.
pub select_candidate-get_elem? :
    (generate : Generator) (a : DistributionAgent)
    → IsUniform generate
    → 0 < length a.candidates
    → length a.candidates < size_mod
    → (looper : LooperId) × (idx : ℕ) × (select_candidate generate a ≡ some (looper, idx))
      × (get_elem? a.candidates idx ≡ some looper)
unfolding select_candidate
select_candidate-get_elem? generate a uniform some_there small =
    let bound = (length a.candidates + size_mod - 1) % size_mod in
    let exact : bound ≡ length a.candidates - 1 = omega arith in
    let (looper, e) = get_elem?-lt a.candidates (generate bound) (omega (arith, uniform bound)) in
    (looper, generate bound, rw e, e)

get_elem?-nil : (i : ℕ) → get_elem? {A = LooperId} [] i ≡ none
get_elem?-nil zero = refl
get_elem?-nil (suc i) = refl

lt-get_elem? : (xs : List LooperId) (i : ℕ) {x : LooperId} → get_elem? xs i ≡ some x → i < length xs
lt-get_elem? [] zero h = cc
lt-get_elem? [] (suc i) h = cc
lt-get_elem? (x ∷ xs) zero h = omega arith
lt-get_elem? (x ∷ xs) (suc i) h = omega (arith, lt-get_elem? xs i h)

select_candidate-cases :
    (generate : Generator) (xs : List LooperId)
    → IsUniform generate
    → length xs < size_mod
    → ((looper : LooperId) × (idx : ℕ) × (select_candidate generate (record { candidates = xs })
          ≡ some (looper, idx))
        × (idx < length xs)
        × (get_elem? xs idx ≡ some looper))
      ⊎ ((xs ≡ []) × (select_candidate generate (record { candidates = xs }) ≡ none))
unfolding select_candidate
select_candidate-cases generate [] uniform small =
    let idx = generate ((0 + size_mod - 1) % size_mod) in
    inr (refl, ap (Option.map (λ l. (l, idx))) (get_elem?-nil idx))
select_candidate-cases generate (c ∷ cs) uniform small =
    let (looper, idx, e, at) =
      select_candidate-get_elem? generate (record { candidates = c ∷ cs }) uniform (omega arith)
        small in
    inl (looper, idx, e, lt-get_elem? (c ∷ cs) idx at, at)

-- For a generator that keeps to its bound and fewer candidates than a `size_t` can count, an agent
-- either selects one of its candidates, at an index below their number, or it has none and the access
-- is out of bounds, since the bound is then the largest `size_t`.
pub select_candidate-bounds :
    (generate : Generator) (a : DistributionAgent)
    → IsUniform generate
    → length a.candidates < size_mod
    → ((looper : LooperId) × (idx : ℕ) × (select_candidate generate a ≡ some (looper, idx))
        × (idx < length a.candidates)
        × (get_elem? a.candidates idx ≡ some looper))
      ⊎ ((a.candidates ≡ []) × (select_candidate generate a ≡ none))
select_candidate-bounds generate a = select_candidate-cases generate a.candidates
