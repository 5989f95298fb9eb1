-- ===== src/Core/Buffer/Pop.antt =====
-- What `FindAndPopTill` pops: the shortest prefix that holds the target, however the bytes came.
use dytech.Prelude.{
  ℕ, ◌+◌, ◌<◌, ◌≡◌, inl, inr, refl, Option, none, some, ◌++◌, Bytes, length, take, arith,
  Option-cases, take-append-drop, length-take, take-append_le, drop-append_le,
}
use dytech.Text.{find}
use dytech.Text.Find.{find_fits, find-take-none, find-take, find-append}
use dytech.Core.Buffer.{Buffer, push_back_array, find_and_pop_till}

-- What a pop may return on a buffer: nothing, where the target is not there, or the shortest
-- prefix of the content that holds the target, which ends in it.
abbrev pub Popped : Bytes → Bytes → Option Bytes × Buffer → Type 0
Popped content target (none, b) = (find content target ≡ none) × (b.buf ≡ content)
Popped content target (some r, b) =
    (r ++ b.buf ≡ content)
    × ((before : Bytes) × (r ≡ before ++ target))
    × ((k : ℕ) → k < length r → find (take k content) target ≡ none)

module _ (b : Buffer) (target : Bytes) where
  Popped-some :
      (pos : ℕ) → find b.buf target ≡ some pos → Popped b.buf target (find_and_pop_till b target)
  unfolding find_and_pop_till
  Popped-some pos e =
      rw (e, find_and_pop_till)
        (
          take-append-drop _ b.buf,
          (take pos b.buf, find-take b.buf target pos e),
          λ k h.
              find-take-none b.buf target pos k e
                (omega (arith, length-take (pos + length target) b.buf))
                (omega (arith, length-take (pos + length target) b.buf)),
        )

  -- `FindAndPopTill` either finds no target and leaves the buffer as it was, or splits the
  -- content into the shortest prefix that holds the target, which it returns, and the rest,
  -- which it keeps.
  pub find_and_pop_till-Popped : Popped b.buf target (find_and_pop_till b target)
  unfolding find_and_pop_till
  find_and_pop_till-Popped = elim (Option-cases (find b.buf target)) [
    | inl e ↦ rw (e, find_and_pop_till) (e, refl)
    | inr (pos, e) ↦ Popped-some pos e
  ]

-- Bytes that arrive behind a complete request do not change the request that is popped: the
-- result does not depend on how the bytes were cut into segments.
pub find_and_pop_till-push_back :
    (b : Buffer) (target r more : Bytes)
    → (find_and_pop_till b target).0 ≡ some r
    → find_and_pop_till (push_back_array b more) target
      ≡ (some r, push_back_array (find_and_pop_till b target).1 more)
unfolding find_and_pop_till push_back_array
find_and_pop_till-push_back b target r more h = elim (Option-cases (find b.buf target)) [
  | inl e ↦ absurd (ground (arith))
  | inr (pos, e) ↦
      let fits = find_fits b.buf target pos e in
      let popped : take (pos + length target) b.buf ≡ r = ground arith in
      ground (
        arith,
        find-append b.buf more target pos e,
        take-append_le (pos + length target) b.buf more fits,
        drop-append_le (pos + length target) b.buf more fits,
      )
]
