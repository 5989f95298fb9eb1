-- ===== src/Logger/Idle.antt =====
-- What the writing thread does when there is nothing to write.
use dytech.Prelude.{ℕ, ◌+◌, ◌<◌, ◌≤◌, ◌≡◌, refl, sym, ap, subst, true, false, [], arith}
use dytech.Logger.{
  Logger, testing, flushed, Step, skip, again, should_write, k_refresh_threshold_duration,
}

-- Once more than the refresh threshold has passed since the last writing and no message is queued,
-- the writing thread does not sleep: a round of its loop brings it back to the very same state, in
-- which its condition holds at every later time.
pub idle-spins :
    (s : Logger) (now : ℕ)
    → s.writer ≡ testing
    → s.done ≡ false
    → s.queue ≡ []
    → s.last_flush + k_refresh_threshold_duration < now
    → (t : Logger) × Step s t × Step t s × ((later : ℕ) → now ≤ later → should_write s later ≡ true)
unfolding should_write
idle-spins s now at running empty long =
    let s' = record s { writer = flushed } in
    (
      s',
      skip s now at (ground arith) empty,
      subst (Step s') (ap (λ w. record s { writer = w }) (sym at)) (again s' refl running),
      λ later h. ground arith,
    )
