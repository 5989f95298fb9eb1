-- ===== src/Core/ThreadPool/Shutdown.antt =====
-- `~ThreadPool` sets `stop_` and notifies without the mutex: a worker that has just found its
-- condition false misses both.
use dytech.Prelude.{
  ℕ, ◌-◌, ◌≡◌, refl, sym, ap, subst, true, false, List, [], ◌∷◌, ◌++◌, arith, append_assoc,
  replicate, zero, suc, max,
}
use dytech.Core.ThreadPool.{
  ThreadPool, Worker, testing, dozing, asleep, finished, running, Step, Reach, here, next, joining,
  before, make_thread_pool, wake_all, outside, take_task, leave, doze, sleep, finish_task,
  submit_check, submit_push, notify_one, notify_none, set_stop, notify_all, k_min_thread_count,
}
use dytech.Core.ThreadPool.Queue.{count, count-append}

-- One for a worker that can go on by itself.
abbrev awake : Worker → ℕ
awake asleep = 0
awake finished = 0
awake _ = 1

-- A pool that was stopped and notified, with no task and no worker that is awake, is at a standstill.
record IsStuck (s : ThreadPool) : Type 0 where
  destroyed : s.destroyer ≡ joining
  idle : s.submitter ≡ outside
  ended : s.stop ≡ true
  quiet : count awake s.workers ≡ 0

none_awake :
    {s : ThreadPool} (xs ys : List Worker) (w : Worker)
    → IsStuck s
    → s.workers ≡ xs ++ w ∷ ys
    → awake w ≡ 1
    → ⊥
none_awake xs ys w v e one =
    let a = count-append awake xs w ys in
    let b = ap (count awake) e in let c = v.quiet in omega arith

IsStuck-no-Step : {s t : ThreadPool} → IsStuck s → Step s t → ⊥
IsStuck-no-Step v (take_task s xs ys t rest e free q) = none_awake xs ys testing v e refl
IsStuck-no-Step v (leave s xs ys e free q stop) = none_awake xs ys testing v e refl
IsStuck-no-Step v (doze s xs ys e free q stop) = none_awake xs ys testing v e refl
IsStuck-no-Step v (sleep s xs ys e) = none_awake xs ys dozing v e refl
IsStuck-no-Step v (finish_task s xs ys t e) = none_awake xs ys (running t) v e refl
IsStuck-no-Step v (submit_check s out free stop) = cc (v.ended)
IsStuck-no-Step v (submit_push s t c) = cc (v.idle)
IsStuck-no-Step v (notify_one s xs ys p e) = cc (v.idle)
IsStuck-no-Step v (notify_none s p e) = cc (v.idle)
IsStuck-no-Step v (set_stop s d) = cc (v.destroyed)
IsStuck-no-Step v (notify_all s d) = cc (v.destroyed)

-- The pool behind the destructor's notification, with these workers.
abbrev ending : List Worker → ThreadPool
ending workers = record {
  workers = workers;
  tasks_queue = [];
  stop = true;
  locked = false;
  submitter = outside;
  destroyer = joining;
  submitted = [];
  started = [];
}

-- The workers that test their condition after that return, one by one.
all_leave :
    {s : ThreadPool} (xs : List Worker) (n : ℕ)
    → Reach s (ending (xs ++ replicate n testing))
    → Reach s (ending (xs ++ replicate n finished))
all_leave xs zero r = r
all_leave {s} xs (suc n) r =
    let moved : Reach s (ending (xs ++ finished ∷ replicate n testing)) =
      next r (leave _ xs (replicate n testing) refl refl refl refl) in
    subst (λ ws. Reach s (ending ws)) (append_assoc xs (finished ∷ []) (replicate n finished))
      (all_leave (xs ++ finished ∷ []) n (
        subst (λ ws. Reach s (ending ws))
          (sym (append_assoc xs (finished ∷ []) (replicate n testing))) moved))

wake_all-replicate : (n : ℕ) → wake_all (replicate n testing) ≡ replicate n testing
unfolding wake_all
wake_all-replicate zero = refl
wake_all-replicate (suc n) = ap (◌∷◌ testing) (wake_all-replicate n)

-- The pool of `suc n` workers, at its start.
abbrev starting : ℕ → ThreadPool
starting n = record (ending (replicate (suc n) testing)) { stop = false; destroyer = before }

-- The first worker finds its condition false; the destructor sets the flag and notifies; the worker
-- goes to sleep.
lost : (n : ℕ) → Reach (starting n) (ending (asleep ∷ replicate n testing))
unfolding wake_all
lost n =
    let tested = next here (doze (starting n) [] (replicate n testing) refl refl refl refl) in
    let flagged = next tested (set_stop _ refl) in
    let notified = next flagged (notify_all _ refl) in
    let slept = next notified (sleep _ [] (wake_all (replicate n testing)) refl) in
    subst (λ ws. Reach (starting n) (ending (asleep ∷ ws))) (wake_all-replicate n) slept

count_left : (n : ℕ) → count awake (asleep ∷ replicate n finished) ≡ 0
unfolding count
count_left zero = refl
count_left (suc n) = omega (arith, count_left n)

starting-make : (n : ℕ) → make_thread_pool n ≡ starting (max n k_min_thread_count - 1)
unfolding make_thread_pool
starting-make n =
    let e : max n k_min_thread_count ≡ suc (max n k_min_thread_count - 1) = omega arith in
    ap (λ m. record (ending (replicate m testing)) { stop = false; destroyer = before }) e

-- In a pool of any size the destructor can wait for ever: its flag and its notification can come
-- between a worker's test of the condition and its sleep; then every other worker returns, and no
-- thread of the pool can do anything more, unless the sleeping one wakes without a notification.
pub stop-lost_wakeup :
    (n : ℕ)
    → (s : ThreadPool) × Reach (make_thread_pool n) s
      × (s.destroyer ≡ joining)
      × (s.workers ≡ asleep ∷ replicate (max n k_min_thread_count - 1) finished)
      × ((t : ThreadPool) → Step s t → ⊥)
stop-lost_wakeup n =
    let k = max n k_min_thread_count - 1 in
    (
      ending (asleep ∷ replicate k finished),
      subst (λ p. Reach p (ending (asleep ∷ replicate k finished))) (sym (starting-make n))
          (all_leave (asleep ∷ []) k (lost k)),
      refl,
      refl,
      λ t st.
          IsStuck-no-Step
            (record { destroyed = refl; idle = refl; ended = refl; quiet = count_left k }) st,
    )
