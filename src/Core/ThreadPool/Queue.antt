-- ===== src/Core/ThreadPool/Queue.antt =====
-- No task is lost, doubled or overtaken, also while the pool is being destroyed.
use dytech.Prelude.{
  ℕ, ◌+◌, ◌<◌, ◌≤◌, subst, ◌≡◌, ◌≢◌, refl, sym, ap, ◌∙◌, Bool, true, false, List, [], ◌∷◌, ◌++◌,
  arith, append_assoc, append-nil, replicate, zero, suc, max,
}
use mathlib.Core.Bool.{false≢true}
use dytech.Core.ThreadPool.{
  Submitter, Task, ThreadPool, Worker, testing, dozing, asleep, finished, running, Step, Reach,
  here, next, make_thread_pool, wake_all, checked, take_task, leave, doze, sleep, finish_task,
  submit_check, submit_push, notify_one, notify_none, set_stop, notify_all, Wakes, wake_alone,
  woken, k_min_thread_count,
}

-- How many workers stand at a place.
unfoldable pub count : (Worker → ℕ) → List Worker → ℕ
count f [] = 0
count f (w ∷ ws) = f w + count f ws

-- One for a worker that has returned.
abbrev pub left : Worker → ℕ
left finished = 1
left _ = 0

-- One for a worker, and for a submitter, that holds the mutex.
abbrev pub in_mutex : Worker → ℕ
in_mutex dozing = 1
in_mutex _ = 0

abbrev pub submitting : Submitter → ℕ
submitting checked = 1
submitting _ = 0

abbrev pub as_number : Bool → ℕ
as_number true = 1
as_number false = 0

pub count-append :
    (f : Worker → ℕ) (xs : List Worker) (w : Worker) (ys : List Worker)
    → count f (xs ++ w ∷ ys) ≡ f w + count f (xs ++ ys)
unfolding count
count-append f [] w ys = refl
count-append f (x ∷ xs) w ys = omega (arith, count-append f xs w ys)

count-wake_all :
    (f : Worker → ℕ)
    → f asleep ≡ f testing
    → (ws : List Worker) → count f (wake_all ws) ≡ count f ws
unfolding count wake_all
count-wake_all f e [] = refl
count-wake_all f e (w ∷ ws) = ground (arith, count-wake_all f e ws)

count-replicate : (f : Worker → ℕ) → f testing ≡ 0 → (n : ℕ) → count f (replicate n testing) ≡ 0
unfolding count
count-replicate f e zero = refl
count-replicate f e (suc n) = omega (arith, count-replicate f e n)

as_number_le : (b : Bool) → as_number b ≤ 1
as_number_le true = omega arith
as_number_le false = omega arith

nil_ne_cons : {t : Task} {q : List Task} → [] ≡ t ∷ q → ⊥
nil_ne_cons e = cc

-- The tasks that were started and those in the queue are the submitted ones, in order; at most one
-- thread holds the mutex, and exactly where it is locked; and once a worker has returned, nothing is
-- left to do and nothing can come.
pub record IsSound (s : ThreadPool) : Type 0 where
  pub in_order : s.started ++ s.tasks_queue ≡ s.submitted
  pub exclusive : count in_mutex s.workers + submitting s.submitter ≡ as_number s.locked
  pub drained :
      0 < count left s.workers → (s.stop ≡ true) × (s.tasks_queue ≡ []) × (s.submitter ≢ checked)

pub make_thread_pool-IsSound : (n : ℕ) → IsSound (make_thread_pool n)
unfolding make_thread_pool
make_thread_pool-IsSound n = record {
  in_order = refl;
  exclusive = omega (arith, count-replicate in_mutex refl (max n k_min_thread_count));
  drained = λ h. absurd (omega (arith, count-replicate left refl (max n k_min_thread_count)));
}

-- A worker moves from one place to another.
module _ (s : ThreadPool) (xs ys : List Worker) (w w' : Worker) (e : s.workers ≡ xs ++ w ∷ ys) where
  count-moved : (f : Worker → ℕ) → count f (xs ++ w' ∷ ys) + f w ≡ count f s.workers + f w'
  count-moved f =
      let a = count-append f xs w ys in
      let b = count-append f xs w' ys in let c = ap (count f) e in omega arith

pub Step-IsSound : {s t : ThreadPool} → Step s t → IsSound s → IsSound t
Step-IsSound (take_task s xs ys t rest e free q) v =
    let l = count-moved s xs ys testing (running t) e left in
    let m = count-moved s xs ys testing (running t) e in_mutex in
    record {
      in_order =
          append_assoc s.started (t ∷ []) rest ∙ ap (λ z. s.started ++ z) (sym q) ∙ v.in_order;
      exclusive = omega (arith, v.exclusive);
      drained = λ h. absurd (nil_ne_cons (sym (v.drained (omega arith)).1 ∙ q));
    }
Step-IsSound (leave s xs ys e free q stop) v =
    let m = count-moved s xs ys testing finished e in_mutex in
    let x = v.exclusive in
    let unlocked = ap as_number free in
    record {
      in_order = v.in_order;
      exclusive = omega arith;
      drained = λ h. (stop, q, λ c. let d = ap submitting c in absurd (omega arith));
    }
Step-IsSound (doze s xs ys e free q stop) v =
    let l = count-moved s xs ys testing dozing e left in
    let m = count-moved s xs ys testing dozing e in_mutex in
    let x = v.exclusive in
    let unlocked = ap as_number free in
    record {
      in_order = v.in_order;
      exclusive = omega arith;
      drained = λ h. v.drained (omega arith);
    }
Step-IsSound (sleep s xs ys e) v =
    let l = count-moved s xs ys dozing asleep e left in
    let m = count-moved s xs ys dozing asleep e in_mutex in
    let x = v.exclusive in
    let at_most = as_number_le s.locked in
    record {
      in_order = v.in_order;
      exclusive = omega arith;
      drained = λ h. v.drained (omega arith);
    }
Step-IsSound (finish_task s xs ys t e) v =
    let l = count-moved s xs ys (running t) testing e left in
    let m = count-moved s xs ys (running t) testing e in_mutex in
    record {
      in_order = v.in_order;
      exclusive = omega (arith, v.exclusive);
      drained = λ h. v.drained (omega arith);
    }
Step-IsSound (submit_check s out free stop) v =
    let x = v.exclusive in
    let unlocked = ap as_number free in
    let idle = ap submitting out in
    record {
      in_order = v.in_order;
      exclusive = omega arith;
      drained = λ h. absurd (false≢true (sym stop ∙ (v.drained h).0));
    }
Step-IsSound (submit_push s t c) v =
    let x = v.exclusive in
    let busy = ap submitting c in
    let at_most = as_number_le s.locked in
    record {
      in_order =
          sym (append_assoc s.started s.tasks_queue (t ∷ [])) ∙ ap (λ z. z ++ t ∷ []) v.in_order;
      exclusive = omega arith;
      drained = λ h. absurd ((v.drained h).2 c);
    }
Step-IsSound (notify_one s xs ys p e) v =
    let l = count-moved s xs ys asleep testing e left in
    let m = count-moved s xs ys asleep testing e in_mutex in
    let x = v.exclusive in
    let idle = ap submitting p in
    record {
      in_order = v.in_order;
      exclusive = omega arith;
      drained = λ h. ((v.drained (omega arith)).0, (v.drained (omega arith)).1, λ c. cc);
    }
Step-IsSound (notify_none s p e) v =
    let x = v.exclusive in
    let idle = ap submitting p in
    record {
      in_order = v.in_order;
      exclusive = omega arith;
      drained = λ h. ((v.drained h).0, (v.drained h).1, λ c. cc);
    }
Step-IsSound (set_stop s d) v = record {
  in_order = v.in_order;
  exclusive = v.exclusive;
  drained = λ h. (refl, (v.drained h).1, (v.drained h).2);
}
Step-IsSound (notify_all s d) v = record {
  in_order = v.in_order;
  exclusive = omega (arith, v.exclusive, count-wake_all in_mutex refl s.workers);
  drained = λ h. v.drained (subst (λ z. 0 < z) (count-wake_all left refl s.workers) h);
}

Wakes-IsSound : {s t : ThreadPool} → Wakes s t → IsSound s → IsSound t
Wakes-IsSound (wake_alone s xs ys e) v =
    let l = count-moved s xs ys asleep testing e left in
    let m = count-moved s xs ys asleep testing e in_mutex in
    record {
      in_order = v.in_order;
      exclusive = omega (arith, v.exclusive);
      drained = λ h. v.drained (omega arith);
    }

Reach-IsSound : {s t : ThreadPool} → IsSound s → Reach s t → IsSound t
Reach-IsSound v here = v
Reach-IsSound v (next r st) = Step-IsSound st (Reach-IsSound v r)
Reach-IsSound v (woken r w) = Wakes-IsSound w (Reach-IsSound v r)

-- Whatever the threads do, spurious wake-ups included, the tasks are started in the order in which
-- they were submitted, each at most once, and those not started yet are in the queue; and as soon
-- as one worker has returned, all submitted tasks were started and no more is accepted.
pub Reach-in_order :
    (n : ℕ) {s : ThreadPool}
    → Reach (make_thread_pool n) s
    → (s.started ++ s.tasks_queue ≡ s.submitted)
      × (0 < count left s.workers → (s.started ≡ s.submitted) × (s.stop ≡ true))
Reach-in_order n {s} r =
    let v = Reach-IsSound (make_thread_pool-IsSound n) r in
    (
      v.in_order,
      λ h. (
        sym (append-nil s.started) ∙ ap (λ z. s.started ++ z) (sym (v.drained h).1) ∙ v.in_order,
        (v.drained h).0,
      ),
    )
