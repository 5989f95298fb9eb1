-- ===== src/Core/ThreadPool.antt =====
-- core/thread_pool.h and core/thread_pool.cc: workers that take tasks from a queue. The threads
-- interleave; a step is what one of them does while it holds the mutex, or between two such parts.
-- `stop_` is atomic and is set without the mutex.
pub mod Queue
pub mod Shutdown
use dytech.Prelude.{
  ℕ, ◌≡◌, Bool, true, false, List, [], ◌∷◌, ◌++◌, max, length, replicate, if◌then◌else◌,
}
use dytech.Text.{codes}
use dytech.Core.Result.{Result, ok, throws}

-- A task is named by a number; what it does is not looked at.
abbrev pub Task : Type 0
Task = ℕ

-- Where a worker stands: about to test the condition; with the condition found false, holding the
-- mutex, about to wait; in `wait`; at its task; returned.
pub data Worker : Type 0 where
  testing dozing asleep finished : Worker
  running : Task → Worker

-- The thread in `SubmitTask`: outside; past the test of `stop_`, with the mutex; past the push.
pub data Submitter : Type 0 where
  outside checked pushed : Submitter

-- The thread in `~ThreadPool`: before it; past `stop_ = true`; past `notify_all`, joining.
pub data Destroyer : Type 0 where
  before stopped joining : Destroyer

-- `submitted` and `started` record the tasks in the order in which they were pushed and taken.
pub record ThreadPool : Type 0 where
  pub workers : List Worker
  pub tasks_queue : List Task
  pub stop : Bool
  pub locked : Bool
  pub submitter : Submitter
  pub destroyer : Destroyer
  pub submitted : List Task
  pub started : List Task

abbrev pub k_min_thread_count : ℕ
k_min_thread_count = 2

-- `ThreadPool(thread_count)`.
unfoldable pub make_thread_pool : ℕ → ThreadPool
make_thread_pool thread_count = record {
  workers = replicate (max thread_count k_min_thread_count) testing;
  tasks_queue = [];
  stop = false;
  locked = false;
  submitter = outside;
  destroyer = before;
  submitted = [];
  started = [];
}

-- `GetSize`.
unfoldable pub get_size : ThreadPool → ℕ
get_size s = length s.workers

-- `SubmitTask`, where no other thread comes in between.
unfoldable pub submit_task : ThreadPool → Task → Result ThreadPool
submit_task s t =
    if s.stop
    then throws (codes "Submitting on a stopped ThreadPool")
    else ok (record s { tasks_queue = s.tasks_queue ++ t ∷ []; submitted = s.submitted ++ t ∷ [] })

-- `notify_all`, for one worker.
unfoldable pub wake : Worker → Worker
wake asleep = testing
wake testing = testing
wake dozing = dozing
wake finished = finished
wake (running t) = running t

unfoldable pub wake_all : List Worker → List Worker
unfolding wake
wake_all [] = []
wake_all (w ∷ ws) = wake w ∷ wake_all ws

unfoldable pub is_asleep : Worker → Bool
is_asleep asleep = true
is_asleep _ = false

-- Is some worker in `wait`?
unfoldable pub any_asleep : List Worker → Bool
unfolding is_asleep
any_asleep [] = false
any_asleep (w ∷ ws) = if is_asleep w then true else any_asleep ws

-- The steps of the threads. In a step a thread wakes only when it is notified.
pub data Step : ThreadPool → ThreadPool → Type 0 where
  take_task :
      (s : ThreadPool) (xs ys : List Worker) (t : Task) (rest : List Task)
      → s.workers ≡ xs ++ testing ∷ ys
      → s.locked ≡ false
      → s.tasks_queue ≡ t ∷ rest
      → Step s (record s {
        workers = xs ++ running t ∷ ys;
        tasks_queue = rest;
        started = s.started ++ t ∷ [];
      })
  leave :
      (s : ThreadPool) (xs ys : List Worker)
      → s.workers ≡ xs ++ testing ∷ ys
      → s.locked ≡ false
      → s.tasks_queue ≡ []
      → s.stop ≡ true
      → Step s (record s { workers = xs ++ finished ∷ ys })
  doze :
      (s : ThreadPool) (xs ys : List Worker)
      → s.workers ≡ xs ++ testing ∷ ys
      → s.locked ≡ false
      → s.tasks_queue ≡ []
      → s.stop ≡ false
      → Step s (record s { workers = xs ++ dozing ∷ ys; locked = true })
  sleep :
      (s : ThreadPool) (xs ys : List Worker)
      → s.workers ≡ xs ++ dozing ∷ ys
      → Step s (record s { workers = xs ++ asleep ∷ ys; locked = false })
  finish_task :
      (s : ThreadPool) (xs ys : List Worker) (t : Task)
      → s.workers ≡ xs ++ running t ∷ ys
      → Step s (record s { workers = xs ++ testing ∷ ys })
  submit_check :
      (s : ThreadPool)
      → s.submitter ≡ outside
      → s.locked ≡ false
      → s.stop ≡ false
      → Step s (record s { submitter = checked; locked = true })
  submit_push :
      (s : ThreadPool) (t : Task)
      → s.submitter ≡ checked
      → Step s (record s {
        tasks_queue = s.tasks_queue ++ t ∷ [];
        submitted = s.submitted ++ t ∷ [];
        submitter = pushed;
        locked = false;
      })
  notify_one :
      (s : ThreadPool) (xs ys : List Worker)
      → s.submitter ≡ pushed
      → s.workers ≡ xs ++ asleep ∷ ys
      → Step s (record s { workers = xs ++ testing ∷ ys; submitter = outside })
  notify_none :
      (s : ThreadPool)
      → s.submitter ≡ pushed
      → any_asleep s.workers ≡ false
      → Step s (record s { submitter = outside })
  set_stop :
      (s : ThreadPool)
      → s.destroyer ≡ before
      → Step s (record s { stop = true; destroyer = stopped })
  notify_all :
      (s : ThreadPool)
      → s.destroyer ≡ stopped
      → Step s (record s { workers = wake_all s.workers; destroyer = joining })

-- A thread that `wait` lets out of itself, with no notification.
pub data Wakes : ThreadPool → ThreadPool → Type 0 where
  wake_alone :
      (s : ThreadPool) (xs ys : List Worker)
      → s.workers ≡ xs ++ asleep ∷ ys
      → Wakes s (record s { workers = xs ++ testing ∷ ys })

-- Any row of steps, with such wake-ups between them.
pub data Reach (s : ThreadPool) : ThreadPool → Type 0 where
  here : Reach s s
  next : {t u : ThreadPool} → Reach s t → Step t u → Reach s u
  woken : {t u : ThreadPool} → Reach s t → Wakes t u → Reach s u
